-- ===== src/Launch.antt =====
-- The loop over the attempts to run a replica's container, `launch` of
-- packages/core/canyonos_core/reconciler/replicas.py. What Docker answers to an attempt is a
-- parameter.
mod Attempts
mod Tests
use canyonos.Prelude.{
  ℕ, zero, suc, Bool, true, false, not, ◌&&◌, Option, none, some, ◌==◌, if◌then◌else◌,
}

abbrev pub max_port_attempts : ℕ
max_port_attempts = 50

-- What Docker answers: the container runs, a port is taken and perhaps named, the env file has
-- whitespace, or another failure.
pub data Answer : Type 0 where
  runs : Answer
  conflict : Option ℕ → Answer
  whitespace : Answer
  broken : Answer

-- How the loop ends: with the host port and the API port in use, or with one of its errors.
pub data Outcome : Type 0 where
  launched : ℕ → Option ℕ → Outcome
  port_in_use : ℕ → Outcome
  bad_env_file : Outcome
  failed_to_launch : Outcome
  no_free_port : Outcome

-- How one attempt ends: with the loop, or with the ports of the next attempt.
pub data Step : Type 0 where
  done : Outcome → Step
  retry : ℕ → Option ℕ → Step

-- `if api_port and clashed == api_port`
abbrev pub is_api : Option ℕ → Option ℕ → Bool
is_api (some (suc a)) (some p) = p == suc a
is_api _ _ = false

abbrev pub bump : Option ℕ → Option ℕ
bump none = none
bump (some a) = some (suc a)

-- The retry on the next host port, unless the clash is over another port.
abbrev pub retry_host : Option ℕ → ℕ → Option ℕ → Step
retry_host none host api = retry (suc host) api
retry_host (some p) host api = if p == host then retry (suc host) api else done (port_in_use p)

-- `fixed` is whether the endpoint's config sets `api_port`.
unfoldable pub after_attempt : Bool → Answer → ℕ → Option ℕ → Step
after_attempt fixed runs host api = done (launched host api)
after_attempt fixed (conflict clashed) host api =
    if is_api api clashed && not fixed then retry host (bump api) else retry_host clashed host api
after_attempt fixed whitespace host api = done bad_env_file
after_attempt fixed broken host api = done failed_to_launch

-- `docker i host api` is the answer to attempt `i` with these ports.
module _ (fixed : Bool) (docker : ℕ → ℕ → Option ℕ → Answer) where
  abbrev pub attempt : ℕ → ℕ → Option ℕ → Step
  attempt i host api = after_attempt fixed (docker i host api) host api

  -- `attempts` more attempts, from attempt `i` on.
  unfoldable pub attempts_from : ℕ → ℕ → ℕ → Option ℕ → Outcome
  attempts_from zero i host api = no_free_port
  attempts_from (suc n) i host api = elim (attempt i host api) [
    | done o ↦ o
    | retry host' api' ↦ attempts_from n (suc i) host' api'
  ]

  unfoldable pub launch : ℕ → Option ℕ → Outcome
  launch host api = attempts_from max_port_attempts 0 host api
