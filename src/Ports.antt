-- ===== src/Ports.antt =====
-- Port numbers: `find_free_port` of packages/core/canyonos_core/controller/utils/port_utils.py and
-- `_claim_host_port` of packages/core/canyonos_core/reconciler/replica_provisioner.py. Whether a
-- port can be bound is a parameter.
mod Scan
mod Claims
mod Tests
use canyonos.Prelude.{
  ℕ, zero, suc, ◌+◌, ◌-◌, Bool, true, false, not, ◌&&◌, ◌||◌, String, List, [], ◌∷◌, ◌++◌, Option,
  none, some, str_eq, ltb, ◌==◌, if◌then◌else◌, length,
}

abbrev pub container_port : ℕ
container_port = 50051

abbrev pub port_count : ℕ
port_count = 65536

abbrev pub has : List ℕ → ℕ → Bool
has [] p = false
has (q ∷ qs) p = q == p || has qs p

-- The first of `n` ports from `port` on that passes the test.
unfoldable pub first_port : (ℕ → Bool) → ℕ → ℕ → Option ℕ
first_port ok zero port = none
first_port ok (suc n) port =
    let rest = first_port ok n (suc port) in if ok port then some port else rest

-- `min(start + max_attempts, 65536) - start`, the length of the `range`.
abbrev pub attempts : ℕ → ℕ → ℕ
attempts start max_attempts =
    if ltb (start + max_attempts) port_count then max_attempts else port_count - start

abbrev pub usable : (ℕ → Bool) → List ℕ → ℕ → Bool
usable is_port_free skip port = not (has skip port) && is_port_free port

-- `none` is the RuntimeError.
unfoldable pub find_free_port : (ℕ → Bool) → ℕ → ℕ → List ℕ → Option ℕ
find_free_port is_port_free start max_attempts skip =
    first_port (usable is_port_free skip) (attempts start max_attempts) start

-- The fields of an `agent_instance:*` hash that a claim reads and writes.
pub record Claim : Type 0 where
  pub private_host : Option String
  pub host_port : Option ℕ

abbrev pub port_on : String → Claim → List ℕ
port_on host c = elim c.private_host [
  | none ↦ []
  | some h ↦ if str_eq h host then elim c.host_port [ none ↦ [] | some p ↦ p ∷ [] ] else []
]

unfoldable pub used_ports : String → List (String × Claim) → List ℕ
used_ports host [] = []
used_ports host (e ∷ records) = port_on host e.1 ++ used_ports host records

-- `hset_multiple` at a key: the record there is changed, or a new one begins.
unfoldable pub put : String → Claim → List (String × Claim) → List (String × Claim)
put key c [] = (key, c) ∷ []
put key c ((k, d) ∷ records) =
    let rest = put key c records in if str_eq k key then (key, c) ∷ records else (k, d) ∷ rest

abbrev pub claimed : String → ℕ → Claim
claimed host port = record { private_host = some host; host_port = some port }

-- `while port in used: port += 1`, with one attempt more than there are ports in use.
unfoldable pub free_from : List ℕ → ℕ → Option ℕ
free_from used port = first_port (λ p. not (has used p)) (suc (length used)) port

-- `_claim_host_port`: the port, and the records with the claim.
unfoldable pub claim_host_port :
    String → String → List (String × Claim) → Option (ℕ × List (String × Claim))
claim_host_port host key records = elim (free_from (used_ports host records) container_port) [
  | none ↦ none
  | some port ↦ some (port, put key (claimed host port) records)
]
