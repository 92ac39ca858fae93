-- ===== src/Reconciler.antt =====
-- The removal of an agent's replicas by packages/core/canyonos_core/reconciler/reconciler.py:
-- `_is_healthy`, `_removal_reason`, `_remove_without_draining`, `_drain_replica` and
-- `_remove_unwanted`.
mod Surplus
mod Outcome
mod Tests
use canyonos.Prelude.{
  ℕ, ◌+◌, ◌-◌, Bool, true, false, not, ◌&&◌, ◌||◌, String, List, [], ◌∷◌, Option, none, some,
  str_eq, ltb, leb, if◌then◌else◌, keep, contains, map, drop,
}
use canyonos.Prelude.Sorting.{sort_by}
use canyonos.Replicas.{created_before, Replica, Pass, Fleet, is_draining, remove_replica}

-- The metrics heartbeat `observed_at` of a replica, as `_reports_are_fresh` finds it.
pub data Heartbeat : Type 0 where
  unreadable : Heartbeat
  missing : Heartbeat
  garbled : Heartbeat
  seen_at : ℕ → Heartbeat

pub record Limits : Type 0 where
  pub stale_after : ℕ
  pub startup_grace : ℕ

-- What one look at a replica finds: the clock, its port, its heartbeat, and its metrics.
pub record Look : Type 0 where
  pub now : ℕ
  pub port_open : Bool
  pub heartbeat : Heartbeat
  pub pass : Pass

-- The replicas, the ids of those seen healthy, and the agent's pending replace requests.
pub record World : Type 0 where
  pub fleet : Fleet
  pub seen_healthy : List String
  pub requests : List String

pub data Reason : Type 0 where
  drain_in_progress : Reason
  replacement_requested : Reason
  surplus_replica : Reason
  unhealthy : Reason

-- `_reports_are_fresh`
unfoldable pub reports_are_fresh : Limits → Look → Bool
reports_are_fresh limits look = elim look.heartbeat [
  | unreadable ↦ true
  | missing ↦ false
  | garbled ↦ false
  | seen_at t ↦ leb (look.now - t) limits.stale_after
]

-- `_may_still_be_booting`
unfoldable pub may_still_be_booting : Limits → Look → Replica → Bool
may_still_be_booting limits look r = leb (look.now - r.created_at) limits.startup_grace

abbrev pub discard : String → List String → List String
discard id = keep (λ x. not (str_eq x id))

abbrev pub with_seen : List String → World → World
with_seen seen w = record { fleet = w.fleet; seen_healthy = seen; requests = w.requests }

abbrev pub with_fleet : Fleet → World → World
with_fleet fleet w = record { fleet = fleet; seen_healthy = w.seen_healthy; requests = w.requests }

abbrev pub with_requests : List String → World → World
with_requests requests w = record {
  fleet = w.fleet;
  seen_healthy = w.seen_healthy;
  requests = requests;
}

abbrev pub live : List Replica → List Replica
live = keep (λ r. not (is_draining r))

unfoldable pub surplus_of : ℕ → List Replica → List Replica
surplus_of desired replicas = drop desired (sort_by created_before (live replicas))

abbrev pub ids : List Replica → List String
ids = map (λ r. r.replica_id)

module _ (limits : Limits) (is_database : Bool) where
  abbrev pub answers : Look → Bool
  answers look = look.port_open && (is_database || reports_are_fresh limits look)

  -- `_is_healthy`: its answer, and the ids seen healthy.
  unfoldable pub is_healthy : Look → Replica → List String → Bool × List String
  is_healthy look r seen =
      if answers look
      then (true, r.replica_id ∷ seen)
      else (not (contains seen r.replica_id) && may_still_be_booting limits look r, seen)

  -- `_removal_reason`, with the ids seen healthy.
  unfoldable pub removal_reason :
      Look → Replica → List String → List String → List String → Option Reason × List String
  removal_reason look r surplus requested seen =
      if is_draining r
      then (some drain_in_progress, seen)
      else if contains requested r.replica_id
      then (some replacement_requested, seen)
      else if contains surplus r.replica_id
      then (some surplus_replica, seen)
      else let health = is_healthy look r seen in
        if health.0 then (none, health.1) else (some unhealthy, health.1)

  -- `_remove_without_draining`
  unfoldable pub remove_without_draining : Look → Replica → World → World
  remove_without_draining look r w = record {
    fleet = (remove_replica false look.pass r.replica_id w.fleet).1;
    seen_healthy = discard r.replica_id w.seen_healthy;
    requests = w.requests;
  }

  -- The end of `_drain_replica`: a drain of one that answers.
  unfoldable pub drain_healthy : Look → Replica → World → Bool × World
  drain_healthy look r w =
      let step = remove_replica true look.pass r.replica_id w.fleet in
      if step.0
      then (true, with_seen (discard r.replica_id w.seen_healthy) (with_fleet step.1 w))
      else (false, with_fleet step.1 w)

  -- `_drain_replica`
  unfoldable pub drain_replica : Look → Replica → World → Bool × World
  drain_replica look r w =
      if is_database
      then (true, remove_without_draining look r w)
      else let health = is_healthy look r w.seen_healthy in
        if health.0
        then drain_healthy look r (with_seen health.1 w)
        else (true, remove_without_draining look r (with_seen health.1 w))

  abbrev pub clear_request : List String → Replica → World → World
  clear_request requested r w =
      if contains requested r.replica_id
      then with_requests (discard r.replica_id w.requests) w
      else w

  unfoldable pub act : List String → Look → Replica → Option Reason → World → World
  act requested look r none w = w
  act requested look r (some unhealthy) w =
      clear_request requested r (remove_without_draining look r w)
  act requested look r (some reason) w =
      let step = drain_replica look r w in
      if step.0 then clear_request requested r step.1 else step.1

  -- One round of the loop of `_remove_unwanted`.
  unfoldable pub visit : List String → List String → Look → Replica → World → World
  visit surplus requested look r w =
      let found = removal_reason look r surplus requested w.seen_healthy in
      act requested look r found.0 (with_seen found.1 w)

  unfoldable pub visits :
      (Replica → Look) → List String → List String → List Replica → World → World
  visits look surplus requested [] w = w
  visits look surplus requested (r ∷ rs) w =
      visits look surplus requested rs (visit surplus requested (look r) r w)

  -- `_remove_unwanted` for a known agent whose desired count has been read.
  unfoldable pub remove_unwanted : (Replica → Look) → String → ℕ → World → World
  remove_unwanted look agent desired w =
      let replicas = keep (λ r. str_eq r.agent_name agent) w.fleet.replicas in
      visits look (ids (surplus_of desired replicas)) w.requests replicas
        (with_requests (keep (contains (ids replicas)) w.requests) w)
