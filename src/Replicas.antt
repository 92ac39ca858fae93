-- ===== src/Replicas.antt =====
-- The replica records and how a replica is removed: `remove_replica`, `_drain` and `_is_idle` of
-- packages/core/canyonos_core/reconciler/replica_provisioner.py, `_is_healthy`, `_drain_replica`
-- and `_remove_unwanted` of packages/core/canyonos_core/reconciler/reconciler.py, and the
-- addresses that reconciler/routing.py publishes.
--
-- Times are whole microseconds of one clock.
pub mod Age
mod Records
pub mod Drain
mod Tests
use canyonos.Prelude.{
  ℕ, ◌+◌, ◌-◌, ◌*◌, Bool, true, false, not, ◌&&◌, ◌||◌, String, List, [], ◌∷◌, Option, none, some,
  str_eq, ltb, leb, if◌then◌else◌, keep, contains, map,
}

-- A finished `agent_instance:*` hash, with the fields that decide about its removal.
pub record Replica : Type 0 where
  pub replica_id : String
  pub agent_name : String
  pub address : String
  pub created_at : ℕ
  pub draining_at : Option ℕ

-- The order of `sorted(…, key=created_at)`.
abbrev pub created_before : Replica → Replica → Bool
created_before r s = leb r.created_at s.created_at

-- The fields of `controller:{address}:metrics` that tell whether a replica is idle.
pub record Metrics : Type 0 where
  pub draining : Option String
  pub queue_length : Option String
  pub open_requests : Option String
  pub pending_requests : Option String
  pub requests_served : Option String
  pub requests_completed : Option String

abbrev pub drain_timeout : ℕ
drain_timeout = 180 * 1000000

abbrev pub same_text : Option String → Option String → Bool
same_text none none = true
same_text (some a) (some b) = str_eq a b
same_text _ _ = false

-- `_is_idle`
unfoldable pub is_idle : Metrics → Bool
is_idle m =
    same_text m.draining (some "1")
    && same_text m.queue_length (some "0")
    && same_text m.open_requests (some "0")
    && same_text m.pending_requests (some "0")
    && same_text m.requests_served m.requests_completed

abbrev pub is_draining : Replica → Bool
is_draining r = elim r.draining_at [ none ↦ false | some t ↦ true ]

-- One pass over a replica that drains: the clock where `draining_at` is written, the clock where
-- the timeout is tested, and the metrics read between.
pub record Pass : Type 0 where
  pub marked_at : ℕ
  pub tested_at : ℕ
  pub metrics : Metrics

unfoldable pub drain_start : Pass → Replica → ℕ
drain_start pass r = elim r.draining_at [ none ↦ pass.marked_at | some t ↦ t ]

-- `_drain`: its answer, whether the replica can go.
unfoldable pub drained : Pass → Replica → Bool
drained pass r = is_idle pass.metrics || leb drain_timeout (pass.tested_at - drain_start pass r)

unfoldable pub mark : Pass → Replica → Replica
mark pass r = record {
  replica_id = r.replica_id;
  agent_name = r.agent_name;
  address = r.address;
  created_at = r.created_at;
  draining_at = some (drain_start pass r);
}

-- What the central Redis and the machines' hold of the replicas: the records, and the removal
-- times under `controller:{address}:draining`.
pub record Fleet : Type 0 where
  pub replicas : List Replica
  pub removal_times : List (String × ℕ)

unfoldable pub find : String → List Replica → Option Replica
find id [] = none
find id (r ∷ rs) = let rest = find id rs in if str_eq r.replica_id id then some r else rest

abbrev pub other_id : String → Replica → Bool
other_id id r = not (str_eq r.replica_id id)

-- `hset` at a replica's key, of the whole record.
unfoldable pub store : Replica → List Replica → List Replica
store s [] = []
store s (r ∷ rs) =
    let rest = store s rs in if str_eq r.replica_id s.replica_id then s ∷ rs else r ∷ rest

-- The writes of `_drain`; a later removal time of the address stands before an older one.
unfoldable pub write_drain : Pass → Replica → Fleet → Fleet
write_drain pass r fleet = record {
  replicas = store (mark pass r) fleet.replicas;
  removal_times = (r.address, drain_start pass r + drain_timeout) ∷ fleet.removal_times;
}

unfoldable pub forget : String → Fleet → Fleet
forget id fleet = record {
  replicas = keep (other_id id) fleet.replicas;
  removal_times = fleet.removal_times;
}

-- `remove_replica` of a record that is there; the container's removal and the deletion of the
-- status are effects outside the fleet.
unfoldable pub remove_found : Bool → Pass → Replica → Fleet → Bool × Fleet
remove_found drain pass r fleet =
    if not drain
    then (true, forget r.replica_id fleet)
    else if drained pass r
    then (true, forget r.replica_id (write_drain pass r fleet))
    else (false, write_drain pass r fleet)

unfoldable pub remove_replica : Bool → Pass → String → Fleet → Bool × Fleet
remove_replica drain pass id fleet = elim (find id fleet.replicas) [
  | none ↦ (true, fleet)
  | some r ↦ remove_found drain pass r fleet
]

-- The passes that call `remove_replica` on one replica, until it answers True.
unfoldable pub remove_over : List Pass → String → Fleet → Bool × Fleet
remove_over [] id fleet = (false, fleet)
remove_over (pass ∷ passes) id fleet =
    let step = remove_replica true pass id fleet in
    let rest = remove_over passes id step.1 in if step.0 then step else rest
