-- ===== src/Replicas/Tests.antt =====
-- A drain at concrete inputs.
use canyonos.Prelude.{ℕ, ◌≡◌, refl, true, String, [], ◌∷◌, ◌+◌, Option, none, some}
use canyonos.Replicas.{
  Replica, Metrics, Pass, Fleet, find, store, is_idle, drained, drain_start, mark, write_drain,
  forget, remove_found, remove_replica, remove_over,
}
use canyonos.Replicas.Drain.{Drained, remove_over-Drained}

abbrev busy : Metrics
busy = record {
  draining = some "1";
  queue_length = some "0";
  open_requests = some "2";
  pending_requests = some "0";
  requests_served = some "5";
  requests_completed = some "3";
}

abbrev quiet : Metrics
quiet = record {
  draining = some "1";
  queue_length = some "0";
  open_requests = some "0";
  pending_requests = some "0";
  requests_served = some "5";
  requests_completed = some "5";
}

abbrev replica : String → Option ℕ → Replica
replica id draining_at = record {
  replica_id = id;
  agent_name = "chat";
  address = id;
  created_at = 7;
  draining_at = draining_at;
}

abbrev fleet : Fleet
fleet = record { replicas = replica "chat-1" none ∷ replica "chat-2" none ∷ []; removal_times = [] }

abbrev pass : ℕ → Metrics → Pass
pass t metrics = record { marked_at = t; tested_at = t + 1; metrics = metrics }

becomes_idle : remove_over (pass 10 busy ∷ pass 20 quiet ∷ []) "chat-2" fleet ≡ (
  true,
  record {
    replicas = replica "chat-1" none ∷ [];
    removal_times = ("chat-2", 180000010) ∷ ("chat-2", 180000010) ∷ [];
  },
)
unfolding remove_over remove_replica remove_found find drained is_idle drain_start write_drain mark
    store forget
becomes_idle = refl

times_out : (remove_over (pass 10 busy ∷ pass 180000009 busy ∷ []) "chat-2" fleet).0 ≡ true
unfolding remove_over remove_replica remove_found find drained is_idle drain_start write_drain mark
    store forget
times_out = refl

found : find "chat-2" fleet.replicas ≡ some (replica "chat-2" none)
unfolding find
found = refl

remove_over-Drained_example :
    let result = remove_over (pass 10 busy ∷ pass 20 quiet ∷ []) "chat-2" fleet in
    Drained
      (drain_start (pass 10 busy) (replica "chat-2" none))
      (mark (pass 10 busy) (replica "chat-2" none))
      (pass 10 busy ∷ pass 20 quiet ∷ [])
      fleet
      result.1
      result.0
remove_over-Drained_example =
    remove_over-Drained (pass 10 busy) (pass 20 quiet ∷ []) (replica "chat-2" none) fleet found
