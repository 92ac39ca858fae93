-- ===== src/Reconciler/Tests.antt =====
-- A pass of the reconciler over an agent at concrete inputs.
use canyonos.Prelude.{
  ℕ, ◌≡◌, refl, false, not, String, List, [], ◌∷◌, Option, none, some, All, take, str_eq,
}
use canyonos.Prelude.Members.{str_eq-false}
use canyonos.Prelude.Sorting.{sort_by, insert_by}
use canyonos.Replicas.{
  created_before, Replica, Metrics, find, store, is_idle, drained, drain_start, mark, write_drain,
  forget, remove_found, remove_replica,
}
use canyonos.Replicas.Drain.{Leaving}
use canyonos.Reconciler.{
  Limits, Look, World, seen_at, live, surplus_of, reports_are_fresh, may_still_be_booting,
  is_healthy, removal_reason, remove_without_draining, drain_healthy, drain_replica, act, visit,
  visits, remove_unwanted,
}
use canyonos.Reconciler.Surplus.{Division, surplus_of-Division}
use canyonos.Reconciler.Outcome.{
  Leaves, Stays, listed, surplus_ids, remove_unwanted-Leaves, remove_unwanted-Stays,
}

abbrev replica : String → ℕ → Option ℕ → Replica
replica id created_at draining_at = record {
  replica_id = id;
  agent_name = "chat";
  address = id;
  created_at = created_at;
  draining_at = draining_at;
}

abbrev replicas : List Replica
replicas =
    replica "chat-a" 300 none
    ∷ replica "chat-b" 100 none
    ∷ replica "chat-c" 200 none
    ∷ replica "chat-d" 50 (some 900)
    ∷ []

abbrev world : World
world = record {
  fleet = record { replicas = replicas; removal_times = [] };
  seen_healthy = "chat-b" ∷ "chat-c" ∷ [];
  requests = "chat-gone" ∷ [];
}

abbrev limits : Limits
limits = record { stale_after = 30; startup_grace = 120 }

abbrev in_use : Metrics
in_use = record {
  draining = none;
  queue_length = some "1";
  open_requests = some "1";
  pending_requests = some "0";
  requests_served = some "4";
  requests_completed = some "3";
}

abbrev look : Replica → Look
look r = record {
  now = 1000;
  port_open = not (str_eq r.replica_id "chat-c");
  heartbeat = seen_at 990;
  pass = record { marked_at = 1000; tested_at = 1000; metrics = in_use };
}

abbrev swept : World
swept = record {
  fleet = record {
    replicas =
        replica "chat-a" 300 (some 1000)
        ∷ replica "chat-b" 100 none
        ∷ replica "chat-d" 50 (some 900)
        ∷ [];
    removal_times = ("chat-d", 180000900) ∷ ("chat-a", 180001000) ∷ [];
  };
  seen_healthy = "chat-d" ∷ "chat-b" ∷ "chat-a" ∷ "chat-b" ∷ [];
  requests = [];
}

sweep : remove_unwanted limits false look "chat" 2 world ≡ swept
unfolding remove_unwanted visits visit act removal_reason is_healthy reports_are_fresh
    may_still_be_booting drain_replica drain_healthy remove_without_draining surplus_of sort_by
    insert_by remove_replica remove_found find drained is_idle drain_start write_drain mark store
    forget
sweep = refl

surplus_of-Division_example :
    Division 2
      (live replicas)
      (take 2 (sort_by created_before (live replicas)))
      (surplus_of 2 replicas)
surplus_of-Division_example = surplus_of-Division 2 replicas

remove_unwanted-Leaves_example :
    All
      (λ r.
        Leaves limits false (surplus_ids "chat" 2 world) world.requests (look r) r
        → Leaving r.replica_id (remove_unwanted limits false look "chat" 2 world).fleet)
      (listed "chat" world)
remove_unwanted-Leaves_example = remove_unwanted-Leaves limits false look "chat" 2 world

stays :
    All
      (λ r.
        r.replica_id ≡ "chat-b"
        → Stays limits false (surplus_ids "chat" 2 world) world.requests (look r) r)
      (listed "chat" world)
unfolding reports_are_fresh surplus_of sort_by insert_by
stays = (
  (λ e. absurd (str_eq-false "chat-a" "chat-b" refl e)),
  (
    (λ e. (refl, refl, refl, refl)),
    (
      (λ e. absurd (str_eq-false "chat-c" "chat-b" refl e)),
      ((λ e. absurd (str_eq-false "chat-d" "chat-b" refl e)), tt),
    ),
  ),
)

remove_unwanted-Stays_example :
    find "chat-b" (remove_unwanted limits false look "chat" 2 world).fleet.replicas
    ≡ find "chat-b" world.fleet.replicas
remove_unwanted-Stays_example =
    remove_unwanted-Stays limits false look "chat" 2 world "chat-b" stays
