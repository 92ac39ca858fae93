-- ===== src/Routing/Tests.antt =====
-- Published tables at concrete inputs, with a set of Redis as a list.
use canyonos.Prelude.{
  ℕ, ◌≡◌, ◌≢◌, refl, true, String, List, [], ◌∷◌, ◌++◌, Option, none, some, map, contains,
}
use canyonos.Prelude.Members.{contains-append}
use canyonos.Prelude.Sorting.{sort_by, insert_by}
use canyonos.Replicas.{Replica}
use canyonos.Routing.{RedisSet, minus, publish_up_agents, routed, addresses, known}
use canyonos.Routing.Addresses.{IsRouted, published, addresses-IsRouted}
use canyonos.Routing.Up.{contains-minus, has_up, publish_up_agents_complete}

abbrev list_set : RedisSet (List String)
list_set = record {
  smembers = λ s. s;
  sadd = λ xs s. xs ++ s;
  srem = λ xs s. minus s xs;
  smembers-sadd = λ xs s a. contains-append xs s a;
  smembers-srem = λ xs s a. contains-minus s xs a;
}

switched_over : publish_up_agents list_set ("chat" ∷ "search" ∷ []) ("old" ∷ "chat" ∷ []) ≡ (
  "old" ∷ "chat" ∷ [],
  "chat" ∷ "search" ∷ "old" ∷ "chat" ∷ [],
  "chat" ∷ "search" ∷ "chat" ∷ [],
)
unfolding publish_up_agents
switched_over = refl

publish_up_agents_complete_example :
    let (before, between, after) =
      publish_up_agents list_set ("chat" ∷ "search" ∷ []) ("old" ∷ "chat" ∷ []) in
    (has_up list_set after "chat" ≡ contains ("chat" ∷ "search" ∷ []) "chat")
    × (contains ("chat" ∷ "search" ∷ []) "chat" ≡ true
        → has_up list_set ("old" ∷ "chat" ∷ []) "chat" ≡ true
        → (has_up list_set before "chat" ≡ true)
          × (has_up list_set between "chat" ≡ true)
          × (has_up list_set after "chat" ≡ true))
publish_up_agents_complete_example =
    publish_up_agents_complete list_set ("chat" ∷ "search" ∷ []) ("old" ∷ "chat" ∷ []) "chat"

abbrev replica : String → ℕ → Option ℕ → Replica
replica id created_at draining_at = record {
  replica_id = id;
  agent_name = "chat";
  address = id;
  created_at = created_at;
  draining_at = draining_at;
}

abbrev replicas : List Replica
replicas =
    replica "chat-a" 300 none ∷ replica "chat-b" 100 none ∷ replica "chat-c" 200 (some 900) ∷ []

in_order : addresses "chat" replicas ≡ some ("chat-b" ∷ "chat-a" ∷ [])
unfolding addresses sort_by insert_by
in_order = refl

all_known : known "chat" replicas ≡ "chat-a" ∷ "chat-b" ∷ "chat-c" ∷ []
unfolding known
all_known = refl

addresses-IsRouted_example :
    IsRouted "chat" replicas (routed "chat" replicas)
    × (published (addresses "chat" replicas) ≡ map (λ r. r.address) (routed "chat" replicas))
    × (addresses "chat" replicas ≢ some [])
addresses-IsRouted_example = addresses-IsRouted "chat" replicas
