-- ===== src/Routing.antt =====
-- What packages/core/canyonos_core/reconciler/routing.py publishes: where new calls to an agent go,
-- which replicas are known, and which agents have a replica up. A set of Redis is a parameter.
mod Addresses
mod Up
mod Tests
use canyonos.Prelude.{
  ◌≡◌, Bool, true, false, not, ◌||◌, ◌&&◌, String, List, [], ◌∷◌, Option, none, some, str_eq, leb,
  if◌then◌else◌, keep, contains, map,
}
use canyonos.Prelude.Sorting.{sort_by}
use canyonos.Replicas.{Replica, is_draining, created_before}

-- `list_replicas(primary_redis, agent_name)`
abbrev pub replicas_of : String → List Replica → List Replica
replicas_of agent = keep (λ r. str_eq r.agent_name agent)

abbrev pub routed : String → List Replica → List Replica
routed agent replicas =
    keep (λ r. not (is_draining r)) (sort_by created_before (replicas_of agent replicas))

-- The addresses under `routing_table:addresses`; the field is deleted where there are none.
unfoldable pub addresses : String → List Replica → Option (List String)
addresses agent replicas = elim (map (λ r. r.address) (routed agent replicas)) [
  | [] ↦ none
  | a ∷ rest ↦ some (a ∷ rest)
]

-- The addresses under `routing_table:replicas`.
unfoldable pub known : String → List Replica → List String
known agent replicas = map (λ r. r.address) (replicas_of agent replicas)

-- A set of Redis: its operations, and what they do to membership.
pub record RedisSet (S : Type 0) : Type 0 where
  pub smembers : S → List String
  pub sadd : List String → S → S
  pub srem : List String → S → S
  pub smembers-sadd :
      (xs : List String) (s : S) (a : String)
      → contains (smembers (sadd xs s)) a ≡ contains xs a || contains (smembers s) a
  pub smembers-srem :
      (xs : List String) (s : S) (a : String)
      → contains (smembers (srem xs s)) a ≡ contains (smembers s) a && not (contains xs a)

abbrev pub minus : List String → List String → List String
minus xs ys = keep (λ x. not (contains ys x)) xs

module _ {S : Type 0} (redis : RedisSet S) where
  -- `if up_agents: redis_client.sadd(…)`
  abbrev pub add_all : List String → S → S
  add_all [] s = s
  add_all (a ∷ names) s = redis.sadd (a ∷ names) s

  abbrev pub remove_all : List String → S → S
  remove_all [] s = s
  remove_all (a ∷ names) s = redis.srem (a ∷ names) s

  -- The states of the set while `publish_up_agents` writes it: before, between and after its writes.
  unfoldable pub publish_up_agents : List String → S → S × S × S
  publish_up_agents up s =
      let added = add_all up s in (s, added, remove_all (minus (redis.smembers added) up) added)
