-- ===== src/Routing/Up.antt =====
-- The set of the agents that are up, while it is written.
use canyonos.Prelude.{
  ◌≡◌, refl, ◌∙◌, ap, Bool, true, not, ◌||◌, ◌&&◌, String, List, [], ◌∷◌, arith, contains,
  Bool-cases, inl, inr, str_eq, eq_iff,
}
use canyonos.Routing.{RedisSet, minus, add_all, remove_all, publish_up_agents}

pub contains-minus :
    (xs ys : List String) (a : String)
    → contains (minus xs ys) a ≡ contains xs a && not (contains ys a)
contains-minus [] ys a = refl
contains-minus (x ∷ xs) ys a = elim (Bool-cases (str_eq x a)) [
  | inl same ↦
      let e = (eq_iff x a).0 same in
      elim (Bool-cases (contains ys x)) [
        | inl listed ↦
            ground (arith, same, listed, contains-minus xs ys a, ap (λ n. contains ys n) e)
        | inr missing ↦
            ground (arith, same, missing, contains-minus xs ys a, ap (λ n. contains ys n) e)
      ]
  | inr other ↦ ground (arith, other, contains-minus xs ys a)
]

module _ {S : Type 0} (redis : RedisSet S) where
  abbrev pub has_up : S → String → Bool
  has_up s a = contains (redis.smembers s) a

  has-add_all :
      (up : List String) (s : S) (a : String)
      → has_up (add_all redis up s) a ≡ contains up a || has_up s a
  has-add_all [] s a = refl
  has-add_all (b ∷ up) s a = redis.smembers-sadd (b ∷ up) s a

  has-remove_all :
      (down : List String) (s : S) (a : String)
      → has_up (remove_all redis down s) a ≡ has_up s a && not (contains down a)
  has-remove_all [] s a = ground arith
  has-remove_all (b ∷ down) s a = redis.smembers-srem (b ∷ down) s a

  -- When `publish_up_agents` is done the set has exactly the agents that are up, and at no point of
  -- its writes is an agent missing that was up before and still is.
  pub publish_up_agents_complete :
      (up : List String) (s : S) (a : String)
      → let (before, between, after) = publish_up_agents redis up s in
        (has_up after a ≡ contains up a)
        × (contains up a ≡ true
            → has_up s a ≡ true
            → (has_up before a ≡ true) × (has_up between a ≡ true) × (has_up after a ≡ true))
  unfolding publish_up_agents
  publish_up_agents_complete up s a =
      let added = add_all redis up s in
      let down = minus (redis.smembers added) up in
      let final : has_up (remove_all redis down added) a ≡ contains up a = ground (
        arith,
        has-remove_all down added a,
        contains-minus (redis.smembers added) up a,
        has-add_all up s a,
      ) in
      (final, λ u h. (h, ground (arith, has-add_all up s a), final ∙ u))
