-- ===== src/Calls/Addresses/Available.antt =====
-- The replica that a call goes to, where no binding decides.
use mathlib.Core.List.{Memᴰ}
use canyonos.Prelude.{
  ℕ, ◌≡◌, refl, sym, subst, Bool, true, false, not, ◌&&◌, String, List, [], ◌∷◌, Option, none, some,
  str_eq, leb, lookup, contains, keep, All, Bool-cases, inl, inr, ◌⊎◌,
}
use canyonos.Prelude.Members.{mem-keep}
use canyonos.Calls.Addresses.{
  Router, bound, down_for, if_empty, available, usable, bind_new, pick, refreshed, resolve_address,
}

-- `random.choice`: an element of a list that is not empty.
abbrev pub IsChoice : (List String → String) → Type 0
IsChoice choose = (y : String) (ys : List String) → Memᴰ (choose (y ∷ ys)) (y ∷ ys)

abbrev pub is_up : ℕ → Router → String → Bool
is_up now s b = leb (down_for s.down_until b) now

keep-none : (p : String → Bool) (xs : List String) → keep p xs ≡ [] → All (λ x. p x ≡ false) xs
keep-none p [] h = tt
keep-none p (x ∷ xs) h = elim (Bool-cases (p x)) [
  | inl e ↦ cc (rw e at h)
  | inr e ↦ (e, keep-none p xs (rw e at h))
]

some_same : {a b : String} → ◌≡◌ {A = Option String} (some a) (some b) → a ≡ b
some_same h = cc

-- The address is one of the agent's, and not marked down unless all of them are.
abbrev pub IsPicked : ℕ → Router → List String → String → Type 0
IsPicked now s addresses b =
    Memᴰ b addresses × ((is_up now s b ≡ true) ⊎ All (λ c. is_up now s c ≡ false) addresses)

module _ (choose : List String → String) (law : IsChoice choose) where
  chosen-IsPicked :
      (now : ℕ) (s : Router) (y : String) (ys up : List String)
      → keep (is_up now s) (y ∷ ys) ≡ up
      → IsPicked now s (y ∷ ys) (choose (if_empty up (y ∷ ys)))
  chosen-IsPicked now s y ys [] e = (law y ys, inr (keep-none (is_up now s) (y ∷ ys) e))
  chosen-IsPicked now s y ys (u ∷ us) e =
      let m =
        mem-keep (is_up now s) (y ∷ ys)
          (subst (λ l. Memᴰ (choose (u ∷ us)) l) (sym e) (law u us)) in
      (m.0, inl m.1)

  bind_new-answer :
      (s : Router) (agent request : String) (o : Option String) (chosen : String) {b : String}
      → (bind_new choose s agent request o chosen).1 ≡ some b
      → (o ≡ some b) ⊎ (chosen ≡ b)
  unfolding bind_new
  bind_new-answer s agent request none chosen h = inr (cc)
  bind_new-answer s agent request (some e) chosen h = inl h

  pick-IsPicked :
      (now : ℕ) (s : Router) (agent request : String) (o : Option (List String)) {b : String}
      → (pick choose now s agent request o).1 ≡ some b
      → (usable (bound request agent s.affinities) ≡ some b)
        ⊎ ((addresses : List String) × (o ≡ some addresses) × IsPicked now s addresses b)
  unfolding pick
  pick-IsPicked now s agent request none h = cc
  pick-IsPicked now s agent request (some []) h = cc
  pick-IsPicked now s agent request (some (y ∷ ys)) {b} h =
      let good = chosen-IsPicked now s y ys _ refl in
      elim (Bool-cases (contains s.stateful agent && not (str_eq request ""))) [
        | inl e ↦ elim (bind_new-answer s agent request _ _ (rw e at h)) [
          | inl k ↦ inl k
          | inr k ↦ inr (y ∷ ys, refl, subst (λ c. IsPicked now s (y ∷ ys) c) k good)
        ]
        | inr e ↦
            let k : choose (available now s.down_until (y ∷ ys)) ≡ b = some_same (rw e at h) in
            inr (y ∷ ys, refl, subst (λ c. IsPicked now s (y ∷ ys) c) k good)
      ]

  -- An address that a call is given is the one its request is bound to, or one of the agent's in the
  -- table, read again where it lacked the agent, that is not marked down unless all of them are.
  pub resolve_address-IsPicked :
      (now : ℕ) (s : Router) (agent request : String) {b : String}
      → (resolve_address choose now s agent request).1 ≡ some b
      → (usable (bound request agent (refreshed choose s agent).affinities) ≡ some b)
        ⊎ ((addresses : List String) × (lookup agent (refreshed choose s agent).routing
              ≡ some addresses)
            × IsPicked now (refreshed choose s agent) addresses b)
  unfolding resolve_address
  resolve_address-IsPicked now s agent request h = pick-IsPicked now _ agent request _ h
