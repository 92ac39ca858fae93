-- ===== src/Machines/Terminated.antt =====
-- Which machine records a pass terminates.
use canyonos.Prelude.{
  ◌≡◌, refl, sym, ap, ◌∙◌, ◌⊎◌, inl, inr, Bool, true, false, not, ◌||◌, ◌&&◌, String, List, [], ◌∷◌,
  some, arith, Bool-cases, All, keep, contains, str_eq, eq_iff,
}
use mathlib.Core.List.{Memᴰ}
use canyonos.Prelude.Members.{contains-append, mem-of_keep, All-map, All-self}
use canyonos.Machines.{
  Machine, Check, is_gone, is_up, launch_ids, find_dead, is_spared, terminate, reap,
}

module _ (check : Machine → Check) (terminates : Machine → Bool) (starting : List String) where
  -- The machine is not to be replaced: it is still starting, or it is up and its check does not
  -- say that it is gone.
  abbrev pub Lives : Machine → Type 0
  Lives m = (contains starting m.launch_id ≡ true) ⊎ (is_up m ≡ true) × (is_gone (check m) ≡ false)

  abbrev never_up : Machine → Bool
  never_up m = not (contains starting m.launch_id) && not (is_up m)

  abbrev lost : Machine → Bool
  lost m = not (contains starting m.launch_id) && (is_up m && is_gone (check m))

  -- No machine of an id passes the test, so the id is not among those that do.
  no_id :
      (p : Machine → Bool) (id : String) (ms : List Machine)
      → All (λ n. n.launch_id ≡ id → p n ≡ false) ms
      → contains (launch_ids (keep p ms)) id ≡ false
  no_id p id [] h = refl
  no_id p id (n ∷ ms) h = elim (Bool-cases (p n)) [
    | inr skip ↦ rw skip (no_id p id ms h.1)
    | inl kept ↦ elim (Bool-cases (str_eq n.launch_id id)) [
      | inl same ↦ absurd (cc (kept, h.0 ((eq_iff n.launch_id id).0 same)))
      | inr other ↦ rw (kept, other) (no_id p id ms h.1)
    ]
  ]

  find_dead-Lives :
      (id : String) (ms : List Machine)
      → All (λ n. n.launch_id ≡ id → Lives n) ms
      → contains (find_dead check starting ms) id ≡ false
  unfolding find_dead
  find_dead-Lives id ms h =
      let a = no_id never_up id ms (All-map _ _ ms (λ n k e. never_up-Lives n (k e)) h) in
      let b = no_id lost id ms (All-map _ _ ms (λ n k e. lost-Lives n (k e)) h) in
      contains-append (launch_ids (keep never_up ms)) (launch_ids (keep lost ms)) id
      ∙ rw (a, b) refl
    where
      never_up-Lives : (n : Machine) → Lives n → never_up n ≡ false
      never_up-Lives n k = ground arith

      lost-Lives : (n : Machine) → Lives n → lost n ≡ false
      lost-Lives n k = ground arith

  -- A pass that terminates the dead machines keeps the record of a machine if every record of its id
  -- is one that still starts, or is up and not said to be gone by its provider. A failed check does
  -- not say so.
  pub reap-Lives :
      (ms : List Machine) (m : Machine)
      → Memᴰ m ms
      → All (λ n. n.launch_id ≡ m.launch_id → Lives n) ms
      → Memᴰ m (reap check terminates starting ms)
  unfolding reap terminate is_spared
  reap-Lives ms m h lives = go (find_dead check starting ms) (find_dead-Lives m.launch_id ms lives)
    where
      after : List String → List Machine
      after dead = elim dead [
        | [] ↦ ms
        | id ∷ ids ↦ terminate terminates (some (id ∷ ids)) [] starting ms
      ]

      go : (dead : List String) → contains dead m.launch_id ≡ false → Memᴰ m (after dead)
      go [] e = h
      go (id ∷ ids) e = mem-of_keep _ ms h (ground (arith, e))

  All-filter :
      (P : Machine → Type 0) (p : Machine → Bool) (ms : List Machine)
      → All P ms
      → All (λ m. P m × (p m ≡ true)) (keep p ms)
  All-filter P p [] h = tt
  All-filter P p (m ∷ ms) h = elim (Bool-cases (p m)) [
    | inl kept ↦ rw kept ((h.0, kept), All-filter P p ms h.1)
    | inr skip ↦ rw skip (All-filter P p ms h.1)
  ]

  contains-mem :
      {m : Machine} (ms : List Machine) → Memᴰ m ms → contains (launch_ids ms) m.launch_id ≡ true
  contains-mem [] h = elim h [ ]
  contains-mem (n ∷ ms) (Memᴰ.head q) =
      let k = (eq_iff n.launch_id _).1 (ap (λ x. x.launch_id) (sym q)) in rw k refl
  contains-mem (n ∷ ms) (Memᴰ.tail h) = ground (arith, contains-mem ms h)

  find_dead-mem :
      {m : Machine} (ms : List Machine)
      → Memᴰ m ms
      → Lives m ⊎ (contains (find_dead check starting ms) m.launch_id ≡ true)
  unfolding find_dead
  find_dead-mem {m} ms h =
      let split =
        contains-append (launch_ids (keep never_up ms)) (launch_ids (keep lost ms)) m.launch_id in
      elim (Bool-cases (never_up m)) [
        | inl never ↦
            inr
              (split ∙ rw (contains-mem (keep never_up ms) (mem-of_keep never_up ms h never)) refl)
        | inr once ↦ elim (Bool-cases (lost m)) [
          | inl dead ↦
              let k = contains-mem (keep lost ms) (mem-of_keep lost ms h dead) in
              inr (ground (arith, split, k))
          | inr alive ↦ inl (lives m once alive)
        ]
      ]
    where
      lives : (n : Machine) → never_up n ≡ false → lost n ≡ false → Lives n
      lives n once alive = ground arith

  Left : List String → Machine → Type 0
  Left dead m = Lives m ⊎ (contains dead m.launch_id ≡ true)

  -- Every record that such a pass leaves is of a machine that lives, or whose termination failed.
  pub reap-Lives_or_fails :
      (ms : List Machine)
      → All (λ m. Lives m ⊎ (terminates m ≡ false)) (reap check terminates starting ms)
  unfolding reap terminate is_spared Left
  reap-Lives_or_fails ms =
      go (find_dead check starting ms) (All-map _ _ ms (λ m h. find_dead-mem ms h) (All-self ms))
    where
      Result : Machine → Type 0
      Result m = Lives m ⊎ (terminates m ≡ false)

      after : List String → List Machine
      after dead = elim dead [
        | [] ↦ ms
        | id ∷ ids ↦ terminate terminates (some (id ∷ ids)) [] starting ms
      ]

      empty : (m : Machine) → Left [] m → Result m
      empty m h = elim h [ inl l ↦ inl l | inr e ↦ absurd (cc e) ]

      spared :
          (dead : List String) (m : Machine)
          → Left dead m
          → is_spared (some dead) [] starting m || not (terminates m) ≡ true
          → Result m
      spared dead m h e = ground arith

      go : (dead : List String) → All (Left dead) ms → All Result (after dead)
      go [] h = All-map _ _ ms empty h
      go (id ∷ ids) h =
          All-map _ _
            (keep (λ m. is_spared (some (id ∷ ids)) [] starting m || not (terminates m)) ms)
            (λ m k. spared (id ∷ ids) m k.0 k.1) (All-filter (Left (id ∷ ids)) _ ms h)
