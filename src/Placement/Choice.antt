-- ===== src/Placement/Choice.antt =====
-- Which machine a replica is placed on.
use canyonos.Prelude.{
  ℕ, suc, ◌-◌, ◌≤◌, ◌≡◌, refl, sym, ap, subst, ◌⊎◌, inl, inr, Bool, true, false, String, List, [],
  ◌∷◌, none, some, arith, All, Bool-cases, Option-cases, if◌then◌else◌, keep,
}
use mathlib.Core.List.{Memᴰ, cons≢nil}
use canyonos.Prelude.Members.{mem-keep, All-keep}
use canyonos.Float.{Float, lt, is_nan, lt_irrefl, lt_not_lt, not_lt_trans_not}
use canyonos.Placement.{
  Machine, NewReplica, is_candidate, enumerate, update_at, load, lowest, with_replica, candidates,
  choose, place,
}
use canyonos.Placement.Changes.{at, Placed, update_at-Placed}

mem-enumerate :
    (k i : ℕ) (m : Machine) (ms : List Machine)
    → Memᴰ (i, m) (enumerate k ms)
    → (k ≤ i) × (at (i - k) ms ≡ some m)
mem-enumerate k i m [] h = elim h [ ]
mem-enumerate k i m (n ∷ ms) (Memᴰ.head q) =
    let same : i ≡ k = ap (λ c. c.0) q in
    let start : i - k ≡ 0 = omega (arith, same) in
    (omega (arith, same), rw start (ap some (sym (ap (λ c. c.1) q))))
mem-enumerate k i m (n ∷ ms) (Memᴰ.tail h) =
    let (le, e) = mem-enumerate (suc k) i m ms h in
    (omega (arith, le), (let next : i - k ≡ suc (i - suc k) = omega (arith, le) in rw next e))

module _ (add quotient : Float → Float → Float) where
  abbrev Load : Machine → Float
  Load = load add quotient

  abbrev NotBelow : ℕ × Machine → ℕ × Machine → Type 0
  NotBelow best c = lt (Load c.1) (Load best.1) ≡ false

  lowest-cons :
      (best c : ℕ × Machine) (cs : List (ℕ × Machine)) {b : Bool}
      → lt (Load c.1) (Load best.1) ≡ b
      → lowest add quotient best (c ∷ cs) ≡ lowest add quotient (if b then c else best) cs
  unfolding lowest
  lowest-cons best c cs e = ap (λ t. lowest add quotient (if t then c else best) cs) e

  mem-skip : {x b c : ℕ × Machine} (cs : List (ℕ × Machine)) → Memᴰ x (b ∷ cs) → Memᴰ x (b ∷ c ∷ cs)
  mem-skip cs (Memᴰ.head q) = Memᴰ.head q
  mem-skip cs (Memᴰ.tail m) = Memᴰ.tail (Memᴰ.tail m)

  lowest-mem :
      (best : ℕ × Machine) (cs : List (ℕ × Machine))
      → Memᴰ (lowest add quotient best cs) (best ∷ cs)
  unfolding lowest
  lowest-mem best [] = Memᴰ.head refl
  lowest-mem best (c ∷ cs) = elim (Bool-cases (lt (Load c.1) (Load best.1))) [
    | inl less ↦ rw (lowest-cons best c cs less) (Memᴰ.tail (lowest-mem c cs))
    | inr more ↦ rw (lowest-cons best c cs more) (mem-skip cs (lowest-mem best cs))
  ]

  abbrev IsNumber : ℕ × Machine → Type 0
  IsNumber c = is_nan (Load c.1) ≡ false

  lowest-NotBelow :
      (best : ℕ × Machine) (cs : List (ℕ × Machine))
      → IsNumber best
      → All IsNumber cs
      → All (NotBelow (lowest add quotient best cs)) (best ∷ cs)
  unfolding lowest
  lowest-NotBelow best [] n ns = (lt_irrefl (Load best.1), tt)
  lowest-NotBelow best (c ∷ cs) n ns = elim (Bool-cases (lt (Load c.1) (Load best.1))) [
    | inl less ↦
        let h = lowest-NotBelow c cs ns.0 ns.1 in
        subst (λ l. All (NotBelow l) (best ∷ c ∷ cs)) (sym (lowest-cons best c cs less))
          (lt_not_lt (Load c.1) (Load (lowest add quotient c cs).1) (Load best.1) h.0 less, h)
    | inr more ↦
        let h = lowest-NotBelow best cs n ns.1 in
        subst (λ l. All (NotBelow l) (best ∷ c ∷ cs)) (sym (lowest-cons best c cs more))
          (
            h.0,
            (
              not_lt_trans_not (Load c.1) (Load best.1) (Load (lowest add quotient best cs).1) more
                  h.0 n,
              h.1,
            ),
          )
  ]

  choose-Least :
      (cs : List (ℕ × Machine)) (c : ℕ × Machine)
      → All IsNumber cs
      → choose add quotient cs ≡ some c
      → Memᴰ c cs × All (NotBelow c) cs
  unfolding choose
  choose-Least [] c ns e = absurd (cc e)
  choose-Least (b ∷ cs) c ns e =
      let same : lowest add quotient b cs ≡ c = cc e in
      (
        rw same at (lowest-mem b cs),
        subst (λ l. All (NotBelow l) (b ∷ cs)) same (lowest-NotBelow b cs ns.0 ns.1),
      )

  choose-none : (cs : List (ℕ × Machine)) → choose add quotient cs ≡ none → cs ≡ []
  unfolding choose
  choose-none [] e = refl
  choose-none (b ∷ cs) e = absurd (cc e)

  choose-mem :
      (cs : List (ℕ × Machine)) (c : ℕ × Machine) → choose add quotient cs ≡ some c → Memᴰ c cs
  unfolding choose
  choose-mem [] c e = absurd (cc e)
  choose-mem (b ∷ cs) c e =
      let same : lowest add quotient b cs ≡ c = cc e in rw same at (lowest-mem b cs)

  none_kept :
      (p : ℕ × Machine → Bool) (k : ℕ) (ms : List Machine)
      → keep p (enumerate k ms) ≡ []
      → All (λ c. p c ≡ false) (enumerate k ms)
  none_kept p k [] e = tt
  none_kept p k (m ∷ ms) e = elim (Bool-cases (p (k, m))) [
    | inl kept ↦ absurd (cons≢nil (rw kept at e))
    | inr skip ↦ (skip, none_kept p (suc k) ms (rw skip at e))
  ]

  -- The chosen machine: it stands at the index, is a candidate, and no candidate is less loaded.
  pub record IsChosen (provider : String) (r : NewReplica) (machines : List Machine) (i : ℕ)
      (m : Machine) : Type 0 where
    pub stands : at i machines ≡ some m
    pub candidate : is_candidate provider r m ≡ true
    pub least :
        All (λ c. is_candidate provider r c.1 ≡ true → NotBelow (i, m) c) (enumerate 0 machines)

  pub place-IsCandidate :
      (provider : String) (r : NewReplica) (machines : List Machine) (c : ℕ × Machine)
      → choose add quotient (candidates add quotient provider r machines) ≡ some c
      → (at c.0 machines ≡ some c.1) × (is_candidate provider r c.1 ≡ true)
  unfolding candidates
  place-IsCandidate provider r machines c e =
      let kept =
        mem-keep (λ (d : ℕ × Machine). is_candidate provider r d.1) (enumerate 0 machines)
          (choose-mem (candidates add quotient provider r machines) c e) in
      let zero_off : c.0 - 0 ≡ c.0 = omega arith in
      (rw zero_off at (mem-enumerate 0 c.0 c.1 machines kept.0).1, kept.1)

  -- A replica is placed on a machine of its provider that may take it and than which no other such
  -- machine is less loaded. The use of that machine grows by the replica's needs and by one replica,
  -- the replica is the last of its replicas, and no other machine changes. There is no placement
  -- exactly when no machine may take it. No load is NaN.
  pub place_cases :
      (provider : String) (r : NewReplica) (machines : List Machine)
      → All IsNumber (candidates add quotient provider r machines)
      → (place add quotient provider r machines ≡ none)
          × All (λ c. is_candidate provider r c.1 ≡ false) (enumerate 0 machines)
        ⊎ ((i : ℕ) × (m : Machine) × (placed : List Machine) × IsChosen provider r machines i m
            × (place add quotient provider r machines ≡ some (i, placed))
            × Placed add quotient r machines i m placed)
  unfolding place candidates
  place_cases provider r machines ns =
      elim (Option-cases (choose add quotient (candidates add quotient provider r machines))) [
        | inl e ↦ inl (
          rw (e, place) refl,
          none_kept (λ c. is_candidate provider r c.1) 0 machines
              (choose-none (candidates add quotient provider r machines) e),
        )
        | inr (c, e) ↦
            let (stands, candidate) = place-IsCandidate provider r machines c e in
            inr (
              c.0,
              c.1,
              update_at c.0 (with_replica add quotient r) machines,
              record {
                stands = stands;
                candidate = candidate;
                least =
                    All-keep (λ d. is_candidate provider r d.1) (NotBelow c) (enumerate 0 machines)
                      (choose-Least (candidates add quotient provider r machines) c ns e).1;
              },
              rw (e, place) refl,
              update_at-Placed add quotient r machines c.0 c.1 stands,
            )
      ]
