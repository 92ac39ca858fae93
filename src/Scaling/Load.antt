-- ===== src/Scaling/Load.antt =====
-- On what evidence `_decide` moves a count that is within its bounds.
use canyonos.Prelude.{
  ℕ, ◌≤◌, ◌≡◌, ◌≢◌, ◌⊎◌, List, Option, none, some, [], ◌∷◌, map, length, All, arith, Bool-cases,
  inl, inr, true, false, ltb, refl, sym, subst, all, ◌&&◌,
}
use canyonos.Prelude.Int.{ℤ, pos, negsuc}
use canyonos.Float.{
  Float, IsNumber, Above, Below, minimum, lt, All-Above-minimum, All-Below-maximum,
}
use canyonos.Value.{Value, number}
use canyonos.Scaling.{
  Policy, Sample, on_load, metric_value, numbers, step, settled, decide, steady, window_length,
}
use canyonos.Scaling.Bounds.{InBounds}

-- A sample whose metric is a number that meets a test.
abbrev pub Reads : (Float → Type 0) → Policy → Sample → Type 0
Reads P p s = (x : Float) × (number (metric_value p.metric s) ≡ some x) × P x

-- The policy's metric is a number, and not NaN, wherever it is given.
abbrev pub NoNan : Policy → Sample → Type 0
NoNan p s = (x : Float) → number (metric_value p.metric s) ≡ some x → IsNumber x

numbers-cons :
    (v : Value) (vs : List Value) (ys : List Float)
    → numbers (v ∷ vs) ≡ some ys
    → (x : Float) × (xs : List Float) × (number v ≡ some x) × (numbers vs ≡ some xs) × (ys ≡ x ∷ xs)
unfolding numbers
numbers-cons v vs ys e = ground arith

numbers-Reads :
    (p : Policy) (P : Float → Type 0) (samples : List Sample) {xs : List Float}
    → numbers (map (metric_value p.metric) samples) ≡ some xs
    → All P xs
    → All (Reads P p) samples
numbers-Reads p P [] e h = tt
numbers-Reads p P (s ∷ samples) {xs} e h =
    let (y, ys, read, rest, same) =
      numbers-cons (metric_value p.metric s) (map (metric_value p.metric) samples) xs e in
    let h' : All P (y ∷ ys) = subst (All P) same h in
    ((y, read, h'.0), numbers-Reads p P samples rest h'.1)

numbers-nil : (xs : List Float) → numbers [] ≡ some xs → [] ≡ xs
unfolding numbers
numbers-nil xs e = ground arith

numbers-NoNan :
    (p : Policy) (samples : List Sample) {xs : List Float}
    → numbers (map (metric_value p.metric) samples) ≡ some xs
    → All (NoNan p) samples
    → All IsNumber xs
numbers-NoNan p [] {xs} e h = subst (All IsNumber) (numbers-nil xs e) tt
numbers-NoNan p (s ∷ samples) {xs} e h =
    let (y, ys, read, rest, same) =
      numbers-cons (metric_value p.metric s) (map (metric_value p.metric) samples) xs e in
    subst (All IsNumber) (sym same) (h.0 y read, numbers-NoNan p samples rest h.1)

abbrev pub Steady : ℕ → Sample → Type 0
Steady n s = (s.replicas_expected ≡ n) × (s.replicas_running ≡ n)

all-Steady :
    (n : ℕ) (samples : List Sample) → all (steady n) samples ≡ true → All (Steady n) samples
all-Steady n [] h = tt
all-Steady n (s ∷ samples) h = (ground arith, all-Steady n samples (ground arith))

settled-Steady :
    (n : ℕ) (samples : List Sample)
    → settled n samples ≡ true
    → (window_length ≤ length samples) × All (Steady n) samples
unfolding settled
settled-Steady n samples h = (ground arith, all-Steady n samples (ground arith))

-- What a full window says when it moves the count by one.
abbrev pub Justifies : Policy → List Sample → ℤ → Type 0
Justifies p samples delta =
    (delta ≡ pos 1) × All (Reads (Above p.scale_up_above) p) samples
    ⊎ (delta ≡ negsuc 0) × All (Reads (Below p.scale_down_below) p) samples

step-Justifies :
    (p : Policy) (n : ℕ) (v : Float) (vs : List Float)
    → step p n v vs ≢ pos 0
    → IsNumber v
    → All IsNumber vs
    → ((step p n v vs ≡ pos 1) × All (Above p.scale_up_above) (v ∷ vs))
      ⊎ ((step p n v vs ≡ negsuc 0) × All (Below p.scale_down_below) (v ∷ vs))
unfolding step
step-Justifies p n v vs moved nv nvs =
    elim (Bool-cases (lt p.scale_up_above (minimum v vs) && ltb n p.max_replicas)) [
      | inl up ↦ inl (ground arith, All-Above-minimum p.scale_up_above v vs nv nvs (ground arith))
      | inr stay ↦
          inr (ground arith, All-Below-maximum p.scale_down_below v vs nv nvs (ground arith))
    ]

on_load-Justifies :
    (p : Policy) (n : ℕ) (samples : List Sample) (o : Option (List Float))
    → numbers (map (metric_value p.metric) samples) ≡ o
    → on_load p n o ≢ pos 0
    → All (NoNan p) samples
    → Justifies p samples (on_load p n o)
unfolding on_load
on_load-Justifies p n samples none e moved h = absurd (moved refl)
on_load-Justifies p n samples (some []) e moved h = absurd (moved refl)
on_load-Justifies p n samples (some (v ∷ vs)) e moved h =
    let ns = numbers-NoNan p samples e h in
    elim (step-Justifies p n v vs moved ns.0 ns.1) [
      | inl (d, all_above) ↦ inl (d, numbers-Reads p _ samples e all_above)
      | inr (d, all_below) ↦ inr (d, numbers-Reads p _ samples e all_below)
    ]

module _ (p : Policy) (newest : Sample) (older : List Sample)
    (within : InBounds p newest.replicas_expected) where
  abbrev current : ℕ
  current = newest.replicas_expected

  decide-settled :
      settled current (newest ∷ older) ≡ true
      → decide p newest older
        ≡ on_load p current (numbers (map (metric_value p.metric) (newest ∷ older)))
  unfolding decide
  decide-settled h = ground arith

  decide_unsettled : settled current (newest ∷ older) ≡ false → decide p newest older ≡ pos 0
  unfolding decide
  decide_unsettled h = ground arith

  -- A count within its bounds moves only on a full window in which every sample ran at that count,
  -- and then by one: up when every sample's metric is above `scale_up_above`, down when every one
  -- is below `scale_down_below`. The samples' metrics must not be NaN.
  pub decide-Justifies :
      All (NoNan p) (newest ∷ older)
      → decide p newest older ≢ pos 0
      → (window_length ≤ length (newest ∷ older))
        × All (Steady current) (newest ∷ older)
        × Justifies p (newest ∷ older) (decide p newest older)
  decide-Justifies clean moved = elim (Bool-cases (settled current (newest ∷ older))) [
    | inr e ↦ absurd (moved (decide_unsettled e))
    | inl e ↦
        let (full, steady_all) = settled-Steady current (newest ∷ older) e in
        (
          full,
          steady_all,
          rw (decide-settled e) (
              on_load-Justifies p current (newest ∷ older) _ refl (rw (decide-settled e) at moved)
                clean),
        )
  ]
