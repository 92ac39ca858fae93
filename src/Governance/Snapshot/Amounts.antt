-- ===== src/Governance/Snapshot/Amounts.antt =====
-- What `_spend` reads.
use canyonos.Prelude.{
  ◌≡◌, ◌≢◌, refl, sym, subst, ◌∙◌, ap, ◌⊎◌, String, List, [], ◌∷◌, Option, none, some, str_eq,
  eq_iff, arith, Bool-cases, Option-cases, inl, inr,
}
use canyonos.Prelude.Int.{ℤ}
use canyonos.Float.{Float}
use canyonos.Value.{Value, int, float, dict, number, entries}
use canyonos.Governance.Snapshot.{
  Usd, skipped, usd, too_large, usd_of, add_usd, numbers_of, spend_of, read_spend,
}

same_usd : {x y : Float} → usd x ≡ usd y → x ≡ y
same_usd e = cc e

same_list : {l m : List (String × Float)} → some l ≡ some m → l ≡ m
same_list e = cc e

module _ (to_float : ℤ → Option Float) where
  -- A number of USD, as a float.
  abbrev pub IsUsd : Value → Float → Type 0
  IsUsd (int z) x = to_float z ≡ some x
  IsUsd (float y) x = y ≡ x
  IsUsd _ x = ⊥

  -- Every number of the document is read, in its order, and nothing else is.
  pub data Reads : List (String × Value) → List (String × Float) → Type 0 where
    at_end : Reads [] []
    number_read :
        {es : List (String × Value)} {l : List (String × Float)} (name : String) (v : Value)
        (x : Float)
        → IsUsd v x
        → Reads es l
        → Reads ((name, v) ∷ es) ((name, x) ∷ l)
    other_skipped :
        {es : List (String × Value)} {l : List (String × Float)} (name : String) (v : Value)
        → number v ≡ none
        → Reads es l
        → Reads ((name, v) ∷ es) l

  usd_of-IsUsd : (v : Value) {x : Float} → usd_of to_float v ≡ usd x → IsUsd v x
  unfolding usd_of
  usd_of-IsUsd (int z) h = elim (Option-cases (to_float z)) [
    | inl e ↦ absurd (cc (rw (e, usd_of) at h))
    | inr (y, e) ↦ e ∙ ap some (same_usd (rw (e, usd_of) at h))
  ]
  usd_of-IsUsd (float y) h = same_usd h
  usd_of-IsUsd _ h = absurd (cc h)

  usd_of-skipped : (v : Value) → usd_of to_float v ≡ skipped → number v ≡ none
  unfolding usd_of
  usd_of-skipped (int z) h = elim (Option-cases (to_float z)) [
    | inl e ↦ absurd (cc (rw (e, usd_of) at h))
    | inr (y, e) ↦ absurd (cc (rw (e, usd_of) at h))
  ]
  usd_of-skipped (float y) h = absurd (cc h)
  usd_of-skipped _ h = refl

  add_usd-Reads :
      (name : String) (v : Value) (es : List (String × Value)) (u : Usd)
      (o : Option (List (String × Float)))
      → usd_of to_float v ≡ u
      → ((l : List (String × Float)) → o ≡ some l → Reads es l)
      → (l : List (String × Float)) → add_usd to_float name u o ≡ some l
      → Reads ((name, v) ∷ es) l
  add_usd-Reads name v es skipped o e h l q = other_skipped name v (usd_of-skipped v e) (h l q)
  add_usd-Reads name v es too_large o e h l q = absurd (cc q)
  add_usd-Reads name v es (usd x) none e h l q = absurd (cc q)
  add_usd-Reads name v es (usd x) (some rest) e h l q =
      subst (Reads ((name, v) ∷ es)) (same_list q)
        (number_read name v x (usd_of-IsUsd v e) (h rest refl))

  numbers_of-Reads :
      (es : List (String × Value)) (l : List (String × Float))
      → numbers_of to_float es ≡ some l
      → Reads es l
  unfolding numbers_of
  numbers_of-Reads [] l q = subst (Reads []) (same_list q) at_end
  numbers_of-Reads (e ∷ es) l q =
      add_usd-Reads e.0 e.1 es (usd_of to_float e.1) (numbers_of to_float es) refl
        (λ m r. numbers_of-Reads es m r) l q

module _ (decode : String → Option Value) (to_float : ℤ → Option Float) where
  abbrev pub IsSpendOf : Option Value → List (String × Float) → Type 0
  IsSpendOf (some (dict es)) l = Reads to_float (entries es) l
  IsSpendOf _ l = l ≡ []

  -- The spend of a text: none where there is no text, or it is no JSON object; else its numbers.
  abbrev pub IsSpend : Option String → List (String × Float) → Type 0
  IsSpend none l = l ≡ []
  IsSpend (some raw) l = ((raw ≡ "") × (l ≡ [])) ⊎ ((raw ≢ "") × IsSpendOf (decode raw) l)

  spend_of-IsSpendOf :
      (o : Option Value) (l : List (String × Float))
      → spend_of decode to_float o ≡ some l
      → IsSpendOf o l
  spend_of-IsSpendOf (some (dict es)) l q = numbers_of-Reads to_float (entries es) l q
  spend_of-IsSpendOf _ l q = sym (same_list q)

  pub read_spend-IsSpend :
      (raw : Option String) (l : List (String × Float))
      → read_spend decode to_float raw ≡ some l
      → IsSpend raw l
  unfolding read_spend
  read_spend-IsSpend none l q = sym (same_list q)
  read_spend-IsSpend (some raw) l q = elim (Bool-cases (str_eq raw "")) [
    | inl e ↦ inl ((eq_iff raw "").0 e, sym (same_list (rw e at q)))
    | inr e ↦
        inr (
          (λ s. ground (arith, s, e, eq_iff raw "")),
          spend_of-IsSpendOf (decode raw) l (rw e at q),
        )
  ]
