-- ===== src/Governance/Spending.antt =====
-- Which spend rule decides for an agent.
use canyonos.Prelude.{
  ◌≡◌, ◌⊎◌, inl, inr, Bool, true, false, List, [], ◌∷◌, none, some, All, ap, subst, sym, Bool-cases,
  Option-cases, String, if◌then◌else◌, refl,
}
use mathlib.Core.List.{Memᴰ, cons≢nil}
use canyonos.Prelude.Members.{mem-keep, All-keep, keep-All, All-map}
use canyonos.Float.{Float, lt, is_nan, lt_irrefl, lt_numbers, not_lt_trans, not_lt_trans_not}
use canyonos.Governance.{
  SpendRule, Spend, Rules, highest, highest_of, passed, spent, tripped, rules_of,
}

-- `r` is a rule of the list that the spend has passed, and none that it has passed is above it.
pub record IsHighest (usd : Float) (rules : List SpendRule) (r : SpendRule) : Type 0 where
  pub listed : Memᴰ r rules
  pub is_passed : lt r.above_usd usd ≡ true
  pub top :
      All (λ (s : SpendRule). lt s.above_usd usd ≡ true → lt r.above_usd s.above_usd ≡ false) rules

abbrev NotAbove : SpendRule → SpendRule → Type 0
NotAbove h s = lt h.above_usd s.above_usd ≡ false

abbrev IsNumber : SpendRule → Type 0
IsNumber s = is_nan s.above_usd ≡ false

highest-cons :
    (best r : SpendRule) (rs : List SpendRule) {b : Bool}
    → lt best.above_usd r.above_usd ≡ b
    → highest best (r ∷ rs) ≡ highest (if b then r else best) rs
unfolding highest
highest-cons best r rs e = ap (λ t. highest (if t then r else best) rs) e

abbrev Tops : List SpendRule → SpendRule → Type 0
Tops rs h = All (NotAbove h) rs

highest-Tops :
    (best : SpendRule) (rs : List SpendRule)
    → IsNumber best
    → All IsNumber rs
    → Tops (best ∷ rs) (highest best rs)
unfolding highest
highest-Tops best [] n ns = (lt_irrefl best.above_usd, tt)
highest-Tops best (r ∷ rs) n ns = elim (Bool-cases (lt best.above_usd r.above_usd)) [
  | inl less ↦
      let h = highest-Tops r rs ns.0 ns.1 in
      subst (Tops (best ∷ r ∷ rs)) (sym (highest-cons best r rs less))
        (not_lt_trans (highest r rs).above_usd r.above_usd best.above_usd h.0 less, h)
  | inr more ↦
      let h = highest-Tops best rs n ns.1 in
      subst (Tops (best ∷ r ∷ rs)) (sym (highest-cons best r rs more)) (
        h.0,
        (not_lt_trans_not (highest best rs).above_usd best.above_usd r.above_usd h.0 more n, h.1),
      )
]

mem-skip : {x b r : SpendRule} (rs : List SpendRule) → Memᴰ x (b ∷ rs) → Memᴰ x (b ∷ r ∷ rs)
mem-skip rs (Memᴰ.head q) = Memᴰ.head q
mem-skip rs (Memᴰ.tail m) = Memᴰ.tail (Memᴰ.tail m)

highest-mem : (best : SpendRule) (rs : List SpendRule) → Memᴰ (highest best rs) (best ∷ rs)
unfolding highest
highest-mem best [] = Memᴰ.head refl
highest-mem best (r ∷ rs) = elim (Bool-cases (lt best.above_usd r.above_usd)) [
  | inl less ↦ rw (highest-cons best r rs less) (Memᴰ.tail (highest-mem r rs))
  | inr more ↦ rw (highest-cons best r rs more) (mem-skip rs (highest-mem best rs))
]

passed-IsNumber : (usd : Float) (rules : List SpendRule) → All IsNumber (passed usd rules)
passed-IsNumber usd rules =
    All-map _ IsNumber (passed usd rules) (λ r h. (lt_numbers r.above_usd usd h).0)
      (keep-All (λ (r : SpendRule). lt r.above_usd usd) rules)

highest_of-Tops :
    (l : List SpendRule) (r : SpendRule)
    → All IsNumber l
    → highest_of l ≡ some r
    → Memᴰ r l × Tops l r
unfolding highest_of
highest_of-Tops [] r ns e = cc
highest_of-Tops (b ∷ rs) r ns e =
    let same : highest b rs ≡ r = cc in
    (rw same at (highest-mem b rs), subst (Tops (b ∷ rs)) same (highest-Tops b rs ns.0 ns.1))

highest_of-none : (l : List SpendRule) → highest_of l ≡ none → l ≡ []
unfolding highest_of
highest_of-none [] e = refl
highest_of-none (b ∷ rs) e = cc

-- No rule of the list has been passed.
abbrev pub NonePassed : Float → List SpendRule → Type 0
NonePassed usd = All (λ (s : SpendRule). lt s.above_usd usd ≡ false)

NonePassed-nil :
    (usd : Float) (rules : List SpendRule) → passed usd rules ≡ [] → NonePassed usd rules
NonePassed-nil usd [] e = tt
NonePassed-nil usd (r ∷ rules) e = elim (Bool-cases (lt r.above_usd usd)) [
  | inl p ↦ absurd (cons≢nil (rw p at e))
  | inr n ↦ (n, NonePassed-nil usd rules (rw n at e))
]

highest_of-cases :
    (usd : Float) (rules : List SpendRule)
    → (highest_of (passed usd rules) ≡ none) × NonePassed usd rules
      ⊎ ((r : SpendRule) × (highest_of (passed usd rules) ≡ some r) × IsHighest usd rules r)
highest_of-cases usd rules = elim (Option-cases (highest_of (passed usd rules))) [
  | inl e ↦ inl (e, NonePassed-nil usd rules (highest_of-none (passed usd rules) e))
  | inr (r, e) ↦
      let (m, top) = highest_of-Tops (passed usd rules) r (passed-IsNumber usd rules) e in
      let under = λ (s : SpendRule). lt s.above_usd usd in
      inr (
        r,
        e,
        record {
          listed = (mem-keep under rules m).0;
          is_passed = (mem-keep under rules m).1;
          top = All-keep under (NotAbove r) rules top;
        },
      )
]

-- For an agent with spend rules, `_tripped` finds nothing exactly when its spend has passed no
-- threshold, and otherwise a rule of the list that is passed and has the highest threshold of those
-- passed.
pub tripped_cases :
    {V : Type 0} (rules : Rules V) (agent : String) (spend : Spend)
    → (rules_of rules.agents agent).spend ≡ some (some spend)
    → (tripped rules agent ≡ none) × NonePassed (spent rules.spend agent) spend.rules
      ⊎ ((r : SpendRule) × (tripped rules agent ≡ some r)
          × IsHighest (spent rules.spend agent) spend.rules r)
unfolding tripped
tripped_cases rules agent spend e = rw e (highest_of-cases (spent rules.spend agent) spend.rules)
