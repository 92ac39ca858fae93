-- ===== src/Governance/Policy.antt =====
-- Which rule of policy.yaml decides about a call.
use canyonos.Prelude.{
  suc, ℕ, ◌≡◌, ◌≢◌, ◌≤◌, ◌⊎◌, inl, inr, Bool, true, false, String, List, [], ◌∷◌, Option, All, refl,
  arith, Bool-cases, length, str_eq, eq_iff,
}
use canyonos.Prelude.Members.{All-map, All-mem, All-self}
use mathlib.Core.List.{Memᴰ}
use canyonos.Prelude.Sorting.{
  sort_by, sort_by-IsSortedBy, IsSortedBy, All-sort_by, All-of_sort_by, length-sort_by,
}
use canyonos.Governance.{
  PolicyRule, grants, meets, first_match, policy_allows, is_empty, as_specific, sort_rules,
  endpoint_agent_name,
}

module _ {V : Type 0} where
  abbrev Keys : ℕ → PolicyRule V → Type 0
  Keys n s = length s.matched ≤ n

  as_specific_total : (r s : PolicyRule V) → as_specific r s ≡ false → as_specific s r ≡ true
  as_specific_total r s h = ground arith

  as_specific_trans :
      (r s t : PolicyRule V)
      → as_specific r s ≡ true
      → as_specific s t ≡ true
      → as_specific r t ≡ true
  as_specific_trans r s t h k = ground arith

  -- The most specific rules stand first.
  abbrev IsSorted : List (PolicyRule V) → Type 0
  IsSorted = IsSortedBy as_specific

  sort_rules-IsSorted : (rs : List (PolicyRule V)) → IsSorted (sort_rules rs)
  unfolding sort_rules
  sort_rules-IsSorted rs = sort_by-IsSortedBy as_specific as_specific_total as_specific_trans rs

  sort_rules-nonempty :
      (r : PolicyRule V) (rs : List (PolicyRule V)) → is_empty (sort_rules (r ∷ rs)) ≡ false
  unfolding sort_rules
  sort_rules-nonempty r rs = go (sort_by as_specific (r ∷ rs)) (length-sort_by as_specific (r ∷ rs))
    where
      go : (l : List (PolicyRule V)) → length l ≡ suc (length rs) → is_empty l ≡ false
      go [] e = absurd (omega (arith, e))
      go (s ∷ l) e = refl

  All-of_sort_rules :
      (P : PolicyRule V → Type 0) (rs : List (PolicyRule V)) → All P (sort_rules rs) → All P rs
  unfolding sort_rules
  All-of_sort_rules P rs h = All-of_sort_by as_specific P rs h

  mem-sort_rules :
      {x : PolicyRule V} (rs : List (PolicyRule V)) → Memᴰ x (sort_rules rs) → Memᴰ x rs
  unfolding sort_rules
  mem-sort_rules rs m =
      All-mem (λ y. Memᴰ y rs) (sort_by as_specific rs)
        (All-sort_by as_specific (λ y. Memᴰ y rs) rs (All-self rs)) m

module _ {V : Type 0} (same : Option V → V → Bool) (agent : String)
    (context : List (String × V)) where
  abbrev Meets : PolicyRule V → Type 0
  Meets r = meets same context r.matched ≡ true

  -- `r` is a rule that the context meets, no rule that it meets has more match keys, and `allowed`
  -- is what `r` grants.
  pub record Decides (rules : List (PolicyRule V)) (allowed : Bool) (r : PolicyRule V)
      : Type 0 where
    pub listed : Memᴰ r rules
    pub met : Meets r
    pub specific : All (λ s. Meets s → Keys (length r.matched) s) rules
    pub granted : allowed ≡ grants r.access agent

  abbrev pub Verdict : List (PolicyRule V) → Bool → Type 0
  Verdict rules allowed =
      All (λ r. meets same context r.matched ≡ false) rules × (allowed ≡ false)
      ⊎ ((r : PolicyRule V) × Decides rules allowed r)

  first_match-Verdict :
      (rules : List (PolicyRule V))
      → IsSorted rules
      → Verdict rules (first_match same rules agent context)
  unfolding first_match
  first_match-Verdict [] h = inl (tt, refl)
  first_match-Verdict (r ∷ rules) h = elim (Bool-cases (meets same context r.matched)) [
    | inl met ↦ inr (
      r,
      record {
        listed = Memᴰ.head refl;
        met = met;
        specific = ((λ _. omega arith), All-map _ _ rules (λ s k _. ground (arith, k)) h.0);
        granted = rw met;
      },
    )
    | inr skip ↦ elim (first_match-Verdict rules h.1) [
      | inl (no_one, e) ↦ inl ((skip, no_one), rw skip e)
      | inr (s, d) ↦ inr (
        s,
        record {
          listed = Memᴰ.tail d.listed;
          met = d.met;
          specific = ((λ m. absurd (cc (m, skip))), d.specific);
          granted = rw skip d.granted;
        },
      )
    ]
  ]

  Verdict-sort_rules :
      (rules : List (PolicyRule V)) (allowed : Bool)
      → Verdict (sort_rules rules) allowed
      → Verdict rules allowed
  Verdict-sort_rules rules allowed (inl (no_one, e)) = inl (All-of_sort_rules _ rules no_one, e)
  Verdict-sort_rules rules allowed (inr (r, d)) = inr (
    r,
    record {
      listed = mem-sort_rules rules d.listed;
      met = d.met;
      specific = All-of_sort_rules _ rules d.specific;
      granted = d.granted;
    },
  )

  other_agent : agent ≢ endpoint_agent_name → str_eq agent endpoint_agent_name ≡ false
  other_agent other = elim (Bool-cases (str_eq agent endpoint_agent_name)) [
    | inl e ↦ absurd (other ((eq_iff agent endpoint_agent_name).0 e))
    | inr e ↦ e
  ]

  -- With rules sorted as the global controller publishes them, a call to an agent other than the
  -- endpoint is decided by a rule that the context meets and that has the most match keys of those
  -- it meets; where it meets no rule, the call is denied. The policy has at least one rule.
  pub policy_allows-Verdict :
      (first : PolicyRule V) (others : List (PolicyRule V))
      → agent ≢ endpoint_agent_name
      → Verdict (first ∷ others) (policy_allows same (sort_rules (first ∷ others)) agent context)
  unfolding policy_allows
  policy_allows-Verdict first others other =
      let rules = sort_rules (first ∷ others) in
      let e : policy_allows same rules agent context ≡ first_match same rules agent context =
        rw (other_agent other, sort_rules-nonempty first others) in
      rw e (
        Verdict-sort_rules (first ∷ others) (first_match same rules agent context)
          (first_match-Verdict rules (sort_rules-IsSorted (first ∷ others))))
