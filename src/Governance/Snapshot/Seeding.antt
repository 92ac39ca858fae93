-- ===== src/Governance/Snapshot/Seeding.antt =====
-- The document that a deploy stores.
use canyonos.Prelude.{
  ◌≡◌, refl, sym, ◌∙◌, String, List, [], ◌∷◌, ◌++◌, Option, none, some, str_eq, eq_iff, arith,
  Bool-cases, Option-cases, inl, inr, if◌then◌else◌, lookup, subst,
}
use canyonos.Governance.{AgentRules, Spend, SpendRule}
use canyonos.Governance.Snapshot.{start_spend, seed_agents, seed}

-- The stored rules, or else the file's with their spend counted from now.
abbrev stored_or_new : String → Option AgentRules → Option AgentRules → Option AgentRules
stored_or_new now (some r) written = some r
stored_or_new now none none = none
stored_or_new now none (some r) = some (start_spend now r)

lookup-append :
    (k j : String) (v : AgentRules) (m : List (String × AgentRules))
    → lookup k (m ++ ((j, v) ∷ []))
      ≡ elim (lookup k m) [ some r ↦ some r | none ↦ if str_eq j k then some v else none ]
lookup-append k j v [] = refl
lookup-append k j v (e ∷ m) = ground (arith, lookup-append k j v m)

lookup-seed_agents :
    (now name : String) (agents es : List (String × AgentRules))
    → lookup name (seed_agents now agents es)
      ≡ stored_or_new now (lookup name agents) (lookup name es)
unfolding seed_agents
lookup-seed_agents now name agents [] = ground arith
lookup-seed_agents now name agents (e ∷ es) = elim (Option-cases (lookup e.0 agents)) [
  | inr (r, found) ↦ rw (found, seed_agents) (lookup-seed_agents now name agents es ∙ known r found)
  | inl missing ↦
      rw (missing, seed_agents)
        (lookup-seed_agents now name (agents ++ ((e.0, start_spend now e.1) ∷ [])) es
          ∙ added missing)
]
  where
    known :
        (r : AgentRules)
        → lookup e.0 agents ≡ some r
        → stored_or_new now (lookup name agents) (lookup name es)
          ≡ stored_or_new now (lookup name agents) (lookup name (e ∷ es))
    known r found = elim (Bool-cases (str_eq e.0 name)) [
      | inl same ↦
          let here = subst (λ k. lookup k agents ≡ some r) ((eq_iff e.0 name).0 same) found in
          rw here refl
      | inr other ↦ rw other refl
    ]

    added :
        lookup e.0 agents ≡ none
        → stored_or_new now
            (lookup name (agents ++ ((e.0, start_spend now e.1) ∷ [])))
            (lookup name es)
          ≡ stored_or_new now (lookup name agents) (lookup name (e ∷ es))
    added missing = ground (arith, lookup-append name e.0 (start_spend now e.1) agents)

-- Rules with a spend that is counted from `now`, unless they say since when.
pub record IsStarted (now : String) (r started : AgentRules) : Type 0 where
  pub requires : started.requires ≡ r.requires
  pub unspent : r.spend ≡ none → started.spend ≡ none
  pub null_spend : r.spend ≡ some none → started.spend ≡ some none
  pub since_then :
      (rules : List SpendRule) (t : String)
      → r.spend ≡ some (some (record { rules = rules; since = some t }))
      → started.spend ≡ some (some (record { rules = rules; since = some t }))
  pub since_now :
      (rules : List SpendRule)
      → r.spend ≡ some (some (record { rules = rules; since = none }))
      → started.spend ≡ some (some (record { rules = rules; since = some now }))

start_spend-requires :
    (now : String) (r : AgentRules) (o : Option (Option Spend))
    → r.spend ≡ o
    → (start_spend now r).requires ≡ r.requires
unfolding start_spend
start_spend-requires now r none e = rw (e, start_spend) refl
start_spend-requires now r (some none) e = rw (e, start_spend) refl
start_spend-requires now r (some (some s)) e = elim (Option-cases s.since) [
  | inl m ↦ rw (e, start_spend) (rw m refl)
  | inr (t, m) ↦ rw (e, start_spend) (rw m refl)
]

start_spend-IsStarted : (now : String) (r : AgentRules) → IsStarted now r (start_spend now r)
unfolding start_spend
start_spend-IsStarted now r = record {
  requires = start_spend-requires now r r.spend refl;
  unspent = λ e. rw (e, start_spend) e;
  null_spend = λ e. rw (e, start_spend) e;
  since_then = λ rules t e. rw (e, start_spend) e;
  since_now = λ rules e. rw (e, start_spend) refl;
}

-- The stored rules of an agent if there are any; or else the file's, started now; or else none.
abbrev pub IsSeeded : String → Option AgentRules → Option AgentRules → Option AgentRules → Type 0
IsSeeded now (some r) written seeded = seeded ≡ some r
IsSeeded now none none seeded = seeded ≡ none
IsSeeded now none (some r) seeded = (q : AgentRules) × (seeded ≡ some q) × IsStarted now r q

stored_or_new-IsSeeded :
    (now : String) (stored written : Option AgentRules)
    → IsSeeded now stored written (stored_or_new now stored written)
stored_or_new-IsSeeded now (some r) written = refl
stored_or_new-IsSeeded now none none = refl
stored_or_new-IsSeeded now none (some r) = (start_spend now r, refl, start_spend-IsStarted now r)

-- After seeding, an agent that the stored document had keeps its rules. Another agent of the file
-- has the file's rules: the same `requires`, and the same spend rules, which are counted from now
-- where the file does not say since when, and else from then. No others are there.
pub seed-IsSeeded :
    (now name : String) (agents es : List (String × AgentRules))
    → IsSeeded now (lookup name agents) (lookup name es) (lookup name (seed now (some agents) es))
unfolding seed
seed-IsSeeded now name agents es =
    subst (IsSeeded now (lookup name agents) (lookup name es))
      (sym (lookup-seed_agents now name agents es))
      (stored_or_new-IsSeeded now (lookup name agents) (lookup name es))
