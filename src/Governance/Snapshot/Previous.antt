-- ===== src/Governance/Snapshot/Previous.antt =====
-- The rules of one snapshot after another.
use canyonos.Prelude.{
  ◌≡◌, refl, sym, subst, ap, ◌∙◌, false, String, List, [], ◌∷◌, Option, none, some, str_eq, arith,
  All, Bool-cases, Option-cases, inl, inr, lookup,
}
use canyonos.Float.{Float, lt, le-false}
use canyonos.Prelude.Int.{ℤ}
use canyonos.Value.{Value}
use canyonos.Governance.{
  AgentRules, Spend, SpendRule, PolicyRule, Rules, rules_of, spent, passed, highest_of, tripped,
  tripped_of,
}
use canyonos.Governance.Parse.{Parsed, ok, fault, parse, zero_usd}
use canyonos.Governance.Parse.WellFormed.{IsAgentRules, IsSpendRule, AreSpendRules, parse-All}
use canyonos.Governance.Snapshot.Amounts.{IsSpend, read_spend-IsSpend}
use canyonos.Governance.Snapshot.{
  read_spend, read_agents, read_policy, load, previous_agents, with_spend, accept, accept_text,
}

abbrev pub AreWellFormed : List (String × AgentRules) → Type 0
AreWellFormed agents = All (λ a. IsAgentRules a.1) agents

passed-zero : (rules : List SpendRule) → All IsSpendRule rules → passed zero_usd rules ≡ []
passed-zero [] h = refl
passed-zero (r ∷ rules) h =
    let under : lt r.above_usd zero_usd ≡ false = le-false r.above_usd zero_usd h.0.positive in
    rw under (passed-zero rules h.1)

lookup-AreSpendRules :
    (agent : String) (agents : List (String × AgentRules))
    → AreWellFormed agents
    → AreSpendRules (rules_of agents agent).spend
lookup-AreSpendRules agent [] h = tt
lookup-AreSpendRules agent (a ∷ agents) h = elim (Bool-cases (str_eq a.0 agent)) [
  | inl same ↦
      let e : rules_of (a ∷ agents) agent ≡ a.1 = ground arith in
      subst (λ (r : AgentRules). AreSpendRules r.spend) (sym e) h.0.spend
  | inr other ↦
      let e : rules_of (a ∷ agents) agent ≡ rules_of agents agent = ground arith in
      subst (λ (r : AgentRules). AreSpendRules r.spend) (sym e)
        (lookup-AreSpendRules agent agents h.1)
]

tripped_of-zero :
    (spend : Option (Option Spend)) → AreSpendRules spend → tripped_of zero_usd spend ≡ none
unfolding highest_of
tripped_of-zero none h = refl
tripped_of-zero (some none) h = refl
tripped_of-zero (some (some s)) h = rw (passed-zero s.rules h) refl

module _ {V : Type 0} where
  unspent-tripped :
      (rules : Rules V) (agent : String)
      → AreWellFormed rules.agents
      → lookup agent rules.spend ≡ none
      → tripped rules agent ≡ none
  unfolding tripped
  unspent-tripped rules agent h e =
      let nothing : spent rules.spend agent ≡ zero_usd = ground arith in
      ap (λ usd. tripped_of usd (rules_of rules.agents agent).spend) nothing
      ∙ tripped_of-zero (rules_of rules.agents agent).spend
          (lookup-AreSpendRules agent rules.agents h)

module _ {V : Type 0} (decode : String → Option Value) (to_float : ℤ → Option Float)
    (since_text : Value → Option String) (decode_policy : String → Option (List (PolicyRule V)))
    (previous : Option (Rules V)) where
  accept_text-AreWellFormed :
      (v : Option Value)
      → AreWellFormed (previous_agents decode to_float since_text decode_policy previous)
      → AreWellFormed (accept_text decode to_float since_text decode_policy previous v)
  accept_text-AreWellFormed none h = h
  accept_text-AreWellFormed (some v) h = go (parse since_text v) refl
    where
      go :
          (p : Parsed (List (String × AgentRules)))
          → parse since_text v ≡ p
          → AreWellFormed (accept decode to_float since_text decode_policy previous p)
      go (ok agents) e = parse-All since_text v agents e
      go (fault f) e = h

  read_agents-AreWellFormed :
      (raw : Option String)
      → AreWellFormed (previous_agents decode to_float since_text decode_policy previous)
      → AreWellFormed (read_agents decode to_float since_text decode_policy raw previous)
  unfolding read_agents
  read_agents-AreWellFormed none h = tt
  read_agents-AreWellFormed (some raw) h = elim (Bool-cases (str_eq raw "")) [
    | inl empty ↦ rw empty tt
    | inr text ↦ rw text (accept_text-AreWellFormed (decode raw) h)
  ]

  with_spend-fields :
      (policy : List (PolicyRule V)) (agents : List (String × AgentRules)) (up : List String)
      (o : Option (List (String × Float))) (rules : Rules V)
      → with_spend decode to_float since_text decode_policy policy agents up o ≡ some rules
      → (agents ≡ rules.agents) × (o ≡ some rules.spend)
  with_spend-fields policy agents up none rules e = absurd (cc e)
  with_spend-fields policy agents up (some spend) rules e = (cc e, cc e)

  -- A snapshot that `load` returns has well-formed agent rules, if the previous one had. Its spend is
  -- the numbers of the stored document, each as a float, in the document's order and nothing else,
  -- and is empty where there is no text or no document. An agent that has no spend trips no rule.
  pub load-AreWellFormed :
      (policy config spend : Option String) (up : List String) (rules : Rules V)
      → AreWellFormed (previous_agents decode to_float since_text decode_policy previous)
      → load decode to_float since_text decode_policy policy config spend up previous ≡ some rules
      → AreWellFormed rules.agents
        × IsSpend decode to_float spend rules.spend
        × ((agent : String) → lookup agent rules.spend ≡ none → tripped rules agent ≡ none)
  unfolding load
  load-AreWellFormed policy config spend up rules h e =
      elim (Option-cases (read_policy decode to_float since_text decode_policy policy)) [
        | inl bad ↦ absurd (cc (rw (bad, load) at e))
        | inr (list, good) ↦
            let (same, read) =
              with_spend-fields list _ up (read_spend decode to_float spend) rules
                (rw (good, load) at e) in
            let well = subst AreWellFormed same (read_agents-AreWellFormed config h) in
            (
              well,
              read_spend-IsSpend decode to_float spend rules.spend read,
              λ agent k. unspent-tripped rules agent well k,
            )
      ]
