-- ===== src/Governance/Parse/WellFormed.antt =====
-- What an accepted governance document holds.
use canyonos.Prelude.{
  ℕ, suc, ◌≡◌, ◌≢◌, refl, subst, false, String, List, [], ◌∷◌, Option, none, some, str_eq, eq_iff,
  All, arith, Bool-cases, Option-cases, inl, inr,
}
use canyonos.Float.{Float, le}
use canyonos.Value.{Value, null, str, list, dict, get, get_or_null, to_list, entries}
use canyonos.Governance.{Action, switch_model, SpendRule, Spend, AgentRules}
use canyonos.Governance.Parse.{
  Parsed, ok, fault, bind, parse_model, parse_kind, parse_action, zero_usd, parse_threshold,
  parse_spend_rule, parse_spend_rules, names_of, parse_requires, parse_since, parse_rules,
  parse_spend, parse_agent, parse_agents, parse_document, parse,
}

-- The threshold is not at most 0, and the model of a switch has a name.
pub record IsSpendRule (r : SpendRule) : Type 0 where
  pub positive : le r.above_usd zero_usd ≡ false
  pub named : (m : String) → r.action ≡ switch_model m → m ≢ ""

abbrev pub AreSpendRules : Option (Option Spend) → Type 0
AreSpendRules none = Unit
AreSpendRules (some none) = Unit
AreSpendRules (some (some s)) = All IsSpendRule s.rules

abbrev pub AreNames : Option (List String) → Type 0
AreNames none = Unit
AreNames (some names) = All (λ name. name ≢ "") names

pub record IsAgentRules (a : AgentRules) : Type 0 where
  pub requires : AreNames a.requires
  pub spend : AreSpendRules a.spend

module _ {A B : Type 0} where
  bind-ok :
      (p : Parsed A) (f : A → Parsed B) (b : B)
      → bind p f ≡ ok b
      → (a : A) × (p ≡ ok a) × (f a ≡ ok b)
  bind-ok (ok a) f b e = (a, refl, e)
  bind-ok (fault x) f b e = absurd (cc e)

non_empty : (s : String) → str_eq s "" ≡ false → s ≢ ""
non_empty s e h = cc (e, (eq_iff s "").1 h)

parse_action-named :
    (agent : String) (i : ℕ) (v : Value) (a : Action)
    → parse_action agent i v ≡ ok a
    → (m : String) → a ≡ switch_model m
    → m ≢ ""
unfolding parse_action parse_kind parse_model
parse_action-named agent i v a e m h = let f : str_eq m "" ≡ false = ground arith in non_empty m f

parse_threshold-positive :
    (agent : String) (i : ℕ) (v : Value) (x : Float)
    → parse_threshold agent i v ≡ ok x
    → le x zero_usd ≡ false
unfolding parse_threshold
parse_threshold-positive agent i v x e = ground arith

parse_spend_rule-IsSpendRule :
    (agent : String) (i : ℕ) (v : Value) (r : SpendRule)
    → parse_spend_rule agent i v ≡ ok r
    → IsSpendRule r
unfolding parse_spend_rule
parse_spend_rule-IsSpendRule agent i (dict fs) r e =
    let (x, ex, rest) = bind-ok (parse_threshold agent i (get_or_null "above_usd" fs)) _ r e in
    let (a, ea, last) = bind-ok (parse_action agent i (get_or_null "action" fs)) _ r rest in
    let same : record { above_usd = x; action = a } ≡ r = cc last in
    subst IsSpendRule same (record {
      positive = parse_threshold-positive agent i _ x ex;
      named = parse_action-named agent i _ a ea;
    })
parse_spend_rule-IsSpendRule agent i v r e = absurd (cc e)

parse_spend_rules-All :
    (agent : String) (i : ℕ) (vs : List Value) (rs : List SpendRule)
    → parse_spend_rules agent i vs ≡ ok rs
    → All IsSpendRule rs
unfolding parse_spend_rules
parse_spend_rules-All agent i [] rs e = let same : [] ≡ rs = cc e in subst (All IsSpendRule) same tt
parse_spend_rules-All agent i (v ∷ vs) rs e =
    let (r, er, rest) = bind-ok (parse_spend_rule agent i v) _ rs e in
    let (qs, eqs, last) = bind-ok (parse_spend_rules agent (suc i) vs) _ rs rest in
    let same : (r ∷ qs) ≡ rs = cc last in
    subst (All IsSpendRule) same
      (parse_spend_rule-IsSpendRule agent i v r er, parse_spend_rules-All agent (suc i) vs qs eqs)

names_of-All :
    (vs : List Value) (names : List String)
    → names_of vs ≡ some names
    → All (λ name. name ≢ "") names
unfolding names_of
names_of-All [] names e = let same : [] ≡ names = cc e in subst (All (λ name. name ≢ "")) same tt
names_of-All (str s ∷ vs) names e = elim (Bool-cases (str_eq s "")) [
  | inl empty ↦ absurd (cc (rw empty at e))
  | inr filled ↦ elim (Option-cases (names_of vs)) [
    | inl bad ↦ absurd (cc (rw (filled, bad) at e))
    | inr (rest, k) ↦
        let same : (s ∷ rest) ≡ names = cc (rw (filled, k) at e) in
        subst (All (λ name. name ≢ "")) same (non_empty s filled, names_of-All vs rest k)
  ]
]
names_of-All (_ ∷ vs) names e = absurd (cc e)

parse_requires-AreNames :
    (agent : String) (v : Option Value) (r : Option (List String))
    → parse_requires agent v ≡ ok r
    → AreNames r
unfolding parse_requires
parse_requires-AreNames agent none r e = let same : none ≡ r = cc e in subst AreNames same tt
parse_requires-AreNames agent (some (list items)) r e =
    elim (Option-cases (names_of (to_list items))) [
      | inl bad ↦ absurd (cc (rw (bad, parse_requires) at e))
      | inr (names, k) ↦
          let same : some names ≡ r = cc (rw (k, parse_requires) at e) in
          subst AreNames same (names_of-All (to_list items) names k)
    ]
parse_requires-AreNames agent (some _) r e = absurd (cc e)

-- The entries of the `agents:` mapping; none when it is missing or null.
abbrev pub written_in : Value → List (String × Value)
written_in (dict agents) = entries agents
written_in _ = []

abbrev pub written : Value → List (String × Value)
written (dict config) = written_in (get_or_null "agents" config)
written _ = []

module _ (since_text : Value → Option String) where
  parse_spend-AreSpendRules :
      (agent : String) (v : Option Value) (r : Option (Option Spend))
      → parse_spend since_text agent v ≡ ok r
      → AreSpendRules r
  unfolding parse_spend parse_rules
  parse_spend-AreSpendRules agent none r e =
      let same : none ≡ r = cc e in subst AreSpendRules same tt
  parse_spend-AreSpendRules agent (some null) r e =
      let same : some none ≡ r = cc e in subst AreSpendRules same tt
  parse_spend-AreSpendRules agent (some (dict s)) r e =
      let (spend, es, last) =
        bind-ok (parse_rules since_text agent (get_or_null "rules" s) (get_or_null "since" s)) _ r
          e in
      let same : some (some spend) ≡ r = cc last in
      subst AreSpendRules same
        (parse_rules-All (get_or_null "rules" s) (get_or_null "since" s) spend es)
    where
      parse_rules-All :
          (v since : Value) (spend : Spend)
          → parse_rules since_text agent v since ≡ ok spend
          → All IsSpendRule spend.rules
      parse_rules-All (list items) since spend h =
          let (rules, er, rest) = bind-ok (parse_spend_rules agent 0 (to_list items)) _ spend h in
          let (t, et, last) = bind-ok (parse_since since_text agent since) _ spend rest in
          let same : rules ≡ spend.rules = ground (arith, last) in
          subst (All IsSpendRule) same (parse_spend_rules-All agent 0 (to_list items) rules er)
      parse_rules-All v since spend h = absurd (cc h)
  parse_spend-AreSpendRules agent (some _) r e = absurd (cc e)

  parse_agent-IsAgentRules :
      (agent : String) (v : Value) (a : AgentRules)
      → parse_agent since_text agent v ≡ ok a
      → IsAgentRules a
  unfolding parse_agent
  parse_agent-IsAgentRules agent (dict fs) a e =
      let (requires, er, rest) = bind-ok (parse_requires agent (get "requires" fs)) _ a e in
      let (spend, es, last) = bind-ok (parse_spend since_text agent (get "spend" fs)) _ a rest in
      let same : record { requires = requires; spend = spend } ≡ a = cc last in
      subst IsAgentRules same (record {
        requires = parse_requires-AreNames agent _ requires er;
        spend = parse_spend-AreSpendRules agent _ spend es;
      })
  parse_agent-IsAgentRules agent v a e = absurd (cc e)

  -- Each entry of the document, in order, has become the well-formed rules of the agent it names.
  abbrev pub Accepted : List (String × Value) → List (String × AgentRules) → Type 0
  Accepted [] [] = Unit
  Accepted (e ∷ es) (a ∷ agents) =
      (e.0 ≡ a.0)
      × (parse_agent since_text e.0 e.1 ≡ ok a.1)
      × IsAgentRules a.1
      × Accepted es agents
  Accepted _ _ = ⊥

  parse_agents-Accepted :
      (es : List (String × Value)) (agents : List (String × AgentRules))
      → parse_agents since_text es ≡ ok agents
      → Accepted es agents
  unfolding parse_agents
  parse_agents-Accepted [] agents e = let same : [] ≡ agents = cc e in subst (Accepted []) same tt
  parse_agents-Accepted (f ∷ es) agents e =
      let (a, ea, rest) = bind-ok (parse_agent since_text f.0 f.1) _ agents e in
      let (others, eo, last) = bind-ok (parse_agents since_text es) _ agents rest in
      let same : ((f.0, a) ∷ others) ≡ agents = cc last in
      subst (Accepted (f ∷ es)) same
        (refl, ea, parse_agent-IsAgentRules f.0 f.1 a ea, parse_agents-Accepted es others eo)

  parse_document-Accepted :
      (v : Value) (agents : List (String × AgentRules))
      → parse_document since_text v ≡ ok agents
      → Accepted (written_in v) agents
  unfolding parse_document
  parse_document-Accepted null agents e =
      let same : [] ≡ agents = cc e in subst (Accepted []) same tt
  parse_document-Accepted (dict fs) agents e = parse_agents-Accepted (entries fs) agents e
  parse_document-Accepted v agents e = absurd (cc e)

  -- An accepted governance document gives rules for the agents that it names, in its order and for
  -- no others. No threshold in them is at most 0, every model to switch to has a name, and so has
  -- every required agent.
  pub parse-Accepted :
      (config : Value) (agents : List (String × AgentRules))
      → parse since_text config ≡ ok agents
      → Accepted (written config) agents
  unfolding parse
  parse-Accepted (dict config) agents e =
      parse_document-Accepted (get_or_null "agents" config) agents e
  parse-Accepted v agents e = absurd (cc e)

  Accepted-All :
      (es : List (String × Value)) (agents : List (String × AgentRules))
      → Accepted es agents
      → All (λ a. IsAgentRules a.1) agents
  Accepted-All [] [] h = tt
  Accepted-All (e ∷ es) (a ∷ agents) (name, parsed, well, rest) =
      (well, Accepted-All es agents rest)
  Accepted-All [] (a ∷ agents) h = absurd h
  Accepted-All (e ∷ es) [] h = absurd h

  pub parse-All :
      (config : Value) (agents : List (String × AgentRules))
      → parse since_text config ≡ ok agents
      → All (λ a. IsAgentRules a.1) agents
  parse-All config agents e = Accepted-All (written config) agents (parse-Accepted config agents e)
