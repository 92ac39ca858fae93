-- ===== src/Governance/Parse.antt =====
-- `parse`, `_agent_rules` and `_spend_rule` of governance.py: what a governance document must be.
pub mod WellFormed
use canyonos.Prelude.{
  ℕ, suc, ◌≡◌, ◌≢◌, refl, Bool, true, false, String, List, [], ◌∷◌, Option, none, some, str_eq,
  if◌then◌else◌, All, map,
}
use canyonos.Prelude.Int.{pos}
use canyonos.Float.{Float, finite, le}
use canyonos.Value.{
  Value, null, str, list, dict, Fields, get, get_or_null, number, to_list, entries,
}
use canyonos.Governance.{Action, deny, switch_model, SpendRule, Spend, AgentRules}

-- Why a document is refused, with the agent and the index that the message's path names.
pub data Fault : Type 0 where
  config_not_a_mapping : Fault
  agents_not_a_mapping : Fault
  rules_not_a_mapping : String → Fault
  bad_requires : String → Fault
  spend_not_a_mapping : String → Fault
  spend_rules_not_a_list : String → Fault
  bad_since : String → Fault
  rule_not_a_mapping : String → ℕ → Fault
  bad_threshold : String → ℕ → Fault
  bad_kind : String → ℕ → Fault
  bad_model : String → ℕ → Fault

pub data Parsed (A : Type 0) : Type 0 where
  ok : A → Parsed A
  fault : Fault → Parsed A

module _ {A B : Type 0} where
  abbrev pub bind : Parsed A → (A → Parsed B) → Parsed B
  bind (ok a) f = f a
  bind (fault e) f = fault e

unfoldable pub parse_model : String → ℕ → Value → Parsed Action
parse_model agent i (str m) = if str_eq m "" then fault (bad_model agent i) else ok (switch_model m)
parse_model agent i _ = fault (bad_model agent i)

unfoldable pub parse_kind : String → ℕ → Value → Value → Parsed Action
parse_kind agent i (str kind) model =
    if str_eq kind "deny"
    then ok deny
    else if str_eq kind "switch_model"
    then parse_model agent i model
    else fault (bad_kind agent i)
parse_kind agent i _ model = fault (bad_kind agent i)

unfoldable pub parse_action : String → ℕ → Value → Parsed Action
parse_action agent i (dict a) = parse_kind agent i (get_or_null "kind" a) (get_or_null "model" a)
parse_action agent i _ = fault (bad_kind agent i)

abbrev pub zero_usd : Float
zero_usd = finite (pos 0) 0

unfoldable pub parse_threshold : String → ℕ → Value → Parsed Float
parse_threshold agent i v = elim (number v) [
  | none ↦ fault (bad_threshold agent i)
  | some usd ↦ if le usd zero_usd then fault (bad_threshold agent i) else ok usd
]

-- `_spend_rule`
unfoldable pub parse_spend_rule : String → ℕ → Value → Parsed SpendRule
parse_spend_rule agent i (dict r) =
    bind (parse_threshold agent i (get_or_null "above_usd" r)) (λ usd.
      bind (parse_action agent i (get_or_null "action" r))
        (λ a. ok (record { above_usd = usd; action = a })))
parse_spend_rule agent i _ = fault (rule_not_a_mapping agent i)

unfoldable pub parse_spend_rules : String → ℕ → List Value → Parsed (List SpendRule)
parse_spend_rules agent i [] = ok []
parse_spend_rules agent i (v ∷ vs) =
    let rest = parse_spend_rules agent (suc i) vs in
    bind (parse_spend_rule agent i v) (λ r. bind rest (λ rs. ok (r ∷ rs)))

-- The names of a list of non-empty texts.
unfoldable pub names_of : List Value → Option (List String)
names_of [] = some []
names_of (str s ∷ vs) =
    let rest = names_of vs in
    if str_eq s "" then none else elim rest [ none ↦ none | some names ↦ some (s ∷ names) ]
names_of (_ ∷ vs) = none

unfoldable pub parse_requires : String → Option Value → Parsed (Option (List String))
parse_requires agent none = ok none
parse_requires agent (some (list items)) = elim (names_of (to_list items)) [
  | none ↦ fault (bad_requires agent)
  | some names ↦ ok (some names)
]
parse_requires agent (some _) = fault (bad_requires agent)

-- `since_text` is `_since`, which reads and prints date-times; `none` is its ValueError.
module _ (since_text : Value → Option String) where
  unfoldable pub parse_since : String → Value → Parsed (Option String)
  parse_since agent null = ok none
  parse_since agent v = elim (since_text v) [
    | none ↦ fault (bad_since agent)
    | some t ↦ ok (some t)
  ]

  unfoldable pub parse_rules : String → Value → Value → Parsed Spend
  parse_rules agent (list items) since =
      bind (parse_spend_rules agent 0 (to_list items))
        (λ rules. bind (parse_since agent since) (λ t. ok (record { rules = rules; since = t })))
  parse_rules agent _ since = fault (spend_rules_not_a_list agent)

  unfoldable pub parse_spend : String → Option Value → Parsed (Option (Option Spend))
  parse_spend agent none = ok none
  parse_spend agent (some null) = ok (some none)
  parse_spend agent (some (dict s)) =
      bind (parse_rules agent (get_or_null "rules" s) (get_or_null "since" s))
        (λ spend. ok (some (some spend)))
  parse_spend agent (some _) = fault (spend_not_a_mapping agent)

  -- `_agent_rules`
  unfoldable pub parse_agent : String → Value → Parsed AgentRules
  parse_agent agent (dict fs) = bind (parse_requires agent (get "requires" fs)) (λ requires.
      bind (parse_spend agent (get "spend" fs))
        (λ spend. ok (record { requires = requires; spend = spend })))
  parse_agent agent _ = fault (rules_not_a_mapping agent)

  unfoldable pub parse_agents : List (String × Value) → Parsed (List (String × AgentRules))
  parse_agents [] = ok []
  parse_agents (e ∷ es) =
      let rest = parse_agents es in
      bind (parse_agent e.0 e.1) (λ rules. bind rest (λ agents. ok ((e.0, rules) ∷ agents)))

  unfoldable pub parse_document : Value → Parsed (List (String × AgentRules))
  parse_document null = ok []
  parse_document (dict agents) = parse_agents (entries agents)
  parse_document _ = fault agents_not_a_mapping

  -- `parse`
  unfoldable pub parse : Value → Parsed (List (String × AgentRules))
  parse (dict config) = parse_document (get_or_null "agents" config)
  parse _ = fault config_not_a_mapping
