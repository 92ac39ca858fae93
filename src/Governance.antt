-- ===== src/Governance.antt =====
-- The governance decisions of packages/core/canyonos_core/controller/governance.py.
mod Policy
mod Spending
pub mod Refusals
mod Parse
mod Snapshot
mod Tests
use canyonos.Prelude.{
  ℕ, ◌==◌, Bool, true, false, not, ◌&&◌, ◌||◌, String, List, [], ◌∷◌, Option, none, some, str_eq,
  if◌then◌else◌, leb, length, all, keep, lookup, contains,
}
use Prim.Native.Char.{code}
use canyonos.Prelude.Sorting.{sort_by}
use canyonos.Prelude.Int.{pos}
use canyonos.Float.{Float, finite, lt}

abbrev pub endpoint_agent_name : String
endpoint_agent_name = "endpoint"

-- What a spend rule does once it has tripped.
pub data Action : Type 0 where
  deny : Action
  switch_model : String → Action

pub record SpendRule : Type 0 where
  pub above_usd : Float
  pub action : Action

pub record Spend : Type 0 where
  pub rules : List SpendRule
  pub since : Option String

-- One agent's entry as `parse` leaves it. A missing `requires` is `none`; `spend` is `none` when it
-- is missing and `some none` when it is written as null.
pub record AgentRules : Type 0 where
  pub requires : Option (List String)
  pub spend : Option (Option Spend)

-- `rule["access"]`: the word `all`, a list of agent names, or another text.
pub data Access : Type 0 where
  all_agents : Access
  listed : List String → Access
  other_text : String → Access

-- A rule of policy.yaml; `V` is the type of the values that a request's context holds.
pub record PolicyRule (V : Type 0) : Type 0 where
  pub matched : List (String × V)
  pub access : Access

-- The snapshot that every decision reads.
pub record Rules (V : Type 0) : Type 0 where
  pub policy : List (PolicyRule V)
  pub agents : List (String × AgentRules)
  pub spend : List (String × Float)
  pub up : List String

-- `Refusal`, with what its message shows: the dependency, or the cap, the spend and its start.
pub data Refusal : Type 0 where
  policy_denied : Refusal
  dependency_down : String → Refusal
  spend_limit : Float → Float → Option String → Refusal

abbrev pub starts_with : String → String → Bool
starts_with String.[] s = true
starts_with (String.◌∷◌ c p) String.[] = false
starts_with (String.◌∷◌ c p) (String.◌∷◌ d s) = code c == code d && starts_with p s

-- `part in text` on two texts.
abbrev pub has_part : String → String → Bool
has_part part String.[] = starts_with part String.[]
has_part part (String.◌∷◌ c s) = starts_with part (String.◌∷◌ c s) || has_part part s

unfoldable pub grants : Access → String → Bool
grants all_agents agent = true
grants (listed names) agent = contains names agent
grants (other_text s) agent = has_part agent s

module _ {V : Type 0} where
  abbrev pub is_empty : List (PolicyRule V) → Bool
  is_empty [] = true
  is_empty (_ ∷ _) = false

-- `same found value` is Python's `context.get(key) == value`, `none` standing for `None`.
module _ {V : Type 0} (same : Option V → V → Bool) where
  unfoldable pub meets : List (String × V) → List (String × V) → Bool
  meets context matched = all (λ e. same (lookup e.0 context) e.1) matched

  unfoldable pub first_match : List (PolicyRule V) → String → List (String × V) → Bool
  first_match [] agent context = false
  first_match (rule ∷ rules) agent context =
      let rest = first_match rules agent context in
      if meets context rule.matched then grants rule.access agent else rest

  -- `_policy_allows`
  unfoldable pub policy_allows : List (PolicyRule V) → String → List (String × V) → Bool
  policy_allows policy agent context =
      if str_eq agent endpoint_agent_name || is_empty policy
      then true
      else first_match policy agent context

-- `rules.sort(key=lambda r: len(r.get("match", {})), reverse=True)`, a stable sort.
module _ {V : Type 0} where
  abbrev pub as_specific : PolicyRule V → PolicyRule V → Bool
  as_specific r s = leb (length s.matched) (length r.matched)

  unfoldable pub sort_rules : List (PolicyRule V) → List (PolicyRule V)
  sort_rules = sort_by as_specific

-- `rules.agents.get(agent, {})`
abbrev pub rules_of : List (String × AgentRules) → String → AgentRules
rules_of agents agent = elim (lookup agent agents) [
  | none ↦ record { requires = none; spend = none }
  | some r ↦ r
]

-- `max(passed, key=above_usd)`, the first of equals.
unfoldable pub highest : SpendRule → List SpendRule → SpendRule
highest best [] = best
highest best (r ∷ rs) = highest (if lt best.above_usd r.above_usd then r else best) rs

unfoldable pub highest_of : List SpendRule → Option SpendRule
highest_of [] = none
highest_of (r ∷ rs) = some (highest r rs)

abbrev pub passed : Float → List SpendRule → List SpendRule
passed usd = keep (λ r. lt r.above_usd usd)

abbrev pub spent : List (String × Float) → String → Float
spent spend agent = elim (lookup agent spend) [ none ↦ finite (pos 0) 0 | some usd ↦ usd ]

abbrev tripped_of : Float → Option (Option Spend) → Option SpendRule
tripped_of usd (some (some spend)) = highest_of (passed usd spend.rules)
tripped_of usd _ = none

module _ {V : Type 0} where
  -- `_tripped`
  unfoldable pub tripped : Rules V → String → Option SpendRule
  tripped rules agent = tripped_of (spent rules.spend agent) (rules_of rules.agents agent).spend

  -- `model_for`
  unfoldable pub model_for : Rules V → String → Option String
  model_for rules agent = elim (tripped rules agent) [
    | none ↦ none
    | some r ↦ elim r.action [ deny ↦ none | switch_model m ↦ some m ]
  ]

abbrev pub since_of : Option (Option Spend) → Option String
since_of (some (some spend)) = spend.since
since_of _ = none

-- The first of the dependencies that is not up.
unfoldable pub first_down : List String → List String → Option String
first_down up [] = none
first_down up (d ∷ ds) = let rest = first_down up ds in if contains up d then rest else some d

abbrev pub dependencies : Option (List String) → List String
dependencies none = []
dependencies (some names) = names

unfoldable pub spend_refusal : Float → Option String → Option SpendRule → Option Refusal
spend_refusal usd since none = none
spend_refusal usd since (some r) = elim r.action [
  | deny ↦ some (spend_limit r.above_usd usd since)
  | switch_model _ ↦ none
]

module _ {V : Type 0} (same : Option V → V → Bool) where
  -- `refuse_call`; the function's name only stands in the message.
  unfoldable pub refuse_call : Rules V → String → List (String × V) → Option Refusal
  refuse_call rules agent context =
      if not (policy_allows same rules.policy agent context)
      then some policy_denied
      else elim (first_down rules.up (dependencies (rules_of rules.agents agent).requires)) [
        | some d ↦ some (dependency_down d)
        | none ↦
            spend_refusal (spent rules.spend agent) (since_of (rules_of rules.agents agent).spend)
              (tripped rules agent)
      ]
