-- ===== src/Governance/Snapshot.antt =====
-- `seed`, `_spend`, `_agents` and `load` of governance.py: the stored governance document and the
-- snapshot that a controller reads. The JSON decoder and the reader of policy rules are parameters.
mod Amounts
mod Previous
mod Seeding
mod Tests
use canyonos.Prelude.{
  Bool, true, false, String, List, [], ◌∷◌, ◌++◌, Option, none, some, str_eq, if◌then◌else◌, lookup,
}
use canyonos.Float.{Float}
use canyonos.Prelude.Int.{ℤ}
use canyonos.Value.{Value, int, float, dict, entries}
use canyonos.Governance.{AgentRules, Spend, PolicyRule, Rules}
use canyonos.Governance.Parse.{Parsed, ok, fault, parse}

-- `{**rules["spend"], "since": now}` where there is a spend that has none.
unfoldable pub start_spend : String → AgentRules → AgentRules
start_spend now r = elim r.spend [
  | none ↦ r
  | some none ↦ r
  | some (some s) ↦ elim s.since [
    | some t ↦ r
    | none ↦ record {
      requires = r.requires;
      spend = some (some (record { rules = s.rules; since = some now }));
    }
  ]
]

-- The loop of `seed`: an agent that has rules keeps them, another is appended.
unfoldable pub seed_agents :
    String → List (String × AgentRules) → List (String × AgentRules) → List (String × AgentRules)
seed_agents now agents [] = agents
seed_agents now agents (e ∷ es) = elim (lookup e.0 agents) [
  | some r ↦ seed_agents now agents es
  | none ↦ seed_agents now (agents ++ ((e.0, start_spend now e.1) ∷ [])) es
]

-- `seed`, on the agents of the stored document, if there is one, and those of the file.
unfoldable pub seed :
    String
    → Option (List (String × AgentRules))
    → List (String × AgentRules)
    → List (String × AgentRules)
seed now none es = seed_agents now [] es
seed now (some agents) es = seed_agents now agents es

-- What is read of an agent's spend: it is skipped, it is a number, or `float` raises OverflowError.
pub data Usd : Type 0 where
  skipped : Usd
  usd : Float → Usd
  too_large : Usd

-- `float` of an integer is a parameter: the nearest float, or nothing where it raises.
module _ (to_float : ℤ → Option Float) where
  unfoldable pub usd_of : Value → Usd
  usd_of (int z) = elim (to_float z) [ none ↦ too_large | some x ↦ usd x ]
  usd_of (float x) = usd x
  usd_of _ = skipped

  abbrev pub add_usd :
      String → Usd → Option (List (String × Float)) → Option (List (String × Float))
  add_usd name skipped rest = rest
  add_usd name too_large rest = none
  add_usd name (usd x) none = none
  add_usd name (usd x) (some rest) = some ((name, x) ∷ rest)

  unfoldable pub numbers_of : List (String × Value) → Option (List (String × Float))
  unfolding usd_of
  numbers_of [] = some []
  numbers_of (e ∷ es) = add_usd e.0 (usd_of e.1) (numbers_of es)

module _ (decode : String → Option Value) (to_float : ℤ → Option Float) where
  abbrev pub spend_of : Option Value → Option (List (String × Float))
  spend_of (some (dict es)) = numbers_of to_float (entries es)
  spend_of _ = some []

  -- `_spend`; nothing where it raises.
  unfoldable pub read_spend : Option String → Option (List (String × Float))
  read_spend none = some []
  read_spend (some raw) = if str_eq raw "" then some [] else spend_of (decode raw)

  module _ {V : Type 0} (since_text : Value → Option String)
      (decode_policy : String → Option (List (PolicyRule V))) where
    abbrev pub previous_agents : Option (Rules V) → List (String × AgentRules)
    previous_agents none = []
    previous_agents (some rules) = rules.agents

    abbrev pub accept :
        Option (Rules V) → Parsed (List (String × AgentRules)) → List (String × AgentRules)
    accept previous (ok agents) = agents
    accept previous (fault e) = previous_agents previous

    abbrev pub accept_text : Option (Rules V) → Option Value → List (String × AgentRules)
    accept_text previous none = previous_agents previous
    accept_text previous (some v) = accept previous (parse since_text v)

    -- `_agents`
    unfoldable pub read_agents : Option String → Option (Rules V) → List (String × AgentRules)
    read_agents none previous = []
    read_agents (some raw) previous =
        if str_eq raw "" then [] else accept_text previous (decode raw)

    unfoldable pub read_policy : Option String → Option (List (PolicyRule V))
    read_policy none = some []
    read_policy (some raw) = if str_eq raw "" then some [] else decode_policy raw

    abbrev pub with_spend :
        List (PolicyRule V)
        → List (String × AgentRules)
        → List String
        → Option (List (String × Float))
        → Option (Rules V)
    with_spend policy agents up none = none
    with_spend policy agents up (some spend) =
        some (record { policy = policy; agents = agents; spend = spend; up = up })

    -- `load`, on the answers of Redis to its four reads; `none` is the ValueError of unreadable
    -- policy rules, or the OverflowError of a spend.
    unfoldable pub load :
        Option String
        → Option String
        → Option String
        → List String
        → Option (Rules V)
        → Option (Rules V)
    load policy config spend up previous = elim (read_policy policy) [
      | none ↦ none
      | some rules ↦ with_spend rules (read_agents config previous) up (read_spend spend)
    ]
