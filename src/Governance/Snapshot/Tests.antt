-- ===== src/Governance/Snapshot/Tests.antt =====
-- Governance documents and snapshots at concrete inputs.
use canyonos.Prelude.{
  ℕ, leb, ◌+◌, ◌^◌, ◌≡◌, refl, String, List, [], ◌∷◌, Option, none, some, str_eq, lookup,
  if◌then◌else◌,
}
use canyonos.Prelude.Int.{ℤ, pos, pos_part, neg_part}
use canyonos.Float.{Float, finite, le, lt}
use canyonos.Value.{Value, int, str, list, dict, nil, cons, end, field}
use canyonos.Governance.{deny, switch_model, AgentRules, PolicyRule, Rules, tripped}
use canyonos.Governance.Parse.{
  ok, fault, bad_threshold, parse, parse_document, parse_agents, parse_agent, parse_requires,
  names_of, parse_spend, parse_rules, parse_spend_rules, parse_spend_rule, parse_threshold,
  parse_action, parse_kind, parse_model, parse_since,
}
use canyonos.Governance.Parse.WellFormed.{Accepted, written, parse-Accepted}
use canyonos.Governance.Snapshot.{
  start_spend, seed_agents, seed, load, read_policy, read_agents, read_spend, numbers_of, usd_of,
}
use canyonos.Governance.Snapshot.Seeding.{IsSeeded, seed-IsSeeded}
use canyonos.Governance.Snapshot.Amounts.{IsSpend}
use canyonos.Governance.Snapshot.Previous.{AreWellFormed, load-AreWellFormed}

abbrev since_text : Value → Option String
since_text (str t) = some t
since_text _ = none

abbrev action : String → Value
action kind = dict (field "kind" (str kind) (field "model" (str "small") end))

abbrev rule : ℕ → String → Value
rule usd kind = dict (field "above_usd" (int (pos usd)) (field "action" (action kind) end))

abbrev document : ℕ → Value
document usd = dict (
    field "agents"
      (dict (
        field "chat"
          (dict (
            field "requires" (list (cons (str "search") nil)) (
              field "spend"
                (dict (
                  field "rules" (list (cons (rule usd "deny") (cons (rule 9 "switch_model") nil)))
                    end))
                end)))
          (field "search" (dict end) end)))
      end)

abbrev chat : Option String → AgentRules
chat since = record {
  requires = some ("search" ∷ []);
  spend = some (
      some (record {
        rules =
            record { above_usd = finite (pos 20) 0; action = deny }
            ∷ record { above_usd = finite (pos 9) 0; action = switch_model "small" }
            ∷ [];
        since = since;
      }));
}

abbrev agents : List (String × AgentRules)
agents = ("chat", chat none) ∷ ("search", record { requires = none; spend = none }) ∷ []

accepted : parse since_text (document 20) ≡ ok agents
unfolding parse parse_document parse_agents parse_agent parse_requires names_of parse_spend
    parse_rules parse_spend_rules parse_spend_rule parse_threshold parse_action parse_kind
    parse_model parse_since le lt
accepted = refl

refused : parse since_text (document 0) ≡ fault (bad_threshold "chat" 0)
unfolding parse parse_document parse_agents parse_agent parse_requires names_of parse_spend
    parse_rules parse_spend_rules parse_spend_rule parse_threshold parse_action parse_kind
    parse_model parse_since le lt
refused = refl

parse-Accepted_example : Accepted since_text (written (document 20)) agents
parse-Accepted_example = parse-Accepted since_text (document 20) agents accepted

abbrev stored : List (String × AgentRules)
stored = ("search", chat (some "2026-01-01T00:00:00.000Z")) ∷ []

seeded :
    seed "2026-02-02T00:00:00.000Z" (some stored) agents
    ≡ ("search", chat (some "2026-01-01T00:00:00.000Z"))
      ∷ ("chat", chat (some "2026-02-02T00:00:00.000Z"))
      ∷ []
unfolding seed seed_agents start_spend
seeded = refl

seed-IsSeeded_example :
    IsSeeded "2026-02-02T00:00:00.000Z" none
      (some (chat none))
      (lookup "chat" (seed "2026-02-02T00:00:00.000Z" (some stored) agents))
seed-IsSeeded_example = seed-IsSeeded "2026-02-02T00:00:00.000Z" "chat" stored agents

abbrev spending : ℕ → Value
spending usd = dict (field "search" (int (pos usd)) (field "chat" (str "none") end))

abbrev decode : String → Option Value
decode raw =
    if str_eq raw "{config}"
    then some (document 20)
    else if str_eq raw "{spend}"
    then some (spending 7)
    else if str_eq raw "{huge}"
    then some (spending (10 ^ 400))
    else none

-- The integers that are exact as floats.
abbrev to_float : ℤ → Option Float
to_float z = if leb (pos_part z + neg_part z) (2 ^ 53) then some (finite z 0) else none

abbrev decode_policy : String → Option (List (PolicyRule String))
decode_policy raw = none

abbrev snapshot : Rules String
snapshot = record {
  policy = [];
  agents = agents;
  spend = ("search", finite (pos 7) 0) ∷ [];
  up = "search" ∷ [];
}

loaded :
    load decode to_float since_text decode_policy none
      (some "{config}")
      (some "{spend}")
      ("search" ∷ [])
      none
    ≡ some snapshot
unfolding load read_policy read_agents read_spend numbers_of usd_of parse parse_document
    parse_agents parse_agent parse_requires names_of parse_spend parse_rules parse_spend_rules
    parse_spend_rule parse_threshold parse_action parse_kind parse_model parse_since le lt
loaded = refl

load-AreWellFormed_example :
    AreWellFormed snapshot.agents
    × IsSpend decode to_float (some "{spend}") snapshot.spend
    × ((agent : String) → lookup agent snapshot.spend ≡ none → tripped snapshot agent ≡ none)
load-AreWellFormed_example =
    load-AreWellFormed decode to_float since_text decode_policy none none (some "{config}")
      (some "{spend}") ("search" ∷ []) snapshot tt loaded

too_much : read_spend decode to_float (some "{huge}") ≡ none
unfolding read_spend numbers_of usd_of
too_much = refl
