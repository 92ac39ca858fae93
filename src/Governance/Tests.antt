-- ===== src/Governance/Tests.antt =====
-- Runs of the governance decisions, and the theorems about them at concrete inputs.
use canyonos.Prelude.{
  true, eq_iff, ℕ, ◌≡◌, ◌≢◌, ◌↔◌, ◌⊎◌, Bool, false, String, List, [], ◌∷◌, Option, none, some, refl,
  str_eq,
}
use canyonos.Prelude.Int.{pos}
use canyonos.Float.{Float, finite, lt}
use canyonos.Prelude.Sorting.{sort_by, insert_by}
use canyonos.Governance.{
  deny, switch_model, SpendRule, Spend, listed, all_agents, other_text, PolicyRule, Rules,
  spend_limit, dependency_down, tripped, highest_of, highest, policy_allows, first_match, meets,
  grants, sort_rules, refuse_call, model_for, first_down, spend_refusal, spent,
}
use canyonos.Governance.Spending.{IsHighest, NonePassed, tripped_cases}
use canyonos.Governance.Policy.{Verdict, policy_allows-Verdict}
use canyonos.Governance.Refusals.{IsAdmitted, refuse_call-none, model_for-refuse_call}

abbrev same : Option String → String → Bool
same none value = false
same (some found) value = str_eq found value

abbrev usd : ℕ → Float
usd n = finite (pos n) 0

abbrev spending : Spend
spending = record {
  rules =
      record { above_usd = usd 10; action = deny }
      ∷ record { above_usd = usd 25; action = switch_model "small" }
      ∷ record { above_usd = usd 90; action = deny }
      ∷ [];
  since = some "2026-10-20T00:00:00.000Z";
}

abbrev open_rule : PolicyRule String
open_rule = record { matched = []; access = listed ("chat" ∷ []) }

abbrev team_rule : PolicyRule String
team_rule = record { matched = ("team", "red") ∷ []; access = all_agents }

abbrev snapshot : Rules String
snapshot = record {
  policy = team_rule ∷ open_rule ∷ [];
  agents = ("chat", record { requires = some ("search" ∷ []); spend = some (some spending) }) ∷ [];
  spend = ("chat", usd 30) ∷ [];
  up = "chat" ∷ "search" ∷ [];
}

abbrev context : List (String × String)
context = ("user", "ann") ∷ ("team", "red") ∷ []

switched : model_for snapshot "chat" ≡ some "small"
unfolding model_for tripped highest_of highest lt
switched = refl

sorted : sort_rules (open_rule ∷ team_rule ∷ []) ≡ snapshot.policy
unfolding sort_rules sort_by insert_by
sorted = refl

let_through : refuse_call same snapshot "chat" context ≡ none
unfolding refuse_call policy_allows first_match meets grants first_down tripped highest_of highest
    lt spend_refusal
let_through = refl

down :
    refuse_call same
      (record { policy = []; agents = snapshot.agents; spend = []; up = [] })
      "chat"
      []
    ≡ some (dependency_down "search")
unfolding refuse_call policy_allows first_down
down = refl

tripped_cases_example :
    (tripped snapshot "chat" ≡ none) × NonePassed (spent snapshot.spend "chat") spending.rules
    ⊎ ((r : SpendRule) × (tripped snapshot "chat" ≡ some r)
        × IsHighest (spent snapshot.spend "chat") spending.rules r)
tripped_cases_example = tripped_cases snapshot "chat" spending refl

not_endpoint : ◌≢◌ {A = String} "chat" "endpoint"
not_endpoint e = let h : false ≡ true = (eq_iff "chat" "endpoint").1 e in absurd (cc h)

policy_allows-Verdict_example :
    Verdict same "chat" context
      (open_rule ∷ team_rule ∷ [])
      (policy_allows same (sort_rules (open_rule ∷ team_rule ∷ [])) "chat" context)
policy_allows-Verdict_example =
    policy_allows-Verdict same "chat" context open_rule (team_rule ∷ []) not_endpoint

refuse_call-none_example :
    (refuse_call same snapshot "chat" context ≡ none) ↔ IsAdmitted same snapshot "chat" context
refuse_call-none_example = refuse_call-none same snapshot "chat" context

model_for-refuse_call_example :
    refuse_call same snapshot "chat" context ≢ some (spend_limit (usd 10) (usd 30) none)
model_for-refuse_call_example =
    model_for-refuse_call same snapshot "chat" context "small" (usd 10) (usd 30) none switched

part_of_text : grants (other_text "search-chat") "chat" ≡ true
unfolding grants
part_of_text = refl
