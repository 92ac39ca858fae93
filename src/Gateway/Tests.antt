-- ===== src/Gateway/Tests.antt =====
-- Runs of the gateway's checks.
use canyonos.Prelude.{◌≡◌, ◌↔◌, refl, String, List, [], ◌∷◌, none, some, lookup}
use canyonos.Prelude.Int.{pos}
use canyonos.Float.{finite}
use canyonos.Value.{Value, int, str, dict, Fields, field, end}
use canyonos.Gateway.Models.{
  normalize_model_id, Llm, Index, indexed, index_llms, index_from, add_entry, entry_fault,
  caps_fault, bad_cap,
}
use canyonos.Gateway.Pricing.{undated, candidate_model_ids, Prices, Arithmetic, token_prices}
use canyonos.Gateway.Routes.{
  Body, forwarded, failed, route, check_llm, check_agents, check_agent, check_cap, priced_cap,
  within_cap, worst_case_cost, payload_cost, output_tokens, requested_max_tokens,
}
use canyonos.Gateway.Routes.Caps.{MayUse, route-MayUse}
use canyonos.Gateway.Routes.Answers.{BodyFails, route_answers}

bare_id :
    normalize_model_id "arn:aws:bedrock:::foundation-model/us.anthropic.claude" ≡ "anthropic.claude"
unfolding normalize_model_id
bare_id = refl

dated_ids :
    candidate_model_ids "claude-x-20250101" (some "vercel")
    ≡ "vercel/claude-x-20250101" ∷ "claude-x-20250101" ∷ "claude-x"
      ∷ "anthropic.claude-x-20250101-v1:0" ∷ "anthropic.claude-x-v1:0" ∷ []
unfolding candidate_model_ids undated
dated_ids = refl

-- Sums of whole numbers, and products and quotients that keep their first argument.
abbrev coarse : Arithmetic
coarse = record { add = λ x y. x; sub = λ x y. x; mul = λ x y. x; div = λ x y. x }

abbrev table : List (String × Prices)
table =
    (
      "m",
      record {
        input = finite (pos 1) 0;
        output = finite (pos 1) 0;
        cache_read = finite (pos 1) 0;
        cache_write = finite (pos 1) 0;
      },
    )
    ∷ []

abbrev one_cap : Value → Fields
one_cap c = field "A" c end

abbrev entry_of : Value → Fields
entry_of c =
    field "model_id" (str "us.m")
      (field "max_tokens" (int (pos 10)) (field "agents" (dict (one_cap c)) end))

abbrev llms_of : Value → Fields
llms_of c = field "main" (dict (entry_of c)) end

abbrev llm_of : Value → Llm
llm_of c = record { name = "main"; model_id = "us.m"; settings = entry_of c }

abbrev index_of : Value → Index
index_of c = ("m", llm_of c) ∷ []

abbrev small_body : Body
small_body = record { size = 4; payload = some (dict end) }

listed : lookup (normalize_model_id "m") (index_of (int (pos 9))) ≡ some (llm_of (int (pos 9)))
unfolding normalize_model_id
listed = refl

route-MayUse_example :
    (route coarse table none (some (index_of (int (pos 9)))) (some "A") "m" small_body ≡ forwarded)
    ↔ MayUse coarse table none "A" small_body (llm_of (int (pos 9))) (one_cap (int (pos 9)))
route-MayUse_example =
    route-MayUse coarse table none (index_of (int (pos 9))) "A" "m" small_body
      (llm_of (int (pos 9))) (dict (one_cap (int (pos 9)))) (one_cap (int (pos 9))) listed refl refl

accepted : index_llms (llms_of (int (pos 9))) ≡ indexed (index_of (int (pos 9)))
unfolding index_llms index_from add_entry entry_fault caps_fault bad_cap normalize_model_id
accepted = refl

-- A body whose token limit is a text.
abbrev odd_body : Body
odd_body = record { size = 4; payload = some (dict (field "max_tokens" (str "many") end)) }

odd_call : route coarse table none (some (index_of (int (pos 9)))) (some "A") "m" odd_body ≡ failed
unfolding route check_llm check_agents check_agent check_cap priced_cap within_cap worst_case_cost
    payload_cost output_tokens requested_max_tokens normalize_model_id token_prices
    candidate_model_ids undated
odd_call = refl

route_answers_example : BodyFails coarse table none odd_body
route_answers_example =
    route_answers coarse table none (llms_of (int (pos 9))) (index_of (int (pos 9))) "A" "m"
      odd_body accepted odd_call
