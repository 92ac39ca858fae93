-- ===== src/Gateway/Routes.antt =====
-- routing.py: whether an agent's call to a model is let through.
pub mod Caps
pub mod Answers
use canyonos.Prelude.{
  ℕ, Bool, true, false, not, ◌&&◌, String, List, [], ◌∷◌, Option, none, some, if◌then◌else◌, lookup,
}
use canyonos.Prelude.Int.{pos}
use canyonos.Float.{Float, finite, lt}
use canyonos.Value.{Value, null, bool, int, dict, Fields, end, get, get_or_null, number}
use canyonos.Gateway.Models.{Llm, Index, normalize_model_id, truthy, caps_of}
use canyonos.Gateway.Pricing.{Prices, Arithmetic, Tokens, token_prices, compute_token_cost}

abbrev pub bytes_per_token : Float
bytes_per_token = finite (pos 4) 0

-- The body of a call: its length in bytes, and what `json.loads` makes of it if anything.
pub record Body : Type 0 where
  pub size : ℕ
  pub payload : Option Value

-- `a or b`
abbrev pub or_else : Value → Value → Value
or_else a b = if truthy a then a else b

-- A value in a product; a boolean counts as a number there.
abbrev pub factor : Value → Option Float
factor (bool b) = some (finite (pos (if b then 1 else 0)) 0)
factor v = number v

-- `(payload.get("inferenceConfig") or {}).get("maxTokens")`; a text or list there has no `get`.
abbrev pub config_max_tokens : Value → Option Value
config_max_tokens (dict c) = some (get_or_null "maxTokens" c)
config_max_tokens v = if truthy v then none else some null

-- `_requested_max_tokens`; `none` where it raises.
unfoldable pub requested_max_tokens : Fields → Option Value
requested_max_tokens p =
    let stated =
      or_else (get_or_null "max_tokens" p)
        (or_else (get_or_null "max_completion_tokens" p) (get_or_null "max_output_tokens" p)) in
    if truthy stated then some stated else config_max_tokens (get_or_null "inferenceConfig" p)

-- What an estimate comes to: a cost, `ValueError` for a body that is no JSON object, or the error of
-- a payload whose numbers are none.
pub data Estimate : Type 0 where
  cost : Float → Estimate
  bad_body : Estimate
  crashed : Estimate

abbrev pub product : Arithmetic → Option Float → Option Float → Option Float
product math (some x) (some y) = some (math.mul x y)
product math _ _ = none

unfoldable pub output_tokens : Arithmetic → Fields → Fields → Option Float
unfolding requested_max_tokens
output_tokens math settings p = elim (requested_max_tokens p) [
  | none ↦ none
  | some stated ↦
      product math (factor (or_else stated (get_or_null "max_tokens" settings)))
        (factor (or_else (get_or_null "n" p) (int (pos 1))))
]

abbrev pub call_tokens : Float → Float → Tokens
call_tokens input output = record {
  input = input;
  output = output;
  cache_read = finite (pos 0) 0;
  cache_write = finite (pos 0) 0;
}

-- How a call is answered: forwarded, or denied with one of the reasons, or with an error.
pub data Answer : Type 0 where
  forwarded : Answer
  not_loaded not_allowed no_price not_an_object : Answer
  over_cap : Float → Answer
  failed : Answer

module _ (math : Arithmetic) (table : List (String × Prices)) (prefix : Option String) where
  unfoldable pub payload_cost : Option Value → Float → Llm → Estimate
  unfolding output_tokens compute_token_cost normalize_model_id
  payload_cost (some (dict p)) input llm = elim (output_tokens math llm.settings p) [
    | none ↦ crashed
    | some output ↦ cost (
        compute_token_cost math table (normalize_model_id llm.model_id) prefix
          (call_tokens input output))
  ]
  payload_cost _ input llm = bad_body

  -- `worst_case_cost`
  unfoldable pub worst_case_cost : Body → Llm → Estimate
  unfolding payload_cost
  worst_case_cost body llm =
      payload_cost body.payload (math.div (finite (pos body.size) 0) bytes_per_token) llm

  -- `cost > cap`
  unfoldable pub within_cap : Estimate → Option Float → Answer
  within_cap (cost c) (some cap) = if lt cap c then over_cap c else forwarded
  within_cap (cost c) none = failed
  within_cap bad_body cap = not_an_object
  within_cap crashed cap = failed

  unfoldable pub priced_cap : Body → Llm → Value → Option Prices → Answer
  unfolding within_cap worst_case_cost
  priced_cap body llm cap none = no_price
  priced_cap body llm cap (some p) = within_cap (worst_case_cost body llm) (number cap)

  unfoldable pub check_cap : Body → Llm → Option Value → Answer
  unfolding priced_cap token_prices
  check_cap body llm none = not_allowed
  check_cap body llm (some null) = forwarded
  check_cap body llm (some cap) =
      priced_cap body llm cap (token_prices table (normalize_model_id llm.model_id) prefix)

  -- The agent of AGENT_NAME, which may be unset, among the agents of an entry.
  unfoldable pub check_agent : Option String → Body → Llm → Option Fields → Answer
  unfolding check_cap
  check_agent agent body llm none = failed
  check_agent none body llm (some caps) = not_allowed
  check_agent (some a) body llm (some caps) = check_cap body llm (get a caps)

  unfoldable pub check_agents : Option String → Body → Llm → Option Value → Answer
  unfolding check_agent
  check_agents agent body llm none = forwarded
  check_agents agent body llm (some v) = check_agent agent body llm (caps_of v)

  unfoldable pub check_llm : Option String → Body → Option Llm → Answer
  unfolding check_agents
  check_llm agent body none = forwarded
  check_llm agent body (some llm) = check_agents agent body llm (get "agents" llm.settings)

  -- `route`
  unfoldable pub route : Option Index → Option String → String → Body → Answer
  unfolding check_llm
  route none agent model body = not_loaded
  route (some ix) agent model body = check_llm agent body (lookup (normalize_model_id model) ix)
