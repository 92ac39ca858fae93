-- ===== src/Gateway/Routes/Answers.antt =====
-- With an accepted llms.yaml, only the payload of a call can make its check fail.
use canyonos.Prelude.{
  ◌≡◌, refl, subst, true, Bool-cases, String, List, Option, none, some, arith, lookup, Option-cases,
  inl, inr, ◌⊎◌, str_eq,
}
use canyonos.Float.{Float, finite}
use canyonos.Value.{Value, null, Fields, get, get_or_null, number}
use canyonos.Gateway.Models.{Llm, Index, indexed, index_llms, normalize_model_id, caps_of}
use canyonos.Gateway.Models.Priced.{IsCap, IsPriced, index_llms-ArePriced, lookup-IsPriced}
use canyonos.Gateway.Pricing.{Prices, Arithmetic}
use canyonos.Gateway.Routes.{
  Body, Estimate, cost, bad_body, crashed, failed, worst_case_cost, within_cap, priced_cap,
  check_cap, check_agents, check_agent, check_llm, route,
}
use canyonos.Prelude.Int.{pos}
use canyonos.Value.{int, float, dict, field, end}
use canyonos.Gateway.Models.{all_null, is_number, truthy}
use canyonos.Gateway.Routes.{
  or_else, factor, product, requested_max_tokens, output_tokens, payload_cost,
}

-- The payload's token limit cannot be read, or is no number, or the number of its answers is none.
abbrev pub PayloadFails : Fields → Type 0
PayloadFails p =
    (requested_max_tokens p ≡ none)
    ⊎ (((stated : Value) × (requested_max_tokens p ≡ some stated)
          × (truthy stated ≡ true)
          × (factor stated ≡ none))
        ⊎ (factor (or_else (get_or_null "n" p) (int (pos 1))) ≡ none))

number-factor : (v : Value) → is_number v ≡ true → (x : Float) × (factor v ≡ some x)
number-factor (int z) h = (finite z 0, refl)
number-factor (float x) h = (x, refl)
number-factor _ h = absurd (cc h)

all_null-null :
    (caps : Fields) (a : String) (cap : Value)
    → all_null caps ≡ true
    → get a caps ≡ some cap
    → cap ≡ null
all_null-null end a cap h g = cc
all_null-null (field k null fs) a cap h g = elim (Bool-cases (str_eq k a)) [
  | inl e ↦ ground (arith, g, e)
  | inr e ↦ all_null-null fs a cap h (rw e at g)
]
all_null-null (field k _ fs) a cap h g = cc

product-none :
    (math : Arithmetic) (x y : Option Float) → product math x y ≡ none → (x ≡ none) ⊎ (y ≡ none)
product-none math none y h = inl refl
product-none math (some x) none h = inr refl
product-none math (some x) (some y) h = absurd (cc h)

stated-fails :
    (settings p : Fields) (stated : Value)
    → requested_max_tokens p ≡ some stated
    → is_number (get_or_null "max_tokens" settings) ≡ true
    → factor (or_else stated (get_or_null "max_tokens" settings)) ≡ none
    → PayloadFails p
stated-fails settings p stated r n h = elim (Bool-cases (truthy stated)) [
  | inl t ↦ inr (inl (stated, r, t, (rw t at h)))
  | inr t ↦
      let (x, e) = number-factor (get_or_null "max_tokens" settings) n in
      absurd (cc ((rw t at h), e))
]

output_tokens-fails :
    (math : Arithmetic) (settings p : Fields)
    → is_number (get_or_null "max_tokens" settings) ≡ true
    → output_tokens math settings p ≡ none
    → PayloadFails p
unfolding output_tokens
output_tokens-fails math settings p n h = elim (Option-cases (requested_max_tokens p)) [
  | inl r ↦ inl r
  | inr (stated, r) ↦ elim (product-none math _ _ (rw (r, output_tokens) at h)) [
    | inl s ↦ stated-fails settings p stated r n s
    | inr k ↦ inr (inr k)
  ]
]

module _ (math : Arithmetic) (table : List (String × Prices)) (prefix : Option String) where
  -- The body is an object that fails.
  abbrev pub BodyFails : Body → Type 0
  BodyFails body = (p : Fields) × (body.payload ≡ some (dict p)) × PayloadFails p

  payload_cost-fails :
      (o : Option Value) (input : Float) (llm : Llm)
      → is_number (get_or_null "max_tokens" llm.settings) ≡ true
      → payload_cost math table prefix o input llm ≡ crashed
      → (p : Fields) × (o ≡ some (dict p)) × PayloadFails p
  unfolding payload_cost
  payload_cost-fails (some (dict p)) input llm n h =
      elim (Option-cases (output_tokens math llm.settings p)) [
        | inl e ↦ (p, refl, output_tokens-fails math llm.settings p n e)
        | inr (x, e) ↦ absurd (cc (rw (e, payload_cost) at h))
      ]
  payload_cost-fails _ input llm n h = absurd (cc h)

  worst_case_cost-fails :
      (body : Body) (llm : Llm)
      → is_number (get_or_null "max_tokens" llm.settings) ≡ true
      → worst_case_cost math table prefix body llm ≡ crashed
      → BodyFails body
  unfolding worst_case_cost
  worst_case_cost-fails body llm n h = payload_cost-fails body.payload _ llm n h

  within_cap-failed :
      (e : Estimate) (limit : Float)
      → within_cap math table prefix e (some limit) ≡ failed
      → e ≡ crashed
  unfolding within_cap
  within_cap-failed (cost c) limit h = ground arith
  within_cap-failed bad_body limit h = cc
  within_cap-failed crashed limit h = refl

  priced_cap-failed :
      (body : Body) (llm : Llm) (cap : Value) (o : Option Prices) {limit : Float}
      → number cap ≡ some limit
      → priced_cap math table prefix body llm cap o ≡ failed
      → worst_case_cost math table prefix body llm ≡ crashed
  unfolding priced_cap
  priced_cap-failed body llm cap none n h = cc
  priced_cap-failed body llm cap (some p) {limit} n h = within_cap-failed _ limit (rw n at h)

  states_limit :
      (llm : Llm) (caps : Fields) (a : String) (cap : Value)
      → (all_null caps ≡ true) ⊎ (is_number (get_or_null "max_tokens" llm.settings) ≡ true)
      → get a caps ≡ some cap
      → (cap ≡ null → ⊥)
      → is_number (get_or_null "max_tokens" llm.settings) ≡ true
  states_limit llm caps a cap (inl e) g n = absurd (n (all_null-null caps a cap e g))
  states_limit llm caps a cap (inr e) g n = e

  check_cap-failed :
      (body : Body) (llm : Llm) (caps : Fields) (a : String) (o : Option Value)
      → get a caps ≡ o
      → ((cap : Value) → get a caps ≡ some cap → IsCap cap)
      → (all_null caps ≡ true) ⊎ (is_number (get_or_null "max_tokens" llm.settings) ≡ true)
      → check_cap math table prefix body llm o ≡ failed
      → BodyFails body
  unfolding check_cap
  check_cap-failed body llm caps a none g f l h = absurd (cc h)
  check_cap-failed body llm caps a (some null) g f l h = absurd (cc h)
  check_cap-failed body llm caps a (some cap) g f l h = elim (f cap g) [
    | inl e ↦ absurd (cc e)
    | inr (limit, n) ↦
        worst_case_cost-fails body llm (states_limit llm caps a cap l g (λ e. cc e))
          (priced_cap-failed body llm cap _ n h)
  ]

  check_agents-failed :
      (body : Body) (llm : Llm) (a : String) (o : Option Value)
      → get "agents" llm.settings ≡ o
      → IsPriced llm
      → check_agents math table prefix (some a) body llm o ≡ failed
      → BodyFails body
  unfolding check_agents check_agent
  check_agents-failed body llm a none g p h = absurd (cc h)
  check_agents-failed body llm a (some v) g p h =
      let e : caps_of v ≡ some p.0 =
        subst (λ (w : Value). caps_of w ≡ some p.0) {x = get_or_null "agents" llm.settings} {y = v}
          (rw (g, get_or_null) refl) p.1 in
      check_cap-failed body llm p.0 a (get a p.0) refl (p.2 a) p.3 (rw e at h)

  -- With a file that `index_llms` accepts, and an arithmetic that raises nothing, a call of a named
  -- agent gets an answer unless its payload is an object whose token limit cannot be read or is no
  -- number, or whose number of answers is none: no cap and no missing limit of the file makes the
  -- check fail.
  pub route_answers :
      (llms : Fields) (ix : Index) (agent model : String) (body : Body)
      → index_llms llms ≡ indexed ix
      → route math table prefix (some ix) (some agent) model body ≡ failed
      → BodyFails body
  unfolding route check_llm
  route_answers llms ix agent model body i h =
      elim (Option-cases (lookup (normalize_model_id model) ix)) [
        | inl e ↦ absurd (cc (rw (e, check_llm) at h))
        | inr (llm, e) ↦
            let p = lookup-IsPriced _ ix (index_llms-ArePriced llms i) e in
            check_agents-failed body llm agent _ refl p (rw (e, check_llm) at h)
      ]
