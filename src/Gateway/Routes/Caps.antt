-- ===== src/Gateway/Routes/Caps.antt =====
-- Which calls are let through.
use canyonos.Prelude.{
  ◌≡◌, refl, sym, ap, ◌∙◌, true, false, Bool-cases, String, List, Option, none, some, arith, lookup,
  inl, inr, ◌⊎◌, ◌↔◌,
}
use canyonos.Float.{Float, finite, inf, neg_inf, nan, lt, le, is_nan}
use canyonos.Value.{Value, null, Fields, get, number}
use canyonos.Gateway.Models.{Llm, Index, normalize_model_id, caps_of}
use canyonos.Gateway.Pricing.{Prices, Arithmetic, token_prices}
use canyonos.Gateway.Routes.{
  Body, Estimate, cost, bad_body, crashed, forwarded, worst_case_cost, within_cap, priced_cap,
  check_cap, check_agents, check_agent, check_llm, route,
}

lt-nan_right : (x y : Float) → is_nan y ≡ true → lt x y ≡ false
unfolding lt
lt-nan_right (finite a i) nan h = refl
lt-nan_right inf nan h = refl
lt-nan_right neg_inf nan h = refl
lt-nan_right nan nan h = refl
lt-nan_right x (finite b j) h = absurd (cc h)
lt-nan_right x inf h = absurd (cc h)
lt-nan_right x neg_inf h = absurd (cc h)

lt-nan_left : (x y : Float) → is_nan x ≡ true → lt x y ≡ false
unfolding lt
lt-nan_left nan y h = refl
lt-nan_left (finite a i) y h = absurd (cc h)
lt-nan_left inf y h = absurd (cc h)
lt-nan_left neg_inf y h = absurd (cc h)

module _ (math : Arithmetic) (table : List (String × Prices)) (prefix : Option String) where
  -- One of the two is NaN, which compares with nothing, or the cost is no more than the cap.
  abbrev pub FitsCap : Float → Float → Type 0
  FitsCap c limit = (is_nan c ≡ true) ⊎ ((is_nan limit ≡ true) ⊎ (le c limit ≡ true))

  -- The model has a price, and the call at its dearest fits the cap.
  abbrev pub CostsAtMost : Body → Llm → Float → Type 0
  CostsAtMost body llm limit =
      (p : Prices) × (token_prices table (normalize_model_id llm.model_id) prefix ≡ some p)
      × (c : Float) × (worst_case_cost math table prefix body llm ≡ cost c)
      × FitsCap c limit

  -- The agent may use the model, without a cap or within it.
  abbrev pub MayUse : String → Body → Llm → Fields → Type 0
  MayUse agent body llm caps =
      (cap : Value) × (get agent caps ≡ some cap)
      × ((cap ≡ null) ⊎ ((limit : Float) × (number cap ≡ some limit) × CostsAtMost body llm limit))

  lt-FitsCap : (c limit : Float) → lt limit c ≡ false → FitsCap c limit
  unfolding le
  lt-FitsCap c limit h = elim (Bool-cases (is_nan c)) [
    | inl n ↦ inl n
    | inr n ↦ elim (Bool-cases (is_nan limit)) [
      | inl m ↦ inr (inl m)
      | inr m ↦ inr (inr (ground (arith, h, n, m)))
    ]
  ]

  FitsCap-lt : (c limit : Float) → FitsCap c limit → lt limit c ≡ false
  unfolding le
  FitsCap-lt c limit (inl n) = lt-nan_right limit c n
  FitsCap-lt c limit (inr (inl n)) = lt-nan_left limit c n
  FitsCap-lt c limit (inr (inr l)) = ground (arith, l)

  within_cap-forwarded :
      (e : Estimate) (limit : Option Float)
      → within_cap math table prefix e limit ≡ forwarded
      → (l : Float) × (limit ≡ some l) × (c : Float) × (e ≡ cost c) × (lt l c ≡ false)
  unfolding within_cap
  within_cap-forwarded (cost c) none h = cc
  within_cap-forwarded (cost c) (some l) h = (l, refl, c, refl, ground arith)
  within_cap-forwarded bad_body limit h = cc
  within_cap-forwarded crashed limit h = cc

  priced_cap-forwarded :
      (body : Body) (llm : Llm) (cap : Value) (o : Option Prices)
      → token_prices table (normalize_model_id llm.model_id) prefix ≡ o
      → priced_cap math table prefix body llm cap o ≡ forwarded
      → (limit : Float) × (number cap ≡ some limit) × CostsAtMost body llm limit
  unfolding priced_cap
  priced_cap-forwarded body llm cap none e h = cc
  priced_cap-forwarded body llm cap (some p) e h =
      let (l, el, c, ec, f) = within_cap-forwarded _ (number cap) h in
      (l, el, (p, e, c, ec, lt-FitsCap c l f))

  check_cap-forwarded :
      (body : Body) (llm : Llm) (o : Option Value)
      → check_cap math table prefix body llm o ≡ forwarded
      → (cap : Value) × (o ≡ some cap)
        × ((cap ≡ null)
            ⊎ ((limit : Float) × (number cap ≡ some limit) × CostsAtMost body llm limit))
  unfolding check_cap
  check_cap-forwarded body llm none h = cc
  check_cap-forwarded body llm (some null) h = (null, refl, inl refl)
  check_cap-forwarded body llm (some cap) h =
      (cap, refl, inr (priced_cap-forwarded body llm cap _ refl h))

  priced_cap-allows :
      (body : Body) (llm : Llm) (cap : Value) {limit : Float}
      → number cap ≡ some limit
      → CostsAtMost body llm limit
      → priced_cap math table prefix body llm cap
          (token_prices table (normalize_model_id llm.model_id) prefix)
        ≡ forwarded
  unfolding priced_cap within_cap
  priced_cap-allows body llm cap n (p, e, c, ec, f) =
      rw (e, priced_cap) (rw (ec, within_cap) (rw n (rw (FitsCap-lt c _ f) refl)))

  check_cap-allows :
      (body : Body) (llm : Llm) (cap : Value)
      → ((cap ≡ null) ⊎ ((limit : Float) × (number cap ≡ some limit) × CostsAtMost body llm limit))
      → check_cap math table prefix body llm (some cap) ≡ forwarded
  unfolding check_cap
  check_cap-allows body llm null m = refl
  check_cap-allows body llm cap (inl e) = cc
  check_cap-allows body llm cap (inr (limit, n, k)) = priced_cap-allows body llm cap n k

  route_capped :
      (ix : Index) (agent model : String) (body : Body) (llm : Llm) (v : Value) (caps : Fields)
      → lookup (normalize_model_id model) ix ≡ some llm
      → get "agents" llm.settings ≡ some v
      → caps_of v ≡ some caps
      → route math table prefix (some ix) (some agent) model body
        ≡ check_cap math table prefix body llm (get agent caps)
  unfolding route check_llm check_agents check_agent
  route_capped ix agent model body llm v caps e g k =
      rw (e, check_llm) (rw (g, check_agents) (rw (k, check_agent) refl))

  -- A call to a model that llms.yaml lists with agents is forwarded exactly when the agent may make
  -- it: it is listed, and has no cap, or the model has a price and the call at its dearest costs no
  -- more than the cap, where neither the cost nor the cap is NaN; with NaN it is forwarded too.
  pub route-MayUse :
      (ix : Index) (agent model : String) (body : Body) (llm : Llm) (v : Value) (caps : Fields)
      → lookup (normalize_model_id model) ix ≡ some llm
      → get "agents" llm.settings ≡ some v
      → caps_of v ≡ some caps
      → (route math table prefix (some ix) (some agent) model body ≡ forwarded)
        ↔ MayUse agent body llm caps
  route-MayUse ix agent model body llm v caps e g k =
      let same = route_capped ix agent model body llm v caps e g k in
      (
        (λ h. check_cap-forwarded body llm (get agent caps) (sym same ∙ h)),
        (λ m.
            same
            ∙ ap (check_cap math table prefix body llm) m.1
            ∙ check_cap-allows body llm m.0 m.2),
      )
