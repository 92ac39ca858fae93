-- ===== src/Governance/Refusals.antt =====
-- When a call is refused, and which model an agent's LLM calls use.
use canyonos.Prelude.{
  ◌≡◌, ◌≢◌, ◌↔◌, Bool, true, String, List, [], ◌∷◌, Option, none, some, All, refl, arith, contains,
}
use canyonos.Float.{Float}
use canyonos.Governance.{
  SpendRule, Action, deny, switch_model, Rules, spend_limit, policy_allows, tripped, model_for,
  refuse_call, first_down, dependencies, spend_refusal, rules_of, spent, since_of,
}

-- What a call needs to be let through. Of the spend rules that have tripped, the highest alone
-- counts.
pub record IsAdmitted {V : Type 0} (same : Option V → V → Bool) (rules : Rules V) (agent : String)
    (context : List (String × V)) : Type 0 where
  pub allowed : policy_allows same rules.policy agent context ≡ true
  pub up :
      All (λ d. contains rules.up d ≡ true) (dependencies (rules_of rules.agents agent).requires)
  pub affordable : (r : SpendRule) → tripped rules agent ≡ some r → r.action ≢ deny

first_down-none :
    (up ds : List String) → first_down up ds ≡ none → All (λ d. contains up d ≡ true) ds
unfolding first_down
first_down-none up [] h = tt
first_down-none up (d ∷ ds) h = (ground arith, first_down-none up ds (ground arith))

first_down-All :
    (up ds : List String) → All (λ d. contains up d ≡ true) ds → first_down up ds ≡ none
unfolding first_down
first_down-All up [] h = refl
first_down-All up (d ∷ ds) h = rw h.0 (first_down-All up ds h.1)

spend_refusal-none :
    (usd : Float) (since : Option String) (o : Option SpendRule)
    → (spend_refusal usd since o ≡ none) ↔ ((r : SpendRule) → o ≡ some r → r.action ≢ deny)
unfolding spend_refusal
spend_refusal-none usd since none = ((λ _ r e. absurd (cc e)), (λ _. refl))
spend_refusal-none usd since (some r) =
    ((λ e s q d. ground arith), (λ h. on_action h r.action refl))
  where
    on_action :
        ((s : SpendRule) → some r ≡ some s → s.action ≢ deny)
        → (a : Action) → r.action ≡ a
        → spend_refusal usd since (some r) ≡ none
    on_action h deny d = absurd (h r refl d)
    on_action h (switch_model m) d = ground arith

module _ {V : Type 0} (same : Option V → V → Bool) (rules : Rules V) (agent : String)
    (context : List (String × V)) where
  -- A call is let through exactly when the policy allows it, every agent it requires has a replica
  -- up, and the spend rule that `_tripped` finds, the highest of those that its spend has passed,
  -- does not deny, or there is none. A lower rule that denies does not count.
  pub refuse_call-none :
      (refuse_call same rules agent context ≡ none) ↔ IsAdmitted same rules agent context
  unfolding refuse_call
  refuse_call-none = (
    (λ h. record {
      allowed = ground arith;
      up = first_down-none rules.up needed (ground arith);
      affordable = limit.0 (ground arith);
    }),
    (λ a. ground (arith, a.allowed, first_down-All rules.up needed a.up, limit.1 a.affordable)),
  )
    where
      needed : List String
      needed = dependencies (rules_of rules.agents agent).requires

      limit :
          (spend_refusal
              (spent rules.spend agent)
              (since_of (rules_of rules.agents agent).spend)
              (tripped rules agent)
            ≡ none)
          ↔ ((r : SpendRule) → tripped rules agent ≡ some r → r.action ≢ deny)
      limit =
          spend_refusal-none (spent rules.spend agent)
            (since_of (rules_of rules.agents agent).spend) (tripped rules agent)

  -- An agent whose calls are switched to another model is not refused for its spend.
  pub model_for-refuse_call :
      (model : String) (cap usd : Float) (since : Option String)
      → model_for rules agent ≡ some model
      → refuse_call same rules agent context ≢ some (spend_limit cap usd since)
  unfolding refuse_call model_for spend_refusal
  model_for-refuse_call model cap usd since h e = ground arith
