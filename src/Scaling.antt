-- ===== src/Scaling.antt =====
-- The scaling policy of packages/core/canyonos_core/controller/scaling.py over the samples of
-- packages/core/canyonos_core/scaling/contract.py.
mod Valid
mod Bounds
mod Load
mod Decisions
mod Tests
use canyonos.Prelude.{
  ℕ, zero, Bool, true, false, not, ◌&&◌, ◌||◌, String, List, [], ◌∷◌, Option, none, some, str_eq,
  ltb, leb, ◌==◌, if◌then◌else◌, length, all, contains, map, ◌++◌,
}
use canyonos.Prelude.Int.{ℤ, pos, negsuc, pos_part, sub_ℕ, ◌+ℤ◌}
use canyonos.Float.{Float, finite, nan, lt, le, is_integer, truncate, minimum, maximum}
use canyonos.Value.{Value, null, int, float, str, dict, Fields, get_or_null, number}

abbrev pub window_length : ℕ
window_length = 4

abbrev pub metrics : List String
metrics = "queue_length_total" ∷ "requests_per_minute_per_replica" ∷ []

-- Why a policy is invalid; the field of the message is kept.
pub data PolicyError : Type 0 where
  not_a_mapping : PolicyError
  not_a_count : String → PolicyError
  min_exceeds_max : PolicyError
  unknown_metric : PolicyError
  not_a_bound : String → PolicyError
  bounds_crossed : PolicyError

-- `_is_int`: `3.0` counts and `True` does not.
unfoldable pub is_int : Value → Bool
is_int (int z) = true
is_int (float x) = is_integer x
is_int _ = false

abbrev zero_float : Float
zero_float = finite (pos 0) 0

abbrev one_float : Float
one_float = finite (pos 1) 0

-- `not _is_int(value) or value < 1`
unfoldable pub bad_count : Value → Bool
unfolding is_int
bad_count v = not (is_int v) || elim (number v) [ none ↦ true | some x ↦ lt x one_float ]

-- `not _is_number(value) or not value >= 0`
unfoldable pub bad_bound : Value → Bool
unfolding le
bad_bound v = elim (number v) [ none ↦ true | some x ↦ not (le zero_float x) ]

-- A comparison of two fields already known to be numbers.
abbrev compare_fields : (Float → Float → Bool) → Value → Value → Bool
compare_fields test a b = elim (number a) [
  | none ↦ false
  | some x ↦ elim (number b) [ none ↦ false | some y ↦ test x y ]
]

abbrev known_metric : Value → Bool
known_metric (str m) = contains metrics m
known_metric _ = false

abbrev field_error : Fields → Option PolicyError
field_error p =
    if bad_count (get_or_null "min_replicas" p)
    then some (not_a_count "min_replicas")
    else if bad_count (get_or_null "max_replicas" p)
    then some (not_a_count "max_replicas")
    else if compare_fields (λ x y. lt y x) (get_or_null "min_replicas" p)
        (get_or_null "max_replicas" p)
    then some min_exceeds_max
    else if not (known_metric (get_or_null "metric" p))
    then some unknown_metric
    else if bad_bound (get_or_null "scale_up_above" p)
    then some (not_a_bound "scale_up_above")
    else if bad_bound (get_or_null "scale_down_below" p)
    then some (not_a_bound "scale_down_below")
    else if compare_fields (λ x y. le y x) (get_or_null "scale_down_below" p)
        (get_or_null "scale_up_above" p)
    then some bounds_crossed
    else none

-- `policy_error`
unfoldable pub policy_error : Value → Option PolicyError
policy_error (dict p) = field_error p
policy_error _ = some not_a_mapping

-- The policy that `scale` hands on, its counts converted by `int`.
pub record Policy : Type 0 where
  pub min_replicas : ℕ
  pub max_replicas : ℕ
  pub metric : String
  pub scale_up_above : Float
  pub scale_down_below : Float

-- `int(value)` of a count; a valid one is not negative.
unfoldable pub count_of : Value → ℕ
count_of (int z) = pos_part z
count_of (float x) = pos_part (truncate x)
count_of _ = 0

abbrev pub text_of : Value → String
text_of (str s) = s
text_of _ = ""

abbrev pub bound_of : Value → Float
bound_of v = elim (number v) [ none ↦ nan | some x ↦ x ]

unfoldable pub policy_of : Value → Policy
policy_of (dict p) = record {
  min_replicas = count_of (get_or_null "min_replicas" p);
  max_replicas = count_of (get_or_null "max_replicas" p);
  metric = text_of (get_or_null "metric" p);
  scale_up_above = bound_of (get_or_null "scale_up_above" p);
  scale_down_below = bound_of (get_or_null "scale_down_below" p);
}
policy_of _ = record {
  min_replicas = 0;
  max_replicas = 0;
  metric = "";
  scale_up_above = nan;
  scale_down_below = nan;
}

-- The fields of an agent sample that a policy reads.
pub record Sample : Type 0 where
  pub replicas_running : ℕ
  pub replicas_expected : ℕ
  pub queue_length_total : Value
  pub requests_per_minute_per_replica : Value

-- `s.get(metric)`
unfoldable pub metric_value : String → Sample → Value
metric_value m s =
    if str_eq m "queue_length_total"
    then s.queue_length_total
    else if str_eq m "requests_per_minute_per_replica"
    then s.requests_per_minute_per_replica
    else null

-- The values of a list in which all are numbers.
unfoldable pub numbers : List Value → Option (List Float)
numbers [] = some []
numbers (v ∷ vs) = elim (number v) [
  | none ↦ none
  | some x ↦ elim (numbers vs) [ none ↦ none | some xs ↦ some (x ∷ xs) ]
]

abbrev pub steady : ℕ → Sample → Bool
steady current s = s.replicas_expected == current && s.replicas_running == current

unfoldable pub settled : ℕ → List Sample → Bool
settled current samples = leb window_length (length samples) && all (steady current) samples

unfoldable pub step : Policy → ℕ → Float → List Float → ℤ
step p current v vs =
    if lt p.scale_up_above (minimum v vs) && ltb current p.max_replicas
    then pos 1
    else if lt (maximum v vs) p.scale_down_below && ltb p.min_replicas current
    then negsuc 0
    else pos 0

unfoldable pub on_load : Policy → ℕ → Option (List Float) → ℤ
unfolding step
on_load p current (some (v ∷ vs)) = step p current v vs
on_load p current _ = pos 0

-- `_decide` on the newest sample and the older ones, without the reason for the log.
unfoldable pub decide : Policy → Sample → List Sample → ℤ
decide p newest older =
    let current = newest.replicas_expected in
    if ltb current p.min_replicas
    then sub_ℕ p.min_replicas current
    else if ltb p.max_replicas current
    then sub_ℕ p.max_replicas current
    else if not (settled current (newest ∷ older))
    then pos 0
    else on_load p current (numbers (map (metric_value p.metric) (newest ∷ older)))

-- The count that `set_desired` of reconciler/state.py stores for a change: `max(0, current + delta)`.
unfoldable pub apply : ℕ → ℤ → ℕ
unfolding ◌+ℤ◌
apply current delta = pos_part (pos current +ℤ delta)

pub record AgentSpec : Type 0 where
  pub name : String
  pub kind : String

-- `if delta`
abbrev pub nonzero : ℤ → Bool
nonzero (pos zero) = false
nonzero _ = true

-- One round of the loop of `scale`; an agent with no samples is passed over.
unfoldable pub decision : Policy → AgentSpec → List Sample → List (String × ℤ)
decision p spec [] = []
decision p spec (newest ∷ older) =
    let delta = decide p newest older in if nonzero delta then (spec.name, delta) ∷ [] else []

abbrev pub unless_error : Option PolicyError → List (String × ℤ) → List (String × ℤ)
unless_error none found = found
unless_error (some e) found = []

-- `read` is `contract.read` at the agent's key.
module _ (read : String → List Sample) where
  unfoldable pub decisions : Policy → List AgentSpec → List (String × ℤ)
  unfolding decision
  decisions p [] = []
  decisions p (spec ∷ specs) =
      let rest = decisions p specs in
      if str_eq spec.kind "agent" then decision p spec (read spec.name) ++ rest else rest

  -- `scale`, on the policy that `read_policy` found.
  unfoldable pub scale : Value → List AgentSpec → List (String × ℤ)
  unfolding decisions
  scale null specs = []
  scale v specs = unless_error (policy_error v) (decisions (policy_of v) specs)
