-- ===== src/Scaling/Valid.antt =====
-- What `policy_error` accepts.
use native.Mathlib.Nat.{
  le_of_mul-le-mul_right, mul-le-mul_right, div-mul-le_self, le-div_iff_mul-le,
}
use canyonos.Prelude.{
  ℕ, ◌+◌, ◌*◌, ◌/◌, ◌^◌, ◌<◌, ◌≤◌, ◌≡◌, Bool, true, false, not, none, some, arith, contains, sym,
  ◌∙◌, ltb-false, if◌then◌else◌,
}
use canyonos.Prelude.Int.{pos, negsuc, pos_part}
use canyonos.Float.{Float, finite, lt, le, is_integer, truncate, pow-pos}
use canyonos.Value.{Value, Fields, dict, int, float, number, get_or_null}
use canyonos.Scaling.{
  Policy, PolicyError, metrics, is_int, bad_count, bad_bound, policy_error, policy_of, count_of,
  compare_fields, known_metric, text_of, bound_of,
}

pub record IsValid (p : Policy) : Type 0 where
  pub positive : 1 ≤ p.min_replicas
  pub ordered : p.min_replicas ≤ p.max_replicas
  pub metric_known : contains metrics p.metric ≡ true
  pub apart : lt p.scale_down_below p.scale_up_above ≡ true

-- A whole number that is at least one.
record IsCount (v : Value) (x : Float) : Type 0 where
  is_number : number v ≡ some x
  whole : is_integer x ≡ true
  at_least_one : lt x (finite (pos 1) 0) ≡ false
  converted : count_of v ≡ pos_part (truncate x)

bad_count-IsCount : (v : Value) → bad_count v ≡ false → (x : Float) × IsCount v x
unfolding bad_count is_int count_of is_integer truncate
bad_count-IsCount (int z) h = (finite z 0, ground arith)
bad_count-IsCount (float x) h = (x, ground arith)
bad_count-IsCount v h = ground arith

div-le-div : (a b i j : ℕ) → 0 < i → 0 < j → a * j ≤ b * i → a / i ≤ b / j
div-le-div a b i j hi hj h =
    (le-div_iff_mul-le hj).1
      (le_of_mul-le-mul_right {k = i} (omega (arith, mul-le-mul_right j (div-mul-le_self a i))) hi)

one-le-div : (a i : ℕ) → 0 < i → i ≤ a → 1 ≤ a / i
one-le-div a i hi h = (le-div_iff_mul-le hi).1 (omega arith)

whole-le :
    (x y : Float)
    → is_integer x ≡ true
    → is_integer y ≡ true
    → lt x (finite (pos 1) 0) ≡ false
    → lt y (finite (pos 1) 0) ≡ false
    → lt y x ≡ false
    → (1 ≤ pos_part (truncate x)) × (pos_part (truncate x) ≤ pos_part (truncate y))
unfolding lt is_integer truncate
whole-le (finite (pos a) i) (finite (pos b) j) ix iy ox oy h = ground (
  arith,
  div-le-div a b (2 ^ i) (2 ^ j) (pow-pos i) (pow-pos j),
  one-le-div a (2 ^ i) (pow-pos i),
  ltb-false (b * 2 ^ i + 0 * 2 ^ j) (a * 2 ^ j + 0 * 2 ^ i) h,
)
whole-le (finite (negsuc a) i) y ix iy ox oy h = absurd (ground (arith, pow-pos i))
whole-le (finite (pos a) i) (finite (negsuc b) j) ix iy ox oy h = absurd (ground (arith, pow-pos j))
whole-le x y ix iy ox oy h = ground arith

record Fine (p : Fields) : Type 0 where
  min_ok : bad_count (get_or_null "min_replicas" p) ≡ false
  max_ok : bad_count (get_or_null "max_replicas" p) ≡ false
  ordered :
      compare_fields (λ x y. lt y x) (get_or_null "min_replicas" p) (get_or_null "max_replicas" p)
      ≡ false
  metric_ok : not (known_metric (get_or_null "metric" p)) ≡ false
  up_ok : bad_bound (get_or_null "scale_up_above" p) ≡ false
  down_ok : bad_bound (get_or_null "scale_down_below" p) ≡ false
  apart :
      compare_fields
        (λ x y. le y x)
        (get_or_null "scale_down_below" p)
        (get_or_null "scale_up_above" p)
      ≡ false

ladder :
    (a b c d e f g : Bool) (u v w x y z t : PolicyError)
    → (if a
        then some u
        else if b
        then some v
        else if c
        then some w
        else if d
        then some x
        else if e
        then some y
        else if f
        then some z
        else if g
        then some t
        else none)
      ≡ none
    → (a ≡ false)
      × (b ≡ false)
      × (c ≡ false)
      × (d ≡ false)
      × (e ≡ false)
      × (f ≡ false)
      × (g ≡ false)
ladder a b c d e f g h = ground arith

policy_error-Fine : (p : Fields) → policy_error (dict p) ≡ none → Fine p
unfolding policy_error
policy_error-Fine p h =
    let (a, b, c, d, e, f, g) = ladder _ _ _ _ _ _ _ _ _ _ _ _ _ _ h in
    record { min_ok = a; max_ok = b; ordered = c; metric_ok = d; up_ok = e; down_ok = f; apart = g }

known-text : (v : Value) → not (known_metric v) ≡ false → contains metrics (text_of v) ≡ true
known-text v h = ground arith

apart-lt :
    (v w : Value)
    → bad_bound v ≡ false
    → bad_bound w ≡ false
    → compare_fields (λ x y. le y x) v w ≡ false
    → lt (bound_of v) (bound_of w) ≡ true
unfolding bad_bound le
apart-lt v w hv hw h = ground arith

compare-number :
    (test : Float → Float → Bool) (v w : Value) {x y : Float}
    → number v ≡ some x
    → number w ≡ some y
    → compare_fields test v w ≡ test x y
compare-number test v w e f = ground arith

-- A policy that `policy_error` accepts asks for at least one replica, for no minimum above the
-- maximum, for a metric that the samples have, and to scale down below a lower value than it
-- scales up above.
pub policy_error-IsValid : (v : Value) → policy_error v ≡ none → IsValid (policy_of v)
unfolding policy_of policy_error
policy_error-IsValid (dict p) h =
    let ok = policy_error-Fine p h in
    let (x, cx) = bad_count-IsCount (get_or_null "min_replicas" p) ok.min_ok in
    let (y, cy) = bad_count-IsCount (get_or_null "max_replicas" p) ok.max_ok in
    let range = whole-le x y cx.whole cy.whole cx.at_least_one cy.at_least_one (
      sym (
        compare-number (λ x y. lt y x) (get_or_null "min_replicas" p) (get_or_null "max_replicas" p)
          cx.is_number cy.is_number)
      ∙ ok.ordered) in
    record {
      positive = rw cx.converted range.0;
      ordered = rw (cx.converted, cy.converted) range.1;
      metric_known = known-text (get_or_null "metric" p) ok.metric_ok;
      apart =
          apart-lt (get_or_null "scale_down_below" p) (get_or_null "scale_up_above" p) ok.down_ok
            ok.up_ok ok.apart;
    }
policy_error-IsValid v h = cc
