-- ===== src/Scaling/Tests.antt =====
-- Runs of the scaling policy, and the theorems about it at concrete inputs.
use canyonos.Prelude.{ℕ, ◌≤◌, ◌≡◌, ◌≢◌, String, List, [], ◌∷◌, none, All, refl, arith, length}
use canyonos.Prelude.Int.{pos}
use canyonos.Float.{finite, lt, le, minimum, maximum, is_integer, truncate}
use canyonos.Value.{Value, int, float, str, dict, field, end}
use canyonos.Scaling.{
  Policy, Sample, AgentSpec, policy_error, policy_of, bad_count, bad_bound, decide, settled,
  on_load, numbers, metric_value, apply, scale, window_length, is_int, count_of,
}
use canyonos.Scaling.Valid.{IsValid, policy_error-IsValid}
use canyonos.Scaling.Bounds.{InBounds, decide-InBounds}
use canyonos.Scaling.Load.{Steady, Justifies, NoNan, decide-Justifies}
use canyonos.Scaling.Decisions.{IsSound, scale-IsSound}

abbrev document : Value
document = dict (
    field "min_replicas" (int (pos 1)) (
      field "max_replicas" (float (finite (pos 8) 1)) (
        field "metric" (str "queue_length_total") (
          field "scale_up_above" (float (finite (pos 21) 1))
            (field "scale_down_below" (int (pos 2)) end)))))

abbrev policy : Policy
policy = record {
  min_replicas = 1;
  max_replicas = 4;
  metric = "queue_length_total";
  scale_up_above = finite (pos 21) 1;
  scale_down_below = finite (pos 2) 0;
}

abbrev sample : ℕ → ℕ → ℕ → Sample
sample running expected queued = record {
  replicas_running = running;
  replicas_expected = expected;
  queue_length_total = int (pos queued);
  requests_per_minute_per_replica = float (finite (pos 1) 2);
}

accepted : policy_error document ≡ none
unfolding policy_error bad_count bad_bound is_int is_integer le lt
accepted = refl

converted : policy_of document ≡ policy
unfolding policy_of count_of truncate
converted = refl

abbrev busy : List Sample
busy = sample 2 2 15 ∷ sample 2 2 11 ∷ sample 2 2 30 ∷ []

grows : decide policy (sample 2 2 12) busy ≡ pos 1
unfolding decide settled on_load numbers metric_value minimum maximum lt
grows = refl

policy_error-IsValid_example : IsValid (policy_of document)
policy_error-IsValid_example = policy_error-IsValid document accepted

decide-InBounds_example : InBounds policy (apply 9 (decide policy (sample 7 9 3) busy))
decide-InBounds_example = decide-InBounds policy (sample 7 9 3) busy (omega arith)

clean : (s : Sample) (n : ℕ) → s ≡ sample 2 2 n → NoNan policy s
unfolding metric_value
clean s n e x h = ground arith

moved : decide policy (sample 2 2 12) busy ≢ pos 0
moved h = cc (grows, h)

decide-Justifies_example :
    (window_length ≤ length (sample 2 2 12 ∷ busy))
    × All (Steady 2) (sample 2 2 12 ∷ busy)
    × Justifies policy (sample 2 2 12 ∷ busy) (decide policy (sample 2 2 12) busy)
decide-Justifies_example =
    decide-Justifies policy (sample 2 2 12) busy (omega arith)
      (clean _ 12 refl, (clean _ 15 refl, (clean _ 11 refl, (clean _ 30 refl, tt)))) moved

abbrev worker : List AgentSpec
worker = record { name = "worker"; kind = "agent" } ∷ []

abbrev recorded : String → List Sample
recorded name = sample 2 2 12 ∷ busy

scale-IsSound_example : All (IsSound recorded (policy_of document)) (scale recorded document worker)
scale-IsSound_example = scale-IsSound recorded document worker
