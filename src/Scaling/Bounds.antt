-- ===== src/Scaling/Bounds.antt =====
-- Where `_decide` leaves an agent's replica count.
use canyonos.Prelude.{ℕ, ◌≤◌, List, Option, none, some, [], ◌∷◌, map, arith}
use canyonos.Float.{Float}
use canyonos.Scaling.{Policy, Sample, on_load, metric_value, numbers, decide, apply}

abbrev pub InBounds : Policy → ℕ → Type 0
InBounds p n = (p.min_replicas ≤ n) × (n ≤ p.max_replicas)

on_load-InBounds :
    (p : Policy) (n : ℕ) (o : Option (List Float))
    → InBounds p n
    → InBounds p (apply n (on_load p n o))
unfolding on_load apply
on_load-InBounds p n none h = ground arith
on_load-InBounds p n (some []) h = ground arith
on_load-InBounds p n (some (v ∷ vs)) h = ground arith

-- After the change the count is within the policy's minimum and maximum, wherever it was before.
pub decide-InBounds :
    (p : Policy) (newest : Sample) (older : List Sample)
    → p.min_replicas ≤ p.max_replicas
    → InBounds p (apply newest.replicas_expected (decide p newest older))
unfolding decide apply
decide-InBounds p newest older h = ground (
  arith,
  on_load-InBounds p newest.replicas_expected
      (numbers (map (metric_value p.metric) (newest ∷ older))),
)
