-- ===== src/Launch/Tests.antt =====
-- Launches at concrete inputs.
use canyonos.Prelude.{ℕ, ◌≡◌, refl, true, false, Option, none, some, ltb, if◌then◌else◌}
use canyonos.Launch.{
  Answer, runs, conflict, port_in_use, no_free_port, after_attempt, attempts_from, launch,
}
use canyonos.Launch.Attempts.{EndsMoved, launch-EndsMoved}

abbrev api_taken : Option ℕ → Answer
api_taken (some a) = if ltb a 8002 then conflict (some a) else runs
api_taken none = runs

-- The host ports below 50053 and the API ports below 8002 are taken.
abbrev docker : ℕ → ℕ → Option ℕ → Answer
docker i host api = if ltb host 50053 then conflict (some host) else api_taken api

kept_api : launch true docker 50051 (some 8000) ≡ port_in_use 8000
unfolding launch attempts_from after_attempt
kept_api = refl

none_free : launch false (λ i host api. conflict none) 50051 none ≡ no_free_port
unfolding launch attempts_from after_attempt
none_free = refl

launch-EndsMoved_example :
    EndsMoved true docker 50051 (some 8000) (launch true docker 50051 (some 8000))
launch-EndsMoved_example = launch-EndsMoved true docker 50051 (some 8000)
