-- ===== src/Calls/Tests.antt =====
-- Runs of the local controller.
use mathlib.Core.List.{Memᴰ}
use canyonos.Prelude.{
  ℕ, zero, suc, ◌≡◌, refl, true, String, List, [], ◌∷◌, none, some, lookup, length, ◌≤◌, ◌+◌, ◌*◌,
  ◌⊎◌, ◌<◌, inl, Bool, false, Option, map, str_eq,
}
use canyonos.Calls.Addresses.{
  Published, Router, load_routing, bound, bind_new, pick, usable, refreshed, resolve_address,
}
use canyonos.Calls.Addresses.Available.{IsChoice, IsPicked, resolve_address-IsPicked}
use canyonos.Calls.Addresses.Sticky.{Event, resolves, marks_down, brings, cleans}
use canyonos.Calls.Forwards.{Call, Forwards, forward_request, Step, sends, requested}
use canyonos.Calls.Forwards.Balance.{
  Balanced, idle, Reached, start, steps, receives, Reached-Balanced,
}
use canyonos.Calls.Forwards.Progress.{rest, moves, IsStuck, IsQuiet, Run-Settles}
use canyonos.Calls.Waits.{Look, Outcome, returned, timed_out, settles, rounds_from, wait_for_result}
use canyonos.Calls.Waits.Ends.{Closes, Continues, finds_result, not_failed, wait_for_result_ends}
use canyonos.Governance.{
  listed, Rules, refuse_call, policy_allows, first_down, spend_refusal, tripped, first_match, meets,
  grants, highest_of, highest,
}
use canyonos.Float.{lt}
use canyonos.Calls.Execute.{
  Request, object, Arrival, execute, execute_all, empty_frontend, admit, unless_accepted, claim_key,
}
use canyonos.Calls.Execute.Accepted.{IsSound}
use canyonos.Calls.Execute.Fates.{AllFates}
use canyonos.Calls.Execute.Exact.{execute_all-IsExact}

first : List String → String
first [] = ""
first (x ∷ xs) = x

first-IsChoice : IsChoice first
unfolding first
first-IsChoice y ys = Memᴰ.head refl

abbrev two_replicas : Published
two_replicas = record { addresses = ("A", "h:1" ∷ "h:2" ∷ []) ∷ []; stateful = ("A", "true") ∷ [] }

abbrev empty_router : Router
empty_router = record {
  published = two_replicas;
  routing = [];
  stateful = [];
  down_until = ("h:1", 10) ∷ [];
  affinities = [];
}

second_up : (resolve_address first 5 empty_router "A" "r").1 ≡ some "h:2"
unfolding resolve_address pick bind_new load_routing first bound
second_up = refl

resolve_address-IsPicked_example :
    (usable (bound "r" "A" (refreshed first empty_router "A").affinities) ≡ some "h:2")
    ⊎ ((addresses : List String) × (lookup "A" (refreshed first empty_router "A").routing
          ≡ some addresses)
        × IsPicked 5 (refreshed first empty_router "A") addresses "h:2")
resolve_address-IsPicked_example =
    resolve_address-IsPicked first first-IsChoice 5 empty_router "A" "r" second_up

abbrev later_events : List Event
later_events =
    marks_down "h:2" 90
    ∷ brings "r" (("B", "h:9") ∷ ("A", "h:2") ∷ [])
    ∷ cleans "q"
    ∷ resolves 6 first "A" "r"
    ∷ []

abbrev one_call : Call
one_call = record { future_id = "f"; route_to = none; retries = 3 }

abbrev with_call : Forwards
with_call = record idle { queue = one_call ∷ [] }

with_call-Reached : Reached with_call
with_call-Reached = receives start (requested one_call refl)

sent_call : Step with_call (forward_request "h:1" one_call idle)
sent_call = sends one_call [] "h:1" refl refl

Reached-Balanced_example : Balanced (forward_request "h:1" one_call idle)
Reached-Balanced_example = Reached-Balanced (steps with_call-Reached sent_call)

Run-Settles_example :
    (1 ≤ 30 * (length with_call.queue + length with_call.in_flight + length with_call.waiting))
    × (IsStuck (forward_request "h:1" one_call idle)
        → IsQuiet (forward_request "h:1" one_call idle))
Run-Settles_example = Run-Settles with_call-Reached (moves sent_call rest)

-- A result that is there from the third round on.
abbrev looks : ℕ → Look
looks n = record {
  error = none;
  failed = "0";
  late_error = none;
  result = elim n [ zero ↦ none | suc m ↦ elim m [ zero ↦ none | suc k ↦ some "42" ] ];
}

third : Closes looks (λ i. i) none 2 (returned "42")
third = inl (finds_result (inl refl) (not_failed "0" refl) refl)

wait_for_result_ends_example :
    (o : Outcome) × (wait_for_result 3 looks (λ i. i) none ≡ some o)
    × (j : ℕ) × (j ≤ 2)
    × Closes looks (λ i. i) none j o
    × ((k : ℕ) → k < j → Continues looks (λ i. i) none k)
wait_for_result_ends_example = wait_for_result_ends looks (λ i. i) none 2 (returned "42", third)

found : wait_for_result 3 looks (λ i. i) none ≡ some (returned "42")
unfolding wait_for_result rounds_from settles
found = refl

too_late : wait_for_result 3 looks (λ i. i) (some 1) ≡ some timed_out
unfolding wait_for_result rounds_from settles
too_late = refl

abbrev is_same : Option String → String → Bool
is_same none value = false
is_same (some found) value = str_eq found value

abbrev rules : Rules String
rules = record {
  policy = record { matched = []; access = listed ("chat" ∷ []) } ∷ [];
  agents = [];
  spend = [];
  up = [];
}

abbrev call_of : String → String → Bool → Request
call_of agent future routed = object (record {
  service = some agent;
  function = some "ask";
  future_id = some future;
  has_route = routed;
})

abbrev arrival : ℕ → Bool → Request → Arrival String
arrival now refusing request = record {
  request = request;
  at = now;
  redis_up = true;
  refusing = refusing;
  admits = true;
  rules = rules;
  context = some [];
}

-- A call before `admit` is set, then a call, its duplicate, one that is refused, one that is forwarded, before and after the replica
-- drains, and the first again, an hour later.
abbrev arrivals : List (Arrival String)
arrivals =
    record (arrival 4 false (call_of "other" "e" false)) { admits = false }
    ∷ arrival 5 false (call_of "chat" "f" false)
    ∷ arrival 6 false (call_of "chat" "f" false)
    ∷ arrival 7 false (call_of "other" "g" false)
    ∷ arrival 8 false (call_of "other" "h" true)
    ∷ arrival 9 true (call_of "other" "i" true)
    ∷ arrival 3600000005 true (call_of "chat" "f" false)
    ∷ []

four_queued :
    map (λ a. a.at) (execute_all is_same arrivals (empty_frontend String)).queue
    ≡ 4 ∷ 5 ∷ 8 ∷ 3600000005 ∷ []
unfolding execute_all execute admit unless_accepted claim_key refuse_call policy_allows first_match
    meets grants tripped spend_refusal first_down highest_of highest lt
four_queued = refl

execute_all-IsExact_example :
    IsSound is_same (execute_all is_same arrivals (empty_frontend String)).queue
    × AllFates is_same [] arrivals (execute_all is_same arrivals (empty_frontend String)).queue
execute_all-IsExact_example = execute_all-IsExact is_same arrivals
