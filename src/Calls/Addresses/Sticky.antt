-- ===== src/Calls/Addresses/Sticky.antt =====
-- The replica that a stateful agent's calls of one request go to.
use canyonos.Prelude.{
  ℕ, ◌≡◌, ◌≢◌, All, true, String, List, [], ◌∷◌, Option, none, some, contains, ◌⊎◌,
}
use canyonos.Calls.Addresses.{
  Published, Router, load_routing, bound, refreshed, resolve_address, take_affinities, clean_up,
}

-- What the controller does to its router: it resolves an agent for a request, with the outcome of
-- `random.choice`, loads a table that was published, marks a replica down, takes the affinities that
-- a call brings for its request, or cleans up after a request.
pub data Event : Type 0 where
  resolves : ℕ → (List String → String) → String → String → Event
  loads : Published → Event
  marks_down : String → ℕ → Event
  brings : String → List (String × String) → Event
  cleans : String → Event

unfoldable pub handle : Event → Router → Router × Option String
unfolding resolve_address load_routing take_affinities clean_up
handle (resolves now choose agent request) s = resolve_address choose now s agent request
handle (loads p) s = (load_routing (record s { published = p }), none)
handle (marks_down address until) s =
    (record s { down_until = (address, until) ∷ s.down_until }, none)
handle (brings request m) s = (take_affinities request m s, none)
handle (cleans request) s = (clean_up request s, none)

module _ (r a x : String) where
  abbrev pub IsBound : Router → Type 0
  IsBound s = bound r a s.affinities ≡ some x

  -- No replica, or the one that the request is bound to.
  abbrev pub IsHere : Option String → Type 0
  IsHere answer = (answer ≡ none) ⊎ (answer ≡ some x)

  -- An event that does not take the binding away: a call of the request brings no other address for
  -- the agent, and it is not the request that is cleaned up after.
  abbrev pub Keeps : Event → Type 0
  Keeps (brings request m) = request ≡ r → All (λ e. e.0 ≡ a → e.1 ≡ x) m
  Keeps (cleans request) = request ≢ r
  Keeps _ = Unit

  -- What a request of the agent is answered while the agent is stateful.
  abbrev pub AnswerFits : Event → Router → Type 0
  AnswerFits (resolves now choose agent request) s =
      agent ≡ a
      → request ≡ r
      → contains (refreshed choose s agent).stateful agent ≡ true
      → IsHere (resolve_address choose now s agent request).1
  AnswerFits _ s = Unit

  abbrev pub Sticks : List Event → Router → Type 0
  Sticks [] s = Unit
  Sticks (ev ∷ evs) s = AnswerFits ev s × Sticks evs (handle ev s).0
