-- ===== src/Calls/Addresses.antt =====
-- `_load_routing` and `_resolve_address`, with the bindings of requests to replicas.
pub mod Bindings
pub mod Available
pub mod Sticky
use canyonos.Prelude.{
  ℕ, Bool, true, false, not, ◌&&◌, String, List, [], ◌∷◌, Option, none, some, str_eq, leb,
  if◌then◌else◌, lookup, contains, keep, map,
}

-- An entry of the hash `affinity:<request>`.
pub record Binding : Type 0 where
  pub request : String
  pub agent : String
  pub address : String

-- The routing table in Redis, its addresses read from JSON.
pub record Published : Type 0 where
  pub addresses : List (String × List String)
  pub stateful : List (String × String)

pub record Router : Type 0 where
  pub published : Published
  pub routing : List (String × List String)
  pub stateful : List String
  pub down_until : List (String × ℕ)
  pub affinities : List Binding

abbrev pub flagged : List (String × String) → List String
flagged m = map (λ e. e.0) (keep (λ e. str_eq e.1 "true") m)

-- `_load_routing`
unfoldable pub load_routing : Router → Router
load_routing s = record s {
  routing = s.published.addresses;
  stateful = flagged s.published.stateful;
}

-- `hget` and `hset` of the affinities.
abbrev pub is_for : String → String → Binding → Bool
is_for request agent b = str_eq b.request request && str_eq b.agent agent

unfoldable pub bound : String → String → List Binding → Option String
bound request agent [] = none
bound request agent (b ∷ bs) =
    let rest = bound request agent bs in if is_for request agent b then some b.address else rest

unfoldable pub bind_to : String → String → String → List Binding → List Binding
bind_to request agent address [] =
    record { request = request; agent = agent; address = address } ∷ []
bind_to request agent address (b ∷ bs) =
    let rest = bind_to request agent address bs in
    if is_for request agent b then record b { address = address } ∷ bs else b ∷ rest

abbrev pub down_for : List (String × ℕ) → String → ℕ
down_for m a = elim (lookup a m) [ none ↦ 0 | some t ↦ t ]

abbrev pub if_empty : List String → List String → List String
if_empty [] ys = ys
if_empty (x ∷ xs) ys = x ∷ xs

-- The replicas that are not marked down, or all if every one is.
abbrev pub available : ℕ → List (String × ℕ) → List String → List String
available now down addresses = if_empty (keep (λ a. leb (down_for down a) now) addresses) addresses

-- `if existing`
abbrev pub usable : Option String → Option String
usable none = none
usable (some a) = if str_eq a "" then none else some a

-- `choose` is `random.choice`.
module _ (choose : List String → String) where
  unfoldable pub bind_new :
      Router → String → String → Option String → String → Router × Option String
  bind_new s agent request (some existing) chosen = (s, some existing)
  bind_new s agent request none chosen =
      (record s { affinities = bind_to request agent chosen s.affinities }, some chosen)

  unfoldable pub pick : ℕ → Router → String → String → Option (List String) → Router × Option String
  unfolding bind_new
  pick now s agent request none = (s, none)
  pick now s agent request (some []) = (s, none)
  pick now s agent request (some (a ∷ rest)) =
      let chosen = choose (available now s.down_until (a ∷ rest)) in
      if contains s.stateful agent && not (str_eq request "")
      then bind_new s agent request (usable (bound request agent s.affinities)) chosen
      else (s, some chosen)

  -- The table as it is read: again where it lacks the agent.
  abbrev pub refreshed : Router → String → Router
  refreshed s agent = elim (lookup agent s.routing) [ some found ↦ s | none ↦ load_routing s ]

  -- `_resolve_address`, with the clock's time; the empty request is none.
  unfoldable pub resolve_address : ℕ → Router → String → String → Router × Option String
  unfolding pick load_routing
  resolve_address now s agent request =
      let s' = refreshed s agent in pick now s' agent request (lookup agent s'.routing)

unfoldable pub bind_all : String → List (String × String) → List Binding → List Binding
bind_all request [] bs = bs
bind_all request (e ∷ m) bs = bind_all request m (bind_to request e.0 e.1 bs)

-- What `_process_request` does with the affinities in the baggage of a call.
unfoldable pub take_affinities : String → List (String × String) → Router → Router
unfolding bind_all
take_affinities request m s =
    if str_eq request "" then s else record s { affinities = bind_all request m s.affinities }

unfoldable pub unbind : String → List Binding → List Binding
unbind request bs = keep (λ b. not (str_eq b.request request)) bs

-- The end of `_cleanup_request`.
unfoldable pub clean_up : String → Router → Router
unfolding unbind
clean_up request s = record s { affinities = unbind request s.affinities }
