-- ===== src/Calls/Execute.antt =====
-- `Execute` of controller/local_controller_frontend.py, with `_already_accepted`, and `_admit` of
-- the local controller: which calls that other controllers send are put on the queue.
pub mod Keys
pub mod Accepted
pub mod Fates
pub mod Exact
use canyonos.Prelude.{
  ℕ, ◌+◌, ◌*◌, Bool, true, false, ◌&&◌, ◌||◌, not, String, List, [], ◌∷◌, ◌++◌, Option, none, some,
  ltb, if◌then◌else◌, lookup,
}
use canyonos.Governance.{Rules, Refusal, refuse_call}
use canyonos.Calls.Waits.{if_text}

-- The fields of a call that `Execute` reads, and whether `route_to` is one of them.
pub record Payload : Type 0 where
  pub service : Option String
  pub function : Option String
  pub future_id : Option String
  pub has_route : Bool

-- What the text of a request is.
pub data Request : Type 0 where
  not_json : Request
  not_object : Request
  object : Payload → Request

-- A request with what `Execute` finds when it arrives: the time, whether Redis answers to `set`, the
-- flag `refusing`, whether `admit` is set, which is after the server has started, the rules, and the context that is read for it, where the read does not fail.
pub record Arrival (V : Type 0) : Type 0 where
  pub request : Request
  pub at : ℕ
  pub redis_up : Bool
  pub refusing : Bool
  pub admits : Bool
  pub rules : Rules V
  pub context : Option (List (String × V))

-- The keys `execute:<address>:<future>:accepted` with the times when they expire, every request
-- that was put on the queue, and the futures that `_admit` failed.
pub record Frontend (V : Type 0) : Type 0 where
  pub accepted : List (String × ℕ)
  pub queue : List (Arrival V)
  pub failures : List (Option String × Refusal)

abbrev pub empty_frontend : (V : Type 0) → Frontend V
empty_frontend V = record { accepted = []; queue = []; failures = [] }

-- A duplicate gets the same answer as a request that is queued.
pub data Response : Type 0 where
  queued : Response
  aborted : Response
  refused : Refusal → Response
  raised : Response

-- EXECUTE_DEDUP_TTL_SECONDS, in microseconds
abbrev pub dedup_ttl : ℕ
dedup_ttl = 3600 * 1000000

abbrev pub is_forwarded : Request → Bool
is_forwarded (object p) = p.has_route
is_forwarded r = false

abbrev pub future_of : Request → Option String
future_of (object p) = if_text p.future_id
future_of r = none

abbrev pub is_live : Option ℕ → ℕ → Bool
is_live none now = false
is_live (some expiry) now = ltb now expiry

-- `set(key, "1", nx=True, ex=EXECUTE_DEDUP_TTL_SECONDS)`: nothing where the key is there.
unfoldable pub claim_key : Option String → ℕ → List (String × ℕ) → Option (List (String × ℕ))
claim_key none now keys = some keys
claim_key (some f) now keys =
    if is_live (lookup f keys) now then none else some ((f, now + dedup_ttl) ∷ keys)

module _ {V : Type 0} where
  -- The future whose key is claimed; without an answer from Redis the check is left out.
  abbrev pub key_of : Arrival V → Option String
  key_of a = if a.redis_up then future_of a.request else none

  -- `_already_accepted`: nothing for a duplicate, or else the keys after it.
  unfoldable pub unless_accepted : Arrival V → List (String × ℕ) → Option (List (String × ℕ))
  unfolding claim_key
  unless_accepted a keys = claim_key (key_of a) a.at keys

module _ {V : Type 0} (same : Option V → V → Bool) where
  abbrev pub verdict : Rules V → String → Option (List (String × V)) → Option (Option Refusal)
  verdict rules agent none = none
  verdict rules agent (some c) = some (refuse_call same rules agent c)

  abbrev pub refusal_of :
      Option String → Option String → Option String → Arrival V → Option (Option Refusal)
  refusal_of (some agent) (some function) (some future) a = verdict a.rules agent a.context
  refusal_of agent function future a = some none

  -- `_admit`: no result where the context cannot be read.
  unfoldable pub admit : Payload → Arrival V → Option (Option Refusal)
  unfolding refuse_call
  admit p a = refusal_of (if_text p.service) (if_text p.function) (if_text p.future_id) a

  abbrev pub enqueue : Arrival V → Frontend V → Frontend V
  enqueue a s = record s { queue = s.queue ++ (a ∷ []) }

  abbrev pub answer :
      Option String → Arrival V → Frontend V → Option (Option Refusal) → Frontend V × Response
  answer future a s none = (s, raised)
  answer future a s (some none) = (enqueue a s, queued)
  answer future a s (some (some r)) = (record s { failures = (future, r) ∷ s.failures }, refused r)

  -- A call's first hop is admitted, once `admit` is set; what is forwarded, or not a call, is put on the queue.
  abbrev pub take_in : Request → Arrival V → Frontend V → Frontend V × Response
  take_in (object p) a s =
      if p.has_route || not a.admits
      then (enqueue a s, queued)
      else answer p.future_id a s (admit p a)
  take_in r a s = (enqueue a s, queued)

  -- `Execute`
  unfoldable pub execute : Arrival V → Frontend V → Frontend V × Response
  unfolding unless_accepted admit
  execute a s =
      if a.refusing && is_forwarded a.request
      then (s, aborted)
      else elim (unless_accepted a s.accepted) [
        | none ↦ (s, queued)
        | some keys ↦ take_in a.request a (record s { accepted = keys })
      ]

  -- The requests of a list one after another.
  unfoldable pub execute_all : List (Arrival V) → Frontend V → Frontend V
  unfolding execute
  execute_all [] s = s
  execute_all (a ∷ rest) s = execute_all rest (execute a s).0
