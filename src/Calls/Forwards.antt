-- ===== src/Calls/Forwards.antt =====
-- Calls that are sent on to another replica: `_forward_request`, `_on_forwarded`, `_resend` and
-- `_count_unsent`, with the part of `_fan_out_to_consumers` that forgets a settled call.
pub mod Balance
pub mod Progress
use canyonos.Prelude.{
  ℕ, suc, ◌+◌, ◌*◌, ◌^◌, ◌≡◌, Bool, true, false, not, ◌&&◌, ◌||◌, String, List, [], ◌∷◌, ◌++◌,
  Option, none, some, str_eq, ltb, ◌==◌, if◌then◌else◌, keep, any,
}
use canyonos.Prelude.Int.{ℤ, pos, negsuc, ◌+ℤ◌}

abbrev pub forward_retries : ℕ
forward_retries = 8

abbrev pub microseconds : ℕ
microseconds = 1000000

abbrev pub replica_down_seconds : ℕ
replica_down_seconds = 30

-- What forwarding reads and writes of a request.
pub record Call : Type 0 where
  pub future_id : String
  pub route_to : Option String
  pub retries : ℕ

-- A request under way to an address.
pub record Flight : Type 0 where
  pub address : String
  pub call : Call

-- `queue` is the request queue, `waiting` has the calls whose timer for a resend runs, `failed` the
-- futures that were marked failed.
pub record Forwards : Type 0 where
  pub queue : List Call
  pub in_flight : List Flight
  pub waiting : List Call
  pub unsent : ℤ
  pub forwarded : List (String × String)
  pub down_until : List (String × ℕ)
  pub failed : List String

-- What the RPC ends with: no error, UNAVAILABLE, DEADLINE_EXCEEDED, or another error.
pub data Reply : Type 0 where
  taken unavailable too_slow refused : Reply

abbrev pub is_pending : String → List (String × String) → Bool
is_pending id m = any (λ e. str_eq e.0 id) m

abbrev pub forget_call : String → List (String × String) → List (String × String)
forget_call id m = keep (λ e. not (str_eq e.0 id)) m

abbrev pub put_call : String → String → List (String × String) → List (String × String)
put_call id address m = (id, address) ∷ forget_call id m

-- `_count_unsent`
abbrev pub count_unsent : ℤ → Forwards → Forwards
count_unsent change s = record s { unsent = s.unsent +ℤ change }

-- `_forward_request`
unfoldable pub forward_request : String → Call → Forwards → Forwards
forward_request address c s =
    let sent = record c { route_to = some address } in
    count_unsent (pos 1) (record s {
      forwarded = put_call c.future_id address s.forwarded;
      in_flight = record { address = address; call = sent } ∷ s.in_flight;
    })

-- What marking the call failed changes here.
abbrev pub mark_failed : Call → Forwards → Forwards
mark_failed c s = record s {
  failed = c.future_id ∷ s.failed;
  forwarded = forget_call c.future_id s.forwarded;
}

abbrev pub mark_down : String → ℕ → Forwards → Forwards
mark_down address now s = record s {
  down_until = (address, now + replica_down_seconds * microseconds) ∷ s.down_until;
}

abbrev pub no_answer : Reply → Bool
no_answer unavailable = true
no_answer too_slow = true
no_answer _ = false

-- A request that was never reached is routed again.
abbrev pub unpinned : Reply → Call → Call
unpinned unavailable c = record c { route_to = none }
unpinned r c = c

abbrev pub retried : Reply → Call → Call
retried r c = unpinned r (record c { retries = suc c.retries })

-- The first retry goes out at once, a later one when its timer ends.
abbrev pub send_again : Call → Forwards → Forwards
send_again c s =
    if c.retries == 1
    then count_unsent (negsuc 0) (record s { queue = s.queue ++ c ∷ [] })
    else record s { waiting = c ∷ s.waiting }

-- `_on_forwarded` after an error.
unfoldable pub on_error : Reply → ℕ → String → Call → Forwards → Forwards
on_error r now address c s =
    if not (no_answer r) || ltb forward_retries (suc c.retries)
    then count_unsent (negsuc 0) (mark_failed c s)
    else if not (is_pending c.future_id s.forwarded)
    then count_unsent (negsuc 0) (mark_down address now s)
    else send_again (retried r c) (mark_down address now s)

-- `_on_forwarded`
unfoldable pub on_forwarded : Reply → ℕ → String → Call → Forwards → Forwards
unfolding on_error
on_forwarded taken now address c s = count_unsent (negsuc 0) s
on_forwarded r now address c s = on_error r now address c s

-- `_resend`
unfoldable pub resend : Call → Forwards → Forwards
resend c s =
    count_unsent (negsuc 0)
      (if is_pending c.future_id s.forwarded then record s { queue = s.queue ++ c ∷ [] } else s)

-- What happens to the calls: the controller takes one off the queue and sends it on or settles it
-- here, an RPC ends, or a timer does.
pub data Step : Forwards → Forwards → Type 0 where
  sends :
      {s t : Forwards} (c : Call) (rest : List Call) (address : String)
      → s.queue ≡ c ∷ rest
      → t ≡ forward_request address c (record s { queue = rest })
      → Step s t
  ends :
      {s t : Forwards} (c : Call) (rest : List Call)
      → s.queue ≡ c ∷ rest
      → t ≡ record s { queue = rest }
      → Step s t
  replies :
      {s t : Forwards} (before after : List Flight) (f : Flight) (r : Reply) (now : ℕ)
      → s.in_flight ≡ before ++ f ∷ after
      → t ≡ on_forwarded r now f.address f.call (record s { in_flight = before ++ after })
      → Step s t
  resends :
      {s t : Forwards} (before after : List Call) (c : Call)
      → s.waiting ≡ before ++ c ∷ after
      → t ≡ resend c (record s { waiting = before ++ after })
      → Step s t

-- What comes from elsewhere: a request, with the retries that its payload states, or the result of a
-- call.
pub data Arrival : Forwards → Forwards → Type 0 where
  requested : {s t : Forwards} (c : Call) → t ≡ record s { queue = s.queue ++ c ∷ [] } → Arrival s t
  settled :
      {s t : Forwards} (id : String)
      → t ≡ record s { forwarded = forget_call id s.forwarded }
      → Arrival s t
