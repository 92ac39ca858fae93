-- ===== src/Calls/Forwards/Balance.antt =====
-- The count of unsent calls, and the retries of a call.
use canyonos.Prelude.{
  ℕ, suc, ◌+◌, ◌≤◌, ◌≡◌, refl, sym, ap, subst, ◌∙◌, false, not, ◌||◌, String, List, [], ◌∷◌, ◌++◌,
  arith, ltb, ◌==◌, length, All, Bool-cases, inl, inr, ltb-false,
}
use canyonos.Prelude.Int.{ℤ, pos, negsuc, ◌+ℤ◌}
use canyonos.Calls.Forwards.{
  forward_retries, Call, Forwards, Reply, taken, unavailable, too_slow, refused, is_pending,
  no_answer, retried, send_again, mark_failed, mark_down, count_unsent, forward_request, on_error,
  on_forwarded, resend, Step, sends, ends, replies, resends, Arrival, requested, settled,
}

-- A call that was retried, and not more than FORWARD_RETRIES times.
abbrev pub Tried : Call → Type 0
Tried c = (1 ≤ c.retries) × (c.retries ≤ forward_retries)

-- A call that waits for a resend is not on its first retry.
abbrev pub Delayed : Call → Type 0
Delayed c = (2 ≤ c.retries) × (c.retries ≤ forward_retries)

-- `_unsent` is the number of calls under way or waiting for a resend, and those that wait are on
-- their second retry or a later one, up to FORWARD_RETRIES.
pub record Balanced (s : Forwards) : Type 0 where
  pub counted : s.unsent ≡ pos (length s.in_flight + length s.waiting)
  pub delayed : All Delayed s.waiting

-- As `Balanced`, with one call more in the count: the one that a callback has in hand.
pub record Holding (s : Forwards) : Type 0 where
  pub counted : s.unsent ≡ pos (suc (length s.in_flight + length s.waiting))
  pub delayed : All Delayed s.waiting

up : (z : ℤ) (n : ℕ) → z ≡ pos n → z +ℤ pos 1 ≡ pos (suc n)
unfolding ◌+ℤ◌
up z n h = ground (arith, h)

down : (z : ℤ) (n : ℕ) → z ≡ pos (suc n) → z +ℤ negsuc 0 ≡ pos n
unfolding ◌+ℤ◌
down z n h = ground (arith, h)

module _ {A : Type 0} where
  length-middle :
      (xs : List A) (x : A) (ys : List A) → length (xs ++ x ∷ ys) ≡ suc (length (xs ++ ys))
  length-middle [] x ys = refl
  length-middle (z ∷ xs) x ys = ap suc (length-middle xs x ys)

  pub All-middle :
      (P : A → Type 0) (xs : List A) (x : A) (ys : List A)
      → All P (xs ++ x ∷ ys)
      → P x × All P (xs ++ ys)
  All-middle P [] x ys h = h
  All-middle P (z ∷ xs) x ys h = let r = All-middle P xs x ys h.1 in (r.0, (h.0, r.1))

release : (s : Forwards) → Holding s → Balanced (count_unsent (negsuc 0) s)
release s h = record { counted = down _ _ h.counted; delayed = h.delayed }

send_again-Balanced : (c : Call) (s : Forwards) → Tried c → Holding s → Balanced (send_again c s)
send_again-Balanced c s t h = elim (Bool-cases (c.retries == 1)) [
  | inl e ↦ rw e (release _ (record { counted = h.counted; delayed = h.delayed }))
  | inr e ↦ rw e (record {
    counted = h.counted ∙ ap pos (omega arith);
    delayed = ((ground (arith, t.0, e), t.1), h.delayed);
  })
]

retried-Tried :
    (r : Reply) (c : Call) → ltb forward_retries (suc c.retries) ≡ false → Tried (retried r c)
retried-Tried taken c h = (omega arith, ltb-false _ _ h)
retried-Tried unavailable c h = (omega arith, ltb-false _ _ h)
retried-Tried too_slow c h = (omega arith, ltb-false _ _ h)
retried-Tried refused c h = (omega arith, ltb-false _ _ h)

failed-Holding : (c : Call) (s : Forwards) → Holding s → Holding (mark_failed c s)
failed-Holding c s h = record { counted = h.counted; delayed = h.delayed }

down-Holding : (a : String) (now : ℕ) (s : Forwards) → Holding s → Holding (mark_down a now s)
down-Holding a now s h = record { counted = h.counted; delayed = h.delayed }

on_error-Balanced :
    (r : Reply) (now : ℕ) (a : String) (c : Call) (s : Forwards)
    → Holding s
    → Balanced (on_error r now a c s)
unfolding on_error
on_error-Balanced r now a c s h =
    elim (Bool-cases (not (no_answer r) || ltb forward_retries (suc c.retries))) [
      | inl e ↦ rw e (release _ (failed-Holding c s h))
      | inr e ↦
          let tried = retried-Tried r c (ground (arith, e)) in
          elim (Bool-cases (is_pending c.future_id s.forwarded)) [
            | inl p ↦
                rw e (rw p (send_again-Balanced (retried r c) _ tried (down-Holding a now s h)))
            | inr p ↦ rw e (rw p (release _ (down-Holding a now s h)))
          ]
    ]

on_forwarded-Balanced :
    (r : Reply) (now : ℕ) (a : String) (c : Call) (s : Forwards)
    → Holding s
    → Balanced (on_forwarded r now a c s)
unfolding on_forwarded
on_forwarded-Balanced taken now a c s h = release s h
on_forwarded-Balanced r now a c s h = on_error-Balanced r now a c s h

resend-Balanced : (c : Call) (s : Forwards) → Holding s → Balanced (resend c s)
unfolding resend
resend-Balanced c s h = elim (Bool-cases (is_pending c.future_id s.forwarded)) [
  | inl e ↦ rw e (release _ (record { counted = h.counted; delayed = h.delayed }))
  | inr e ↦ rw e (release s h)
]

-- Every step of the calls keeps the count of unsent calls exact.
pub Step-Balanced : {s t : Forwards} → Step s t → Balanced s → Balanced t
unfolding forward_request
Step-Balanced {s} (sends c rest a q e) h =
    subst Balanced (sym e)
      (record { counted = up _ _ h.counted ∙ ap pos (omega arith); delayed = h.delayed })
Step-Balanced (ends c rest q e) h =
    subst Balanced (sym e) (record { counted = h.counted; delayed = h.delayed })
Step-Balanced {s} (replies before after f r now q e) h = subst Balanced (sym e) (
    on_forwarded-Balanced r now f.address f.call _ (record {
      counted = h.counted ∙ ap pos (omega (arith, ap length q, length-middle before f after));
      delayed = h.delayed;
    }))
Step-Balanced {s} (resends before after c q e) h =
    let all = All-middle Delayed before c after (subst (All Delayed) q h.delayed) in
    subst Balanced (sym e) (
      resend-Balanced c _ (record {
        counted = h.counted ∙ ap pos (omega (arith, ap length q, length-middle before c after));
        delayed = all.1;
      }))

Arrival-Balanced : {s t : Forwards} → Arrival s t → Balanced s → Balanced t
Arrival-Balanced {s} (requested c e) h =
    subst Balanced (sym e) (record { counted = h.counted; delayed = h.delayed })
Arrival-Balanced (settled id e) h =
    subst Balanced (sym e) (record { counted = h.counted; delayed = h.delayed })

abbrev pub idle : Forwards
idle = record {
  queue = [];
  in_flight = [];
  waiting = [];
  unsent = pos 0;
  forwarded = [];
  down_until = [];
  failed = [];
}

-- The states that steps and arrivals lead to from the start.
pub data Reached : Forwards → Type 0 where
  start : Reached idle
  steps : {s t : Forwards} → Reached s → Step s t → Reached t
  receives : {s t : Forwards} → Reached s → Arrival s t → Reached t

-- In every state that is reached, `_unsent` is the number of calls that are under way or wait for a
-- resend, and those that wait are on their second retry or a later one, up to FORWARD_RETRIES. A
-- request arrives with any number of retries in its payload.
pub Reached-Balanced : {s : Forwards} → Reached s → Balanced s
Reached-Balanced start = record { counted = refl; delayed = tt }
Reached-Balanced (steps r p) = Step-Balanced p (Reached-Balanced r)
Reached-Balanced (receives r p) = Arrival-Balanced p (Reached-Balanced r)
