-- ===== src/Calls/Forwards/Progress.antt =====
-- Every call that is sent on is settled after a bounded number of steps.
use canyonos.Prelude.{
  ℕ, suc, ◌+◌, ◌-◌, ◌*◌, ◌≤◌, ◌<◌, ◌≡◌, refl, ap, ◌∙◌, false, not, ◌||◌, String, List, [], ◌∷◌,
  ◌++◌, arith, ltb, ◌==◌, length, Bool-cases, inl, inr, ltb-false,
}
use canyonos.Prelude.Int.{pos}
use canyonos.Calls.Forwards.{
  forward_retries, Call, Flight, Forwards, Reply, taken, unavailable, too_slow, refused, is_pending,
  no_answer, retried, send_again, mark_down, forward_request, on_error, on_forwarded, resend, Step,
  sends, ends, replies, resends,
}
use canyonos.Calls.Forwards.Balance.{Balanced, Step-Balanced, Reached, Reached-Balanced}

-- The attempts that a call has left.
abbrev left : Call → ℕ
left c = suc forward_retries - c.retries

module _ {A : Type 0} (weight : A → ℕ) where
  abbrev weigh : List A → ℕ
  weigh [] = 0
  weigh (x ∷ xs) = weight x + weigh xs

  weigh-last : (xs : List A) (x : A) → weigh (xs ++ x ∷ []) ≡ weigh xs + weight x
  weigh-last [] x = omega arith
  weigh-last (y ∷ xs) x = omega (arith, weigh-last xs x)

  weigh-middle :
      (xs : List A) (x : A) (ys : List A) → weigh (xs ++ x ∷ ys) ≡ weight x + weigh (xs ++ ys)
  weigh-middle [] x ys = refl
  weigh-middle (y ∷ xs) x ys = omega (arith, weigh-middle xs x ys)

  weigh-bound : (k : ℕ) (xs : List A) → ((x : A) → weight x ≤ k) → weigh xs ≤ k * length xs
  weigh-bound k [] h = omega arith
  weigh-bound k (x ∷ xs) h = grind (arith, h x, weigh-bound k xs h)

-- A call moves from the queue to the wire, and from there to a timer or the queue with an attempt
-- less.
abbrev queued_weight : Call → ℕ
queued_weight c = 3 * left c + 2

abbrev flight_weight : Flight → ℕ
flight_weight f = 3 * left f.call + 1

abbrev delayed_weight : Call → ℕ
delayed_weight c = 3 * left c + 3

abbrev steps_left : Forwards → ℕ
steps_left s =
    weigh queued_weight s.queue + weigh flight_weight s.in_flight + weigh delayed_weight s.waiting

send_again-steps :
    (c : Call) (s : Forwards) → steps_left (send_again c s) ≤ steps_left s + delayed_weight c
send_again-steps c s = elim (Bool-cases (c.retries == 1)) [
  | inl e ↦ rw e (omega (arith, weigh-last queued_weight s.queue c))
  | inr e ↦ rw e (omega arith)
]

retried-left :
    (r : Reply) (c : Call)
    → ltb forward_retries (suc c.retries) ≡ false
    → delayed_weight (retried r c) < 3 * left c + 1
retried-left taken c h = omega (arith, ltb-false _ _ h)
retried-left unavailable c h = omega (arith, ltb-false _ _ h)
retried-left too_slow c h = omega (arith, ltb-false _ _ h)
retried-left refused c h = omega (arith, ltb-false _ _ h)

on_error-steps :
    (r : Reply) (now : ℕ) (a : String) (c : Call) (s : Forwards)
    → steps_left (on_error r now a c s) < steps_left s + (3 * left c + 1)
unfolding on_error
on_error-steps r now a c s =
    elim (Bool-cases (not (no_answer r) || ltb forward_retries (suc c.retries))) [
      | inl e ↦ rw e (omega arith)
      | inr e ↦
          let tried = retried-left r c (ground (arith, e)) in
          elim (Bool-cases (is_pending c.future_id s.forwarded)) [
            | inl p ↦
                rw e
                  (rw p (omega (arith, tried, send_again-steps (retried r c) (mark_down a now s))))
            | inr p ↦ rw e (rw p (omega arith))
          ]
    ]

on_forwarded-steps :
    (r : Reply) (now : ℕ) (a : String) (c : Call) (s : Forwards)
    → steps_left (on_forwarded r now a c s) < steps_left s + (3 * left c + 1)
unfolding on_forwarded
on_forwarded-steps taken now a c s = omega arith
on_forwarded-steps r now a c s = on_error-steps r now a c s

resend-steps : (c : Call) (s : Forwards) → steps_left (resend c s) < steps_left s + delayed_weight c
unfolding resend
resend-steps c s = elim (Bool-cases (is_pending c.future_id s.forwarded)) [
  | inl e ↦ rw e (omega (arith, weigh-last queued_weight s.queue c))
  | inr e ↦ rw e (omega arith)
]

Step-steps : {s t : Forwards} → Step s t → Balanced s → steps_left t < steps_left s
unfolding forward_request
Step-steps {s} (sends c rest a q e) h = rw e (omega (arith, ap (weigh queued_weight) q))
Step-steps {s} (ends c rest q e) h = rw e (omega (arith, ap (weigh queued_weight) q))
Step-steps {s} (replies before after f r now q e) h = rw e (
    omega (
      arith,
      on_forwarded-steps r now f.address f.call (record s { in_flight = before ++ after }),
      ap (weigh flight_weight) q,
      weigh-middle flight_weight before f after,
    ))
Step-steps {s} (resends before after c q e) h = rw e (
    omega (
      arith,
      resend-steps c (record s { waiting = before ++ after }),
      ap (weigh delayed_weight) q,
      weigh-middle delayed_weight before c after,
    ))

-- A number of steps with nothing arriving between them.
pub data Run : Forwards → ℕ → Forwards → Type 0 where
  rest : {s : Forwards} → Run s 0 s
  moves : {s t u : Forwards} {n : ℕ} → Step s t → Run t n u → Run s (suc n) u

Run-steps :
    {s u : Forwards} {n : ℕ}
    → Run s n u
    → Balanced s
    → (n + steps_left u ≤ steps_left s) × Balanced u
Run-steps rest h = (omega arith, h)
Run-steps (moves p r) h =
    let t = Run-steps r (Step-Balanced p h) in (omega (arith, t.0, Step-steps p h), t.1)

abbrev pub IsStuck : Forwards → Type 0
IsStuck s = (t : Forwards) → Step s t → ⊥

-- Nothing is queued, under way or waiting, and nothing is counted as unsent.
pub record IsQuiet (s : Forwards) : Type 0 where
  pub queue : s.queue ≡ []
  pub in_flight : s.in_flight ≡ []
  pub waiting : s.waiting ≡ []
  pub unsent : s.unsent ≡ pos 0

stuck_queue : (s : Forwards) → IsStuck s → (q : List Call) → s.queue ≡ q → s.queue ≡ []
stuck_queue s k [] e = e
stuck_queue s k (c ∷ q) e = absurd (k _ (ends c q e refl))

stuck_flight : (s : Forwards) → IsStuck s → (q : List Flight) → s.in_flight ≡ q → s.in_flight ≡ []
stuck_flight s k [] e = e
stuck_flight s k (f ∷ q) e = absurd (k _ (replies [] q f taken 0 e refl))

stuck_waiting : (s : Forwards) → IsStuck s → (q : List Call) → s.waiting ≡ q → s.waiting ≡ []
stuck_waiting s k [] e = e
stuck_waiting s k (c ∷ q) e = absurd (k _ (resends [] q c e refl))

IsStuck-IsQuiet : (s : Forwards) → IsStuck s → Balanced s → IsQuiet s
IsStuck-IsQuiet s k b =
    let f = stuck_flight s k s.in_flight refl in
    let w = stuck_waiting s k s.waiting refl in
    record {
      queue = stuck_queue s k s.queue refl;
      in_flight = f;
      waiting = w;
      unsent = b.counted ∙ ap pos (omega (arith, ap length f, ap length w));
    }

-- While nothing arrives, a run from a state that is reached takes at most 30 steps for each call
-- that is queued, under way or waiting, whatever retries its payload states, and a run that can take no further step has left none of
-- these and none counted as unsent.
pub Run-Settles :
    {s u : Forwards} {n : ℕ}
    → Reached s
    → Run s n u
    → (n ≤ 30 * (length s.queue + length s.in_flight + length s.waiting)) × (IsStuck u → IsQuiet u)
Run-Settles {s} {u} r run =
    let t = Run-steps run (Reached-Balanced r) in
    (
      omega (
        arith,
        t.0,
        weigh-bound queued_weight 30 s.queue (λ c. omega arith),
        weigh-bound flight_weight 30 s.in_flight (λ f. omega arith),
        weigh-bound delayed_weight 30 s.waiting (λ c. omega arith),
      ),
      λ k. IsStuck-IsQuiet u k t.1,
    )
