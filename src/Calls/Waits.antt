-- ===== src/Calls/Waits.antt =====
-- `wait_for_result` of controller/future.py: a caller waits until the record of a future has a
-- result or an error.
pub mod Ends
use canyonos.Prelude.{
  ℕ, zero, suc, ◌+◌, ◌≤◌, ◌<◌, ◌≡◌, refl, subst, ◌⊎◌, Bool, true, false, String, Option, none, some,
  str_eq, leb, ◌==◌, if◌then◌else◌, arith, Bool-cases, Option-cases, inl, inr,
}

-- What the reads of one round find: `error`, `failed`, `error` again where it failed, and `result`.
pub record Look : Type 0 where
  pub error : Option String
  pub failed : String
  pub late_error : Option String
  pub result : Option String

pub data Outcome : Type 0 where
  returned : String → Outcome
  raised : String → Outcome
  timed_out : Outcome

abbrev pub if_text : Option String → Option String
if_text none = none
if_text (some s) = if str_eq s "" then none else some s

-- `error or redis.hget(key, "error") or "Unknown error"`
abbrev pub message : Option String → Option String → String
message (some e) late = e
message none (some e) = e
message none none = "Unknown error"

-- The branches of a round, on what its reads come to.
abbrev pub judge : Option String → Bool → Option String → Option String → Option Outcome
judge (some e) failed late result = some (raised e)
judge none true late result = some (raised (message none late))
judge none false late none = none
judge none false late (some r) = some (returned r)

-- What a round that finds the future settled ends with.
unfoldable pub settles : Look → Option Outcome
settles v = judge (if_text v.error) (str_eq v.failed "1") (if_text v.late_error) v.result

-- `wait <= 0`, the deadline being reached.
abbrev pub is_over : Option ℕ → ℕ → Bool
is_over none now = false
is_over (some deadline) now = leb deadline now

-- The rounds from a number on, with what each finds and the time when it ends; the last outcome is
-- for running out of fuel.
unfoldable pub rounds_from : ℕ → ℕ → (ℕ → Look) → (ℕ → ℕ) → Option ℕ → Option Outcome
unfolding settles
rounds_from zero i look clock deadline = none
rounds_from (suc fuel) i look clock deadline = elim (settles (look i)) [
  | some o ↦ some o
  | none ↦
      if is_over deadline (clock i)
      then some timed_out
      else rounds_from fuel (suc i) look clock deadline
]

-- `wait_for_result`
unfoldable pub wait_for_result : ℕ → (ℕ → Look) → (ℕ → ℕ) → Option ℕ → Option Outcome
unfolding rounds_from
wait_for_result fuel look clock deadline = rounds_from fuel 0 look clock deadline

module _ (look : ℕ → Look) (clock : ℕ → ℕ) (deadline : Option ℕ) where
  -- Round `i` is the first to find the future settled, with this outcome, or the first after the
  -- deadline, and then the wait has timed out.
  abbrev pub EndsAt : ℕ → Outcome → Type 0
  EndsAt i o =
      (settles (look i) ≡ some o)
      ⊎ ((settles (look i) ≡ none) × (is_over deadline (clock i) ≡ true) × (o ≡ timed_out))

  abbrev pub GoesOn : ℕ → Type 0
  GoesOn i = (settles (look i) ≡ none) × (is_over deadline (clock i) ≡ false)

  -- The wait from round `i` on ends at a round up to `last`, and goes on in those before.
  abbrev pub EndsWithin : ℕ → ℕ → Option Outcome → Type 0
  EndsWithin i last result =
      (o : Outcome) × (result ≡ some o)
      × (j : ℕ) × (i ≤ j)
      × (j ≤ last)
      × EndsAt j o
      × ((k : ℕ) → i ≤ k → k < j → GoesOn k)

  ends_now :
      (fuel i last : ℕ) (o : Outcome)
      → i ≤ last
      → EndsAt i o
      → EndsWithin i last (rounds_from (suc fuel) i look clock deadline)
  unfolding rounds_from
  ends_now fuel i last o l (inl e) =
      (o, rw (e, rounds_from) refl, i, omega arith, l, inl e, λ k p q. absurd (omega (arith, p, q)))
  ends_now fuel i last o l (inr (e, over, t)) = (
    timed_out,
    rw (e, rounds_from) (rw over refl),
    i,
    omega arith,
    l,
    inr (e, over, refl),
    λ k p q. absurd (omega (arith, p, q)),
  )

  -- A round either ends the wait or goes on.
  round_cases : (i : ℕ) → ((o : Outcome) × EndsAt i o) ⊎ GoesOn i
  round_cases i = elim (Option-cases (settles (look i))) [
    | inr (o, e) ↦ inl (o, inl e)
    | inl e ↦ elim (Bool-cases (is_over deadline (clock i))) [
      | inl over ↦ inl (timed_out, inr (e, over, refl))
      | inr ahead ↦ inr (e, ahead)
    ]
  ]

  ended-GoesOn : (i : ℕ) (o : Outcome) → EndsAt i o → GoesOn i → ⊥
  ended-GoesOn i o (inl e) g = cc (e, g.0)
  ended-GoesOn i o (inr (e, over, t)) g = cc (over, g.1)

  goes_on :
      (fuel i last : ℕ)
      → GoesOn i
      → EndsWithin (suc i) last (rounds_from (suc fuel) (suc i) look clock deadline)
      → EndsWithin i last (rounds_from (suc (suc fuel)) i look clock deadline)
  goes_on fuel i last g (o, e, j, p, l, at, before) = (
    o,
    unfold rounds_from in rw (g.0, rounds_from) (rw g.1 e),
    j,
    omega (arith, p),
    l,
    at,
    λ k q r. elim (Bool-cases (k == i)) [
      | inl same ↦ let eq : i ≡ k = ground (arith, same) in subst GoesOn eq g
      | inr other ↦ before k (ground (arith, other, q)) r
    ],
  )

  rounds_end :
      (fuel i last : ℕ)
      → i + fuel ≡ last
      → (o : Outcome) × EndsAt last o
      → EndsWithin i last (rounds_from (suc fuel) i look clock deadline)
  rounds_end zero i last s (o, e) = elim (round_cases i) [
    | inl (q, f) ↦ ends_now 0 i last q (omega (arith, s)) f
    | inr g ↦
        let same : last ≡ i = omega (arith, s) in
        absurd (ended-GoesOn i o (subst (λ n. EndsAt n o) same e) g)
  ]
  rounds_end (suc fuel) i last s e = elim (round_cases i) [
    | inl (q, f) ↦ ends_now (suc fuel) i last q (omega (arith, s)) f
    | inr g ↦ goes_on fuel i last g (rounds_end fuel (suc i) last (omega (arith, s)) e)
  ]

  pub wait_for_result-EndsWithin :
      (last : ℕ)
      → (o : Outcome) × EndsAt last o
      → EndsWithin 0 last (wait_for_result (suc last) look clock deadline)
  unfolding wait_for_result
  wait_for_result-EndsWithin last e = rounds_end last 0 last (omega arith) e
