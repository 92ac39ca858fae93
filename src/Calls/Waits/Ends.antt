-- ===== src/Calls/Waits/Ends.antt =====
-- When `wait_for_result` ends, and with what, in terms of the fields that its rounds read.
use canyonos.Prelude.{
  ℕ, suc, ◌≤◌, ◌<◌, ◌≡◌, ◌≢◌, refl, subst, ◌⊎◌, Bool, true, false, String, Option, none, some,
  str_eq, eq_iff, arith, Bool-cases, inl, inr,
}
use canyonos.Calls.Waits.{
  Look, Outcome, returned, raised, timed_out, if_text, judge, settles, is_over, wait_for_result,
  EndsAt, GoesOn, wait_for_result-EndsWithin,
}

-- A field of the record has a text; `none` and the empty text are none.
abbrev pub Says : Option String → String → Type 0
Says o e = (o ≡ some e) × (e ≢ "")

abbrev pub SaysNothing : Option String → Type 0
SaysNothing o = (o ≡ none) ⊎ (o ≡ some "")

-- A round finds the future settled: an error is recorded; or the call failed, with an error that is
-- read by then or none; or there is a result.
pub data Finds (v : Look) : Outcome → Type 0 where
  finds_error : {e : String} → Says v.error e → Finds v (raised e)
  finds_late :
      {e : String} → SaysNothing v.error → v.failed ≡ "1" → Says v.late_error e → Finds v (raised e)
  finds_failed :
      SaysNothing v.error
      → v.failed ≡ "1"
      → SaysNothing v.late_error
      → Finds v (raised "Unknown error")
  finds_result :
      {r : String} → SaysNothing v.error → v.failed ≢ "1" → v.result ≡ some r → Finds v (returned r)

-- A round finds no error, no failure and no result.
pub record FindsNothing (v : Look) : Type 0 where
  pub error : SaysNothing v.error
  pub failed : v.failed ≢ "1"
  pub result : v.result ≡ none

-- The deadline is reached.
abbrev pub IsLate : Option ℕ → ℕ → Type 0
IsLate deadline now = (d : ℕ) × (deadline ≡ some d) × (d ≤ now)

some_same : {a b : Outcome} → some a ≡ some b → a ≡ b
some_same e = cc e

if_text-none : (o : Option String) → if_text o ≡ none → SaysNothing o
if_text-none none h = inl refl
if_text-none (some s) h = inr (ground (arith, h, eq_iff s ""))

if_text-some : (o : Option String) {e : String} → if_text o ≡ some e → Says o e
if_text-some none h = cc
if_text-some (some s) h = (ground (arith, h), λ b. ground (arith, h, b, eq_iff s ""))

SaysNothing-none : (o : Option String) → SaysNothing o → if_text o ≡ none
SaysNothing-none o (inl e) = rw e refl
SaysNothing-none o (inr e) = rw e refl

Says-some : (o : Option String) {e : String} → Says o e → if_text o ≡ some e
Says-some o {e} (h, n) = rw h (ground (arith, n, eq_iff e ""))

is_failed : (s : String) → str_eq s "1" ≡ true → s ≡ "1"
is_failed s h = ground (arith, h, eq_iff s "1")

pub not_failed : (s : String) → str_eq s "1" ≡ false → s ≢ "1"
not_failed s h e = ground (arith, h, e, eq_iff s "1")

judge-Finds :
    (v : Look) {o : Outcome} (error : Option String) (failed : Bool) (late result : Option String)
    → if_text v.error ≡ error
    → str_eq v.failed "1" ≡ failed
    → if_text v.late_error ≡ late
    → v.result ≡ result
    → judge error failed late result ≡ some o
    → Finds v o
judge-Finds v (some e) failed late result he hf hl hr h =
    subst (Finds v) (some_same h) (finds_error (if_text-some v.error he))
judge-Finds v none true (some e) result he hf hl hr h =
    subst (Finds v) (some_same h)
      (finds_late (if_text-none v.error he) (is_failed v.failed hf) (if_text-some v.late_error hl))
judge-Finds v none true none result he hf hl hr h =
    subst (Finds v) (some_same h) (
      finds_failed (if_text-none v.error he) (is_failed v.failed hf) (if_text-none v.late_error hl))
judge-Finds v none false late none he hf hl hr h = absurd (cc h)
judge-Finds v none false late (some r) he hf hl hr h =
    subst (Finds v) (some_same h)
      (finds_result (if_text-none v.error he) (not_failed v.failed hf) hr)

settles-Finds : (v : Look) {o : Outcome} → settles v ≡ some o → Finds v o
unfolding settles
settles-Finds v h = judge-Finds v _ _ _ _ refl refl refl refl h

failed_is : (s : String) → s ≡ "1" → str_eq s "1" ≡ true
failed_is s e = ground (arith, e, eq_iff s "1")

failed_is_not : (s : String) → s ≢ "1" → str_eq s "1" ≡ false
failed_is_not s n = elim (Bool-cases (str_eq s "1")) [
  | inl y ↦ absurd (n (is_failed s y))
  | inr e ↦ e
]

Finds-settles : (v : Look) {o : Outcome} → Finds v o → settles v ≡ some o
unfolding settles
Finds-settles v (finds_error e) = rw (settles, Says-some v.error e) refl
Finds-settles v (finds_late n f l) =
    rw (settles, SaysNothing-none v.error n, failed_is v.failed f, Says-some v.late_error l) refl
Finds-settles v (finds_failed n f l) =
    rw (settles, SaysNothing-none v.error n, failed_is v.failed f, SaysNothing-none v.late_error l)
      refl
Finds-settles v (finds_result n f r) =
    rw (settles, SaysNothing-none v.error n, failed_is_not v.failed f, r) refl

judge-FindsNothing :
    (v : Look) (error : Option String) (failed : Bool) (late result : Option String)
    → if_text v.error ≡ error
    → str_eq v.failed "1" ≡ failed
    → v.result ≡ result
    → judge error failed late result ≡ none
    → FindsNothing v
judge-FindsNothing v none false late none he hf hr h = record {
  error = if_text-none v.error he;
  failed = not_failed v.failed hf;
  result = hr;
}
judge-FindsNothing v none false late (some r) he hf hr h = absurd (cc h)
judge-FindsNothing v none true late result he hf hr h = absurd (cc h)
judge-FindsNothing v (some e) failed late result he hf hr h = absurd (cc h)

settles-FindsNothing : (v : Look) → settles v ≡ none → FindsNothing v
unfolding settles
settles-FindsNothing v h = judge-FindsNothing v _ _ _ _ refl refl refl h

FindsNothing-settles : (v : Look) → FindsNothing v → settles v ≡ none
unfolding settles
FindsNothing-settles v h =
    rw (settles, SaysNothing-none v.error h.error, failed_is_not v.failed h.failed, h.result) refl

is_over-IsLate : (deadline : Option ℕ) (now : ℕ) → is_over deadline now ≡ true → IsLate deadline now
is_over-IsLate none now h = absurd (cc h)
is_over-IsLate (some d) now h = (d, refl, ground arith)

IsLate-is_over : (deadline : Option ℕ) (now : ℕ) → IsLate deadline now → is_over deadline now ≡ true
IsLate-is_over deadline now (d, e, l) = rw e (ground (arith, l))

module _ (look : ℕ → Look) (clock : ℕ → ℕ) (deadline : Option ℕ) where
  -- Round `i` finds the future settled and the outcome is what it finds; or it finds nothing and
  -- ends after the deadline, and the outcome is that the wait has timed out.
  abbrev pub Closes : ℕ → Outcome → Type 0
  Closes i o =
      Finds (look i) o ⊎ (FindsNothing (look i) × IsLate deadline (clock i) × (o ≡ timed_out))

  -- Round `i` finds nothing and ends before the deadline.
  abbrev pub Continues : ℕ → Type 0
  Continues i = FindsNothing (look i) × ¬ IsLate deadline (clock i)

  Closes-EndsAt : (i : ℕ) (o : Outcome) → Closes i o → EndsAt look clock deadline i o
  Closes-EndsAt i o (inl f) = inl (Finds-settles (look i) f)
  Closes-EndsAt i o (inr (n, l, e)) =
      inr (FindsNothing-settles (look i) n, IsLate-is_over deadline (clock i) l, e)

  EndsAt-Closes : (i : ℕ) (o : Outcome) → EndsAt look clock deadline i o → Closes i o
  EndsAt-Closes i o (inl e) = inl (settles-Finds (look i) e)
  EndsAt-Closes i o (inr (n, l, e)) =
      inr (settles-FindsNothing (look i) n, is_over-IsLate deadline (clock i) l, e)

  GoesOn-Continues : (i : ℕ) → GoesOn look clock deadline i → Continues i
  GoesOn-Continues i g =
      (settles-FindsNothing (look i) g.0, λ l. cc (g.1, IsLate-is_over deadline (clock i) l))

  -- Once a round finds an error, a failure or a result, or ends after the deadline, the wait ends, in
  -- that round or one before. The rounds before the one in which it ends found none of these and
  -- ended before the deadline. It raises the error where one is recorded or the call failed,
  -- returns the result where there is one and no failure, and times out only where the round found
  -- none of these.
  pub wait_for_result_ends :
      (last : ℕ)
      → (o : Outcome) × Closes last o
      → (o : Outcome) × (wait_for_result (suc last) look clock deadline ≡ some o)
        × (j : ℕ) × (j ≤ last)
        × Closes j o
        × ((k : ℕ) → k < j → Continues k)
  wait_for_result_ends last (o, c) =
      let (q, e, j, _, l, at, before) =
        wait_for_result-EndsWithin look clock deadline last (o, Closes-EndsAt last o c) in
      (q, e, j, l, EndsAt-Closes j q at, λ k less. GoesOn-Continues k (before k (omega arith) less))
