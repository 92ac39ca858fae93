-- ===== src/Ports/Scan.antt =====
-- The loop over port numbers.
use canyonos.Prelude.{
  ℕ, zero, suc, ◌+◌, ◌≤◌, ◌<◌, ◌≡◌, refl, sym, ◌⊎◌, inl, inr, Bool, true, false, not, List, [], ◌∷◌,
  none, some, arith, ◌==◌, Bool-cases, Option-cases, length, keep,
}
use canyonos.Ports.{first_port, has, free_from, find_free_port, attempts, usable, port_count}

-- `port` is the first number from `start` on that passes the test.
pub record IsFirst (ok : ℕ → Bool) (start port : ℕ) : Type 0 where
  pub from : start ≤ port
  pub passes : ok port ≡ true
  pub least : (q : ℕ) → start ≤ q → q < port → ok q ≡ false

ℕ-cases : (a b : ℕ) → a ≤ b → (a ≡ b) ⊎ (suc a ≤ b)
ℕ-cases a b h = elim (Bool-cases (a == b)) [
  | inl e ↦ inl (ground arith)
  | inr n ↦ inr (ground arith)
]

pub first_port-IsFirst :
    (ok : ℕ → Bool) (n start port : ℕ)
    → first_port ok n start ≡ some port
    → IsFirst ok start port × (port < start + n)
unfolding first_port
first_port-IsFirst ok zero start port e = absurd (cc e)
first_port-IsFirst ok (suc n) start port e = elim (Bool-cases (ok start)) [
  | inl taken ↦
      let here : start ≡ port = ground (arith, taken) in
      rw (sym here) (
        record { from = omega arith; passes = taken; least = λ q lo hi. absurd (omega arith) },
        omega arith,
      )
  | inr failed ↦
      let (first, bound) = first_port-IsFirst ok n (suc start) port (rw failed at e) in
      (
        record {
          from = omega (arith, first.from);
          passes = first.passes;
          least = λ q lo hi. elim (ℕ-cases start q lo) [
            | inl same ↦ rw (sym same) failed
            | inr above ↦ first.least q above hi
          ];
        },
        omega (arith, bound),
      )
]

pub first_port-none :
    (ok : ℕ → Bool) (n start q : ℕ)
    → first_port ok n start ≡ none
    → start ≤ q
    → q < start + n
    → ok q ≡ false
unfolding first_port
first_port-none ok zero start q e lo hi = absurd (omega arith)
first_port-none ok (suc n) start q e lo hi = elim (Bool-cases (ok start)) [
  | inl taken ↦ absurd (cc (rw taken at e))
  | inr failed ↦ elim (ℕ-cases start q lo) [
    | inl same ↦ rw (sym same) failed
    | inr above ↦ first_port-none ok n (suc start) q (rw failed at e) above (omega arith)
  ]
]

abbrev without : ℕ → List ℕ → List ℕ
without p = keep (λ q. not (q == p))

length-without : (p : ℕ) (used : List ℕ) → length (without p used) ≤ length used
length-without p [] = omega arith
length-without p (q ∷ used) = ground (arith, length-without p used)

length-without-has :
    (p : ℕ) (used : List ℕ) → has used p ≡ true → length (without p used) < length used
length-without-has p [] h = absurd (cc h)
length-without-has p (q ∷ used) h = ground (arith, length-without p used, length-without-has p used)

has-without : (p q : ℕ) (used : List ℕ) → p < q → has (without p used) q ≡ has used q
has-without p q [] h = refl
has-without p q (r ∷ used) h = ground (arith, has-without p q used h)

-- Numbers that are all in use are no more than the list that has them.
scan-length :
    (n : ℕ) (used : List ℕ) (start : ℕ)
    → ((q : ℕ) → start ≤ q → q < start + n → has used q ≡ true)
    → n ≤ length used
scan-length zero used start h = omega arith
scan-length (suc n) used start h =
    let fewer = length-without-has start used (h start (omega arith) (omega arith)) in
    let rest =
      scan-length n (without start used) (suc start) (λ q lo hi.
        rw (has-without start q used (omega arith)) (h q (omega arith) (omega arith))) in
    omega (arith, fewer, rest)

-- One attempt more than there are ports in use finds a free one.
pub free_from-IsFirst :
    (used : List ℕ) (start : ℕ)
    → (port : ℕ) × (free_from used start ≡ some port) × IsFirst (λ p. not (has used p)) start port
unfolding free_from
free_from-IsFirst used start = elim (Option-cases (free_from used start)) [
  | inr (port, e) ↦
      (port, e, (first_port-IsFirst (λ p. not (has used p)) (suc (length used)) start port e).0)
  | inl e ↦ absurd (
      omega (
        arith,
        scan-length (suc (length used)) used start (λ q lo hi.
            ground
              (arith, first_port-none (λ p. not (has used p)) (suc (length used)) start q e lo hi)),
      ))
]

-- Where `find_free_port` returns, the port is below 65536, within the attempts, in no skip set,
-- bindable, and the first such from `start` on. Where it raises, no port of the attempts below 65536
-- is both bindable and outside the skip set.
pub find_free_port_cases :
    (is_port_free : ℕ → Bool) (start max_attempts : ℕ) (skip : List ℕ)
    → ((port : ℕ) × (find_free_port is_port_free start max_attempts skip ≡ some port)
        × IsFirst (usable is_port_free skip) start port
        × (port < start + max_attempts)
        × (port < port_count))
      ⊎ ((find_free_port is_port_free start max_attempts skip ≡ none)
          × ((q : ℕ)
              → start ≤ q
              → q < start + max_attempts
              → q < port_count
              → usable is_port_free skip q ≡ false))
unfolding find_free_port
find_free_port_cases is_port_free start max_attempts skip =
    let ok = usable is_port_free skip in
    let n = attempts start max_attempts in
    elim (Option-cases (first_port ok n start)) [
      | inr (port, e) ↦
          let (first, bound) = first_port-IsFirst ok n start port e in
          inl (port, e, first, ground (arith, bound, first.from), ground (arith, bound, first.from))
      | inl e ↦ inr (e, λ q lo hi top. first_port-none ok n start q e lo (ground arith))
    ]
