-- ===== src/Prelude/Slices.antt =====
-- The two parts of a list that Python's slices `xs[:n]` and `xs[n:]` give.
use Prim.Native.Nat.{ℕ, zero, suc, ◌+◌, ◌≤◌, ◌<◌}
use mathlib.Core.Path.{◌≡◌, refl}
use mathlib.Core.Logic.{◌⊎◌, inl, inr}
use mathlib.Core.List.{List, [], ◌∷◌, Memᴰ}
use native.Mathlib.Omega.{arith}
use canyonos.Prelude.Lists.{All, length, take, drop}
use canyonos.Prelude.Members.{All-map, All-self}

module _ {A : Type 0} where
  pub take-drop : (n : ℕ) (xs : List A) → length (take n xs) + length (drop n xs) ≡ length xs
  take-drop zero xs = omega arith
  take-drop (suc n) [] = omega arith
  take-drop (suc n) (x ∷ xs) = ground (arith, take-drop n xs)

  pub length-take : (n : ℕ) (xs : List A) → length (take n xs) ≤ n
  length-take zero xs = omega arith
  length-take (suc n) [] = omega arith
  length-take (suc n) (x ∷ xs) = omega (arith, length-take n xs)

  pub drop-nil : (n : ℕ) (xs : List A) → length (take n xs) < n → drop n xs ≡ []
  drop-nil zero xs h = absurd (omega arith)
  drop-nil (suc n) [] h = refl
  drop-nil (suc n) (x ∷ xs) h = drop-nil n xs (omega arith)

  pub All-take : (P : A → Type 0) (n : ℕ) (xs : List A) → All P xs → All P (take n xs)
  All-take P zero xs h = tt
  All-take P (suc n) [] h = tt
  All-take P (suc n) (x ∷ xs) h = (h.0, All-take P n xs h.1)

  pub All-drop : (P : A → Type 0) (n : ℕ) (xs : List A) → All P xs → All P (drop n xs)
  All-drop P zero xs h = h
  All-drop P (suc n) [] h = tt
  All-drop P (suc n) (x ∷ xs) h = All-drop P n xs h.1

  pub take-covers : (n : ℕ) (xs : List A) → All (λ x. Memᴰ x (take n xs) ⊎ Memᴰ x (drop n xs)) xs
  take-covers zero xs = All-map _ _ xs (λ x m. inr m) (All-self xs)
  take-covers (suc n) [] = tt
  take-covers (suc n) (x ∷ xs) = (
    inl (Memᴰ.head refl),
    All-map _ _ xs (λ y m. elim m [ inl k ↦ inl (Memᴰ.tail k) | inr k ↦ inr k ]) (take-covers n xs),
  )
