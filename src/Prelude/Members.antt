-- ===== src/Prelude/Members.antt =====
-- Membership and universal statements under the filter of a list comprehension.
use mathlib.Core.Path.{◌≡◌, refl}
use mathlib.Core.Logic.{◌≢◌, inl, inr}
use Prim.Native.String.{String}
use text.Mathlib.Text.{◌==◌ as str_eq}
use text.Mathlib.TextEquality.{eq_iff}
use mathlib.Core.Bool.{Bool, true, false, ◌||◌}
use mathlib.Core.List.{List, [], ◌∷◌, ◌++◌, Memᴰ}
use canyonos.Prelude.Tests.{Bool-cases}
use canyonos.Prelude.Lists.{All, keep, contains}
use native.Mathlib.Omega.{arith}

module _ {A : Type 0} (p : A → Bool) where
  mem-cons-keep :
      {x y : A} (xs : List A)
      → p y ≡ true
      → (Memᴰ x (keep p xs) → Memᴰ x xs × (p x ≡ true))
      → Memᴰ x (y ∷ keep p xs)
      → Memᴰ x (y ∷ xs) × (p x ≡ true)
  mem-cons-keep xs e rec (Memᴰ.head q) = (Memᴰ.head q, rw q e)
  mem-cons-keep xs e rec (Memᴰ.tail m) = let r = rec m in (Memᴰ.tail r.0, r.1)

  pub mem-keep : (xs : List A) {x : A} → Memᴰ x (keep p xs) → Memᴰ x xs × (p x ≡ true)
  mem-keep [] m = elim m [ ]
  mem-keep (y ∷ xs) m = elim (Bool-cases (p y)) [
    | inl kept ↦ mem-cons-keep xs kept (λ n. mem-keep xs n) (rw kept at m)
    | inr skip ↦ let r = mem-keep xs (rw skip at m) in (Memᴰ.tail r.0, r.1)
  ]

  -- What holds of every kept element holds of every element that passes the test.
  pub All-keep : (P : A → Type 0) (xs : List A) → All P (keep p xs) → All (λ x. p x ≡ true → P x) xs
  All-keep P [] h = tt
  All-keep P (x ∷ xs) h = elim (Bool-cases (p x)) [
    | inl kept ↦ let h' = rw kept at h in ((λ _. h'.0), All-keep P xs h'.1)
    | inr skip ↦ ((λ e. absurd (cc (e, skip))), All-keep P xs (rw skip at h))
  ]

  -- An element that passes the test is kept.
  pub mem-of_keep : {x : A} (xs : List A) → Memᴰ x xs → p x ≡ true → Memᴰ x (keep p xs)
  mem-of_keep [] h e = elim h [ ]
  mem-of_keep (y ∷ xs) (Memᴰ.head q) e = let k : p y ≡ true = rw q at e in rw k (Memᴰ.head q)
  mem-of_keep (y ∷ xs) (Memᴰ.tail h) e = elim (Bool-cases (p y)) [
    | inl kept ↦ rw kept (Memᴰ.tail (mem-of_keep xs h e))
    | inr skip ↦ rw skip (mem-of_keep xs h e)
  ]

  pub keep-All : (xs : List A) → All (λ x. p x ≡ true) (keep p xs)
  keep-All [] = tt
  keep-All (x ∷ xs) = elim (Bool-cases (p x)) [
    | inl kept ↦ rw kept (kept, keep-All xs)
    | inr skip ↦ rw skip (keep-All xs)
  ]

module _ {A : Type 0} where
  pub All-of_keep : (P : A → Type 0) (p : A → Bool) (xs : List A) → All P xs → All P (keep p xs)
  All-of_keep P p [] h = tt
  All-of_keep P p (x ∷ xs) h = elim (Bool-cases (p x)) [
    | inl kept ↦ rw kept (h.0, All-of_keep P p xs h.1)
    | inr skip ↦ rw skip (All-of_keep P p xs h.1)
  ]

  pub All-mem : (P : A → Type 0) {x : A} (xs : List A) → All P xs → Memᴰ x xs → P x
  All-mem P [] h m = elim m [ ]
  All-mem P (y ∷ xs) h (Memᴰ.head q) = rw q h.0
  All-mem P (y ∷ xs) h (Memᴰ.tail m) = All-mem P xs h.1 m

  pub All-map : (P Q : A → Type 0) (xs : List A) → ((x : A) → P x → Q x) → All P xs → All Q xs
  All-map P Q [] f h = tt
  All-map P Q (x ∷ xs) f h = (f x h.0, All-map P Q xs f h.1)

  pub All-zip : (P Q : A → Type 0) (xs : List A) → All P xs → All Q xs → All (λ x. P x × Q x) xs
  All-zip P Q [] h k = tt
  All-zip P Q (x ∷ xs) h k = ((h.0, k.0), All-zip P Q xs h.1 k.1)

  pub All-append : (P : A → Type 0) (xs ys : List A) → All P xs → All P ys → All P (xs ++ ys)
  All-append P [] ys hx hy = hy
  All-append P (x ∷ xs) ys hx hy = (hx.0, All-append P xs ys hx.1 hy)

  pub All-self : (xs : List A) → All (λ x. Memᴰ x xs) xs
  All-self [] = tt
  All-self (x ∷ xs) = (
    Memᴰ.head refl,
    All-map (λ y. Memᴰ y xs) (λ y. Memᴰ y (x ∷ xs)) xs (λ y m. Memᴰ.tail m) (All-self xs),
  )

pub str_eq-false : (a b : String) → str_eq a b ≡ false → a ≢ b
str_eq-false a b e h = cc (e, (eq_iff a b).1 h)

pub contains-append :
    (xs ys : List String) (a : String) → contains (xs ++ ys) a ≡ contains xs a || contains ys a
contains-append [] ys a = refl
contains-append (x ∷ xs) ys a = ground (arith, contains-append xs ys a)
