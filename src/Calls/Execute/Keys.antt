-- ===== src/Calls/Execute/Keys.antt =====
-- The keys of the requests that were accepted, with what they say of the times of arrival.
use canyonos.Prelude.{
  ℕ, ◌≡◌, refl, ◌≤◌, ◌+◌, false, String, List, [], ◌∷◌, ◌++◌, Option, none, some, lookup, All,
  arith, Bool-cases, inl, inr, str_eq, eq_iff, subst, ◌⊎◌,
}
use canyonos.Calls.Execute.{Arrival, dedup_ttl, is_live, claim_key, key_of, unless_accepted}

module _ {A : Type 0} where
  -- Every element has the relation to every later one.
  abbrev pub Pairwise : (A → A → Type 0) → List A → Type 0
  Pairwise R [] = Unit
  Pairwise R (x ∷ xs) = All (R x) xs × Pairwise R xs

  pub All-snoc : (P : A → Type 0) (xs : List A) (y : A) → All P xs → P y → All P (xs ++ (y ∷ []))
  All-snoc P [] y h p = (p, tt)
  All-snoc P (x ∷ xs) y h p = (h.0, All-snoc P xs y h.1 p)

  pub All-map : (P Q : A → Type 0) (xs : List A) → ((x : A) → P x → Q x) → All P xs → All Q xs
  All-map P Q [] f h = tt
  All-map P Q (x ∷ xs) f h = (f x h.0, All-map P Q xs f h.1)

  pub Pairwise-snoc :
      (R : A → A → Type 0) (xs : List A) (y : A)
      → Pairwise R xs
      → All (λ x. R x y) xs
      → Pairwise R (xs ++ (y ∷ []))
  Pairwise-snoc R [] y h p = (tt, tt)
  Pairwise-snoc R (x ∷ xs) y h p = (All-snoc (R x) xs y h.0 p.0, Pairwise-snoc R xs y h.1 p.1)

module _ {V : Type 0} where
  -- Two requests for one future come at least the lifetime of a key apart.
  abbrev pub AreApart : Arrival V → Arrival V → Type 0
  AreApart a b = (f : String) → key_of a ≡ some f → key_of b ≡ some f → a.at + dedup_ttl ≤ b.at

  -- The key of a request lives its whole time.
  abbrev pub Holds : List (String × ℕ) → Arrival V → Type 0
  Holds keys a =
      (f : String) → key_of a ≡ some f → (e : ℕ) × (lookup f keys ≡ some e) × (a.at + dedup_ttl ≤ e)

pub some_injective : {A : Type 0} {x y : A} → some x ≡ some y → x ≡ y
some_injective e = cc e

lookup-claimed :
    (f g : String) (t e : ℕ) (keys : List (String × ℕ))
    → (f ≡ g → e ≤ t + dedup_ttl)
    → lookup g keys ≡ some e
    → (d : ℕ) × (lookup g ((f, t + dedup_ttl) ∷ keys) ≡ some d) × (e ≤ d)
lookup-claimed f g t e keys later h = elim (Bool-cases (str_eq f g)) [
  | inl y ↦ (t + dedup_ttl, rw y refl, later (ground (arith, y, eq_iff f g)))
  | inr n ↦ (e, rw n h, omega arith)
]

expired : (o : Option ℕ) (t e : ℕ) → is_live o t ≡ false → o ≡ some e → e ≤ t
expired none t e dead h = absurd (cc h)
expired (some x) t e dead h = ground arith

first_found :
    {t : ℕ} (g f : String) (keys : List (String × ℕ)) → g ≡ f → lookup f ((g, t) ∷ keys) ≡ some t
first_found g f keys e = ground (arith, e, eq_iff g f)

-- A claim leaves the keys where there is nothing to claim, or adds one that was not there.
pub claim_cases :
    (o : Option String) (t : ℕ) (keys after : List (String × ℕ))
    → claim_key o t keys ≡ some after
    → ((o ≡ none) × (keys ≡ after))
      ⊎ ((g : String) × (o ≡ some g)
          × (is_live (lookup g keys) t ≡ false)
          × (((g, t + dedup_ttl) ∷ keys) ≡ after))
unfolding claim_key
claim_cases none t keys after e = inl (refl, cc e)
claim_cases (some g) t keys after e = elim (Bool-cases (is_live (lookup g keys) t)) [
  | inl y ↦ absurd (ground (arith, e, y))
  | inr n ↦ inr (g, refl, n, ground (arith, e, n))
]

module _ {V : Type 0} (a : Arrival V) (keys after : List (String × ℕ)) where
  still_dead :
      (g f : String) (d : ℕ)
      → is_live (lookup g keys) a.at ≡ false
      → lookup f keys ≡ some d
      → g ≡ f
      → d ≤ a.at
  still_dead g f d dead o e =
      expired (lookup f keys) a.at d (subst (λ n. is_live (lookup n keys) a.at ≡ false) e dead) o

  -- What is older than the claim is a lifetime back if it is for the same future.
  pub unless_accepted-AreApart :
      (x : Arrival V) → unless_accepted a keys ≡ some after → Holds keys x → AreApart x a
  unfolding unless_accepted
  unless_accepted-AreApart x e h f k l = elim (claim_cases (key_of a) a.at keys after e) [
    | inl (n, _) ↦ absurd (cc (n, l))
    | inr (g, m, dead, _) ↦
        let (d, o, p) = h f k in omega (arith, p, still_dead g f d dead o (cc (m, l)))
  ]

  pub unless_accepted-kept :
      (x : Arrival V) → unless_accepted a keys ≡ some after → Holds keys x → Holds after x
  unfolding unless_accepted
  unless_accepted-kept x e h f k = elim (claim_cases (key_of a) a.at keys after e) [
    | inl (_, s) ↦ subst (λ m. (d : ℕ) × (lookup f m ≡ some d) × (x.at + dedup_ttl ≤ d)) s (h f k)
    | inr (g, m, dead, s) ↦
        let (d, o, p) = h f k in
        let (b, q, l) =
          lookup-claimed g f a.at d keys (λ e. omega (arith, still_dead g f d dead o e)) o in
        subst (λ m. (d : ℕ) × (lookup f m ≡ some d) × (x.at + dedup_ttl ≤ d)) s
          (b, q, omega (arith, p, l))
  ]

  pub unless_accepted-claimed : unless_accepted a keys ≡ some after → Holds after a
  unfolding unless_accepted
  unless_accepted-claimed e f k = elim (claim_cases (key_of a) a.at keys after e) [
    | inl (n, _) ↦ absurd (cc (n, k))
    | inr (g, m, dead, s) ↦
        subst (λ m. (d : ℕ) × (lookup f m ≡ some d) × (a.at + dedup_ttl ≤ d)) s
          (a.at + dedup_ttl, first_found g f keys (cc (m, k)), omega arith)
  ]
