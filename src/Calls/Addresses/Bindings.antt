-- ===== src/Calls/Addresses/Bindings.antt =====
-- What the bindings of requests to replicas hold after each change of them.
use canyonos.Prelude.{
  ◌≡◌, ◌≢◌, All, refl, sym, ap, ◌∙◌, false, ◌&&◌, String, List, [], ◌∷◌, some, str_eq, eq_iff,
  if◌then◌else◌, arith, Bool-cases, inl, inr,
}
use canyonos.Calls.Addresses.{Binding, bound, bind_to, bind_all, unbind}

pub bound-bind_to :
    (r a x r' a' : String) (bs : List Binding)
    → bound r a (bind_to r' a' x bs) ≡ (if str_eq r' r && str_eq a' a then some x else bound r a bs)
unfolding bound bind_to
bound-bind_to r a x r' a' [] = refl
bound-bind_to r a x r' a' (b ∷ bs) = ground (
  arith,
  bound-bind_to r a x r' a' bs,
  eq_iff b.request r',
  eq_iff b.agent a',
  eq_iff b.request r,
  eq_iff b.agent a,
  eq_iff r' r,
  eq_iff a' a,
)

pub bind_all-bound :
    (r a x q : String) (m : List (String × String)) (bs : List Binding)
    → (q ≡ r → All (λ e. e.0 ≡ a → e.1 ≡ x) m)
    → bound r a bs ≡ some x
    → bound r a (bind_all q m bs) ≡ some x
unfolding bind_all
bind_all-bound r a x q [] bs k h = h
bind_all-bound r a x q (e ∷ m) bs k h =
    bind_all-bound r a x q m (bind_to q e.0 e.1 bs) (λ s. (k s).1)
      (bound-bind_to r a e.1 q e.0 bs ∙ after)
  where
    after : (if str_eq q r && str_eq e.0 a then some e.1 else bound r a bs) ≡ some x
    after = elim (Bool-cases (str_eq q r && str_eq e.0 a)) [
      | inl y ↦
          rw y (ap some ((k (ground (arith, y, eq_iff q r))).0 (ground (arith, y, eq_iff e.0 a))))
      | inr n ↦ rw n h
    ]

pub bound-unbind :
    (r a q : String) (bs : List Binding) → q ≢ r → bound r a (unbind q bs) ≡ bound r a bs
unfolding bound unbind
bound-unbind r a q [] n = refl
bound-unbind r a q (b ∷ bs) n = elim (Bool-cases (str_eq b.request q)) [
  | inl y ↦
      let other : str_eq b.request r ≡ false = elim (Bool-cases (str_eq b.request r)) [
        | inl z ↦ absurd (n (sym ((eq_iff b.request q).0 y) ∙ (eq_iff b.request r).0 z))
        | inr z ↦ z
      ] in
      rw y (rw other (bound-unbind r a q bs n))
  | inr y ↦ rw y (rw (bound-unbind r a q bs n) refl)
]
