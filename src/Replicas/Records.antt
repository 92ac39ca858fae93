-- ===== src/Replicas/Records.antt =====
-- Lookups among the replica records after one of them is written or dropped.
use canyonos.Prelude.{
  ◌≡◌, ◌≢◌, refl, sym, ◌∙◌, ap, inl, inr, true, false, String, List, [], ◌∷◌, none, some, str_eq,
  eq_iff, arith, Bool-cases, if◌then◌else◌, keep,
}
use canyonos.Replicas.{Replica, find, store, other_id}

pub find-keep : (id : String) (rs : List Replica) → find id (keep (other_id id) rs) ≡ none
unfolding find
find-keep id [] = refl
find-keep id (r ∷ rs) = elim (Bool-cases (str_eq r.replica_id id)) [
  | inl same ↦ rw same (find-keep id rs)
  | inr other ↦ rw other (rw other (find-keep id rs))
]

pub find-id :
    (id : String) (rs : List Replica) (r : Replica) → find id rs ≡ some r → r.replica_id ≡ id
unfolding find
find-id id [] r e = absurd (cc e)
find-id id (s ∷ rs) r e = elim (Bool-cases (str_eq s.replica_id id)) [
  | inl same ↦ let h : s ≡ r = ground (arith, same) in rw (sym h) ((eq_iff s.replica_id id).0 same)
  | inr other ↦ find-id id rs r (rw other at e)
]

pub find-store :
    (s r : Replica) (rs : List Replica)
    → find s.replica_id rs ≡ some r
    → find s.replica_id (store s rs) ≡ some s
unfolding find store
find-store s r [] e = absurd (cc e)
find-store s r (q ∷ rs) e = elim (Bool-cases (str_eq q.replica_id s.replica_id)) [
  | inl same ↦
      let h : str_eq s.replica_id s.replica_id ≡ true = (eq_iff s.replica_id s.replica_id).1 refl in
      rw same (rw h refl)
  | inr other ↦ rw other (rw other (find-store s r rs (rw other at e)))
]

apart : (a b : String) → a ≢ b → str_eq a b ≡ false
apart a b n = elim (Bool-cases (str_eq a b)) [ inl e ↦ absurd (n ((eq_iff a b).0 e)) | inr e ↦ e ]

pub find-store_other :
    (id : String) (s : Replica) (rs : List Replica)
    → id ≢ s.replica_id
    → find id (store s rs) ≡ find id rs
unfolding find store
find-store_other id s [] n = refl
find-store_other id s (q ∷ rs) n = elim (Bool-cases (str_eq q.replica_id s.replica_id)) [
  | inl same ↦
      let h1 : str_eq s.replica_id id ≡ false = apart s.replica_id id (λ e. n (sym e)) in
      let h2 : str_eq q.replica_id id ≡ false =
        rw (sym ((eq_iff q.replica_id s.replica_id).0 same)) at h1 in
      rw same (rw (h1, h2) refl)
  | inr other ↦
      rw other (ap (λ t. if str_eq q.replica_id id then some q else t) (find-store_other id s rs n))
]

pub find-keep_other :
    (id gone : String) (rs : List Replica)
    → id ≢ gone
    → find id (keep (other_id gone) rs) ≡ find id rs
unfolding find
find-keep_other id gone [] n = refl
find-keep_other id gone (q ∷ rs) n = elim (Bool-cases (str_eq q.replica_id gone)) [
  | inl same ↦
      let h : str_eq q.replica_id id ≡ false =
        apart q.replica_id id (λ e. n (sym e ∙ (eq_iff q.replica_id gone).0 same)) in
      rw (same, h) (find-keep_other id gone rs n)
  | inr other ↦
      rw other
        (ap (λ t. if str_eq q.replica_id id then some q else t) (find-keep_other id gone rs n))
]
