-- ===== src/Machines/Kept.antt =====
-- Which machines the config keeps.
use canyonos.Prelude.{
  ◌≡◌, ◌≤◌, ◌<◌, refl, ap, subst, ◌⊎◌, inl, inr, Bool, true, false, not, String, List, [], ◌∷◌,
  ◌++◌, some, arith, Bool-cases, Option-cases, All, all, keep, contains, drop, length, str_eq,
  eq_iff,
}
use canyonos.Prelude.Members.{contains-append, All-map, All-zip}
use canyonos.Prelude.Sorting.{sort_by, length-sort_by}
use canyonos.Prelude.Slices.{take-drop, length-take, drop-nil}
use canyonos.Machines.{
  Machine, Declared, is_up, started, stays_before, kept_of, launch_ids, kept_ids, find_surplus,
}

-- What holds of each declared spec when some machine is surplus: the machines kept for it are up,
-- at most its count, no fewer unless no more are started, and none is in the surplus.
pub record KeepsSpec (occupied : List String) (machines : List Machine) (surplus : List String)
    (d : Declared) : Type 0 where
  pub up : All (λ m. is_up m ≡ true) (kept_of occupied machines d)
  pub few : length (kept_of occupied machines d) ≤ d.count
  pub enough :
      length (kept_of occupied machines d) < d.count
      → length (kept_of occupied machines d) ≡ length (started d machines)
  pub spared : All (λ m. contains surplus m.launch_id ≡ false) (kept_of occupied machines d)

all-All : (ms : List Machine) → all is_up ms ≡ true → All (λ m. is_up m ≡ true) ms
all-All [] e = tt
all-All (m ∷ ms) e = (ground arith, all-All ms (ground arith))

contains-launch_ids :
    (ms : List Machine) → All (λ m. contains (launch_ids ms) m.launch_id ≡ true) ms
contains-launch_ids [] = tt
contains-launch_ids (m ∷ ms) =
    let self : str_eq m.launch_id m.launch_id ≡ true = (eq_iff m.launch_id m.launch_id).1 refl in
    (rw self refl, All-map _ _ ms (λ n h. ground (arith, h)) (contains-launch_ids ms))

contains-keep :
    (p : String → Bool) (ids : List String) (a : String)
    → p a ≡ false
    → contains (keep p ids) a ≡ false
contains-keep p [] a h = refl
contains-keep p (x ∷ ids) a h = elim (Bool-cases (p x)) [
  | inr skip ↦ rw skip (contains-keep p ids a h)
  | inl kept ↦ elim (Bool-cases (str_eq x a)) [
    | inl same ↦ absurd (cc (h, kept, (eq_iff x a).0 same))
    | inr other ↦ rw (kept, other) (contains-keep p ids a h)
  ]
]

-- The kept machines of every spec are up and their ids are among the kept.
kept_ids-All :
    (occupied : List String) (machines : List Machine) (ds : List Declared) (ids : List String)
    → kept_ids occupied machines ds ≡ some ids
    → All
        (λ d.
          All
            (λ m. (is_up m ≡ true) × (contains ids m.launch_id ≡ true))
            (kept_of occupied machines d))
        ds
unfolding kept_ids
kept_ids-All occupied machines [] ids e = tt
kept_ids-All occupied machines (d ∷ ds) ids e =
    elim (Bool-cases (all is_up (kept_of occupied machines d))) [
      | inr down ↦ absurd (cc (rw (down, kept_ids) at e))
      | inl up ↦ elim (Option-cases (kept_ids occupied machines ds)) [
        | inl bad ↦ absurd (cc (rw (up, bad, kept_ids) at e))
        | inr (rest, k) ↦
            let kept = kept_of occupied machines d in
            let same : (launch_ids kept ++ rest) ≡ ids = cc (rw (up, k, kept_ids) at e) in
            subst
              (λ is.
                All
                  (λ d.
                    All (λ m. (is_up m ≡ true) × (contains is m.launch_id ≡ true))
                      (kept_of occupied machines d))
                  (d ∷ ds))
              same
              (
                All-zip _ _ kept (all-All kept up) (
                    All-map _ _ kept
                      (λ m h. ground (arith, h, contains-append (launch_ids kept) rest m.launch_id))
                      (contains-launch_ids kept)),
                All-map _ _ ds
                    (λ c h.
                      All-map _ _ (kept_of occupied machines c)
                        (λ m k. (
                          k.0,
                          ground (arith, k.1, contains-append (launch_ids kept) rest m.launch_id),
                        ))
                        h)
                    (kept_ids-All occupied machines ds rest k),
              )
      ]
    ]

length-kept_of :
    (occupied : List String) (machines : List Machine) (d : Declared)
    → length (kept_of occupied machines d) < d.count
    → length (kept_of occupied machines d) ≡ length (started d machines)
unfolding kept_of
length-kept_of occupied machines d h =
    let sorted = sort_by (stays_before occupied) (started d machines) in
    let none_left : length (drop d.count sorted) ≡ 0 = ap length (drop-nil d.count sorted h) in
    omega (
      arith,
      take-drop d.count sorted,
      none_left,
      length-sort_by (stays_before occupied) (started d machines),
    )

kept_of-few :
    (d : Declared) (occupied : List String) (machines : List Machine)
    → length (kept_of occupied machines d) ≤ d.count
unfolding kept_of
kept_of-few d occupied machines =
    length-take d.count (sort_by (stays_before occupied) (started d machines))

-- `find_surplus` finds nothing, or else every machine that it keeps for a declared spec is up,
-- they are at most the spec's count and no fewer unless no more are started, and the surplus has
-- none of them.
pub find_surplus_cases :
    (declared : List Declared) (occupied : List String) (machines : List Machine)
    → (find_surplus declared occupied machines ≡ [])
      ⊎ All (KeepsSpec occupied machines (find_surplus declared occupied machines)) declared
unfolding find_surplus
find_surplus_cases declared occupied machines =
    elim (Option-cases (kept_ids occupied machines declared)) [
      | inl e ↦ inl (rw (e, find_surplus) refl)
      | inr (ids, e) ↦ inr (
          let found : find_surplus declared occupied machines
              ≡ keep (λ id. not (contains ids id)) (launch_ids machines) =
            rw (e, find_surplus) refl in
          All-map _ _ declared
            (λ d h. record {
              up = All-map _ _ (kept_of occupied machines d) (λ m k. k.0) h;
              few = kept_of-few d occupied machines;
              enough = length-kept_of occupied machines d;
              spared =
                  All-map _ _ (kept_of occupied machines d)
                    (λ m k.
                      rw found (contains-keep _ (launch_ids machines) m.launch_id (rw k.1 refl)))
                    h;
            })
            (kept_ids-All occupied machines declared ids e))
    ]
