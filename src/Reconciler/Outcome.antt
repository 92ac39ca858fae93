-- ===== src/Reconciler/Outcome.antt =====
-- What a pass of `_remove_unwanted` does to each replica.
use canyonos.Prelude.{
  ℕ, ◌≡◌, ◌≢◌, refl, sym, ◌∙◌, subst, ◌⊎◌, inl, inr, Bool, true, false, String, List, [], ◌∷◌,
  Option, none, some, str_eq, eq_iff, arith, Bool-cases, Option-cases, contains, All, keep,
}
use canyonos.Replicas.{Replica, Fleet, Pass, is_draining, remove_replica, find}
use canyonos.Replicas.Drain.{Leaving, remove_replica-cases}
use canyonos.Reconciler.{
  Limits, Look, World, Reason, unhealthy, answers, may_still_be_booting, is_healthy, removal_reason,
  remove_without_draining, drain_healthy, drain_replica, act, visit, visits, remove_unwanted,
  surplus_of, ids, with_seen, clear_request,
}

Leaving-remove :
    (id : String) (drain : Bool) (pass : Pass) (removed : String) (fleet : Fleet)
    → Leaving id fleet
    → Leaving id (remove_replica drain pass removed fleet).1
Leaving-remove id drain pass removed fleet h = elim (Bool-cases (str_eq id removed)) [
  | inl same ↦
      subst (λ i. Leaving i (remove_replica drain pass removed fleet).1)
        (sym ((eq_iff id removed).0 same)) (remove_replica-cases drain pass removed fleet).0
  | inr other ↦
      let e =
        (remove_replica-cases drain pass removed fleet).1 id
          (λ k. absurd (cc (other, (eq_iff id removed).1 k))) in
      rw e h
]

module _ (limits : Limits) (is_database : Bool) (surplus requested : List String) where
  -- The replica is wanted and answers.
  abbrev pub Stays : Look → Replica → Type 0
  Stays look r =
      (is_draining r ≡ false)
      × (contains requested r.replica_id ≡ false)
      × (contains surplus r.replica_id ≡ false)
      × (answers limits is_database look ≡ true)

  -- The replica drains already, is to be replaced, is surplus, or does not answer and is past the
  -- startup grace.
  abbrev pub Leaves : Look → Replica → Type 0
  Leaves look r =
      (is_draining r ≡ true)
      ⊎ (contains requested r.replica_id ≡ true)
      ⊎ (contains surplus r.replica_id ≡ true)
      ⊎ (answers limits is_database look ≡ false) × (may_still_be_booting limits look r ≡ false)

  -- The fleet after an action is that of one removal.
  abbrev Removed : Look → Replica → World → World → Type 0
  Removed look r w after =
      (drain : Bool) × (after.fleet ≡ (remove_replica drain look.pass r.replica_id w.fleet).1)

  clear_request-fleet :
      (r : Replica) (w : World) → (clear_request limits is_database requested r w).fleet ≡ w.fleet
  clear_request-fleet r w = ground arith

  drain_replica-Removed :
      (look : Look) (r : Replica) (w : World)
      → Removed look r w (drain_replica limits is_database look r w).1
  unfolding drain_replica drain_healthy remove_without_draining
  drain_replica-Removed look r w = elim (Bool-cases is_database) [
    | inl database ↦ (false, ground arith)
    | inr agent ↦ elim (Bool-cases (is_healthy limits is_database look r w.seen_healthy).0) [
      | inl healthy ↦ (true, ground arith)
      | inr silent ↦ (false, ground arith)
    ]
  ]

  act-Removed :
      (look : Look) (r : Replica) (reason : Reason) (w : World)
      → Removed look r w (act limits is_database requested look r (some reason) w)
  unfolding act remove_without_draining
  act-Removed look r unhealthy w = (false, ground arith)
  act-Removed look r reason w =
      let (drain, e) = drain_replica-Removed look r w in (drain, ground (arith, e))

  abbrev reason_for : Look → Replica → World → Option Reason
  reason_for look r w =
      (removal_reason limits is_database look r surplus requested w.seen_healthy).0

  Leaves-reason :
      (look : Look) (r : Replica) (w : World) → Leaves look r → reason_for look r w ≢ none
  unfolding removal_reason is_healthy
  Leaves-reason look r w h e = ground arith

  visit-Removed :
      (look : Look) (r : Replica) (w : World) (reason : Reason)
      → reason_for look r w ≡ some reason
      → Removed look r w (visit limits is_database surplus requested look r w)
  unfolding visit
  visit-Removed look r w reason e =
      let seen = (removal_reason limits is_database look r surplus requested w.seen_healthy).1 in
      rw e (act-Removed look r reason (with_seen seen w))

  visit-idle :
      (look : Look) (r : Replica) (w : World)
      → reason_for look r w ≡ none
      → (visit limits is_database surplus requested look r w).fleet ≡ w.fleet
  unfolding visit act
  visit-idle look r w e = rw e refl

  visit-Leaves :
      (look : Look) (r : Replica) (w : World)
      → Leaves look r
      → Leaving r.replica_id (visit limits is_database surplus requested look r w).fleet
  visit-Leaves look r w h = elim (Option-cases (reason_for look r w)) [
    | inl e ↦ absurd (Leaves-reason look r w h e)
    | inr (reason, e) ↦
        let (drain, k) = visit-Removed look r w reason e in
        subst (Leaving r.replica_id) (sym k)
          (remove_replica-cases drain look.pass r.replica_id w.fleet).0
  ]

  visit-Leaving :
      (look : Look) (r : Replica) (w : World) (id : String)
      → Leaving id w.fleet
      → Leaving id (visit limits is_database surplus requested look r w).fleet
  visit-Leaving look r w id h = elim (Option-cases (reason_for look r w)) [
    | inl e ↦ subst (Leaving id) (sym (visit-idle look r w e)) h
    | inr (reason, e) ↦
        let (drain, k) = visit-Removed look r w reason e in
        subst (Leaving id) (sym k) (Leaving-remove id drain look.pass r.replica_id w.fleet h)
  ]

  visit-Stays :
      (look : Look) (r : Replica) (w : World)
      → Stays look r
      → (visit limits is_database surplus requested look r w).fleet ≡ w.fleet
  unfolding visit removal_reason is_healthy act
  visit-Stays look r w (a, b, c, d) = ground (arith)

  -- A visit to another replica, or to one that stays, changes no record of `id`.
  visit-other :
      (look : Look) (r : Replica) (w : World) (id : String)
      → (r.replica_id ≡ id → Stays look r)
      → find id (visit limits is_database surplus requested look r w).fleet.replicas
        ≡ find id w.fleet.replicas
  visit-other look r w id h = elim (Bool-cases (str_eq r.replica_id id)) [
    | inl same ↦ rw (visit-Stays look r w (h ((eq_iff r.replica_id id).0 same)))
    | inr other ↦ elim (Option-cases (reason_for look r w)) [
      | inl e ↦ rw (visit-idle look r w e)
      | inr (reason, e) ↦
          let (drain, k) = visit-Removed look r w reason e in
          rw k (
            (remove_replica-cases drain look.pass r.replica_id w.fleet).1 id
              (λ q. absurd (cc (other, (eq_iff r.replica_id id).1 (sym q)))))
    ]
  ]

  module _ (look : Replica → Look) where
    visits-Leaving :
        (rs : List Replica) (w : World) (id : String)
        → Leaving id w.fleet
        → Leaving id (visits limits is_database look surplus requested rs w).fleet
    unfolding visits
    visits-Leaving [] w id h = h
    visits-Leaving (r ∷ rs) w id h =
        visits-Leaving rs (visit limits is_database surplus requested (look r) r w) id
          (visit-Leaving (look r) r w id h)

    visits-Leaves :
        (rs : List Replica) (w : World)
        → All
            (λ r.
              Leaves (look r) r
              → Leaving r.replica_id (visits limits is_database look surplus requested rs w).fleet)
            rs
    unfolding visits
    visits-Leaves [] w = tt
    visits-Leaves (r ∷ rs) w = (
      (λ h.
          visits-Leaving rs (visit limits is_database surplus requested (look r) r w) r.replica_id
            (visit-Leaves (look r) r w h)),
      visits-Leaves rs (visit limits is_database surplus requested (look r) r w),
    )

    visits-Stays :
        (rs : List Replica) (w : World) (id : String)
        → All (λ r. r.replica_id ≡ id → Stays (look r) r) rs
        → find id (visits limits is_database look surplus requested rs w).fleet.replicas
          ≡ find id w.fleet.replicas
    unfolding visits
    visits-Stays [] w id h = refl
    visits-Stays (r ∷ rs) w id h =
        visits-Stays rs (visit limits is_database surplus requested (look r) r w) id h.1
        ∙ visit-other (look r) r w id h.0

-- The replicas that a pass over an agent lists, and the ids of its surplus.
abbrev pub listed : String → World → List Replica
listed agent w = keep (λ r. str_eq r.agent_name agent) w.fleet.replicas

abbrev pub surplus_ids : String → ℕ → World → List String
surplus_ids agent desired w = ids (surplus_of desired (listed agent w))

module _ (limits : Limits) (is_database : Bool) (look : Replica → Look) (agent : String)
    (desired : ℕ) (w : World) where
  -- After a pass over an agent, each of its replicas that drained before, was to be replaced, was
  -- surplus, or did not answer past the startup grace, has no record or a record that it drains.
  pub remove_unwanted-Leaves :
      All
        (λ r.
          Leaves limits is_database (surplus_ids agent desired w) w.requests (look r) r
          → Leaving r.replica_id (remove_unwanted limits is_database look agent desired w).fleet)
        (listed agent w)
  unfolding remove_unwanted
  remove_unwanted-Leaves =
      visits-Leaves limits is_database (surplus_ids agent desired w) w.requests look
        (listed agent w) _

  -- A pass over an agent changes no record of an id if each of the agent's replicas of that id
  -- answers, does not drain, is not to be replaced and is not surplus.
  pub remove_unwanted-Stays :
      (id : String)
      → All
          (λ r.
            r.replica_id ≡ id
            → Stays limits is_database (surplus_ids agent desired w) w.requests (look r) r)
          (listed agent w)
      → find id (remove_unwanted limits is_database look agent desired w).fleet.replicas
        ≡ find id w.fleet.replicas
  unfolding remove_unwanted
  remove_unwanted-Stays id h =
      visits-Stays limits is_database (surplus_ids agent desired w) w.requests look (listed agent w)
        _ id h
