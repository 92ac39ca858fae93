-- ===== src/Replicas/Drain.antt =====
-- A drain over the passes of the reconciler.
use canyonos.Prelude.{
  ℕ, ◌-◌, ◌≡◌, ◌≢◌, refl, sym, ◌∙◌, ap, inl, inr, Bool, true, false, ◌||◌, String, List, [], ◌∷◌,
  none, some, subst, ◌⊎◌, Option-cases, leb, Bool-cases, if◌then◌else◌, any,
}
use canyonos.Replicas.Records.{find-keep, find-id, find-store, find-store_other, find-keep_other}
use canyonos.Replicas.{
  Replica, Pass, Fleet, is_idle, drained, drain_start, drain_timeout, mark, is_draining, find,
  store, write_drain, forget, remove_found, remove_replica, remove_over,
}

-- Whether a pass finds the replica idle, or tests the clock after the timeout of a drain that
-- started at `start`.
abbrev pub ready : ℕ → Pass → Bool
ready start pass = is_idle pass.metrics || leb drain_timeout (pass.tested_at - start)

-- The replica has no record, or its record says that it drains.
abbrev pub Leaving : String → Fleet → Type 0
Leaving id fleet =
    (find id fleet.replicas ≡ none)
    ⊎ ((r : Replica) × (find id fleet.replicas ≡ some r) × (is_draining r ≡ true))

-- What the passes of a drain that started at `start` leave, where `marked` is the record that
-- stays while it drains: they answer True exactly when one of them is ready, and the record is
-- then gone; the records of the other replicas are as before.
pub record Drained (start : ℕ) (marked : Replica) (passes : List Pass) (before after : Fleet)
    (answer : Bool) : Type 0 where
  pub answered : answer ≡ any (ready start) passes
  pub own :
      find marked.replica_id after.replicas
      ≡ (if any (ready start) passes then none else some marked)
  pub others :
      (id : String) → id ≢ marked.replica_id → find id after.replicas ≡ find id before.replicas

pub record Step (pass : Pass) (r : Replica) (before after : Fleet) (answer : Bool) : Type 0 where
  pub answered : answer ≡ drained pass r
  pub own : find r.replica_id after.replicas ≡ (if drained pass r then none else some (mark pass r))
  pub others : (id : String) → id ≢ r.replica_id → find id after.replicas ≡ find id before.replicas

remove_replica-found :
    (pass : Pass) (r : Replica) (fleet : Fleet) (b : Bool)
    → find r.replica_id fleet.replicas ≡ some r
    → drained pass r ≡ b
    → remove_replica true pass r.replica_id fleet
      ≡ (b, if b then forget r.replica_id (write_drain pass r fleet) else write_drain pass r fleet)
unfolding remove_replica remove_found
remove_replica-found pass r fleet true e d = rw (e, remove_replica) (rw d refl)
remove_replica-found pass r fleet false e d = rw (e, remove_replica) (rw d refl)

remove_replica-Step :
    (pass : Pass) (r : Replica) (fleet : Fleet)
    → find r.replica_id fleet.replicas ≡ some r
    → let result = remove_replica true pass r.replica_id fleet in
      Step pass r fleet result.1 result.0
unfolding forget write_drain mark
remove_replica-Step pass r fleet e = elim (Bool-cases (drained pass r)) [
  | inl going ↦ rw (remove_replica-found pass r fleet true e going) (record {
    answered = sym going;
    own = rw going (find-keep r.replica_id (store (mark pass r) fleet.replicas));
    others = λ id n.
        find-keep_other id r.replica_id _ n ∙ find-store_other id (mark pass r) fleet.replicas n;
  })
  | inr staying ↦ rw (remove_replica-found pass r fleet false e staying) (record {
    answered = sym staying;
    own = rw staying (find-store (mark pass r) r fleet.replicas e);
    others = λ id n. find-store_other id (mark pass r) fleet.replicas n;
  })
]

remove_over-cons :
    (pass : Pass) (passes : List Pass) (id : String) (fleet : Fleet) (b : Bool)
    → (remove_replica true pass id fleet).0 ≡ b
    → remove_over (pass ∷ passes) id fleet ≡ (
        if b
        then remove_replica true pass id fleet
        else remove_over passes id (remove_replica true pass id fleet).1)
unfolding remove_over
remove_over-cons pass passes id fleet true e = rw e refl
remove_over-cons pass passes id fleet false e = rw e refl

remove_replica-forget :
    (pass : Pass) (r : Replica) (fleet : Fleet)
    → find r.replica_id fleet.replicas ≡ some r
    → remove_replica false pass r.replica_id fleet ≡ (true, forget r.replica_id fleet)
unfolding remove_replica remove_found
remove_replica-forget pass r fleet e = rw (e, remove_replica) refl

remove_replica-none :
    (drain : Bool) (pass : Pass) (id : String) (fleet : Fleet)
    → find id fleet.replicas ≡ none
    → remove_replica drain pass id fleet ≡ (true, fleet)
unfolding remove_replica
remove_replica-none drain pass id fleet e = rw (e, remove_replica) refl

-- After a pass that removes or drains it, a replica is leaving, and the others are as they were.
Removal : Bool → Pass → String → Fleet → Type 0
Removal drain pass id fleet =
    let after = (remove_replica drain pass id fleet).1 in
    Leaving id after
    × ((other : String) → other ≢ id → find other after.replicas ≡ find other fleet.replicas)

remove_replica-Removal :
    (drain : Bool) (pass : Pass) (r : Replica) (fleet : Fleet)
    → find r.replica_id fleet.replicas ≡ some r
    → Removal drain pass r.replica_id fleet
unfolding forget mark Removal
remove_replica-Removal false pass r fleet e = rw (remove_replica-forget pass r fleet e) (
  inl (find-keep r.replica_id fleet.replicas),
  λ id n. find-keep_other id r.replica_id fleet.replicas n,
)
remove_replica-Removal true pass r fleet e =
    let step = remove_replica-Step pass r fleet e in
    elim (Bool-cases (drained pass r)) [
      | inl going ↦ (inl (rw going at step.own), step.others)
      | inr staying ↦ (inr (mark pass r, rw staying at step.own, refl), step.others)
    ]

pub remove_replica-cases :
    (drain : Bool) (pass : Pass) (id : String) (fleet : Fleet)
    → let after = (remove_replica drain pass id fleet).1 in
      Leaving id after
      × ((other : String) → other ≢ id → find other after.replicas ≡ find other fleet.replicas)
unfolding Removal
remove_replica-cases drain pass id fleet = elim (Option-cases (find id fleet.replicas)) [
  | inl e ↦ rw (remove_replica-none drain pass id fleet e) (inl e, λ other n. refl)
  | inr (r, e) ↦
      let same = find-id id fleet.replicas r e in
      subst (λ i. Removal drain pass i fleet) same
        (remove_replica-Removal drain pass r fleet
          (subst (λ i. find i fleet.replicas ≡ some r) (sym same) e))
]

-- A replica that has been marked keeps the start of its drain.
remove_over-marked :
    (start : ℕ) (passes : List Pass) (r : Replica) (fleet : Fleet)
    → r.draining_at ≡ some start
    → find r.replica_id fleet.replicas ≡ some r
    → let result = remove_over passes r.replica_id fleet in
      Drained start r passes fleet result.1 result.0
unfolding remove_over drain_start drained mark
remove_over-marked start [] r fleet d e = record { answered = refl; own = e; others = λ id n. refl }
remove_over-marked start (pass ∷ passes) r fleet d e =
    let step = remove_replica-Step pass r fleet e in
    let start_eq : drain_start pass r ≡ start = rw d refl in
    let same : mark pass r ≡ r =
      ap
        (λ o. record {
          replica_id = r.replica_id;
          agent_name = r.agent_name;
          address = r.address;
          created_at = r.created_at;
          draining_at = o;
        })
        (ap some start_eq ∙ sym d) in
    let ready_eq : drained pass r ≡ ready start pass =
      ap (λ t. is_idle pass.metrics || leb drain_timeout (pass.tested_at - t)) start_eq in
    elim (Bool-cases (ready start pass)) [
      | inl yes_ready ↦
          rw
            (remove_over-cons pass passes r.replica_id fleet true
              (step.answered ∙ ready_eq ∙ yes_ready))
            (record {
              answered = rw yes_ready (step.answered ∙ ready_eq ∙ yes_ready);
              own = rw yes_ready (rw (ready_eq ∙ yes_ready) at step.own);
              others = step.others;
            })
      | inr not_ready ↦
          rw
            (remove_over-cons pass passes r.replica_id fleet false
              (step.answered ∙ ready_eq ∙ not_ready))
            (let rest =
                remove_over-marked start passes r (remove_replica true pass r.replica_id fleet).1 d
                  ((rw (ready_eq ∙ not_ready) at step.own) ∙ ap some same) in
              record {
                answered = rw not_ready rest.answered;
                own = rw not_ready rest.own;
                others = λ id n. rest.others id n ∙ step.others id n;
              })
    ]

-- A replica with a record is drained over at least one pass. The drain starts at the time that the
-- record has, or else at the first pass. The passes answer True exactly when one of them finds the
-- replica idle or comes DRAIN_TIMEOUT_SECONDS after that start, and the record is then gone; until
-- then it stays, marked with that start. No other replica's record changes.
pub remove_over-Drained :
    (pass : Pass) (passes : List Pass) (r : Replica) (fleet : Fleet)
    → find r.replica_id fleet.replicas ≡ some r
    → let result = remove_over (pass ∷ passes) r.replica_id fleet in
      Drained (drain_start pass r) (mark pass r) (pass ∷ passes) fleet result.1 result.0
unfolding drained mark
remove_over-Drained pass passes r fleet e =
    let step = remove_replica-Step pass r fleet e in
    elim (Bool-cases (ready (drain_start pass r) pass)) [
      | inl now_ready ↦
          rw (remove_over-cons pass passes r.replica_id fleet true (step.answered ∙ now_ready))
            (record {
              answered = rw now_ready (step.answered ∙ now_ready);
              own = rw now_ready (rw now_ready at step.own);
              others = step.others;
            })
      | inr not_ready ↦
          rw (remove_over-cons pass passes r.replica_id fleet false (step.answered ∙ not_ready)) (
            let rest =
              remove_over-marked (drain_start pass r) passes (mark pass r)
                (remove_replica true pass r.replica_id fleet).1 refl (rw not_ready at step.own) in
            record {
              answered = rw not_ready rest.answered;
              own = rw not_ready rest.own;
              others = λ id n. rest.others id n ∙ step.others id n;
            })
    ]
