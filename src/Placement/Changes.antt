-- ===== src/Placement/Changes.antt =====
-- What a placement changes among the machines.
use canyonos.Prelude.{
  ℕ, zero, suc, ◌+◌, ◌++◌, ◌≢◌, ◌≡◌, refl, ap, List, [], ◌∷◌, Option, none, some, arith,
}
use canyonos.Float.{Float}
use canyonos.Placement.{Machine, NewReplica, update_at, with_replica}

-- The machine at an index.
abbrev pub at : ℕ → List Machine → Option Machine
at i [] = none
at zero (m ∷ ms) = some m
at (suc i) (m ∷ ms) = at i ms

at-update_at :
    (f : Machine → Machine) (i : ℕ) (m : Machine) (ms : List Machine)
    → at i ms ≡ some m
    → at i (update_at i f ms) ≡ some (f m)
unfolding update_at
at-update_at f i m [] e = absurd (cc e)
at-update_at f zero m (n ∷ ms) e = let same : n ≡ m = cc e in ap (λ k. some (f k)) same
at-update_at f (suc i) m (n ∷ ms) e = at-update_at f i m ms e

at-update_at_ne :
    (f : Machine → Machine) (i : ℕ) (ms : List Machine) (j : ℕ)
    → j ≢ i
    → at j (update_at i f ms) ≡ at j ms
unfolding update_at
at-update_at_ne f i [] j h = refl
at-update_at_ne f zero (n ∷ ms) zero h = absurd (h refl)
at-update_at_ne f zero (n ∷ ms) (suc j) h = refl
at-update_at_ne f (suc i) (n ∷ ms) zero h = refl
at-update_at_ne f (suc i) (n ∷ ms) (suc j) h = at-update_at_ne f i ms j (λ e. h (ap suc e))

module _ (add quotient : Float → Float → Float) where
  -- What placing a replica makes of a machine: its use grows by the replica's needs and by one
  -- replica, which is its last, and the rest stays.
  pub record Takes (r : NewReplica) (m after : Machine) : Type 0 where
    pub memory : after.used_memory ≡ m.used_memory + r.memory
    pub cpu : after.used_cpu ≡ add m.used_cpu r.cpu
    pub count : after.used_replicas ≡ suc m.used_replicas
    pub replicas : after.replicas ≡ m.replicas ++ (r ∷ [])
    pub provider : after.provider ≡ m.provider
    pub owner : after.owner ≡ m.owner
    pub capacity : after.capacity ≡ m.capacity

  with_replica-Takes : (r : NewReplica) (m : Machine) → Takes r m (with_replica add quotient r m)
  unfolding with_replica
  with_replica-Takes r m = record {
    memory = refl;
    cpu = refl;
    count = omega arith;
    replicas = refl;
    provider = refl;
    owner = refl;
    capacity = refl;
  }

  -- The machine at the index takes the replica, and no other machine changes.
  pub record Placed (r : NewReplica) (machines : List Machine) (i : ℕ) (m : Machine)
      (placed : List Machine) : Type 0 where
    pub after : Machine
    pub stands_after : at i placed ≡ some after
    pub takes : Takes r m after
    pub others : (j : ℕ) → j ≢ i → at j placed ≡ at j machines

  pub update_at-Placed :
      (r : NewReplica) (machines : List Machine) (i : ℕ) (m : Machine)
      → at i machines ≡ some m
      → Placed r machines i m (update_at i (with_replica add quotient r) machines)
  update_at-Placed r machines i m e = record {
    after = with_replica add quotient r m;
    stands_after = at-update_at (with_replica add quotient r) i m machines e;
    takes = with_replica-Takes r m;
    others = at-update_at_ne (with_replica add quotient r) i machines;
  }
