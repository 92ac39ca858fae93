-- ===== src/Placement.antt =====
-- The choice of the machine for a new replica, packages/core/canyonos_core/reconciler/placement.py.
-- The addition and division of floats, with their rounding, are parameters; capacities are not 0.
mod Changes
mod Choice
mod Dedicated
mod Tests
use canyonos.Prelude.{
  ℕ, zero, suc, ◌+◌, Bool, true, false, ◌&&◌, String, List, [], ◌∷◌, ◌++◌, Option, none, some,
  str_eq, ◌==◌, if◌then◌else◌, keep,
}
use canyonos.Prelude.Int.{pos}
use canyonos.Float.{Float, finite, lt}

pub record NewReplica : Type 0 where
  pub agent_name : String
  pub replica_id : String
  pub cpu : Float
  pub memory : ℕ

pub record Capacity : Type 0 where
  pub cpu : Float
  pub memory : ℕ

-- A machine; `owner` is its record's `agent_name`, and the `used_` fields are its `used`.
pub record Machine : Type 0 where
  pub provider : String
  pub owner : Option String
  pub capacity : Option Capacity
  pub used_cpu : Float
  pub used_memory : ℕ
  pub used_replicas : ℕ
  pub replicas : List NewReplica

unfoldable pub is_candidate : String → NewReplica → Machine → Bool
is_candidate provider r m =
    str_eq m.provider provider
    && elim m.owner [ none ↦ true | some agent ↦ str_eq agent r.agent_name && m.used_replicas == 0 ]

abbrev pub enumerate : ℕ → List Machine → List (ℕ × Machine)
enumerate i [] = []
enumerate i (m ∷ ms) = (i, m) ∷ enumerate (suc i) ms

unfoldable pub update_at : ℕ → (Machine → Machine) → List Machine → List Machine
update_at i f [] = []
update_at zero f (m ∷ ms) = f m ∷ ms
update_at (suc i) f (m ∷ ms) = m ∷ update_at i f ms

abbrev pub exact : ℕ → Float
exact n = finite (pos n) 0

abbrev pub larger : Float → Float → Float
larger x y = if lt x y then y else x

module _ (add quotient : Float → Float → Float) where
  unfoldable pub load : Machine → Float
  load m = elim m.capacity [
    | none ↦ exact 0
    | some c ↦ larger (quotient m.used_cpu c.cpu) (quotient (exact m.used_memory) (exact c.memory))
  ]

  -- `min(candidates, key=…)`, the first of equals.
  unfoldable pub lowest : ℕ × Machine → List (ℕ × Machine) → ℕ × Machine
  lowest best [] = best
  lowest best (c ∷ cs) = lowest (if lt (load c.1) (load best.1) then c else best) cs

  unfoldable pub with_replica : NewReplica → Machine → Machine
  with_replica r m = record {
    provider = m.provider;
    owner = m.owner;
    capacity = m.capacity;
    used_cpu = add m.used_cpu r.cpu;
    used_memory = m.used_memory + r.memory;
    used_replicas = m.used_replicas + 1;
    replicas = m.replicas ++ (r ∷ []);
  }

  unfoldable pub candidates : String → NewReplica → List Machine → List (ℕ × Machine)
  candidates provider r machines = keep (λ c. is_candidate provider r c.1) (enumerate 0 machines)

  unfoldable pub choose : List (ℕ × Machine) → Option (ℕ × Machine)
  choose [] = none
  choose (c ∷ cs) = some (lowest c cs)

  -- `place`: the index of the machine and the machines with the replica on it.
  unfoldable pub place : String → NewReplica → List Machine → Option (ℕ × List Machine)
  place provider r machines = elim (choose (candidates provider r machines)) [
    | none ↦ none
    | some c ↦ some (c.0, update_at c.0 (with_replica r) machines)
  ]
