-- ===== src/Placement/Tests.antt =====
-- Placements at concrete inputs, with an addition and a division that are exact on them.
use canyonos.Prelude.{
  ℕ, zero, ◌+◌, ◌≡◌, ◌⊎◌, refl, false, String, List, [], ◌∷◌, Option, none, some, All, arith, ◌/◌,
  ◌*◌,
}
use canyonos.Prelude.Int.{pos}
use canyonos.Float.{Float, finite, nan, lt, is_nan}
use canyonos.Placement.{
  Machine, NewReplica, is_candidate, enumerate, update_at, exact, load, lowest, with_replica,
  candidates, choose, place,
}
use canyonos.Placement.Changes.{Placed}
use canyonos.Placement.Choice.{IsChosen, place_cases}
use canyonos.Placement.Dedicated.{IsDedicated, place-IsDedicated}

abbrev add : Float → Float → Float
add (finite (pos a) zero) (finite (pos b) zero) = finite (pos (a + b)) 0
add _ _ = nan

-- In sixteenths.
abbrev quotient : Float → Float → Float
quotient (finite (pos a) zero) (finite (pos b) zero) = finite (pos (a * 16 / b)) 4
quotient _ _ = nan

abbrev machine : Option String → ℕ → ℕ → Machine
machine owner used_cpu used_replicas = record {
  provider = "ec2";
  owner = owner;
  capacity = some (record { cpu = exact 4; memory = 8192 });
  used_cpu = exact used_cpu;
  used_memory = 1024;
  used_replicas = used_replicas;
  replicas = [];
}

abbrev machines : List Machine
machines =
    machine none 3 2
    ∷ machine (some "chat") 0 1
    ∷ machine none 1 1
    ∷ machine (some "search") 0 0
    ∷ []

abbrev replica : NewReplica
replica = record { agent_name = "chat"; replica_id = "chat-1"; cpu = exact 1; memory = 512 }

placed :
    place add quotient "ec2" replica machines
    ≡ some (2, update_at 2 (with_replica add quotient replica) machines)
unfolding place choose candidates is_candidate lowest load lt
placed = refl

are_numbers :
    All
      (λ c. is_nan (load add quotient c.1) ≡ false)
      (candidates add quotient "ec2" replica machines)
unfolding candidates is_candidate load lt
are_numbers = (refl, (refl, tt))

place_cases_example :
    (place add quotient "ec2" replica machines ≡ none)
      × All (λ c. is_candidate "ec2" replica c.1 ≡ false) (enumerate 0 machines)
    ⊎ ((i : ℕ) × (m : Machine) × (after : List Machine) × IsChosen add quotient "ec2" replica
          machines i m
        × (place add quotient "ec2" replica machines ≡ some (i, after))
        × Placed add quotient replica machines i m after)
place_cases_example = place_cases add quotient "ec2" replica machines are_numbers

dedicated : (owner : Option String) (used n : ℕ) → n ≡ 0 → IsDedicated (machine owner used n)
dedicated owner used n h = record {
  counted = omega arith;
  single = λ a e. ground arith;
  own = λ a e. tt;
}

shared : (used n : ℕ) → IsDedicated (machine none used n)
shared used n = record { counted = omega arith; single = λ a e. absurd (cc e); own = λ a e. tt }

taken : IsDedicated (machine (some "chat") 0 1)
taken = record { counted = omega arith; single = λ a e. omega arith; own = λ a e. tt }

place-IsDedicated_example :
    All IsDedicated (update_at 2 (with_replica add quotient replica) machines)
place-IsDedicated_example =
    place-IsDedicated add quotient "ec2" replica machines
      (update_at 2 (with_replica add quotient replica) machines) 2
      (shared 3 2, (taken, (shared 1 1, (dedicated (some "search") 0 0 refl, tt)))) placed
