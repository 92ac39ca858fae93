-- ===== src/Desired.antt =====
-- The desired replica counts of packages/core/canyonos_core/reconciler/state.py, over an interface
-- of Redis keys. How the client writes a number as text, and Python's `int` of a text, are
-- parameters.
mod Counts
mod Tests
use canyonos.Prelude.{Bool, true, false, ℕ, ◌≡◌, ◌≢◌, String, List, [], ◌∷◌, Option, none, some}
use Prim.Native.String.{◌++◌ as append}
use canyonos.Prelude.Int.{ℤ, pos, pos_part}
use canyonos.Value.{Value, int, bool}

-- The keys of one Redis with values of type `T`, and what the operations do to them.
pub record RedisKeys (S T : Type 0) : Type 0 where
  pub get : String → S → Option T
  pub set : String → T → S → S
  pub get-set : (k : String) (v : T) (s : S) → get k (set k v s) ≡ some v
  pub get-set_other : (k j : String) (v : T) (s : S) → k ≢ j → get k (set j v s) ≡ get k s

-- An agent spec: its name, and `replicas` where it is written.
pub record AgentSpec : Type 0 where
  pub name : String
  pub replicas : Option Value

-- `replica_count`: `isinstance(replicas, int)` holds of a bool too, which counts as 0 or 1.
unfoldable pub replica_count : AgentSpec → Option ℤ
replica_count a = elim a.replicas [
  | none ↦ some (pos 1)
  | some v ↦ elim v [
    | int z ↦ some z
    | bool b ↦ some (elim b [ true ↦ pos 1 | false ↦ pos 0 ])
    | _ ↦ none
  ]
]

unfoldable pub desired_key : String → String
desired_key agent = append "agent:" (append agent ":desired_replicas")

module _ {S T : Type 0} (redis : RedisKeys S T) (text_of : ℕ → T) (int_of : T → Option ℤ) where
  -- `max(0, int(raw))`, or the default where there is no count.
  abbrev pub count_or : ℤ → Option ℤ → ℤ
  count_or default none = default
  count_or default (some z) = pos (pos_part z)

  -- `get_desired`
  unfoldable pub get_desired : String → ℤ → S → ℤ
  get_desired agent default s = elim (redis.get (desired_key agent) s) [
    | none ↦ default
    | some raw ↦ count_or default (int_of raw)
  ]

  -- `set_desired`
  unfoldable pub set_desired : String → ℤ → S → S
  set_desired agent count s = redis.set (desired_key agent) (text_of (pos_part count)) s

  abbrev pub desired_spec : S → AgentSpec → AgentSpec
  desired_spec s a = elim (replica_count a) [
    | none ↦ a
    | some configured ↦ record {
      name = a.name;
      replicas = some (int (get_desired a.name configured s));
    }
  ]

  -- `desired_agent_specs`
  unfoldable pub desired_agent_specs : S → List AgentSpec → List AgentSpec
  desired_agent_specs s [] = []
  desired_agent_specs s (a ∷ specs) = desired_spec s a ∷ desired_agent_specs s specs
