-- ===== src/Desired/Tests.antt =====
-- Desired counts at concrete inputs, with the keys of Redis as a list of entries.
use canyonos.Prelude.{
  ℕ, ◌≡◌, ◌≢◌, refl, sym, true, String, List, [], ◌∷◌, Option, none, some, lookup, str_eq, eq_iff,
  Bool-cases, inl, inr,
}
use canyonos.Prelude.Int.{ℤ, pos, negsuc, pos_part}
use canyonos.Value.{Value, int, bool, str}
use canyonos.Desired.{
  RedisKeys, AgentSpec, replica_count, get_desired, set_desired, desired_key, desired_agent_specs,
}
use canyonos.Desired.Counts.{get_desired-set_desired}

abbrev Entries : Type 0
Entries = List (String × ℕ)

lookup-head : (k : String) (v : ℕ) (s : Entries) → lookup k ((k, v) ∷ s) ≡ some v
lookup-head k v s = let self : str_eq k k ≡ true = (eq_iff k k).1 refl in rw self refl

lookup-tail : (k j : String) (v : ℕ) (s : Entries) → k ≢ j → lookup k ((j, v) ∷ s) ≡ lookup k s
lookup-tail k j v s n = elim (Bool-cases (str_eq j k)) [
  | inl same ↦ absurd (n (sym ((eq_iff j k).0 same)))
  | inr other ↦ rw other refl
]

abbrev keys : RedisKeys Entries ℕ
keys = record {
  get = λ k s. lookup k s;
  set = λ k v s. (k, v) ∷ s;
  get-set = lookup-head;
  get-set_other = lookup-tail;
}

abbrev int_of : ℕ → Option ℤ
int_of n = some (pos n)

abbrev spec : String → Option Value → AgentSpec
spec name replicas = record { name = name; replicas = replicas }

abbrev stored : Entries
stored = ("agent:search:desired_replicas", 4) ∷ []

merged :
    desired_agent_specs keys
      (λ n. n)
      int_of
      (set_desired keys (λ n. n) int_of "chat" (negsuc 2) stored)
      (spec "chat" none
        ∷ spec "search" (some (int (pos 2)))
        ∷ spec "db" (some (bool true))
        ∷ spec "odd" (some (str "two"))
        ∷ [])
    ≡ spec "chat" (some (int (pos 0)))
      ∷ spec "search" (some (int (pos 4)))
      ∷ spec "db" (some (int (pos 1)))
      ∷ spec "odd" (some (str "two"))
      ∷ []
unfolding desired_agent_specs set_desired get_desired replica_count desired_key
merged = refl

get_desired-set_desired_example :
    (get_desired keys
        (λ n. n)
        int_of
        "chat"
        (pos 1)
        (set_desired keys (λ n. n) int_of "chat" (pos 3) stored)
      ≡ pos (pos_part (pos 3)))
    × ((other : String)
        → other ≢ "chat"
        → get_desired keys
            (λ n. n)
            int_of
            other
            (pos 1)
            (set_desired keys (λ n. n) int_of "chat" (pos 3) stored)
          ≡ get_desired keys (λ n. n) int_of other (pos 1) stored)
get_desired-set_desired_example =
    get_desired-set_desired keys (λ n. n) int_of (λ n. refl) "chat" (pos 3) (pos 1) stored
