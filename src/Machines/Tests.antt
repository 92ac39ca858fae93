-- ===== src/Machines/Tests.antt =====
-- A pool of machines at concrete inputs.
use canyonos.Prelude.{
  ℕ, ◌≡◌, ◌⊎◌, inr, refl, Bool, true, false, String, List, [], ◌∷◌, Option, none, some, All, str_eq,
  if◌then◌else◌,
}
use mathlib.Core.List.{Memᴰ}
use canyonos.Prelude.Members.{str_eq-false}
use canyonos.Prelude.Sorting.{sort_by, insert_by}
use canyonos.Machines.{
  Machine, Declared, Check, alive, gone, fits, started, stays_before, kept_of, kept_ids,
  find_surplus, find_dead, is_spared, terminate, reap, machines_for_replicas,
}
use canyonos.Machines.Kept.{KeepsSpec, find_surplus_cases}
use canyonos.Machines.Terminated.{Lives, reap-Lives, reap-Lives_or_fails}

abbrev machine : String → Option String → ℕ → Machine
machine id host launched_at = record {
  launch_id = id;
  provider = "ec2";
  fields = ("instance_type", "t3.large") ∷ ("market", "spot") ∷ [];
  private_host = host;
  launched_at = launched_at;
}

abbrev pool : List Machine
pool =
    machine "m1" (some "10.0.0.1") 500
    ∷ machine "m2" (some "10.0.0.2") 100
    ∷ machine "m3" (some "10.0.0.3") 900
    ∷ machine "m4" none 950
    ∷ []

abbrev declared : List Declared
declared = record { provider = "ec2"; spec = ("instance_type", "t3.large") ∷ []; count = 2 } ∷ []

surplus : find_surplus declared ("m3" ∷ []) pool ≡ "m1" ∷ "m4" ∷ []
unfolding find_surplus kept_ids kept_of started fits stays_before sort_by insert_by
surplus = refl

find_surplus_cases_example :
    (find_surplus declared ("m3" ∷ []) pool ≡ [])
    ⊎ All (KeepsSpec ("m3" ∷ []) pool (find_surplus declared ("m3" ∷ []) pool)) declared
find_surplus_cases_example = find_surplus_cases declared ("m3" ∷ []) pool

abbrev check : Machine → Check
check m = if str_eq m.launch_id "m2" then gone else alive

abbrev terminates : Machine → Bool
terminates m = true

reaped :
    reap check terminates [] pool
    ≡ machine "m1" (some "10.0.0.1") 500 ∷ machine "m3" (some "10.0.0.3") 900 ∷ []
unfolding reap find_dead terminate is_spared
reaped = refl

fit_for_replicas :
    machines_for_replicas 180000951 ("m4" ∷ []) pool
    ≡ (machine "m1" (some "10.0.0.1") 500, true)
      ∷ (machine "m2" (some "10.0.0.2") 100, true)
      ∷ (machine "m3" (some "10.0.0.3") 900, true)
      ∷ []
unfolding machines_for_replicas
fit_for_replicas = refl

lives : All (λ n. n.launch_id ≡ "m3" → Lives check terminates [] n) pool
lives = (
  (λ e. inr (refl, refl)),
  (
    (λ e. absurd (str_eq-false "m2" "m3" refl e)),
    ((λ e. inr (refl, refl)), ((λ e. absurd (str_eq-false "m4" "m3" refl e)), tt)),
  ),
)

reap-Lives_example : Memᴰ (machine "m3" (some "10.0.0.3") 900) (reap check terminates [] pool)
reap-Lives_example =
    reap-Lives check terminates [] pool (machine "m3" (some "10.0.0.3") 900)
      (Memᴰ.tail (Memᴰ.tail (Memᴰ.head refl))) lives

reap-Lives_or_fails_example :
    All (λ m. Lives check terminates [] m ⊎ (terminates m ≡ false)) (reap check terminates [] pool)
reap-Lives_or_fails_example = reap-Lives_or_fails check terminates [] pool
