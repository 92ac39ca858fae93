-- ===== src/Machines.antt =====
-- The machines of packages/core/canyonos_core/reconciler/machine_provisioner.py: which the config
-- no longer wants (`find_surplus`), which are gone (`find_dead`), how they are terminated
-- (`terminate`) and which can take replicas (`machines_for_replicas`).
mod Kept
mod Terminated
mod Tests
use canyonos.Prelude.{
  ℕ, ◌-◌, ◌*◌, Bool, true, false, not, ◌&&◌, ◌||◌, String, List, [], ◌∷◌, ◌++◌, Option, none, some,
  str_eq, ltb, leb, if◌then◌else◌, all, keep, lookup, contains, map, take,
}
use canyonos.Prelude.Sorting.{sort_by}

-- A `machine_record:*` hash; `fields` are those that a machine spec can ask for.
pub record Machine : Type 0 where
  pub launch_id : String
  pub provider : String
  pub fields : List (String × String)
  pub private_host : Option String
  pub launched_at : ℕ

-- A machine spec, with its provider and how many machines of it to run, as `_declared` yields it;
-- the specs that it derives from the config are a parameter.
pub record Declared : Type 0 where
  pub provider : String
  pub spec : List (String × String)
  pub count : ℕ

abbrev pub is_up : Machine → Bool
is_up m = elim m.private_host [ none ↦ false | some host ↦ not (str_eq host "") ]

abbrev pub has_value : Option String → String → Bool
has_value none v = false
has_value (some w) v = str_eq w v

unfoldable pub fits : Declared → Machine → Bool
fits d m = str_eq m.provider d.provider && all (λ e. has_value (lookup e.0 m.fields) e.1) d.spec

-- The machines already started for a declared spec.
unfoldable pub started : Declared → List Machine → List Machine
started d = keep (fits d)

-- Order by whether the host is missing, then whether no replica is on it, then the start.
unfoldable pub stays_before : List String → Machine → Machine → Bool
stays_before occupied a b =
    if is_up a && not (is_up b)
    then true
    else if is_up b && not (is_up a)
    then false
    else if contains occupied a.launch_id && not (contains occupied b.launch_id)
    then true
    else if contains occupied b.launch_id && not (contains occupied a.launch_id)
    then false
    else leb a.launched_at b.launched_at

unfoldable pub kept_of : List String → List Machine → Declared → List Machine
kept_of occupied machines d = take d.count (sort_by (stays_before occupied) (started d machines))

abbrev pub launch_ids : List Machine → List String
launch_ids = map (λ m. m.launch_id)

-- The ids that the loop over the declared specs keeps; `none` is its early return.
unfoldable pub kept_ids : List String → List Machine → List Declared → Option (List String)
kept_ids occupied machines [] = some []
kept_ids occupied machines (d ∷ ds) =
    let rest = kept_ids occupied machines ds in
    let kept = kept_of occupied machines d in
    if all is_up kept
    then elim rest [ none ↦ none | some ids ↦ some (launch_ids kept ++ ids) ]
    else none

-- `find_surplus`; `occupied` are the machines of the replica records.
unfoldable pub find_surplus : List Declared → List String → List Machine → List String
find_surplus declared occupied machines = elim (kept_ids occupied machines declared) [
  | none ↦ []
  | some kept ↦ keep (λ id. not (contains kept id)) (launch_ids machines)
]

-- What a provider answers about a running machine, or that the check failed.
pub data Check : Type 0 where
  alive : Check
  gone : Check
  failed : Check

abbrev pub is_gone : Check → Bool
is_gone gone = true
is_gone _ = false

-- `find_dead`: the machines that never came up, then those that the provider says are gone.
unfoldable pub find_dead : (Machine → Check) → List String → List Machine → List String
find_dead check starting machines =
    launch_ids (keep (λ m. not (contains starting m.launch_id) && not (is_up m)) machines)
    ++ launch_ids
        (keep (λ m. not (contains starting m.launch_id) && (is_up m && is_gone (check m))) machines)

abbrev pub is_asked : Option (List String) → String → Bool
is_asked none id = true
is_asked (some ids) id = contains ids id

unfoldable pub is_spared : Option (List String) → List String → List String → Machine → Bool
is_spared asked kept starting m =
    contains kept m.launch_id || (contains starting m.launch_id || not (is_asked asked m.launch_id))

-- `terminate`: the records after it; `terminates` is whether the provider's call succeeds.
unfoldable pub terminate :
    (Machine → Bool)
    → Option (List String)
    → List String
    → List String
    → List Machine
    → List Machine
terminate terminates asked kept starting =
    keep (λ m. is_spared asked kept starting m || not (terminates m))

abbrev pub start_wait : ℕ
start_wait = 180 * 1000000

-- `machines_for_replicas`, each machine with whether it is up.
unfoldable pub machines_for_replicas : ℕ → List String → List Machine → List (Machine × Bool)
machines_for_replicas now starting machines =
    map (λ m. (m, is_up m))
      (keep
        (λ m.
          is_up m || (contains starting m.launch_id && not (ltb start_wait (now - m.launched_at))))
        machines)

-- The first step of `_reconcile` of reconciler/reconciler.py: the dead machines are terminated. No
-- start ends between the two reads of the starts that run.
unfoldable pub reap :
    (Machine → Check) → (Machine → Bool) → List String → List Machine → List Machine
reap check terminates starting machines = elim (find_dead check starting machines) [
  | [] ↦ machines
  | id ∷ ids ↦ terminate terminates (some (id ∷ ids)) [] starting machines
]
