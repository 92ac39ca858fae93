-- ===== src/Schema/Manifest/Agents.antt =====
-- The `agents:` list: `_agents`, `_agent` and the readers that only they use.
pub mod Names
pub mod Fits
use Prim.Native.Char.{Char, code}
use text.Mathlib.Text.{starts_with}
use canyonos.Prelude.{
  ℕ, suc, Bool, true, false, not, ◌&&◌, ◌||◌, String, List, [], ◌∷◌, ◌++◌, Option, none, some, ◌==◌,
  str_eq, if◌then◌else◌, contains, map,
}
use canyonos.Prelude.Int.{ℤ, pos}
use canyonos.Float.{finite}
use canyonos.Value.{Value, null, str, list, dict, Fields, field, end, get, get_or_null, to_list}
use canyonos.Schema.{
  Place, key, item, field_at, unknown_key, not_for_type, missing, not_mapping, not_list, rooted,
  escapes, not_python, not_requirement, bad_type, single_container, endpoint_reserved,
  duplicate_agent, Checked, pure, reject, ◌>>=◌, ◌>>◌, Host,
}
use canyonos.Schema.Checks.{
  done, mapping, integer, port, boolean, resolve, number, string, string_list, string_mapping,
}
use canyonos.Schema.Functions.{
  stub_global_names, FunctionDecl, ends_with, with_some, identifier, functions,
}
use canyonos.Schema.Manifest.Parts.{id_ℤ, id_text, project_relative_py, requirements, resources}
use canyonos.Schema.Manifest.{
  code_agent_keys, database_keys, all_agent_keys, resource_keys, endpoint_agent_name, Resources,
  AgentType, agent, database, CodeFields, DatabaseFields, Kind, code_agent, database_agent, Common,
  AgentSpec,
}

abbrev pub specs_of : List (ℕ × AgentSpec) → List AgentSpec
specs_of parsed = map (λ e. e.1) parsed

module _ (host : Host) where
  abbrev pub type_named : Value → Option AgentType
  type_named (str s) =
      if str_eq s "agent" then some agent else if str_eq s "database" then some database else none
  type_named _ = none

  -- `_agent_type`
  unfoldable pub agent_type : Fields → Place → Checked (Option AgentType)
  agent_type node prefix = elim (get "type" node) [
    | none ↦ pure (some agent)
    | some v ↦ elim (type_named (resolve host v)) [
      | none ↦ reject (field_at prefix "type") bad_type none
      | some t ↦ pure (some t)
    ]
  ]

  abbrev pub keys_of_type : Option AgentType → List String
  keys_of_type none = all_agent_keys
  keys_of_type (some agent) = code_agent_keys
  keys_of_type (some database) = database_keys

  unfoldable pub check_agent_key : String → Place → List String → Checked (Unit {0})
  check_agent_key k p allowed =
      if contains allowed k
      then done
      else if contains all_agent_keys k
      then reject p not_for_type tt
      else reject p unknown_key tt

  -- `_check_agent_keys`
  unfoldable pub check_agent_keys : Fields → Place → List String → Checked (Unit {0})
  unfolding check_agent_key
  check_agent_keys end prefix allowed = done
  check_agent_keys (field k v fs) prefix allowed = do
    check_agent_key k (field_at prefix k) allowed
    check_agent_keys fs prefix allowed

  unfoldable pub agent_name : Option AgentType → Fields → Place → Checked (Option String)
  agent_name (some agent) node prefix = identifier host node "name" prefix true stub_global_names
  agent_name _ node prefix = string host some node "name" prefix none true

  unfoldable pub common : Option AgentType → Fields → Place → Checked Common
  unfolding agent_name
  common t node prefix = do
    n ← agent_name t node prefix
    r ← integer id_ℤ node "replicas" prefix (pos 1) (some (pos 1)) none
    rs ← resources host node prefix
    s ← boolean node "stateful" prefix false
    e ← string_mapping host node "env" prefix
    pure (record { name = n; replicas = r; resources = rs; stateful = s; env = e })

  abbrev pub is_one : ℤ → Bool
  is_one (pos n) = n == 1
  is_one _ = false

  unfoldable pub database_kind : Fields → Place → ℤ → Checked Kind
  database_kind node prefix r = do
    (if is_one r then done else reject (field_at prefix "replicas") single_container tt)
    i ← string host id_text node "image" prefix "" true
    d ← port id_ℤ node "db_port" prefix (pos 5432)
    v ← string host some node "volume_path" prefix none false
    pure (database_agent (record { image = i; db_port = d; volume_path = v }))

  unfoldable pub code_kind : Fields → Place → Checked Kind
  unfolding project_relative_py
  code_kind node prefix = do
    e ← project_relative_py host node "entrypoint" prefix true
    rs ← requirements host node prefix
    fs ← functions host node prefix
    pure (code_agent (record { entrypoint = e; requirements = rs; functions = fs }))

  unfoldable pub kind : Option AgentType → Fields → Place → ℤ → Checked (Option Kind)
  unfolding database_kind code_kind
  kind none node prefix r = pure none
  kind (some agent) node prefix r = do k ← code_kind node prefix; pure (some k)
  kind (some database) node prefix r = do k ← database_kind node prefix r; pure (some k)

  abbrev pub assemble : Common → Option String → Option Kind → Option AgentSpec
  assemble c (some n) (some k) = some (record {
    name = n;
    replicas = c.replicas;
    resources = c.resources;
    stateful = c.stateful;
    env = c.env;
    kind = k;
  })
  assemble c _ _ = none

  -- `_agent` of an entry and its place.
  unfoldable pub agent_entry : Value → Place → Checked (Option AgentSpec)
  unfolding agent_type check_agent_keys common kind
  agent_entry (dict node) p = do
    t ← agent_type node p
    check_agent_keys node p (keys_of_type t)
    c ← common t node p
    k ← kind t node p c.replicas
    pure (assemble c c.name k)
  agent_entry _ p = reject p not_mapping none

  abbrev pub agent_place : ℕ → Place
  agent_place i = key "agents" ∷ item i ∷ []

  abbrev pub indexed_agent : ℕ → Option AgentSpec → Option (ℕ × AgentSpec)
  indexed_agent i none = none
  indexed_agent i (some a) = some (i, a)

  unfoldable pub agents_from : List Value → ℕ → Checked (List (ℕ × AgentSpec))
  unfolding agent_entry
  agents_from [] i = pure []
  agents_from (v ∷ vs) i = do
    a ← agent_entry v (agent_place i)
    rest ← agents_from vs (suc i)
    pure (with_some (indexed_agent i a) rest)

  -- One round of the loop over the names, with those in lower case that earlier agents claim.
  unfoldable pub check_name : String → Place → List String → Checked (Unit {0})
  check_name n p seen =
      if str_eq n endpoint_agent_name
      then reject p endpoint_reserved tt
      else if contains seen n
      then reject p duplicate_agent tt
      else done

  abbrev pub claim : String → List String → List String
  claim n seen = if str_eq n endpoint_agent_name || contains seen n then seen else n ∷ seen

  unfoldable pub check_names : List (ℕ × AgentSpec) → List String → Checked (Unit {0})
  unfolding check_name
  check_names [] seen = done
  check_names ((i, a) ∷ rest) seen = do
    check_name (host.lower a.name) (field_at (agent_place i) "name") seen
    check_names rest (claim (host.lower a.name) seen)

  unfoldable pub agents_value : Value → Checked (List AgentSpec)
  unfolding agents_from check_names
  agents_value null = reject (key "agents" ∷ []) missing []
  agents_value (list vs) = do
    parsed ← agents_from (to_list vs) 0
    check_names parsed []
    pure (specs_of parsed)
  agents_value _ = reject (key "agents" ∷ []) not_list []

  -- `_agents`
  unfoldable pub agents : Fields → Checked (List AgentSpec)
  unfolding agents_value
  agents node = agents_value (get_or_null "agents" node)
