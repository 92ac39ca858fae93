-- ===== src/Schema/Manifest/Providers.antt =====
-- The providers' sections: `_check_provider_sections`, `_check_declared` and `_by_agent`, with the
-- keys that the `_schema` modules under reconciler/providers declare.
use canyonos.Prelude.{
  Bool, true, false, ◌&&◌, String, List, [], ◌∷◌, ◌++◌, Option, none, some, str_eq, if◌then◌else◌,
  contains, map,
}
use canyonos.Prelude.Int.{pos}
use canyonos.Value.{Value, dict, Fields, get, get_or_null}
use canyonos.Schema.{
  Place, key, field_at, missing, retired, not_an_agent, agents_left_out, section_missing, Checked,
  reject, ◌>>=◌, ◌>>◌, Host,
}
use canyonos.Schema.Checks.{
  done, mapping, integer, port, counts, string, string_list, string_mapping,
}
use canyonos.Schema.Manifest.{AgentSpec}
use canyonos.Schema.Manifest.Sections.{is_null}

pub data ValueKind : Type 0 where
  port_kind integer_kind list_kind counts_kind agents_kind text_kind : ValueKind

pub record Declared : Type 0 where
  pub name : String
  pub value_kind : ValueKind
  pub required : Bool

abbrev pub declared : String → ValueKind → Bool → Declared
declared n k r = record { name = n; value_kind = k; required = r }

pub record SectionSchema : Type 0 where
  pub provider : String
  pub section : String
  pub keys : List Declared
  pub retired_keys : List String

-- `SECTION_KEYS` of ec2-pool, with the kind of its `machine_type`.
abbrev pub ec2_keys : ValueKind → List Declared
ec2_keys machine_type =
    declared "region" text_kind false
    ∷ declared "machine_type" machine_type true
    ∷ declared "market_type" text_kind false
    ∷ declared "ami_id" text_kind false
    ∷ declared "subnet_id" text_kind false
    ∷ declared "ssh_user" text_kind false
    ∷ declared "security_group_ids" list_kind false
    ∷ declared "iam_profile_name" text_kind false
    ∷ declared "public_ip_timeout" integer_kind false
    ∷ declared "controller_health_timeout" integer_kind false
    ∷ []

abbrev pub ec2_pool : SectionSchema
ec2_pool = record {
  provider = "ec2-pool";
  section = "ec2-pool";
  keys = ec2_keys counts_kind;
  retired_keys = "ssh_private_key_path" ∷ [];
}

abbrev pub ec2_assign : SectionSchema
ec2_assign = record {
  provider = "ec2-assign";
  section = "ec2-assign";
  keys = ec2_keys agents_kind;
  retired_keys = "ssh_private_key_path" ∷ [];
}

-- The providers that have a section.
abbrev pub section_schemas : List SectionSchema
section_schemas = ec2_pool ∷ ec2_assign ∷ []

abbrev pub is_dict : Value → Bool
is_dict (dict fs) = true
is_dict _ = false

abbrev pub names_in : List (String × String) → List String
names_in m = map (λ e. e.0) m

unfoldable pub check_only_agents : List String → Place → List String → Checked (Unit {0})
check_only_agents [] p agent_names = done
check_only_agents (n ∷ ns) p agent_names = do
  (if contains agent_names n then done else reject (field_at p n) not_an_agent tt)
  check_only_agents ns p agent_names

-- `all(name in value for name in agent_names)`
abbrev pub all_listed : List String → List String → Bool
all_listed [] listed = true
all_listed (n ∷ ns) listed = contains listed n && all_listed ns listed

unfoldable pub check_retired : List String → Option Fields → Place → Checked (Unit {0})
check_retired [] block p = done
check_retired (k ∷ ks) none p = done
check_retired (k ∷ ks) (some fs) p = do
  elim (get k fs) [ none ↦ done | some v ↦ reject (field_at p k) retired tt ]
  check_retired ks (some fs) p

abbrev pub any_required : List Declared → Bool
any_required [] = false
any_required (d ∷ ds) = if d.required then true else any_required ds

abbrev pub ignore : {A : Type 0} → Checked A → Checked (Unit {0})
ignore m = do m; done

module _ (host : Host) where
  unfoldable pub by_agent_value : List String → Bool → Place → List String → Checked (Unit {0})
  unfolding check_only_agents
  by_agent_value listed false p agent_names = done
  by_agent_value listed true p agent_names = do
    check_only_agents listed p agent_names
    (if all_listed agent_names listed then done else reject p agents_left_out tt)

  -- `_by_agent`
  unfoldable pub by_agent : Fields → String → Place → List String → Checked (Unit {0})
  unfolding by_agent_value
  by_agent node k prefix agent_names = do
    m ← string_mapping host node k prefix
    by_agent_value (names_in m) (is_dict (get_or_null k node)) (field_at prefix k) agent_names

  unfoldable pub check_kind :
      ValueKind → Bool → Fields → String → Place → List String → Checked (Unit {0})
  unfolding by_agent
  check_kind port_kind r node k prefix agent_names = ignore (port some node k prefix none)
  check_kind integer_kind r node k prefix agent_names =
      ignore (integer some node k prefix none (some (pos 1)) none)
  check_kind list_kind r node k prefix agent_names = ignore (string_list host node k prefix r)
  check_kind counts_kind r node k prefix agent_names = counts node k prefix
  check_kind agents_kind r node k prefix agent_names = by_agent node k prefix agent_names
  check_kind text_kind r node k prefix agent_names = ignore (string host some node k prefix none r)

  -- `_check_declared`
  unfoldable pub check_declared : List Declared → Fields → Place → List String → Checked (Unit {0})
  unfolding check_kind
  check_declared [] node prefix agent_names = done
  check_declared (d ∷ ds) node prefix agent_names = do
    (if d.required && is_null (get_or_null d.name node)
        then reject (field_at prefix d.name) missing tt
        else check_kind d.value_kind d.required node d.name prefix agent_names)
    check_declared ds node prefix agent_names

  unfoldable pub check_values : SectionSchema → Option Fields → List String → Checked (Unit {0})
  unfolding check_declared
  check_values s none agent_names =
      if any_required s.keys then reject (key s.section ∷ []) section_missing tt else done
  check_values s (some block) agent_names =
      check_declared s.keys block (key s.section ∷ []) agent_names

  -- One round of the loop over the providers' sections.
  unfoldable pub check_section : SectionSchema → Fields → String → List String → Checked (Unit {0})
  unfolding check_retired check_values
  check_section s node provider agent_names = do
    block ← mapping node s.section [] (map (λ d. d.name) s.keys ++ s.retired_keys)
    check_retired s.retired_keys block (key s.section ∷ [])
    (if str_eq provider s.provider then check_values s block agent_names else done)

  unfoldable pub check_sections :
      List SectionSchema → Fields → String → List String → Checked (Unit {0})
  unfolding check_section
  check_sections [] node provider agent_names = done
  check_sections (s ∷ ss) node provider agent_names = do
    check_section s node provider agent_names
    check_sections ss node provider agent_names

  -- `_check_provider_sections`
  unfoldable pub check_provider_sections : Fields → String → List AgentSpec → Checked (Unit {0})
  unfolding check_sections
  check_provider_sections node provider specs =
      check_sections section_schemas node provider (map (λ a. a.name) specs)
