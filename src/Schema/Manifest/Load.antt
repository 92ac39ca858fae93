-- ===== src/Schema/Manifest/Load.antt =====
-- `load_manifest` from the parsed document on. The `kubernetes:` section's reader is a parameter.
use canyonos.Prelude.{true, false, String, List, [], ◌∷◌, ◌++◌, Option, none, some, if◌then◌else◌}
use canyonos.Prelude.Int.{pos}
use canyonos.Float.{finite}
use canyonos.Value.{Value, null, dict, Fields}
use canyonos.Schema.{
  key, unset_reference, empty_document, not_a_document, Violation, Checked, pure, reject, ◌>>=◌,
  ◌>>◌, Host,
}
use canyonos.Schema.Env.{has_reference}
use canyonos.Schema.Checks.{done, check_keys, number, string, boolean, port}
use canyonos.Schema.Manifest.{Manifest, manifest_keys, retired_keys}
use canyonos.Schema.Manifest.Agents.{agents}
use canyonos.Schema.Manifest.Parts.{id_ℤ}
use canyonos.Schema.Manifest.Sections.{endpoint, redis, target, provider}
use canyonos.Schema.Manifest.Otel.{otel}
use canyonos.Schema.Manifest.Providers.{check_provider_sections, check_retired}

-- What `load_manifest` returns or raises.
pub data Loaded (A : Type 0) : Type 0 where
  loaded : A → Loaded A
  refused : List Violation → Loaded A

abbrev pub unless_violations : {A : Type 0} → A → List Violation → Loaded A
unless_violations a [] = loaded a
unless_violations a (v ∷ vs) = refused (v ∷ vs)

module _ (host : Host) {K : Type 0} (read_kubernetes : Fields → Checked K) where
  unfoldable pub check_key_path : Option String → Checked (Unit {0})
  check_key_path none = done
  check_key_path (some s) =
      if has_reference s then reject (key "ssh_private_key_path" ∷ []) unset_reference tt else done

  -- The body of `load_manifest` on a mapping, as far as the last check.
  unfoldable pub check_document : Fields → Checked (Manifest K)
  unfolding check_key_path
  check_document doc = do
    check_retired retired_keys (some doc) []
    check_keys doc [] (manifest_keys ++ retired_keys)
    specs ← agents host doc
    chosen ← provider host doc
    t ← target host doc
    poll ← number host doc "poll_interval" [] (finite (pos 5) 0) (some (finite (pos 0) 0))
    cleanup ← number host doc "cleanup_interval" [] (finite (pos 10) 0) (some (finite (pos 0) 0))
    project ← string host some doc "project_id" [] none false
    r ← redis host doc
    logs ← boolean doc "logs" [] true
    o ← otel host doc
    e ← endpoint host doc specs
    dashboard ← port id_ℤ doc "dashboard_port" [] (pos 8081)
    k ← read_kubernetes doc
    check_provider_sections host doc chosen specs
    ssh ← string host some doc "ssh_private_key_path" [] none false
    check_key_path ssh
    pure (record {
      agents = specs;
      target = t;
      provider = chosen;
      poll_interval = poll;
      cleanup_interval = cleanup;
      project_id = project;
      redis = r;
      logs = logs;
      otel = o;
      endpoint = e;
      dashboard_port = dashboard;
      kubernetes = k;
    })

  -- `load_manifest` on the document that the YAML reader hands back.
  unfoldable pub load_manifest : Value → Loaded (Manifest K)
  unfolding check_document
  load_manifest null = refused (record { place = []; problem = empty_document } ∷ [])
  load_manifest (dict doc) = let c = check_document doc in unless_violations c.value c.violations
  load_manifest _ = refused (record { place = []; problem = not_a_document } ∷ [])
