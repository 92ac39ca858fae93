-- ===== src/Schema/Manifest/Accepted.antt =====
-- What an accepted manifest holds.
use canyonos.Prelude.{◌≡◌, refl, subst, List, [], ◌∷◌, ◌++◌, some, All}
use canyonos.Prelude.Distinct.{Distinct}
use canyonos.Value.{
  Value, Items, null, bool, int, float, str, list, dict, Fields, get_or_null, to_list,
}
use canyonos.Schema.{Checked, Host, Violation, ◌>>=◌}
use canyonos.Schema.Clean.{Clean, bind-Clean}
use canyonos.Schema.Checks.{check_keys}
use canyonos.Schema.Manifest.{Manifest, AgentSpec, manifest_keys, retired_keys}
use canyonos.Schema.Manifest.Agents.{agents, agents_value, agents_from, check_names}
use canyonos.Schema.Manifest.Agents.Names.{image_names, IsNotEndpoint, check_names-Distinct}
use canyonos.Schema.Manifest.Agents.Fits.{Fits, agents_from-Fits}
use canyonos.Schema.Manifest.Sections.{endpoint, redis, target, provider}
use canyonos.Schema.Manifest.Providers.{check_retired}
use canyonos.Schema.Manifest.Load.{loaded, unless_violations, check_document, load_manifest}

loaded-inv :
    {A : Type 0} (a : A) (vs : List Violation) {b : A}
    → unless_violations a vs ≡ loaded b
    → (vs ≡ []) × (a ≡ b)
loaded-inv a [] h = (refl, cc)
loaded-inv a (v ∷ vs) h = cc

module _ (host : Host) {K : Type 0} (read_kubernetes : Fields → Checked K) where
  pub load_manifest_dict :
      (fs : Fields) {m : Manifest K}
      → load_manifest host read_kubernetes (dict fs) ≡ loaded m
      → Clean (check_document host read_kubernetes fs)
        × ((check_document host read_kubernetes fs).value ≡ m)
  unfolding load_manifest
  load_manifest_dict fs h = loaded-inv _ _ h

  pub load_manifest-inv :
      (doc : Value) {m : Manifest K}
      → load_manifest host read_kubernetes doc ≡ loaded m
      → (fs : Fields) × (doc ≡ dict fs)
        × Clean (check_document host read_kubernetes fs)
        × ((check_document host read_kubernetes fs).value ≡ m)
  unfolding load_manifest
  load_manifest-inv (dict fs) h = let r = loaded-inv _ _ h in (fs, refl, r.0, r.1)
  load_manifest-inv null h = cc
  load_manifest-inv (bool b) h = cc
  load_manifest-inv (int z) h = cc
  load_manifest-inv (float x) h = cc
  load_manifest-inv (str s) h = cc
  load_manifest-inv (list vs) h = cc

  pub check_document-Clean :
      (fs : Fields)
      → Clean (check_document host read_kubernetes fs)
      → Clean (agents host fs)
        × Clean (provider host fs)
        × Clean (target host fs)
        × Clean (redis host fs)
        × Clean (endpoint host fs (agents host fs).value)
        × Clean (check_keys fs [] (manifest_keys ++ retired_keys))
        × Clean (check_retired retired_keys (some fs) [])
  unfolding check_document
  check_document-Clean fs h =
      let r = bind-Clean _ _ h in
      let k = bind-Clean _ _ r.1 in
      let a = bind-Clean _ _ k.1 in
      let p = bind-Clean _ _ a.1 in
      let t = bind-Clean _ _ p.1 in
      let poll = bind-Clean _ _ t.1 in
      let cleanup = bind-Clean _ _ poll.1 in
      let project = bind-Clean _ _ cleanup.1 in
      let rd = bind-Clean _ _ project.1 in
      let l = bind-Clean _ _ rd.1 in
      let o = bind-Clean _ _ l.1 in
      let e = bind-Clean _ _ o.1 in (a.0, p.0, t.0, rd.0, e.0, k.0, r.0)

  abbrev pub AgentsFit : List AgentSpec → Type 0
  AgentsFit specs =
      All (Fits host) specs
      × Distinct (image_names host specs)
      × All (IsNotEndpoint host) (image_names host specs)

  agents_list-Clean :
      (vs : Items)
      → Clean (agents_value host (list vs))
      → Clean (agents_from host (to_list vs) 0)
        × Clean (check_names host (agents_from host (to_list vs) 0).value [])
  unfolding agents_value
  agents_list-Clean vs h = let a = bind-Clean _ _ h in (a.0, (bind-Clean _ _ a.1).0)

  agents_value-AgentsFit :
      (v : Value) → Clean (agents_value host v) → AgentsFit (agents_value host v).value
  agents_value-AgentsFit (list vs) h =
      let c = agents_list-Clean vs h in
      let d = check_names-Distinct host _ [] c.1 in
      unfold agents_value ◌>>=◌ in (agents_from-Fits host (to_list vs) 0 c.0, d.0.1, d.1)
  agents_value-AgentsFit null h = unfold agents_value in cc
  agents_value-AgentsFit _ h = unfold agents_value in cc

  -- In an accepted manifest no two agents have the same name in lower case, and none has the
  -- endpoint's; every agent has at least one replica. A database has exactly one and a TCP port. An
  -- agent of type `agent` has a name that is an identifier and shadows none of the stub's own, and
  -- functions with distinct names that are identifiers, no builtin types and not reserved for
  -- Python, each with distinct parameters that are identifiers and shadow neither `self` nor the
  -- stub's own names.
  pub load_manifest-AgentsFit :
      (doc : Value) {m : Manifest K}
      → load_manifest host read_kubernetes doc ≡ loaded m
      → AgentsFit m.agents
  unfolding check_document ◌>>=◌ agents
  load_manifest-AgentsFit doc h =
      let (fs, e, c, v) = load_manifest-inv doc h in
      subst (λ m. AgentsFit m.agents) v
        (agents_value-AgentsFit (get_or_null "agents" fs) (check_document-Clean fs c).0)
