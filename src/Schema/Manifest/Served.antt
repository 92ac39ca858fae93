-- ===== src/Schema/Manifest/Served.antt =====
-- The function that an accepted manifest serves over HTTP.
use mathlib.Core.List.{Memᴰ}
use canyonos.Prelude.{
  ◌≡◌, refl, sym, ◌∙◌, subst, ap, Bool, true, false, String, List, [], ◌∷◌, Option, none, some,
  arith, contains, map, str_eq, eq_iff, if◌then◌else◌, Option-cases, Bool-cases, inl, inr,
}
use canyonos.Value.{Value, null, dict, Fields, get, get_or_null}
use canyonos.Schema.{Checked, Host, Place, key, ◌>>=◌}
use canyonos.Schema.Clean.{Clean, bind-Clean}
use canyonos.Schema.Checks.{mapping, mapping_value, string}
use canyonos.Schema.Readers.{string-some, IsPort, IsAbsentOr, port-IsAbsentOr}
use canyonos.Schema.Functions.{FunctionDecl}
use canyonos.Schema.Manifest.{
  Manifest, AgentSpec, Kind, code_agent, database_agent, CodeFields, EndpointSpec, methods,
  endpoint_keys,
}
use canyonos.Schema.Manifest.Sections.{
  endpoint, endpoint_block, endpoint_unless_null, check_endpoint, check_method, functions_of,
  is_null,
}
use canyonos.Schema.Manifest.Load.{loaded, check_document, load_manifest}
use canyonos.Schema.Manifest.Accepted.{load_manifest-inv, check_document-Clean}

-- A function of an agent of type `agent` in the list, by its agent's name and its own.
abbrev pub Declares : List AgentSpec → String → String → Type 0
Declares specs a m =
    (spec : AgentSpec) × Memᴰ spec specs
    × (spec.name ≡ a)
    × (c : CodeFields) × (spec.kind ≡ code_agent c)
    × (f : FunctionDecl) × Memᴰ f c.functions
    × (f.name ≡ m)

declared_function :
    (fs : List FunctionDecl) (m : String)
    → contains (map (λ f. f.name) fs) m ≡ true
    → (f : FunctionDecl) × Memᴰ f fs × (f.name ≡ m)
declared_function [] m h = cc
declared_function (f ∷ fs) m h = elim (Bool-cases (str_eq f.name m)) [
  | inl e ↦ (f, Memᴰ.head refl, (eq_iff f.name m).0 e)
  | inr e ↦ let (g, i, n) = declared_function fs m (ground (arith, e)) in (g, Memᴰ.tail i, n)
]

methods_code :
    (k : Kind) {fs : List String}
    → methods k ≡ some fs
    → (c : CodeFields) × (k ≡ code_agent c) × (map (λ f. f.name) c.functions ≡ fs)
methods_code (code_agent c) h = (c, refl, cc)
methods_code (database_agent d) h = cc

functions_of-cons :
    (a : AgentSpec) (n : String) {fs : List String}
    → (if str_eq a.name n then methods a.kind else none) ≡ some fs
    → (a.name ≡ n) × (methods a.kind ≡ some fs)
functions_of-cons a n h = ground (arith, h, eq_iff a.name n)

functions_of-Declares :
    (specs : List AgentSpec) (a : String) {fs : List String} (m : String)
    → functions_of specs a ≡ some fs
    → contains fs m ≡ true
    → Declares specs a m
functions_of-Declares [] a m h i = cc
functions_of-Declares (s ∷ rest) a {fs} m h i = elim (Option-cases (functions_of rest a)) [
  | inr (gs, e) ↦
      let same : gs ≡ fs = ground (arith, h, e) in
      let d = functions_of-Declares rest a {fs = fs} m (e ∙ ap some same) i in
      (d.0, Memᴰ.tail d.1, d.2, d.3, d.4, d.5, d.6, d.7)
  | inl e ↦
      let r = functions_of-cons s a (rw e at h) in
      let (c, k, names) = methods_code s.kind r.1 in
      let (f, t, n) =
        declared_function c.functions m (subst (λ ns. contains ns m ≡ true) (sym names) i) in
      (s, Memᴰ.head refl, r.0, c, k, f, t, n)
]

-- The endpoint is there, names a declared function, and its port is a TCP port if it is set.
abbrev pub IsServed : List AgentSpec → Option EndpointSpec → Type 0
IsServed specs none = ⊥
IsServed specs (some e) =
    (a : String) × (e.agent ≡ some a)
    × (m : String) × (e.method ≡ some m)
    × Declares specs a m
    × IsAbsentOr IsPort e.api_port

module _ (host : Host) where
  check_endpoint-Declares :
      (specs : List AgentSpec) (a m : String)
      → Clean (check_endpoint host specs (some a) (some m))
      → Declares specs a m
  unfolding check_endpoint check_method
  check_endpoint-Declares specs a m h = elim (Option-cases (functions_of specs a)) [
    | inl e ↦ cc (rw (e, check_method) at h)
    | inr (fs, e) ↦ functions_of-Declares specs a m e (ground (arith, h, e))
  ]

  endpoint_block-Clean :
      (block : Fields) (specs : List AgentSpec)
      → Clean (endpoint_block host (some block) specs)
      → Clean (string host some block "agent" (key "endpoint" ∷ []) none true)
        × Clean (string host some block "method" (key "endpoint" ∷ []) none true)
        × Clean (
            check_endpoint host specs
              (string host some block "agent" (key "endpoint" ∷ []) none true).value
              (string host some block "method" (key "endpoint" ∷ []) none true).value)
  unfolding endpoint_block
  endpoint_block-Clean block specs h =
      let a = bind-Clean _ _ h in let m = bind-Clean _ _ a.1 in (a.0, m.0, (bind-Clean _ _ m.1).0)

  abbrev read_method : Fields → Option String
  read_method block = (string host some block "method" (key "endpoint" ∷ []) none true).value

  endpoint_block-IsServed :
      (block : Fields) (specs : List AgentSpec)
      → Clean (endpoint_block host (some block) specs)
      → IsServed specs (endpoint_block host (some block) specs).value
  unfolding endpoint_block ◌>>=◌
  endpoint_block-IsServed block specs h =
      let (ca, cm, ce) = endpoint_block-Clean block specs h in
      let (a, ea) = string-some host block "agent" _ ca in
      let (m, em) = string-some host block "method" _ cm in
      let c = subst (λ o. Clean (check_endpoint host specs o (read_method block))) ea ce in
      let d = subst (λ o. Clean (check_endpoint host specs (some a) o)) em c in
      (a, ea, m, em, check_endpoint-Declares specs a m d, port-IsAbsentOr block "api_port" _)

  mapping_value-some :
      (v : Value) (p : Place) (allowed : List String)
      → is_null v ≡ false
      → Clean (mapping_value v p allowed)
      → (b : Fields) × ((mapping_value v p allowed).value ≡ some b)
  unfolding mapping_value ◌>>=◌
  mapping_value-some null p allowed n h = cc
  mapping_value-some (dict fs) p allowed n h = (fs, refl)
  mapping_value-some _ p allowed n h = cc

  mapping-some :
      (node : Fields) (k : String) (prefix : Place) (allowed : List String)
      → is_null (get_or_null k node) ≡ false
      → Clean (mapping node k prefix allowed)
      → (b : Fields) × ((mapping node k prefix allowed).value ≡ some b)
  unfolding mapping
  mapping-some node k prefix allowed n h = elim (Option-cases (get k node)) [
    | inl e ↦ absurd (ground (arith, n, e))
    | inr (v, e) ↦
        rw (e, mapping)
          (mapping_value-some v _ allowed (rw (e, get_or_null) at n) (rw (e, mapping) at h))
  ]

  endpoint_false-Clean :
      (node : Fields) (specs : List AgentSpec)
      → Clean (endpoint_unless_null host false node specs)
      → Clean (mapping node "endpoint" [] endpoint_keys)
        × Clean (endpoint_block host (mapping node "endpoint" [] endpoint_keys).value specs)
  unfolding endpoint_unless_null
  endpoint_false-Clean node specs h = bind-Clean _ _ h

  endpoint_unless_null-IsServed :
      (b : Bool) (node : Fields) (specs : List AgentSpec)
      → is_null (get_or_null "endpoint" node) ≡ b
      → Clean (endpoint_unless_null host b node specs)
      → IsServed specs (endpoint_unless_null host b node specs).value
  unfolding endpoint_unless_null ◌>>=◌
  endpoint_unless_null-IsServed true node specs n h = cc
  endpoint_unless_null-IsServed false node specs n h =
      let c = endpoint_false-Clean node specs h in
      let (block, e) = mapping-some node "endpoint" [] endpoint_keys n c.0 in
      let d = subst (λ o. Clean (endpoint_block host o specs)) e c.1 in
      subst (λ o. IsServed specs (endpoint_block host o specs).value) (sym e)
        (endpoint_block-IsServed block specs d)

  endpoint-IsServed :
      (node : Fields) (specs : List AgentSpec)
      → Clean (endpoint host node specs)
      → IsServed specs (endpoint host node specs).value
  unfolding endpoint
  endpoint-IsServed node specs h = endpoint_unless_null-IsServed _ node specs refl h

  -- An accepted manifest has an endpoint, which serves a declared function of a declared agent of
  -- type `agent`, on a TCP port if it names one.
  pub load_manifest-IsServed :
      {K : Type 0} (read_kubernetes : Fields → Checked K) (doc : Value) {m : Manifest K}
      → load_manifest host read_kubernetes doc ≡ loaded m
      → IsServed m.agents m.endpoint
  unfolding check_document ◌>>=◌
  load_manifest-IsServed read_kubernetes doc h =
      let (fs, e, c, v) = load_manifest-inv host read_kubernetes doc h in
      subst (λ m. IsServed m.agents m.endpoint) v
        (endpoint-IsServed fs _ (check_document-Clean host read_kubernetes fs c).4)
