-- ===== src/Schema/Manifest/Settings.antt =====
-- The keys and the plain settings of an accepted manifest.
use canyonos.Prelude.{
  ◌≡◌, refl, sym, ◌∙◌, subst, Bool, true, false, String, List, [], ◌∷◌, ◌++◌, Option, none, some,
  arith, All, contains, str_eq, eq_iff, Option-cases, Bool-cases, inl, inr,
}
use canyonos.Prelude.Int.{pos, ◌≤ℤ◌}
use canyonos.Float.{Float, finite, inf, neg_inf, nan, lt, le, is_nan}
use canyonos.Value.{Value, int, float, str, dict, Fields, get, get_or_null, entries}
use canyonos.Schema.{Checked, Host, Place, key, ◌>>=◌}
use canyonos.Schema.Clean.{Clean, bind-Clean}
use canyonos.Schema.Checks.{
  mapping, string, number, number_above, as_finite_float, finite_only, resolve,
}
use canyonos.Schema.Readers.{IsPort, port-IsPort, integer-AtLeast, check_keys-All}
use canyonos.Schema.Manifest.{Manifest, kubernetes, manifest_keys, retired_keys, redis_keys}
use canyonos.Schema.Manifest.Sections.{
  redis, redis_block, target, target_value, provider, provider_value, chosen_provider,
  provider_names, canonical_name, provider_named, is_null,
}
use canyonos.Schema.Manifest.Providers.{check_retired}
use canyonos.Schema.Manifest.Load.{loaded, check_document, load_manifest}
use canyonos.Schema.Manifest.Accepted.{load_manifest_dict, check_document-Clean}

abbrev nought : Float
nought = finite (pos 0) 0

abbrev pub IsPositive : Float → Type 0
IsPositive x = lt (finite (pos 0) 0) x ≡ true

le-false_lt : (x : Float) → is_nan x ≡ false → le x nought ≡ false → IsPositive x
unfolding le
le-false_lt x n h = ground arith

finite_only-number : (y : Float) {x : Float} → finite_only y ≡ some x → is_nan x ≡ false
finite_only-number (finite z n) h = ground (arith, h)
finite_only-number inf h = cc
finite_only-number neg_inf h = cc
finite_only-number nan h = cc

module _ (host : Host) where
  as_finite_float-number :
      (v : Value) {x : Float} → as_finite_float host v ≡ some x → is_nan x ≡ false
  unfolding as_finite_float
  as_finite_float-number (int z) h = elim (Option-cases (host.to_float z)) [
    | inl e ↦ absurd (ground (arith, h, e))
    | inr (y, e) ↦ finite_only-number y (rw (e, as_finite_float) at h)
  ]
  as_finite_float-number (float y) h = finite_only-number y h
  as_finite_float-number _ h = cc

  number_above-parts :
      (v : Value) {x : Float}
      → number_above host (some nought) v ≡ some x
      → (as_finite_float host v ≡ some x) × (le x nought ≡ false)
  number_above-parts v h = ground (arith, h)

  number_above-IsPositive :
      (v : Value) {x : Float} → number_above host (some nought) v ≡ some x → IsPositive x
  number_above-IsPositive v {x} h =
      let p = number_above-parts v h in le-false_lt x (as_finite_float-number v p.0) p.1

  number-IsPositive :
      (node : Fields) (k : String) (prefix : Place) (default : Float)
      → IsPositive default
      → IsPositive (number host node k prefix default (some nought)).value
  unfolding number
  number-IsPositive node k prefix default d = elim (Option-cases (get k node)) [
    | inl e ↦ rw (e, number) d
    | inr (v, e) ↦ elim (Option-cases (number_above host (some nought) (resolve host v))) [
      | inl r ↦ rw (e, number) (rw (r, number) d)
      | inr (x, r) ↦ rw (e, number) (rw (r, number) (number_above-IsPositive _ r))
    ]
  ]

  redis-Fits :
      (node : Fields) → IsPort (redis host node).value.port × (pos 0 ≤ℤ (redis host node).value.db)
  unfolding redis ◌>>=◌
  redis-Fits node = redis_block-Fits (mapping node "redis" [] redis_keys).value
    where
      redis_block-Fits :
          (o : Option Fields)
          → IsPort (redis_block host o).value.port × (pos 0 ≤ℤ (redis_block host o).value.db)
      redis_block-Fits none = omega arith
      redis_block-Fits (some block) = (
        port-IsPort block "port" (key "redis" ∷ []) (pos 6379) (omega arith),
        integer-AtLeast block "db" (key "redis" ∷ []) (pos 0) (pos 0) (omega arith),
      )

  canonical_name-contains :
      (ns : List String) (s : String) {n : String}
      → canonical_name host ns s ≡ some n
      → contains ns n ≡ true
  canonical_name-contains [] s h = cc
  canonical_name-contains (m ∷ ns) s {n} h =
      elim (Bool-cases (str_eq (host.casefold m) (host.casefold s))) [
        | inl e ↦ ground (arith, h, e, eq_iff m n)
        | inr e ↦ ground (arith, canonical_name-contains ns s {n = n} (rw e at h))
      ]

  provider_named-contains :
      (v : Value) {n : String} → provider_named host v ≡ some n → contains provider_names n ≡ true
  provider_named-contains (str s) h = canonical_name-contains provider_names s h
  provider_named-contains _ h = cc

  chosen_provider-contains :
      (b : Bool) (o : Option String)
      → ((n : String) → o ≡ some n → contains provider_names n ≡ true)
      → contains provider_names (chosen_provider host b o).value ≡ true
  unfolding chosen_provider
  chosen_provider-contains true o h = refl
  chosen_provider-contains false none h = refl
  chosen_provider-contains false (some n) h = h n refl

  provider_value-contains :
      (v : Value) → contains provider_names (provider_value host v).value ≡ true
  provider_value-contains v =
      chosen_provider-contains _ (provider_named host v) (λ n e. provider_named-contains v e)

  provider-contains : (node : Fields) → contains provider_names (provider host node).value ≡ true
  unfolding provider
  provider-contains node = elim (Option-cases (get "provider" node)) [
    | inl e ↦ rw (e, provider) refl
    | inr (v, e) ↦ rw (e, provider) (provider_value-contains (resolve host v))
  ]

  -- Kubernetes is the target only of a document with the section.
  target_value-section :
      (s : String) (b : Bool)
      → Clean (target_value host s b)
      → (target_value host s b).value ≡ kubernetes
      → b ≡ false
  unfolding target_value
  target_value-section s b h k = ground arith

  abbrev target_text : Fields → String
  target_text node = (string host (λ s. s) node "target" [] "docker" false).value

  target_value-Clean :
      (node : Fields)
      → Clean (target host node)
      → Clean (target_value host (target_text node) (is_null (get_or_null "kubernetes" node)))
  unfolding target
  target_value-Clean node h = (bind-Clean _ _ h).1

  target_value-eq :
      (node : Fields)
      → (target host node).value
        ≡ (target_value host (target_text node) (is_null (get_or_null "kubernetes" node))).value
  unfolding target ◌>>=◌
  target_value-eq node = refl

  target-section :
      (node : Fields)
      → Clean (target host node)
      → (target host node).value ≡ kubernetes
      → is_null (get_or_null "kubernetes" node) ≡ false
  target-section node h k =
      target_value-section _ _ (target_value-Clean node h) (sym (target_value-eq node) ∙ k)

  check_retired-none :
      (ks : List String) (fs : Fields) (p : Place)
      → Clean (check_retired ks (some fs) p)
      → All (λ k. get k fs ≡ none) ks
  unfolding check_retired
  check_retired-none [] fs p h = tt
  check_retired-none (k ∷ ks) fs p h =
      let r = bind-Clean _ _ h in (ground (arith, r.0), check_retired-none ks fs p r.1)

  -- The settings that an accepted manifest has, whether written or by default.
  pub record AreSettled {K : Type 0} (m : Manifest K) : Type 0 where
    pub dashboard : IsPort m.dashboard_port
    pub redis_port : IsPort m.redis.port
    pub redis_db : pos 0 ≤ℤ m.redis.db
    pub poll : IsPositive m.poll_interval
    pub cleanup : IsPositive m.cleanup_interval
    pub known_provider : contains provider_names m.provider ≡ true

  abbrev pub KeysFit : Fields → Type 0
  KeysFit fs =
      All (λ e. contains (manifest_keys ++ retired_keys) e.0 ≡ true) (entries fs)
      × All (λ k. get k fs ≡ none) retired_keys

  abbrev pub TargetFits : {K : Type 0} → Manifest K → Fields → Type 0
  TargetFits m fs = m.target ≡ kubernetes → is_null (get_or_null "kubernetes" fs) ≡ false

  module _ {K : Type 0} (read_kubernetes : Fields → Checked K) (fs : Fields) where
    check_document-AreSettled : AreSettled (check_document host read_kubernetes fs).value
    unfolding check_document ◌>>=◌ lt
    check_document-AreSettled = record {
      dashboard = port-IsPort fs "dashboard_port" [] (pos 8081) (omega arith);
      redis_port = (redis-Fits fs).0;
      redis_db = (redis-Fits fs).1;
      poll = number-IsPositive fs "poll_interval" [] (finite (pos 5) 0) refl;
      cleanup = number-IsPositive fs "cleanup_interval" [] (finite (pos 10) 0) refl;
      known_provider = provider-contains fs;
    }

    target_check :
        Clean (target host fs) → TargetFits (check_document host read_kubernetes fs).value fs
    unfolding check_document ◌>>=◌
    target_check h k = target-section fs h k

  -- An accepted document has no key but the declared ones. Ports are TCP ports, intervals positive
  -- numbers, the provider is a known one, and Kubernetes is the target only with its section.
  pub load_manifest-AreSettled :
      {K : Type 0} (read_kubernetes : Fields → Checked K) (fs : Fields) {m : Manifest K}
      → load_manifest host read_kubernetes (dict fs) ≡ loaded m
      → AreSettled m × KeysFit fs × TargetFits m fs
  load_manifest-AreSettled read_kubernetes fs h =
      let (c, v) = load_manifest_dict host read_kubernetes fs h in
      let p = check_document-Clean host read_kubernetes fs c in
      subst (λ m. AreSettled m × KeysFit fs × TargetFits m fs) v
        (
          check_document-AreSettled read_kubernetes fs,
          (check_keys-All fs [] _ p.5, check_retired-none retired_keys fs [] p.6),
          target_check read_kubernetes fs p.2,
        )
