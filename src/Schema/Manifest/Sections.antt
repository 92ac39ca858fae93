-- ===== src/Schema/Manifest/Sections.antt =====
-- The sections `endpoint:` and `redis:`, and the keys `target` and `provider`.
use canyonos.Prelude.{
  Bool, true, false, String, List, [], ◌∷◌, Option, none, some, str_eq, if◌then◌else◌, contains,
}
use canyonos.Prelude.Int.{pos}
use canyonos.Value.{Value, null, str, Fields, get, get_or_null}
use canyonos.Schema.{
  key, missing, bad_target, no_kubernetes, provider_renamed, bad_provider, no_such_agent,
  no_such_method, Checked, pure, reject, ◌>>=◌, ◌>>◌, Host,
}
use canyonos.Schema.Checks.{done, mapping, integer, port, resolve, string}
use canyonos.Schema.Manifest.{
  endpoint_keys, redis_keys, RedisSpec, EndpointSpec, AgentSpec, Target, docker, kubernetes,
  methods,
}
use canyonos.Schema.Manifest.Parts.{id_ℤ, id_text}

-- `functions.get(name)`: the functions of the last agent of type `agent` with the name.
abbrev pub functions_of : List AgentSpec → String → Option (List String)
functions_of [] n = none
functions_of (a ∷ rest) n = elim (functions_of rest n) [
  | some fs ↦ some fs
  | none ↦ if str_eq a.name n then methods a.kind else none
]

abbrev pub provider_names : List String
provider_names = "local" ∷ "ec2-pool" ∷ "ec2-assign" ∷ []

abbrev pub default_provider : String
default_provider = "local"

abbrev pub is_null : Value → Bool
is_null null = true
is_null _ = false

module _ (host : Host) where
  unfoldable pub check_method : Option (List String) → Option String → Checked (Unit {0})
  check_method none m = reject (key "endpoint" ∷ key "agent" ∷ []) no_such_agent tt
  check_method (some fs) none = done
  check_method (some fs) (some m) =
      if contains fs m then done else reject (key "endpoint" ∷ key "method" ∷ []) no_such_method tt

  unfoldable pub check_endpoint :
      List AgentSpec → Option String → Option String → Checked (Unit {0})
  unfolding check_method
  check_endpoint specs none m = done
  check_endpoint specs (some a) m = check_method (functions_of specs a) m

  unfoldable pub endpoint_block : Option Fields → List AgentSpec → Checked (Option EndpointSpec)
  unfolding check_endpoint
  endpoint_block none specs = pure none
  endpoint_block (some block) specs = do
    a ← string host some block "agent" (key "endpoint" ∷ []) none true
    m ← string host some block "method" (key "endpoint" ∷ []) none true
    check_endpoint specs a m
    p ← port some block "api_port" (key "endpoint" ∷ []) none
    pure (some (record { agent = a; method = m; api_port = p }))

  unfoldable pub endpoint_unless_null :
      Bool → Fields → List AgentSpec → Checked (Option EndpointSpec)
  unfolding endpoint_block
  endpoint_unless_null true node specs = reject (key "endpoint" ∷ []) missing none
  endpoint_unless_null false node specs = do
    block ← mapping node "endpoint" [] endpoint_keys
    endpoint_block block specs

  -- `_endpoint`
  unfoldable pub endpoint : Fields → List AgentSpec → Checked (Option EndpointSpec)
  unfolding endpoint_unless_null
  endpoint node specs = endpoint_unless_null (is_null (get_or_null "endpoint" node)) node specs

  abbrev pub default_redis : RedisSpec
  default_redis = record { host = "localhost"; port = pos 6379; db = pos 0 }

  unfoldable pub redis_block : Option Fields → Checked RedisSpec
  redis_block none = pure default_redis
  redis_block (some block) = do
    h ← string host id_text block "host" (key "redis" ∷ []) "localhost" false
    p ← port id_ℤ block "port" (key "redis" ∷ []) (pos 6379)
    d ← integer id_ℤ block "db" (key "redis" ∷ []) (pos 0) (some (pos 0)) none
    pure (record { host = h; port = p; db = d })

  -- `_redis`
  unfoldable pub redis : Fields → Checked RedisSpec
  unfolding redis_block
  redis node = do block ← mapping node "redis" [] redis_keys; redis_block block

  -- `_target` once the text is read; the section must be there for Kubernetes.
  unfoldable pub target_value : String → Bool → Checked Target
  target_value s no_section =
      if str_eq (host.casefold s) "docker"
      then pure docker
      else if str_eq (host.casefold s) "kubernetes"
      then if no_section
        then reject (key "target" ∷ []) no_kubernetes kubernetes
        else pure kubernetes
      else reject (key "target" ∷ []) bad_target docker

  -- `_target`
  unfoldable pub target : Fields → Checked Target
  unfolding target_value
  target node = do
    s ← string host id_text node "target" [] "docker" false
    target_value s (is_null (get_or_null "kubernetes" node))

  -- `canonical_name` of reconciler/providers/__init__.py, on a text.
  abbrev pub canonical_name : List String → String → Option String
  canonical_name [] s = none
  canonical_name (n ∷ ns) s =
      if str_eq (host.casefold n) (host.casefold s) then some n else canonical_name ns s

  abbrev pub provider_named : Value → Option String
  provider_named (str s) = canonical_name provider_names s
  provider_named _ = none

  -- The one provider that was renamed is `EC2`.
  abbrev pub is_renamed : Value → Bool
  is_renamed (str s) = str_eq (host.casefold "EC2") (host.casefold s)
  is_renamed _ = false

  unfoldable pub chosen_provider : Bool → Option String → Checked String
  chosen_provider true named = reject (key "provider" ∷ []) provider_renamed default_provider
  chosen_provider false none = reject (key "provider" ∷ []) bad_provider default_provider
  chosen_provider false (some n) = pure n

  abbrev pub provider_value : Value → Checked String
  provider_value v = chosen_provider (is_renamed v) (provider_named v)

  -- `_provider`
  unfoldable pub provider : Fields → Checked String
  unfolding chosen_provider
  provider node = elim (get "provider" node) [
    | none ↦ pure default_provider
    | some v ↦ provider_value (resolve host v)
  ]
