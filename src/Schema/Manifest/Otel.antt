-- ===== src/Schema/Manifest/Otel.antt =====
-- The `otel:` section: `_otel`, with the rules on a destination of schema/otel_destinations.py.
use canyonos.Prelude.{
  ℕ, suc, Bool, true, false, not, ◌&&◌, String, List, [], ◌∷◌, ◌++◌, Option, none, some, str_eq,
  if◌then◌else◌, contains, map,
}
use canyonos.Prelude.Int.{pos}
use canyonos.Float.{Float, finite, le}
use canyonos.Value.{
  Value, Items, nil, cons, null, bool, int, float, str, list, dict, Fields, field, end, get_or_null,
  to_list,
}
use canyonos.Schema.{
  Place, key, item, field_at, Problem, not_mapping, no_destinations, bad_name, bad_protocol,
  bad_endpoint, bad_headers, bad_insecure, bad_timeout, duplicate_destination, Violation, Checked,
  pure, reject, ◌>>=◌, ◌>>◌, Host, is_blank,
}
use canyonos.Schema.Env.{expand}
use canyonos.Schema.Checks.{check_keys, mapping, as_finite_float}
use canyonos.Schema.Functions.{with_some, seen_with}
use canyonos.Schema.Manifest.{otel_keys, OtelDestination}

abbrev pub supported_protocols : List String
supported_protocols = "grpc" ∷ "http" ∷ "http/protobuf" ∷ []

abbrev pub destination_keys : List String
destination_keys = "name" ∷ "protocol" ∷ "endpoint" ∷ "headers" ∷ "insecure" ∷ "timeout" ∷ []

-- The writing of a key: a repeated one keeps its place and takes the new value.
unfoldable pub put_field : String → Value → Fields → Fields
put_field k v end = field k v end
put_field k v (field j w fs) =
    let rest = put_field k v fs in if str_eq j k then field j v fs else field j w rest

-- `expand_env_value`, whose mappings are written entry by entry.
unfoldable mutual
  unfolding put_field

  pub expand_value : (String → Option String) → Value → Value
  expand_value env (str s) = str (expand env s)
  expand_value env (list vs) = list (expand_items env vs)
  expand_value env (dict fs) = dict (expand_fields env fs end)
  expand_value env null = null
  expand_value env (bool b) = bool b
  expand_value env (int z) = int z
  expand_value env (float x) = float x

  pub expand_items : (String → Option String) → Items → Items
  expand_items env nil = nil
  expand_items env (cons v vs) = cons (expand_value env v) (expand_items env vs)

  pub expand_fields : (String → Option String) → Fields → Fields → Fields
  expand_fields env end out = out
  expand_fields env (field k v fs) out =
      expand_fields env fs (put_field (expand env k) (expand_value env v) out)

-- The texts among the entries of a mapping.
abbrev pub text_entries : Fields → List (String × String)
text_entries end = []
text_entries (field k (str s) fs) = (k, s) ∷ text_entries fs
text_entries (field k v fs) = text_entries fs

-- A key of the destination, and what is wrong with it.
abbrev pub Faults : Type 0
Faults = List (String × Problem)

abbrev pub fault_if : Bool → String → Problem → Faults
fault_if true k e = (k, e) ∷ []
fault_if false k e = []

module _ (host : Host) where
  -- `_non_empty_string`
  abbrev pub is_text : Value → Bool
  is_text (str s) = not (is_blank host s)
  is_text _ = false

  abbrev pub is_protocol : Value → Bool
  is_protocol (str s) = contains supported_protocols (host.lower s)
  is_protocol _ = false

  abbrev pub are_headers : Fields → Bool
  are_headers end = true
  are_headers (field k (str s) fs) = not (is_blank host k) && are_headers fs
  are_headers (field k v fs) = false

  abbrev pub headers_fit : Value → Bool
  headers_fit null = true
  headers_fit (dict fs) = are_headers fs
  headers_fit _ = false

  abbrev pub insecure_fits : Value → Bool
  insecure_fits null = true
  insecure_fits (bool b) = true
  insecure_fits _ = false

  -- `_positive_number`
  unfoldable pub positive_number : Value → Option Float
  unfolding as_finite_float
  positive_number v = elim (as_finite_float host v) [
    | none ↦ none
    | some x ↦ if le x (finite (pos 0) 0) then none else some x
  ]

  abbrev pub timeout_fits : Value → Bool
  timeout_fits null = true
  timeout_fits v = elim (positive_number v) [ none ↦ false | some x ↦ true ]

  -- `destination_problems`
  unfoldable pub destination_problems : Fields → Faults
  unfolding positive_number
  destination_problems d =
      fault_if (not (is_text (get_or_null "name" d))) "name" bad_name
      ++ fault_if (not (is_protocol (get_or_null "protocol" d))) "protocol" bad_protocol
      ++ fault_if (not (is_text (get_or_null "endpoint" d))) "endpoint" bad_endpoint
      ++ fault_if (not (headers_fit (get_or_null "headers" d))) "headers" bad_headers
      ++ fault_if (not (insecure_fits (get_or_null "insecure" d))) "insecure" bad_insecure
      ++ fault_if (not (timeout_fits (get_or_null "timeout" d))) "timeout" bad_timeout

  abbrev pub stripped : Value → String
  stripped (str s) = host.strip s
  stripped _ = ""

  abbrev pub lowered : Value → String
  lowered (str s) = host.lower s
  lowered _ = ""

  abbrev pub header_texts : Value → List (String × String)
  header_texts (dict fs) = text_entries fs
  header_texts _ = []

  abbrev pub is_insecure : Value → Bool
  is_insecure (bool b) = b
  is_insecure _ = false

  -- `normalize_destination`, and the destination that `_otel` makes of it.
  unfoldable pub normalize_destination : Fields → OtelDestination
  unfolding as_finite_float
  normalize_destination d = record {
    name = stripped (get_or_null "name" d);
    protocol = lowered (get_or_null "protocol" d);
    endpoint = stripped (get_or_null "endpoint" d);
    headers = header_texts (get_or_null "headers" d);
    insecure = is_insecure (get_or_null "insecure" d);
    timeout = as_finite_float host (get_or_null "timeout" d);
  }

  abbrev pub violations_at : Place → Faults → List Violation
  violations_at p fs = map (λ f. record { place = field_at p f.0; problem = f.1 }) fs

  unfoldable pub settle_destination :
      Fields → Faults → Place → List String → Checked (Option OtelDestination)
  unfolding normalize_destination
  settle_destination d [] p names =
      let made = normalize_destination d in
      if contains names made.name
      then reject (field_at p "name") duplicate_destination none
      else pure (some made)
  settle_destination d (f ∷ fs) p names = record {
    value = none;
    violations = violations_at p (f ∷ fs);
  }

  unfoldable pub destination : Value → Place → List String → Checked (Option OtelDestination)
  unfolding destination_problems settle_destination expand_value
  destination (dict entry) p names = do
    check_keys entry p destination_keys
    let d = expand_fields host.env entry end
    settle_destination d (destination_problems d) p names
  destination _ p names = reject p not_mapping none

  -- The loop over the destinations, with the names before.
  unfoldable pub destinations_from : List Value → ℕ → List String → Checked (List OtelDestination)
  unfolding destination
  destinations_from [] i names = pure []
  destinations_from (v ∷ vs) i names = do
    d ← destination v (key "otel" ∷ key "destinations" ∷ item i ∷ []) names
    rest ← destinations_from vs (suc i) (seen_with (λ d. d.name) d names)
    pure (with_some d rest)

  -- The value as a whole, `destinations_problem`, then the loop.
  unfoldable pub destinations_value : Value → Checked (List OtelDestination)
  unfolding destinations_from
  destinations_value null = pure []
  destinations_value (list (cons v vs)) = destinations_from (v ∷ to_list vs) 0 []
  destinations_value _ = reject (key "otel" ∷ key "destinations" ∷ []) no_destinations []

  unfoldable pub otel_block : Option Fields → Checked (Option (List OtelDestination))
  unfolding destinations_value
  otel_block none = pure none
  otel_block (some block) = do
    ds ← destinations_value (get_or_null "destinations" block)
    pure (some ds)

  -- `_otel`
  unfoldable pub otel : Fields → Checked (Option (List OtelDestination))
  unfolding otel_block
  otel node = do block ← mapping node "otel" [] otel_keys; otel_block block
