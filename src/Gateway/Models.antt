-- ===== src/Gateway/Models.antt =====
-- llms.py: the models of llms.yaml by their bare ids.
pub mod Priced
use canyonos.Prelude.{
  Bool, true, false, not, ◌&&◌, ◌||◌, String, List, [], ◌∷◌, Option, none, some, str_eq, ◌==◌,
  if◌then◌else◌,
}
use canyonos.Prelude.Int.{ℤ, pos}
use canyonos.Float.{Float, finite}
use canyonos.Value.{
  Value, Items, nil, null, bool, int, float, str, list, dict, Fields, end, field, get_or_null,
  number,
}
use Prim.Native.Char.{Char, code}

-- What is left of a text after a prefix.
abbrev pub strip_prefix : String → String → Option String
strip_prefix String.[] s = some s
strip_prefix (String.◌∷◌ c p) String.[] = none
strip_prefix (String.◌∷◌ c p) (String.◌∷◌ d s) =
    let rest = strip_prefix p s in if code c == code d then rest else none

-- What follows the first occurrence of a marker.
abbrev pub after : String → String → Option String
after m String.[] = strip_prefix m String.[]
after m (String.◌∷◌ c s) =
    let rest = after m s in elim (strip_prefix m (String.◌∷◌ c s)) [ some r ↦ some r | none ↦ rest ]

abbrev pub geo_prefixes : List String
geo_prefixes = "us-gov." ∷ "us." ∷ "eu." ∷ "apac." ∷ "jp." ∷ "au." ∷ "ca." ∷ "global." ∷ []

abbrev pub arn_resource_markers : List String
arn_resource_markers = "foundation-model/" ∷ "inference-profile/" ∷ []

abbrev pub after_marker : List String → String → String
after_marker [] s = s
after_marker (m ∷ ms) s =
    let rest = after_marker ms s in elim (after m s) [ some r ↦ r | none ↦ rest ]

abbrev pub without_arn : String → String
without_arn s = elim (strip_prefix "arn:" s) [
  | some r ↦ after_marker arn_resource_markers s
  | none ↦ s
]

abbrev pub without_geo : List String → String → String
without_geo [] s = s
without_geo (p ∷ ps) s =
    let rest = without_geo ps s in elim (strip_prefix p s) [ some r ↦ r | none ↦ rest ]

unfoldable pub normalize_model_id : String → String
normalize_model_id s = without_geo geo_prefixes (without_arn s)

abbrev pub is_zero : Float → Bool
is_zero (finite (pos n) k) = n == 0
is_zero _ = false

-- Python's `bool(value)`.
abbrev pub truthy : Value → Bool
truthy null = false
truthy (bool b) = b
truthy (int z) = not (is_zero (finite z 0))
truthy (float x) = not (is_zero x)
truthy (str s) = not (str_eq s "")
truthy (list nil) = false
truthy (list vs) = true
truthy (dict end) = false
truthy (dict fs) = true

-- An entry of llms.yaml with its name, by the bare id of its model.
pub record Llm : Type 0 where
  pub name : String
  pub model_id : String
  pub settings : Fields

abbrev pub Index : Type 0
Index = List (String × Llm)

-- Why an entry is refused, which refuses the whole file.
pub data Fault : Type 0 where
  agents_not_a_mapping : String → Fault
  max_tokens_not_a_number : String → Fault
  cap_not_a_number : String → String → Fault
  model_id_not_text : String → Fault

abbrev pub all_null : Fields → Bool
all_null end = true
all_null (field a null fs) = all_null fs
all_null (field a v fs) = false

abbrev pub is_number : Value → Bool
is_number v = elim (number v) [ none ↦ false | some x ↦ true ]

-- The first agent whose cap is there and no number.
unfoldable pub bad_cap : Fields → Option String
bad_cap end = none
bad_cap (field a null fs) = bad_cap fs
bad_cap (field a v fs) = let rest = bad_cap fs in if is_number v then rest else some a

unfoldable pub caps_fault : String → Fields → Fields → Option Fault
unfolding bad_cap
caps_fault name llm caps =
    if all_null caps
    then none
    else if not (is_number (get_or_null "max_tokens" llm))
    then some (max_tokens_not_a_number name)
    else elim (bad_cap caps) [ none ↦ none | some a ↦ some (cap_not_a_number name a) ]

-- `llm.get("agents") or {}`, where it is a mapping.
abbrev pub caps_of : Value → Option Fields
caps_of (dict caps) = some caps
caps_of v = if truthy v then none else some end

-- `_validate_priced_entry`
unfoldable pub entry_fault : String → Fields → Option Fault
unfolding caps_fault
entry_fault name llm = elim (caps_of (get_or_null "agents" llm)) [
  | none ↦ some (agents_not_a_mapping name)
  | some caps ↦ caps_fault name llm caps
]

-- `indexed[k] = …`: a model that is listed twice keeps its place and takes the later entry.
abbrev pub put_llm : String → Llm → Index → Index
put_llm k l [] = (k, l) ∷ []
put_llm k l ((j, m) ∷ rest) =
    let others = put_llm k l rest in if str_eq j k then (j, l) ∷ rest else (j, m) ∷ others

pub data Indexed : Type 0 where
  indexed : Index → Indexed
  fault : Fault → Indexed

abbrev pub made : String → String → Fields → Llm
made name id llm = record { name = name; model_id = id; settings = llm }

-- An entry with its model's id, where it is a mapping with one.
pub data Entry : Type 0 where
  skipped : Entry
  entry : String → Fields → Entry
  unusable : Entry

abbrev pub id_of : Value → Fields → Entry
id_of (str s) llm = if str_eq s "" then skipped else entry s llm
id_of v llm = if truthy v then unusable else skipped

abbrev pub read_entry : Value → Entry
read_entry (dict llm) = id_of (get_or_null "model_id" llm) llm
read_entry v = skipped

unfoldable pub add_entry : String → Entry → Index → Indexed
unfolding entry_fault normalize_model_id
add_entry name skipped ix = indexed ix
add_entry name unusable ix = fault (model_id_not_text name)
add_entry name (entry id llm) ix = elim (entry_fault name llm) [
  | some f ↦ fault f
  | none ↦ indexed (put_llm (normalize_model_id id) (made name id llm) ix)
]

-- The loop of `index_llms`, with the entries before.
unfoldable pub index_from : Fields → Index → Indexed
unfolding add_entry
index_from end ix = indexed ix
index_from (field name v fs) ix = elim (add_entry name (read_entry v) ix) [
  | fault f ↦ fault f
  | indexed ix' ↦ index_from fs ix'
]

-- `index_llms`
unfoldable pub index_llms : Fields → Indexed
unfolding index_from
index_llms llms = index_from llms []

-- `refresh_llms` once the file is read: a file that is refused leaves the last one in place.
unfoldable pub refreshed : Option Index → Indexed → Option Index
refreshed last (indexed ix) = some ix
refreshed last (fault f) = last
