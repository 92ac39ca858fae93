-- ===== src/Schema/Checks.antt =====
-- The field readers of schema/_checks.py. Each takes the mapping, the key and the place of the
-- mapping; where the code passes a default, the reader does too, with the type that it then has.
use canyonos.Prelude.{
  Bool, false, ◌&&◌, ◌||◌, String, List, [], ◌∷◌, Option, none, some, if◌then◌else◌, contains,
}
use canyonos.Prelude.Int.{ℤ, pos, ltb_ℤ}
use canyonos.Float.{Float, finite, le}
use canyonos.Value.{Value, null, bool, int, float, str, list, dict, Fields, field, end, get, Items}
use canyonos.Value
use canyonos.Schema.{
  Place, field_at, unknown_key, missing, unset_reference, not_mapping, not_counts, not_integer,
  not_number, not_string, not_boolean, not_string_list, empty_list, Checked, pure, reject, ◌>>◌,
  Host, is_blank,
}
use canyonos.Schema.Env.{expand, has_reference}

abbrev pub done : Checked (Unit {0})
done = pure tt

-- `_check_keys`
unfoldable pub check_keys : Fields → Place → List String → Checked (Unit {0})
check_keys end prefix allowed = done
check_keys (field k v fs) prefix allowed = do
  (if contains allowed k then done else reject (field_at prefix k) unknown_key tt)
  check_keys fs prefix allowed

unfoldable pub mapping_value : Value → Place → List String → Checked (Option Fields)
unfolding check_keys
mapping_value null p allowed = pure none
mapping_value (dict fs) p allowed = do check_keys fs p allowed; pure (some fs)
mapping_value _ p allowed = reject p not_mapping none

-- `_mapping`
unfoldable pub mapping : Fields → String → Place → List String → Checked (Option Fields)
unfolding mapping_value
mapping node k prefix allowed = elim (get k node) [
  | none ↦ pure none
  | some v ↦ mapping_value v (field_at prefix k) allowed
]

abbrev pub below : ℤ → Option ℤ → Bool
below z none = false
below z (some low) = ltb_ℤ z low

abbrev pub above : ℤ → Option ℤ → Bool
above z none = false
above z (some high) = ltb_ℤ high z

-- `not wrong_type and not out_of_range`; a `bool` is a wrong type, and so is expanded text.
abbrev pub integer_in : Option ℤ → Option ℤ → Value → Option ℤ
integer_in low high (int z) = if below z low || above z high then none else some z
integer_in low high _ = none

module _ {A : Type 0} (of : ℤ → A) where
  -- `_integer`, with its minimum and maximum.
  unfoldable pub integer : Fields → String → Place → A → Option ℤ → Option ℤ → Checked A
  integer node k prefix default low high = elim (get k node) [
    | none ↦ pure default
    | some v ↦ elim (integer_in low high v) [
      | none ↦ reject (field_at prefix k) not_integer default
      | some z ↦ pure (of z)
    ]
  ]

  -- `_port`
  unfoldable pub port : Fields → String → Place → A → Checked A
  unfolding integer
  port node k prefix default = integer node k prefix default (some (pos 1)) (some (pos 65535))

unfoldable pub count_each : Fields → Fields → Place → Checked (Unit {0})
unfolding integer
count_each end node prefix = done
count_each (field k v fs) node prefix = do
  integer some node k prefix none (some (pos 1)) none
  count_each fs node prefix

abbrev pub counts_value : Value → Place → Checked (Unit {0})
counts_value (dict (field k v fs)) p = count_each (field k v fs) (field k v fs) p
counts_value _ p = reject p not_counts tt

-- `_counts`
unfoldable pub counts : Fields → String → Place → Checked (Unit {0})
unfolding count_each
counts node k prefix = counts_value (Value.get_or_null k node) (field_at prefix k)

abbrev pub finite_only : Float → Option Float
finite_only (finite z n) = some (finite z n)
finite_only _ = none

abbrev pub boolean_value : Value → Option Bool
boolean_value (bool b) = some b
boolean_value _ = none

unfoldable pub boolean : Fields → String → Place → Bool → Checked Bool
boolean node k prefix default = elim (get k node) [
  | none ↦ pure default
  | some v ↦ elim (boolean_value v) [
    | none ↦ reject (field_at prefix k) not_boolean default
    | some b ↦ pure b
  ]
]

module _ (host : Host) where
  -- `_resolve`
  unfoldable pub resolve : Value → Value
  resolve (str s) = str (expand host.env s)
  resolve v = v

  -- `_as_finite_float`
  unfoldable pub as_finite_float : Value → Option Float
  as_finite_float (int z) = elim (host.to_float z) [ none ↦ none | some x ↦ finite_only x ]
  as_finite_float (float x) = finite_only x
  as_finite_float _ = none

  abbrev pub number_above : Option Float → Value → Option Float
  number_above low v = elim (as_finite_float v) [
    | none ↦ none
    | some x ↦ elim low [ none ↦ some x | some m ↦ if le x m then none else some x ]
  ]

  -- `_number`; the value that is read is no text, so `_resolve` leaves it as it is.
  unfoldable pub number : Fields → String → Place → Float → Option Float → Checked Float
  number node k prefix default low = elim (get k node) [
    | none ↦ pure default
    | some v ↦ elim (number_above low (resolve v)) [
      | none ↦ reject (field_at prefix k) not_number default
      | some x ↦ pure x
    ]
  ]

  -- `_unset_reference`
  abbrev pub is_unset_reference : Value → Bool
  is_unset_reference (str s) = has_reference s
  is_unset_reference _ = false

  -- `isinstance(value, str) and value.strip()`
  abbrev pub text_of : Value → Option String
  text_of (str s) = if is_blank host s then none else some s
  text_of _ = none

  module _ {A : Type 0} (of : String → A) where
    unfoldable pub string_value : Value → Place → A → Bool → Checked A
    unfolding resolve
    string_value null p default required =
        if required then reject p missing default else pure default
    string_value v p default required =
        if required && is_unset_reference (resolve v)
        then reject p unset_reference default
        else elim (text_of (resolve v)) [
          | none ↦ reject p not_string default
          | some s ↦ pure (of s)
        ]

    -- `_string`
    unfoldable pub string : Fields → String → Place → A → Bool → Checked A
    unfolding string_value
    string node k prefix default required =
        string_value (Value.get_or_null k node) (field_at prefix k) default required

  -- The loop over the items: the first bad one ends it.
  unfoldable pub string_items : List Value → Place → Bool → Checked (List String)
  unfolding resolve
  string_items [] p required = pure []
  string_items (v ∷ vs) p required =
      let rest = string_items vs p required in
      if required && is_unset_reference (resolve v)
      then reject p unset_reference []
      else elim (text_of (resolve v)) [
        | none ↦ reject p not_string_list []
        | some s ↦ elim rest.violations [ [] ↦ pure (s ∷ rest.value) | _ ↦ rest ]
      ]

  unfoldable pub string_list_value : Value → Place → Bool → Checked (List String)
  unfolding string_items
  string_list_value null p required = if required then reject p missing [] else pure []
  string_list_value (list Items.nil) p required =
      if required then reject p empty_list [] else pure []
  string_list_value (list vs) p required = string_items (Value.to_list vs) p required
  string_list_value _ p required = reject p not_string_list []

  -- `_string_list`
  unfoldable pub string_list : Fields → String → Place → Bool → Checked (List String)
  unfolding string_list_value
  string_list node k prefix required =
      string_list_value (Value.get_or_null k node) (field_at prefix k) required

  -- `str(item)` of a text, a boolean or a number.
  abbrev pub scalar_text : Value → Option String
  scalar_text (str s) = some s
  scalar_text (bool b) = some (if b then "True" else "False")
  scalar_text (int z) = some (host.int_text z)
  scalar_text (float x) = some (host.float_text x)
  scalar_text _ = none

  -- The loop over the entries: the first bad one ends it with no entry at all.
  unfoldable pub string_entries : Fields → Place → Checked (List (String × String))
  unfolding resolve
  string_entries end p = pure []
  string_entries (field k v fs) p =
      let rest = string_entries fs p in
      elim (scalar_text (resolve v)) [
        | none ↦ reject (field_at p k) not_string []
        | some s ↦ elim rest.violations [ [] ↦ pure ((k, s) ∷ rest.value) | _ ↦ rest ]
      ]

  unfoldable pub string_mapping_value : Value → Place → Checked (List (String × String))
  unfolding string_entries
  string_mapping_value null p = pure []
  string_mapping_value (dict fs) p = string_entries fs p
  string_mapping_value _ p = reject p not_mapping []

  -- `_string_mapping`
  unfoldable pub string_mapping : Fields → String → Place → Checked (List (String × String))
  unfolding string_mapping_value
  string_mapping node k prefix = string_mapping_value (Value.get_or_null k node) (field_at prefix k)
