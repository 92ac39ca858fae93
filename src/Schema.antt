-- ===== src/Schema.antt =====
-- What the checks of global_controller.yaml share: the collector of schema/_checks.py in
-- packages/core/canyonos_core, the places and kinds of what it rejects, and what Python's text
-- functions and the environment give. A document's mappings have text as keys here.
pub mod Env
pub mod Checks
mod Clean
mod Readers
pub mod Functions
pub mod Manifest
mod Tests
use canyonos.Prelude.{ℕ, Bool, String, List, [], ◌∷◌, ◌++◌, Option, str_eq}
use canyonos.Prelude.Int.{ℤ}
use canyonos.Float.{Float}

-- `agents[0].name` is `key "agents" ∷ item 0 ∷ key "name" ∷ []`.
pub data Segment : Type 0 where
  key : String → Segment
  item : ℕ → Segment

abbrev pub Place : Type 0
Place = List Segment

-- `_field`
abbrev pub field_at : Place → String → Place
field_at prefix k = prefix ++ key k ∷ []

-- What is wrong, one kind for each message of the source.
pub data Problem : Type 0 where
  unknown_key not_for_type retired : Problem
  missing unset_reference : Problem
  not_mapping not_list not_counts : Problem
  not_integer not_number not_string not_boolean not_string_list empty_list : Problem
  not_identifier shadows_stub parameter_taken not_annotation : Problem
  shadows_builtin dunder function_taken : Problem
  no_destinations bad_name bad_protocol bad_endpoint bad_headers bad_insecure : Problem
  bad_timeout duplicate_destination : Problem
  empty_document not_a_document : Problem
  rooted escapes not_python not_requirement : Problem
  bad_type bad_target no_kubernetes provider_renamed bad_provider : Problem
  single_container endpoint_reserved duplicate_agent : Problem
  no_such_agent no_such_method : Problem
  not_an_agent agents_left_out section_missing : Problem

-- `SchemaViolation`, without the file, the line and the wording.
pub record Violation : Type 0 where
  pub place : Place
  pub problem : Problem

-- What a reader hands back, and the violations that it adds to the collector, in order.
pub record Checked (A : Type 0) : Type 0 where
  pub value : A
  pub violations : List Violation

module _ {A : Type 0} where
  abbrev pub pure : A → Checked A
  pure a = record { value = a; violations = [] }

  -- `collector.add`, and the value that the reader then returns.
  abbrev pub reject : Place → Problem → A → Checked A
  reject p e a = record { value = a; violations = record { place = p; problem = e } ∷ [] }

infixl 5 ◌>>=◌ ◌>>◌
unfoldable pub ◌>>=◌ : {A B : Type 0} → Checked A → (A → Checked B) → Checked B
m >>= f = let n = f m.value in record { value = n.value; violations = m.violations ++ n.violations }

abbrev pub ◌>>◌ : {A B : Type 0} → Checked A → Checked B → Checked B
m >> k = m >>= λ _. k

-- The process environment, and what Python's functions answer that the model takes as they are:
-- `strip`, `lower` and `casefold` are the methods of `str`, `identifier s` is `s.isidentifier() and not iskeyword(s)`,
-- `to_float` is `float` of an `int`, without an answer where it overflows, `to_text` is `str` of a
-- number, `drive_rooted` is `ntpath.isabs`, `requirement` is whether `Requirement(s)` succeeds.
pub record Host : Type 0 where
  pub env : String → Option String
  pub strip : String → String
  pub lower : String → String
  pub casefold : String → String
  pub identifier : String → Bool
  pub to_float : ℤ → Option Float
  pub int_text : ℤ → String
  pub float_text : Float → String
  pub drive_rooted : String → Bool
  pub requirement : String → Bool
  pub builtin_annotation : String → Bool

-- `not s.strip()`
abbrev pub is_blank : Host → String → Bool
is_blank host s = str_eq (host.strip s) ""
