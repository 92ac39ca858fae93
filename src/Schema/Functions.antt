-- ===== src/Schema/Functions.antt =====
-- schema/functions.py: the functions that an agent declares, which become its stub.
pub mod Names
use text.Mathlib.Text.{starts_with}
use Prim.Native.String.{char_at}
use canyonos.Prelude.{
  ℕ, suc, Bool, true, false, not, ◌&&◌, ◌||◌, String, List, [], ◌∷◌, ◌++◌, Option, none, some,
  str_eq, if◌then◌else◌, contains,
}
use canyonos.Value.{Value, null, list, dict, Fields, get_or_null, to_list}
use canyonos.Schema.{
  Place, item, field_at, not_mapping, not_list, not_identifier, shadows_stub, parameter_taken,
  not_annotation, Problem, shadows_builtin, dunder, function_taken, Checked, pure, reject, ◌>>=◌,
  ◌>>◌, Host,
}
use canyonos.Schema.Checks.{check_keys, string}

abbrev pub builtin_type_names : List String
builtin_type_names =
    "bool" ∷ "bytearray" ∷ "bytes" ∷ "complex" ∷ "dict" ∷ "float" ∷ "frozenset" ∷ "int" ∷ "list"
    ∷ "object" ∷ "set" ∷ "str" ∷ "tuple" ∷ []

abbrev pub stub_global_names : List String
stub_global_names = "Future" ∷ "inspect" ∷ "isinstance" ∷ []

abbrev pub function_keys : List String
function_keys = "name" ∷ "arguments" ∷ "returns" ∷ []

abbrev pub argument_keys : List String
argument_keys = "name" ∷ "type" ∷ []

abbrev pub returns_keys : List String
returns_keys = "type" ∷ []

pub record ArgumentDecl : Type 0 where
  pub name : String
  pub type : Option String

pub record ReturnsDecl : Type 0 where
  pub type : Option String

pub record FunctionDecl : Type 0 where
  pub name : String
  pub arguments : List ArgumentDecl
  pub returns : Option ReturnsDecl

abbrev pub ends_with : String → String → Bool
ends_with String.[] t = str_eq "" t
ends_with (String.◌∷◌ c s) t = str_eq (String.◌∷◌ c s) t || ends_with s t

abbrev pub is_dunder : String → Bool
is_dunder n = starts_with n "__" && ends_with n "__"

-- The list with a value in front, where there is one.
abbrev pub with_some {ℓ} : {A : Type ℓ} → Option A → List A → List A
with_some none xs = xs
with_some (some x) xs = x ∷ xs

-- The set `seen` after `seen.add(name)`, where an entry was read.
abbrev pub seen_with : {D : Type 0} → (D → String) → Option D → List String → List String
seen_with name none seen = seen
seen_with name (some d) seen = name d ∷ seen

module _ (host : Host) where
  unfoldable pub annotation_value : Option String → Place → Checked (Option String)
  annotation_value none p = pure none
  annotation_value (some t) p =
      if host.builtin_annotation t then pure (some t) else reject p not_annotation none

  -- `_annotation`
  unfoldable pub annotation : Fields → Place → Checked (Option String)
  unfolding annotation_value
  annotation node prefix = do
    t ← string host some node "type" prefix none false
    annotation_value t (field_at prefix "type")

  unfoldable pub identifier_value : Option String → Place → List String → Checked (Option String)
  identifier_value none p reserved = pure none
  identifier_value (some n) p reserved =
      if not (host.identifier n)
      then reject p not_identifier none
      else if contains reserved n
      then reject p shadows_stub none
      else pure (some n)

  -- `_identifier`
  unfoldable pub identifier : Fields → String → Place → Bool → List String → Checked (Option String)
  unfolding identifier_value
  identifier node k prefix required reserved = do
    n ← string host some node k prefix none required
    identifier_value n (field_at prefix k) reserved

  unfoldable pub returns_value : Value → Place → Checked (Option ReturnsDecl)
  unfolding annotation
  returns_value null p = pure none
  returns_value (dict block) p = do
    check_keys block p returns_keys
    t ← annotation block p
    pure (some (record { type = t }))
  returns_value _ p = reject p not_mapping none

  -- `_returns`
  unfoldable pub returns : Fields → Place → Checked (Option ReturnsDecl)
  unfolding returns_value
  returns node prefix = returns_value (get_or_null "returns" node) (field_at prefix "returns")

  -- `name == "self" or name in seen`
  unfoldable pub unless_taken : List String → Option String → Place → Checked (Option String)
  unless_taken seen none p = pure none
  unless_taken seen (some n) p =
      if str_eq n "self" || contains seen n then reject p parameter_taken none else pure (some n)

  abbrev pub declare : Option String → Option String → Option ArgumentDecl
  declare none t = none
  declare (some n) t = some (record { name = n; type = t })

  unfoldable pub argument : Value → Place → List String → Checked (Option ArgumentDecl)
  unfolding identifier unless_taken annotation
  argument (dict entry) p seen = do
    check_keys entry p argument_keys
    written ← identifier entry "name" p true stub_global_names
    n ← unless_taken seen written (field_at p "name")
    t ← annotation entry p
    pure (declare n t)
  argument _ p seen = reject p not_mapping none

  -- The loop of `_arguments` from an index on, with the names seen before.
  unfoldable pub arguments_from : List Value → Place → ℕ → List String → Checked (List ArgumentDecl)
  unfolding argument
  arguments_from [] p i seen = pure []
  arguments_from (v ∷ vs) p i seen = do
    a ← argument v (p ++ item i ∷ []) seen
    rest ← arguments_from vs p (suc i) (seen_with (λ d. d.name) a seen)
    pure (with_some a rest)

  unfoldable pub arguments_value : Value → Place → Checked (List ArgumentDecl)
  unfolding arguments_from
  arguments_value null p = pure []
  arguments_value (list vs) p = arguments_from (to_list vs) p 0 []
  arguments_value _ p = reject p not_list []

  -- `_arguments`
  unfoldable pub arguments : Fields → Place → Checked (List ArgumentDecl)
  unfolding arguments_value
  arguments node prefix =
      arguments_value (get_or_null "arguments" node) (field_at prefix "arguments")

  -- The first test that holds says what is wrong with a name.
  unfoldable pub first_problem : Bool → Bool → Bool → Option Problem
  first_problem builtin reserved taken =
      if builtin
      then some shadows_builtin
      else if reserved
      then some dunder
      else if taken
      then some function_taken
      else none

  abbrev pub name_problem : String → List String → Option Problem
  name_problem n seen =
      first_problem (contains builtin_type_names n) (is_dunder n) (contains seen n)

  unfoldable pub unless_problem : String → Place → Option Problem → Checked (Option String)
  unless_problem n p none = pure (some n)
  unless_problem n p (some e) = reject p e none

  unfoldable pub function_name_value : Option String → Place → List String → Checked (Option String)
  unfolding first_problem unless_problem
  function_name_value none p seen = pure none
  function_name_value (some n) p seen = unless_problem n p (name_problem n seen)

  -- `_function_name`
  unfoldable pub function_name : Fields → Place → List String → Checked (Option String)
  unfolding identifier function_name_value
  function_name entry prefix seen = do
    n ← identifier entry "name" prefix true []
    function_name_value n (field_at prefix "name") seen

  abbrev pub define : Option String → List ArgumentDecl → Option ReturnsDecl → Option FunctionDecl
  define none args r = none
  define (some n) args r = some (record { name = n; arguments = args; returns = r })

  unfoldable pub function : Value → Place → List String → Checked (Option FunctionDecl)
  unfolding function_name arguments returns
  function (dict entry) p seen = do
    check_keys entry p function_keys
    n ← function_name entry p seen
    args ← arguments entry p
    r ← returns entry p
    pure (define n args r)
  function _ p seen = reject p not_mapping none

  -- The loop of `_functions` from an index on, with the names seen before.
  unfoldable pub functions_from : List Value → Place → ℕ → List String → Checked (List FunctionDecl)
  unfolding function
  functions_from [] p i seen = pure []
  functions_from (v ∷ vs) p i seen = do
    f ← function v (p ++ item i ∷ []) seen
    rest ← functions_from vs p (suc i) (seen_with (λ d. d.name) f seen)
    pure (with_some f rest)

  unfoldable pub functions_value : Value → Place → Checked (List FunctionDecl)
  unfolding functions_from
  functions_value null p = pure []
  functions_value (list vs) p = functions_from (to_list vs) p 0 []
  functions_value _ p = reject p not_list []

  -- `_functions`
  unfoldable pub functions : Fields → Place → Checked (List FunctionDecl)
  unfolding functions_value
  functions node prefix =
      functions_value (get_or_null "functions" node) (field_at prefix "functions")
