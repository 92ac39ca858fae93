-- ===== src/Schema/Functions/Names.antt =====
-- The names that the functions schema hands on to the stub generator.
use canyonos.Prelude.{
  ℕ, suc, ◌≡◌, refl, Bool, true, false, String, List, [], ◌∷◌, ◌++◌, Option, none, some, arith,
  str_eq, contains, All, map, subst,
}
use canyonos.Prelude.Distinct.{Distinct, Fresh, Distinct-cons}
use canyonos.Value.{Value, null, list, dict, Fields, to_list}
use canyonos.Schema.{Place, Problem, Host, ◌>>=◌, item}
use canyonos.Schema.Functions.{
  ArgumentDecl, FunctionDecl, ReturnsDecl, is_dunder, builtin_type_names, stub_global_names,
  with_some, identifier_value, identifier, unless_taken, argument, arguments_from, arguments_value,
  arguments, declare, define, seen_with, first_problem, unless_problem, function_name_value,
  function_name, function, functions_from, functions_value, functions,
}

module _ {D : Type 0} (name : D → String) (P : D → Type 0) where
  -- Declarations that all satisfy `P`, with distinct names that are not among those seen.
  abbrev pub AreNew : List String → List D → Type 0
  AreNew seen ds = (Fresh seen (map name ds) × Distinct (map name ds)) × All P ds

  -- One round of the loops over the entries.
  AreNew-with_some :
      (o : Option D) (seen : List String) (ds : List D)
      → ((d : D) → o ≡ some d → P d × (contains seen (name d) ≡ false))
      → AreNew (seen_with name o seen) ds
      → AreNew seen (with_some o ds)
  AreNew-with_some none seen ds h r = r
  AreNew-with_some (some d) seen ds h r =
      let n = h d refl in (Distinct-cons (name d) seen (map name ds) n.1 r.0, (n.0, r.1))

module _ (host : Host) where
  identifier_value-IsName :
      (o : Option String) (p : Place) (reserved : List String) {n : String}
      → (identifier_value host o p reserved).value ≡ some n
      → (host.identifier n ≡ true) × (contains reserved n ≡ false)
  unfolding identifier_value
  identifier_value-IsName none p reserved h = cc
  identifier_value-IsName (some m) p reserved h = ground (arith, h)

  pub identifier-IsName :
      (node : Fields) (k : String) (p : Place) (required : Bool) (reserved : List String)
      {n : String}
      → (identifier host node k p required reserved).value ≡ some n
      → (host.identifier n ≡ true) × (contains reserved n ≡ false)
  unfolding identifier ◌>>=◌
  identifier-IsName node k p required reserved h = identifier_value-IsName _ _ reserved h

  -- A name of the generated stub's parameters.
  abbrev pub IsArgument : ArgumentDecl → Type 0
  IsArgument d =
      (host.identifier d.name ≡ true)
      × (contains stub_global_names d.name ≡ false)
      × (str_eq d.name "self" ≡ false)

  unless_taken-some :
      (seen : List String) (o : Option String) (p : Place) {n : String}
      → (unless_taken host seen o p).value ≡ some n
      → (o ≡ some n) × (str_eq n "self" ≡ false) × (contains seen n ≡ false)
  unfolding unless_taken
  unless_taken-some seen none p h = cc
  unless_taken-some seen (some m) p h = ground (arith, h)

  declare-some :
      (o t : Option String) {d : ArgumentDecl} → declare host o t ≡ some d → o ≡ some d.name
  declare-some none t h = cc
  declare-some (some n) t h = ground (arith, h)

  argument-IsArgument :
      (v : Value) (p : Place) (seen : List String) {d : ArgumentDecl}
      → (argument host v p seen).value ≡ some d
      → IsArgument d × (contains seen d.name ≡ false)
  unfolding argument identifier ◌>>=◌
  argument-IsArgument (dict e) p seen h =
      let n = declare-some _ _ h in
      let u = unless_taken-some seen _ _ n in
      let i = identifier_value-IsName _ _ stub_global_names u.0 in ((i.0, i.1, u.1), u.2)
  argument-IsArgument _ p seen h = cc

  abbrev pub AreArguments : List String → List ArgumentDecl → Type 0
  AreArguments seen ds = AreNew (λ d. d.name) IsArgument seen ds

  arguments_from-AreArguments :
      (vs : List Value) (p : Place) (i : ℕ) (seen : List String)
      → AreArguments seen (arguments_from host vs p i seen).value
  unfolding arguments_from ◌>>=◌
  arguments_from-AreArguments [] p i seen = ((tt, tt), tt)
  arguments_from-AreArguments (v ∷ vs) p i seen =
      AreNew-with_some (λ d. d.name) IsArgument (argument host v (p ++ item i ∷ []) seen).value seen
        _ (λ d e. argument-IsArgument v _ seen e) (arguments_from-AreArguments vs p (suc i) _)

  arguments_value-AreArguments :
      (v : Value) (p : Place) → AreArguments [] (arguments_value host v p).value
  unfolding arguments_value
  arguments_value-AreArguments (list vs) p = arguments_from-AreArguments (to_list vs) p 0 []
  arguments_value-AreArguments null p = ((tt, tt), tt)
  arguments_value-AreArguments _ p = ((tt, tt), tt)

  arguments-AreArguments :
      (node : Fields) (p : Place) → AreArguments [] (arguments host node p).value
  unfolding arguments
  arguments-AreArguments node p = arguments_value-AreArguments _ _

  -- A method of the generated stub.
  abbrev pub IsFunction : FunctionDecl → Type 0
  IsFunction f =
      (host.identifier f.name ≡ true)
      × (contains builtin_type_names f.name ≡ false)
      × (is_dunder f.name ≡ false)
      × AreArguments [] f.arguments

  first_problem-none :
      (a b c : Bool) → first_problem host a b c ≡ none → (a ≡ false) × (b ≡ false) × (c ≡ false)
  unfolding first_problem
  first_problem-none a b c h = ground arith

  unless_problem-some :
      (m : String) (p : Place) (e : Option Problem) {n : String}
      → (unless_problem host m p e).value ≡ some n
      → (e ≡ none) × (m ≡ n)
  unfolding unless_problem
  unless_problem-some m p none h = (refl, cc)
  unless_problem-some m p (some q) h = cc

  function_name_value-some :
      (o : Option String) (p : Place) (seen : List String) {n : String}
      → (function_name_value host o p seen).value ≡ some n
      → (o ≡ some n)
        × (contains builtin_type_names n ≡ false)
        × (is_dunder n ≡ false)
        × (contains seen n ≡ false)
  unfolding function_name_value
  function_name_value-some none p seen h = cc
  function_name_value-some (some m) p seen h =
      let u = unless_problem-some m p _ h in
      let r = first_problem-none _ _ _ u.0 in rw (← u.1) (refl, r.0, r.1, r.2)

  define-some :
      (o : Option String) (args : List ArgumentDecl) (r : Option ReturnsDecl) {f : FunctionDecl}
      → define host o args r ≡ some f
      → (o ≡ some f.name) × (args ≡ f.arguments)
  define-some none args r h = cc
  define-some (some n) args r h = ground (arith, h)

  function-IsFunction :
      (v : Value) (p : Place) (seen : List String) {f : FunctionDecl}
      → (function host v p seen).value ≡ some f
      → IsFunction f × (contains seen f.name ≡ false)
  unfolding function function_name identifier ◌>>=◌
  function-IsFunction (dict e) p seen h =
      let d = define-some _ _ _ h in
      let n = function_name_value-some _ _ seen d.0 in
      let i = identifier_value-IsName _ _ [] n.0 in
      ((i.0, n.1, n.2, subst (λ ds. AreArguments [] ds) d.1 (arguments-AreArguments e p)), n.3)
  function-IsFunction _ p seen h = cc

  functions_from-AreNew :
      (vs : List Value) (p : Place) (i : ℕ) (seen : List String)
      → AreNew (λ f. f.name) IsFunction seen (functions_from host vs p i seen).value
  unfolding functions_from ◌>>=◌
  functions_from-AreNew [] p i seen = ((tt, tt), tt)
  functions_from-AreNew (v ∷ vs) p i seen =
      AreNew-with_some (λ f. f.name) IsFunction (function host v (p ++ item i ∷ []) seen).value seen
        _ (λ f e. function-IsFunction v _ seen e) (functions_from-AreNew vs p (suc i) _)

  functions_value-AreNew :
      (v : Value) (p : Place) → AreNew (λ f. f.name) IsFunction [] (functions_value host v p).value
  unfolding functions_value
  functions_value-AreNew (list vs) p = functions_from-AreNew (to_list vs) p 0 []
  functions_value-AreNew null p = ((tt, tt), tt)
  functions_value-AreNew _ p = ((tt, tt), tt)

  -- Whatever the document, and with or without violations, the functions that are read make a
  -- class: distinct names that are identifiers, no builtin type and not reserved for Python, each
  -- with distinct parameters that are identifiers and shadow neither `self` nor the stub's own
  -- names.
  pub functions-AreFunctions :
      (node : Fields) (p : Place) → AreNew (λ f. f.name) IsFunction [] (functions host node p).value
  unfolding functions
  functions-AreFunctions node p = functions_value-AreNew _ _
