-- ===== src/Schema/Env.antt =====
-- `ENV_REF` and `expand_env_value` of controller/utils/config_env.py on text.
pub mod Written
use Prim.Native.Char.{Char, code}
use Prim.Native.String.{◌++◌ as append}
use canyonos.Prelude.{
  ℕ, Bool, true, false, ◌&&◌, ◌||◌, String, List, [], ◌∷◌, Option, none, some, ◌==◌, leb,
  if◌then◌else◌, any, ◌≡◌, refl,
}

-- A text read from the left: a reference `${NAME}`, or a character outside of one.
pub data Piece : Type 0 where
  plain : Char → Piece
  reference : String → Piece

-- `[A-Za-z_]` and `[A-Za-z0-9_]`
abbrev pub name_start : Char → Bool
name_start c =
    leb b'A' (code c) && leb (code c) b'Z'
    || leb b'a' (code c) && leb (code c) b'z'
    || code c == b'_'

abbrev pub name_part : Char → Bool
name_part c = name_start c || leb b'0' (code c) && leb (code c) b'9'

-- What has been read of a possible reference: nothing, `$`, `${`, or `${` and a name.
pub data Scan : Type 0 where
  outside dollar brace : Scan
  name : String → Scan

abbrev pub one : Char → String
one c = String.◌∷◌ c String.[]

abbrev pub plains : String → List Piece → List Piece
plains String.[] ps = ps
plains (String.◌∷◌ c s) ps = plain c ∷ plains s ps

-- The text that a scan holds back.
abbrev pub held : Scan → String
held outside = ""
held dollar = "$"
held brace = "${"
held (name n) = append "${" n

-- The scan after one more character, and whether it is a new one because the held text was none.
pub data Move : Type 0 where
  go_on : Scan → Move
  found : String → Move
  broken : Move

abbrev pub move : Scan → Char → Move
move outside c = broken
move dollar c = if code c == b'{' then go_on brace else broken
move brace c = if name_start c then go_on (name (one c)) else broken
move (name n) c =
    if name_part c
    then go_on (name (append n (one c)))
    else if code c == b'}'
    then found n
    else broken

abbrev pub restart : Char → Scan
restart c = if code c == b'$' then dollar else outside

abbrev pub unless_dollar : Char → List Piece → List Piece
unless_dollar c ps = if code c == b'$' then ps else plain c ∷ ps

-- The pieces of the rest of a text, after a scan.
unfoldable pub pieces_from : Scan → String → List Piece
pieces_from s String.[] = plains (held s) []
pieces_from s (String.◌∷◌ c t) = elim (move s c) [
  | go_on s' ↦ pieces_from s' t
  | found n ↦ reference n ∷ pieces_from outside t
  | broken ↦ plains (held s) (unless_dollar c (pieces_from (restart c) t))
]

abbrev pub pieces : String → List Piece
pieces s = pieces_from outside s

abbrev pub is_reference : Piece → Bool
is_reference (plain c) = false
is_reference (reference n) = true

-- `ENV_REF.search(s)`
unfoldable pub has_reference : String → Bool
unfolding pieces_from
has_reference s = any is_reference (pieces s)

-- `m.group(0)`
abbrev pub written : Piece → String
written (plain c) = one c
written (reference n) = append "${" (append n "}")

abbrev pub substitute : (String → Option String) → Piece → String
substitute env (plain c) = one c
substitute env (reference n) = elim (env n) [ none ↦ written (reference n) | some v ↦ v ]

abbrev pub concat : List String → String
concat [] = ""
concat (s ∷ ss) = append s (concat ss)

abbrev pub substitute_all : (String → Option String) → List Piece → String
substitute_all env [] = ""
substitute_all env (p ∷ ps) = append (substitute env p) (substitute_all env ps)

-- `expand_env_value` of a text
unfoldable pub expand : (String → Option String) → String → String
unfolding pieces_from
expand env s = substitute_all env (pieces s)

test_env : String → Option String
test_env n = some "x"

expand_test : expand test_env "a${B_1}$${C}${1}${" ≡ "ax$x${1}${"
unfolding expand pieces_from test_env
expand_test = refl
