-- ===== src/Gateway/Pricing.antt =====
-- pricing.py: the price of a model, and of a call. A date is written in ASCII digits and the id
-- ends in no line break.
use Prim.Native.Char.{Char, code}
use Prim.Native.String.{◌++◌ as append}
use text.Mathlib.Text.{starts_with}
use canyonos.Prelude.{
  Bool, true, false, not, ◌&&◌, String, List, [], ◌∷◌, ◌++◌, Option, none, some, str_eq, ◌==◌, leb,
  if◌then◌else◌, lookup,
}
use canyonos.Prelude.Int.{pos}
use canyonos.Float.{Float, finite}

abbrev pub is_digit : Char → Bool
is_digit c = leb b'0' (code c) && leb (code c) b'9'

abbrev pub is_dash : Char → Bool
is_dash c = code c == b'-'

-- The rest of a text after the two digits that it starts with.
abbrev pub two_digits : String → Option String
two_digits (String.◌∷◌ a (String.◌∷◌ b s)) = if is_digit a && is_digit b then some s else none
two_digits _ = none

abbrev pub optional_dash : String → String
optional_dash String.[] = ""
optional_dash (String.◌∷◌ c s) = if is_dash c then s else String.◌∷◌ c s

abbrev pub then_two : Option String → Option String
then_two none = none
then_two (some s) = two_digits s

abbrev pub then_dash : Option String → Option String
then_dash none = none
then_dash (some s) = some (optional_dash s)

abbrev pub at_end : Option String → Bool
at_end (some String.[]) = true
at_end _ = false

-- Whether a text is all `-\d{4}-?\d{2}-?\d{2}`.
abbrev pub is_date : String → Bool
is_date String.[] = false
is_date (String.◌∷◌ c s) =
    is_dash c && at_end (then_two (then_dash (then_two (then_dash (then_two (two_digits s))))))

-- `re.sub(r"-\d{4}-?\d{2}-?\d{2}$", "", model_id)`
unfoldable pub undated : String → String
undated String.[] = ""
undated (String.◌∷◌ c s) =
    let rest = undated s in if is_date (String.◌∷◌ c s) then "" else String.◌∷◌ c rest

abbrev pub when : {A : Type 0} → Bool → List A → List A
when true xs = xs
when false xs = []

-- `_candidate_model_ids`; the empty prefix counts as none.
unfoldable pub candidate_model_ids : String → Option String → List String
unfolding undated
candidate_model_ids id prefix =
    let short = undated id in
    let dated = not (str_eq short id) in
    elim prefix [ none ↦ [] | some p ↦ when (not (str_eq p "")) (append p (append "/" id) ∷ []) ]
    ++ (id ∷ [])
    ++ when dated (short ∷ [])
    ++ when (starts_with id "gpt-") (
        append "openai." id
        ∷ (when dated (append "openai." short ∷ [])
            ++ append "global.openai." id ∷ when dated (append "global.openai." short ∷ [])))
    ++ when (starts_with id "claude-") (
        append "anthropic." (append id "-v1:0")
        ∷ when dated (append "anthropic." (append short "-v1:0") ∷ []))

-- USD per million tokens.
pub record Prices : Type 0 where
  pub input : Float
  pub output : Float
  pub cache_read : Float
  pub cache_write : Float

abbrev pub first_listed : List (String × Prices) → List String → Option Prices
first_listed table [] = none
first_listed table (c ∷ cs) =
    let rest = first_listed table cs in elim (lookup c table) [ some p ↦ some p | none ↦ rest ]

-- `token_prices`
unfoldable pub token_prices : List (String × Prices) → String → Option String → Option Prices
unfolding candidate_model_ids
token_prices table id prefix =
    if str_eq id "" then none else first_listed table (candidate_model_ids id prefix)

-- The arithmetic of Python's numbers, which rounds.
pub record Arithmetic : Type 0 where
  pub add : Float → Float → Float
  pub sub : Float → Float → Float
  pub mul : Float → Float → Float
  pub div : Float → Float → Float

-- The token counts of a call; those of the cache are part of the input's.
pub record Tokens : Type 0 where
  pub input : Float
  pub output : Float
  pub cache_read : Float
  pub cache_write : Float

abbrev pub million : Float
million = finite (pos 1000000) 0

abbrev pub nothing : Float
nothing = finite (pos 0) 0

-- `compute_token_cost`
unfoldable pub compute_token_cost :
    Arithmetic → List (String × Prices) → String → Option String → Tokens → Float
unfolding token_prices
compute_token_cost math table id prefix t = elim (token_prices table id prefix) [
  | none ↦ nothing
  | some p ↦
      let uncached = math.sub (math.sub t.input t.cache_read) t.cache_write in
      let inputs = math.add (math.mul uncached p.input) (math.mul t.cache_read p.cache_read) in
      let cached = math.add inputs (math.mul t.cache_write p.cache_write) in
      math.div (math.add cached (math.mul t.output p.output)) million
]
