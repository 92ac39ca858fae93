-- ===== src/Schema/Manifest/Parts.antt =====
-- The parts of an agent's entry: source paths, requirements and resources, `_is_rooted`,
-- `_project_relative_py`, `_requirements` and `_resources`.
use Prim.Native.Char.{Char, code}
use text.Mathlib.Text.{starts_with}
use canyonos.Prelude.{
  ℕ, suc, Bool, false, not, ◌||◌, String, List, [], ◌∷◌, ◌++◌, Option, none, some, ◌==◌,
  if◌then◌else◌, contains,
}
use canyonos.Prelude.Int.{ℤ, pos}
use canyonos.Float.{finite}
use canyonos.Value.{Fields}
use canyonos.Schema.{
  Place, item, field_at, rooted, escapes, not_python, not_requirement, Checked, pure, reject, ◌>>=◌,
  Host,
}
use canyonos.Schema.Checks.{mapping, integer, number, string, string_list}
use canyonos.Schema.Functions.{ends_with}
use canyonos.Schema.Manifest.{resource_keys, Resources}

abbrev pub id_ℤ : ℤ → ℤ
id_ℤ z = z

abbrev pub id_text : String → String
id_text s = s

abbrev pub is_separator : Char → Bool
is_separator c = code c == b'/' || code c == 92

abbrev pub onto_first : Char → List String → List String
onto_first c [] = String.◌∷◌ c String.[] ∷ []
onto_first c (s ∷ ss) = String.◌∷◌ c s ∷ ss

-- `path.replace("\\", "/").split("/")`
abbrev pub path_parts : String → List String
path_parts String.[] = "" ∷ []
path_parts (String.◌∷◌ c s) =
    let rest = path_parts s in if is_separator c then "" ∷ rest else onto_first c rest

abbrev pub colon_second : String → Bool
colon_second String.[] = false
colon_second (String.◌∷◌ c String.[]) = false
colon_second (String.◌∷◌ c (String.◌∷◌ d s)) = code d == b':'

abbrev pub backslash_first : String → Bool
backslash_first String.[] = false
backslash_first (String.◌∷◌ c s) = code c == 92

module _ (host : Host) where
  -- `_is_rooted`
  unfoldable pub is_rooted : String → Bool
  is_rooted s = starts_with s "/" || host.drive_rooted s || backslash_first s || colon_second s

  unfoldable pub relative_py : Option String → Place → Checked String
  unfolding is_rooted
  relative_py none p = pure ""
  relative_py (some s) p =
      if is_rooted s
      then reject p rooted ""
      else if contains (path_parts s) ".."
      then reject p escapes ""
      else if not (ends_with s ".py")
      then reject p not_python ""
      else pure s

  -- `_project_relative_py`
  unfoldable pub project_relative_py : Fields → String → Place → Bool → Checked String
  unfolding relative_py
  project_relative_py node k prefix required = do
    s ← string host some node k prefix none required
    relative_py s (field_at prefix k)

  -- The first entry that is no requirement, by its index.
  abbrev pub bad_requirement : List String → ℕ → Option ℕ
  bad_requirement [] i = none
  bad_requirement (r ∷ rs) i = if host.requirement r then bad_requirement rs (suc i) else some i

  -- `_requirements`
  unfoldable pub requirements : Fields → Place → Checked (List String)
  requirements node prefix = do
    rs ← string_list host node "requirements" prefix false
    elim (bad_requirement rs 0) [
      | none ↦ pure rs
      | some i ↦ reject (field_at prefix "requirements" ++ item i ∷ []) not_requirement []
    ]

  abbrev pub default_resources : Resources
  default_resources = record { cpu = finite (pos 1) 0; memory = finite (pos 512) 0; gpu = none }

  unfoldable pub resources_block : Option Fields → Place → Checked Resources
  resources_block none p = pure default_resources
  resources_block (some block) p = do
    g ← integer some block "gpu" p none (some (pos 0)) none
    c ← number host block "cpu" p (finite (pos 1) 0) (some (finite (pos 0) 0))
    m ← number host block "memory" p (finite (pos 512) 0) (some (finite (pos 0) 0))
    pure (record { cpu = c; memory = m; gpu = g })

  -- `_resources`
  unfoldable pub resources : Fields → Place → Checked Resources
  unfolding resources_block
  resources node prefix = do
    block ← mapping node "resources" prefix resource_keys
    resources_block block (field_at prefix "resources")
