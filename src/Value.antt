-- ===== src/Value.antt =====
-- The values of JSON and YAML documents as Python holds them, and how the program reads them.
use canyonos.Prelude.{Bool, String, List, [], ◌∷◌, Option, none, some, str_eq, if◌then◌else◌}
use canyonos.Prelude.Int.{ℤ}
use canyonos.Float.{Float, finite}

mutual
  pub data Value : Type 0 where
    null : Value
    bool : Bool → Value
    int : ℤ → Value
    float : Float → Value
    str : String → Value
    list : Items → Value
    dict : Fields → Value

  pub data Items : Type 0 where
    nil : Items
    cons : Value → Items → Items

  pub data Fields : Type 0 where
    end : Fields
    field : String → Value → Fields → Fields

abbrev pub to_list : Items → List Value
to_list nil = []
to_list (cons v vs) = v ∷ to_list vs

abbrev pub entries : Fields → List (String × Value)
entries end = []
entries (field k v fs) = (k, v) ∷ entries fs

-- `d.get(k)`, `none` for a missing key. A written `null` is `some null`.
abbrev pub get : String → Fields → Option Value
get k end = none
get k (field j v fs) = if str_eq j k then some v else get k fs

-- `d.get(k)` where the code does not tell a missing key from `None`.
abbrev pub get_or_null : String → Fields → Value
get_or_null k fs = elim (get k fs) [ none ↦ null | some v ↦ v ]

-- The value of an `int` or a `float`; a `bool` is no number to the program.
abbrev pub number : Value → Option Float
number (int z) = some (finite z 0)
number (float x) = some x
number _ = none
