-- ===== src/Prelude/Distinct.antt =====
-- Lists of names in which no name is twice, as a loop over a set of seen names builds them.
use mathlib.Core.Path.{◌≡◌, refl}
use mathlib.Core.Bool.{false}
use mathlib.Core.List.{List, [], ◌∷◌}
use Prim.Native.String.{String}
use text.Mathlib.TextEquality.{eq_iff}
use native.Mathlib.Omega.{arith}
use canyonos.Prelude.Lists.{All, contains}

abbrev pub Distinct : List String → Type 0
Distinct [] = Unit
Distinct (n ∷ ns) = (contains ns n ≡ false) × Distinct ns

-- No name of the list is among those seen.
abbrev pub Fresh : List String → List String → Type 0
Fresh seen ns = All (λ n. contains seen n ≡ false) ns

Fresh-unlisted : (n : String) (seen ns : List String) → Fresh (n ∷ seen) ns → contains ns n ≡ false
Fresh-unlisted n seen [] h = refl
Fresh-unlisted n seen (m ∷ ms) h =
    ground (arith, h.0, eq_iff n m, eq_iff m n, Fresh-unlisted n seen ms h.1)

Fresh-rest : (n : String) (seen ns : List String) → Fresh (n ∷ seen) ns → Fresh seen ns
Fresh-rest n seen [] h = tt
Fresh-rest n seen (m ∷ ms) h = (ground (arith, h.0), Fresh-rest n seen ms h.1)

-- One round of the loop that keeps a name it has not seen.
pub Distinct-cons :
    (n : String) (seen ns : List String)
    → contains seen n ≡ false
    → Fresh (n ∷ seen) ns × Distinct ns
    → Fresh seen (n ∷ ns) × Distinct (n ∷ ns)
Distinct-cons n seen ns h r = ((h, Fresh-rest n seen ns r.0), (Fresh-unlisted n seen ns r.0, r.1))
