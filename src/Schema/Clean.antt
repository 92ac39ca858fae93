-- ===== src/Schema/Clean.antt =====
-- Readers that report nothing.
use canyonos.Prelude.{◌≡◌, refl, List, [], ◌∷◌, ◌++◌}
use canyonos.Schema.{Checked, ◌>>=◌}

abbrev pub Clean : {A : Type 0} → Checked A → Type 0
Clean m = m.violations ≡ []

pub nil_parts : {A : Type 0} {xs ys : List A} → xs ++ ys ≡ [] → (xs ≡ []) × (ys ≡ [])
nil_parts {xs = []} h = (refl, h)
nil_parts {xs = x ∷ xs} h = cc

-- A chain of readers reports nothing when each of them reports nothing.
pub bind-Clean :
    {A B : Type 0} (m : Checked A) (f : A → Checked B)
    → Clean (m >>= f)
    → Clean m × Clean (f m.value)
unfolding ◌>>=◌
bind-Clean m f h = nil_parts h
