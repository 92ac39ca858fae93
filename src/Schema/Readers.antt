-- ===== src/Schema/Readers.antt =====
-- What the field readers hand back.
use canyonos.Prelude.{
  ◌≡◌, ◌||◌, true, false, String, List, Option, none, some, arith, Option-cases, inl, inr, contains,
  All,
}
use canyonos.Prelude.Int.{ℤ, pos, ◌≤ℤ◌}
use canyonos.Value.{
  Value, null, bool, int, float, str, list, dict, Fields, field, end, get, get_or_null, entries,
}
use canyonos.Schema.{Place, Host}
use canyonos.Schema.Clean.{Clean, bind-Clean}
use canyonos.Schema.Checks.{
  integer, integer_in, below, above, string, string_value, check_keys, port,
}

-- A number at least `low`.
abbrev pub AtLeast : ℤ → ℤ → Type 0
AtLeast low z = low ≤ℤ z

abbrev pub IsPort : ℤ → Type 0
IsPort z = (pos 1 ≤ℤ z) × (z ≤ℤ pos 65535)

module _ {A : Type 0} (P : A → Type 0) (of : ℤ → A) where
  -- What holds of the default and of the numbers in the range holds of what is read.
  pub integer-Holds :
      (node : Fields) (k : String) (prefix : Place) (default : A) (low high : Option ℤ)
      → P default
      → ((z : ℤ) → (below z low || above z high) ≡ false → P (of z))
      → P (integer of node k prefix default low high).value
  unfolding integer
  integer-Holds node k prefix default low high d h = elim (Option-cases (get k node)) [
    | inl e ↦ rw (e, integer) d
    | inr (v, e) ↦ elim (Option-cases (integer_in low high v)) [
      | inl r ↦ rw (e, integer) (rw r d)
      | inr (z, r) ↦ rw (e, integer) (rw r (h z (in_range v z r)))
    ]
  ]
    where
      in_range :
          (v : Value) (z : ℤ)
          → integer_in low high v ≡ some z
          → (below z low || above z high) ≡ false
      in_range (int x) z r = ground (arith, r)
      in_range null z r = cc
      in_range (bool b) z r = cc
      in_range (float x) z r = cc
      in_range (str s) z r = cc
      in_range (list vs) z r = cc
      in_range (dict fs) z r = cc

pub integer-AtLeast :
    (node : Fields) (k : String) (prefix : Place) (default low : ℤ)
    → low ≤ℤ default
    → low ≤ℤ (integer (λ z. z) node k prefix default (some low) none).value
integer-AtLeast node k prefix default low d =
    integer-Holds (λ z. low ≤ℤ z) (λ z. z) node k prefix default (some low) none d
      (λ z h. ground arith)

pub port-IsPort :
    (node : Fields) (k : String) (prefix : Place) (default : ℤ)
    → IsPort default
    → IsPort (port (λ z. z) node k prefix default).value
unfolding port
port-IsPort node k prefix default d =
    integer-Holds IsPort (λ z. z) node k prefix default (some (pos 1)) (some (pos 65535)) d
      (λ z h. ground arith)

abbrev pub IsAbsentOr : (ℤ → Type 0) → Option ℤ → Type 0
IsAbsentOr P none = Unit
IsAbsentOr P (some z) = P z

pub port-IsAbsentOr :
    (node : Fields) (k : String) (prefix : Place)
    → IsAbsentOr IsPort (port some node k prefix none).value
unfolding port
port-IsAbsentOr node k prefix =
    integer-Holds (IsAbsentOr IsPort) some node k prefix none (some (pos 1)) (some (pos 65535)) tt
      (λ z h. ground arith)

module _ (host : Host) where
  string_value-some :
      (v : Value) (p : Place)
      → Clean (string_value host some v p none true)
      → (s : String) × ((string_value host some v p none true).value ≡ some s)
  unfolding string_value
  string_value-some null p h = cc
  string_value-some (str s) p h =
      elim (Option-cases (string_value host some (str s) p none true).value) [
        | inl e ↦ absurd (ground (arith, e))
        | inr r ↦ r
      ]
  string_value-some (bool b) p h = cc
  string_value-some (int z) p h = cc
  string_value-some (float x) p h = cc
  string_value-some (list vs) p h = cc
  string_value-some (dict fs) p h = cc

  -- A required text that is read with no violation is there.
  pub string-some :
      (node : Fields) (k : String) (prefix : Place)
      → Clean (string host some node k prefix none true)
      → (s : String) × ((string host some node k prefix none true).value ≡ some s)
  unfolding string
  string-some node k prefix h = string_value-some (get_or_null k node) _ h

-- Every key of a mapping that `check_keys` accepts is allowed.
pub check_keys-All :
    (fs : Fields) (prefix : Place) (allowed : List String)
    → Clean (check_keys fs prefix allowed)
    → All (λ e. contains allowed e.0 ≡ true) (entries fs)
unfolding check_keys
check_keys-All end prefix allowed h = tt
check_keys-All (field k v fs) prefix allowed h =
    let r = bind-Clean _ _ h in (ground (arith, r.0), check_keys-All fs prefix allowed r.1)
