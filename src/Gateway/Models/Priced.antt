-- ===== src/Gateway/Models/Priced.antt =====
-- What the entries of an accepted llms.yaml have, so that their caps can be checked.
use canyonos.Prelude.{
  ◌≡◌, refl, subst, true, String, [], ◌∷◌, none, some, arith, str_eq, All, lookup, Bool-cases,
  Option-cases, inl, inr, ◌⊎◌,
}
use canyonos.Float.{Float}
use canyonos.Value.{Value, null, int, float, Fields, field, end, get, get_or_null, number}
use canyonos.Gateway.Models.{
  normalize_model_id, Llm, Index, all_null, is_number, bad_cap, caps_fault, caps_of, entry_fault,
  put_llm, Indexed, indexed, fault, made, Entry, skipped, entry, unusable, read_entry, add_entry,
  index_from, index_llms,
}

-- No cap, or a number.
abbrev pub IsCap : Value → Type 0
IsCap cap = (cap ≡ null) ⊎ ((limit : Float) × (number cap ≡ some limit))

-- Every agent of an entry has a cap or none, and the entry states the output tokens of a call if
-- one has.
abbrev pub IsPriced : Llm → Type 0
IsPriced l =
    (caps : Fields) × (caps_of (get_or_null "agents" l.settings) ≡ some caps)
    × ((a : String) (cap : Value) → get a caps ≡ some cap → IsCap cap)
    × ((all_null caps ≡ true) ⊎ (is_number (get_or_null "max_tokens" l.settings) ≡ true))

is_number-some : (v : Value) → is_number v ≡ true → (x : Float) × (number v ≡ some x)
is_number-some v h = elim (Option-cases (number v)) [
  | inl e ↦ absurd (ground (arith, h, e))
  | inr r ↦ r
]

all_null-IsCap :
    (caps : Fields) (a : String) (cap : Value)
    → all_null caps ≡ true
    → get a caps ≡ some cap
    → IsCap cap
all_null-IsCap end a cap h g = cc
all_null-IsCap (field k null fs) a cap h g = elim (Bool-cases (str_eq k a)) [
  | inl e ↦ inl (ground (arith, g, e))
  | inr e ↦ all_null-IsCap fs a cap h (rw e at g)
]
all_null-IsCap (field k _ fs) a cap h g = cc

bad_cap-cons :
    (k : String) (v : Value) (fs : Fields)
    → bad_cap (field k v fs) ≡ none
    → IsCap v × (bad_cap fs ≡ none)
unfolding bad_cap
bad_cap-cons k null fs h = (inl refl, h)
bad_cap-cons k (int z) fs h = (inr (is_number-some (int z) (ground (arith, h))), ground (arith, h))
bad_cap-cons k (float x) fs h =
    (inr (is_number-some (float x) (ground (arith, h))), ground (arith, h))
bad_cap-cons k _ fs h = cc

bad_cap-IsCap :
    (caps : Fields) (a : String) (cap : Value)
    → bad_cap caps ≡ none
    → get a caps ≡ some cap
    → IsCap cap
bad_cap-IsCap end a cap h g = cc
bad_cap-IsCap (field k v fs) a cap h g =
    let r = bad_cap-cons k v fs h in
    elim (Bool-cases (str_eq k a)) [
      | inl e ↦ subst IsCap (ground (arith, g, e)) r.0
      | inr e ↦ bad_cap-IsCap fs a cap r.1 (rw e at g)
    ]

caps_fault-none :
    (name : String) (llm caps : Fields)
    → caps_fault name llm caps ≡ none
    → ((a : String) (cap : Value) → get a caps ≡ some cap → IsCap cap)
      × ((all_null caps ≡ true) ⊎ (is_number (get_or_null "max_tokens" llm) ≡ true))
unfolding caps_fault
caps_fault-none name llm caps h = elim (Bool-cases (all_null caps)) [
  | inl e ↦ ((λ a cap g. all_null-IsCap caps a cap e g), inl e)
  | inr e ↦ elim (Bool-cases (is_number (get_or_null "max_tokens" llm))) [
    | inl n ↦ elim (Option-cases (bad_cap caps)) [
      | inl b ↦ ((λ a cap g. bad_cap-IsCap caps a cap b g), inr n)
      | inr (a, b) ↦ absurd (ground (arith, h, e, n, b))
    ]
    | inr n ↦ absurd (ground (arith, h, e, n))
  ]
]

entry_fault-none :
    (name id : String) (llm : Fields) → entry_fault name llm ≡ none → IsPriced (made name id llm)
unfolding entry_fault
entry_fault-none name id llm h = elim (Option-cases (caps_of (get_or_null "agents" llm))) [
  | inl e ↦ absurd (cc (rw (e, entry_fault) at h))
  | inr (caps, e) ↦
      let r = caps_fault-none name llm caps (rw (e, entry_fault) at h) in (caps, e, r.0, r.1)
]

indexed_same : {a b : Index} → indexed a ≡ indexed b → a ≡ b
indexed_same h = cc

abbrev pub ArePriced : Index → Type 0
ArePriced ix = All (λ e. IsPriced e.1) ix

put_llm-ArePriced :
    (k : String) (l : Llm) (ix : Index) → IsPriced l → ArePriced ix → ArePriced (put_llm k l ix)
put_llm-ArePriced k l [] p h = (p, tt)
put_llm-ArePriced k l ((j, m) ∷ rest) p h = elim (Bool-cases (str_eq j k)) [
  | inl e ↦ rw e (p, h.1)
  | inr e ↦ rw e (h.0, put_llm-ArePriced k l rest p h.1)
]

add_entry-ArePriced :
    (name : String) (e : Entry) (ix : Index) {ix' : Index}
    → ArePriced ix
    → add_entry name e ix ≡ indexed ix'
    → ArePriced ix'
unfolding add_entry
add_entry-ArePriced name skipped ix h q = let same : ix ≡ _ = cc in subst ArePriced same h
add_entry-ArePriced name unusable ix h q = cc
add_entry-ArePriced name (entry id llm) ix {ix'} h q = elim (Option-cases (entry_fault name llm)) [
  | inl e ↦
      let same : put_llm (normalize_model_id id) (made name id llm) ix ≡ ix' =
        indexed_same (rw (e, add_entry) at q) in
      subst ArePriced same (put_llm-ArePriced _ _ ix (entry_fault-none name id llm e) h)
  | inr (f, e) ↦ absurd (cc (rw (e, add_entry) at q))
]

index_from-ArePriced :
    (llms : Fields) (ix : Index) {ix' : Index}
    → ArePriced ix
    → index_from llms ix ≡ indexed ix'
    → ArePriced ix'
unfolding index_from
index_from-ArePriced end ix h q = subst ArePriced (indexed_same q) h
index_from-ArePriced (field name v fs) ix {ix'} h q =
    go (add_entry name (read_entry v) ix) refl q
      (λ ix1 p r. index_from-ArePriced fs ix1 {ix' = ix'} p r)
  where
    go :
        (r : Indexed)
        → add_entry name (read_entry v) ix ≡ r
        → (elim r [ fault f ↦ fault f | indexed ix1 ↦ index_from fs ix1 ]) ≡ indexed ix'
        → ((ix1 : Index) → ArePriced ix1 → index_from fs ix1 ≡ indexed ix' → ArePriced ix')
        → ArePriced ix'
    go (fault f) e q rest = cc
    go (indexed ix1) e q rest = rest ix1 (add_entry-ArePriced name (read_entry v) ix h e) q

-- Every entry of an llms.yaml that is accepted is priced.
pub index_llms-ArePriced :
    (llms : Fields) {ix : Index} → index_llms llms ≡ indexed ix → ArePriced ix
unfolding index_llms
index_llms-ArePriced llms h = index_from-ArePriced llms [] tt h

pub lookup-IsPriced :
    (k : String) (ix : Index) {l : Llm} → ArePriced ix → lookup k ix ≡ some l → IsPriced l
lookup-IsPriced k [] h q = cc
lookup-IsPriced k ((j, m) ∷ rest) {l} h q = elim (Bool-cases (str_eq j k)) [
  | inl e ↦ let same : m ≡ l = ground (arith, q, e) in subst IsPriced same h.0
  | inr e ↦ lookup-IsPriced k rest h.1 (rw e at q)
]
