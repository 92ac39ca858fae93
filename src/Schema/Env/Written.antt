-- ===== src/Schema/Env/Written.antt =====
-- The pieces of a text, written out.
use Prim.Native.Char.{Char, code}
use Prim.Native.String.{◌++◌ as append}
use text.Mathlib.TextEquality.{codes_equal}
use text.Mathlib.TextLemmas.{append_assoc, nil-append, cons-append}
use canyonos.Prelude.{
  ◌≡◌, refl, sym, ◌∙◌, ap, true, false, String, List, [], ◌∷◌, Option, none, arith, ◌==◌, any,
  Bool-cases, inl, inr,
}
use canyonos.Schema.Env.{
  Piece, plain, reference, Scan, outside, dollar, brace, name, Move, go_on, found, broken, move,
  restart, held, one, plains, unless_dollar, pieces_from, pieces, is_reference, has_reference,
  substitute_all, expand, written, name_start, name_part,
}

abbrev unset : String → Option String
unset n = none

same_char : (c d : Char) → code c == code d ≡ true → c ≡ d
same_char c d h = codes_equal c d (ground arith)

-- What a move does to the text read.
abbrev Written : Scan → Char → Move → Type 0
Written s c (go_on s') = append (held s) (one c) ≡ held s'
Written s c (found n) = append (held s) (one c) ≡ written (reference n)
Written s c broken = Unit

move-Written : (s : Scan) (c : Char) → Written s c (move s c)
move-Written outside c = tt
move-Written dollar c = elim (Bool-cases (code c == b'{')) [
  | inl e ↦ rw e (ap (λ d. append "$" (one d)) (same_char c "{" e))
  | inr e ↦ rw e tt
]
move-Written brace c = elim (Bool-cases (name_start c)) [ inl e ↦ rw e refl | inr e ↦ rw e tt ]
move-Written (name n) c = elim (Bool-cases (name_part c)) [
  | inl e ↦ rw e (append_assoc "${" n (one c))
  | inr e ↦ elim (Bool-cases (code c == b'}')) [
    | inl k ↦ rw e (
        rw k (
          append_assoc "${" n (one c)
          ∙ ap (λ d. append "${" (append n (one d))) (same_char c "}" k)))
    | inr k ↦ rw e (rw k tt)
  ]
]

one-append : (c : Char) (t : String) → append (one c) t ≡ String.◌∷◌ c t
one-append c t = cons-append c String.[] t ∙ ap (String.◌∷◌ c) (nil-append t)

shift : (c : Char) (s t : String) → append (append s (one c)) t ≡ append s (String.◌∷◌ c t)
shift c s t = append_assoc s (one c) t ∙ ap (append s) (one-append c t)

substitute_all-plains :
    (env : String → Option String) (s : String) (ps : List Piece)
    → substitute_all env (plains s ps) ≡ append s (substitute_all env ps)
substitute_all-plains env String.[] ps = sym (nil-append _)
substitute_all-plains env (String.◌∷◌ c s) ps =
    ap (append (one c)) (substitute_all-plains env s ps)
    ∙ sym (append_assoc (one c) s (substitute_all env ps))
    ∙ ap (λ u. append u (substitute_all env ps)) (one-append c s)

substitute_all-unless_dollar :
    (c : Char) (t : String)
    → substitute_all unset (pieces_from (restart c) t) ≡ append (held (restart c)) t
    → substitute_all unset (unless_dollar c (pieces_from (restart c) t)) ≡ String.◌∷◌ c t
substitute_all-unless_dollar c t h = elim (Bool-cases (code c == b'$')) [
  | inl e ↦
      let h' = rw e at h in
      rw e (h' ∙ ap (λ d. append (one d) t) (sym (same_char c "$" e)) ∙ one-append c t)
  | inr e ↦ let h' = rw e at h in rw e (ap (append (one c)) (h' ∙ nil-append t) ∙ one-append c t)
]

-- What is read so far, held back or in pieces, is the text.
pieces_from-written :
    (s : Scan) (t : String) → substitute_all unset (pieces_from s t) ≡ append (held s) t
unfolding pieces_from
pieces_from-written s String.[] = substitute_all-plains unset (held s) []
pieces_from-written s (String.◌∷◌ c t) =
    step (move s c) (move-Written s c) (λ s'. pieces_from-written s' t)
  where
    step :
        (m : Move)
        → Written s c m
        → ((s' : Scan) → substitute_all unset (pieces_from s' t) ≡ append (held s') t)
        → substitute_all unset (elim m [
          | go_on s' ↦ pieces_from s' t
          | found n ↦ reference n ∷ pieces_from outside t
          | broken ↦ plains (held s) (unless_dollar c (pieces_from (restart c) t))
        ])
          ≡ append (held s) (String.◌∷◌ c t)
    step (go_on s') w ih = ih s' ∙ ap (λ u. append u t) (sym w) ∙ shift c (held s) t
    step (found n) w ih =
        ap (append (written (reference n))) (ih outside ∙ nil-append t)
        ∙ ap (λ u. append u t) (sym w)
        ∙ shift c (held s) t
    step broken w ih =
        substitute_all-plains unset (held s) _
        ∙ ap (append (held s)) (substitute_all-unless_dollar c t (ih (restart c)))

plain_unchanged :
    (env : String → Option String) (ps : List Piece)
    → any is_reference ps ≡ false
    → substitute_all env ps ≡ substitute_all unset ps
plain_unchanged env [] h = refl
plain_unchanged env (plain c ∷ ps) h = ap (append (one c)) (plain_unchanged env ps h)
plain_unchanged env (reference n ∷ ps) h = cc

-- The expansion leaves unset variables alone: a text comes back as it is when no variable is set,
-- and in any environment when it has no reference.
pub expand_unset :
    (env : String → Option String) (s : String)
    → (expand (λ n. none) s ≡ s) × (has_reference s ≡ false → expand env s ≡ s)
unfolding expand has_reference
expand_unset env s =
    let same = pieces_from-written outside s ∙ nil-append s in
    (same, λ h. plain_unchanged env (pieces s) h ∙ same)
