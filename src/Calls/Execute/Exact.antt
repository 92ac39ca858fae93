-- ===== src/Calls/Execute/Exact.antt =====
-- The queue holds what it should: every request has its fate, and the queue is sound.
use canyonos.Prelude.{
  ℕ, ◌≡◌, refl, ◌<◌, ◌+◌, Bool, true, String, List, [], ◌∷◌, Option, none, some, lookup, arith,
  Bool-cases, inl, inr, str_eq, eq_iff, subst, sym, ap, ◌∙◌, ltb→lt,
}
use canyonos.Calls.Execute.{
  Arrival, Frontend, dedup_ttl, is_live, claim_key, key_of, unless_accepted, empty_frontend,
  execute, execute_all,
}
use canyonos.Calls.Execute.Accepted.{IsSound, execute_all-IsSound}
use canyonos.Calls.Execute.Keys.{claim_cases}
use canyonos.Calls.Execute.Fates.{
  Some, Some-snoc, Some-before, IsRepeated, Fate, is_queued, is_turned_away, is_repeated,
  is_refused, AllFates, is_put, is_left, turns_away, skips, takes, execute_cases,
}

module _ {V : Type 0} (same : Option V → V → Bool) where
  -- Every key comes from a request, and expires a lifetime after it.
  abbrev Stem : List (Arrival V) → List (String × ℕ) → Type 0
  Stem before keys =
      (f : String) (e : ℕ)
      → lookup f keys ≡ some e
      → Some (λ x. (key_of x ≡ some f) × (e ≡ x.at + dedup_ttl)) before

  Some-map :
      {P Q : Arrival V → Type 0} (xs : List (Arrival V))
      → ((x : Arrival V) → P x → Q x)
      → Some P xs
      → Some Q xs
  Some-map [] f h = absurd h
  Some-map (x ∷ xs) f (inl p) = inl (f x p)
  Some-map (x ∷ xs) f (inr h) = inr (Some-map xs f h)

  still_live : (o : Option ℕ) (t : ℕ) → is_live o t ≡ true → (e : ℕ) × (o ≡ some e) × (t < e)
  still_live none t h = absurd (cc h)
  still_live (some e) t h = (e, refl, ltb→lt t e h)

  claim_key-none :
      (o : Option String) (t : ℕ) (keys : List (String × ℕ))
      → claim_key o t keys ≡ none
      → (g : String) × (o ≡ some g) × (is_live (lookup g keys) t ≡ true)
  unfolding claim_key
  claim_key-none none t keys e = absurd (cc e)
  claim_key-none (some g) t keys e = elim (Bool-cases (is_live (lookup g keys) t)) [
    | inl y ↦ (g, refl, y)
    | inr n ↦ absurd (ground (arith, e, n))
  ]

  skipped-IsRepeated :
      (a : Arrival V) (keys : List (String × ℕ)) (before : List (Arrival V))
      → Stem before keys
      → unless_accepted a keys ≡ none
      → IsRepeated before a
  unfolding unless_accepted
  skipped-IsRepeated a keys before known e =
      let (g, k, y) = claim_key-none (key_of a) a.at keys e in
      let (d, l, t) = still_live (lookup g keys) a.at y in
      (g, k, Some-map before (λ x h. (h.0, subst (λ n. a.at < n) h.1 t)) (known g d l))

  unless_accepted-Stem :
      (a : Arrival V) (keys after : List (String × ℕ)) (before : List (Arrival V))
      → Stem before keys
      → unless_accepted a keys ≡ some after
      → Stem (a ∷ before) after
  unfolding unless_accepted
  unless_accepted-Stem a keys after before known e =
      elim (claim_cases (key_of a) a.at keys after e) [
        | inl (_, s) ↦ subst (Stem (a ∷ before)) s (λ f d l. inr (known f d l))
        | inr (g, k, _, s) ↦ subst (Stem (a ∷ before)) s (λ f d l. elim (Bool-cases (str_eq g f)) [
          | inl y ↦ inl (k ∙ ap some (ground (arith, y, eq_iff g f)), ground (arith, y, l))
          | inr n ↦ inr (known f d (ground (arith, n, l)))
        ])
      ]

  execute-Stem :
      (a : Arrival V) (s : Frontend V) (before : List (Arrival V))
      → Stem before s.accepted
      → Stem (a ∷ before) (execute same a s).0.accepted
  execute-Stem a s before known = elim (execute_cases same a s) [
    | turns_away e _ _ ↦ older e
    | skips e _ ↦ older e
    | takes keys e (is_put p) ↦
        subst (λ t. Stem (a ∷ before) t.accepted) (sym p)
          (unless_accepted-Stem a s.accepted keys before known e)
    | takes keys e (is_left p _ _) ↦
        subst (Stem (a ∷ before)) (sym p) (unless_accepted-Stem a s.accepted keys before known e)
  ]
    where
      older : (execute same a s).0 ≡ s → Stem (a ∷ before) (execute same a s).0.accepted
      older e f d l = inr (known f d (subst (λ t. lookup f t.accepted ≡ some d) e l))

  execute-Fate :
      (a : Arrival V) (s : Frontend V) (before : List (Arrival V))
      → Stem before s.accepted
      → Fate same before (execute same a s).0.queue a
  execute-Fate a s before known = elim (execute_cases same a s) [
    | turns_away _ r f ↦ is_turned_away r f
    | skips _ d ↦ is_repeated (skipped-IsRepeated a s.accepted before known d)
    | takes keys e (is_put p) ↦
        is_queued
          (subst (λ t. Some (λ x. x ≡ a) t.queue) (sym p) (Some-snoc (λ x. x ≡ a) s.queue a refl))
    | takes keys e (is_left _ _ (p, r, n, t, m)) ↦ is_refused p r n t m
  ]

  -- What is on the queue stays there.
  execute-keeps :
      (P : Arrival V → Type 0) (a : Arrival V) (s : Frontend V)
      → Some P s.queue
      → Some P (execute same a s).0.queue
  execute-keeps P a s h = elim (execute_cases same a s) [
    | turns_away e _ _ ↦ subst (λ t. Some P t.queue) (sym e) h
    | skips e _ ↦ subst (λ t. Some P t.queue) (sym e) h
    | takes keys e (is_put p) ↦ subst (λ t. Some P t.queue) (sym p) (Some-before P s.queue a h)
    | takes keys e (is_left _ q _) ↦ subst (Some P) (sym q) h
  ]

  execute_all-keeps :
      (P : Arrival V → Type 0) (arrivals : List (Arrival V)) (s : Frontend V)
      → Some P s.queue
      → Some P (execute_all same arrivals s).queue
  unfolding execute_all
  execute_all-keeps P [] s h = h
  execute_all-keeps P (a ∷ rest) s h =
      execute_all-keeps P rest (execute same a s).0 (execute-keeps P a s h)

  Fate-later :
      (before : List (Arrival V)) (a : Arrival V) (rest : List (Arrival V)) (s : Frontend V)
      → Fate same before s.queue a
      → Fate same before (execute_all same rest s).queue a
  Fate-later before a rest s (is_queued h) = is_queued (execute_all-keeps (λ x. x ≡ a) rest s h)
  Fate-later before a rest s (is_turned_away r f) = is_turned_away r f
  Fate-later before a rest s (is_repeated h) = is_repeated h
  Fate-later before a rest s (is_refused p r n t m) = is_refused p r n t m

  execute_all-AllFates :
      (before arrivals : List (Arrival V)) (s : Frontend V)
      → Stem before s.accepted
      → AllFates same before arrivals (execute_all same arrivals s).queue
  unfolding execute_all
  execute_all-AllFates before [] s known = tt
  execute_all-AllFates before (a ∷ rest) s known = (
    Fate-later before a rest (execute same a s).0 (execute-Fate a s before known),
    execute_all-AllFates (a ∷ before) rest (execute same a s).0 (execute-Stem a s before known),
  )

  -- From an empty queue on, every request is put on the queue, unless it was forwarded to a replica
  -- that drains, or a request for its future came less than the lifetime of a key before, or it is a
  -- first hop that came once `admit` was set, that names its agent, function and future, and that
  -- governance refuses or cannot judge for want of a context. On the queue, two requests for one
  -- future are at least the lifetime of a key apart, if Redis answered to both; nothing forwarded
  -- came while the replica drained; and each first hop that came once `admit` was set and names its
  -- agent, function and future is one that governance lets through.
  pub execute_all-IsExact :
      (arrivals : List (Arrival V))
      → IsSound same (execute_all same arrivals (empty_frontend V)).queue
        × AllFates same [] arrivals (execute_all same arrivals (empty_frontend V)).queue
  execute_all-IsExact arrivals = (
    execute_all-IsSound same arrivals,
    execute_all-AllFates [] arrivals (empty_frontend V) (λ f e l. absurd (cc l)),
  )
