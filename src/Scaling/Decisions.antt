-- ===== src/Scaling/Decisions.antt =====
-- What `scale` decides about the agents of a deployment.
use canyonos.Prelude.{
  ◌≤◌, ◌≡◌, ◌++◌, true, String, List, [], ◌∷◌, Option, none, some, All, Bool-cases, inl, inr, refl,
  str_eq,
}
use canyonos.Prelude.Int.{ℤ}
use canyonos.Value.{Value, null}
use canyonos.Scaling.{
  Policy, PolicyError, Sample, AgentSpec, policy_error, policy_of, decide, apply, nonzero, decision,
  decisions, unless_error, scale,
}
use canyonos.Scaling.Valid.{policy_error-IsValid}
use canyonos.Scaling.Bounds.{InBounds, decide-InBounds}

module _ (read : String → List Sample) where
  -- A decision about an agent of the deployment that has samples: it is that of `_decide` and
  -- leads into the policy's bounds.
  pub record IsSound (p : Policy) (d : String × ℤ) : Type 0 where
    pub newest : Sample
    pub older : List Sample
    pub sampled : read d.0 ≡ newest ∷ older
    pub decided : d.1 ≡ decide p newest older
    pub moves : nonzero d.1 ≡ true
    pub bounded : InBounds p (apply newest.replicas_expected d.1)

  All-append-Sound :
      (p : Policy) (xs ys : List (String × ℤ))
      → All (IsSound p) xs
      → All (IsSound p) ys
      → All (IsSound p) (xs ++ ys)
  All-append-Sound p [] ys hx hy = hy
  All-append-Sound p (x ∷ xs) ys hx hy = (hx.0, All-append-Sound p xs ys hx.1 hy)

  decision-IsSound :
      (p : Policy) (spec : AgentSpec) (samples : List Sample)
      → p.min_replicas ≤ p.max_replicas
      → read spec.name ≡ samples
      → All (IsSound p) (decision p spec samples)
  unfolding decision
  decision-IsSound p spec [] h e = tt
  decision-IsSound p spec (newest ∷ older) h e =
      elim (Bool-cases (nonzero (decide p newest older))) [
        | inl moves ↦ rw moves (
          record {
            newest = newest;
            older = older;
            sampled = e;
            decided = refl;
            moves = moves;
            bounded = decide-InBounds p newest older h;
          },
          tt,
        )
        | inr still ↦ rw still tt
      ]

  decisions-IsSound :
      (p : Policy) (specs : List AgentSpec)
      → p.min_replicas ≤ p.max_replicas
      → All (IsSound p) (decisions read p specs)
  unfolding decisions
  decisions-IsSound p [] h = tt
  decisions-IsSound p (spec ∷ specs) h = elim (Bool-cases (str_eq spec.kind "agent")) [
    | inl agent ↦ rw agent (
        All-append-Sound p _ _ (decision-IsSound p spec (read spec.name) h refl)
          (decisions-IsSound p specs h))
    | inr other ↦ rw other (decisions-IsSound p specs h)
  ]

  checked-IsSound :
      (v : Value) (specs : List AgentSpec) (o : Option PolicyError)
      → policy_error v ≡ o
      → All (IsSound (policy_of v)) (unless_error o (decisions read (policy_of v) specs))
  checked-IsSound v specs none e =
      decisions-IsSound (policy_of v) specs (policy_error-IsValid v e).ordered
  checked-IsSound v specs (some _) e = tt

  -- Whatever the policy document, every change that `scale` lists is the decision of `_decide` on
  -- the recorded samples of that agent, is no zero change, and leads into the policy's bounds.
  pub scale-IsSound :
      (v : Value) (specs : List AgentSpec) → All (IsSound (policy_of v)) (scale read v specs)
  unfolding scale
  scale-IsSound null specs = tt
  scale-IsSound v specs = checked-IsSound v specs (policy_error v) refl
