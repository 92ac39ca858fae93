-- ===== src/Placement/Dedicated.antt =====
-- Machines that were started for one agent.
use canyonos.Prelude.{
  ℕ, zero, suc, ◌≤◌, ◌≡◌, refl, sym, ap, ◌++◌, length, subst, true, String, List, [], ◌∷◌, some,
  arith, All, Option-cases, inl, inr, eq_iff,
}
use canyonos.Prelude.Members.{All-append}
use canyonos.Float.{Float}
use canyonos.Placement.{
  Machine, NewReplica, is_candidate, update_at, with_replica, candidates, choose, place,
}
use canyonos.Placement.Choice.{place-IsCandidate}
use canyonos.Placement.Changes.{at}

-- The replicas given to a machine are counted. A machine started for one agent counts at most one
-- replica, and is given none of another agent.
pub record IsDedicated (m : Machine) : Type 0 where
  pub counted : length m.replicas ≤ m.used_replicas
  pub single : (agent : String) → m.owner ≡ some agent → m.used_replicas ≤ 1
  pub own :
      (agent : String)
      → m.owner ≡ some agent
      → All (λ (r : NewReplica). r.agent_name ≡ agent) m.replicas

length-append : (rs : List NewReplica) (r : NewReplica) → length (rs ++ (r ∷ [])) ≡ suc (length rs)
length-append [] r = refl
length-append (q ∷ rs) r = ap suc (length-append rs r)

All-at :
    (P : Machine → Type 0) (i : ℕ) (m : Machine) (ms : List Machine)
    → at i ms ≡ some m
    → All P ms
    → P m
All-at P i m [] e hs = absurd (cc e)
All-at P zero m (n ∷ ms) e hs = let same : n ≡ m = cc e in subst P same hs.0
All-at P (suc i) m (n ∷ ms) e hs = All-at P i m ms e hs.1

All-update_at :
    (P : Machine → Type 0) (f : Machine → Machine) (i : ℕ) (m : Machine) (ms : List Machine)
    → at i ms ≡ some m
    → P (f m)
    → All P ms
    → All P (update_at i f ms)
unfolding update_at
All-update_at P f i m [] e h hs = tt
All-update_at P f zero m (n ∷ ms) e h hs = (let same : n ≡ m = cc e in rw same h, hs.1)
All-update_at P f (suc i) m (n ∷ ms) e h hs = (hs.0, All-update_at P f i m ms e h hs.1)

module _ (add quotient : Float → Float → Float) where
  with_replica-IsDedicated :
      (provider : String) (r : NewReplica) (m : Machine)
      → is_candidate provider r m ≡ true
      → IsDedicated m
      → IsDedicated (with_replica add quotient r m)
  unfolding with_replica is_candidate
  with_replica-IsDedicated provider r m c h = record {
    counted = omega (arith, length-append m.replicas r, h.counted);
    single = λ agent e. ground arith;
    own = λ agent e.
        All-append _ m.replicas (r ∷ []) (h.own agent e)
          (sym ((eq_iff agent r.agent_name).0 (ground arith)), tt);
  }

  -- A placement keeps the number of replicas given to each machine within the count of its use, and
  -- every machine that was started for one agent to a count of at most one, hence at most one
  -- replica, and to replicas of its agent.
  pub place-IsDedicated :
      (provider : String) (r : NewReplica) (machines placed : List Machine) (i : ℕ)
      → All IsDedicated machines
      → place add quotient provider r machines ≡ some (i, placed)
      → All IsDedicated placed
  unfolding place
  place-IsDedicated provider r machines placed i h e =
      elim (Option-cases (choose add quotient (candidates add quotient provider r machines))) [
        | inl none_left ↦ absurd (cc (rw (none_left, place) at e))
        | inr (c, chosen) ↦
            let k : place add quotient provider r machines
                ≡ some (c.0, update_at c.0 (with_replica add quotient r) machines) =
              rw (chosen, place) refl in
            let same : update_at c.0 (with_replica add quotient r) machines ≡ placed = cc (k, e) in
            let (stands, candidate) = place-IsCandidate add quotient provider r machines c chosen in
            subst (All IsDedicated) same (
              All-update_at IsDedicated (with_replica add quotient r) c.0 c.1 machines stands
                (with_replica-IsDedicated provider r c.1 candidate
                  (All-at IsDedicated c.0 c.1 machines stands h))
                h)
      ]
