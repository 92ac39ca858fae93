-- ===== src/Reconciler/Surplus.antt =====
-- Which replicas are surplus to the desired count.
use canyonos.Prelude.{
  true, ℕ, zero, suc, ◌+◌, ◌≤◌, ◌<◌, ◌≡◌, ◌∙◌, ◌⊎◌, List, [], ◌∷◌, arith, length, All, take, drop,
}
use mathlib.Core.List.{Memᴰ}
use canyonos.Prelude.Members.{All-map, All-self, All-zip}
use canyonos.Prelude.Slices.{take-drop, length-take, drop-nil, All-take, All-drop, take-covers}
use canyonos.Replicas.{Replica, created_before}
use canyonos.Prelude.Sorting.{sort_by, All-sort_by, All-of_sort_by, length-sort_by, IsSortedBy}
use canyonos.Replicas.Age.{by_age-IsSortedBy}
use canyonos.Reconciler.{live, surplus_of}

-- How the live replicas divide into those kept and the surplus.
pub record Division (desired : ℕ) (replicas kept surplus : List Replica) : Type 0 where
  pub covered : All (λ r. Memᴰ r kept ⊎ Memᴰ r surplus) replicas
  pub kept_listed : All (λ r. Memᴰ r replicas) kept
  pub surplus_listed : All (λ r. Memᴰ r replicas) surplus
  pub counted : length kept + length surplus ≡ length replicas
  pub few : length kept ≤ desired
  pub full : length kept < desired → surplus ≡ []
  pub older : All (λ (s : Replica). All (λ (k : Replica). k.created_at ≤ s.created_at) kept) surplus

take-older :
    (n : ℕ) (rs : List Replica)
    → IsSortedBy created_before rs
    → All
        (λ (s : Replica). All (λ (k : Replica). k.created_at ≤ s.created_at) (take n rs))
        (drop n rs)
take-older zero rs h = All-map _ _ rs (λ s m. tt) (All-self rs)
take-older (suc n) [] h = tt
take-older (suc n) (r ∷ rs) h =
    All-zip (λ s. r.created_at ≤ s.created_at)
      (λ s. All (λ k. k.created_at ≤ s.created_at) (take n rs)) (drop n rs)
      (All-map _ _ (drop n rs) (λ s k. ground (arith, k))
        (All-drop (λ s. created_before r s ≡ true) n rs h.0))
      (take-older n rs h.1)

-- The live replicas divide into the oldest, at most the desired count of them, and the surplus,
-- none of which was created before one that is kept; while fewer than desired are live, there is
-- no surplus.
pub surplus_of-Division :
    (desired : ℕ) (replicas : List Replica)
    → Division desired
        (live replicas)
        (take desired (sort_by created_before (live replicas)))
        (surplus_of desired replicas)
unfolding surplus_of
surplus_of-Division desired replicas =
    let l = live replicas in
    let listed : All (λ r. Memᴰ r l) (sort_by created_before l) =
      All-sort_by created_before (λ r. Memᴰ r l) l (All-self l) in
    record {
      covered = All-of_sort_by created_before _ l (take-covers desired (sort_by created_before l));
      kept_listed = All-take _ desired (sort_by created_before l) listed;
      surplus_listed = All-drop _ desired (sort_by created_before l) listed;
      counted = take-drop desired (sort_by created_before l) ∙ length-sort_by created_before l;
      few = length-take desired (sort_by created_before l);
      full = drop-nil desired (sort_by created_before l);
      older = take-older desired (sort_by created_before l) (by_age-IsSortedBy l);
    }
