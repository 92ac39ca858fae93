-- ===== src/Routing/Addresses.antt =====
-- Where new calls to an agent go.
use canyonos.Prelude.{
  ◌≡◌, ◌≢◌, refl, true, false, not, String, List, [], ◌∷◌, Option, none, some, arith, All, map,
  str_eq,
}
use mathlib.Core.List.{Memᴰ}
use canyonos.Prelude.Members.{mem-keep, mem-of_keep, All-map, All-self, All-mem}
use canyonos.Prelude.Sorting.{sort_by, All-sort_by, All-of_sort_by, keep-IsSortedBy, IsSortedBy}
use canyonos.Replicas.{Replica, is_draining, created_before}
use canyonos.Replicas.Age.{by_age-IsSortedBy}
use canyonos.Routing.{replicas_of, routed, addresses}

-- The replicas that new calls of an agent go to.
pub record IsRouted (agent : String) (replicas routed_ : List Replica) : Type 0 where
  pub sound :
      All
        (λ r. Memᴰ r replicas × (str_eq r.agent_name agent ≡ true) × (is_draining r ≡ false))
        routed_
  pub complete :
      All (λ r. str_eq r.agent_name agent ≡ true → is_draining r ≡ false → Memᴰ r routed_) replicas
  pub oldest_first : IsSortedBy created_before routed_

abbrev pub published : Option (List String) → List String
published none = []
published (some l) = l

-- The addresses published for an agent are those of exactly the agent's replicas that do not
-- drain, the oldest first, and nothing is published where there are none.
pub addresses-IsRouted :
    (agent : String) (replicas : List Replica)
    → IsRouted agent replicas (routed agent replicas)
      × (published (addresses agent replicas) ≡ map (λ r. r.address) (routed agent replicas))
      × (addresses agent replicas ≢ some [])
unfolding addresses
addresses-IsRouted agent replicas =
    let mine = replicas_of agent replicas in
    let sorted = sort_by created_before mine in
    (
      record {
        sound =
            All-map _ _ (routed agent replicas) (λ r h. sound_lem r h)
              (All-self (routed agent replicas));
        complete = All-map _ _ replicas (λ r m a d. complete_lem r m a d) (All-self replicas);
        oldest_first =
            keep-IsSortedBy created_before (λ r. not (is_draining r)) sorted
              (by_age-IsSortedBy mine);
      },
      published_lem (map (λ r. r.address) (routed agent replicas)),
      not_empty (map (λ r. r.address) (routed agent replicas)),
    )
  where
    sound_lem :
        (r : Replica)
        → Memᴰ r (routed agent replicas)
        → Memᴰ r replicas × (str_eq r.agent_name agent ≡ true) × (is_draining r ≡ false)
    sound_lem r m =
        let (in_sorted, alive) =
          mem-keep (λ r. not (is_draining r)) (sort_by created_before (replicas_of agent replicas))
            m in
        let in_mine =
          All-mem (λ q. Memᴰ q (replicas_of agent replicas)) _
            (All-sort_by created_before (λ q. Memᴰ q (replicas_of agent replicas))
              (replicas_of agent replicas) (All-self (replicas_of agent replicas)))
            in_sorted in
        let (listed, named) = mem-keep (λ r. str_eq r.agent_name agent) replicas in_mine in
        (listed, named, ground (arith, alive))

    complete_lem :
        (r : Replica)
        → Memᴰ r replicas
        → str_eq r.agent_name agent ≡ true
        → is_draining r ≡ false
        → Memᴰ r (routed agent replicas)
    complete_lem r m a d =
        let in_mine = mem-of_keep (λ r. str_eq r.agent_name agent) replicas m a in
        let in_sorted =
          All-mem (λ q. Memᴰ q (sort_by created_before (replicas_of agent replicas))) _
            (All-of_sort_by created_before
              (λ q. Memᴰ q (sort_by created_before (replicas_of agent replicas)))
              (replicas_of agent replicas) (All-self _))
            in_mine in
        mem-of_keep (λ r. not (is_draining r)) _ in_sorted (rw d refl)

    published_lem :
        (l : List String) → published (elim l [ [] ↦ none | b ∷ rest ↦ some (b ∷ rest) ]) ≡ l
    published_lem [] = refl
    published_lem (b ∷ rest) = refl

    not_empty : (l : List String) → (elim l [ [] ↦ none | b ∷ rest ↦ some (b ∷ rest) ]) ≢ some []
    not_empty [] e = cc e
    not_empty (b ∷ rest) e = ground arith
