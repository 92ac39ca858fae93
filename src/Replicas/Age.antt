-- ===== src/Replicas/Age.antt =====
-- The order of replicas by age.
use canyonos.Prelude.{◌≡◌, true, false, List, arith}
use canyonos.Prelude.Sorting.{sort_by, sort_by-IsSortedBy, IsSortedBy}
use canyonos.Replicas.{Replica, created_before}

total : (x y : Replica) → created_before x y ≡ false → created_before y x ≡ true
total x y h = ground arith

trans :
    (x y z : Replica)
    → created_before x y ≡ true
    → created_before y z ≡ true
    → created_before x z ≡ true
trans x y z h k = ground arith

pub by_age-IsSortedBy : (rs : List Replica) → IsSortedBy created_before (sort_by created_before rs)
by_age-IsSortedBy rs = sort_by-IsSortedBy created_before total trans rs
