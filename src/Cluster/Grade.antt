-- ===== src/Cluster/Grade.antt =====
-- The order of the cluster grades.
use opennan.Prelude.{ℕ, ◌+◌, ◌*◌, ◌%◌, ◌^◌, ◌≤◌, ◌<◌, ◌↔◌, ◌≡◌, true, ltb, arith}
use opennan.Cluster.{compare_grade, calculate_cluster_grade}

-- `nan_cluster_compare_grade` orders the grades as numbers whose high part is the master preference
-- and whose low 19 bits are those of the timestamp; so it is a strict order in which any two grades
-- with different parts are comparable.
pub compare_grade_lem :
    (mp_a ts_a mp_b ts_b : ℕ)
    → compare_grade mp_a ts_a mp_b ts_b
      ≡ ltb (mp_a * 2 ^ 19 + ts_a % 2 ^ 19) (mp_b * 2 ^ 19 + ts_b % 2 ^ 19)
unfolding compare_grade
compare_grade_lem mp_a ts_a mp_b ts_b = ground arith

-- `nan_calculate_cluster_grade` shifts the preference by 6 bits, not by 19: a cluster with the next
-- higher preference is always above in the comparison, yet the number that is calculated for it is
-- not above that of the other exactly if the low 19 bits of the other's timestamp are at least 64
-- more than those of its own. The preferences are octets.
pub calculate_cluster_grade_overlaps :
    (mp ts_a ts_b : ℕ)
    → mp + 1 < 2 ^ 8
    → (compare_grade mp ts_a (mp + 1) ts_b ≡ true)
      × ((calculate_cluster_grade (mp + 1) ts_b ≤ calculate_cluster_grade mp ts_a)
          ↔ (64 + ts_b % 2 ^ 19 ≤ ts_a % 2 ^ 19))
unfolding compare_grade calculate_cluster_grade
calculate_cluster_grade_overlaps mp ts_a ts_b h =
    (ground arith, ((λ k. omega arith), (λ k. omega arith)))
