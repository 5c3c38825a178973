-- ===== src/Cluster/Tests.antt =====
-- Grades of two clusters.
use opennan.Prelude.{◌+◌, ◌%◌, ◌^◌, ◌↔◌, ◌≤◌, ◌≡◌, true, arith}
use opennan.Cluster.{compare_grade, calculate_cluster_grade}
use opennan.Cluster.Grade.{calculate_cluster_grade_overlaps}

calculate_cluster_grade_overlaps_example :
    (compare_grade 3 600000 4 10 ≡ true)
    × ((calculate_cluster_grade 4 10 ≤ calculate_cluster_grade 3 600000)
        ↔ (64 + 10 % 2 ^ 19 ≤ 600000 % 2 ^ 19))
calculate_cluster_grade_overlaps_example =
    calculate_cluster_grade_overlaps 3 600000 10 (omega arith)
