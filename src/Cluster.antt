-- ===== src/Cluster.antt =====
-- The cluster of src/cluster.c: its id, and the grades by which clusters are compared.
pub mod Grade
mod Tests
use opennan.Prelude.{ℕ, ◌+◌, ◌*◌, ◌%◌, ◌^◌, Bool, ltb, ◌==◌, if◌then◌else◌}
use opennan.Prelude.Int.{u64}
use opennan.Utils.{EtherAddr}

-- `struct nan_cluster_state`.
pub record ClusterState : Type 0 where
  pub cluster_id : EtherAddr
  pub cluster_grade : ℕ

-- `nan_cluster_id_new`: the last octets are what `get_rand_num(0, 255)` returns in turn.
unfoldable pub id_new : ℕ → ℕ → EtherAddr
id_new draw4 draw5 = record {
  octet0 = 0x50;
  octet1 = 0x6f;
  octet2 = 0x9a;
  octet3 = 0x01;
  octet4 = draw4;
  octet5 = draw5;
}

unfoldable pub init : ClusterState → ℕ → ℕ → ClusterState
unfolding id_new
init s draw4 draw5 = record s { cluster_id = id_new draw4 draw5 }

-- Whether the first grade is below the second.
unfoldable pub compare_grade : ℕ → ℕ → ℕ → ℕ → Bool
compare_grade master_preference_a timestamp_a master_preference_b timestamp_b =
    if master_preference_a == master_preference_b
    then ltb (timestamp_a % 2 ^ 19) (timestamp_b % 2 ^ 19)
    else ltb master_preference_a master_preference_b

unfoldable pub calculate_cluster_grade : ℕ → ℕ → ℕ
calculate_cluster_grade master_preference timestamp =
    u64 (master_preference * 2 ^ 6 + timestamp % 2 ^ 19)
