-- ===== src/Sync/Defs/State.antt =====
-- The state of src/sync.h, and the ranks and addresses of src/sync.c.
use opennan.Prelude.{ℕ, ◌+◌, ◌*◌, ◌/◌, ◌%◌, ◌^◌, Bool}
use opennan.Utils.{EtherAddr, ether_addr_equal}
use opennan.Peer.{Peer}

-- `enum nan_role`.
pub data Role : Type 0 where
  non_sync sync master : Role

-- `struct nan_sync_state`.
pub record SyncState : Type 0 where
  pub role : Role
  pub master_rank : ℕ
  pub master_preference : ℕ
  pub random_factor : ℕ
  pub last_master_preference_update_usec : ℕ
  pub last_random_factor_update_usec : ℕ
  pub anchor_master_rank : ℕ
  pub ambtt : ℕ
  pub hop_count : ℕ
  pub last_anchor_master_rank : ℕ
  pub last_ambtt : ℕ
  pub last_hop_count : ℕ
  pub count_dws_without_ambtt_update : ℕ
  pub count_dws_without_hop_count_update : ℕ

-- The union on a little-endian machine: the address in the low bytes.
unfoldable pub calculate_master_rank : ℕ → ℕ → EtherAddr → ℕ
calculate_master_rank master_preference random_factor a =
    a.octet0
    + a.octet1 * 2 ^ 8
    + a.octet2 * 2 ^ 16
    + a.octet3 * 2 ^ 24
    + a.octet4 * 2 ^ 32
    + a.octet5 * 2 ^ 40
    + random_factor * 2 ^ 48
    + master_preference * 2 ^ 56

unfoldable pub get_address_from_master_rank : ℕ → EtherAddr
get_address_from_master_rank rank = record {
  octet0 = rank % 2 ^ 8;
  octet1 = rank / 2 ^ 8 % 2 ^ 8;
  octet2 = rank / 2 ^ 16 % 2 ^ 8;
  octet3 = rank / 2 ^ 24 % 2 ^ 8;
  octet4 = rank / 2 ^ 32 % 2 ^ 8;
  octet5 = rank / 2 ^ 40 % 2 ^ 8;
}

-- `nan_get_peer_master_rank`.
unfoldable pub get_peer_master_rank : Peer → ℕ
get_peer_master_rank p = calculate_master_rank p.master_preference p.random_factor p.addr

unfoldable pub is_master_rank_issuer : EtherAddr → ℕ → Bool
is_master_rank_issuer addr rank = ether_addr_equal addr (get_address_from_master_rank rank)

unfoldable pub is_same_master_rank_issuer : ℕ → ℕ → Bool
unfolding is_master_rank_issuer
is_same_master_rank_issuer rank1 rank2 =
    is_master_rank_issuer (get_address_from_master_rank rank1) rank2

unfoldable pub is_anchor_master : SyncState → EtherAddr → Bool
unfolding is_master_rank_issuer
is_anchor_master s addr = is_master_rank_issuer addr s.anchor_master_rank

unfoldable pub is_anchor_master_self : SyncState → Bool
is_anchor_master_self s = is_same_master_rank_issuer s.master_rank s.anchor_master_rank

unfoldable pub get_anchor_master_address : SyncState → EtherAddr
get_anchor_master_address s = get_address_from_master_rank s.anchor_master_rank

unfoldable pub init : EtherAddr → SyncState
init interface_address =
    let rank = calculate_master_rank 0 0 interface_address in
    record {
      role = master;
      master_rank = rank;
      master_preference = 0;
      random_factor = 0;
      last_master_preference_update_usec = 0;
      last_random_factor_update_usec = 0;
      anchor_master_rank = rank;
      ambtt = 0;
      hop_count = 0;
      last_anchor_master_rank = rank;
      last_ambtt = 0;
      last_hop_count = 0;
      count_dws_without_ambtt_update = 0;
      count_dws_without_hop_count_update = 0;
    }
