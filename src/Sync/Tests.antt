-- ===== src/Sync/Tests.antt =====
-- A state beside a peer, and the theorems at it.
use opennan.Prelude.{
  ◌↔◌, ℕ, ◌+◌, ◌*◌, ◌^◌, ◌<◌, ◌≡◌, refl, ◌&&◌, true, false, [], ◌∷◌, arith, keep, length,
}
use opennan.Prelude.Int.{negsuc}
use opennan.Utils.{EtherAddr, ether_addr_equal}
use opennan.MovingAverage
use opennan.Peer.{Peer}
use opennan.Sync.Defs.{
  SyncState, sync, master, init, calculate_master_rank, get_address_from_master_rank,
  anchor_master_selection, is_anchor_master_self, is_same_master_rank_issuer, is_recent,
  master_election,
}
use opennan.Sync.Rank.{IsAddress, get_address-calculate}
use opennan.Sync.Election.{
  elected, is_close, is_middle, is_higher, close_candidate, middle_candidate, master_election_role,
  elections, lone_device_not_master,
}
use opennan.Sync.Selection.{Change, selection-Change}
use opennan.Sync.Invariant.{IsSound, Step, Reach, reach-IsSound}
use opennan.Sync.Expiration.{windows, anchor_never_expires, anchor_expires}

abbrev addr : ℕ → EtherAddr
addr n = record { octet0 = 2; octet1 = 0; octet2 = 0; octet3 = 0; octet4 = 0; octet5 = n }

addr-IsAddress : (n : ℕ) → n < 2 ^ 8 → IsAddress (addr n)
addr-IsAddress n h = record {
  small0 = omega arith;
  small1 = omega arith;
  small2 = omega arith;
  small3 = omega arith;
  small4 = omega arith;
  small5 = h;
}

-- A peer with the address `addr 9`, which follows the master of the given rank.
abbrev peer : ℕ → ℕ → ℕ → Peer
peer rank ambtt hop_count = record {
  ref = 1;
  cluster_id = addr 0;
  addr = addr 9;
  ipv6_addr = [];
  last_update = 1000000;
  last_timestamp = 0;
  master_preference = 100;
  last_master_preference = 0;
  random_factor = 50;
  anchor_master_rank = rank;
  last_anchor_master_rank = 0;
  ambtt = ambtt;
  hop_count = hop_count;
  master_candidate = true;
  rssi_average = negsuc 39;
  rssi_average_state = (MovingAverage.init 32).1;
  availability_all_slots = false;
  availability_entries = 0;
}

abbrev high : ℕ
high = 100 * 2 ^ 56 + 9 * 2 ^ 40 + 2

abbrev low : ℕ
low = 90 * 2 ^ 56 + 9 * 2 ^ 40 + 2

-- The device with the address `addr 3`, which follows the master of rank `high`.
abbrev state : SyncState
state = record {
  role = master;
  master_rank = 3 * 2 ^ 40 + 2;
  master_preference = 0;
  random_factor = 0;
  last_master_preference_update_usec = 0;
  last_random_factor_update_usec = 0;
  anchor_master_rank = high;
  ambtt = 5000;
  hop_count = 3;
  last_anchor_master_rank = 3 * 2 ^ 40 + 2;
  last_ambtt = 0;
  last_hop_count = 0;
  count_dws_without_ambtt_update = 0;
  count_dws_without_hop_count_update = 0;
}

follows : is_anchor_master_self state ≡ false
unfolding is_anchor_master_self is_same_master_rank_issuer ether_addr_equal
    get_address_from_master_rank
follows = refl

selection-Change_example :
    Change state (peer low 6000 1) 500 state
    ↔ (state ≡ anchor_master_selection state (peer low 6000 1) 500)
selection-Change_example = selection-Change state (peer low 6000 1) 500 state

reach-IsSound_example : IsSound (anchor_master_selection (init (addr 3)) (peer high 6000 1) 500)
reach-IsSound_example =
    let start : Reach (addr 3) (init (addr 3)) = Reach.start in
    reach-IsSound (Reach.next start (Step.beacon (peer high 6000 1) 500))

master_election_role_example :
    let peers = peer high 6000 1 ∷ [] in
    master_election state peers 1001000 ≡ record state {
      role =
          elected master
            (length (keep (is_close state 1001000) peers))
            (length (keep (λ p. is_recent 1001000 p && is_higher state 1001000 p) peers))
            (length (keep (λ p. is_close state 1001000 p && is_higher state 1001000 p) peers))
            (length (keep (λ p. is_middle state 1001000 p && is_higher state 1001000 p) peers))
            (length (keep (close_candidate state 1001000) peers))
            (length (keep (middle_candidate state 1001000) peers));
    }
master_election_role_example = master_election_role state (peer high 6000 1 ∷ []) 1001000

lone_device_not_master_example :
    (elections state ((peer high 6000 1 ∷ [], 5000000) ∷ ([], 6000000) ∷ [])).role ≡ sync
unfolding is_recent
lone_device_not_master_example =
    lone_device_not_master state (peer high 6000 1 ∷ []) 5000000 (([], 6000000) ∷ []) (refl, tt)
      (tt, tt)

anchor_never_expires_example :
    ((windows 100 state).anchor_master_rank ≡ high)
    × (is_anchor_master_self (windows 100 state) ≡ false)
anchor_never_expires_example =
    anchor_never_expires 100 state follows (λ e. omega (arith, e)) (λ e. omega (arith, e))

anchor_expires_example :
    let s = record state { ambtt = 0 } in
    ((windows 3 s).anchor_master_rank ≡ s.master_rank)
    × ((windows 3 s).hop_count ≡ 0)
    × ((windows 2 s).anchor_master_rank ≡ high)
unfolding is_anchor_master_self is_same_master_rank_issuer ether_addr_equal
    get_address_from_master_rank
anchor_expires_example = anchor_expires (record state { ambtt = 0 }) refl refl (omega arith)

get_address-calculate_example :
    (get_address_from_master_rank (calculate_master_rank 100 50 (addr 9)) ≡ addr 9)
    × (calculate_master_rank 100 50 (addr 9) < 2 ^ 64)
get_address-calculate_example =
    get_address-calculate 100 50 (addr 9) (addr-IsAddress 9 (omega arith)) (omega arith)
      (omega arith)
