-- ===== src/Peer/Tests.antt =====
-- A table of two peers, and the theorems at it.
use opennan.Prelude.{ℕ, ◌≡◌, refl, not, false, Option, none, some, [], ◌∷◌, map, arith, keep}
use opennan.Utils.{EtherAddr}
use opennan.MovingAverage
use opennan.Peer.{
  Peer, PeerState, PeerStatus, peer_add, peer_update, get, add, clean, is_stale, cleaned,
}
use opennan.Peer.Lookup.{IsTable}
use opennan.Peer.Add.{Added, add_lem}
use opennan.Peer.Clean.{removal, clean_lem, clean_early}

abbrev addr : ℕ → EtherAddr
addr n = record { octet0 = 2; octet1 = 0; octet2 = 0; octet3 = 0; octet4 = 0; octet5 = n }

abbrev cluster_id : EtherAddr
cluster_id = record {
  octet0 = 0x50;
  octet1 = 0x6f;
  octet2 = 0x9a;
  octet3 = 1;
  octet4 = 3;
  octet5 = 9;
}

abbrev peer_at : ℕ → ℕ → Peer
peer_at n seen = record {
  ref = n;
  cluster_id = cluster_id;
  addr = addr n;
  ipv6_addr = [];
  last_update = seen;
  last_timestamp = 0;
  master_preference = 0;
  last_master_preference = 0;
  random_factor = 0;
  anchor_master_rank = 0;
  last_anchor_master_rank = 0;
  ambtt = 0;
  hop_count = 0;
  master_candidate = false;
  rssi_average = (MovingAverage.init 32).0;
  rssi_average_state = (MovingAverage.init 32).1;
  availability_all_slots = false;
  availability_entries = 0;
}

abbrev table : Option ℕ → PeerState
table callback = record {
  peers = peer_at 1 1000 ∷ peer_at 2 6000000 ∷ [];
  timeout_usec = 5242880;
  clean_interval_usec = 1048576;
  peer_add_callback = none;
  peer_add_callback_data = 0;
  peer_remove_callback = callback;
  peer_remove_callback_data = 5;
}

table-IsTable : IsTable (table (some 7)).peers
table-IsTable = (((ground arith, λ e. ground (arith, e)), tt), (tt, tt))

add_lem_example :
    let s = table (some 7) in
    Added s (add s (peer_at 3 0) (addr 3) cluster_id 900).2 (addr 3) cluster_id 900
    × ((add s (peer_at 3 0) (addr 3) cluster_id 900).0
        ≡ (elim (get s.peers (addr 3)).1 as (λ o. PeerStatus) [
          | none ↦ peer_add
          | some p ↦ peer_update
        ]))
add_lem_example =
    add_lem (table (some 7)) (peer_at 3 0) (addr 3) cluster_id 900 table-IsTable
      (omega arith, (omega arith, tt))

clean_lem_example :
    let s = table (some 7) in
    let stale = is_stale 5242880 7000000 in
    clean 3 s 7000000
    ≡ cleaned
        (map (removal s 7) (keep stale s.peers))
        (record s { peers = keep (λ p. not (stale p)) s.peers })
clean_lem_example = clean_lem 3 (table (some 7)) 7000000 7 refl table-IsTable (omega arith)

abbrev young : PeerState
young = record (table (some 7)) { peers = peer_at 1 1000 ∷ peer_at 2 2000 ∷ [] }

clean_early_example :
    clean 3 young 2000 ≡ cleaned (map (removal young 7) young.peers) (record young { peers = [] })
clean_early_example =
    clean_early young 2000 7 refl (((ground arith, λ e. ground (arith, e)), tt), (tt, tt))
      (omega arith) (omega arith) (omega arith, (omega arith, tt))
