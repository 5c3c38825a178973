-- ===== src/Peer/Defs.antt =====
-- The data and the functions of src/peer.c and src/peer.h.
use opennan.Prelude.{
  ℕ, zero, suc, ◌*◌, Bool, false, not, Option, none, some, List, [], ◌∷◌, ltb, ◌==◌, if◌then◌else◌,
}
use opennan.Prelude.Int.{ℤ, u32, sub64, to_schar}
use opennan.Utils.{EtherAddr, ether_addr_equal, ether_addr_to_ipv6_addr}
use opennan.LinkedList.{list_init, list_add, list_find, list_remove}
use opennan.MovingAverage
use opennan.MovingAverage.{MovingAverage}

-- `struct nan_peer`; the list of availability entries is a pointer that nothing reads.
pub record Peer : Type 0 where
  pub ref : ℕ
  pub cluster_id : EtherAddr
  pub addr : EtherAddr
  pub ipv6_addr : List ℕ
  pub last_update : ℕ
  pub last_timestamp : ℕ
  pub master_preference : ℕ
  pub last_master_preference : ℕ
  pub random_factor : ℕ
  pub anchor_master_rank : ℕ
  pub last_anchor_master_rank : ℕ
  pub ambtt : ℕ
  pub hop_count : ℕ
  pub master_candidate : Bool
  pub rssi_average : ℤ
  pub rssi_average_state : MovingAverage
  pub availability_all_slots : Bool
  pub availability_entries : ℕ

-- `struct nan_peer_state`; a callback is the address of a function, or NULL.
pub record PeerState : Type 0 where
  pub peers : List Peer
  pub timeout_usec : ℕ
  pub clean_interval_usec : ℕ
  pub peer_add_callback : Option ℕ
  pub peer_add_callback_data : ℕ
  pub peer_remove_callback : Option ℕ
  pub peer_remove_callback_data : ℕ

-- `enum peer_status`; PEER_INTERNAL is never returned.
pub data PeerStatus : Type 0 where
  peer_add peer_update peer_ok peer_missing : PeerStatus

-- A call of a callback: the function, the peer as it stood, and the additional data.
pub record Callback : Type 0 where
  pub function : ℕ
  pub peer : Peer
  pub argument : ℕ

unfoldable pub init : PeerState
unfolding list_init
init = record {
  peers = list_init;
  timeout_usec = 512 * 1024 * 10;
  clean_interval_usec = 512 * 1024 * 2;
  peer_add_callback = none;
  peer_add_callback_data = 0;
  peer_remove_callback = none;
  peer_remove_callback_data = 0;
}

unfoldable pub set_callbacks : PeerState → Option ℕ → ℕ → Option ℕ → ℕ → PeerState
set_callbacks s on_add add_data on_remove remove_data = record s {
  peer_add_callback = on_add;
  peer_add_callback_data = add_data;
  peer_remove_callback = on_remove;
  peer_remove_callback_data = remove_data;
}

-- `raw` is the block that `malloc` returned, with what was in it: `last_anchor_master_rank` and the
-- availability keep that.
unfoldable pub new : Peer → EtherAddr → EtherAddr → Peer
unfolding MovingAverage.init ether_addr_to_ipv6_addr
new raw addr cluster_id =
    let (average, ring) = MovingAverage.init 32 in
    record raw {
      addr = addr;
      cluster_id = cluster_id;
      ipv6_addr = ether_addr_to_ipv6_addr addr;
      last_update = 0;
      last_timestamp = 0;
      master_preference = 0;
      last_master_preference = 0;
      random_factor = 0;
      anchor_master_rank = 0;
      ambtt = 0;
      hop_count = 0;
      master_candidate = false;
      rssi_average = average;
      rssi_average_state = ring;
    }

-- `nan_peer_get`: the peer with that address, and the status.
unfoldable pub get : List Peer → EtherAddr → PeerStatus × Option Peer
unfolding list_find
get peers addr = elim (list_find (λ p. ether_addr_equal p.addr addr) peers) [
  | some p ↦ (peer_ok, some p)
  | none ↦ (peer_missing, none)
]

-- Comparison of two pointers to peers.
unfoldable pub same : Peer → Peer → Bool
same p q = q.ref == p.ref

-- The list after a write through the pointer `p.ref`, `p` being the peer after the write.
unfoldable pub write_back : Peer → List Peer → List Peer
write_back p [] = []
write_back p (q ∷ qs) = (if same p q then p else q) ∷ write_back p qs

unfoldable pub add :
    PeerState → Peer → EtherAddr → EtherAddr → ℕ → PeerStatus × List Callback × PeerState
unfolding new list_add write_back
add s raw addr cluster_id now = elim (get s.peers addr).1 [
  | none ↦
      let peer = new raw addr cluster_id in
      let calls = elim s.peer_add_callback as (λ c. List Callback) [
        | none ↦ []
        | some f ↦ record { function = f; peer = peer; argument = s.peer_add_callback_data } ∷ []
      ] in
      (peer_add, calls, record s { peers = list_add s.peers (record peer { last_update = now }) })
  | some peer ↦
      let seen = record peer { last_update = now } in
      let moved =
        if not (ether_addr_equal peer.cluster_id cluster_id)
        then record seen { cluster_id = cluster_id }
        else seen in
      (peer_update, [], record s { peers = write_back moved s.peers })
]

unfoldable pub set_master_indication : Peer → ℕ → ℕ → Peer
set_master_indication p master_preference random_factor = record p {
  last_master_preference = p.master_preference;
  master_preference = master_preference;
  random_factor = random_factor;
}

unfoldable pub set_anchor_master_information : Peer → ℕ → ℕ → ℕ → Peer
set_anchor_master_information p rank ambtt hop_count = record p {
  last_anchor_master_rank = p.anchor_master_rank;
  anchor_master_rank = rank;
  hop_count = hop_count;
  ambtt = if hop_count == 0 then u32 p.last_timestamp else ambtt;
}

unfoldable pub set_beacon_information : Peer → ℤ → ℕ → Peer
unfolding MovingAverage.add
set_beacon_information p rssi timestamp =
    let (average, ring) = MovingAverage.add to_schar (p.rssi_average, p.rssi_average_state) rssi in
    record p { rssi_average = average; rssi_average_state = ring; last_timestamp = timestamp }

-- `none`: the callback is NULL, and is called all the same.
unfoldable pub remove : PeerState → Peer → Option (Callback × PeerState)
unfolding list_remove same
remove s peer = elim s.peer_remove_callback [
  | none ↦ none
  | some f ↦ some (
    record { function = f; peer = peer; argument = s.peer_remove_callback_data },
    record s { peers = (list_remove (same peer) s.peers).1 },
  )
]

-- The condition of `nan_peers_clean`.
unfoldable pub is_stale : ℕ → ℕ → Peer → Bool
is_stale timeout now peer = ltb peer.last_update (sub64 now timeout)

pub data Cleaned : Type 0 where
  cleaned : List Callback → PeerState → Cleaned
  null_callback unfinished : Cleaned

-- What one more callback before it makes of the rest of the loop.
abbrev pub after_call : Callback → Cleaned → Cleaned
after_call c (cleaned calls s) = cleaned (c ∷ calls) s
after_call c null_callback = null_callback
after_call c unfinished = unfinished

-- The loop of `nan_peers_clean` on fuel.
unfoldable pub clean : ℕ → PeerState → ℕ → Cleaned
clean zero s now = unfinished
clean (suc fuel) s now = elim (list_find (is_stale s.timeout_usec now) s.peers) [
  | none ↦ cleaned [] s
  | some peer ↦ elim (remove s peer) [
    | none ↦ null_callback
    | some (call, s') ↦ after_call call (clean fuel s' now)
  ]
]
