-- ===== src/Rx/Beacon.antt =====
-- `nan_rx_beacon` of src/rx.c: the handler of beacons, over the clock, the peers, the cluster and
-- the synchronisation state.
use opennan.Prelude.{
  ℕ, Bool, true, false, not, ◌&&◌, ◌||◌, Option, none, some, List, [], ◌==◌, get_or, if◌then◌else◌,
}
use opennan.Prelude.Int.{ℤ, pos, negsuc, ltb_ℤ}
use opennan.Utils.{EtherAddr, Oui, ether_addr_equal, oui_equal}
use opennan.LinkedList.{list_len}
use opennan.Wire.{Buf}
use opennan.Wire.Defs.{read_u8, read_le16, read_le64, read_bytes, buf_error}
use opennan.Timer
use opennan.Timer.{TimerState}
use opennan.Peer.{Peer, PeerStatus, peer_add, Callback}
use opennan.Peer.Defs
use opennan.State.{NanState}
use opennan.Cluster.{compare_grade}
use opennan.Sync.Defs.{
  update_master_preference, check_master_candidate, anchor_master_selection, is_anchor_master_self,
}
use opennan.Rx.Defs.{
  Attribute, beacon_attribute, iterate_attributes, is_zero, value_or, rx_ok, rx_ignore,
  rx_too_short,
}

abbrev pub rx_ignore_oui : ℤ
rx_ignore_oui = pos 7

abbrev pub rx_unexpected_type : ℤ
rx_unexpected_type = negsuc 2

abbrev pub nan_oui : Oui
nan_oui = record { byte0 = 0x50; byte1 = 0x6f; byte2 = 0x9a }

abbrev pub nan_oui_type_beacon : ℕ
nan_oui_type_beacon = 0x13

pub data BeaconType : Type 0 where
  discovery_beacon sync_beacon : BeaconType

-- `none` is -1.
unfoldable pub get_beacon_type : ℕ → Option BeaconType
get_beacon_type beacon_interval =
    if beacon_interval == 100
    then some discovery_beacon
    else if beacon_interval == 512
    then some sync_beacon
    else none

abbrev pub oui_of : List ℕ → Oui
oui_of xs = record { byte0 = get_or xs 0 0; byte1 = get_or xs 1 0; byte2 = get_or xs 2 0 }

-- The result, and where it is RX_OK the type and the timestamp of the beacon.
pub data Header : Type 0 where
  refused : ℤ → Header
  header : BeaconType → ℕ → Header

-- The type of a beacon is known by its interval.
abbrev pub header_of : ℕ → Option BeaconType → Header
header_of timestamp none = refused rx_unexpected_type
header_of timestamp (some type) = header type timestamp

unfoldable pub parse_beacon_header : Buf → Header × Buf
unfolding oui_equal get_beacon_type buf_error
parse_beacon_header frame =
    let (_, timestamp, frame1) = read_le64 frame in
    let (_, beacon_interval, frame2) = read_le16 frame1 in
    let (_, _, frame3) = read_le16 frame2 in
    let (_, _, frame4) = read_u8 frame3 in
    let (_, _, frame5) = read_u8 frame4 in
    let (_, oui, frame6) = read_bytes frame5 3 in
    let (_, oui_type, frame7) = read_u8 frame6 in
    (
      if not (is_zero (buf_error frame7))
          then refused rx_too_short
          else if not (oui_equal (oui_of (value_or [] oui)) nan_oui)
              || not (value_or 0 oui_type == nan_oui_type_beacon)
          then refused rx_ignore_oui
          else header_of (value_or 0 timestamp) (get_beacon_type (value_or 0 beacon_interval)),
      frame7,
    )

abbrev pub is_peer_add : PeerStatus → Bool
is_peer_add peer_add = true
is_peer_add _ = false

abbrev pub is_sync_beacon : BeaconType → Bool
is_sync_beacon sync_beacon = true
is_sync_beacon discovery_beacon = false

-- A beacon of another cluster: its cluster is joined if its grade is above ours.
unfoldable pub join_cluster : NanState → Peer → EtherAddr → ℕ → ℕ → NanState
unfolding compare_grade Timer.sync_time
join_cluster s peer cluster_id timestamp now =
    let synced_time_usec = Timer.get_synced_time_usec s.timer now in
    if compare_grade s.sync.master_preference synced_time_usec peer.master_preference timestamp
    then record s {
      cluster = record s.cluster { cluster_id = cluster_id };
      timer = Timer.sync_time s.timer now timestamp;
    }
    else s

-- A sync beacon of our cluster.
unfoldable pub follow_anchor_master : NanState → Peer → ℕ → ℕ → NanState
unfolding Timer.sync_time Timer.sync_error
follow_anchor_master s peer timestamp now =
    let sync = anchor_master_selection s.sync peer (Timer.get_synced_time_tu s.timer now) in
    let timer =
      if not (sync.anchor_master_rank == s.sync.anchor_master_rank)
      then Timer.sync_time s.timer now timestamp
      else if not (is_anchor_master_self sync)
      then Timer.sync_error s.timer now timestamp
      else s.timer in
    record s { sync = sync; timer = timer }

-- `nan_rx_beacon` after the attributes, from `nan_peer_set_beacon_information` on.
unfoldable pub accept_beacon :
    NanState → PeerStatus → Peer → EtherAddr → BeaconType → ℤ → ℕ → ℕ → ℕ → NanState
unfolding join_cluster follow_anchor_master Defs.write_back
accept_beacon s status peer cluster_id type rssi timestamp now draw =
    let heard = Defs.set_beacon_information peer rssi timestamp in
    let sync = (update_master_preference s.sync heard now draw).1 in
    let known = check_master_candidate sync heard in
    let s' = record s {
      sync = sync;
      peers = record s.peers { peers = Defs.write_back known s.peers.peers };
    } in
    let is_new_cluster = not (ether_addr_equal cluster_id s.cluster.cluster_id) in
    let in_initial_cluster = list_len s'.peers.peers == 1 && is_peer_add status in
    if is_new_cluster || in_initial_cluster
    then join_cluster s' known cluster_id timestamp now
    else if is_sync_beacon type
    then follow_anchor_master s' known timestamp now
    else s'

-- The arguments of one call: the frame, whose it is, and what `malloc`, the stack and `rand` hold.
pub record Arrival : Type 0 where
  pub frame : Buf
  pub peer_address : EtherAddr
  pub cluster_id : EtherAddr
  pub rssi : ℤ
  pub now : ℕ
  pub block : Peer
  pub stack : Attribute
  pub draw : ℕ

abbrev pub Outcome : Type 0
Outcome = Option (ℤ × List Callback × NanState)

-- After the loop over the attributes. What they wrote into the peer stays if a later one fails.
unfoldable pub conclude :
    NanState
    → List Callback
    → PeerStatus
    → Arrival
    → BeaconType
    → ℕ
    → Option (ℤ × Peer × Buf)
    → Outcome
unfolding accept_beacon
conclude s calls status a type timestamp none = none
conclude s calls status a type timestamp (some (result, peer, _)) =
    let s' = record s { peers = record s.peers { peers = Defs.write_back peer s.peers.peers } } in
    some (
      if ltb_ℤ result (pos 0) then (result, calls, s') else (
        rx_ok,
        calls,
        accept_beacon s' status peer a.cluster_id type a.rssi timestamp a.now a.draw,
      ))

-- From the lookup of the peer on.
unfoldable pub read_into :
    ℕ
    → NanState
    → List Callback
    → PeerStatus
    → Arrival
    → BeaconType
    → ℕ
    → Buf
    → Option Peer
    → Outcome
unfolding conclude
read_into fuel s calls status a type timestamp frame none = some (rx_ignore, calls, s)
read_into fuel s calls status a type timestamp frame (some peer) =
    let s' = record s {
      timer =
          if not (Timer.initial_scan_done s.timer a.now)
          then Timer.initial_scan_cancel s.timer
          else s.timer;
    } in
    conclude s' calls status a type timestamp
      (iterate_attributes beacon_attribute fuel frame a.stack rx_ok peer)

-- `nan_rx_beacon` after the header.
unfoldable pub rx_beacon_body : ℕ → NanState → Arrival → Header → Buf → Outcome
unfolding Defs.add Defs.get read_into
rx_beacon_body fuel s a (refused result) frame = some (result, [], s)
rx_beacon_body fuel s a (header type timestamp) frame =
    let (status, calls, peers) = Defs.add s.peers a.block a.peer_address a.cluster_id a.now in
    read_into fuel (record s { peers = peers }) calls status a type timestamp frame
      (Defs.get peers.peers a.peer_address).1

unfoldable pub rx_beacon : ℕ → NanState → Arrival → Outcome
unfolding parse_beacon_header rx_beacon_body
rx_beacon fuel s a =
    let (parsed, frame) = parse_beacon_header a.frame in rx_beacon_body fuel s a parsed frame
