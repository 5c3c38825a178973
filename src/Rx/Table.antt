-- ===== src/Rx/Table.antt =====
-- The table of peers while frames are received: `nan_rx` of src/rx.c adds a peer for each sender.
use opennan.Prelude.{
  ℕ, ◌≡◌, ◌≢◌, sym, subst, ap, Bool, true, false, not, ◌&&◌, ◌||◌, Option, none, some, List, arith,
  All, ◌==◌, if◌then◌else◌, Option-cases, inl, inr,
}
use opennan.Prelude.Int.{ℤ, pos, ltb_ℤ}
use opennan.Utils.{EtherAddr, ether_addr_equal}
use opennan.LinkedList.{list_find, list_len}
use opennan.Wire.{Buf}
use opennan.Peer.{Peer, PeerStatus, peer_ok, Callback}
use opennan.Peer.Defs
use opennan.Peer.Lookup.{IsTable, has_addr}
use opennan.Peer.Add.{add_lem}
use opennan.Sync.Defs.{update_master_preference, check_master_candidate}
use opennan.Ieee80211.{Radiotap}
use opennan.Rx.Defs.{beacon_attribute, iterate_attributes, rx_ok}
use opennan.State.{NanState}
use opennan.Rx.Keeps.{AfterBeacon, After, Keeps, rx-After}
use opennan.Rx.Frame.{Reception, arrival_of, rx}
use opennan.Rx.Beacon.{
  Arrival, BeaconType, Header, refused, header, parse_beacon_header, join_cluster,
  follow_anchor_master, accept_beacon, conclude, read_into, rx_beacon_body, rx_beacon,
  is_sync_beacon, is_peer_add,
}
use opennan.Rx.Alike.{
  Alike, Holds, Holds-write_back, AlikeAfter, beacon_attribute-Alike, iterate_attributes-Alike,
}

join_cluster-peers :
    (s : NanState) (p : Peer) (cluster_id : EtherAddr) (timestamp now : ℕ)
    → (join_cluster s p cluster_id timestamp now).peers ≡ s.peers
unfolding join_cluster
join_cluster-peers s p cluster_id timestamp now = ground arith

known-Alike :
    (s : NanState) (p : Peer) (rssi : ℤ) (timestamp now draw : ℕ)
    → let heard = Defs.set_beacon_information p rssi timestamp in
      Alike p (check_master_candidate (update_master_preference s.sync heard now draw).1 heard)
unfolding Defs.set_beacon_information check_master_candidate
known-Alike s p rssi timestamp now draw = ground arith

either_table :
    (a b : Bool) (s t u : NanState)
    → IsTable s.peers.peers
    → IsTable t.peers.peers
    → IsTable u.peers.peers
    → IsTable (if a then s else if b then t else u).peers.peers
either_table true b s t u hs ht hu = hs
either_table false true s t u hs ht hu = ht
either_table false false s t u hs ht hu = hu

accept_beacon-IsTable :
    (s : NanState) (status : PeerStatus) (p : Peer) (cluster_id : EtherAddr) (type : BeaconType)
    (rssi : ℤ) (timestamp now draw : ℕ)
    → Holds p s.peers.peers
    → IsTable (accept_beacon s status p cluster_id type rssi timestamp now draw).peers.peers
unfolding accept_beacon follow_anchor_master
accept_beacon-IsTable s status p cluster_id type rssi timestamp now draw h =
    let heard = Defs.set_beacon_information p rssi timestamp in
    let known = check_master_candidate (update_master_preference s.sync heard now draw).1 heard in
    let s' : NanState = record s {
      sync = (update_master_preference s.sync heard now draw).1;
      peers = record s.peers { peers = Defs.write_back known s.peers.peers };
    } in
    let table =
      (Holds-write_back p known s.peers.peers h (known-Alike s p rssi timestamp now draw)).0 in
    either_table
      (not (ether_addr_equal cluster_id s.cluster.cluster_id)
        || (list_len s'.peers.peers == 1 && is_peer_add status))
      (is_sync_beacon type) (join_cluster s' known cluster_id timestamp now)
      (follow_anchor_master s' known timestamp now) s'
      (subst (λ x. IsTable x.peers) (sym (join_cluster-peers s' known cluster_id timestamp now))
        table)
      table table

abbrev pub HasTable : NanState → Type 0
HasTable s = IsTable s.peers.peers

table_if :
    (b : Bool) (result : ℤ) (calls : List Callback) (s t : NanState)
    → HasTable s
    → HasTable t
    → AfterBeacon HasTable (some (if b then (result, calls, s) else (rx_ok, calls, t)))
table_if true result calls s t hs ht = hs
table_if false result calls s t hs ht = ht

module _ (calls : List Callback) (status : PeerStatus) (a : Arrival) (type : BeaconType)
    (timestamp : ℕ) where
  conclude-AfterBeacon :
      (s : NanState) (p : Peer) (o : Option (ℤ × Peer × Buf))
      → Holds p s.peers.peers
      → AlikeAfter p o
      → AfterBeacon HasTable (conclude s calls status a type timestamp o)
  unfolding conclude
  conclude-AfterBeacon s p none h k = tt
  conclude-AfterBeacon s p (some (result, q, frame)) h k =
      let s' : NanState = record s {
        peers = record s.peers { peers = Defs.write_back q s.peers.peers };
      } in
      let written = Holds-write_back p q s.peers.peers h k in
      table_if (ltb_ℤ result (pos 0)) result calls s'
        (accept_beacon s' status q a.cluster_id type a.rssi timestamp a.now a.draw) written.0
        (accept_beacon-IsTable s' status q a.cluster_id type a.rssi timestamp a.now a.draw written)

  read_into-AfterBeacon :
      (fuel : ℕ) (s : NanState) (frame : Buf) (p : Peer)
      → Holds p s.peers.peers
      → AfterBeacon HasTable (read_into fuel s calls status a type timestamp frame (some p))
  unfolding read_into
  read_into-AfterBeacon fuel s frame p h =
      conclude-AfterBeacon _ p (iterate_attributes beacon_attribute fuel frame a.stack rx_ok p) h (
        iterate_attributes-Alike beacon_attribute beacon_attribute-Alike fuel frame a.stack rx_ok p)

-- The block that `malloc` returned is none of those of the peers.
abbrev pub IsFresh : Peer → List Peer → Type 0
IsFresh block xs = All (λ q. q.ref ≢ block.ref) xs

find-get :
    (xs : List Peer) (a : EtherAddr) (p : Peer)
    → Defs.get xs a ≡ (peer_ok, some p)
    → list_find (has_addr a) xs ≡ some p
unfolding Defs.get
find-get xs a p e = elim (Option-cases (list_find (has_addr a) xs)) [
  | inl f ↦ absurd (ground (arith, f))
  | inr (q, f) ↦ ground (arith, f)
]

rx_beacon_body-AfterBeacon :
    (fuel : ℕ) (s : NanState) (a : Arrival) (h : Header) (frame : Buf)
    → HasTable s
    → IsFresh a.block s.peers.peers
    → AfterBeacon HasTable (rx_beacon_body fuel s a h frame)
unfolding rx_beacon_body
rx_beacon_body-AfterBeacon fuel s a (refused result) frame t f = t
rx_beacon_body-AfterBeacon fuel s a (header type timestamp) frame t f =
    let (status, calls, peers) = Defs.add s.peers a.block a.peer_address a.cluster_id a.now in
    let added = (add_lem s.peers a.block a.peer_address a.cluster_id a.now t f).0 in
    let found = find-get peers.peers a.peer_address added.peer added.found in
    subst
      (λ o.
        AfterBeacon HasTable
          (read_into fuel (record s { peers = peers }) calls status a type timestamp frame o))
      (sym (ap (λ x. x.1) added.found))
      (read_into-AfterBeacon calls status a type timestamp fuel (record s { peers = peers }) frame
        added.peer
        (
          added.table,
          subst (λ b. list_find (has_addr b) peers.peers ≡ some added.peer) (sym added.addr_set)
              found,
        ))

rx_beacon-AfterBeacon :
    (fuel : ℕ) (s : NanState) (a : Arrival)
    → HasTable s
    → IsFresh a.block s.peers.peers
    → AfterBeacon HasTable (rx_beacon fuel s a)
unfolding rx_beacon
rx_beacon-AfterBeacon fuel s a t f =
    rx_beacon_body-AfterBeacon fuel s a (parse_beacon_header a.frame).0
      (parse_beacon_header a.frame).1 t f

keeps_table :
    (fuel : ℕ) (r : Reception)
    → Keeps fuel r (λ s. HasTable s × IsFresh r.block s.peers.peers) HasTable
keeps_table fuel r = record {
  refused_frame = λ s h. h.0;
  services_changed = λ s services h. h;
  peer_added = λ s a h. (add_lem s.peers r.block a.source a.cluster_id r.now h.0 h.1).0.table;
  beacon_received =
      λ s rssi frame a h. rx_beacon-AfterBeacon fuel s (arrival_of r rssi frame a) h.0 h.1;
}

-- If the block that `malloc` returns is not that of a peer, whatever frame arrives, `nan_rx` leaves
-- a table in which no address and no block stands twice.
pub rx-HasTable :
    (fuel : ℕ) (r : Reception) (radiotap : Radiotap) (s : NanState)
    → HasTable s
    → IsFresh r.block s.peers.peers
    → After HasTable (rx radiotap fuel r s)
rx-HasTable fuel r radiotap s t f = rx-After (keeps_table fuel r) radiotap s (t, f)
