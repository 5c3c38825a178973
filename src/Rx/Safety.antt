-- ===== src/Rx/Safety.antt =====
-- What every beacon keeps, and that its handler returns.
use opennan.Prelude.{
  ℕ, ◌+◌, ◌^◌, ◌<◌, ◌≡◌, ◌≢◌, refl, sym, subst, Bool, true, false, not, ◌&&◌, ◌||◌, Option, none,
  some, List, arith, ◌==◌, if◌then◌else◌,
}
use mathlib.Core.Option.{none-ne-some}
use opennan.Prelude.Int.{ℤ, pos, ltb_ℤ}
use opennan.Utils.{EtherAddr, ether_addr_equal}
use opennan.LinkedList.{list_len}
use opennan.Wire.{Buf}
use opennan.Wire.Defs.{decode_le, read_u8, read_le16, read_le64, read_bytes}
use opennan.Wire.Bounds.{IsValid}
use opennan.Timer
use opennan.Peer.{Peer, PeerStatus, Callback}
use opennan.Peer.Defs
use opennan.Sync.Defs.{update_master_preference, check_master_candidate}
use opennan.Sync.Invariant.{IsSound, Step, Step-IsSound}
use opennan.Rx.Defs.{beacon_attribute, iterate_attributes, rx_ok}
use opennan.Rx.Reads.{ReadOf, ReadOf-read_decoded, ReadOf-read_bytes, ReadOf-compose}
use opennan.Rx.Attributes.{AreOctets, iterate_attributes_total}
use opennan.State.{NanState}
use opennan.Rx.Keeps.{AfterBeacon}
use opennan.Rx.Beacon.{
  Arrival, BeaconType, Header, refused, header, parse_beacon_header, join_cluster,
  follow_anchor_master, accept_beacon, conclude, read_into, Outcome, rx_beacon_body, rx_beacon,
  is_sync_beacon, is_peer_add,
}

join_cluster-sync :
    (s : NanState) (p : Peer) (cluster_id : EtherAddr) (timestamp now : ℕ)
    → (join_cluster s p cluster_id timestamp now).sync ≡ s.sync
unfolding join_cluster
join_cluster-sync s p cluster_id timestamp now = ground arith

either_sync :
    (a b : Bool) (s t u : NanState)
    → IsSound s.sync
    → IsSound t.sync
    → IsSound u.sync
    → IsSound (if a then s else if b then t else u).sync
either_sync true b s t u hs ht hu = hs
either_sync false true s t u hs ht hu = ht
either_sync false false s t u hs ht hu = hu

accept_beacon-IsSound :
    (s : NanState) (status : PeerStatus) (p : Peer) (cluster_id : EtherAddr) (type : BeaconType)
    (rssi : ℤ) (timestamp now draw : ℕ)
    → IsSound s.sync
    → IsSound (accept_beacon s status p cluster_id type rssi timestamp now draw).sync
unfolding accept_beacon follow_anchor_master
accept_beacon-IsSound s status p cluster_id type rssi timestamp now draw h =
    let heard = Defs.set_beacon_information p rssi timestamp in
    let preferred = Step-IsSound {s = s.sync} (Step.preference heard now draw) h in
    let known = check_master_candidate (update_master_preference s.sync heard now draw).1 heard in
    let s' : NanState = record s {
      sync = (update_master_preference s.sync heard now draw).1;
      peers = record s.peers { peers = Defs.write_back known s.peers.peers };
    } in
    either_sync
      (not (ether_addr_equal cluster_id s.cluster.cluster_id)
        || (list_len s'.peers.peers == 1 && is_peer_add status))
      (is_sync_beacon type) (join_cluster s' known cluster_id timestamp now)
      (follow_anchor_master s' known timestamp now) s'
      (subst IsSound (sym (join_cluster-sync s' known cluster_id timestamp now)) preferred)
      (Step-IsSound {s = s'.sync} (Step.beacon known (Timer.get_synced_time_tu s'.timer now))
        preferred)
      preferred

-- Whatever the outcome, our own rank is at or below that of the anchor master.
abbrev pub SoundOutcome : Outcome → Type 0
SoundOutcome = AfterBeacon (λ s. IsSound s.sync)

sound_if :
    (b : Bool) (result : ℤ) (calls : List Callback) (s t : NanState)
    → IsSound s.sync
    → IsSound t.sync
    → SoundOutcome (some (if b then (result, calls, s) else (rx_ok, calls, t)))
sound_if true result calls s t hs ht = hs
sound_if false result calls s t hs ht = ht

conclude-SoundOutcome :
    (s : NanState) (calls : List Callback) (status : PeerStatus) (a : Arrival) (type : BeaconType)
    (timestamp : ℕ) (o : Option (ℤ × Peer × Buf))
    → IsSound s.sync
    → SoundOutcome (conclude s calls status a type timestamp o)
unfolding conclude
conclude-SoundOutcome s calls status a type timestamp none h = tt
conclude-SoundOutcome s calls status a type timestamp (some (result, peer, frame)) h =
    let s' : NanState = record s {
      peers = record s.peers { peers = Defs.write_back peer s.peers.peers };
    } in
    sound_if (ltb_ℤ result (pos 0)) result calls s'
      (accept_beacon s' status peer a.cluster_id type a.rssi timestamp a.now a.draw) h
      (accept_beacon-IsSound s' status peer a.cluster_id type a.rssi timestamp a.now a.draw h)

read_into-SoundOutcome :
    (fuel : ℕ) (s : NanState) (calls : List Callback) (status : PeerStatus) (a : Arrival)
    (type : BeaconType) (timestamp : ℕ) (frame : Buf) (o : Option Peer)
    → IsSound s.sync
    → SoundOutcome (read_into fuel s calls status a type timestamp frame o)
unfolding read_into
read_into-SoundOutcome fuel s calls status a type timestamp frame none h = h
read_into-SoundOutcome fuel s calls status a type timestamp frame (some peer) h =
    conclude-SoundOutcome _ calls status a type timestamp
      (iterate_attributes beacon_attribute fuel frame a.stack rx_ok peer) h

rx_beacon_body-SoundOutcome :
    (fuel : ℕ) (s : NanState) (a : Arrival) (h : Header) (frame : Buf)
    → IsSound s.sync
    → SoundOutcome (rx_beacon_body fuel s a h frame)
unfolding rx_beacon_body
rx_beacon_body-SoundOutcome fuel s a (refused result) frame h = h
rx_beacon_body-SoundOutcome fuel s a (header type timestamp) frame h =
    read_into-SoundOutcome fuel _ _ _ a type timestamp frame _ h

-- Whatever a beacon holds, `nan_rx_beacon` keeps our own master rank at or below the rank of the
-- anchor master.
pub rx_beacon-SoundOutcome :
    (fuel : ℕ) (s : NanState) (a : Arrival) → IsSound s.sync → SoundOutcome (rx_beacon fuel s a)
unfolding rx_beacon
rx_beacon-SoundOutcome fuel s a h =
    rx_beacon_body-SoundOutcome fuel s a (parse_beacon_header a.frame).0
      (parse_beacon_header a.frame).1 h

conclude_total :
    (s : NanState) (calls : List Callback) (status : PeerStatus) (a : Arrival) (type : BeaconType)
    (timestamp : ℕ) (o : Option (ℤ × Peer × Buf))
    → o ≢ none
    → conclude s calls status a type timestamp o ≢ none
unfolding conclude
conclude_total s calls status a type timestamp none h = absurd (h refl)
conclude_total s calls status a type timestamp (some (result, peer, frame)) h =
    λ e. none-ne-some _ (sym e)

-- The header takes up to 18 octets.
header_read : (b : Buf) → IsValid b → ReadOf 18 b (parse_beacon_header b).1
unfolding parse_beacon_header
header_read b v =
    let r1 = ReadOf-read_decoded decode_le 8 b v (omega arith) in
    let b1 : Buf = (read_le64 b).2 in
    let r2 = ReadOf-compose r1 (ReadOf-read_decoded decode_le 2 b1 r1.valid (omega arith)) in
    let b2 : Buf = (read_le16 b1).2 in
    let r3 = ReadOf-compose r2 (ReadOf-read_decoded decode_le 2 b2 r2.valid (omega arith)) in
    let b3 : Buf = (read_le16 b2).2 in
    let r4 = ReadOf-compose r3 (ReadOf-read_decoded decode_le 1 b3 r3.valid (omega arith)) in
    let b4 : Buf = (read_u8 b3).2 in
    let r5 = ReadOf-compose r4 (ReadOf-read_decoded decode_le 1 b4 r4.valid (omega arith)) in
    let b5 : Buf = (read_u8 b4).2 in
    let r6 = ReadOf-compose r5 (ReadOf-read_bytes 3 b5 r5.valid (omega arith)) in
    let b6 : Buf = (read_bytes b5 3).2 in
    ReadOf-compose r6 (ReadOf-read_decoded decode_le 1 b6 r6.valid (omega arith))

read_into_total :
    (fuel : ℕ) (s : NanState) (calls : List Callback) (status : PeerStatus) (a : Arrival)
    (type : BeaconType) (timestamp : ℕ) (frame : Buf) (o : Option Peer)
    → ((p : Peer) → iterate_attributes beacon_attribute fuel frame a.stack rx_ok p ≢ none)
    → read_into fuel s calls status a type timestamp frame o ≢ none
unfolding read_into
read_into_total fuel s calls status a type timestamp frame none h = λ e. none-ne-some _ (sym e)
read_into_total fuel s calls status a type timestamp frame (some peer) h =
    conclude_total _ calls status a type timestamp _ (h peer)

rx_beacon_body_total :
    (fuel : ℕ) (s : NanState) (a : Arrival) (h : Header) (frame : Buf)
    → ((p : Peer) → iterate_attributes beacon_attribute fuel frame a.stack rx_ok p ≢ none)
    → rx_beacon_body fuel s a h frame ≢ none
unfolding rx_beacon_body
rx_beacon_body_total fuel s a (refused result) frame h = λ e. none-ne-some _ (sym e)
rx_beacon_body_total fuel s a (header type timestamp) frame h =
    read_into_total fuel _ _ _ a type timestamp frame _ h

-- In a valid frame of octets, fuel for one round more than the frame has octets left is enough for
-- `nan_rx_beacon` to return, whatever the frame and the state hold.
pub rx_beacon_total :
    (fuel : ℕ) (s : NanState) (a : Arrival)
    → IsValid a.frame
    → AreOctets a.frame.bytes
    → a.stack.length < 2 ^ 16
    → a.frame.end < a.frame.position + fuel
    → rx_beacon fuel s a ≢ none
unfolding rx_beacon
rx_beacon_total fuel s a v o l f =
    let r = header_read a.frame v in
    let frame : Buf = (parse_beacon_header a.frame).1 in
    rx_beacon_body_total fuel s a (parse_beacon_header a.frame).0 frame (λ p.
      iterate_attributes_total beacon_attribute fuel frame a.stack rx_ok p r.valid
        (subst AreOctets (sym r.same_bytes) o) l (omega (arith, f, r.forward, r.same_end)))
