-- ===== src/Tx/FollowUp.antt =====
-- One call of `nan_transmit` of src/tx.c: the state after it, with the ring after the put.
use opennan.Prelude.{
  ℕ, ◌+◌, ◌⊎◌, ◌≡◌, refl, ap, Option, none, some, List, Bool-cases, inl, inr, arith,
}
use opennan.Prelude.Int.{ℤ, pos, minus_one, u16}
use opennan.Utils.{EtherAddr}
use opennan.CircularBuffer
use opennan.CircularBuffer.{CircularBuf}
use opennan.Wire.{Buf}
use opennan.Service.Defs.{Service, get_by_instance_id}
use opennan.Ieee80211.{Radiotap, Ieee80211State, add_nan_header, next_sequence_number}
use opennan.State.{NanState}
use opennan.Tx.Frames.{transmit, transmit_follow_up, add_headers, add_service_discovery_header}

-- The state with another count of frames and another ring.
abbrev pub with_ring : NanState → Ieee80211State → CircularBuf → NanState
with_ring s counter buffer = record s { ieee80211 = counter; buffer = buffer }

-- One more number was taken for a frame.
abbrev pub counted : Ieee80211State → Ieee80211State
counted s = record s { sequence_number = u16 (s.sequence_number + 1) }

put_status :
    (c : CircularBuf) (x : ℕ)
    → ((CircularBuffer.put c x).0 ≡ pos 0)
      ⊎ ((CircularBuffer.put c x).0 ≡ minus_one) × ((CircularBuffer.put c x).1 ≡ c)
unfolding CircularBuffer.put
put_status c x = elim (Bool-cases c.full) [
  | inl e ↦ inr (ground (arith, e))
  | inr e ↦ inl (ground (arith, e))
]

module _ (r : Radiotap) (memory : List ℕ) (ref : ℕ) (destination : EtherAddr) (id peer_id : ℕ)
    (info : Option (List ℕ)) (n : ℕ) (s : NanState) where
  pub transmit_follow_up_state :
      (service : Service)
      → let (status, buffer) = CircularBuffer.put s.buffer ref in
        let (result, s', frame) =
          transmit_follow_up r memory ref s destination service peer_id info n in
        (result ≡ status) × (s' ≡ with_ring s (counted s.ieee80211) buffer)
  unfolding transmit_follow_up add_service_discovery_header add_headers add_nan_header
      next_sequence_number
  transmit_follow_up_state service = elim (put_status s.buffer ref) [
    | inl ok ↦ rw ok (refl, refl)
    | inr (failed, same) ↦ rw (failed, same) (refl, refl)
  ]

  unfoldable pub transmit_of : Option Service → ℤ × NanState × Option Buf
  transmit_of none = (minus_one, s, none)
  transmit_of (some service) = transmit_follow_up r memory ref s destination service peer_id info n

  pub transmit_found :
      (o : Option Service)
      → get_by_instance_id s.services id none ≡ o
      → transmit r memory ref s destination id peer_id info n ≡ transmit_of o
  unfolding transmit transmit_of
  transmit_found o e = ap transmit_of e
