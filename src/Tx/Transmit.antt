-- ===== src/Tx/Transmit.antt =====
-- Calls of `nan_transmit` of src/tx.c: what follow-ups do to the queue of frames and to the state.
use opennan.Prelude.{
  ℕ, zero, suc, ◌+◌, ◌-◌, ◌<◌, ◌≡◌, refl, sym, subst, ap, ap₂, ◌∙◌, Bool, true, false, ◌&&◌, Option,
  none, some, List, [], ◌∷◌, ◌++◌, map, keep, take, length, length-append, leb, if◌then◌else◌,
  Bool-cases, inl, inr, arith,
}
use mathlib.Core.List.{append_assoc, append-nil}
use opennan.Prelude.Int.{ℤ, pos, minus_one, u16}
use opennan.Utils.{EtherAddr}
use opennan.CircularBuffer
use opennan.CircularBuffer.Queue
use opennan.CircularBuffer.{CircularBuf}
use opennan.CircularBuffer.Inv.{IsValid, put-IsValid}
use opennan.CircularBuffer.Items.{contents}
use opennan.CircularBuffer.Refine.{put_refines, capacity_kept}
use opennan.Wire.{Buf}
use opennan.Service.Defs.{Service, ServiceState, get_by_instance_id}
use opennan.Ieee80211.{Radiotap}
use opennan.State.{NanState}
use opennan.Tx.Frames.{transmit}
use opennan.Tx.FollowUp.{with_ring, counted, transmit_of, transmit_found, transmit_follow_up_state}

-- The arguments of a call, with the memory that it is given.
pub record Message : Type 0 where
  pub memory : List ℕ
  pub ref : ℕ
  pub destination : EtherAddr
  pub instance_id : ℕ
  pub requestor_instance_id : ℕ
  pub info : Option (List ℕ)
  pub info_length : ℕ

module _ (r : Radiotap) where
  unfoldable pub transmit_message : NanState → Message → ℤ × NanState × Option Buf
  transmit_message s m =
      transmit r m.memory m.ref s m.destination m.instance_id m.requestor_instance_id m.info
        m.info_length

  -- The calls in order: what each returns, and the state after them.
  unfoldable pub transmit_all : NanState → List Message → List ℤ × NanState
  transmit_all s [] = ([], s)
  transmit_all s (m ∷ ms) =
      let (result, s1, _) = transmit_message s m in
      let (results, s2) = transmit_all s1 ms in (result ∷ results, s2)

abbrev pub is_some : Option Service → Bool
is_some none = false
is_some (some service) = true

-- The message is for a service of the device.
abbrev pub is_known : ServiceState → Message → Bool
is_known services m = is_some (get_by_instance_id services m.instance_id none)

abbrev pub known_refs : ServiceState → List Message → List ℕ
known_refs services ms = map (λ m. m.ref) (keep (is_known services) ms)

-- What the calls return if the ring has `room` for that many more frames.
unfoldable pub answers : ServiceState → ℕ → List Message → List ℤ
answers services room [] = []
answers services room (m ∷ ms) =
    if is_known services m && leb 1 room
    then pos 0 ∷ answers services (room - 1) ms
    else minus_one ∷ answers services room ms

abbrev pub room_of : CircularBuf → ℕ
room_of c = c.capacity - length (contents c)

-- What calls for the messages `ms` are to do to a state.
abbrev pub Outcome : NanState → List Message → List ℤ × NanState → Type 0
Outcome s ms (results, s') =
    let room = room_of s.buffer in
    let refs = known_refs s.services ms in
    (results ≡ answers s.services room ms)
    × (contents s'.buffer ≡ contents s.buffer ++ take room refs)
    × (s' ≡ with_ring s s'.ieee80211 s'.buffer)
    × (s'.ieee80211.fcs ≡ s.ieee80211.fcs)
    × (u16 s'.ieee80211.sequence_number ≡ u16 (s.ieee80211.sequence_number + length refs))

-- The frames that the ring takes: as many as there is room for.
queue_after_put :
    (cap : ℕ) (q : List ℕ) (x : ℕ) (rs : List ℕ)
    → let (status, q') = Queue.put cap q x in
      q' ++ take (cap - length q') rs ≡ q ++ take (cap - length q) (x ∷ rs)
queue_after_put cap q x rs = elim (Bool-cases (leb cap (length q))) [
  | inl e ↦ rw e (full (cap - length q) (ground arith))
  | inr e ↦ rw e (some_room (cap - length q) (ground arith))
]
  where
    full : (n : ℕ) → n ≡ 0 → q ++ take n rs ≡ q ++ take n (x ∷ rs)
    full zero p = refl
    full (suc n) p = absurd (omega arith)

    some_room :
        (n : ℕ)
        → (0 < n) × (n ≡ cap - length q)
        → (q ++ x ∷ []) ++ take (cap - length (q ++ x ∷ [])) rs ≡ q ++ take n (x ∷ rs)
    some_room zero p = absurd (omega arith)
    some_room (suc n) p =
        rw (append_assoc q (x ∷ []) (take (cap - length (q ++ x ∷ [])) rs))
          (ap (λ k. q ++ x ∷ take k rs) (omega (arith, length-append q (x ∷ []))))

nothing_more : (q : List ℕ) (n : ℕ) → q ≡ q ++ take n []
nothing_more q zero = sym (append-nil q)
nothing_more q (suc n) = sym (append-nil q)

answers_after_put :
    (services : ServiceState) (m : Message) (ms : List Message) (cap : ℕ) (q : List ℕ)
    → is_known services m ≡ true
    → let (status, q') = Queue.put cap q m.ref in
      status ∷ answers services (cap - length q') ms ≡ answers services (cap - length q) (m ∷ ms)
unfolding answers
answers_after_put services m ms cap q e = elim (Bool-cases (leb cap (length q))) [
  | inl full ↦ rw (e, full) (ground arith)
  | inr room ↦ rw (e, room) (ground (arith, length-append q (m.ref ∷ [])))
]

module _ (r : Radiotap) where
  transmit_all_cons :
      (s s1 : NanState) (m : Message) (ms : List Message) (status : ℤ)
      → (transmit_message r s m).0 ≡ status
      → (transmit_message r s m).1 ≡ s1
      → let (results, s2) = transmit_all r s1 ms in
        transmit_all r s (m ∷ ms) ≡ (status ∷ results, s2)
  unfolding transmit_all
  transmit_all_cons s s1 m ms status e h =
      ap₂ (λ x t. let (results, s2) = transmit_all r t ms in (x ∷ results, s2)) e h

  -- A message for a service that the device does not have.
  transmit_unknown :
      (s : NanState) (m : Message) (ms : List Message)
      → get_by_instance_id s.services m.instance_id none ≡ none
      → Outcome s ms (transmit_all r s ms)
      → Outcome s (m ∷ ms) (transmit_all r s (m ∷ ms))
  unfolding answers transmit_of transmit_message
  transmit_unknown s m ms e (results, queue, rest, fcs, number) =
      let call =
        transmit_found r m.memory m.ref m.destination m.instance_id m.requestor_instance_id m.info
          m.info_length s none e in
      subst (Outcome s (m ∷ ms))
        (sym (transmit_all_cons s s m ms minus_one (ap (λ p. p.0) call) (ap (λ p. p.1) call)))
        (rw e (ap (◌∷◌ minus_one) results, queue, rest, fcs, number))

  transmit_queued :
      (s : NanState) (m : Message) (ms : List Message) (service : Service)
      → IsValid s.buffer
      → get_by_instance_id s.services m.instance_id none ≡ some service
      → let s1 = with_ring s (counted s.ieee80211) (CircularBuffer.put s.buffer m.ref).1 in
        Outcome s1 ms (transmit_all r s1 ms) → Outcome s (m ∷ ms) (transmit_all r s (m ∷ ms))
  unfolding transmit_of transmit_message
  transmit_queued s m ms service v e (results, queue, rest, fcs, number) =
      let call =
        transmit_found r m.memory m.ref m.destination m.instance_id m.requestor_instance_id m.info
          m.info_length s (some service) e in
      let (status, state) =
        transmit_follow_up_state r m.memory m.ref m.destination m.instance_id
          m.requestor_instance_id m.info m.info_length s service in
      let put = CircularBuffer.put s.buffer m.ref in
      let refs = known_refs s.services ms in
      let cap = (capacity_kept s.buffer m.ref true).0 in
      let refined = put_refines m.ref v in
      subst (Outcome s (m ∷ ms))
        (sym
          (transmit_all_cons s _ m ms _ (ap (λ p. p.0) call ∙ status) (ap (λ p. p.1) call ∙ state)))
        (
          ap (◌∷◌ put.0) results
              ∙ ap (λ k. put.0 ∷ answers s.services (k - length (contents put.1)) ms) cap
              ∙ ap (λ p. p.0 ∷ answers s.services (s.buffer.capacity - length p.1) ms) refined
              ∙ answers_after_put s.services m ms s.buffer.capacity (contents s.buffer) (rw e refl),
          rw e (
              queue
              ∙ ap (λ k. contents put.1 ++ take (k - length (contents put.1)) refs) cap
              ∙ ap (λ p. p.1 ++ take (s.buffer.capacity - length p.1) refs) refined
              ∙ queue_after_put s.buffer.capacity (contents s.buffer) m.ref refs),
          rest,
          fcs,
          rw e (number ∙ omega arith),
        )

  transmit_step :
      (s : NanState) (m : Message) (ms : List Message)
      → IsValid s.buffer
      → ((s1 : NanState) → IsValid s1.buffer → Outcome s1 ms (transmit_all r s1 ms))
      → (o : Option Service) → get_by_instance_id s.services m.instance_id none ≡ o
      → Outcome s (m ∷ ms) (transmit_all r s (m ∷ ms))
  transmit_step s m ms v later none e = transmit_unknown s m ms e (later s v)
  transmit_step s m ms v later (some service) e =
      transmit_queued s m ms service v e (later _ (put-IsValid m.ref v))

  -- Calls of `nan_transmit` on a state with a valid ring: as many frames as the ring has room for
  -- are queued behind those that wait, in the order of the calls and without those for a service
  -- that the device does not have. The results are 0 for a frame that is queued and -1 for any
  -- other; of the state nothing but the ring and the sequence number changes, and each call for a
  -- known service takes a sequence number, queued or not.
  pub transmit_all_lem :
      (ms : List Message) (s : NanState) → IsValid s.buffer → Outcome s ms (transmit_all r s ms)
  unfolding transmit_all answers
  transmit_all_lem [] s v =
      (refl, nothing_more (contents s.buffer) (room_of s.buffer), refl, refl, omega arith)
  transmit_all_lem (m ∷ ms) s v =
      transmit_step s m ms v (transmit_all_lem ms)
        (get_by_instance_id s.services m.instance_id none) refl
