-- ===== src/Daemon/Frames.antt =====
-- The loop that sends the frames of the circular buffer.
use opennan.Prelude.{
  ℕ, zero, suc, ◌<◌, ◌≡◌, refl, sym, ap, ◌∙◌, false, Option, some, List, [], ◌∷◌, ◌++◌, map, arith,
  length, if◌then◌else◌,
}
use mathlib.Core.List.{append-nil, append_assoc}
use opennan.Prelude.Int.{ℤ}
use opennan.Wire.{Buf}
use opennan.Wire.Defs.{slice, buf_position}
use opennan.CircularBuffer.{CircularBuf, get, size}
use opennan.CircularBuffer.Queue
use opennan.CircularBuffer.Inv.{IsValid, get-IsValid}
use opennan.CircularBuffer.Items.{contents, length-contents}
use opennan.CircularBuffer.Refine.{get_refines}
use opennan.Daemon.{Daemon, send_buffered_frames, wlan_send, is_minus_one}

-- What `wlan_send` gets for a pointer.
abbrev pub payload : (ℕ → Buf) → ℕ → List ℕ
payload heap ref = slice (heap ref).bytes (heap ref).start (buf_position (heap ref))

-- The state after the frames of a queue were sent.
pub record SentAll (d d' : Daemon) (queue : List ℕ) : Type 0 where
  pub sent : d'.sent ≡ d.sent ++ map (payload d.heap) queue
  pub same_heap : d'.heap ≡ d.heap
  pub same_sync : d'.nan_state.sync ≡ d.nan_state.sync
  pub same_rest : d'.nan_state ≡ record d.nan_state { buffer = d'.nan_state.buffer }
  pub valid : IsValid d'.nan_state.buffer
  pub empty : contents d'.nan_state.buffer ≡ []

-- The rest of a round, from what `circular_buf_get` returned.
abbrev after_get : ℕ → Daemon → ℤ → ℕ → CircularBuf → Option Daemon
after_get fuel d status buf buffer =
    let d' : Daemon = record d { nan_state = record d.nan_state { buffer = buffer } } in
    let rest = send_buffered_frames fuel (wlan_send d' (d.heap buf)) buf in
    if is_minus_one status then some d' else rest

send_buffered_frames_queue :
    (fuel : ℕ) (d : Daemon) (buf : ℕ) (queue : List ℕ)
    → IsValid d.nan_state.buffer
    → contents d.nan_state.buffer ≡ queue
    → length queue < fuel
    → (d' : Daemon) × (send_buffered_frames fuel d buf ≡ some d') × SentAll d d' queue
unfolding send_buffered_frames
send_buffered_frames_queue zero d buf queue v e h = absurd (omega arith)
send_buffered_frames_queue (suc fuel) d buf [] v e h =
    let got = get_refines buf false v ∙ ap (λ q. Queue.get q false) e in
    let (status, y, buffer) = get d.nan_state.buffer buf false in
    (
      record d { nan_state = record d.nan_state { buffer = buffer } },
      ap (λ z. after_get fuel d z y buffer) (ap (λ z. z.0) got),
      record {
        sent = sym (append-nil d.sent);
        same_heap = refl;
        same_sync = refl;
        same_rest = refl;
        valid = get-IsValid buf false v;
        empty = ap (λ z. z.2) got;
      },
    )
send_buffered_frames_queue (suc fuel) d buf (x ∷ queue) v e h =
    let got = get_refines buf false v ∙ ap (λ q. Queue.get q false) e in
    let (status, y, buffer) = get d.nan_state.buffer buf false in
    let same : y ≡ x = ap (λ z. z.1) got in
    let d1 : Daemon =
      wlan_send (record d { nan_state = record d.nan_state { buffer = buffer } }) (d.heap y) in
    let (d', found, done) =
      send_buffered_frames_queue fuel d1 y queue (get-IsValid buf false v) (ap (λ z. z.2) got)
        (omega (arith, h)) in
    (
      d',
      ap (λ z. after_get fuel d z y buffer) (ap (λ z. z.0) got) ∙ found,
      record {
        sent =
            done.sent
            ∙ append_assoc d.sent (payload d.heap y ∷ []) (map (payload d.heap) queue)
            ∙ ap (λ z. d.sent ++ payload d.heap z ∷ map (payload d.heap) queue) same;
        same_heap = done.same_heap;
        same_sync = done.same_sync;
        same_rest = done.same_rest;
        valid = done.valid;
        empty = done.empty;
      },
    )

-- With a valid circular buffer, and fuel for one round more than it holds frames, the loop ends. It
-- has sent the frames that waited, oldest first and each once, behind what was sent before; the
-- circular buffer is then valid and empty, and all else of the state is as before.
pub send_buffered_frames_lem :
    (fuel : ℕ) (d : Daemon) (buf : ℕ)
    → IsValid d.nan_state.buffer
    → size d.nan_state.buffer < fuel
    → (d' : Daemon) × (send_buffered_frames fuel d buf ≡ some d')
      × SentAll d d' (contents d.nan_state.buffer)
send_buffered_frames_lem fuel d buf v h =
    send_buffered_frames_queue fuel d buf (contents d.nan_state.buffer) v refl
      (omega (arith, h, length-contents d.nan_state.buffer))
