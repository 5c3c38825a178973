-- ===== src/Peer/Removal.antt =====
-- Removing entries, by `nan_peer_remove` or by `nan_peers_clean` of src/peer.c, leaves a table.
use opennan.Prelude.{
  ℕ, zero, suc, Bool, true, false, Option, none, some, List, [], ◌∷◌, if◌then◌else◌,
}
use opennan.LinkedList.{ListStatus, list_ok, list_find, list_remove}
use opennan.Peer.Defs.{
  Peer, PeerState, Callback, Cleaned, cleaned, null_callback, unfinished, after_call, remove,
  is_stale, clean, same,
}
use opennan.Peer.Lookup.{IsTable, Apart}

either_list {ℓ} :
    (P : List Peer → Type ℓ) (c : Bool) (x y : ListStatus × List Peer)
    → P x.1
    → P y.1
    → P (if c then x else y).1
either_list P true x y h k = h
either_list P false x y h k = k

Apart-list_remove :
    (p : Peer) (c : Peer → Bool) (xs : List Peer) → Apart p xs → Apart p (list_remove c xs).1
unfolding list_remove
Apart-list_remove p c [] h = tt
Apart-list_remove p c (q ∷ xs) h =
    either_list (Apart p) (c q) (list_ok, xs) _ h.1 (h.0, Apart-list_remove p c xs h.1)

pub IsTable-list_remove :
    (c : Peer → Bool) (xs : List Peer) → IsTable xs → IsTable (list_remove c xs).1
unfolding list_remove
IsTable-list_remove c [] t = tt
IsTable-list_remove c (q ∷ xs) t =
    either_list IsTable (c q) (list_ok, xs) _ t.1
      (Apart-list_remove q c xs t.0, IsTable-list_remove c xs t.1)

-- The table that is left, if the loop ends.
abbrev pub TableAfter : Cleaned → Type 0
TableAfter (cleaned calls s) = IsTable s.peers
TableAfter null_callback = Unit {0}
TableAfter unfinished = Unit {0}

TableAfter-after_call : (c : Callback) (x : Cleaned) → TableAfter x → TableAfter (after_call c x)
TableAfter-after_call c (cleaned calls s) h = h
TableAfter-after_call c null_callback h = tt
TableAfter-after_call c unfinished h = tt

removal-TableAfter :
    (s : PeerState) (peer : Peer) (rest : PeerState → Cleaned)
    → IsTable s.peers
    → ((s' : PeerState) → IsTable s'.peers → TableAfter (rest s'))
    → TableAfter (elim (remove s peer) as (λ o. Cleaned) [
      | none ↦ null_callback
      | some (call, s') ↦ after_call call (rest s')
    ])
unfolding remove
removal-TableAfter s peer rest t later = by_callback s.peer_remove_callback
  where
    by_callback :
        (o : Option ℕ)
        → let removed = elim o as (λ o. Option (Callback × PeerState)) [
          | none ↦ none
          | some f ↦ some (
            record { function = f; peer = peer; argument = s.peer_remove_callback_data },
            record s { peers = (list_remove (same peer) s.peers).1 },
          )
        ] in
          TableAfter (elim removed as (λ o. Cleaned) [
            | none ↦ null_callback
            | some (call, s') ↦ after_call call (rest s')
          ])
    by_callback none = tt
    by_callback (some f) =
        TableAfter-after_call _ _ (later _ (IsTable-list_remove (same peer) s.peers t))

found-TableAfter :
    (s : PeerState) (o : Option Peer) (f : Peer → Cleaned)
    → IsTable s.peers
    → ((p : Peer) → TableAfter (f p))
    → TableAfter (elim o as (λ o. Cleaned) [ none ↦ cleaned [] s | some p ↦ f p ])
found-TableAfter s none f t h = t
found-TableAfter s (some p) f t h = h p

-- `nan_peers_clean` leaves a table of a table, however far it gets.
pub clean-TableAfter :
    (fuel : ℕ) (s : PeerState) (now : ℕ) → IsTable s.peers → TableAfter (clean fuel s now)
unfolding clean
clean-TableAfter zero s now t = tt
clean-TableAfter (suc fuel) s now t =
    found-TableAfter s (list_find (is_stale s.timeout_usec now) s.peers) _ t
      (λ p. removal-TableAfter s p (λ s'. clean fuel s' now) t (λ s'. clean-TableAfter fuel s' now))
