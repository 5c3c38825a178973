-- ===== src/Peer/Clean.antt =====
-- `nan_peers_clean` removes the outdated peers and calls the callback for each.
use opennan.Prelude.{
  ℕ, zero, suc, ◌^◌, ◌≤◌, ◌<◌, ◌≡◌, ◌≢◌, refl, sym, subst, ap, Bool, true, false, not, none, some,
  List, [], ◌∷◌, map, arith, All, keep, length, Bool-cases, Option-cases, inl, inr,
}
use opennan.LinkedList.{list_find, list_remove}
use opennan.Peer.Defs.{
  Peer, PeerState, Callback, Cleaned, cleaned, null_callback, after_call, remove, is_stale, clean,
  same,
}
use opennan.Peer.Lookup.{IsTable, Apart, All-list_find}

-- The table without the peer that a search found: one shorter, still a table, with the others as
-- they stood.
record Removed (c : Peer → Bool) (p : Peer) (xs : List Peer) : Type 0 where
  table : IsTable (list_remove (same p) xs).1
  shorter : suc (length (list_remove (same p) xs).1) ≡ length xs
  kept : keep (λ q. not (c q)) (list_remove (same p) xs).1 ≡ keep (λ q. not (c q)) xs
  taken : keep c xs ≡ p ∷ keep c (list_remove (same p) xs).1
  apart : (q : Peer) → Apart q xs → Apart q (list_remove (same p) xs).1

Removed-here :
    (c : Peer → Bool) (p : Peer) (xs : List Peer)
    → IsTable (p ∷ xs)
    → c p ≡ true
    → Removed c p (p ∷ xs)
unfolding list_remove same
Removed-here c p xs t e =
    let gone : (list_remove (same p) (p ∷ xs)).1 ≡ xs = ground arith in
    record {
      table = subst IsTable (sym gone) t.1;
      shorter = ap suc (ap length gone);
      kept = ground (arith, gone);
      taken = ground (arith, gone);
      apart = λ q h. subst (Apart q) (sym gone) h.1;
    }

Removed-later :
    (c : Peer → Bool) (p q : Peer) (xs : List Peer)
    → IsTable (q ∷ xs)
    → c q ≡ false
    → q.ref ≢ p.ref
    → Removed c p xs
    → Removed c p (q ∷ xs)
unfolding list_remove same
Removed-later c p q xs t e f r =
    let stays : (list_remove (same p) (q ∷ xs)).1 ≡ q ∷ (list_remove (same p) xs).1 =
      ground arith in
    record {
      table = subst IsTable (sym stays) (r.apart q t.0, r.table);
      shorter = ground (arith, stays, r.shorter);
      kept = ground (arith, stays, r.kept);
      taken = ground (arith, stays, r.taken);
      apart = λ y h. subst (Apart y) (sym stays) (h.0, r.apart y h.1);
    }

removed :
    (c : Peer → Bool) (xs : List Peer) {p : Peer}
    → IsTable xs
    → list_find c xs ≡ some p
    → Removed c p xs
unfolding list_find
removed c [] t e = cc
removed c (q ∷ xs) {p} t e = elim (Bool-cases (c q)) [
  | inl h ↦
      let found : q ≡ p = ground arith in
      subst (λ x. Removed c x (q ∷ xs)) found (Removed-here c q xs t h)
  | inr h ↦
      let later : list_find c xs ≡ some p = ground arith in
      Removed-later c p q xs t h
        (λ f. (All-list_find (λ x. (x.ref ≢ q.ref) × (x.addr ≢ q.addr)) c xs t.0 later).0.0 (sym f))
        (removed c xs t.1 later)
]

keep_nothing :
    (c : Peer → Bool) (xs : List Peer)
    → list_find c xs ≡ none
    → (keep c xs ≡ []) × (keep (λ q. not (c q)) xs ≡ xs)
unfolding list_find
keep_nothing c [] e = (refl, refl)
keep_nothing c (q ∷ xs) e = ground (arith, keep_nothing c xs)

-- The call that the removal of a peer makes.
abbrev pub removal : PeerState → ℕ → Peer → Callback
removal s f p = record { function = f; peer = p; argument = s.peer_remove_callback_data }

clean_step :
    (fuel : ℕ) (s : PeerState) (now f : ℕ) (p : Peer)
    → s.peer_remove_callback ≡ some f
    → list_find (is_stale s.timeout_usec now) s.peers ≡ some p
    → clean (suc fuel) s now
      ≡ after_call
          (removal s f p)
          (clean fuel (record s { peers = (list_remove (same p) s.peers).1 }) now)
unfolding clean remove
clean_step fuel s now f p h e = ground (arith, h, e)

-- With a callback, a table of peers, and fuel for one round more than there are peers, the loop of
-- `nan_peers_clean` ends: it has called the callback for the outdated peers in the order of the
-- list, and left exactly the others.
pub clean_lem :
    (fuel : ℕ) (s : PeerState) (now f : ℕ)
    → s.peer_remove_callback ≡ some f
    → IsTable s.peers
    → length s.peers < fuel
    → let stale = is_stale s.timeout_usec now in
      clean fuel s now
      ≡ cleaned
          (map (removal s f) (keep stale s.peers))
          (record s { peers = keep (λ p. not (stale p)) s.peers })
unfolding clean
clean_lem zero s now f h t l = absurd (omega arith)
clean_lem (suc fuel) s now f h t l =
    elim (Option-cases (list_find (is_stale s.timeout_usec now) s.peers)) [
      | inl e ↦ ground (arith, e, keep_nothing (is_stale s.timeout_usec now) s.peers e)
      | inr (p, e) ↦
          let r = removed (is_stale s.timeout_usec now) s.peers t e in
          let rest =
            clean_lem fuel (record s { peers = (list_remove (same p) s.peers).1 }) now f h r.table
              (omega (arith, r.shorter)) in
          ground (arith, clean_step fuel s now f p h e, rest, r.kept, r.taken)
    ]

-- Without a callback the loop calls NULL as soon as a peer is outdated, and does nothing otherwise.
pub clean_without_callback :
    (fuel : ℕ) (s : PeerState) (now : ℕ)
    → s.peer_remove_callback ≡ none
    → clean (suc fuel) s now
      ≡ (elim (list_find (is_stale s.timeout_usec now) s.peers) as (λ o. Cleaned) [
        | none ↦ cleaned [] s
        | some p ↦ null_callback
      ])
unfolding clean remove
clean_without_callback fuel s now h =
    ground (arith, h, Option-cases (list_find (is_stale s.timeout_usec now) s.peers))

All-stale :
    (timeout now : ℕ) (xs : List Peer)
    → now < timeout
    → timeout < 2 ^ 63
    → All (λ p. p.last_update ≤ now) xs
    → (keep (is_stale timeout now) xs ≡ xs) × (keep (λ p. not (is_stale timeout now p)) xs ≡ [])
unfolding is_stale
All-stale timeout now [] h k l = (refl, refl)
All-stale timeout now (p ∷ xs) h k l = ground (arith, All-stale timeout now xs h k l.1, l.0)

-- While the clock is still below the timeout, `now_usec - timeout_usec` wraps around, and
-- `nan_peers_clean` removes every peer, one that was updated just now included.
pub clean_early :
    (s : PeerState) (now f : ℕ)
    → s.peer_remove_callback ≡ some f
    → IsTable s.peers
    → now < s.timeout_usec
    → s.timeout_usec < 2 ^ 63
    → All (λ p. p.last_update ≤ now) s.peers
    → clean (suc (length s.peers)) s now
      ≡ cleaned (map (removal s f) s.peers) (record s { peers = [] })
clean_early s now f h t k l u =
    let (all, nothing) = All-stale s.timeout_usec now s.peers k l u in
    rw (clean_lem (suc (length s.peers)) s now f h t (omega arith), all, nothing)
