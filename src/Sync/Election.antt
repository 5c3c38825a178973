-- ===== src/Sync/Election.antt =====
-- What `nan_master_election` makes of the role.
use opennan.Prelude.{
  ℕ, ◌+◌, ◌≡◌, refl, ap, Bool, true, false, not, ◌&&◌, ◌||◌, List, [], ◌∷◌, arith, leb, ltb, ◌==◌,
  if◌then◌else◌, length, keep, All, Bool-cases, inl, inr,
}
use opennan.Prelude.Int.{ltb_ℤ}
use opennan.LinkedList.{list_for_each}
use opennan.Peer.{Peer}
use opennan.Sync.Defs.{
  SyncState, Role, non_sync, sync, master, Counts, no_counts, count_peer, count_peers, count_if,
  is_recent, get_peer_master_rank, rssi_close_limit, rssi_middle_limit, elect_master, elect_sync,
  master_election, is_master,
}

one_more :
    (b : Bool) (p : Peer) (l : List Peer) (x d x' : ℕ)
    → d ≡ x' + length l
    → x' ≡ count_if b x
    → d ≡ x + length (if b then p ∷ l else l)
one_more true p l x d x' e f = omega arith
one_more false p l x d x' e f = omega arith

module _ (s : SyncState) (now : ℕ) where
  abbrev pub is_close : Peer → Bool
  is_close p = is_recent now p && ltb_ℤ rssi_close_limit p.rssi_average

  abbrev pub is_middle : Peer → Bool
  is_middle p = is_recent now p && ltb_ℤ rssi_middle_limit p.rssi_average

  abbrev pub is_higher : Peer → Bool
  is_higher p = ltb s.master_rank (get_peer_master_rank p)

  abbrev pub close_candidate : Peer → Bool
  close_candidate p = is_close p && p.master_candidate

  abbrev pub middle_candidate : Peer → Bool
  middle_candidate p = is_middle p && p.master_candidate

  count_peer_fields :
      (c : Counts) (p : Peer)
      → let d = count_peer s now c p in
        (d.higher_mr ≡ count_if (is_recent now p && is_higher p) c.higher_mr)
        × (d.rssi_close ≡ count_if (is_close p) c.rssi_close)
        × (d.rssi_middle ≡ count_if (is_middle p) c.rssi_middle)
        × (d.rssi_close_higher_mr ≡ count_if (is_close p && is_higher p) c.rssi_close_higher_mr)
        × (d.rssi_close_master_candidate
            ≡ count_if (close_candidate p) c.rssi_close_master_candidate)
        × (d.rssi_middle_higher_mr ≡ count_if (is_middle p && is_higher p) c.rssi_middle_higher_mr)
        × (d.rssi_middle_master_candidate
            ≡ count_if (middle_candidate p) c.rssi_middle_master_candidate)
  unfolding count_peer
  count_peer_fields c p = elim (Bool-cases (is_recent now p)) [
    | inl e ↦ rw e (refl, refl, refl, refl, refl, refl, refl)
    | inr e ↦ rw e (refl, refl, refl, refl, refl, refl, refl)
  ]

  count_from :
      (peers : List Peer) (c : Counts)
      → let d = list_for_each (count_peer s now) c peers in
        (d.higher_mr ≡ c.higher_mr + length (keep (λ p. is_recent now p && is_higher p) peers))
        × (d.rssi_close ≡ c.rssi_close + length (keep is_close peers))
        × (d.rssi_middle ≡ c.rssi_middle + length (keep is_middle peers))
        × (d.rssi_close_higher_mr
            ≡ c.rssi_close_higher_mr + length (keep (λ p. is_close p && is_higher p) peers))
        × (d.rssi_close_master_candidate
            ≡ c.rssi_close_master_candidate + length (keep close_candidate peers))
        × (d.rssi_middle_higher_mr
            ≡ c.rssi_middle_higher_mr + length (keep (λ p. is_middle p && is_higher p) peers))
        × (d.rssi_middle_master_candidate
            ≡ c.rssi_middle_master_candidate + length (keep middle_candidate peers))
  unfolding list_for_each
  count_from [] c = omega arith
  count_from (p ∷ peers) c =
      let (h0, h1, h2, h3, h4, h5, h6) = count_from peers (count_peer s now c p) in
      let (f0, f1, f2, f3, f4, f5, f6) = count_peer_fields c p in
      (
        one_more _ _ _ _ _ _ h0 f0,
        one_more _ _ _ _ _ _ h1 f1,
        one_more _ _ _ _ _ _ h2 f2,
        one_more _ _ _ _ _ _ h3 f3,
        one_more _ _ _ _ _ _ h4 f4,
        one_more _ _ _ _ _ _ h5 f5,
        one_more _ _ _ _ _ _ h6 f6,
      )

-- Both `if` statements after the loop, as one.
abbrev pub elected : Role → ℕ → ℕ → ℕ → ℕ → ℕ → ℕ → Role
elected role close higher close_higher middle_higher close_candidates middle_candidates =
    if leb 1 close_candidates || leb 3 middle_candidates
    then if (if is_master role
        then not (leb 1 close_higher || leb 3 middle_higher)
        else close == 0 && ltb 0 higher)
      then master
      else non_sync
    else sync

elect-elected :
    (c : Counts) (role : Role)
    → elect_sync c (elect_master c role)
      ≡ elected role c.rssi_close c.higher_mr c.rssi_close_higher_mr c.rssi_middle_higher_mr
          c.rssi_close_master_candidate c.rssi_middle_master_candidate
unfolding elect_master elect_sync
elect-elected c non_sync = ground arith
elect-elected c sync = ground arith
elect-elected c master = ground arith

-- The counters are the numbers of recent peers with each property.
pub count_peers_lem :
    (s : SyncState) (peers : List Peer) (now : ℕ)
    → let c = count_peers s peers now in
      (c.higher_mr ≡ length (keep (λ p. is_recent now p && is_higher s now p) peers))
      × (c.rssi_close ≡ length (keep (is_close s now) peers))
      × (c.rssi_middle ≡ length (keep (is_middle s now) peers))
      × (c.rssi_close_higher_mr ≡ length (keep (λ p. is_close s now p && is_higher s now p) peers))
      × (c.rssi_close_master_candidate ≡ length (keep (close_candidate s now) peers))
      × (c.rssi_middle_higher_mr
          ≡ length (keep (λ p. is_middle s now p && is_higher s now p) peers))
      × (c.rssi_middle_master_candidate ≡ length (keep (middle_candidate s now) peers))
unfolding count_peers
count_peers_lem s peers now = omega (arith, count_from s now peers no_counts)

-- The role after `nan_master_election`, in terms of the recent peers. Without a master candidate
-- (one close, or three in the middle range) it is always SYNC, whatever it was. With one, a master
-- stays master unless a higher rank is close (or three in the middle range), when it ends as
-- NON_SYNC; any other role becomes master if no peer is close but one has a higher rank, and
-- NON_SYNC if not. Nothing but the role changes.
pub master_election_role :
    (s : SyncState) (peers : List Peer) (now : ℕ)
    → master_election s peers now ≡ record s {
      role =
          elected s.role
            (length (keep (is_close s now) peers))
            (length (keep (λ p. is_recent now p && is_higher s now p) peers))
            (length (keep (λ p. is_close s now p && is_higher s now p) peers))
            (length (keep (λ p. is_middle s now p && is_higher s now p) peers))
            (length (keep (close_candidate s now) peers))
            (length (keep (middle_candidate s now) peers));
    }
unfolding master_election
master_election_role s peers now =
    let (h0, h1, h2, h3, h4, h5, h6) = count_peers_lem s peers now in
    rw (← h0, ← h1, ← h3, ← h4, ← h5, ← h6)
      (ap (λ r. record s { role = r }) (elect-elected (count_peers s peers now) s.role))

nothing_counted :
    (s : SyncState) (peers : List Peer) (now : ℕ)
    → All (λ p. is_recent now p ≡ false) peers
    → (keep (close_candidate s now) peers ≡ []) × (keep (middle_candidate s now) peers ≡ [])
nothing_counted s [] now h = (refl, refl)
nothing_counted s (p ∷ peers) now h = ground (arith, h.0, nothing_counted s peers now h.1)

role_without_candidates :
    (s : SyncState) (peers : List Peer) (now : ℕ)
    → All (λ p. is_recent now p ≡ false) peers
    → (master_election s peers now).role ≡ sync
role_without_candidates s peers now h =
    let (close, middle) = nothing_counted s peers now h in
    rw (master_election_role s peers now, close, middle)

-- One election at the end of each window.
pub elections : SyncState → List (List Peer × ℕ) → SyncState
elections s [] = s
elections s ((peers, now) ∷ rounds) = elections (master_election s peers now) rounds

elections_from_sync :
    (s : SyncState) (rounds : List (List Peer × ℕ))
    → s.role ≡ sync
    → All (λ r. All (λ p. is_recent r.1 p ≡ false) r.0) rounds
    → (elections s rounds).role ≡ sync
unfolding elections
elections_from_sync s [] e h = e
elections_from_sync s ((peers, now) ∷ rounds) e h =
    elections_from_sync (master_election s peers now) rounds
      (role_without_candidates s peers now h.0) h.1

-- A device that hears no peer loses the role of master at the first election, and never regains it
-- in any number of further elections in which it hears none.
pub lone_device_not_master :
    (s : SyncState) (peers : List Peer) (now : ℕ) (rounds : List (List Peer × ℕ))
    → All (λ p. is_recent now p ≡ false) peers
    → All (λ r. All (λ p. is_recent r.1 p ≡ false) r.0) rounds
    → (elections s ((peers, now) ∷ rounds)).role ≡ sync
unfolding elections
lone_device_not_master s peers now rounds h k =
    elections_from_sync (master_election s peers now) rounds (role_without_candidates s peers now h)
      k
