-- ===== src/Peer/Add.antt =====
-- `nan_peer_add` keeps a table with one entry for each address.
use opennan.Prelude.{
  ℕ, ◌≡◌, ◌≢◌, refl, sym, subst, none, some, List, [], ◌∷◌, arith, All, Option-cases, inl, inr, ◌∙◌,
}
use opennan.Utils.{EtherAddr}
use opennan.Utils.Addresses.{ether_addr_equal_iff}
use opennan.LinkedList.{list_add, list_find}
use opennan.Peer.Defs.{
  Peer, PeerState, PeerStatus, peer_add, peer_update, peer_ok, get, add, new, write_back,
}
use opennan.Peer.Lookup.{
  IsTable, has_addr, list_find-list_add, IsTable-list_add, Apart-missing, Written, written,
  All-list_find,
}

-- The state after `nan_peer_add` of `addr` at `now`.
pub record Added (s s' : PeerState) (addr cluster_id : EtherAddr) (now : ℕ) : Type 0 where
  pub table : IsTable s'.peers
  pub peer : Peer
  pub found : get s'.peers addr ≡ (peer_ok, some peer)
  pub addr_set : peer.addr ≡ addr
  pub seen : peer.last_update ≡ now
  pub clustered : peer.cluster_id ≡ cluster_id
  pub others : (a : EtherAddr) → a ≢ addr → get s'.peers a ≡ get s.peers a

module _ (s : PeerState) (raw : Peer) (addr cluster_id : EtherAddr) (now : ℕ) where
  -- The new entry as it goes into the list.
  abbrev fresh : Peer
  fresh = record (new raw addr cluster_id) { last_update = now }

  fresh_fields : (fresh.addr ≡ addr) × (fresh.cluster_id ≡ cluster_id) × (fresh.ref ≡ raw.ref)
  unfolding new
  fresh_fields = (refl, refl, refl)

  add_missing :
      list_find (has_addr addr) s.peers ≡ none
      → ((add s raw addr cluster_id now).0 ≡ peer_add)
        × ((add s raw addr cluster_id now).2.peers ≡ list_add s.peers fresh)
  unfolding add get
  add_missing e = ground (arith, e)

  add_known :
      (p : Peer)
      → list_find (has_addr addr) s.peers ≡ some p
      → ((add s raw addr cluster_id now).0 ≡ peer_update)
        × ((add s raw addr cluster_id now).1 ≡ [])
        × ((add s raw addr cluster_id now).2.peers
            ≡ write_back (record p { last_update = now; cluster_id = cluster_id }) s.peers)
  unfolding add get
  add_known p e = ground (arith, e, ether_addr_equal_iff p.cluster_id cluster_id)

  abbrev after : PeerState
  after = (add s raw addr cluster_id now).2

  get-find :
      (xs : List Peer) (a : EtherAddr) (p : Peer)
      → list_find (has_addr a) xs ≡ some p
      → get xs a ≡ (peer_ok, some p)
  unfolding get
  get-find xs a p e = ground (arith, e)

  get_cong :
      (xs ys : List Peer) (a : EtherAddr)
      → list_find (has_addr a) xs ≡ list_find (has_addr a) ys
      → get xs a ≡ get ys a
  unfolding get
  get_cong xs ys a e = ground (arith, e)

  addr_found : (p : Peer) → list_find (has_addr addr) s.peers ≡ some p → p.addr ≡ addr
  addr_found p e =
      (ether_addr_equal_iff p.addr addr).0
        (All-list_find (λ q. Unit {0}) _ s.peers (anything s.peers) e).1
    where
      anything : (xs : List Peer) → All (λ q. Unit {0}) xs
      anything [] = tt
      anything (q ∷ xs) = (tt, anything xs)

  Added-new :
      IsTable s.peers
      → All (λ q. q.ref ≢ raw.ref) s.peers
      → list_find (has_addr addr) s.peers ≡ none
      → Added s after addr cluster_id now
  unfolding new
  Added-new t f e =
      let grown = (add_missing e).1 in
      let look = λ (a : EtherAddr). list_find-list_add a s.peers fresh in
      record {
        table =
            subst IsTable (sym grown)
              (IsTable-list_add s.peers fresh t (Apart-missing fresh s.peers f e));
        peer = fresh;
        found =
            get-find after.peers addr fresh
              (ground (arith, grown, look addr, e, ether_addr_equal_iff addr addr));
        addr_set = fresh_fields.0;
        seen = refl;
        clustered = fresh_fields.1;
        others = λ a n. get_cong after.peers s.peers a (
            ground (
              arith,
              grown,
              look a,
              ether_addr_equal_iff addr a,
              n,
              Option-cases (list_find (has_addr a) s.peers),
            ));
      }

  Added-known :
      (p : Peer)
      → IsTable s.peers
      → list_find (has_addr addr) s.peers ≡ some p
      → Added s after addr cluster_id now
  Added-known p t e =
      let p' : Peer = record p { last_update = now; cluster_id = cluster_id } in
      let wrote = (add_known p e).2 in
      let same_addr = addr_found p e in
      let w : Written p p' s.peers =
        written p p' refl refl s.peers t
          (subst (λ a. list_find (has_addr a) s.peers ≡ some p) (sym same_addr) e) in
      record {
        table = subst IsTable (sym wrote) w.table;
        peer = p';
        found = get-find after.peers addr p' (
            subst (λ xs. list_find (has_addr addr) xs ≡ some p') (sym wrote)
              (subst (λ a. list_find (has_addr a) (write_back p' s.peers) ≡ some p') same_addr
                w.found));
        addr_set = same_addr;
        seen = refl;
        clustered = refl;
        others = λ a n. get_cong after.peers s.peers a (
            subst (λ xs. list_find (has_addr a) xs ≡ list_find (has_addr a) s.peers) (sym wrote)
              (w.others a (λ h. n (h ∙ same_addr))));
      }

  -- With a block from `malloc` that no peer has, `nan_peer_add` keeps the table, and a lookup of
  -- the address then finds a peer that was last updated now and stands in the given cluster;
  -- lookups of all other addresses find what they found before. The status is PEER_ADD exactly if
  -- the address was missing, and PEER_UPDATE otherwise.
  pub add_lem :
      IsTable s.peers
      → All (λ q. q.ref ≢ raw.ref) s.peers
      → Added s after addr cluster_id now
        × ((add s raw addr cluster_id now).0 ≡ (elim (get s.peers addr).1 as (λ o. PeerStatus) [
          | none ↦ peer_add
          | some p ↦ peer_update
        ]))
  unfolding get
  add_lem t f = elim (Option-cases (list_find (has_addr addr) s.peers)) [
    | inl e ↦ (Added-new t f e, ground (arith, (add_missing e).0))
    | inr (p, e) ↦ (Added-known p t e, ground (arith, (add_known p e).0))
  ]
