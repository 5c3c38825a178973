-- ===== src/Sync/Selection.antt =====
-- The choice of the anchor master from a sync beacon.
use opennan.Prelude.{
  ℕ, ◌+◌, ◌*◌, ◌^◌, ◌≤◌, ◌<◌, ◌≡◌, ◌↔◌, ◌∙◌, ◌⊎◌, inl, inr, ap, Bool, true, false, ◌&&◌, sym, subst,
  arith, Bool-cases, leb, ◌==◌,
}
use native.Mathlib.Decide.{dec_lt}
use opennan.Prelude.Int.{u64}
use opennan.Peer.{Peer}
use opennan.Sync.Defs.{
  SyncState, is_anchor_master_self, is_same_master_rank_issuer, set_anchor_master_other,
  set_anchor_master_self, refresh_anchor_master, select_from_other, anchor_master_selection,
}

-- The first test of `nan_anchor_master_selection`: `16 * 512` times the synced time, in 64 bits.
abbrev pub is_outdated : SyncState → Peer → ℕ → Bool
is_outdated s p tu =
    s.anchor_master_rank == p.anchor_master_rank && leb p.ambtt (u64 (u64 (tu * 16) * 512))

-- The rank of the anchor master before the current one, without a newer transmission time.
abbrev pub is_last_one : SyncState → Peer → Bool
is_last_one s p = s.last_anchor_master_rank == p.anchor_master_rank && leb p.ambtt s.last_ambtt

-- Why a beacon is ignored.
pub data Ignored (s : SyncState) (p : Peer) (tu : ℕ) : Type 0 where
  outdated : is_outdated s p tu ≡ true → Ignored s p tu
  own_is_better :
      is_anchor_master_self s ≡ true → p.anchor_master_rank ≤ s.master_rank → Ignored s p tu
  own_rank :
      is_anchor_master_self s ≡ true
      → is_same_master_rank_issuer s.master_rank p.anchor_master_rank ≡ true
      → Ignored s p tu
  last_one :
      is_anchor_master_self s ≡ false
      → s.anchor_master_rank < p.anchor_master_rank
      → is_last_one s p ≡ true
      → Ignored s p tu
  lower_from_other :
      is_anchor_master_self s ≡ false
      → p.anchor_master_rank < s.anchor_master_rank
      → is_same_master_rank_issuer s.anchor_master_rank p.anchor_master_rank ≡ false
      → Ignored s p tu

-- What one sync beacon can do to the state, and when.
pub data Change (s : SyncState) (p : Peer) (tu : ℕ) (s' : SyncState) : Type 0 where
  ignore : Ignored s p tu → s' ≡ s → Change s p tu s'
  -- we were the anchor master, and the beacon names a rank above ours that is not of our address
  yield_to :
      is_anchor_master_self s ≡ true
      → s.master_rank < p.anchor_master_rank
      → is_same_master_rank_issuer s.master_rank p.anchor_master_rank ≡ false
      → is_outdated s p tu ≡ false
      → s' ≡ set_anchor_master_other s p
      → Change s p tu s'
  -- a rank above that of the current anchor master, other than the one before without a newer time
  rise :
      is_anchor_master_self s ≡ false
      → s.anchor_master_rank < p.anchor_master_rank
      → is_last_one s p ≡ false
      → s' ≡ set_anchor_master_other s p
      → Change s p tu s'
  -- the current anchor master announced a lower rank, but not below ours
  fall :
      is_anchor_master_self s ≡ false
      → p.anchor_master_rank < s.anchor_master_rank
      → is_same_master_rank_issuer s.anchor_master_rank p.anchor_master_rank ≡ true
      → s.master_rank ≤ p.anchor_master_rank
      → s' ≡ set_anchor_master_other s p
      → Change s p tu s'
  -- the current anchor master announced a rank below ours
  take_over :
      is_anchor_master_self s ≡ false
      → p.anchor_master_rank < s.anchor_master_rank
      → is_same_master_rank_issuer s.anchor_master_rank p.anchor_master_rank ≡ true
      → p.anchor_master_rank < s.master_rank
      → s' ≡ set_anchor_master_self s
      → Change s p tu s'
  -- the rank of the current anchor master, with a newer transmission time
  refresh :
      is_anchor_master_self s ≡ false
      → p.anchor_master_rank ≡ s.anchor_master_rank
      → is_outdated s p tu ≡ false
      → s' ≡ refresh_anchor_master s p
      → Change s p tu s'

select_from_other-Change :
    (s : SyncState) (p : Peer) (tu : ℕ)
    → is_anchor_master_self s ≡ false
    → is_outdated s p tu ≡ false
    → Change s p tu (select_from_other s p)
unfolding select_from_other
select_from_other-Change s p tu e o = elim (dec_lt s.anchor_master_rank p.anchor_master_rank) [
  | yes h ↦ elim (Bool-cases (is_last_one s p)) [
    | inl t ↦ ignore (last_one e h t) (ground arith)
    | inr t ↦ rise e h t (ground arith)
  ]
  | no h ↦ elim (dec_lt p.anchor_master_rank s.anchor_master_rank) [
    | yes k ↦
        elim (Bool-cases (is_same_master_rank_issuer s.anchor_master_rank p.anchor_master_rank)) [
          | inl t ↦ elim (dec_lt p.anchor_master_rank s.master_rank) [
            | yes l ↦ take_over e k t l (ground arith)
            | no l ↦ fall e k t (omega arith) (ground arith)
          ]
          | inr t ↦ ignore (lower_from_other e k t) (ground arith)
        ]
    | no k ↦ refresh e (omega arith) o (ground arith)
  ]
]

-- Where the new anchor master has just been set, the rest of the function changes nothing.
select_from_other-set :
    (s : SyncState) (p : Peer)
    → select_from_other (set_anchor_master_other s p) p ≡ set_anchor_master_other s p
unfolding select_from_other
select_from_other-set s p = ground arith

-- One of the outcomes holds.
selection_changes :
    (s : SyncState) (p : Peer) (tu : ℕ) → Change s p tu (anchor_master_selection s p tu)
unfolding anchor_master_selection
selection_changes s p tu = elim (Bool-cases (is_outdated s p tu)) [
  | inl o ↦ ignore (outdated o) (ground arith)
  | inr o ↦ elim (Bool-cases (is_anchor_master_self s)) [
    | inl e ↦ elim (dec_lt s.master_rank p.anchor_master_rank) [
      | yes h ↦ elim (Bool-cases (is_same_master_rank_issuer s.master_rank p.anchor_master_rank)) [
        | inl t ↦ ignore (own_rank e t) (ground arith)
        | inr t ↦ yield_to e h t o (ground (arith, select_from_other-set s p))
      ]
      | no h ↦ ignore (own_is_better e (omega arith)) (ground arith)
    ]
    | inr e ↦
        let same : anchor_master_selection s p tu ≡ select_from_other s p = ground arith in
        subst (Change s p tu) (sym same) (select_from_other-Change s p tu e o)
  ]
]

-- No other outcome holds.
selection_only :
    (s : SyncState) (p : Peer) (tu : ℕ) (s' : SyncState)
    → Change s p tu s'
    → s' ≡ anchor_master_selection s p tu
unfolding anchor_master_selection select_from_other
selection_only s p tu s' (ignore (outdated o) e) = ground (arith, e)
selection_only s p tu s' (ignore (own_is_better own l) e) = ground (arith, e)
selection_only s p tu s' (ignore (own_rank own t) e) = ground (arith, e)
selection_only s p tu s' (ignore (last_one own l t) e) = ground (arith, e)
selection_only s p tu s' (ignore (lower_from_other own l t) e) = ground (arith, e)
selection_only s p tu s' (yield_to own l t o e) = e ∙ ground (arith, select_from_other-set s p)
selection_only s p tu s' (rise own l t e) = ground (arith, e)
selection_only s p tu s' (fall own l t k e) = ground (arith, e)
selection_only s p tu s' (take_over own l t k e) = ground (arith, e)
selection_only s p tu s' (refresh own e o f) = ground (arith, f)

-- What `nan_anchor_master_selection` does with a sync beacon, on every branch. A beacon is ignored
-- for one of five reasons; else it sets the anchor master to the beacon's or to us, or refreshes
-- it. This is all that the function does and says when: a state is its result exactly if one of the
-- outcomes gives it.
pub selection-Change :
    (s : SyncState) (p : Peer) (tu : ℕ) (s' : SyncState)
    → Change s p tu s' ↔ (s' ≡ anchor_master_selection s p tu)
selection-Change s p tu s' =
    (selection_only s p tu s', λ e. subst (Change s p tu) (sym e) (selection_changes s p tu))

-- The rank of the anchor master falls only by word of the current anchor master itself, or when we
-- were the anchor master under a rank above our present one: a beacon of anyone else cannot lower
-- it.
pub selection_falls :
    (s : SyncState) (p : Peer) (tu : ℕ)
    → (anchor_master_selection s p tu).anchor_master_rank < s.anchor_master_rank
    → (is_same_master_rank_issuer s.anchor_master_rank p.anchor_master_rank ≡ true)
      ⊎ (is_anchor_master_self s ≡ true)
unfolding set_anchor_master_other refresh_anchor_master
selection_falls s p tu l = falls (selection_changes s p tu)
  where
    falls :
        Change s p tu (anchor_master_selection s p tu)
        → (is_same_master_rank_issuer s.anchor_master_rank p.anchor_master_rank ≡ true)
          ⊎ (is_anchor_master_self s ≡ true)
    falls (ignore r e) = absurd (omega (arith, ap (λ x. x.anchor_master_rank) e))
    falls (yield_to e h t o f) = inr e
    falls (rise e h t f) = absurd (omega (arith, ap (λ x. x.anchor_master_rank) f))
    falls (fall e h t k f) = inl t
    falls (take_over e h t k f) = inl t
    falls (refresh e h o f) = absurd (omega (arith, ap (λ x. x.anchor_master_rank) f))

-- The bound of the first test is far above the present time: from the first TU on, and as long as
-- 16 * 512 times the synced TU fits 64 bits, a beacon with the rank of the current anchor master
-- whose transmission time is in the present TU or before, in microseconds, is ignored.
current_anchor_ignored :
    (s : SyncState) (p : Peer) (tu : ℕ)
    → p.anchor_master_rank ≡ s.anchor_master_rank
    → 1 ≤ tu
    → tu * 16 * 512 < 2 ^ 64
    → p.ambtt < (tu + 1) * 1024
    → anchor_master_selection s p tu ≡ s
unfolding anchor_master_selection
current_anchor_ignored s p tu e h k l = ground arith

-- When a beacon with the same rank shows a shorter way to the anchor master, the hop count becomes
-- the peer's own, while a beacon that brings in the same anchor master anew sets it to one more.
pub hop_count-refresh :
    (s : SyncState) (p : Peer)
    → p.hop_count + 1 < s.hop_count
    → s.hop_count < 2 ^ 8
    → ((refresh_anchor_master s p).hop_count ≡ p.hop_count)
      × ((set_anchor_master_other s p).hop_count ≡ p.hop_count + 1)
unfolding refresh_anchor_master set_anchor_master_other
hop_count-refresh s p h k = ground arith
