-- ===== src/Sync/Expiration.antt =====
-- When the anchor master expires.
use opennan.Prelude.{ℕ, zero, suc, ◌-◌, ◌≤◌, ◌≡◌, ◌≢◌, refl, false, arith}
use opennan.Sync.Defs.{SyncState, is_anchor_master_self, check_anchor_master_expiration}

-- Some windows pass.
pub windows : ℕ → SyncState → SyncState
windows zero s = s
windows (suc n) s = windows n (check_anchor_master_expiration s)

-- What one check does while neither the transmission time nor the hop count is the saved one.
check_differs :
    (s : SyncState)
    → is_anchor_master_self s ≡ false
    → s.ambtt ≢ s.last_ambtt
    → s.hop_count ≢ s.last_hop_count
    → check_anchor_master_expiration s
      ≡ record s { count_dws_without_ambtt_update = 0; count_dws_without_hop_count_update = 0 }
unfolding check_anchor_master_expiration
check_differs s e f g = ground arith

-- Nothing is saved at the end of a window: as long as no beacon comes in, an anchor master whose
-- transmission time and hop count differ from the saved ones stays, however many windows pass
-- without a word from it.
pub anchor_never_expires :
    (n : ℕ) (s : SyncState)
    → is_anchor_master_self s ≡ false
    → s.ambtt ≢ s.last_ambtt
    → s.hop_count ≢ s.last_hop_count
    → ((windows n s).anchor_master_rank ≡ s.anchor_master_rank)
      × (is_anchor_master_self (windows n s) ≡ false)
unfolding windows is_anchor_master_self
anchor_never_expires zero s e f g = (refl, e)
anchor_never_expires (suc n) s e f g =
    let reset : SyncState = record s {
      count_dws_without_ambtt_update = 0;
      count_dws_without_hop_count_update = 0;
    } in
    ground (arith, check_differs s e f g, anchor_never_expires n reset e f g)

-- Where we follow another anchor master, its transmission time is the saved one, and the counter of
-- such windows is at most 2: the windows in a row without a word from it that fill the counter up
-- to three make us the anchor master with the hop count 0, and one window before, the anchor
-- master's rank is still its own, whatever the hop counts and their counter are.
pub anchor_expires :
    (s : SyncState)
    → is_anchor_master_self s ≡ false
    → s.ambtt ≡ s.last_ambtt
    → s.count_dws_without_ambtt_update ≤ 2
    → let n = 3 - s.count_dws_without_ambtt_update in
      ((windows n s).anchor_master_rank ≡ s.master_rank)
      × ((windows n s).hop_count ≡ 0)
      × ((windows (n - 1) s).anchor_master_rank ≡ s.anchor_master_rank)
unfolding windows check_anchor_master_expiration is_anchor_master_self
anchor_expires s e f g = by_count s.count_dws_without_ambtt_update refl
  where
    by_count :
        (c : ℕ)
        → s.count_dws_without_ambtt_update ≡ c
        → let n = 3 - s.count_dws_without_ambtt_update in
          ((windows n s).anchor_master_rank ≡ s.master_rank)
          × ((windows n s).hop_count ≡ 0)
          × ((windows (n - 1) s).anchor_master_rank ≡ s.anchor_master_rank)
    by_count zero h = rw h (ground (arith, h))
    by_count (suc zero) h = rw h (ground (arith, h))
    by_count (suc (suc zero)) h = rw h (ground (arith, h))
    by_count (suc (suc (suc c))) h = absurd (omega arith)
