-- ===== src/Rx/Soundness.antt =====
-- What `nan_rx` keeps of the ranks, whatever it receives.
use opennan.Prelude.{ℕ}
use opennan.Ieee80211.{Radiotap}
use opennan.Sync.Invariant.{IsSound}
use opennan.State.{NanState}
use opennan.Rx.Keeps.{After, Keeps, rx-After}
use opennan.Rx.Safety.{rx_beacon-SoundOutcome}
use opennan.Rx.Frame.{Reception, arrival_of, rx}

abbrev pub SoundSync : NanState → Type 0
SoundSync s = IsSound s.sync

keeps_soundness : (fuel : ℕ) (r : Reception) → Keeps fuel r SoundSync SoundSync
keeps_soundness fuel r = record {
  refused_frame = λ s h. h;
  services_changed = λ s services h. h;
  peer_added = λ s a h. h;
  beacon_received = λ s rssi frame a h. rx_beacon-SoundOutcome fuel s (arrival_of r rssi frame a) h;
}

-- Whatever frame arrives, `nan_rx` keeps our own master rank at or below the rank of the anchor
-- master.
pub rx-SoundSync :
    (fuel : ℕ) (r : Reception) (radiotap : Radiotap) (s : NanState)
    → IsSound s.sync
    → After SoundSync (rx radiotap fuel r s)
rx-SoundSync fuel r radiotap s h = rx-After (keeps_soundness fuel r) radiotap s h
