-- ===== src/Channel.antt =====
-- The channels of src/channel.c. Numbers are C's `int`.
pub mod Frequency
mod Tests
use opennan.Prelude.{ℕ, ◌+◌, ◌*◌, ◌-◌, ◌≡◌, Bool, ◌&&◌, ltb, leb, ◌==◌, if◌then◌else◌}
use opennan.Prelude.Int.{ℤ, pos, negsuc, sub_ℕ, tdiv}

-- `struct nan_channel_state`.
pub record ChannelState : Type 0 where
  pub master : ℤ

unfoldable pub init : ℤ → ChannelState
init channel = record { master = channel }

unfoldable pub channel_to_frequency : ℤ → ℤ
channel_to_frequency (negsuc n) = pos 0
channel_to_frequency (pos chan) =
    if chan == 0
    then pos 0
    else if chan == 14
    then pos 2484
    else if ltb chan 14
    then pos (2407 + chan * 5)
    else if ltb chan 32
    then pos 0
    else if leb 182 chan && leb chan 196
    then pos (4000 + chan * 5)
    else pos (5000 + chan * 5)

unfoldable pub frequency_to_channel : ℤ → ℤ
frequency_to_channel (negsuc n) = tdiv (negsuc (n + 2407)) 5
frequency_to_channel (pos freq) =
    if freq == 2484
    then pos 14
    else if ltb freq 2484
    then tdiv (sub_ℕ freq 2407) 5
    else if leb 4910 freq && leb freq 4980
    then tdiv (sub_ℕ freq 4000) 5
    else if leb freq 45000
    then tdiv (sub_ℕ freq 5000) 5
    else if leb 58320 freq && leb freq 64800
    then tdiv (sub_ℕ freq 56160) 2160
    else pos 0
