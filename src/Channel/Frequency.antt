-- ===== src/Channel/Frequency.antt =====
-- Channels and frequencies.
use opennan.Prelude.{ℕ, ◌≤◌, ◌≡◌, ◌≢◌, arith}
use opennan.Prelude.Int.{pos}
use opennan.Channel.{channel_to_frequency, frequency_to_channel}

-- Every channel up to 8000 that has a frequency is the channel of its frequency.
pub frequency_to_channel-channel_to_frequency :
    (chan : ℕ)
    → chan ≤ 8000
    → channel_to_frequency (pos chan) ≢ pos 0
    → frequency_to_channel (channel_to_frequency (pos chan)) ≡ pos chan
unfolding channel_to_frequency frequency_to_channel
frequency_to_channel-channel_to_frequency chan h k = ground arith
