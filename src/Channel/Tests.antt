-- ===== src/Channel/Tests.antt =====
-- The channel on which OpenNAN starts, and one of the 5 GHz band.
use opennan.Prelude.{◌≡◌, refl}
use opennan.Prelude.Int.{pos}
use opennan.Channel.{channel_to_frequency}

channel_six : channel_to_frequency (pos 6) ≡ pos 2437
unfolding channel_to_frequency
channel_six = refl
