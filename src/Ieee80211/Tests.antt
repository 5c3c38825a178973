-- ===== src/Ieee80211/Tests.antt =====
-- Sequence numbers, and a frame's checksum flags.
use opennan.Prelude.{◌≡◌, refl, true, [], ◌∷◌, replicate}
use opennan.Prelude.Int.{pos, negsuc}
use opennan.Wire.{Buf}
use opennan.Wire.Defs.{too_short}
use opennan.Ieee80211.{next_sequence_number, put_struct, parse_fcs}
use opennan.Ieee80211.Sample.{radiotap}

abbrev buffer : Buf
buffer = record {
  bytes = replicate 12 0;
  position = 1;
  start = 0;
  end = 12;
  size = 12;
  owned = true;
  error = pos 0;
}

-- The number after the last one is 0.
sequence_wraps :
    next_sequence_number (record { sequence_number = 65535; fcs = true })
    ≡ (65535, record { sequence_number = 0; fcs = true })
unfolding next_sequence_number
sequence_wraps = refl

struct_stored :
    put_struct buffer (7 ∷ 8 ∷ [])
    ≡ record buffer { bytes = 0 ∷ 7 ∷ 8 ∷ replicate 9 0; position = 3 }
unfolding put_struct too_short
struct_stored = refl

-- Flags that announce a checksum cut four octets off, and a bad checksum is refused.
checksum_cut : parse_fcs radiotap buffer 0x10 ≡ (pos 4, record buffer { end = 8 })
unfolding parse_fcs too_short
checksum_cut = refl

checksum_bad : parse_fcs radiotap buffer 0x50 ≡ (negsuc 0, buffer)
unfolding parse_fcs
checksum_bad = refl
