-- ===== src/Ieee80211/Sample.antt =====
-- A radiotap library with headers of eight octets, for the tests: the numbers are those of the
-- standard.
use opennan.Prelude.{true, some, [], ◌∷◌, ◌++◌}
use opennan.Prelude.Int.{u16}
use opennan.Wire.Defs.{slice, encode_le, decode_le}
use opennan.Ieee80211.{Radiotap}

abbrev pub radiotap : Radiotap
radiotap = record {
  octets_of = λ length present. (0 ∷ 0 ∷ []) ++ encode_le 2 length ++ encode_le 4 present;
  size = 8;
  it_len = λ xs. u16 (decode_le (slice xs 2 2));
  index_flags = 1;
  index_rate = 2;
  index_dbm_antsignal = 5;
  flag_fcs = 0x10;
  flag_badfcs = 0x40;
  iterate = λ xs. some ([], true);
}
