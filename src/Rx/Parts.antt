-- ===== src/Rx/Parts.antt =====
-- The parts of a frame that the radio header and the checksum leave.
use opennan.Prelude.{ℕ, ◌^◌, ◌≤◌, ◌<◌, ◌≡◌, refl, ◌∙◌, Bool, Option, none, some, List, arith}
use opennan.Prelude.Int.{ℤ}
use opennan.Wire.{Buf}
use opennan.Wire.Defs.{buf_advance, buf_take}
use opennan.Wire.Bounds.{IsValid, too_short-eq}
use opennan.Ieee80211.{Radiotap, RadiotapField, read_radiotap_fields, parse_fcs, remaining}

-- A part of a valid buffer that a reader may go on with.
pub record Within (b b' : Buf) : Type 0 where
  pub valid : IsValid b'
  pub same_bytes : b'.bytes ≡ b.bytes
  pub forward : b.position ≤ b'.position
  pub shorter : b'.end ≤ b.end

pub Within-self : (b : Buf) → IsValid b → Within b b
Within-self b v = record {
  valid = v;
  same_bytes = refl;
  forward = omega arith;
  shorter = omega arith;
}

pub Within-compose : {b b1 b2 : Buf} → Within b b1 → Within b1 b2 → Within b b2
Within-compose w1 w2 = record {
  valid = w2.valid;
  same_bytes = w2.same_bytes ∙ w1.same_bytes;
  forward = omega (arith, w1.forward, w2.forward);
  shorter = omega (arith, w1.shorter, w2.shorter);
}

pub Within-buf_advance : (b : Buf) (n : ℕ) → IsValid b → n < 2 ^ 31 → Within b (buf_advance b n).1
unfolding buf_advance
Within-buf_advance b n v h =
    let t = too_short-eq n v h in
    record {
      valid = ground (arith, t);
      same_bytes = ground (arith, t);
      forward = ground (arith, t);
      shorter = ground (arith, t);
    }

pub Within-buf_take : (b : Buf) (n : ℕ) → IsValid b → n < 2 ^ 31 → Within b (buf_take b n).1
unfolding buf_take
Within-buf_take b n v h =
    let t = too_short-eq n v h in
    record {
      valid = ground (arith, t);
      same_bytes = ground (arith, t);
      forward = ground (arith, t);
      shorter = ground (arith, t);
    }

-- A field of a radiotap header that holds a length has 16 bits.
abbrev pub LengthIsSmall : Radiotap → Type 0
LengthIsSmall radiotap = (xs : List ℕ) → radiotap.it_len xs < 2 ^ 16

pub Within-read_radiotap_fields :
    (radiotap : Radiotap) (b : Buf) (known : ℤ × ℕ) (o : Option (List RadiotapField × Bool))
    → IsValid b
    → LengthIsSmall radiotap
    → Within b (read_radiotap_fields radiotap b known o).2
unfolding read_radiotap_fields
Within-read_radiotap_fields radiotap b known none v l = Within-self b v
Within-read_radiotap_fields radiotap b known (some (fields, ended)) v l =
    let w =
      Within-buf_advance b (radiotap.it_len (remaining b)) v (omega (arith, l (remaining b))) in
    ground (arith, w, Within-self b v)

pub Within-parse_fcs :
    (radiotap : Radiotap) (b : Buf) (flags : ℕ)
    → IsValid b
    → Within b (parse_fcs radiotap b flags).1
unfolding parse_fcs
Within-parse_fcs radiotap b flags v =
    ground (arith, Within-self b v, Within-buf_take b 4 v (omega arith))
