-- ===== src/Rx/Reads.antt =====
-- Reads one after the other: where they leave the position, and when they leave an error.
use opennan.Prelude.{ℕ, ◌+◌, ◌^◌, ◌≤◌, ◌<◌, ◌≡◌, ◌≢◌, ◌∙◌, List, arith, some}
use native.Mathlib.Decide.{dec_lt}
use opennan.Prelude.Int.{minus_one}
use opennan.Wire.Defs.{Buf, read_decoded, read_bytes, slice}
use opennan.Wire.Bounds.{IsValid, too_short-eq}

-- What a read leaves: the block, the end, and a position that moved by `n` unless the error is set.
pub record ReadOf (n : ℕ) (b b' : Buf) : Type 0 where
  pub valid : IsValid b'
  pub same_bytes : b'.bytes ≡ b.bytes
  pub same_end : b'.end ≡ b.end
  pub forward : b.position ≤ b'.position
  pub moved : b'.error ≢ minus_one → b'.position ≡ b.position + n
  pub failed : b.end < b.position + n → b'.error ≡ minus_one
  pub least : b.position + n ≤ b.end → b'.position ≡ b.position + n
  pub sticky : b.error ≡ minus_one → b'.error ≡ minus_one

pub ReadOf-read_decoded :
    (decode : List ℕ → ℕ) (n : ℕ) (b : Buf)
    → IsValid b
    → n < 2 ^ 31
    → ReadOf n b (read_decoded decode n b).2
unfolding read_decoded
ReadOf-read_decoded decode n b v h =
    let t = too_short-eq n v h in
    record {
      valid = ground (arith, t);
      same_bytes = ground (arith, t);
      same_end = ground (arith, t);
      forward = ground (arith, t);
      moved = ground (arith, t);
      failed = ground (arith, t);
      least = ground (arith, t);
      sticky = ground (arith, t);
    }

pub ReadOf-read_bytes : (n : ℕ) (b : Buf) → IsValid b → n < 2 ^ 31 → ReadOf n b (read_bytes b n).2
unfolding read_bytes
ReadOf-read_bytes n b v h =
    let t = too_short-eq n v h in
    record {
      valid = ground (arith, t);
      same_bytes = ground (arith, t);
      same_end = ground (arith, t);
      forward = ground (arith, t);
      moved = ground (arith, t);
      failed = ground (arith, t);
      least = ground (arith, t);
      sticky = ground (arith, t);
    }

-- Two reads are one read of both lengths.
pub ReadOf-compose :
    {n m : ℕ} {b b1 b2 : Buf} → ReadOf n b b1 → ReadOf m b1 b2 → ReadOf (n + m) b b2
ReadOf-compose {n} {m} {b} {b1} {b2} r1 r2 = record {
  valid = r2.valid;
  same_bytes = r2.same_bytes ∙ r1.same_bytes;
  same_end = r2.same_end ∙ r1.same_end;
  forward = omega (arith, r1.forward, r2.forward);
  moved = λ e. omega (arith, r1.moved (λ f. e (r2.sticky f)), r2.moved e);
  failed = λ h. elim (dec_lt b.end (b.position + n)) [
    | yes k ↦ r2.sticky (r1.failed k)
    | no k ↦ r2.failed (omega (arith, r1.least (omega arith), r1.same_end))
  ];
  least = λ h. omega (
    arith,
    r1.least (omega arith),
    r1.same_end,
    r2.least (omega (arith, r1.least (omega arith), r1.same_end)),
  );
  sticky = λ h. r2.sticky (r1.sticky h);
}

-- The read of `n` octets that are left.
pub read_here :
    (decode : List ℕ → ℕ) (n : ℕ) (b : Buf)
    → IsValid b
    → n < 2 ^ 31
    → b.position + n ≤ b.end
    → read_decoded decode n b
      ≡ (n, some (decode (slice b.bytes b.position n)), record b { position = b.position + n })
unfolding read_decoded
read_here decode n b v h k = ground (arith, too_short-eq n v h)

-- A position further on that is still inside.
pub IsValid-at : (b : Buf) (at : ℕ) → IsValid b → at ≤ b.end → IsValid (record b { position = at })
IsValid-at b at v h = record { inside = h; within = v.within; small = v.small }
