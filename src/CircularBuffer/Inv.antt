-- ===== src/CircularBuffer/Inv.antt =====
-- The representation invariant of the circular buffer: indices stay inside the storage.
use opennan.Prelude.{ℕ, ◌^◌, ◌<◌, ◌≡◌, Bool, true, List, arith, length, length-set}
use opennan.CircularBuffer.{CircularBuf, init, reset, put, put_override, get}

pub record IsValid (c : CircularBuf) : Type 0 where
  pub storage : length c.buffer ≡ c.capacity
  pub room : 0 < c.capacity
  pub small : c.capacity < 2 ^ 64
  pub head_in : c.head < c.capacity
  pub tail_in : c.tail < c.capacity
  pub full_meets : c.full ≡ true → c.head ≡ c.tail

pub init-IsValid :
    (storage : List ℕ) (n : ℕ) → length storage ≡ n → 0 < n → n < 2 ^ 64 → IsValid (init storage n)
unfolding init
init-IsValid storage n e p q = ground arith

pub put_override-IsValid : {c : CircularBuf} (x : ℕ) → IsValid c → IsValid (put_override c x)
unfolding put_override
put_override-IsValid {c} x v = ground (arith, length-set c.buffer c.head x, v.full_meets)

pub put-IsValid : {c : CircularBuf} (x : ℕ) → IsValid c → IsValid (put c x).1
unfolding put
put-IsValid {c} x v = ground (arith, length-set c.buffer c.head x, v.full_meets)

pub get-IsValid : {c : CircularBuf} (x : ℕ) (peek : Bool) → IsValid c → IsValid (get c x peek).2
unfolding get
get-IsValid {c} x peek v = ground (arith, v.full_meets)

pub reset-IsValid : {c : CircularBuf} → IsValid c → IsValid (reset c)
unfolding reset
reset-IsValid v = ground arith
