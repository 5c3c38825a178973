-- ===== src/CircularBuffer.antt =====
-- The circular buffer of src/circular_buffer.c: the queue of frames that wait for the next
-- discovery window. A stored item is an `any_t`, a pointer: a number, with 0 for NULL.
pub mod Queue
pub mod Inv
pub mod Items
pub mod Refine
mod Tests
use opennan.Prelude.{
  ℕ, ◌+◌, ◌-◌, ◌%◌, ◌^◌, ◌≡◌, Bool, true, false, not, ◌&&◌, List, leb, ◌==◌, if◌then◌else◌, get_or,
  set,
}
use opennan.Prelude.Int.{ℤ, pos, minus_one, u64}

-- `struct circular_buf`.
pub record CircularBuf : Type 0 where
  pub buffer : List ℕ
  pub head : ℕ
  pub tail : ℕ
  pub capacity : ℕ
  pub full : Bool

-- `(x + 1) % capacity` on a `size_t`.
abbrev pub next_index : ℕ → ℕ → ℕ
next_index x capacity = u64 (x + 1) % capacity

pub advance_pointer : CircularBuf → CircularBuf
advance_pointer c =
    let tail = if c.full then next_index c.tail c.capacity else c.tail in
    let head = next_index c.head c.capacity in
    record c { tail = tail; head = head; full = head == tail }

pub retreat_pointer : CircularBuf → CircularBuf
retreat_pointer c = record c { full = false; tail = next_index c.tail c.capacity }

pub reset : CircularBuf → CircularBuf
reset c = record c { head = 0; tail = 0; full = false }

-- The storage is what `malloc` returned, `size` pointers of unknown content.
unfoldable pub init : List ℕ → ℕ → CircularBuf
unfolding reset
init storage size =
    reset (record { buffer = storage; head = 0; tail = 0; capacity = size; full = false })

pub is_full : CircularBuf → Bool
is_full c = c.full

pub is_empty : CircularBuf → Bool
is_empty c = not c.full && c.head == c.tail

pub capacity : CircularBuf → ℕ
capacity c = c.capacity

-- The last difference of `size_t` wraps around the sum before it.
unfoldable pub size : CircularBuf → ℕ
unfolding is_full
size c =
    if is_full c
    then c.capacity
    else if leb c.tail c.head
    then c.head - c.tail
    else u64 (u64 (c.capacity + c.head) + 2 ^ 64 - c.tail)

pub put_override : CircularBuf → ℕ → CircularBuf
unfolding advance_pointer
put_override c item = advance_pointer (record c { buffer = set c.buffer c.head item })

unfoldable pub put : CircularBuf → ℕ → ℤ × CircularBuf
unfolding is_full advance_pointer
put c item =
    if is_full c
    then (minus_one, c)
    else (pos 0, advance_pointer (record c { buffer = set c.buffer c.head item }))

-- The caller's `*data` goes in, and comes back beside the status.
unfoldable pub get : CircularBuf → ℕ → Bool → ℤ × ℕ × CircularBuf
unfolding is_empty retreat_pointer
get c item peek =
    let cleared = if item == 0 then item else 0 in
    if is_empty c
    then (minus_one, cleared, c)
    else (pos 0, get_or c.buffer c.tail 0, if peek then c else retreat_pointer c)
