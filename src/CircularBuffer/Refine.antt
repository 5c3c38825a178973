-- ===== src/CircularBuffer/Refine.antt =====
-- A valid circular buffer behaves as the bounded queue of the items that it holds.
use opennan.Prelude.{
  ◌↔◌, ℕ, zero, suc, ◌+◌, ◌-◌, ◌≤◌, ◌<◌, ◌≡◌, refl, ap, Bool, true, false, List, [], ◌∷◌, ◌++◌,
  arith, ltb, if◌then◌else◌, length, get_or, set, Bool-cases, inl, inr,
}
use opennan.Prelude.Int.{ℤ, pos, minus_one}
use opennan.CircularBuffer.Queue
use opennan.CircularBuffer.Queue.{Queue, Op, puts, overrides, gets}
use opennan.CircularBuffer.{CircularBuf, put, put_override, get, size, is_full, is_empty}
use opennan.CircularBuffer.Inv.{IsValid, put-IsValid, put_override-IsValid, get-IsValid}
use opennan.CircularBuffer.Items.{
  next, next_index-eq-next, items, items_pos, items-set, contents, length-contents,
}

-- Where the next item goes, and how many there are, under the invariant.
head_behind :
    {c : CircularBuf}
    → IsValid c
    → c.full ≡ false
    → (size c < c.capacity)
      × (c.head ≡ (
          if ltb (c.tail + size c) c.capacity
          then c.tail + size c
          else c.tail + size c - c.capacity))
unfolding size
head_behind v e = ground arith

put_full : (c : CircularBuf) (x : ℕ) → c.full ≡ true → put c x ≡ (minus_one, c)
unfolding put
put_full c x e = ground arith

put_room : (c : CircularBuf) (x : ℕ) → c.full ≡ false → put c x ≡ (pos 0, put_override c x)
unfolding put put_override
put_room c x e = ground arith

size_full : (c : CircularBuf) → c.full ≡ true → size c ≡ c.capacity
unfolding size
size_full c e = ground arith

-- What one write does to the fields and to the number of items.
put_override_fields :
    {c : CircularBuf} (x : ℕ)
    → IsValid c
    → let c' = put_override c x in
      (c'.buffer ≡ set c.buffer c.head x)
      × (c'.capacity ≡ c.capacity)
      × (c'.tail ≡ (if c.full then next c.capacity c.tail else c.tail))
      × (size c' ≡ (if c.full then c.capacity else suc (size c)))
unfolding put_override size
put_override_fields {c} x v = ground (
  arith,
  v.full_meets,
  next_index-eq-next c.tail c.capacity,
  next_index-eq-next c.head c.capacity,
)

contents-put_override_room :
    {c : CircularBuf} (x : ℕ)
    → IsValid c
    → c.full ≡ false
    → contents (put_override c x) ≡ contents c ++ x ∷ []
contents-put_override_room {c} x v e =
    let (b, k, t, n) = put_override_fields x v in
    let (p, q) = head_behind v e in
    ground (
      arith,
      b,
      k,
      t,
      n,
      items-set c.buffer c.capacity x (size c) c.tail c.head v.storage v.tail_in p q,
    )

contents-put_override_full :
    {c : CircularBuf} (x : ℕ)
    → IsValid c
    → c.full ≡ true
    → contents (put_override c x) ≡ Queue.oldest_dropped (contents c) ++ x ∷ []
contents-put_override_full {c} x v e =
    let (b, k, t, n) = put_override_fields x v in
    let written =
      items-set c.buffer c.capacity x (c.capacity - 1) (next c.capacity c.tail) c.head v.storage
        (ground arith) (ground arith) (ground (arith, v.full_meets e)) in
    ground (
      arith,
      b,
      k,
      t,
      n,
      size_full c e,
      written,
      items_pos c.buffer c.capacity c.tail c.capacity,
      items_pos (set c.buffer c.head x) c.capacity (next c.capacity c.tail) c.capacity,
    )

-- `circular_buf_put` returns the status of the bounded queue's `put` and leaves the buffer holding
-- its queue: a full buffer refuses and keeps its items, any other takes the item at the end.
pub put_refines :
    {c : CircularBuf} (x : ℕ)
    → IsValid c
    → let (s, c') = put c x in (s, contents c') ≡ Queue.put c.capacity (contents c) x
put_refines {c} x v = elim (Bool-cases c.full) [
  | inl e ↦ ground (arith, put_full c x e, length-contents c, size_full c e)
  | inr e ↦
      ground (
        arith,
        put_room c x e,
        length-contents c,
        head_behind v e,
        contents-put_override_room x v e,
      )
]

-- `circular_buf_put_override` always takes the item, and a full buffer loses its oldest one only.
pub put_override_refines :
    {c : CircularBuf} (x : ℕ)
    → IsValid c
    → contents (put_override c x) ≡ Queue.put_override c.capacity (contents c) x
put_override_refines {c} x v = elim (Bool-cases c.full) [
  | inl e ↦ ground (arith, length-contents c, size_full c e, contents-put_override_full x v e)
  | inr e ↦ ground (arith, length-contents c, head_behind v e, contents-put_override_room x v e)
]

get_fields :
    {c : CircularBuf} (x : ℕ)
    → IsValid c
    → let c' = (get c x false).2 in
      (0 < size c
        → (c'.buffer ≡ c.buffer)
          × (c'.capacity ≡ c.capacity)
          × (c'.tail ≡ next c.capacity c.tail)
          × (size c' ≡ size c - 1))
unfolding get size
get_fields {c} x v = ground (arith, v.full_meets, next_index-eq-next c.tail c.capacity)

get_status :
    {c : CircularBuf} (x : ℕ) (peek : Bool)
    → IsValid c
    → (size c ≡ 0 → get c x peek ≡ (minus_one, 0, c))
      × (0 < size c → ((get c x peek).0 ≡ pos 0) × ((get c x peek).1 ≡ get_or c.buffer c.tail 0))
      × (0 < size c → (get c x true).2 ≡ c)
unfolding get size
get_status {c} x peek v = ground (arith, v.full_meets)

-- `circular_buf_get` returns the status and the item of the queue's `get` (NULL and -1 if there is
-- none) whatever `*data` held before, and takes the item out unless it only peeks.
pub get_refines :
    {c : CircularBuf} (x : ℕ) (peek : Bool)
    → IsValid c
    → let (s, y, c') = get c x peek in (s, y, contents c') ≡ Queue.get (contents c) peek
get_refines {c} x true v =
    ground (arith, get_status x true v, items_pos c.buffer c.capacity c.tail (size c))
get_refines {c} x false v =
    ground
      (arith, get_status x false v, get_fields x v, items_pos c.buffer c.capacity c.tail (size c))

-- A client's calls in order, with the status and the item of each.
unfoldable pub run : CircularBuf → List Op → List (ℤ × ℕ)
run c [] = []
run c (puts x ∷ ops) = let (s, c') = put c x in (s, x) ∷ run c' ops
run c (overrides x ∷ ops) = run (put_override c x) ops
run c (gets x peek ∷ ops) = let (s, y, c') = get c x peek in (s, y) ∷ run c' ops

pub capacity_kept :
    (c : CircularBuf) (x : ℕ) (peek : Bool)
    → ((put c x).1.capacity ≡ c.capacity)
      × ((put_override c x).capacity ≡ c.capacity)
      × ((get c x peek).2.capacity ≡ c.capacity)
unfolding put put_override get
capacity_kept c x peek = ground arith

-- No sequence of calls tells a valid circular buffer from the bounded queue of its contents.
pub run_refines :
    (ops : List Op) {c : CircularBuf}
    → IsValid c
    → run c ops ≡ Queue.run c.capacity (contents c) ops
unfolding run Queue.run
run_refines [] v = refl
run_refines (puts x ∷ ops) {c} v =
    rw (run_refines ops (put-IsValid x v), ← put_refines x v, (capacity_kept c x true).0)
run_refines (overrides x ∷ ops) {c} v = rw (
  run_refines ops (put_override-IsValid x v),
  ← put_override_refines x v,
  (capacity_kept c x true).1,
)
run_refines (gets x peek ∷ ops) {c} v =
    rw (run_refines ops (get-IsValid x peek v), ← get_refines x peek v, (capacity_kept c x peek).2)

numbers :
    {c : CircularBuf}
    → IsValid c
    → (size c ≤ c.capacity)
      × ((is_empty c ≡ true) ↔ (size c ≡ 0))
      × ((is_full c ≡ true) ↔ (size c ≡ c.capacity))
unfolding size is_empty is_full
numbers v = ground (arith, v.full_meets)

-- `circular_buf_size` never exceeds the capacity, and is the number of items that can be got:
-- `circular_buf_empty` holds exactly at none, `circular_buf_full` exactly at the capacity.
pub size_bounds :
    {c : CircularBuf}
    → IsValid c
    → (size c ≤ c.capacity)
      × ((is_empty c ≡ true) ↔ (contents c ≡ []))
      × ((is_full c ≡ true) ↔ (length (contents c) ≡ c.capacity))
size_bounds {c} v = (
  (numbers v).0,
  (
    (λ e. no_items (size c) c.tail ((numbers v).1.0 e)),
    (λ e. (numbers v).1.1 (omega (arith, ap length e, length-contents c))),
  ),
  (
    (λ e. omega (arith, length-contents c, (numbers v).2.0 e)),
    (λ e. (numbers v).2.1 (omega (arith, length-contents c))),
  ),
)
  where
    no_items : (n t : ℕ) → n ≡ 0 → items c.buffer c.capacity t n ≡ []
    no_items zero t e = refl
    no_items (suc n) t e = absurd (omega arith)
