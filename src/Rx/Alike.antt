-- ===== src/Rx/Alike.antt =====
-- The attributes of a beacon leave the entry of its sender that of the same block and address.
use opennan.Prelude.{
  ℕ, zero, suc, ◌≡◌, refl, sym, subst, ◌∙◌, Bool, true, false, Option, none, some, List, arith,
  if◌then◌else◌,
}
use opennan.Prelude.Int.{ℤ}
use opennan.LinkedList.{list_find}
use opennan.Wire.{Buf}
use opennan.Wire.Defs.{buf_new_const}
use opennan.Peer.{Peer}
use opennan.Peer.Defs
use opennan.Peer.Lookup.{IsTable, has_addr, written}
use opennan.Rx.Defs.{
  Attribute, beacon_attribute, iterate_attributes, attribute_read_next,
  parse_master_indication_attribute, parse_cluster_attribute,
}

-- Both are the entry of one block and one address.
abbrev pub Alike : Peer → Peer → Type 0
Alike p q = (q.ref ≡ p.ref) × (q.addr ≡ p.addr)

-- A table in which `p` is the peer of its address.
abbrev pub Holds : Peer → List Peer → Type 0
Holds p xs = IsTable xs × (list_find (has_addr p.addr) xs ≡ some p)

pub Holds-write_back :
    (p q : Peer) (xs : List Peer) → Holds p xs → Alike p q → Holds q (Defs.write_back q xs)
Holds-write_back p q xs (t, e) (r, a) =
    let w = written p q r a xs t e in
    (w.table, subst (λ b. list_find (has_addr b) (Defs.write_back q xs) ≡ some q) (sym a) w.found)

pub beacon_attribute-Alike :
    (attribute : Attribute) (b : Buf) (p : Peer) → Alike p (beacon_attribute attribute b p).1
unfolding beacon_attribute parse_master_indication_attribute parse_cluster_attribute
    Defs.set_master_indication Defs.set_anchor_master_information
beacon_attribute-Alike attribute b p = ground arith

-- What is left of the peer at the end of the loop, if it ends.
abbrev pub AlikeAfter : Peer → Option (ℤ × Peer × Buf) → Type 0
AlikeAfter p none = Unit {0}
AlikeAfter p (some (result, q, frame)) = Alike p q

AlikeAfter-trans :
    (p q : Peer) (o : Option (ℤ × Peer × Buf)) → Alike p q → AlikeAfter q o → AlikeAfter p o
AlikeAfter-trans p q none h k = tt
AlikeAfter-trans p q (some (result, x, frame)) h k = (k.0 ∙ h.0, k.1 ∙ h.1)

-- One round: the end of the loop in the middle or behind the frame, or the rest.
round-Alike :
    (p q : Peer) (c d : Bool) (result end_result : ℤ) (frame : Buf) (rest : Option (ℤ × Peer × Buf))
    → Alike p q
    → AlikeAfter q rest
    → AlikeAfter p
        (if c then if d then some (result, q, frame) else rest else some (end_result, p, frame))
round-Alike p q true true result end_result frame rest h k = h
round-Alike p q true false result end_result frame rest h k = AlikeAfter-trans p q rest h k
round-Alike p q false d result end_result frame rest h k = (refl, refl)

pub iterate_attributes-Alike :
    (handle : Attribute → Buf → Peer → ℤ × Peer)
    → ((attribute : Attribute) (b : Buf) (p : Peer) → Alike p (handle attribute b p).1)
    → (fuel : ℕ) (frame : Buf) (last : Attribute) (result : ℤ) (p : Peer)
    → AlikeAfter p (iterate_attributes handle fuel frame last result p)
unfolding iterate_attributes
iterate_attributes-Alike handle alike zero frame last result p = tt
iterate_attributes-Alike handle alike (suc fuel) frame last result p =
    let (length, attribute, frame') = attribute_read_next frame last in
    let octets = buf_new_const attribute.data_bytes attribute.length in
    let handled = handle attribute octets p in
    round-Alike p _ _ _ _ _ _ _ (alike attribute octets p)
      (iterate_attributes-Alike handle alike fuel frame' attribute handled.0 handled.1)
