-- ===== src/Utils/Addresses.antt =====
-- Comparison of addresses.
use opennan.Prelude.{ℕ, ◌≡◌, refl, ◌↔◌, true, arith}
use opennan.Prelude.Int.{ℤ, pos, pos_part, neg_part}
use opennan.Utils.{EtherAddr, ether_addr_equal, compare_ether_addr, octet_or}

-- `ether_addr_equal` decides equality of addresses.
pub ether_addr_equal_iff : (a b : EtherAddr) → (ether_addr_equal a b ≡ true) ↔ (a ≡ b)
unfolding ether_addr_equal
ether_addr_equal_iff a b = ground arith

octet_or-zero : (a b : ℕ) (r : ℤ) → (octet_or a b r ≡ pos 0) ↔ ((a ≡ b) × (r ≡ pos 0))
unfolding octet_or
octet_or-zero a b r = ground arith

octet_or_swap :
    (a b : ℕ) (r t : ℤ)
    → pos_part r ≡ neg_part t
    → pos_part (octet_or a b r) ≡ neg_part (octet_or b a t)
unfolding octet_or
octet_or_swap a b r t h = ground arith

compare_ether_addr-zero :
    (a b : EtherAddr) → (compare_ether_addr a b ≡ pos 0) ↔ (ether_addr_equal a b ≡ true)
unfolding compare_ether_addr ether_addr_equal
compare_ether_addr-zero a b = grind (arith, octet_or-zero)

-- `compare_ether_addr` is 0 exactly on addresses that `ether_addr_equal` calls equal, and it is
-- positive exactly where the comparison of the swapped addresses is negative, by the same amount.
pub compare_ether_addr_lem :
    (a b : EtherAddr)
    → ((compare_ether_addr a b ≡ pos 0) ↔ (ether_addr_equal a b ≡ true))
      × (pos_part (compare_ether_addr a b) ≡ neg_part (compare_ether_addr b a))
unfolding compare_ether_addr
compare_ether_addr_lem a b = (
  compare_ether_addr-zero a b,
  octet_or_swap _ _ _ _ (
      octet_or_swap _ _ _ _ (
        octet_or_swap _ _ _ _ (
          octet_or_swap _ _ _ _
            (octet_or_swap _ _ _ _ (octet_or_swap a.octet5 b.octet5 (pos 0) (pos 0) refl))))),
)
