-- ===== src/Sync/Rank.antt =====
-- The master rank as a number and as the union of its parts.
use opennan.Prelude.{ℕ, ◌+◌, ◌*◌, ◌%◌, ◌^◌, ◌<◌, ◌≡◌, ◌↔◌, ◌⊎◌, true, arith}
use opennan.Utils.{EtherAddr}
use opennan.Utils.Addresses.{ether_addr_equal_iff}
use opennan.Sync.Defs.{
  calculate_master_rank, get_address_from_master_rank, is_same_master_rank_issuer,
}

-- Each part of the address is an octet.
pub record IsAddress (a : EtherAddr) : Type 0 where
  pub small0 : a.octet0 < 2 ^ 8
  pub small1 : a.octet1 < 2 ^ 8
  pub small2 : a.octet2 < 2 ^ 8
  pub small3 : a.octet3 < 2 ^ 8
  pub small4 : a.octet4 < 2 ^ 8
  pub small5 : a.octet5 < 2 ^ 8

-- The address as a number, octet 5 the most significant.
abbrev pub address_value : EtherAddr → ℕ
address_value a =
    a.octet0
    + a.octet1 * 2 ^ 8
    + a.octet2 * 2 ^ 16
    + a.octet3 * 2 ^ 24
    + a.octet4 * 2 ^ 32
    + a.octet5 * 2 ^ 40

address_value-lt : (a : EtherAddr) → IsAddress a → address_value a < 2 ^ 48
address_value-lt a h = omega arith

-- Reading the address out of a calculated master rank gives the address that went in, and the rank
-- fits in 64 bits.
pub get_address-calculate :
    (mp rf : ℕ) (a : EtherAddr)
    → IsAddress a
    → mp < 2 ^ 8
    → rf < 2 ^ 8
    → (get_address_from_master_rank (calculate_master_rank mp rf a) ≡ a)
      × (calculate_master_rank mp rf a < 2 ^ 64)
unfolding get_address_from_master_rank calculate_master_rank
get_address-calculate mp rf a h p q = (ground arith, omega arith)

-- Of two master ranks the one with the higher preference is higher; at equal preference, the one
-- with the higher random factor; then the address decides, from its last octet down.
pub calculate_master_rank-lt :
    (mp rf mp' rf' : ℕ) (a b : EtherAddr)
    → IsAddress a
    → IsAddress b
    → rf < 2 ^ 8
    → rf' < 2 ^ 8
    → (calculate_master_rank mp rf a < calculate_master_rank mp' rf' b)
      ↔ ((mp < mp') ⊎ (mp ≡ mp') × ((rf < rf') ⊎ (rf ≡ rf') × (address_value a < address_value b)))
unfolding calculate_master_rank
calculate_master_rank-lt mp rf mp' rf' a b h k p q =
    grind (arith, address_value-lt a h, address_value-lt b k)

low_bits :
    (x y : ℕ)
    → (get_address_from_master_rank x ≡ get_address_from_master_rank y) ↔ (x % 2 ^ 48 ≡ y % 2 ^ 48)
unfolding get_address_from_master_rank
low_bits x y = ground arith

-- Two ranks have the same issuer exactly if their low 48 bits agree.
pub is_same_issuer_iff :
    (x y : ℕ) → (is_same_master_rank_issuer x y ≡ true) ↔ (x % 2 ^ 48 ≡ y % 2 ^ 48)
unfolding is_same_master_rank_issuer
is_same_issuer_iff x y =
    let e =
      ether_addr_equal_iff (get_address_from_master_rank x) (get_address_from_master_rank y) in
    ((λ h. (low_bits x y).0 (e.0 h)), (λ h. e.1 ((low_bits x y).1 h)))
