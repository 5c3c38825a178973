-- ===== src/Utils.antt =====
-- The helpers of src/utils.c: addresses, identifiers, random numbers.
pub mod Addresses
pub mod Numbers
mod Tests
use opennan.Prelude.{
  ℕ, ◌+◌, ◌-◌, ◌*◌, ◌/◌, ◌%◌, ◌≡◌, Bool, ◌&&◌, List, [], ◌∷◌, ◌++◌, Option, none, some, bit_xor,
  ltb, ◌==◌, if◌then◌else◌,
}
use opennan.Prelude.Int.{ℤ, pos, sub_ℕ, u8, u16, u32}

-- `struct ether_addr`, its six octets in order.
pub record EtherAddr : Type 0 where
  pub octet0 : ℕ
  pub octet1 : ℕ
  pub octet2 : ℕ
  pub octet3 : ℕ
  pub octet4 : ℕ
  pub octet5 : ℕ

unfoldable pub ether_addr_equal : EtherAddr → EtherAddr → Bool
ether_addr_equal a b =
    a.octet0 == b.octet0
    && a.octet1 == b.octet1
    && a.octet2 == b.octet2
    && a.octet3 == b.octet3
    && a.octet4 == b.octet4
    && a.octet5 == b.octet5

-- One round of the loop of `compare_ether_addr`.
pub octet_or : ℕ → ℕ → ℤ → ℤ
octet_or a b rest = if a == b then rest else sub_ℕ a b

-- The difference of the first octets that differ.
pub compare_ether_addr : EtherAddr → EtherAddr → ℤ
compare_ether_addr a b = octet_or a.octet0 b.octet0 (
    octet_or a.octet1 b.octet1 (
      octet_or a.octet2 b.octet2 (
        octet_or a.octet3 b.octet3
          (octet_or a.octet4 b.octet4 (octet_or a.octet5 b.octet5 (pos 0))))))

-- The 16 bytes of the link-local address.
unfoldable pub ether_addr_to_ipv6_addr : EtherAddr → List ℕ
ether_addr_to_ipv6_addr a =
    0xfe
    ∷ 0x80
    ∷ 0
    ∷ 0
    ∷ 0
    ∷ 0
    ∷ 0
    ∷ 0
    ∷ bit_xor a.octet0 0x02
    ∷ a.octet1
    ∷ a.octet2
    ∷ 0xff
    ∷ 0xfe
    ∷ a.octet3
    ∷ a.octet4
    ∷ a.octet5
    ∷ []

-- `%.2x` of an octet.
abbrev pub hex_digit : ℕ → ℕ
hex_digit d = if ltb d 10 then b'0' + d else b'a' + (d - 10)

abbrev pub hex_octet : ℕ → List ℕ
hex_octet x = hex_digit (x / 16) ∷ hex_digit (x % 16) ∷ []

-- The string that one of the two static buffers holds after the call.
unfoldable pub ether_addr_to_string : EtherAddr → List ℕ
ether_addr_to_string a =
    hex_octet a.octet0
    ++ b':' ∷ hex_octet a.octet1
    ++ b':' ∷ hex_octet a.octet2
    ++ b':' ∷ hex_octet a.octet3
    ++ b':' ∷ hex_octet a.octet4
    ++ b':' ∷ hex_octet a.octet5

-- `struct oui`.
pub record Oui : Type 0 where
  pub byte0 : ℕ
  pub byte1 : ℕ
  pub byte2 : ℕ

unfoldable pub oui_equal : Oui → Oui → Bool
oui_equal a b = a.byte0 == b.byte0 && a.byte1 == b.byte1 && a.byte2 == b.byte2

-- The new id, which is also what `*last_id` becomes.
unfoldable pub increase_non_zero_id : ℕ → ℕ
increase_non_zero_id last_id =
    let next = u8 (last_id + 1) in if next == 0 then u8 (next + 1) else next

-- The values that `rand()` returns in turn are a list, and `rand_max` is RAND_MAX. `none`: every
-- value of the list was thrown away.
unfoldable pub get_rand_num : ℕ → List ℕ → ℕ → ℕ → Option ℕ
get_rand_num rand_max [] min max = none
get_rand_num rand_max (r ∷ draws) min max =
    let range = u16 (max - min + 1) in
    let chunk_size = rand_max / range in
    let end_of_last_chunk = u32 (chunk_size * range) in
    if ltb r end_of_last_chunk
    then some (u8 (min + r / chunk_size))
    else get_rand_num rand_max draws min max
