-- ===== src/Daemon/HostFrames.antt =====
-- Which frames of the host device come back to it.
use opennan.Prelude.{
  ℕ, ◌≤◌, ◌≡◌, ◌≢◌, refl, ap, ap₂, ◌∙◌, true, false, Option, none, some, List, length, bit_and, ltb,
  arith, ◌==◌, Bool-cases, inl, inr,
}
use opennan.Prelude.Int.{ℤ, pos}
use opennan.Utils.{EtherAddr, ether_addr_equal}
use opennan.Utils.Addresses.{ether_addr_equal_iff}
use opennan.Wire.Defs.{too_short}
use opennan.Wire.RoundTrip.{slice-store}
use opennan.Wire.Stored.{slice-store_inside}
use opennan.Peer.{Peer}
use opennan.Peer.Defs.{get}
use opennan.Netutils.{is_zero}
use opennan.State.{NanState}
use opennan.Io.{IoState, host_receive, host_send}
use opennan.Daemon.Host.{
  HostResult, multicast, to_self, to_peer, no_peer, address_of, ether_max_len, forward,
  after_receive, host_device_ready,
}

received :
    (n : ℕ) (xs : List ℕ) (io : IoState)
    → is_zero io.host_fd ≡ false
    → host_receive (pos n, xs) io ether_max_len ≡ (pos 0, n, xs)
unfolding host_receive
received n xs io h = ground (arith, h)

-- What was read goes on whole, by the address in its first octets.
after_receive-forward :
    (memory stack xs : List ℕ) (write : List ℕ → ℤ) (io : IoState) (s : NanState)
    → 6 ≤ length xs
    → length xs ≤ 1518
    → 1518 ≤ length memory
    → after_receive memory stack write io s (pos 0, length xs, xs)
      ≡ forward write io s (address_of xs) xs
unfolding after_receive too_short
after_receive-forward memory stack xs write io s long short room =
    let enough : ltb (length xs) 6 ≡ false = ground (arith, long) in
    let first = slice-store_inside memory 0 0 0 6 xs refl (omega arith) long in
    let whole = slice-store memory 0 xs (omega arith) in
    rw enough (ap₂ (forward write io s) (ap address_of first) whole)

-- What becomes of a peer that was looked up.
abbrev pub by_peer : Option Peer → HostResult
by_peer none = no_peer
by_peer (some peer) = to_peer peer

different : (a b : EtherAddr) → a ≢ b → ether_addr_equal a b ≡ false
different a b h = elim (Bool-cases (ether_addr_equal a b)) [
  | inl e ↦ absurd (h ((ether_addr_equal_iff a b).0 e))
  | inr e ↦ e
]

forward_lem :
    (write : List ℕ → ℤ) (io : IoState) (s : NanState) (a : EtherAddr) (frame : List ℕ)
    → ((bit_and a.octet0 1 == 1) ≡ true → forward write io s a frame ≡ multicast)
      × ((bit_and a.octet0 1 == 1) ≡ false
          → s.self_address ≡ a
          → forward write io s a frame ≡ to_self (host_send write io frame))
      × ((bit_and a.octet0 1 == 1) ≡ false
          → s.self_address ≢ a
          → forward write io s a frame ≡ by_peer (get s.peers.peers a).1)
unfolding forward
forward_lem write io s a frame = (
  (λ m. rw m refl),
  (λ m e. rw (m, (ether_addr_equal_iff s.self_address a).1 e) refl),
  (λ m e. rw (m, different s.self_address a e) (found (get s.peers.peers a).1)),
)
  where
    found :
        (o : Option Peer)
        → (elim o as (λ o. HostResult) [ none ↦ no_peer | some peer ↦ to_peer peer ]) ≡ by_peer o
    found none = refl
    found (some peer) = refl

-- A frame of 6 to 1518 octets that is read from an open host device, by the address in its first
-- six octets: a multicast is dropped; any other for our own address is written back to the host
-- device, whole and unchanged; and any other goes no further, whether the table has a peer with its
-- address or not.
pub host_device_ready_lem :
    (memory stack xs : List ℕ) (write : List ℕ → ℤ) (io : IoState) (s : NanState)
    → is_zero io.host_fd ≡ false
    → 6 ≤ length xs
    → length xs ≤ 1518
    → 1518 ≤ length memory
    → let a = address_of xs in
      let result = host_device_ready memory stack (pos (length xs), xs) write io s in
      ((bit_and a.octet0 1 == 1) ≡ true → result ≡ multicast)
      × ((bit_and a.octet0 1 == 1) ≡ false
          → s.self_address ≡ a
          → result ≡ to_self (host_send write io xs))
      × ((bit_and a.octet0 1 == 1) ≡ false
          → s.self_address ≢ a
          → result ≡ by_peer (get s.peers.peers a).1)
unfolding host_device_ready
host_device_ready_lem memory stack xs write io s open_fd long short room =
    let a = address_of xs in
    let (to_all, to_us, to_other) = forward_lem write io s a xs in
    let whole =
      ap (after_receive memory stack write io s) (received (length xs) xs io open_fd)
      ∙ after_receive-forward memory stack xs write io s long short room in
    ((λ m. whole ∙ to_all m), (λ m e. whole ∙ to_us m e), (λ m e. whole ∙ to_other m e))
