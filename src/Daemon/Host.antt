-- ===== src/Daemon/Host.antt =====
-- `host_device_ready` of daemon/core.c: a frame of the host device.
use opennan.Prelude.{ℕ, Option, none, some, List, get_or, bit_and, ltb, ◌==◌, if◌then◌else◌}
use opennan.Prelude.Int.{ℤ}
use opennan.Utils.{EtherAddr, ether_addr_equal}
use opennan.Wire.Defs.{slice, store, buf_new_owned, buf_resize, read_ether_addr}
use opennan.Peer.{Peer}
use opennan.Peer.Defs.{get}
use opennan.Netutils.{Action, Libnl, is_negative, neighbor_add, neighbor_remove}
use opennan.State.{NanState}
use opennan.Io.{IoState, host_receive, host_send}

pub data HostResult : Type 0 where
  read_failed : ℤ → HostResult
  too_short multicast no_peer : HostResult
  to_self : ℤ × Option (List ℕ) → HostResult
  to_peer : Peer → HostResult

-- ETHER_MAX_LEN
abbrev pub ether_max_len : ℕ
ether_max_len = 1518

abbrev pub address_of : List ℕ → EtherAddr
address_of xs = record {
  octet0 = get_or xs 0 0;
  octet1 = get_or xs 1 0;
  octet2 = get_or xs 2 0;
  octet3 = get_or xs 3 0;
  octet4 = get_or xs 4 0;
  octet5 = get_or xs 5 0;
}

-- The octets that were read, or, where the reader fails, those on the stack.
abbrev pub octets_or : Option (List ℕ) → List ℕ → List ℕ
octets_or none stack = stack
octets_or (some xs) stack = xs

-- What is done with a frame for `destination`; `frame` is the whole of it.
unfoldable pub forward : (List ℕ → ℤ) → IoState → NanState → EtherAddr → List ℕ → HostResult
unfolding ether_addr_equal get host_send
forward write io s destination frame =
    if bit_and destination.octet0 1 == 1
    then multicast
    else if ether_addr_equal s.self_address destination
    then to_self (host_send write io frame)
    else elim (get s.peers.peers destination).1 as (λ o. HostResult) [
      | none ↦ no_peer
      | some peer ↦ to_peer peer
    ]

-- After the frame was read into the new block: the result of that, its length and its octets.
unfoldable pub after_receive :
    List ℕ → List ℕ → (List ℕ → ℤ) → IoState → NanState → ℤ × ℕ × List ℕ → HostResult
unfolding buf_new_owned buf_resize read_ether_addr forward
after_receive memory stack write io s (err, size, stored) =
    let b = buf_new_owned (store memory 0 stored) ether_max_len in
    let resized = buf_resize b b.bytes size in
    let (_, destination, _) = read_ether_addr resized in
    if is_negative err
    then read_failed err
    else if ltb size 6
    then too_short
    else forward write io s (address_of (octets_or destination stack)) (slice resized.bytes 0 size)

-- `memory` is the new block, and `stack` what the address held.
unfoldable pub host_device_ready :
    List ℕ → List ℕ → ℤ × List ℕ → (List ℕ → ℤ) → IoState → NanState → HostResult
unfolding host_receive after_receive
host_device_ready memory stack read write io s =
    after_receive memory stack write io s (host_receive read io ether_max_len)

-- The callbacks of the table of peers: `io` is their additional data.
unfoldable pub nan_neighbor_add : Libnl → IoState → Peer → ℤ × List Action
unfolding neighbor_add
nan_neighbor_add n io peer = neighbor_add n io.host_ifindex peer.addr peer.ipv6_addr

unfoldable pub nan_neighbor_remove : Libnl → IoState → Peer → ℤ × List Action
unfolding neighbor_remove
nan_neighbor_remove n io peer = neighbor_remove n io.host_ifindex peer.ipv6_addr
