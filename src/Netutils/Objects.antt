-- ===== src/Netutils/Objects.antt =====
-- Which objects of libnl are released.
use opennan.Prelude.{
  ℕ, ◌+◌, ◌≡◌, refl, Bool, true, false, List, [], ◌∷◌, ◌++◌, arith, ◌==◌, if◌then◌else◌,
}
use opennan.Prelude.Int.{ℤ, pos}
use opennan.Utils.{EtherAddr, ether_addr_to_ipv6_addr}
use opennan.Channel.{channel_to_frequency}
use opennan.Netutils.{
  Object, Request, Action, Libnl, acquire, release, request, route_socket, generic_socket,
  neighbour, ip_address, link_address, message, flags, kernel_link, new_link, indeterminate,
  is_negative, is_zero, einval, netutils_init, netutils_cleanup, nlroute_init, neighbor_add,
  neighbor_remove, set_monitor_mode, set_channel, rfc4291_addr,
}

abbrev pub object_code : Object → ℕ
object_code route_socket = 0
object_code generic_socket = 1
object_code neighbour = 2
object_code ip_address = 3
object_code link_address = 4
object_code message = 5
object_code flags = 6
object_code kernel_link = 7
object_code new_link = 8
object_code indeterminate = 9

-- How often an object is acquired, and how often it is released.
abbrev pub acquired : Object → List Action → ℕ
acquired o [] = 0
acquired o (acquire x ∷ done) = (if object_code x == object_code o then 1 else 0) + acquired o done
acquired o (release x ∷ done) = acquired o done
acquired o (request r ∷ done) = acquired o done

abbrev pub released : Object → List Action → ℕ
released o [] = 0
released o (acquire x ∷ done) = released o done
released o (release x ∷ done) = (if object_code x == object_code o then 1 else 0) + released o done
released o (request r ∷ done) = released o done

-- Every object is released as often as it is acquired.
abbrev pub Balanced : List Action → Type 0
Balanced done = (o : Object) → released o done ≡ acquired o done

-- The requests that were made.
abbrev pub requests : List Action → List Request
requests [] = []
requests (acquire x ∷ done) = requests done
requests (release x ∷ done) = requests done
requests (request r ∷ done) = r ∷ requests done

set_monitor_mode-Balanced : (n : Libnl) (ifindex : ℕ) → Balanced (set_monitor_mode n ifindex).1
unfolding set_monitor_mode
set_monitor_mode-Balanced n ifindex o = ground arith

module _ (n : Libnl) where
  set_channel-Balanced :
      (stack : Bool) (ifindex : ℕ) (channel : ℤ)
      → is_zero (channel_to_frequency channel) ≡ false
      → Balanced (set_channel n stack ifindex channel).1
  unfolding set_channel
  set_channel-Balanced stack ifindex channel h o = ground (arith, h)

  neighbor_add-Balanced :
      (ifindex : ℕ) (eth : EtherAddr) (in6 : List ℕ)
      → (neighbor_add n ifindex eth in6).0 ≡ pos 0
      → Balanced (neighbor_add n ifindex eth in6).1
  unfolding neighbor_add
  neighbor_add-Balanced ifindex eth in6 h o = ground (arith, h)

  neighbor_remove-Balanced :
      (ifindex : ℕ) (in6 : List ℕ)
      → (neighbor_remove n ifindex in6).0 ≡ pos 0
      → Balanced (neighbor_remove n ifindex in6).1
  unfolding neighbor_remove
  neighbor_remove-Balanced ifindex in6 h o = ground (arith, h)

  netutils-Balanced :
      (netutils_init n).0 ≡ pos 0 → Balanced ((netutils_init n).1 ++ netutils_cleanup n)
  unfolding netutils_init netutils_cleanup
  netutils-Balanced h o = ground (arith, h)

  -- Every object that is acquired is released, once: by `set_monitor_mode` whatever fails, by
  -- `set_channel` whatever fails for a channel whose frequency is known, by `neighbor_add` and
  -- `neighbor_remove` if they succeed, and by `netutils_init` and `netutils_cleanup` together if
  -- the first succeeds.
  pub calls-Balanced :
      (stack : Bool) (ifindex : ℕ) (channel : ℤ) (eth : EtherAddr) (in6 : List ℕ)
      → (Balanced (set_monitor_mode n ifindex).1)
        × (is_zero (channel_to_frequency channel) ≡ false
            → Balanced (set_channel n stack ifindex channel).1)
        × ((neighbor_add n ifindex eth in6).0 ≡ pos 0 → Balanced (neighbor_add n ifindex eth in6).1)
        × ((neighbor_remove n ifindex in6).0 ≡ pos 0 → Balanced (neighbor_remove n ifindex in6).1)
        × ((netutils_init n).0 ≡ pos 0 → Balanced ((netutils_init n).1 ++ netutils_cleanup n))
  calls-Balanced stack ifindex channel eth in6 = (
    set_monitor_mode-Balanced n ifindex,
    set_channel-Balanced stack ifindex channel,
    neighbor_add-Balanced ifindex eth in6,
    neighbor_remove-Balanced ifindex in6,
    netutils-Balanced,
  )

  -- What is not released: after `neighbor_add` fails, the neighbour, if it was allocated; after
  -- `netutils_init` fails behind its first socket, that socket. And for a channel whose frequency
  -- is not known `set_channel` releases what an uninitialised pointer points to, if that is not
  -- NULL.
  pub errors-leak :
      (ifindex : ℕ) (channel : ℤ) (eth : EtherAddr) (in6 : List ℕ)
      → (n.rtnl_neigh_alloc ≡ true
          → is_negative (neighbor_add n ifindex eth in6).0 ≡ true
          → let done = (neighbor_add n ifindex eth in6).1 in
            (acquired neighbour done ≡ 1) × (released neighbour done ≡ 0))
        × ((nlroute_init n).0 ≡ pos 0
            → is_negative (netutils_init n).0 ≡ true
            → let done = (netutils_init n).1 in
              (acquired route_socket done ≡ 1) × (released route_socket done ≡ 0))
        × (is_zero (channel_to_frequency channel) ≡ true
            → set_channel n true ifindex channel ≡ (einval, release indeterminate ∷ []))
  unfolding neighbor_add netutils_init set_channel
  errors-leak ifindex channel eth in6 = (
    (λ h k. (ground (arith, h, k), ground (arith, h, k))),
    (λ h k. (ground (arith, h, k), ground (arith, h, k))),
    (λ h. ground (arith, h)),
  )

-- The second copy of the algorithm of RFC 4291 gives the same address as that of src/utils.c.
rfc4291_addr-eq : (eth : EtherAddr) → rfc4291_addr eth ≡ ether_addr_to_ipv6_addr eth
unfolding rfc4291_addr ether_addr_to_ipv6_addr
rfc4291_addr-eq eth = refl
