-- ===== src/Netutils.antt =====
-- The requests to the Linux kernel of daemon/netutils.c. libnl is a parameter: what its calls
-- return. A function gives what it returns, and in order the objects that it acquires and releases
-- and the requests that it makes.
pub mod Objects
pub mod Sample
mod Tests
use opennan.Prelude.{
  ℕ, ◌+◌, Bool, true, false, not, Option, none, some, List, [], ◌∷◌, ◌++◌, set, replicate, bit_xor,
  ◌==◌, if◌then◌else◌,
}
use opennan.Prelude.Int.{ℤ, pos, negsuc, pos_part, neg_part, ltb_ℤ}
use opennan.Utils.{EtherAddr}
use opennan.Channel.{channel_to_frequency}

pub data Object : Type 0 where
  route_socket generic_socket neighbour ip_address link_address message flags : Object
  kernel_link new_link : Object
  indeterminate : Object

pub data Request : Type 0 where
  add_neighbour : ℕ → EtherAddr → List ℕ → Request
  remove_neighbour : ℕ → List ℕ → Request
  monitor_mode : ℕ → Request
  tune : ℕ → ℤ → Request
  change_link : ℕ → Bool → Request

pub data Action : Type 0 where
  acquire release : Object → Action
  request : Request → Action

-- What a link is looked up for: a change, or its address.
pub data Lookup : Type 0 where
  for_change : Bool → Lookup
  for_address : Lookup

-- What libnl returns, to each of the calls. A `Bool` tells whether a pointer is not NULL, or
-- whether an attribute fits.
pub record Libnl : Type 0 where
  pub nl_socket_alloc : Object → Bool
  pub nl_connect : ℤ
  pub genl_connect : ℤ
  pub genl_ctrl_resolve : ℤ
  pub rtnl_neigh_alloc : Bool
  pub nl_addr_build : Object → Bool
  pub nlmsg_alloc : Request → Object → Bool
  pub genlmsg_put : Request → Bool
  pub nla_put : Request → Object → Bool
  pub send : Request → ℤ
  pub nl_recvmsgs : Request → ℤ
  pub rtnl_link_get_kernel : Lookup → ℤ
  pub link_addr : EtherAddr

abbrev pub is_negative : ℤ → Bool
is_negative z = ltb_ℤ z (pos 0)

abbrev pub is_zero : ℤ → Bool
is_zero z = pos_part z + neg_part z == 0

-- The negated numbers of the errors.
abbrev pub enoent : ℤ
enoent = negsuc 1

abbrev pub enomem : ℤ
enomem = negsuc 11

abbrev pub einval : ℤ
einval = negsuc 21

abbrev pub enolink : ℤ
enolink = negsuc 66

abbrev pub enobufs : ℤ
enobufs = negsuc 104

module _ (n : Libnl) where
  unfoldable pub nlroute_init : ℤ × List Action
  nlroute_init =
      if not (n.nl_socket_alloc route_socket)
      then (enomem, [])
      else if not (is_zero n.nl_connect)
      then (enolink, acquire route_socket ∷ release route_socket ∷ [])
      else (pos 0, acquire route_socket ∷ [])

  unfoldable pub nl80211_init : ℤ × List Action
  nl80211_init =
      if not (n.nl_socket_alloc generic_socket)
      then (enomem, [])
      else if not (is_zero n.genl_connect)
      then (enolink, acquire generic_socket ∷ release generic_socket ∷ [])
      else if is_negative n.genl_ctrl_resolve
      then (enoent, acquire generic_socket ∷ release generic_socket ∷ [])
      else (pos 0, acquire generic_socket ∷ [])

  unfoldable pub netutils_init : ℤ × List Action
  unfolding nlroute_init nl80211_init
  netutils_init =
      let (err1, done1) = nlroute_init in
      let (err2, done2) = nl80211_init in
      if is_negative err1
      then (err1, done1)
      else if is_negative err2
      then (err2, done1 ++ done2)
      else (pos 0, done1 ++ done2)

  unfoldable pub netutils_cleanup : List Action
  netutils_cleanup = release route_socket ∷ release generic_socket ∷ []

  unfoldable pub neighbor_add : ℕ → EtherAddr → List ℕ → ℤ × List Action
  neighbor_add ifindex eth in6 =
      let asked = add_neighbour ifindex eth in6 in
      let made =
        acquire neighbour ∷ acquire ip_address ∷ acquire link_address ∷ request asked ∷ [] in
      if not n.rtnl_neigh_alloc
      then (enomem, [])
      else if not (n.nl_addr_build ip_address)
      then (enomem, acquire neighbour ∷ [])
      else if not (n.nl_addr_build link_address)
      then (enomem, acquire neighbour ∷ acquire ip_address ∷ [])
      else if is_negative (n.send asked)
      then (n.send asked, made)
      else (pos 0, made ++ release neighbour ∷ release ip_address ∷ release link_address ∷ [])

  unfoldable pub neighbor_remove : ℕ → List ℕ → ℤ × List Action
  neighbor_remove ifindex in6 =
      let asked = remove_neighbour ifindex in6 in
      let made = acquire neighbour ∷ acquire ip_address ∷ request asked ∷ [] in
      if not n.rtnl_neigh_alloc
      then (enomem, [])
      else if not (n.nl_addr_build ip_address)
      then (enomem, acquire neighbour ∷ [])
      else if is_negative (n.send asked)
      then (n.send asked, made)
      else (pos 0, made ++ release neighbour ∷ release ip_address ∷ [])

  -- The errors go to `nla_put_failure` or `out`, which frees what is not NULL.
  unfoldable pub set_monitor_mode : ℕ → ℤ × List Action
  set_monitor_mode ifindex =
      let asked = monitor_mode ifindex in
      let err = if is_negative (n.send asked) then n.send asked else n.nl_recvmsgs asked in
      if not (n.nlmsg_alloc asked message)
      then (enomem, [])
      else if not (n.nla_put asked message)
      then (enobufs, acquire message ∷ release message ∷ [])
      else if not (n.nlmsg_alloc asked flags)
      then (enomem, acquire message ∷ release message ∷ [])
      else if not (n.nla_put asked flags)
      then (enobufs, acquire message ∷ acquire flags ∷ release message ∷ release flags ∷ [])
      else (
        err,
        acquire message ∷ acquire flags ∷ release flags ∷ request asked ∷ release message ∷ [],
      )

  -- `stack` tells whether the pointer `m`, which is not initialised, is not NULL.
  unfoldable pub set_channel : Bool → ℕ → ℤ → ℤ × List Action
  unfolding channel_to_frequency
  set_channel stack ifindex channel =
      let freq = channel_to_frequency channel in
      let asked = tune ifindex freq in
      let err = if is_negative (n.send asked) then n.send asked else n.nl_recvmsgs asked in
      if is_zero freq
      then (einval, if stack then release indeterminate ∷ [] else [])
      else if not (n.nlmsg_alloc asked message)
      then (enomem, [])
      else if not (n.genlmsg_put asked)
      then (enobufs, acquire message ∷ release message ∷ [])
      else if not (n.nla_put asked message)
      then (enobufs, acquire message ∷ release message ∷ [])
      else (err, acquire message ∷ request asked ∷ release message ∷ [])

  -- The result of `rtnl_link_change` is not looked at.
  unfoldable pub link_updown : ℕ → Bool → ℤ × List Action
  link_updown ifindex up =
      if is_negative (n.rtnl_link_get_kernel (for_change up))
      then (n.rtnl_link_get_kernel (for_change up), [])
      else (
        pos 0,
        acquire kernel_link
            ∷ acquire new_link
            ∷ request (change_link ifindex up)
            ∷ release kernel_link
            ∷ [],
      )

  unfoldable pub link_ether_addr_get : EtherAddr → ℤ × EtherAddr × List Action
  link_ether_addr_get addr =
      if is_negative (n.rtnl_link_get_kernel for_address)
      then (n.rtnl_link_get_kernel for_address, addr, [])
      else (pos 0, n.link_addr, acquire kernel_link ∷ [])

-- The address is set octet by octet after a `memset`.
unfoldable pub rfc4291_addr : EtherAddr → List ℕ
rfc4291_addr eth =
    let in0 = set (set (replicate 16 0) 0 0xfe) 1 0x80 in
    let in1 = set (set (set in0 8 (bit_xor eth.octet0 0x02)) 9 eth.octet1) 10 eth.octet2 in
    let in2 = set (set in1 11 0xff) 12 0xfe in
    set (set (set in2 13 eth.octet3) 14 eth.octet4) 15 eth.octet5

unfoldable pub neighbor_add_rfc4291 : Libnl → ℕ → EtherAddr → ℤ × List Action
unfolding neighbor_add rfc4291_addr
neighbor_add_rfc4291 n ifindex addr = neighbor_add n ifindex addr (rfc4291_addr addr)

unfoldable pub neighbor_remove_rfc4291 : Libnl → ℕ → EtherAddr → ℤ × List Action
unfolding neighbor_remove rfc4291_addr
neighbor_remove_rfc4291 n ifindex addr = neighbor_remove n ifindex (rfc4291_addr addr)
