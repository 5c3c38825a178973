-- ===== src/Io.antt =====
-- The devices of daemon/io.c: how they are set up, and what is sent and received. pcap, the system
-- calls and libnl are parameters: what they return.
pub mod Steps
pub mod Setup
pub mod Sample
mod Tests
use opennan.Prelude.{
  ℕ, Bool, true, false, not, ◌||◌, Option, none, some, List, [], ◌∷◌, ◌++◌, length, ◌==◌,
  if◌then◌else◌,
}
use opennan.Prelude.Int.{ℤ, pos, negsuc, minus_one, pos_part, ltb_ℤ}
use opennan.Utils.{EtherAddr}
use opennan.Netutils.{
  Action, Libnl, is_negative, is_zero, enoent, einval, link_updown, set_monitor_mode, set_channel,
  link_ether_addr_get,
}

-- `struct io_state`; `wlan_handle` is 0 for NULL.
pub record IoState : Type 0 where
  pub wlan_handle : ℕ
  pub wlan_ifname : List ℕ
  pub wlan_ifindex : ℕ
  pub wlan_fd : ℤ
  pub if_ether_addr : EtherAddr
  pub host_ifname : List ℕ
  pub host_ifindex : ℕ
  pub host_fd : ℤ
  pub no_monitor : Bool
  pub no_channel : Bool
  pub no_updown : Bool

-- What pcap returns when a device is opened: the handle, 0 for NULL, and the numbers of the calls
-- on it. `pcap_set_filter` is the first negative number of `pcap_compile` and `pcap_setfilter`, if
-- any.
pub record Pcap : Type 0 where
  pub pcap_create : List ℕ → ℕ
  pub pcap_activate : ℕ → ℤ
  pub pcap_setnonblock : ℕ → ℤ
  pub pcap_datalink_is_radiotap : ℕ → Bool
  pub pcap_set_filter : ℕ → EtherAddr → ℤ
  pub pcap_get_selectable_fd : ℕ → ℤ

pub record System : Type 0 where
  pub libnl : Libnl
  pub pcap : Pcap
  pub if_nametoindex : List ℕ → ℕ
  -- The file descriptor of the tap device, and its name.
  pub open_tun : List ℕ → EtherAddr → ℤ × List ℕ

-- A device that is open, with its descriptor, or the error.
unfoldable pub open_nonblocking_device : Pcap → List ℕ → Option EtherAddr → ℤ × Option ℕ
open_nonblocking_device c dev bssid_filter =
    let handle = c.pcap_create dev in
    let filtered = elim bssid_filter as (λ o. Bool) [
      | none ↦ true
      | some a ↦ not (is_negative (c.pcap_set_filter handle a))
    ] in
    let fd = c.pcap_get_selectable_fd handle in
    if handle == 0
    then (minus_one, none)
    else if is_negative (c.pcap_activate handle)
    then (minus_one, none)
    else if is_negative (c.pcap_setnonblock handle)
    then (minus_one, none)
    else if not (c.pcap_datalink_is_radiotap handle)
    then (minus_one, none)
    else if not filtered
    then (minus_one, none)
    else if is_negative fd
    then (minus_one, none)
    else (fd, some handle)

-- A step of the setup: a value, or an error; and what was done on the way.
pub data Attempt {ℓ} (A : Type ℓ) : Type ℓ where
  ok : A → List Action → Attempt A
  err : ℤ → List Action → Attempt A

abbrev pub behind {ℓ} : {A : Type ℓ} → List Action → Attempt A → Attempt A
behind before (ok a done) = ok a (before ++ done)
behind before (err code done) = err code (before ++ done)

infixl 5 ◌>>=◌ ◌>>◌
abbrev pub ◌>>=◌ {ℓ κ} : {A : Type ℓ} {B : Type κ} → Attempt A → (A → Attempt B) → Attempt B
ok a done >>= f = behind done (f a)
err code done >>= f = err code done

abbrev pub ◌>>◌ {ℓ} : {B : Type ℓ} → Attempt (Unit {0}) → Attempt B → Attempt B
m >> k = m >>= λ _. k

-- A call of netutils.c whose negative result, or whose result other than 0, ends the setup.
abbrev pub unless_negative : ℤ × List Action → Attempt (Unit {0})
unless_negative (result, done) = if is_negative result then err minus_one done else ok tt done

abbrev pub unless_set : ℤ × List Action → Attempt (Unit {0})
unless_set (result, done) = if is_zero result then ok tt done else err minus_one done

abbrev pub skip_if : Bool → Attempt (Unit {0}) → Attempt (Unit {0})
skip_if skip step = if skip then ok tt [] else step

-- `nametoindex` of a device that has to be there.
abbrev pub index_of : System → List ℕ → Attempt ℕ
index_of s name =
    if s.if_nametoindex name == 0 then err enoent [] else ok (s.if_nametoindex name) []

-- Opening the device, and its address.
abbrev pub open_wlan : System → IoState → Option EtherAddr → Attempt IoState
open_wlan s state bssid_filter =
    let (fd, handle) = open_nonblocking_device s.pcap state.wlan_ifname bssid_filter in
    let (result, address, done) = link_ether_addr_get s.libnl state.if_ether_addr in
    elim handle as (λ o. Attempt IoState) [
      | none ↦ err minus_one []
      | some h ↦
          if is_negative result
          then err minus_one done
          else ok (record state { wlan_handle = h; wlan_fd = fd; if_ether_addr = address }) done
    ]

-- The setup of a device with an index. After an error the state is not used again. `stack` is as in
-- `set_channel`.
unfoldable pub init_device :
    System → Bool → IoState → List ℕ → ℤ → Option EtherAddr → ℕ → Attempt IoState
unfolding link_updown set_monitor_mode set_channel open_nonblocking_device link_ether_addr_get
init_device s stack state wlan channel bssid_filter index = do
  skip_if state.no_updown (unless_negative (link_updown s.libnl index false))
  skip_if state.no_monitor (unless_negative (set_monitor_mode s.libnl index))
  skip_if state.no_updown (unless_negative (link_updown s.libnl index true))
  skip_if state.no_channel (unless_set (set_channel s.libnl stack index channel))
  open_wlan s (record state { wlan_ifname = wlan; wlan_ifindex = index }) bssid_filter

unfoldable pub io_state_init_wlan :
    System → Bool → IoState → List ℕ → ℤ → Option EtherAddr → Attempt IoState
unfolding init_device
io_state_init_wlan s stack state wlan channel bssid_filter =
    index_of s wlan >>= init_device s stack state wlan channel bssid_filter

unfoldable pub io_state_init_host : System → IoState → List ℕ → Attempt IoState
io_state_init_host s state [] = ok state []
io_state_init_host s state (x ∷ host) =
    let (fd, name) = s.open_tun (x ∷ host) state.if_ether_addr in
    if is_negative fd then err fd [] else do
      index ← index_of s name
      ok (record state { host_ifname = name; host_fd = fd; host_ifindex = index }) []

unfoldable pub io_state_init :
    System → Bool → IoState → List ℕ → List ℕ → ℤ → Option EtherAddr → Attempt IoState
unfolding io_state_init_wlan io_state_init_host
io_state_init s stack state wlan host channel bssid_filter = do
  ready ← io_state_init_wlan s stack state wlan channel bssid_filter
  io_state_init_host s ready host

-- `inject` is what `pcap_inject` returns.
unfoldable pub wlan_send : (List ℕ → ℤ) → IoState → List ℕ → ℤ
wlan_send inject state buffer = if state.wlan_handle == 0 then einval else inject buffer

-- `write` is what the system call returns, or the negated `errno`; the second component is what was
-- written.
unfoldable pub host_send : (List ℕ → ℤ) → IoState → List ℕ → ℤ × Option (List ℕ)
host_send write state buffer =
    if is_zero state.host_fd
    then (einval, none)
    else if is_negative (write buffer)
    then (write buffer, none)
    else (pos 0, some buffer)

-- What `read` returns, or the negated `errno`, and the octets that it stored. The result, the
-- length and these octets.
unfoldable pub host_receive : ℤ × List ℕ → IoState → ℕ → ℤ × ℕ × List ℕ
host_receive (read_length, stored) state length =
    if is_zero state.host_fd
    then (einval, length, [])
    else if is_negative read_length
    then (read_length, length, [])
    else (pos 0, pos_part read_length, stored)
