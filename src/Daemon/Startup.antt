-- ===== src/Daemon/Startup.antt =====
-- How the daemon starts: `nan_init` of daemon/core.c and `main` of daemon/nan.c up to the event
-- loop.
use opennan.Prelude.{
  ℕ, Bool, true, false, not, ◌||◌, Option, none, some, List, [], ◌∷◌, length, ltb, if◌then◌else◌,
}
use opennan.Prelude.Int.{ℤ, pos, ◌-ℤ◌}
use opennan.Cluster.{ClusterState}
use opennan.Utils.{EtherAddr}
use opennan.Peer.Defs as Peers
use opennan.Netutils.{Action, is_negative, is_zero, netutils_init}
use opennan.State.{NanState, init_nan_state}
use opennan.Cmd.Text.{codes, atoi}
use opennan.Io.{IoState, System, Attempt, ok, err, io_state_init, ◌>>=◌, ◌>>◌}

-- What surrounds the start: the memory of the circular buffer, what the cluster held, the draws of
-- the cluster id, what `gethostname` returns, the name, the clock, and the addresses of the
-- callbacks and of the device.
pub record Environment : Type 0 where
  pub storage : List ℕ
  pub cluster : ClusterState
  pub draw4 : ℕ
  pub draw5 : ℕ
  pub gethostname : ℤ
  pub hostname : List ℕ
  pub now : ℕ
  pub neighbor_add : ℕ
  pub neighbor_remove : ℕ
  pub io_state : ℕ

-- The result of a function that ends the start if it is not 0.
abbrev pub unless_failed : ℤ × List Action → Attempt (Unit {0})
unless_failed (result, done) = if is_zero result then ok tt done else err result done

-- The state of the library when the event loop begins, with the callbacks for peers.
abbrev pub started_state : Environment → EtherAddr → ℤ → NanState
started_state e address channel =
    let initial =
      init_nan_state e.storage e.cluster e.draw4 e.draw5 e.hostname address channel e.now in
    record initial {
      peers =
          Peers.set_callbacks initial.peers (some e.neighbor_add) e.io_state
            (some e.neighbor_remove) e.io_state;
    }

-- After the devices were set up.
abbrev pub init_state : Environment → ℤ → IoState → Attempt (NanState × IoState)
init_state e channel ready =
    if is_zero e.gethostname
    then ok (started_state e ready.if_ether_addr channel, ready) []
    else err e.gethostname []

-- `nan_init`; `io` is what `io_state` held.
unfoldable pub nan_init :
    System → Environment → Bool → IoState → List ℕ → List ℕ → ℤ → Attempt (NanState × IoState)
unfolding netutils_init io_state_init init_nan_state Peers.set_callbacks
nan_init s e stack io wlan host channel = do
  unless_failed (netutils_init s.libnl)
  ready ← io_state_init s stack io wlan host channel none
  init_state e channel ready

-- The options that `getopt` finds, in order.
pub data Flag : Type 0 where
  help verbose no_monitor no_channel no_updown unknown : Flag
  dump : Option (List ℕ) → Flag
  name channel : List ℕ → Flag

-- What the options set; `io` is the part of `io_state` on the stack.
pub record Settings : Type 0 where
  pub host : List ℕ
  pub channel : ℤ
  pub dump : Bool
  pub io : IoState

-- How `main` ends before the event loop, or that it gets there, and what was done of the network
-- setup on the way. `undefined` is a write behind the end of an array or into a string literal, or
-- an event loop on a state that was not initialised.
pub data Started : Type 0 where
  exit_success : Started
  exit_failure undefined : List Action → Started
  running : NanState → IoState → List Action → Started

-- IFNAMSIZ
abbrev pub ifnamsiz : ℕ
ifnamsiz = 16

-- The loop over the options, and what follows it.
unfoldable pub parse_options : List Flag → Settings → (Settings → Started) → Started
parse_options [] settings next = next settings
parse_options (help ∷ flags) settings next = exit_success
parse_options (verbose ∷ flags) settings next = parse_options flags settings next
parse_options (dump none ∷ flags) settings next =
    parse_options flags (record settings { dump = true }) next
parse_options (dump (some file) ∷ flags) settings next = undefined []
parse_options (name host ∷ flags) settings next =
    let rest = parse_options flags (record settings { host = host }) next in
    if ltb (length host) ifnamsiz then rest else undefined []
parse_options (channel number ∷ flags) settings next =
    parse_options flags (record settings { channel = atoi number }) next
parse_options (no_monitor ∷ flags) settings next =
    parse_options flags (record settings { io = record settings.io { no_monitor = true } }) next
parse_options (no_channel ∷ flags) settings next =
    parse_options flags (record settings { io = record settings.io { no_channel = true } }) next
parse_options (no_updown ∷ flags) settings next =
    parse_options flags (record settings { io = record settings.io { no_updown = true } }) next
parse_options (unknown ∷ flags) settings next = exit_failure []

abbrev pub is_number : ℤ → ℕ → Bool
is_number z n = is_zero (z -ℤ pos n)

-- The channels that `main` lets through.
abbrev pub is_supported : ℤ → Bool
is_supported z = is_number z 6 || is_number z 44 || is_number z 149

abbrev pub started_with : Attempt (NanState × IoState) → Started
started_with (ok (s, io) done) = running s io done
started_with (err code done) = if is_negative code then exit_failure done else undefined done

-- With one argument behind the options, the name of the wireless device.
unfoldable pub start : System → Environment → Bool → List (List ℕ) → Settings → Started
unfolding nan_init ◌-ℤ◌
start s e stack (wlan ∷ []) settings =
    let begun = started_with (nan_init s e stack settings.io wlan settings.host settings.channel) in
    if not (ltb (length wlan) ifnamsiz)
    then undefined []
    else if not (is_supported settings.channel)
    then exit_failure []
    else begun
start s e stack arguments settings = exit_failure []

-- `main`; `io` is what the stack held.
unfoldable pub run : System → Environment → Bool → IoState → List Flag → List (List ℕ) → Started
unfolding parse_options start
run s e stack io flags arguments =
    parse_options flags (record { host = codes "nan0"; channel = pos 6; dump = false; io = io })
      (start s e stack arguments)
