-- ===== src/Daemon/Channels.antt =====
-- `main` never gets to the uninitialised pointer of `set_channel`.
use opennan.Prelude.{
  ℕ, ◌≡◌, refl, ap, true, false, not, List, [], ◌∷◌, length, ltb, arith, Option, none,
  if◌then◌else◌, Bool-cases, inl, inr,
}
use opennan.Prelude.Int.{ℤ, pos, ◌-ℤ◌}
use opennan.Utils.{EtherAddr}
use opennan.Channel.{channel_to_frequency}
use mathlib.Core.Path.{fun_ext}
use opennan.Netutils.{
  Action, Libnl, is_zero, set_channel, set_monitor_mode, link_updown, netutils_init,
}
use opennan.Io.{
  IoState, System, Attempt, init_device, io_state_init_wlan, io_state_init_host, io_state_init,
  index_of, skip_if, unless_negative, unless_set, open_wlan, ◌>>=◌, ◌>>◌,
}
use opennan.Cmd.Text.{codes}
use opennan.Daemon.Startup.{
  Environment, Flag, Settings, nan_init, init_state, unless_failed, started_with, exit_failure,
  undefined, ifnamsiz, parse_options, is_supported, start, run,
}

known-frequency : (z : ℤ) → is_supported z ≡ true → is_zero (channel_to_frequency z) ≡ false
unfolding ◌-ℤ◌ channel_to_frequency
known-frequency z h = ground (arith, h)

supported-set_channel :
    (n : Libnl) (index : ℕ) (z : ℤ)
    → is_zero (channel_to_frequency z) ≡ false
    → set_channel n true index z ≡ set_channel n false index z
unfolding set_channel
supported-set_channel n index z h = rw h refl

-- `init_device` with what `set_channel` gives.
abbrev with_tuning :
    System → IoState → List ℕ → Option EtherAddr → ℕ → ℤ × List Action → Attempt IoState
with_tuning s state wlan filter index tuned = do
  skip_if state.no_updown (unless_negative (link_updown s.libnl index false))
  skip_if state.no_monitor (unless_negative (set_monitor_mode s.libnl index))
  skip_if state.no_updown (unless_negative (link_updown s.libnl index true))
  skip_if state.no_channel (unless_set tuned)
  open_wlan s (record state { wlan_ifname = wlan; wlan_ifindex = index }) filter

module _ (s : System) (z : ℤ) (h : is_zero (channel_to_frequency z) ≡ false) where
  same-init_device :
      (io : IoState) (wlan : List ℕ) (filter : Option EtherAddr) (index : ℕ)
      → init_device s true io wlan z filter index ≡ init_device s false io wlan z filter index
  unfolding init_device
  same-init_device io wlan filter index =
      ap (with_tuning s io wlan filter index) (supported-set_channel s.libnl index z h)

  same-io_state_init :
      (io : IoState) (wlan host : List ℕ) (filter : Option EtherAddr)
      → io_state_init s true io wlan host z filter ≡ io_state_init s false io wlan host z filter
  unfolding io_state_init io_state_init_wlan
  same-io_state_init io wlan host filter =
      ap (λ f. (index_of s wlan >>= f) >>= λ ready. io_state_init_host s ready host)
        (fun_ext (same-init_device io wlan filter))

  same-nan_init :
      (e : Environment) (io : IoState) (wlan host : List ℕ)
      → nan_init s e true io wlan host z ≡ nan_init s e false io wlan host z
  unfolding nan_init
  same-nan_init e io wlan host =
      ap (λ m. unless_failed (netutils_init s.libnl) >>= λ _. m >>= λ ready. init_state e z ready)
        (same-io_state_init io wlan host none)

same-start :
    (s : System) (e : Environment) (arguments : List (List ℕ)) (settings : Settings)
    → start s e true arguments settings ≡ start s e false arguments settings
unfolding start
same-start s e [] settings = refl
same-start s e (x ∷ y ∷ arguments) settings = refl
same-start s e (wlan ∷ []) settings = elim (Bool-cases (is_supported settings.channel)) [
  | inl h ↦
      ap
        (λ m.
          if not (ltb (length wlan) ifnamsiz)
          then undefined []
          else if not (is_supported settings.channel)
          then exit_failure []
          else started_with m)
        (same-nan_init s settings.channel (known-frequency settings.channel h) e settings.io wlan
          settings.host)
  | inr h ↦ rw h refl
]

-- The pointer that `set_channel` does not initialise never matters: whatever the options and the
-- arguments, and whatever libnl, pcap and the system return, `main` ends in the same way, having
-- made the same requests and acquired and released the same objects, if it is NULL as if it is not;
-- so it never frees it, also where the start fails.
pub run-same :
    (s : System) (e : Environment) (io : IoState) (flags : List Flag) (arguments : List (List ℕ))
    → run s e true io flags arguments ≡ run s e false io flags arguments
unfolding run
run-same s e io flags arguments =
    ap
      (λ next.
        parse_options flags (record { host = codes "nan0"; channel = pos 6; dump = false; io = io })
          next)
      (fun_ext (same-start s e arguments))
