-- ===== src/Io/Setup.antt =====
-- The order in which the wireless device is set up.
use opennan.Prelude.{
  ℕ, Bool, true, false, not, ◌&&◌, Option, none, some, List, [], ◌∷◌, ◌++◌, if◌then◌else◌,
}
use opennan.Prelude.Int.{ℤ}
use opennan.Utils.{EtherAddr}
use opennan.Channel.{channel_to_frequency}
use opennan.Netutils.{Libnl, monitor_mode, tune, change_link, is_negative, for_address}
use opennan.Io.{IoState, System, open_nonblocking_device}
use opennan.Io.Steps.{Step, asks, checks, link_ending, monitor_ending, channel_ending}

abbrev is_some : Option ℕ → Bool
is_some none = false
is_some (some x) = true

-- Whether the device can be opened, and its address found.
abbrev pub is_opened : System → List ℕ → Option EtherAddr → Bool
is_opened s wlan filter =
    is_some (open_nonblocking_device s.pcap wlan filter).1
    && not (is_negative (s.libnl.rtnl_link_get_kernel for_address))

-- The requests that are not switched off, and how each ends.
module _ (n : Libnl) (state : IoState) (index : ℕ) where
  abbrev pub link_steps : Bool → List Step
  link_steps up =
      if state.no_updown then [] else asks (change_link index up) (link_ending n up) ∷ []

  abbrev pub monitor_steps : List Step
  monitor_steps =
      if state.no_monitor then [] else asks (monitor_mode index) (monitor_ending n index) ∷ []

  abbrev pub channel_steps : ℤ → List Step
  channel_steps channel =
      if state.no_channel
      then []
      else asks (tune index (channel_to_frequency channel)) (channel_ending n index channel) ∷ []

-- The steps for a device, in the order of the setup.
abbrev pub planned : System → IoState → List ℕ → ℤ → Option EtherAddr → ℕ → List Step
planned s state wlan channel filter index =
    link_steps s.libnl state index false
    ++ (monitor_steps s.libnl state index
        ++ (link_steps s.libnl state index true
            ++ (channel_steps s.libnl state index channel
                ++ checks (is_opened s wlan filter) ∷ [])))
