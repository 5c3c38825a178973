-- ===== src/State.antt =====
-- The global state of src/state.h, and its initialisation in src/state.c. The frames that wait in
-- the circular buffer are pointers, numbers.
use opennan.Prelude.{ℕ, List, take}
use opennan.Prelude.Int.{ℤ}
use opennan.Utils.{EtherAddr}
use opennan.CircularBuffer
use opennan.CircularBuffer.{CircularBuf}
use opennan.Channel
use opennan.Channel.{ChannelState}
use opennan.Peer
use opennan.Peer.{PeerState}
use opennan.Timer
use opennan.Timer.{TimerState}
use opennan.Cluster
use opennan.Cluster.{ClusterState}
use opennan.Sync.Defs
use opennan.Sync.Defs.{SyncState}
use opennan.Event
use opennan.Event.{EventState}
use opennan.Service.Defs as Services
use opennan.Service.Defs.{ServiceState}
use opennan.Ieee80211
use opennan.Ieee80211.{Ieee80211State}

-- `struct nan_state`.
pub record NanState : Type 0 where
  pub hostname : List ℕ
  pub self_address : EtherAddr
  pub interface_address : EtherAddr
  pub buffer : CircularBuf
  pub channel : ChannelState
  pub peers : PeerState
  pub timer : TimerState
  pub cluster : ClusterState
  pub sync : SyncState
  pub events : EventState
  pub services : ServiceState
  pub ieee80211 : Ieee80211State

-- `init_nan_state`: `storage` is the memory of the circular buffer, `cluster` what the cluster
-- held, and the draws are the octets of the cluster id.
unfoldable pub init_nan_state :
    List ℕ → ClusterState → ℕ → ℕ → List ℕ → EtherAddr → ℤ → ℕ → NanState
unfolding CircularBuffer.init Channel.init Cluster.init Defs.init Peer.init Timer.init Event.init
    Services.init Ieee80211.init_state
init_nan_state storage cluster draw4 draw5 hostname addr channel now = record {
  hostname = take 64 hostname;
  self_address = addr;
  interface_address = addr;
  buffer = CircularBuffer.init storage 16;
  channel = Channel.init channel;
  cluster = Cluster.init cluster draw4 draw5;
  sync = Defs.init addr;
  peers = Peer.init;
  timer = Timer.init now;
  events = Event.init;
  services = Services.init;
  ieee80211 = Ieee80211.init_state;
}
