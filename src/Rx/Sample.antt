-- ===== src/Rx/Sample.antt =====
-- A sync beacon of a peer with a higher rank, behind its headers.
use opennan.Prelude.{
  ℕ, ◌^◌, ◌≡◌, refl, Bool, true, false, ◌&&◌, none, List, [], ◌∷◌, ◌++◌, arith, ltb,
}
use opennan.Prelude.Int.{pos, negsuc}
use opennan.Utils.{EtherAddr}
use opennan.MovingAverage
use opennan.Peer.{Peer}
use opennan.Rx.Defs.{Attribute}
use opennan.Rx.Attributes.{AreOctets}
use opennan.Service.Defs.{ServiceDescriptor}
use opennan.Rx.Discovery.{ServiceDescriptorExtension}
use opennan.Rx.Frame.{Reception}

abbrev pub addr : ℕ → EtherAddr
addr n = record { octet0 = 2; octet1 = 0; octet2 = 0; octet3 = 0; octet4 = 0; octet5 = n }

-- Timestamp, interval, capability, element, OUI, and two attributes.
abbrev pub beacon : List ℕ
beacon =
    64 ∷ 66 ∷ 15 ∷ 0 ∷ 0 ∷ 0 ∷ 0 ∷ 0 ∷ 0 ∷ 2 ∷ 0 ∷ 0 ∷ 221 ∷ 25 ∷ 80 ∷ 111 ∷ 154 ∷ 19 ∷ 0 ∷ 2 ∷ 0
    ∷ 200 ∷ 50 ∷ 1 ∷ 13 ∷ 0 ∷ 2 ∷ 0 ∷ 0 ∷ 0 ∷ 0 ∷ 9 ∷ 50 ∷ 200 ∷ 1 ∷ 1 ∷ 2 ∷ 3 ∷ 4 ∷ []

unfoldable all_octets : List ℕ → Bool
all_octets [] = true
all_octets (x ∷ xs) = ltb x (2 ^ 8) && all_octets xs

all_octets-AreOctets : (xs : List ℕ) → all_octets xs ≡ true → AreOctets xs
unfolding all_octets
all_octets-AreOctets [] h = tt
all_octets-AreOctets (x ∷ xs) h = (ground arith, all_octets-AreOctets xs (ground arith))

abbrev pub stack : Attribute
stack = record { id = 7; length = 300; data_bytes = [] }

abbrev pub block : Peer
block = record {
  ref = 1;
  cluster_id = addr 0;
  addr = addr 0;
  ipv6_addr = [];
  last_update = 0;
  last_timestamp = 0;
  master_preference = 0;
  last_master_preference = 0;
  random_factor = 0;
  anchor_master_rank = 0;
  last_anchor_master_rank = 0;
  ambtt = 0;
  hop_count = 0;
  master_candidate = false;
  rssi_average = (MovingAverage.init 32).0;
  rssi_average_state = (MovingAverage.init 32).1;
  availability_all_slots = false;
  availability_entries = 0;
}

-- The beacon behind a radiotap header and an IEEE 802.11 header.
abbrev pub whole_frame : List ℕ
whole_frame =
    (0 ∷ 0 ∷ 8 ∷ 0 ∷ 0 ∷ 0 ∷ 0 ∷ 0 ∷ [])
    ++ (128 ∷ 0 ∷ 0 ∷ 0 ∷ 255 ∷ 255 ∷ 255 ∷ 255 ∷ 255 ∷ 255 ∷ [])
    ++ (2 ∷ 0 ∷ 0 ∷ 0 ∷ 0 ∷ 9 ∷ 2 ∷ 0 ∷ 0 ∷ 0 ∷ 0 ∷ 0 ∷ 0 ∷ 0 ∷ [])
    ++ beacon

pub whole_frame-AreOctets : AreOctets whole_frame
unfolding all_octets
whole_frame-AreOctets = all_octets-AreOctets whole_frame refl

abbrev pub descriptor : ServiceDescriptor
descriptor = record {
  service_id = [];
  instance_id = 0;
  requestor_instance_id = 0;
  control = 0;
  service_info = none;
  service_info_length = 0;
}

abbrev pub extension : ServiceDescriptorExtension
extension = record {
  instance_id = 0;
  control = 0;
  service_update_indicator = 0;
  oui = [];
  service_specific_info = none;
  service_specific_info_length = 0;
}

abbrev pub reception : Reception
reception = record {
  frame = record {
    bytes = whole_frame;
    position = 0;
    start = 0;
    end = 71;
    size = 71;
    owned = false;
    error = pos 0;
  };
  now = 2000000;
  known = (negsuc 39, 0);
  stack = stack;
  block = block;
  blocks = record { descriptor = λ n. descriptor; extension = λ n. extension };
  draw = 77;
}
