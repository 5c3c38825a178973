-- ===== src/Io/Sample.antt =====
-- A system whose calls succeed, for the tests, and the state that its devices are set up in.
use opennan.Prelude.{false, true, []}
use opennan.Prelude.Int.{pos}
use opennan.Netutils.Sample.{libnl}
use opennan.Io.{IoState, System}

abbrev pub system : System
system = record {
  libnl = libnl;
  pcap = record {
    pcap_create = λ name. 1;
    pcap_activate = λ handle. pos 0;
    pcap_setnonblock = λ handle. pos 0;
    pcap_datalink_is_radiotap = λ handle. true;
    pcap_set_filter = λ handle a. pos 0;
    pcap_get_selectable_fd = λ handle. pos 4;
  };
  if_nametoindex = λ name. 3;
  open_tun = λ name a. (pos 5, name);
}

abbrev pub blank : IoState
blank = record {
  wlan_handle = 0;
  wlan_ifname = [];
  wlan_ifindex = 0;
  wlan_fd = pos 0;
  if_ether_addr = libnl.link_addr;
  host_ifname = [];
  host_ifindex = 0;
  host_fd = pos 0;
  no_monitor = false;
  no_channel = false;
  no_updown = false;
}
