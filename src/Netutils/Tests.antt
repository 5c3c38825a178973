-- ===== src/Netutils/Tests.antt =====
-- A libnl whose calls succeed, and one that cannot add a neighbour and has no generic netlink.
use opennan.Prelude.{◌≡◌, false, true, [], ◌∷◌, ◌++◌}
use opennan.Prelude.Int.{pos, negsuc}
use opennan.Channel.{channel_to_frequency}
use opennan.Netutils.{
  Libnl, route_socket, neighbour, indeterminate, release, is_zero, is_negative, einval,
  neighbor_add, neighbor_remove, set_monitor_mode, set_channel, nlroute_init, netutils_init,
  netutils_cleanup,
}
use opennan.Netutils.Sample.{libnl}
use opennan.Netutils.Objects.{Balanced, acquired, released, calls-Balanced, errors-leak}

calls-Balanced_example :
    (Balanced (set_monitor_mode libnl 3).1)
    × (is_zero (channel_to_frequency (pos 6)) ≡ false
        → Balanced (set_channel libnl true 3 (pos 6)).1)
    × ((neighbor_add libnl 3 libnl.link_addr []).0 ≡ pos 0
        → Balanced (neighbor_add libnl 3 libnl.link_addr []).1)
    × ((neighbor_remove libnl 3 []).0 ≡ pos 0 → Balanced (neighbor_remove libnl 3 []).1)
    × ((netutils_init libnl).0 ≡ pos 0
        → Balanced ((netutils_init libnl).1 ++ netutils_cleanup libnl))
calls-Balanced_example = calls-Balanced libnl true 3 (pos 6) libnl.link_addr []

abbrev failing : Libnl
failing = record libnl { genl_connect = negsuc 0; send = λ r. negsuc 5 }

errors-leak_example :
    (failing.rtnl_neigh_alloc ≡ true
      → is_negative (neighbor_add failing 3 libnl.link_addr []).0 ≡ true
      → let done = (neighbor_add failing 3 libnl.link_addr []).1 in
        (acquired neighbour done ≡ 1) × (released neighbour done ≡ 0))
    × ((nlroute_init failing).0 ≡ pos 0
        → is_negative (netutils_init failing).0 ≡ true
        → let done = (netutils_init failing).1 in
          (acquired route_socket done ≡ 1) × (released route_socket done ≡ 0))
    × (is_zero (channel_to_frequency (pos 20)) ≡ true
        → set_channel failing true 3 (pos 20) ≡ (einval, release indeterminate ∷ []))
errors-leak_example = errors-leak failing 3 (pos 20) libnl.link_addr []
