-- ===== src/Netutils/Sample.antt =====
-- A libnl whose calls succeed, for the tests.
use opennan.Prelude.{true}
use opennan.Prelude.Int.{pos}
use opennan.Netutils.{Libnl}

abbrev pub libnl : Libnl
libnl = record {
  nl_socket_alloc = λ o. true;
  nl_connect = pos 0;
  genl_connect = pos 0;
  genl_ctrl_resolve = pos 30;
  rtnl_neigh_alloc = true;
  nl_addr_build = λ o. true;
  nlmsg_alloc = λ r o. true;
  genlmsg_put = λ r. true;
  nla_put = λ r o. true;
  send = λ r. pos 0;
  nl_recvmsgs = λ r. pos 0;
  rtnl_link_get_kernel = λ l. pos 0;
  link_addr = record { octet0 = 2; octet1 = 0; octet2 = 0; octet3 = 0; octet4 = 0; octet5 = 3 };
}
