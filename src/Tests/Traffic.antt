-- ===== src/Tests/Traffic.antt =====
-- Tests of what becomes of packets.
use linkerd2_proxy_init.Base.{codes, true, false, same, none, some, ◌≡◌, refl, any}
use linkerd2_proxy_init.Go.Strconv.{itoa, format_nat, digits, atoi}
use linkerd2_proxy_init.Iptables.Multiport.Groups.{valid_ranges}
use linkerd2_proxy_init.Iptables.Traffic.{
  Packet, inbound, outbound, to_ignored_port, from_ignored_subnet, to_redirected_port, from_proxy,
  covers,
}
use linkerd2_proxy_init.Ports.{parse_port_range, choose_bounds, parse_bounds, checked_port}
use linkerd2_proxy_init.Go.Strings.{split}
use linkerd2_proxy_init.Tests.Configs.{config}
use linkerd2_proxy_init.Tests.Kernel.{kernel, shares_prefix}

-- A packet from another node.
abbrev request : Packet
request = record {
  is_tcp = true;
  destination_port = 8080;
  source = codes "192.168.1.7";
  on_loopback = false;
  uid = 1000;
  gid = 1000;
}

-- What is meant for it: both ways to the proxy, unless the port is ignored, the source is in an
-- ignored subnet, or the proxy sent it.
request_tests :
    (inbound kernel config request ≡ some (codes "4143"))
    × (inbound kernel config (record request { destination_port = 21 }) ≡ none)
    × (inbound kernel config (record request { source = codes "10.1.2.3" }) ≡ none)
    × (outbound kernel config request ≡ some (codes "4140"))
    × (outbound kernel config (record request { uid = 2102 }) ≡ none)
    × (outbound kernel config (record request { on_loopback = true }) ≡ none)
unfolding inbound outbound to_ignored_port from_ignored_subnet to_redirected_port from_proxy covers
    kernel shares_prefix same split itoa format_nat digits valid_ranges parse_port_range
    choose_bounds parse_bounds checked_port any atoi
request_tests = (refl, refl, refl, refl, refl, refl)
