-- ===== src/Iptables/Traffic/Firewall.antt =====
-- What becomes of packets on a host that `ConfigureFirewall` has set up.
use linkerd2_proxy_init.Iptables.Chains.{Chains}
use linkerd2_proxy_init.Iptables.Host.{Host}
