-- ===== src/Iptables/Fallback.antt =====
-- `resolveBinFallback`: the iptables binaries that are on PATH.
pub mod Laws
use linkerd2_proxy_init.Base.{Bytes, codes, Bool, List, [], ◌∷◌, ◌&&◌, ◌||◌, if◌then◌else◌}
use linkerd2_proxy_init.Go.Strings.{contains}
use linkerd2_proxy_init.Iptables.Config.{FirewallConfiguration}

abbrev pub ipv6_candidates : List (Bytes × Bytes)
ipv6_candidates =
    (codes "ip6tables-nft", codes "ip6tables-nft-save")
    ∷ (codes "ip6tables", codes "ip6tables-save")
    ∷ (codes "ip6tables-legacy", codes "ip6tables-legacy-save")
    ∷ []

abbrev pub ipv4_candidates : List (Bytes × Bytes)
ipv4_candidates =
    (codes "iptables-nft", codes "iptables-nft-save")
    ∷ (codes "iptables", codes "iptables-save")
    ∷ (codes "iptables-legacy", codes "iptables-legacy-save")
    ∷ []

-- Decided by the configured names.
unfoldable pub is_ipv6_family : FirewallConfiguration → Bool
is_ipv6_family fc =
    contains fc.bin_path (codes "ip6tables") || contains fc.save_bin_path (codes "ip6tables")

unfoldable pub candidates : FirewallConfiguration → List (Bytes × Bytes)
candidates fc = if is_ipv6_family fc then ipv6_candidates else ipv4_candidates

-- `has` says whether `lookPath` finds a name.
module _ (has : Bytes → Bool) where
  unfoldable pub use_first : List (Bytes × Bytes) → FirewallConfiguration → FirewallConfiguration
  use_first [] fc = fc
  use_first ((bin, save) ∷ pairs) fc =
      if has bin && has save
      then record fc { bin_path = bin; save_bin_path = save }
      else use_first pairs fc

  unfoldable pub resolve_bin_fallback : FirewallConfiguration → FirewallConfiguration
  resolve_bin_fallback fc =
      if has fc.bin_path && has fc.save_bin_path then fc else use_first (candidates fc) fc
