-- ===== src/Iptables/Fallback/Laws.antt =====
-- What `resolveBinFallback` changes, and when it finds binaries.
use linkerd2_proxy_init.Base.{Bytes, codes, ◌++◌, Bool, ◌≡◌, ◌&&◌}
use linkerd2_proxy_init.Go.Strings.{contains}
use linkerd2_proxy_init.Iptables.Config.{FirewallConfiguration}

module _ (has : Bytes → Bool) where
  -- Both programs of a pair are on PATH.
  abbrev pub present : Bytes × Bytes → Bool
  present (bin, save) = has bin && has save

  abbrev pub is_resolved : FirewallConfiguration → Bool
  is_resolved fc = has fc.bin_path && has fc.save_bin_path

  -- The two programs of one family and of one kind: the second is the first one's `-save`.
  abbrev pub ArePair : Bool → Bytes × Bytes → Type 0
  ArePair ipv6 (bin, save) =
      (contains bin (codes "ip6tables") ≡ ipv6) × (save ≡ bin ++ codes "-save")
