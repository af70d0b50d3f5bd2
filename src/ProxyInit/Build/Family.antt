-- ===== src/ProxyInit/Build/Family.antt =====
-- The IPv4 and the IPv6 configuration that are built from the same options.
use linkerd2_proxy_init.Base.{
  Bytes, codes, same, ◌++◌, [], sym, Bool, true, false, List, Result, ok, err, ◌≡◌, inl, inr, refl,
  map,
}
use mathlib.Core.Path.{subst}
use linkerd2_proxy_init.Go.Strings.{trim_space}
use linkerd2_proxy_init.Iptables.Config.{FirewallConfiguration}
use linkerd2_proxy_init.ProxyInit.Options.{RootOptions}
use linkerd2_proxy_init.ProxyInit.Build.{
  OptionsError, get_commands, resolve_mode, with_subnets, build_with_mode,
  build_firewall_configuration,
}
use linkerd2_proxy_init.ProxyInit.Build.Laws.{
  Chooses, named, legacy_path, nft_path, plain_path, IsMode,
  build_firewall_configuration-iff-Builds, resolve_mode_complete, resolve_mode_sound,
}

abbrev pub stem : Bool → Bytes
stem true = codes "ip6tables"
stem false = codes "iptables"

-- What stands behind it for a mode.
pub data Suffix : Bytes → Bytes → Type 0 where
  legacy : Suffix (codes "legacy") (codes "-legacy")
  nft : Suffix (codes "nft") (codes "-nft")
  plain : Suffix (codes "plain") []

-- The two binaries are those of the mode and of the family.
abbrev pub HasBinaries : Bytes → Bool → FirewallConfiguration → Type 0
HasBinaries mode ipv6 fc =
    (suffix : Bytes) × Suffix mode suffix
    × (fc.bin_path ≡ stem ipv6 ++ suffix)
    × (fc.save_bin_path ≡ stem ipv6 ++ (suffix ++ codes "-save"))

with_subnets-HasBinaries :
    (o : RootOptions) (ss : List Bytes)
    → IsMode o.iptables_mode
    → HasBinaries o.iptables_mode o.ipv6 (with_subnets o ss)
unfolding with_subnets get_commands same
with_subnets-HasBinaries o ss (inl is) = rw is (go o.ipv6)
  where
    go :
        (ipv6 : Bool)
        → HasBinaries
            (codes "legacy")
            ipv6
            (with_subnets (record o { iptables_mode = codes "legacy"; ipv6 = ipv6 }) ss)
    go true = (_, legacy, refl, refl)
    go false = (_, legacy, refl, refl)
with_subnets-HasBinaries o ss (inr (inl is)) = rw is (go o.ipv6)
  where
    go :
        (ipv6 : Bool)
        → HasBinaries
            (codes "nft")
            ipv6
            (with_subnets (record o { iptables_mode = codes "nft"; ipv6 = ipv6 }) ss)
    go true = (_, nft, refl, refl)
    go false = (_, nft, refl, refl)
with_subnets-HasBinaries o ss (inr (inr is)) = rw is (go o.ipv6)
  where
    go :
        (ipv6 : Bool)
        → HasBinaries
            (codes "plain")
            ipv6
            (with_subnets (record o { iptables_mode = codes "plain"; ipv6 = ipv6 }) ss)
    go true = (_, plain, refl, refl)
    go false = (_, plain, refl, refl)

module _ (is_cidr : Bytes → Bool) where
  Chooses-ipv6 :
      (o : RootOptions) (ipv6 : Bool) (mode : Bytes)
      → Chooses o mode
      → Chooses (record o { ipv6 = ipv6 }) mode
  Chooses-ipv6 o ipv6 mode (named e m) = named e m
  Chooses-ipv6 o ipv6 mode (legacy_path e p m) = legacy_path e p m
  Chooses-ipv6 o ipv6 mode (nft_path e p m) = nft_path e p m
  Chooses-ipv6 o ipv6 mode (plain_path e p m) = plain_path e p m

  Chooses-IsMode : (o : RootOptions) (mode : Bytes) → Chooses o mode → IsMode mode
  Chooses-IsMode o mode (named e m) = m
  Chooses-IsMode o mode (legacy_path e p m) = inl m
  Chooses-IsMode o mode (nft_path e p m) = inr (inl m)
  Chooses-IsMode o mode (plain_path e p m) = inr (inr m)

  -- Where the IPv4 configuration is built from options, the IPv6 one is too, and the two differ in
  -- the names of the binaries alone. For the mode that the options choose these are `iptables` and
  -- `ip6tables`, with `-legacy`, `-nft` or, for the plain mode, nothing behind them, and the same
  -- with `-save`.
  pub build_ipv6_like_ipv4 :
      (o : RootOptions) (f₄ : FirewallConfiguration)
      → (build_firewall_configuration is_cidr (record o { ipv6 = false })).0 ≡ ok f₄
      → (f₆ : FirewallConfiguration) × ((build_firewall_configuration is_cidr
            (record o { ipv6 = true })).0
          ≡ ok f₆)
        × (f₆ ≡ record f₄ { bin_path = f₆.bin_path; save_bin_path = f₆.save_bin_path })
        × ((mode : Bytes) × Chooses o mode × HasBinaries mode false f₄ × HasBinaries mode true f₆)
  unfolding with_subnets
  build_ipv6_like_ipv4 o f₄ h =
      let b =
        (build_firewall_configuration-iff-Builds is_cidr (record o { ipv6 = false }) f₄).0 h in
      let o₆ = record o { ipv6 = true; iptables_mode = b.mode } in
      let f₆ = with_subnets o₆ (map trim_space o.subnets_to_ignore) in
      let built =
        (build_firewall_configuration-iff-Builds is_cidr (record o { ipv6 = true }) f₆).1 (record {
          mode = b.mode;
          chosen = Chooses-ipv6 (record o { ipv6 = false }) true b.mode b.chosen;
          incoming = b.incoming;
          outgoing = b.outgoing;
          subnets = b.subnets;
          result = refl;
        }) in
      let is_mode = Chooses-IsMode (record o { ipv6 = false }) b.mode b.chosen in
      let binaries₄ =
        with_subnets-HasBinaries (record o { ipv6 = false; iptables_mode = b.mode })
          (map trim_space o.subnets_to_ignore) is_mode in
      let binaries₆ = with_subnets-HasBinaries o₆ (map trim_space o.subnets_to_ignore) is_mode in
      (
        f₆,
        built,
        rw b.result,
        (
          b.mode,
          Chooses-ipv6 (record o { ipv6 = false }) o.ipv6 b.mode b.chosen,
          subst (HasBinaries b.mode false) (sym b.result) (binaries₄),
          binaries₆,
        ),
      )

  build_with_mode_again :
      (o : RootOptions) (r : Result OptionsError Bytes)
      → resolve_mode o ≡ r
      → build_firewall_configuration is_cidr (build_with_mode is_cidr o r).1
        ≡ build_with_mode is_cidr o r
  unfolding build_with_mode build_firewall_configuration
  build_with_mode_again o (err e) is_r = rw (is_r, build_with_mode)
  build_with_mode_again o (ok mode) is_r = rw (
    resolve_mode_complete (record o { iptables_mode = mode }) mode
        (named refl (Chooses-IsMode o mode (resolve_mode_sound o mode is_r))),
    build_with_mode,
  )

  -- The options that the function has written its mode into give the same result again, and are
  -- not changed any more.
  build_firewall_configuration_again :
      (o : RootOptions)
      → build_firewall_configuration is_cidr (build_firewall_configuration is_cidr o).1
        ≡ build_firewall_configuration is_cidr o
  unfolding build_firewall_configuration
  build_firewall_configuration_again o = build_with_mode_again o (resolve_mode o) refl
