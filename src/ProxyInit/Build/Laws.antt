-- ===== src/ProxyInit/Build/Laws.antt =====
-- Which options `BuildFirewallConfiguration` accepts, and what it makes of them.
use linkerd2_proxy_init.Base.{
  ℕ, ◌≤◌, Bytes, Bool, true, same, same_iff, is_empty, ℤ, pos, negsuc, List, [], ◌∷◌, Result, ok,
  err, bind_success, ◌>>=◌, ◌≡◌, ◌↔◌, ◌⊎◌, inl, inr, refl, arith, All, map, ◌||◌, Bool-cases,
}
use linkerd2_proxy_init.Go.Strings.{trim_space}
use linkerd2_proxy_init.Ports.{is_valid_port}
use linkerd2_proxy_init.Iptables.Config.{FirewallConfiguration}
use linkerd2_proxy_init.ProxyInit.Options.{
  RootOptions, iptables_mode_legacy, iptables_mode_nft, iptables_mode_plain, cmd_legacy, cmd_nft,
  cmd_plain,
}
use linkerd2_proxy_init.ProxyInit.Build.{
  OptionsError, mode_of_bin_path, resolve_mode, sanitize_subnets, with_subnets, build_in_mode,
  build_with_mode, build_firewall_configuration,
}

-- The modes that the flag may name.
abbrev pub IsMode : Bytes → Type 0
IsMode m = (m ≡ iptables_mode_legacy) ⊎ (m ≡ iptables_mode_nft) ⊎ (m ≡ iptables_mode_plain)

-- The mode that the options choose: the one that is named, or else the one of the binary's path.
pub data Chooses (o : RootOptions) (mode : Bytes) : Type 0 where
  named : o.iptables_mode ≡ mode → IsMode mode → Chooses o mode
  legacy_path :
      o.iptables_mode ≡ []
      → (o.firewall_bin_path ≡ []) ⊎ (o.firewall_bin_path ≡ cmd_legacy)
      → mode ≡ iptables_mode_legacy
      → Chooses o mode
  nft_path :
      o.iptables_mode ≡ []
      → o.firewall_bin_path ≡ cmd_nft
      → mode ≡ iptables_mode_nft
      → Chooses o mode
  plain_path :
      o.iptables_mode ≡ []
      → o.firewall_bin_path ≡ cmd_plain
      → mode ≡ iptables_mode_plain
      → Chooses o mode

mode_of_bin_path_sound :
    (o : RootOptions) (mode : Bytes)
    → o.iptables_mode ≡ []
    → mode_of_bin_path o.firewall_bin_path ≡ ok mode
    → Chooses o mode
unfolding mode_of_bin_path
mode_of_bin_path_sound o mode unset h =
    let path = o.firewall_bin_path in
    elim (Bool-cases (is_empty path || same path cmd_legacy)) [
      | inl legacy ↦ legacy_path unset (ground (arith, same_iff path cmd_legacy)) (ground arith)
      | inr e ↦ elim (Bool-cases (same path cmd_nft)) [
        | inl nft ↦ nft_path unset ((same_iff path cmd_nft).0 nft) (ground arith)
        | inr e' ↦ elim (Bool-cases (same path cmd_plain)) [
          | inl plain ↦ plain_path unset ((same_iff path cmd_plain).0 plain) (ground arith)
          | inr e'' ↦ absurd (ground arith)
        ]
      ]
    ]

pub resolve_mode_sound :
    (o : RootOptions) (mode : Bytes) → resolve_mode o ≡ ok mode → Chooses o mode
unfolding resolve_mode
resolve_mode_sound o mode h = elim (Bool-cases (is_empty o.iptables_mode)) [
  | inl unset ↦ mode_of_bin_path_sound o mode (ground arith) (ground arith)
  | inr set ↦ named (ground arith) (
      ground (
        arith,
        same_iff o.iptables_mode iptables_mode_legacy,
        same_iff o.iptables_mode iptables_mode_nft,
        same_iff o.iptables_mode iptables_mode_plain,
      ))
]

pub resolve_mode_complete :
    (o : RootOptions) (mode : Bytes) → Chooses o mode → resolve_mode o ≡ ok mode
unfolding resolve_mode same
resolve_mode_complete o mode (named e (inl legacy)) = rw (e, legacy)
resolve_mode_complete o mode (named e (inr (inl nft))) = rw (e, nft)
resolve_mode_complete o mode (named e (inr (inr plain))) = rw (e, plain)
resolve_mode_complete o mode (legacy_path e (inl p) m) = rw (e, p, m)
resolve_mode_complete o mode (legacy_path e (inr p) m) = rw (e, p, m)
resolve_mode_complete o mode (nft_path e p m) = rw (e, p, m)
resolve_mode_complete o mode (plain_path e p m) = rw (e, p, m)

module _ (is_cidr : Bytes → Bool) where
  sanitize_subnets_sound :
      (texts ss : List Bytes)
      → sanitize_subnets is_cidr texts ≡ ok ss
      → All (λ t. is_cidr (trim_space t) ≡ true) texts × (ss ≡ map trim_space texts)
  unfolding sanitize_subnets
  sanitize_subnets_sound [] ss h = (tt, ground arith)
  sanitize_subnets_sound (t ∷ ts) ss h = elim (Bool-cases (is_cidr (trim_space t))) [
    | inl good ↦
        let h' : (sanitize_subnets is_cidr ts >>= λ rest. ok (trim_space t ∷ rest)) ≡ ok ss =
          (rw good at h) in
        let (rest, e, is_rest) = bind_success _ (sanitize_subnets is_cidr ts) h' in
        let (all_good, rest_is) = sanitize_subnets_sound ts rest is_rest in
        ((good, all_good), ground (arith))
    | inr bad ↦ absurd (ground arith)
  ]

  sanitize_subnets_complete :
      (texts : List Bytes)
      → All (λ t. is_cidr (trim_space t) ≡ true) texts
      → sanitize_subnets is_cidr texts ≡ ok (map trim_space texts)
  unfolding sanitize_subnets
  sanitize_subnets_complete [] h = refl
  sanitize_subnets_complete (t ∷ ts) (good, h) = rw (good, sanitize_subnets_complete ts h)

  abbrev pub IsPort : ℤ → Type 0
  IsPort i = (p : ℕ) × (i ≡ pos p) × (p ≤ 65535)

  is_valid_port_sound : (i : ℤ) → is_valid_port i ≡ true → IsPort i
  unfolding is_valid_port
  is_valid_port_sound (pos p) h = (p, refl, ground arith)
  is_valid_port_sound (negsuc p) h = absurd (ground arith)

  is_valid_port_complete : (i : ℤ) → IsPort i → is_valid_port i ≡ true
  unfolding is_valid_port
  is_valid_port_complete i (p, e, fits) = rw e (ground arith)

  -- What the options must be for `fc` to be built from them.
  pub record Builds (o : RootOptions) (fc : FirewallConfiguration) : Type 0 where
    pub mode : Bytes
    pub chosen : Chooses o mode
    pub incoming : IsPort o.incoming_proxy_port
    pub outgoing : IsPort o.outgoing_proxy_port
    pub subnets : All (λ t. is_cidr (trim_space t) ≡ true) o.subnets_to_ignore
    pub result :
        fc ≡ with_subnets (record o { iptables_mode = mode }) (map trim_space o.subnets_to_ignore)

  build_in_mode_sound :
      (o : RootOptions) (fc : FirewallConfiguration)
      → build_in_mode is_cidr o ≡ ok fc
      → IsPort o.incoming_proxy_port
        × IsPort o.outgoing_proxy_port
        × All (λ t. is_cidr (trim_space t) ≡ true) o.subnets_to_ignore
        × (fc ≡ with_subnets o (map trim_space o.subnets_to_ignore))
  unfolding build_in_mode
  build_in_mode_sound o fc h =
      let first = is_valid_port o.incoming_proxy_port in
      let second = is_valid_port o.outgoing_proxy_port in
      let in_ok : first ≡ true = ground arith in
      let out_ok : second ≡ true = ground arith in
      let h' : (sanitize_subnets is_cidr o.subnets_to_ignore >>= λ ss. ok (with_subnets o ss))
          ≡ ok fc =
        (simp (in_ok, out_ok) at h) in
      let (ss, e, is_ss) = bind_success _ (sanitize_subnets is_cidr o.subnets_to_ignore) h' in
      let (good, ss_is) = sanitize_subnets_sound o.subnets_to_ignore ss is_ss in
      (is_valid_port_sound _ in_ok, is_valid_port_sound _ out_ok, good, ground (arith, ss_is, e))

  build_with_mode_sound :
      (o : RootOptions) (fc : FirewallConfiguration) (r : Result OptionsError Bytes)
      → resolve_mode o ≡ r
      → (build_with_mode is_cidr o r).0 ≡ ok fc
      → Builds o fc
  unfolding build_with_mode
  build_with_mode_sound o fc (err e) is_r h = cc
  build_with_mode_sound o fc (ok mode) is_r h =
      let (incoming, outgoing, subnets, result) =
        build_in_mode_sound (record o { iptables_mode = mode }) fc h in
      record {
        mode = mode;
        chosen = resolve_mode_sound o mode is_r;
        incoming = incoming;
        outgoing = outgoing;
        subnets = subnets;
        result = result;
      }

  build_in_mode_complete :
      (o : RootOptions)
      → IsPort o.incoming_proxy_port
      → IsPort o.outgoing_proxy_port
      → All (λ t. is_cidr (trim_space t) ≡ true) o.subnets_to_ignore
      → build_in_mode is_cidr o ≡ ok (with_subnets o (map trim_space o.subnets_to_ignore))
  unfolding build_in_mode
  build_in_mode_complete o incoming outgoing subnets = simp (
    is_valid_port_complete _ incoming,
    is_valid_port_complete _ outgoing,
    sanitize_subnets_complete o.subnets_to_ignore subnets,
  )

  -- `BuildFirewallConfiguration` succeeds exactly on options that choose a mode, by its name or by
  -- the path of a known binary, with both proxy ports from 0 to 65535 and every subnet, trimmed, a
  -- CIDR address; and the configuration is then the one with that mode and the trimmed subnets.
  pub build_firewall_configuration-iff-Builds :
      (o : RootOptions) (fc : FirewallConfiguration)
      → ((build_firewall_configuration is_cidr o).0 ≡ ok fc) ↔ Builds o fc
  unfolding build_firewall_configuration build_with_mode
  build_firewall_configuration-iff-Builds o fc = (
    build_with_mode_sound o fc (resolve_mode o) refl,
    λ b.
        rw (resolve_mode_complete o b.mode b.chosen, build_with_mode, b.result)
          (build_in_mode_complete (record o { iptables_mode = b.mode }) b.incoming b.outgoing
            b.subnets),
  )
