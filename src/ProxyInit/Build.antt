-- ===== src/ProxyInit/Build.antt =====
-- `BuildFirewallConfiguration` and `getCommands` of proxy-init/cmd/root.go. `is_cidr` stands for
-- the test that `net.ParseCIDR` returns no error.
pub mod Laws
pub mod Family
use linkerd2_proxy_init.Base.{
  Bytes, codes, Bool, true, false, not, same, is_empty, List, [], ◌∷◌, Result, ok, err, ◌>>=◌, ◌&&◌,
  ◌||◌, if◌then◌else◌,
}
use linkerd2_proxy_init.Go.Strings.{trim_space}
use linkerd2_proxy_init.Ports.{is_valid_port}
use linkerd2_proxy_init.Iptables.Config.{
  FirewallConfiguration, redirect_all_mode, redirect_listed_mode,
}
use linkerd2_proxy_init.ProxyInit.Options.{
  RootOptions, iptables_mode_legacy, iptables_mode_nft, iptables_mode_plain, cmd_legacy,
  cmd_legacy_save, cmd_legacy_ipv6, cmd_legacy_ipv6_save, cmd_nft, cmd_nft_save, cmd_nft_ipv6,
  cmd_nft_ipv6_save, cmd_plain, cmd_plain_save, cmd_plain_ipv6, cmd_plain_ipv6_save,
}

-- The messages.
pub data OptionsError : Type 0 where
  bad_iptables_mode bad_firewall_bin_path bad_incoming_port bad_outgoing_port : OptionsError
  bad_subnet : Bytes → OptionsError

unfoldable pub get_commands : RootOptions → Bytes × Bytes
get_commands options =
    if same options.iptables_mode iptables_mode_legacy
    then (if options.ipv6
        then (cmd_legacy_ipv6, cmd_legacy_ipv6_save)
        else (cmd_legacy, cmd_legacy_save))
    else if same options.iptables_mode iptables_mode_nft
    then (if options.ipv6 then (cmd_nft_ipv6, cmd_nft_ipv6_save) else (cmd_nft, cmd_nft_save))
    else (if options.ipv6
        then (cmd_plain_ipv6, cmd_plain_ipv6_save)
        else (cmd_plain, cmd_plain_save))

-- The mode that the path of the binary, an older option, asks for.
unfoldable pub mode_of_bin_path : Bytes → Result OptionsError Bytes
mode_of_bin_path path =
    if is_empty path || same path cmd_legacy
    then ok iptables_mode_legacy
    else if same path cmd_nft
    then ok iptables_mode_nft
    else if same path cmd_plain
    then ok iptables_mode_plain
    else err bad_firewall_bin_path

unfoldable pub resolve_mode : RootOptions → Result OptionsError Bytes
unfolding mode_of_bin_path
resolve_mode options =
    if not (is_empty options.iptables_mode)
      && not (same options.iptables_mode iptables_mode_legacy)
      && not (same options.iptables_mode iptables_mode_nft)
      && not (same options.iptables_mode iptables_mode_plain)
    then err bad_iptables_mode
    else if is_empty options.iptables_mode
    then mode_of_bin_path options.firewall_bin_path
    else ok options.iptables_mode

unfoldable pub with_subnets : RootOptions → List Bytes → FirewallConfiguration
with_subnets options sanitized_subnets =
    let (cmd, cmd_save) = get_commands options in
    record {
      mode = if is_empty options.ports_to_redirect then redirect_all_mode else redirect_listed_mode;
      ports_to_redirect_inbound = options.ports_to_redirect;
      inbound_ports_to_ignore = options.inbound_ports_to_ignore;
      outbound_ports_to_ignore = options.outbound_ports_to_ignore;
      subnets_to_ignore = sanitized_subnets;
      proxy_inbound_port = options.incoming_proxy_port;
      proxy_outgoing_port = options.outgoing_proxy_port;
      proxy_uid = options.proxy_user_id;
      proxy_gid = options.proxy_group_id;
      simulate_only = options.simulate_only;
      net_ns = options.net_ns;
      use_wait_flag = options.use_wait_flag;
      bin_path = cmd;
      save_bin_path = cmd_save;
      continue_on_error = false;
    }

module _ (is_cidr : Bytes → Bool) where
  -- The loop over the subnets.
  unfoldable pub sanitize_subnets : List Bytes → Result OptionsError (List Bytes)
  sanitize_subnets [] = ok []
  sanitize_subnets (text ∷ texts) =
      let subnet = trim_space text in
      if is_cidr subnet
      then (do rest ← sanitize_subnets texts; ok (subnet ∷ rest))
      else err (bad_subnet subnet)

  -- What follows the choice of the mode.
  unfoldable pub build_in_mode : RootOptions → Result OptionsError FirewallConfiguration
  build_in_mode options =
      if not (is_valid_port options.incoming_proxy_port)
      then err bad_incoming_port
      else if not (is_valid_port options.outgoing_proxy_port)
      then err bad_outgoing_port
      else (do
        sanitized_subnets ← sanitize_subnets options.subnets_to_ignore
        ok (with_subnets options sanitized_subnets))

  -- The mode that is chosen is written into the options.
  unfoldable pub build_with_mode :
      RootOptions
      → Result OptionsError Bytes
      → Result OptionsError FirewallConfiguration × RootOptions
  build_with_mode options (err e) = (err e, options)
  build_with_mode options (ok mode) =
      let options' = record options { iptables_mode = mode } in (build_in_mode options', options')

  -- The options come back beside the result.
  unfoldable pub build_firewall_configuration :
      RootOptions → Result OptionsError FirewallConfiguration × RootOptions
  build_firewall_configuration options = build_with_mode options (resolve_mode options)
