-- ===== src/Iptables/Commands.antt =====
-- The command lines that pkg/iptables/iptables.go builds: the `make…` methods. The program is the
-- first argument, as in `exec.Cmd.Args`.
use linkerd2_proxy_init.Base.{Bytes, codes, Bool, ℤ, List, [], ◌∷◌, ◌++◌, if◌then◌else◌}
use linkerd2_proxy_init.Go.Strconv.{itoa}
use linkerd2_proxy_init.Go.Strings.{join}
use linkerd2_proxy_init.Iptables.Config.{FirewallConfiguration}

pub record Cmd : Type 0 where
  pub args : List Bytes

-- `exec.Command(name, arg...)`
abbrev pub command : Bytes → List Bytes → Cmd
command name arg = record { args = name ∷ arg }

unfoldable pub format_comment : Bytes → Bytes
format_comment text = codes "proxy-init/" ++ text

-- The arguments that every command on the table of address translation begins with.
abbrev pub nat : Bytes → Bytes → List Bytes → List Bytes
nat action name rest = codes "-t" ∷ codes "nat" ∷ action ∷ name ∷ rest

-- The arguments that every rule ends with.
abbrev pub commented : Bytes → List Bytes
commented comment = codes "-m" ∷ codes "comment" ∷ codes "--comment" ∷ format_comment comment ∷ []

module _ (fc : FirewallConfiguration) where
  unfoldable pub make_ignore_user_id : Bytes → ℤ → Bytes → Cmd
  make_ignore_user_id chain_name uid comment = command fc.bin_path (
      nat (codes "-A") chain_name (
        codes "-m"
        ∷ codes "owner"
        ∷ codes "--uid-owner"
        ∷ itoa uid
        ∷ codes "-j"
        ∷ codes "RETURN"
        ∷ commented comment))

  unfoldable pub make_ignore_group_id : Bytes → ℤ → Bytes → Cmd
  make_ignore_group_id chain_name gid comment = command fc.bin_path (
      nat (codes "-A") chain_name (
        codes "-m"
        ∷ codes "owner"
        ∷ codes "--gid-owner"
        ∷ itoa gid
        ∷ codes "-j"
        ∷ codes "RETURN"
        ∷ commented comment))

  unfoldable pub make_flush_chain : Bytes → Cmd
  make_flush_chain name = command fc.bin_path (nat (codes "-F") name [])

  unfoldable pub make_delete_chain : Bytes → Cmd
  make_delete_chain name = command fc.bin_path (nat (codes "-X") name [])

  unfoldable pub make_create_new_chain : Bytes → Cmd
  make_create_new_chain name = command fc.bin_path (nat (codes "-N") name [])

  unfoldable pub make_redirect_chain_to_port : Bytes → ℤ → Bytes → Cmd
  make_redirect_chain_to_port chain_name port_to_redirect comment = command fc.bin_path (
      nat (codes "-A") chain_name (
        codes "-p"
        ∷ codes "tcp"
        ∷ codes "-j"
        ∷ codes "REDIRECT"
        ∷ codes "--to-port"
        ∷ itoa port_to_redirect
        ∷ commented comment))

  unfoldable pub make_ignore_ports : Bytes → List Bytes → Bytes → Cmd
  make_ignore_ports chain_name destinations comment = command fc.bin_path (
      nat (codes "-A") chain_name (
        codes "-p"
        ∷ codes "tcp"
        ∷ codes "--match"
        ∷ codes "multiport"
        ∷ codes "--dports"
        ∷ join destinations (codes ",")
        ∷ codes "-j"
        ∷ codes "RETURN"
        ∷ commented comment))

  unfoldable pub make_ignore_subnet : Bytes → Bytes → Bytes → Cmd
  make_ignore_subnet chain_name subnet comment = command fc.bin_path (
      nat (codes "-A") chain_name (
        codes "-p"
        ∷ codes "all"
        ∷ codes "-j"
        ∷ codes "RETURN"
        ∷ codes "-s"
        ∷ subnet
        ∷ commented comment))

  unfoldable pub make_ignore_loopback : Bytes → Bytes → Cmd
  make_ignore_loopback chain_name comment = command fc.bin_path (
      nat (codes "-A") chain_name
        (codes "-o" ∷ codes "lo" ∷ codes "-j" ∷ codes "RETURN" ∷ commented comment))

  unfoldable pub make_redirect_chain_to_port_based_on_destination_port : Bytes → ℤ → ℤ → Bytes → Cmd
  make_redirect_chain_to_port_based_on_destination_port chain_name destination_port port_to_redirect
        comment =
      command fc.bin_path (
        nat (codes "-A") chain_name (
          codes "-p"
          ∷ codes "tcp"
          ∷ codes "--destination-port"
          ∷ itoa destination_port
          ∷ codes "-j"
          ∷ codes "REDIRECT"
          ∷ codes "--to-port"
          ∷ itoa port_to_redirect
          ∷ commented comment))

  unfoldable pub make_jump_from_chain_to_another_for_all_protocols :
      Bytes → Bytes → Bytes → Bool → Cmd
  make_jump_from_chain_to_another_for_all_protocols chain_name target_chain comment delete_chain =
      command fc.bin_path (
        nat (if delete_chain then codes "-D" else codes "-A") chain_name
          (codes "-j" ∷ target_chain ∷ commented comment))

  unfoldable pub make_show_all_rules : Cmd
  make_show_all_rules = command fc.save_bin_path (codes "-t" ∷ codes "nat" ∷ [])
