-- ===== src/Tests/DualStack.antt =====
-- A machine with a table for either family of addresses, and a run of proxy-init on it.
use linkerd2_proxy_init.Base.{
  Bytes, codes, Bool, true, false, same, none, List, [], ◌∷◌, ◌≡◌, refl, ok, All, if◌then◌else◌,
}
use linkerd2_proxy_init.Go.Strings.{trim_space, contains}
use linkerd2_proxy_init.Ports.{is_valid_port}
use linkerd2_proxy_init.Iptables.Config.{FirewallConfiguration}
use linkerd2_proxy_init.Iptables.Commands.{Cmd, make_show_all_rules}
use linkerd2_proxy_init.Iptables.Fallback.{resolve_bin_fallback}
use linkerd2_proxy_init.Iptables.Run.{Output, in_namespace, with_wait_flag}
use linkerd2_proxy_init.Iptables.Chains.{Rule, Chains, Op, create, flush, delete, append, remove}
use linkerd2_proxy_init.Iptables.Ops.{op_command}
use linkerd2_proxy_init.Iptables.Host.{Host, request, listing}
use linkerd2_proxy_init.Iptables.Install.{installed}
use linkerd2_proxy_init.Iptables.Families.{DualHost}
use linkerd2_proxy_init.ProxyInit.Options.{RootOptions}
use linkerd2_proxy_init.ProxyInit.Build.{
  resolve_mode, get_commands, sanitize_subnets, with_subnets, build_in_mode, build_with_mode,
  build_firewall_configuration,
}
use linkerd2_proxy_init.ProxyInit.Run.{run_e}
use linkerd2_proxy_init.ProxyInit.Run.DualStack.{IsReady, run_e-installed}
use linkerd2_proxy_init.Tests.Configs.{config, options, everywhere, one_cidr}
use linkerd2_proxy_init.Tests.Machine.{machine, act, machine_run, applied, listed, listed-Saves}
use linkerd2_proxy_init.Tests.Listing.{print, prints_jump}
use linkerd2_proxy_init.Tests.Tables.{foreign, table, foreign-IsLegible}

abbrev pub Tables : Type 0
Tables = Chains × Chains

abbrev is_ipv6 : List Bytes → Bool
is_ipv6 [] = false
is_ipv6 (program ∷ rest) = contains program (codes "ip6")

abbrev on_first : Output (Unit {0}) × Chains → Chains → Output (Unit {0}) × Tables
on_first (o, k) other = (o, (k, other))

abbrev on_second : Output (Unit {0}) × Chains → Chains → Output (Unit {0}) × Tables
on_second (o, k) other = (o, (other, k))

-- The name of the program says which table is meant.
dual_run : Cmd → Tables → Output (Unit {0}) × Tables
dual_run cmd (k₄, k₆) =
    if is_ipv6 cmd.args then on_second (machine_run cmd k₆) k₄ else on_first (machine_run cmd k₄) k₆

abbrev pub real_options : RootOptions
real_options = record options { simulate_only = false }

abbrev pub family : Bool → FirewallConfiguration
family ipv6 = with_subnets (record real_options { ipv6 = ipv6 }) (codes "10.0.0.0/8" ∷ [])

-- The requests of either family are those of any other configuration, but for the program.
runs₄ :
    (op : Op) (w : Tables)
    → dual_run (request (family false) op) w ≡ on_first (machine_run (request config op) w.0) w.1
unfolding dual_run machine_run act contains with_subnets get_commands op_command in_namespace
    with_wait_flag same
runs₄ (create c) w = refl
runs₄ (flush c) w = refl
runs₄ (delete c) w = refl
runs₄ (append c r) w = refl
runs₄ (remove c r) w = refl

runs₆ :
    (op : Op) (w : Tables)
    → dual_run (request (family true) op) w ≡ on_second (machine_run (request config op) w.1) w.0
unfolding dual_run machine_run act contains with_subnets get_commands op_command in_namespace
    with_wait_flag same
runs₆ (create c) w = refl
runs₆ (flush c) w = refl
runs₆ (delete c) w = refl
runs₆ (append c r) w = refl
runs₆ (remove c r) w = refl

lists₄ :
    (w : Tables)
    → dual_run (listing (family false)) w ≡ on_first (machine_run (listing config) w.0) w.1
unfolding dual_run machine_run act contains with_subnets get_commands make_show_all_rules
    in_namespace same
lists₄ w = refl

lists₆ :
    (w : Tables)
    → dual_run (listing (family true)) w ≡ on_second (machine_run (listing config) w.1) w.0
unfolding dual_run machine_run act contains with_subnets get_commands make_show_all_rules
    in_namespace same
lists₆ w = refl

first : Host (family false) Tables (Unit {0})
first = record {
  run = dual_run;
  chains = λ w. w.0;
  accepts = λ k r. Unit;
  accepts_jump = λ k target comment rs h. tt;
  applies = λ w op k s. rw (runs₄ op w) (applied w.0 op k s);
  lists = λ w. rw (lists₄ w) (listed w.0);
  print = print;
  prints_jump = prints_jump;
  saves = λ w. rw (lists₄ w) (listed-Saves w.0);
}

second : Host (family true) Tables (Unit {0})
second = record {
  run = dual_run;
  chains = λ w. w.1;
  accepts = λ k r. Unit;
  accepts_jump = λ k target comment rs h. tt;
  applies = λ w op k s. rw (runs₆ op w) (applied w.1 op k s);
  lists = λ w. rw (lists₆ w) (listed w.1);
  print = print;
  prints_jump = prints_jump;
  saves = λ w. rw (lists₆ w) (listed-Saves w.1);
}

pub both : DualHost (family false) (family true) Tables (Unit {0})
unfolding first second
both = record {
  ipv4 = first;
  ipv6 = second;
  shared = refl;
  ipv4_applies = λ w op. rw (runs₄ op w) refl;
  ipv4_lists = λ w. rw (lists₄ w) refl;
  ipv6_applies = λ w op. rw (runs₆ op w) refl;
  ipv6_lists = λ w. rw (lists₆ w) refl;
}

fine₄ : (rs : List Rule) → All (λ r. (k : Chains) → both.ipv4.accepts k r) rs
unfolding both first
fine₄ [] = tt
fine₄ (r ∷ rs) = (λ k. tt, fine₄ rs)

fine₆ : (rs : List Rule) → All (λ r. (k : Chains) → both.ipv6.accepts k r) rs
unfolding both second
fine₆ [] = tt
fine₆ (r ∷ rs) = (λ k. tt, fine₆ rs)

builds :
    (ipv6 : Bool)
    → (build_firewall_configuration one_cidr (record real_options { ipv6 = ipv6 })).0
      ≡ ok (family ipv6)
unfolding build_firewall_configuration build_with_mode build_in_mode resolve_mode sanitize_subnets
    trim_space is_valid_port same
builds ipv6 = refl

pub ready₄ :
    (o : RootOptions)
    → (build_firewall_configuration one_cidr o).0 ≡ ok (family false)
    → IsReady everywhere one_cidr o (family false) both.ipv4 (table, table)
unfolding both first resolve_bin_fallback same with_subnets print machine
ready₄ o built = record {
  config = family false;
  built = built;
  resolved = refl;
  real = refl;
  redirect_fine = fine₄ _;
  output_fine = fine₄ _;
  inbound_parent = foreign ∷ [];
  has_prerouting = refl;
  inbound_legible = foreign-IsLegible;
  outbound_parent = [];
  has_output = refl;
  outbound_legible = tt;
}

pub ready₆ :
    (o : RootOptions)
    → (build_firewall_configuration one_cidr o).0 ≡ ok (family true)
    → IsReady everywhere one_cidr o (family true) both.ipv6 (table, table)
unfolding both second resolve_bin_fallback same with_subnets print machine
ready₆ o built = record {
  config = family true;
  built = built;
  resolved = refl;
  real = refl;
  redirect_fine = fine₆ _;
  output_fine = fine₆ _;
  inbound_parent = foreign ∷ [];
  has_prerouting = refl;
  inbound_legible = foreign-IsLegible;
  outbound_parent = [];
  has_output = refl;
  outbound_legible = tt;
}

run_e-installed_example :
    ((run_e both.ipv4.run everywhere one_cidr everywhere real_options (table, table)).0 ≡ none)
    × (both.ipv4.chains
          (run_e both.ipv4.run everywhere one_cidr everywhere real_options (table, table)).1
        ≡ installed (family false) (both.ipv4.chains (table, table)))
    × (both.ipv6.chains
          (run_e both.ipv4.run everywhere one_cidr everywhere real_options (table, table)).1
        ≡ installed (family true) (both.ipv6.chains (table, table)))
run_e-installed_example =
    run_e-installed everywhere one_cidr everywhere real_options (family false) (family true) both
      (table, table) refl refl refl (ready₄ _ (builds false)) (ready₆ _ (builds true))
