-- ===== src/Tests/ProxyInit.antt =====
-- Tests of proxy-init/cmd/root.go.
use linkerd2_proxy_init.Base.{
  Bytes, ℤ, List, Option, some, ◌++◌, ◌⊎◌, if◌then◌else◌, ℕ, codes, Bool, true, false, pos, none,
  [], ◌∷◌, ok, ◌≡◌, ◌↔◌, refl, same,
}
use linkerd2_proxy_init.Go.Strings.{trim_space}
use linkerd2_proxy_init.Go.Strconv.{atoi}
use linkerd2_proxy_init.Ports.{is_valid_port}
use linkerd2_proxy_init.Iptables.Config.{FirewallConfiguration}
use linkerd2_proxy_init.Iptables.Run.Outcomes.{simulate_only_runs_nothing}
use linkerd2_proxy_init.ProxyInit.Options.{RootOptions, new_root_options}
use linkerd2_proxy_init.ProxyInit.Build.{
  resolve_mode, sanitize_subnets, with_subnets, build_in_mode, build_with_mode,
  build_firewall_configuration,
}
use linkerd2_proxy_init.ProxyInit.Build.Laws.{
  Chooses, Builds, build_firewall_configuration-iff-Builds,
}
use linkerd2_proxy_init.ProxyInit.Build.Family.{build_ipv6_like_ipv4, HasBinaries}
use linkerd2_proxy_init.ProxyInit.Run.{
  then_run, tag_error, set_timeout, set_log_level, configure_built, configure_family, run_e,
}
use linkerd2_proxy_init.ProxyInit.Run.Laws.{run_e_simulated}
use linkerd2_proxy_init.ProxyInit.Flags.{
  Flag, Variable, int_var, int_slice_var, string_slice_var, bool_var, string_var, persistent_flags,
}
use linkerd2_proxy_init.ProxyInit.Main.{Parsed, assigned, help, refused, main, execute, exit_code}
use linkerd2_proxy_init.ProxyInit.Main.Laws.{Succeeds, main_success}
use linkerd2_proxy_init.Tests.Configs.{options, everywhere, one_cidr, counting}

abbrev built : Bool → FirewallConfiguration
built ipv6 = with_subnets (record options { ipv6 = ipv6 }) (codes "10.0.0.0/8" ∷ [])

builds :
    (ipv6 : Bool)
    → (build_firewall_configuration one_cidr (record options { ipv6 = ipv6 })).0 ≡ ok (built ipv6)
unfolding build_firewall_configuration build_with_mode build_in_mode resolve_mode sanitize_subnets
    trim_space is_valid_port same
builds ipv6 = refl

build_firewall_configuration-iff-Builds_example :
    ((build_firewall_configuration one_cidr options).0 ≡ ok (built true))
    ↔ Builds one_cidr options (built true)
build_firewall_configuration-iff-Builds_example =
    build_firewall_configuration-iff-Builds one_cidr options (built true)

build_ipv6_like_ipv4_example :
    (f₆ : FirewallConfiguration) × ((build_firewall_configuration one_cidr
        (record options { ipv6 = true })).0
      ≡ ok f₆)
    × (f₆ ≡ record (built false) { bin_path = f₆.bin_path; save_bin_path = f₆.save_bin_path })
    × ((mode : Bytes) × Chooses options mode
        × HasBinaries mode false (built false)
        × HasBinaries mode true f₆)
build_ipv6_like_ipv4_example = build_ipv6_like_ipv4 one_cidr options (built false) (builds false)

family_runs :
    (ipv6 : Bool)
    → configure_family counting everywhere one_cidr everywhere (record options { ipv6 = ipv6 }) 7
      ≡ (none, 7)
unfolding configure_family configure_built tag_error with_subnets
family_runs ipv6 =
    rw (builds ipv6) (rw (simulate_only_runs_nothing counting everywhere (built ipv6) 7 refl).0)

runs : run_e counting everywhere one_cidr everywhere options 7 ≡ (none, 7)
unfolding run_e set_timeout set_log_level then_run
runs = rw (family_runs false) (family_runs true)

abbrev timed : RootOptions
timed = record options { timeout_close_wait_secs = pos 30 }

run_e_simulated_example : (run_e counting everywhere one_cidr everywhere timed 7).1 ≡ 8
run_e_simulated_example = run_e_simulated counting everywhere one_cidr everywhere timed 7 refl

-- Arguments in pairs, a flag and its value, of which a list has one element.
write_int : (ℤ → RootOptions) → Option ℤ → Option RootOptions
write_int set none = none
write_int set (some i) = some (set i)

write : Variable → Bytes → RootOptions → Option RootOptions
unfolding write_int
write (int_var f) text o = write_int (λ i. f.set i o) (atoi text)
write (int_slice_var f) text o = write_int (λ i. f.set (i ∷ []) o) (atoi text)
write (string_slice_var f) text o = some (f.set (text ∷ []) o)
write (bool_var f) text o = some (f.set (same text (codes "true")) o)
write (string_var f) text o = some (f.set text o)

write_flag : List Flag → Bytes → Bytes → RootOptions → Option RootOptions
unfolding write
write_flag [] name text o = none
write_flag (f ∷ fs) name text o =
    let others = write_flag fs name text o in
    if same (codes "--" ++ f.name) name then write f.variable text o else others

parse_pairs : List Flag → List Bytes → Option RootOptions → Parsed
unfolding write_flag
parse_pairs flags args none = refused
parse_pairs flags [] (some o) = assigned o
parse_pairs flags (name ∷ []) (some o) = if same name (codes "--help") then help else refused
parse_pairs flags (name ∷ text ∷ args) (some o) =
    parse_pairs flags args (write_flag flags name text o)

parse : List Flag → RootOptions → List Bytes → Parsed
unfolding parse_pairs
parse flags o args = parse_pairs flags args (some o)

abbrev args : List Bytes
args =
    codes "--incoming-proxy-port"
    ∷ codes "4143"
    ∷ codes "--outgoing-proxy-port"
    ∷ codes "4140"
    ∷ codes "--proxy-uid"
    ∷ codes "2102"
    ∷ codes "--inbound-ports-to-ignore"
    ∷ codes "4190,4191"
    ∷ codes "--subnets-to-ignore"
    ∷ codes " 10.0.0.0/8"
    ∷ codes "--simulate"
    ∷ codes "true"
    ∷ codes "--iptables-mode"
    ∷ codes "nft"
    ∷ []

parsed : parse persistent_flags new_root_options args ≡ assigned options
unfolding parse persistent_flags new_root_options same atoi
parsed = refl

exits : main counting everywhere one_cidr everywhere parse args 7 ≡ (0, 7)
unfolding main execute exit_code
exits = rw (parsed, runs) refl

main_success_example :
    (parse persistent_flags new_root_options args ≡ help) × (◌≡◌ {A = ℕ} 7 7)
    ⊎ (o : RootOptions) × (parse persistent_flags new_root_options args ≡ assigned o)
      × Succeeds counting everywhere one_cidr everywhere parse o 7 7
main_success_example = main_success counting everywhere one_cidr everywhere parse args 7 7 exits
