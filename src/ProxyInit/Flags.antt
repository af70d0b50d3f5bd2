-- ===== src/ProxyInit/Flags.antt =====
-- The flags that `NewRootCmd` of proxy-init/cmd/root.go declares, without their help texts.
use linkerd2_proxy_init.Base.{Bytes, codes, Bool, ℤ, List, [], ◌∷◌}
use linkerd2_proxy_init.ProxyInit.Options.{RootOptions}

-- A pointer to a field of the options.
pub record Field (A : Type 0) : Type 0 where
  pub get : RootOptions → A
  pub set : A → RootOptions → RootOptions

-- The variable that a flag sets, by the type of its values.
pub data Variable : Type 0 where
  int_var : Field ℤ → Variable
  int_slice_var : Field (List ℤ) → Variable
  string_slice_var : Field (List Bytes) → Variable
  bool_var : Field Bool → Variable
  string_var : Field Bytes → Variable

pub record Flag : Type 0 where
  pub variable : Variable
  pub name : Bytes
  -- One letter, or none.
  pub shorthand : Bytes

abbrev flag : Variable → Bytes → Bytes → Flag
flag variable name shorthand = record { variable = variable; name = name; shorthand = shorthand }

unfoldable pub persistent_flags : List Flag
persistent_flags =
    flag
      (int_var (record {
        get = λ o. o.incoming_proxy_port;
        set = λ v o. record o { incoming_proxy_port = v };
      }))
      (codes "incoming-proxy-port") (codes "p")
    ∷ flag
        (int_var (record {
          get = λ o. o.outgoing_proxy_port;
          set = λ v o. record o { outgoing_proxy_port = v };
        }))
        (codes "outgoing-proxy-port") (codes "o")
    ∷ flag
        (int_var
          (record { get = λ o. o.proxy_user_id; set = λ v o. record o { proxy_user_id = v } }))
        (codes "proxy-uid") (codes "u")
    ∷ flag
        (int_var
          (record { get = λ o. o.proxy_group_id; set = λ v o. record o { proxy_group_id = v } }))
        (codes "proxy-gid") (codes "g")
    ∷ flag
        (int_slice_var (record {
          get = λ o. o.ports_to_redirect;
          set = λ v o. record o { ports_to_redirect = v };
        }))
        (codes "ports-to-redirect") (codes "r")
    ∷ flag
        (string_slice_var (record {
          get = λ o. o.inbound_ports_to_ignore;
          set = λ v o. record o { inbound_ports_to_ignore = v };
        }))
        (codes "inbound-ports-to-ignore") []
    ∷ flag
        (string_slice_var (record {
          get = λ o. o.outbound_ports_to_ignore;
          set = λ v o. record o { outbound_ports_to_ignore = v };
        }))
        (codes "outbound-ports-to-ignore") []
    ∷ flag
        (string_slice_var (record {
          get = λ o. o.subnets_to_ignore;
          set = λ v o. record o { subnets_to_ignore = v };
        }))
        (codes "subnets-to-ignore") []
    ∷ flag
        (bool_var
          (record { get = λ o. o.simulate_only; set = λ v o. record o { simulate_only = v } }))
        (codes "simulate") []
    ∷ flag (string_var (record { get = λ o. o.net_ns; set = λ v o. record o { net_ns = v } }))
        (codes "netns") []
    ∷ flag
        (bool_var
          (record { get = λ o. o.use_wait_flag; set = λ v o. record o { use_wait_flag = v } }))
        (codes "use-wait-flag") (codes "w")
    ∷ flag
        (int_var (record {
          get = λ o. o.timeout_close_wait_secs;
          set = λ v o. record o { timeout_close_wait_secs = v };
        }))
        (codes "timeout-close-wait-secs") []
    ∷ flag
        (string_var (record { get = λ o. o.log_format; set = λ v o. record o { log_format = v } }))
        (codes "log-format") []
    ∷ flag (string_var (record { get = λ o. o.log_level; set = λ v o. record o { log_level = v } }))
        (codes "log-level") []
    ∷ flag
        (string_var
          (record { get = λ o. o.iptables_mode; set = λ v o. record o { iptables_mode = v } }))
        (codes "iptables-mode") []
    ∷ flag (bool_var (record { get = λ o. o.ipv6; set = λ v o. record o { ipv6 = v } }))
        (codes "ipv6") []
    ∷ flag
        (string_var (record {
          get = λ o. o.firewall_bin_path;
          set = λ v o. record o { firewall_bin_path = v };
        }))
        (codes "firewall-bin-path") []
    ∷ flag
        (string_var (record {
          get = λ o. o.firewall_save_bin_path;
          set = λ v o. record o { firewall_save_bin_path = v };
        }))
        (codes "firewall-save-bin-path") []
    ∷ []
