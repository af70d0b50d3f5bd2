-- ===== src/CniPlugin/Config.antt =====
-- The configuration of the plugin, and `parseConfig`.
use linkerd2_proxy_init.Base.{Bytes, Bool, ℤ, Option, none, some, List, Result, ok, err}
use linkerd2_proxy_init.Task.{Task}
use linkerd2_proxy_init.ProxyInit.Build.{OptionsError}

pub record ProxyInit : Type 0 where
  pub incoming_proxy_port : ℤ
  pub outgoing_proxy_port : ℤ
  pub proxy_uid : ℤ
  pub proxy_gid : ℤ
  pub ports_to_redirect : List ℤ
  pub inbound_ports_to_ignore : List Bytes
  pub outbound_ports_to_ignore : List Bytes
  pub subnets_to_ignore : List Bytes
  pub simulate : Bool
  pub use_wait_flag : Bool
  pub iptables_mode : Bytes
  pub ipv6 : Bool

-- `Raw` is the type of `RawPrevResult`, `R` that of the results of the CNI library.
pub record PluginConf (Raw R : Type 0) : Type 0 where
  pub cni_version : Bytes
  pub raw_prev_result : Option Raw
  pub prev_result : Option R
  pub proxy_init : ProxyInit
  pub kubeconfig : Bytes

-- Where an error comes from; `E` is the type of the errors of the cluster and of the commands.
pub data PluginError (E : Type 0) : Type 0 where
  bad_configuration bad_prev_result bad_args not_an_integer : PluginError E
  cluster_failed firewall_failed print_failed : E → PluginError E
  bad_options : OptionsError → PluginError E

abbrev pub PluginTask : Type 0 → Type 0 → Type 0 → Type 0
PluginTask W E A = Task W (PluginError E) A

-- `unmarshal` is json.Unmarshal into an empty `PluginConf`; `result_of` writes `RawPrevResult` as
-- JSON and reads that as a result of the version (json.Marshal, version.NewResult,
-- NewResultFromResult).
module _ {Raw R : Type 0} (unmarshal : Bytes → Option (PluginConf Raw R))
    (result_of : Bytes → Raw → Option R) where
  unfoldable pub with_prev_result :
      {E : Type 0} → PluginConf Raw R → Option R → Result (PluginError E) (PluginConf Raw R)
  with_prev_result conf none = err bad_prev_result
  with_prev_result conf (some r) = ok (record conf { raw_prev_result = none; prev_result = some r })

  unfoldable pub convert_prev_result :
      {E : Type 0} → PluginConf Raw R → Option Raw → Result (PluginError E) (PluginConf Raw R)
  convert_prev_result conf none = ok conf
  convert_prev_result conf (some raw) = with_prev_result conf (result_of conf.cni_version raw)

  unfoldable pub parsed :
      {E : Type 0} → Option (PluginConf Raw R) → Result (PluginError E) (PluginConf Raw R)
  parsed none = err bad_configuration
  parsed (some conf) = convert_prev_result conf conf.raw_prev_result

  unfoldable pub parse_config : {E : Type 0} → Bytes → Result (PluginError E) (PluginConf Raw R)
  parse_config stdin = parsed (unmarshal stdin)
