-- ===== src/CniPlugin/Main.antt =====
-- `main` of cni-plugin/main.go: the functions that it hands to the CNI library, two of which do
-- nothing but log.
use linkerd2_proxy_init.Base.{Bytes, Bool, Option}
use linkerd2_proxy_init.Iptables.Commands.{Cmd}
use linkerd2_proxy_init.Iptables.Run.{Output}
use linkerd2_proxy_init.Task.{Done, done, return}
use linkerd2_proxy_init.CniPlugin.Config.{PluginConf, PluginTask}
use linkerd2_proxy_init.CniPlugin.Cluster.{Client}
use linkerd2_proxy_init.CniPlugin.Add.{CmdArgs, cmd_add}

pub record CniFuncs (W E : Type 0) : Type 0 where
  pub add : CmdArgs → PluginTask W E Done
  pub check : CmdArgs → PluginTask W E Done
  pub del : CmdArgs → PluginTask W E Done

abbrev pub cmd_check : {W E : Type 0} → CmdArgs → PluginTask W E Done
cmd_check args = return done

abbrev pub cmd_del : {W E : Type 0} → CmdArgs → PluginTask W E Done
cmd_del args = return done

-- `plugin_main_funcs` stands for skel.PluginMainFuncs, which reads the request and calls one of the
-- functions.
module _ {W E Raw R : Type 0} (run : Cmd → W → Output E × W) (has is_cidr : Bytes → Bool)
    (client : Client W E) (unmarshal : Bytes → Option (PluginConf Raw R))
    (result_of : Bytes → Raw → Option R) (load_args : Bytes → Option (Bytes × Bytes))
    (print_result : R → Bytes → W → Option E × W) (empty_result : R)
    (plugin_main_funcs : CniFuncs W E → W → W) where
  unfoldable pub cni_funcs : CniFuncs W E
  cni_funcs = record {
    add = cmd_add run has is_cidr client unmarshal result_of load_args print_result empty_result;
    check = cmd_check;
    del = cmd_del;
  }

  unfoldable pub main : W → W
  main w = plugin_main_funcs cni_funcs w
