-- ===== src/Cni/Paths.antt =====
-- internal/cni/paths.go: the environment variables of the installer and the names made from them.
-- `getenv` is `os.Getenv`.
use linkerd2_proxy_init.Base.{Bytes, codes, is_empty, [], ◌∷◌, if◌then◌else◌}
use linkerd2_proxy_init.Go.Pathname.{join_path}

pub record EnvVar : Type 0 where
  pub key : Bytes
  pub default_val : Bytes

abbrev pub cni_bin_dir : EnvVar
cni_bin_dir = record { key = codes "DEST_CNI_BIN_DIR"; default_val = codes "/opt/cni/bin" }

abbrev pub cni_config_dir : EnvVar
cni_config_dir = record { key = codes "DEST_CNI_NET_DIR"; default_val = codes "/etc/cni/net.d" }

abbrev pub cni_network_config_file : EnvVar
cni_network_config_file = record { key = codes "CNI_NETWORK_CONFIG_FILE"; default_val = [] }

abbrev pub container_cni_bin_dir : EnvVar
container_cni_bin_dir = record {
  key = codes "CONTAINER_CNI_BIN_DIR";
  default_val = codes "/opt/cni/bin";
}

abbrev pub container_mount_prefix : EnvVar
container_mount_prefix = record {
  key = codes "CONTAINER_MOUNT_PREFIX";
  default_val = codes "/host";
}

abbrev pub kube_ca_file : EnvVar
kube_ca_file = record { key = codes "KUBE_CA_FILE"; default_val = [] }

abbrev pub kube_config_filename_var : EnvVar
kube_config_filename_var = record {
  key = codes "KUBECONFIG_FILE_NAME";
  default_val = codes "ZZZ-linkerd-cni-kubeconfig";
}

abbrev pub svc_host : EnvVar
svc_host = record { key = codes "KUBERNETES_SERVICE_HOST"; default_val = [] }

abbrev pub svc_port : EnvVar
svc_port = record { key = codes "KUBERNETES_SERVICE_PORT"; default_val = [] }

module _ (getenv : Bytes → Bytes) where
  unfoldable pub get_var : EnvVar → Bytes
  get_var v = let val = getenv v.key in if is_empty val then v.default_val else val

  unfoldable pub host_cni_bin : Bytes
  host_cni_bin = join_path (get_var container_mount_prefix ∷ get_var cni_bin_dir ∷ [])

  unfoldable pub host_cni_config : Bytes
  host_cni_config = join_path (get_var container_mount_prefix ∷ get_var cni_config_dir ∷ [])

  unfoldable pub kube_config_filename : Bytes
  kube_config_filename = join_path (
      get_var container_mount_prefix
      ∷ get_var cni_config_dir
      ∷ get_var kube_config_filename_var
      ∷ [])

  unfoldable pub plugin_kube_config_filename : Bytes
  plugin_kube_config_filename =
      join_path (get_var cni_config_dir ∷ get_var kube_config_filename_var ∷ [])
