-- ===== src/Cni/Kubeconfig.antt =====
-- `reconfigureK8s` of internal/cni/conf.go and its template.
pub mod Laws
use linkerd2_proxy_init.Base.{ℕ, Bytes, codes, not, is_empty, List, [], ◌∷◌, ◌++◌, if◌then◌else◌}
use linkerd2_proxy_init.Task.{Done, then_task, ◌>>=◌, return, fail}
use linkerd2_proxy_init.Go.Base64.{encode_base64}
use linkerd2_proxy_init.Go.Pathname.{clean, join_path, dir, base}
use linkerd2_proxy_init.Go.Strings.{join, trim_space}
use linkerd2_proxy_init.Cni.Os.{Os}
use linkerd2_proxy_init.Cni.Paths.{get_var, kube_ca_file, svc_host, svc_port}
use linkerd2_proxy_init.Cni.Log.{k8s_file}
use linkerd2_proxy_init.Cni.Installer.{
  Act, empty_token, empty_certificate, empty_host, empty_port, asking, doing, opening, ignoring,
  or_cleanup, require, add_entry,
}
use linkerd2_proxy_init.Cni.Configure.{write_file_perm}

pub record K8sConfigData : Type 0 where
  pub auth_token : Bytes
  pub certificate_authority_data : Bytes
  pub service_host : Bytes
  pub service_port : Bytes

-- `{{ if .CertificateAuthorityData }}`
unfoldable pub certificate_line : Bytes → Bytes
certificate_line authority =
    if is_empty authority then [] else codes "    certificate-authority-data: " ++ authority

-- The template, filled in.
unfoldable pub k8s_config : K8sConfigData → Bytes
k8s_config d =
    join
      (codes "# kubeconfig file for linkerd.io/cni-plugin"
        ∷ codes "apiVersion: v1"
        ∷ codes "kind: Config"
        ∷ codes "clusters:"
        ∷ codes "- name: local"
        ∷ codes "  cluster:"
        ∷ (codes "    server: https://" ++ (d.service_host ++ b':' ∷ d.service_port))
        ∷ certificate_line d.certificate_authority_data
        ∷ codes "users:"
        ∷ codes "- name: linkerd-cni"
        ∷ codes "  user:"
        ∷ (codes "    token: " ++ d.auth_token)
        ∷ codes "contexts:"
        ∷ codes "- name: linkerd-cni-context"
        ∷ codes "  context:"
        ∷ codes "    cluster: local"
        ∷ codes "    user: linkerd-cni"
        ∷ codes "current-context: linkerd-cni-context"
        ∷ [])
      (0x0a ∷ [])

unfoldable pub k8s_tmp_file : Bytes → Bytes
k8s_tmp_file dst = join_path (dir dst ∷ (base dst ++ codes ".install") ∷ [])

module _ {W E : Type 0} (os : Os W E) where
  unfoldable pub cert_filename : Bytes → Bytes
  cert_filename src_token =
      let override = get_var os.getenv kube_ca_file in
      if is_empty override then join_path (dir src_token ∷ codes "ca.crt" ∷ []) else override

  -- What the template is filled with.
  unfoldable pub read_config_data : Bytes → Act W E K8sConfigData
  read_config_data src_token = do
    token_data ← asking (os.read_file (clean src_token))
    has_token ← require (not (is_empty token_data)) empty_token
    cert_data ← asking (os.read_file (clean (cert_filename src_token)))
    has_cert ← require (not (is_empty cert_data)) empty_certificate
    has_host ← require (not (is_empty (get_var os.getenv svc_host))) empty_host
    has_port ← require (not (is_empty (get_var os.getenv svc_port))) empty_port
    return (record {
      auth_token = trim_space token_data;
      certificate_authority_data = encode_base64 (trim_space cert_data);
      service_host = get_var os.getenv svc_host;
      service_port = get_var os.getenv svc_port;
    })

  -- The text is written under another name first.
  unfoldable pub store_config : Bytes → Bytes → Act W E Done
  store_config dst text = do
    dst_w ← opening (os.open_file (clean (k8s_tmp_file dst)) write_file_perm)
    executed ← or_cleanup (doing (os.write dst_w text)) (ignoring (os.close dst_w))
    synced ← or_cleanup (doing (os.sync dst_w)) (ignoring (os.close dst_w))
    closed ← doing (os.close dst_w)
    renamed ← doing (os.rename (k8s_tmp_file dst) dst)
    add_entry (k8s_file dst)

  unfoldable pub reconfigure_k8s : Bytes → Bytes → Act W E Done
  reconfigure_k8s dst src_token = do
    config_data ← read_config_data src_token
    store_config dst (k8s_config config_data)
