-- ===== src/Cni/Kubeconfig/Laws.antt =====
-- What a successful `reconfigureK8s` leaves.
use linkerd2_proxy_init.Base.{
  ℕ, Bytes, not, is_empty, true, false, Bool, same_refl, none, ok, ◌≡◌, arith, ap, sym, ◌∙◌,
}
use linkerd2_proxy_init.Task.{Done, done, then_task_success, returned}
use linkerd2_proxy_init.Go.Base64.{encode_base64}
use linkerd2_proxy_init.Go.Pathname.{clean}
use linkerd2_proxy_init.Go.Strings.{trim_space}
use linkerd2_proxy_init.Cni.Os.{Os}
use linkerd2_proxy_init.Cni.Paths.{get_var, svc_host, svc_port}
use linkerd2_proxy_init.Cni.Log.{k8s_file, filename, is_indexed}
use linkerd2_proxy_init.Cni.Log.Laws.{is_indexed-append_entry}
use linkerd2_proxy_init.Cni.Installer.{
  Machine, empty_token, empty_certificate, empty_host, empty_port, asking, doing, opening,
  or_cleanup, ignoring, require, add_entry,
}
use linkerd2_proxy_init.Cni.Installer.Laws.{
  doing_success, asking_success, opening_success, require_success, cleaned_up_success,
}
use linkerd2_proxy_init.Cni.Configure.{write_file_perm}
use linkerd2_proxy_init.Cni.Kubeconfig.{
  K8sConfigData, k8s_config, k8s_tmp_file, cert_filename, read_config_data, store_config,
  reconfigure_k8s,
}

-- A text that is written to a file of a clean name, which is then closed and renamed, is what the
-- new name reads.
abbrev pub WritesOut : {W E : Type 0} → Os W E → Type 0
WritesOut {W} {E} os =
    (t f text : Bytes) (mode h : ℕ) (w w₁ w₂ w₃ w₄ w₅ : W)
    → clean t ≡ t
    → os.open_file t mode w ≡ (ok h, w₁)
    → os.write h text w₁ ≡ (none, w₂)
    → os.sync h w₂ ≡ (none, w₃)
    → os.close h w₃ ≡ (none, w₄)
    → os.rename t f w₄ ≡ (none, w₅)
    → os.read_file f w₅ ≡ ok text

not-true : (b : Bool) → not b ≡ true → b ≡ false
not-true b h = ground arith

-- A call on the world of a machine that is known.
call_at :
    {W B : Type 0} (call : W → B) (m m' : Machine W) (w : W) {b : B}
    → m' ≡ record m { world = w }
    → call m'.world ≡ b
    → call w ≡ b
call_at call m m' w e h = ap (λ n. call n.world) (sym e) ∙ h

module _ {W E : Type 0} (os : Os W E) where
  -- The token and the certificate that are read, none of which is empty, nor are the host and the
  -- port.
  pub record ReadData (src_token : Bytes) (w : W) (d : K8sConfigData) : Type 0 where
    pub token : Bytes
    pub token_read : os.read_file (clean src_token) w ≡ ok token
    pub has_token : is_empty token ≡ false
    pub cert : Bytes
    pub cert_read : os.read_file (clean (cert_filename os src_token)) w ≡ ok cert
    pub has_cert : is_empty cert ≡ false
    pub has_host : is_empty d.service_host ≡ false
    pub has_port : is_empty d.service_port ≡ false
    pub filled : d ≡ record {
      auth_token = trim_space token;
      certificate_authority_data = encode_base64 (trim_space cert);
      service_host = get_var os.getenv svc_host;
      service_port = get_var os.getenv svc_port;
    }

  read_config_data_success :
      (src_token : Bytes) (d : K8sConfigData) (m m' : Machine W)
      → read_config_data os src_token m ≡ (ok d, m')
      → ReadData src_token m.world d × (m' ≡ m)
  unfolding read_config_data
  read_config_data_success src_token d m m' h =
      let (token, m₁, read, h₁) =
        then_task_success (asking (os.read_file (clean src_token)) m) _ h in
      let (token_read, is₁) = asking_success (os.read_file (clean src_token)) token m m₁ read in
      let (d₁, m₂, required, h₂) =
        then_task_success (require (not (is_empty token)) empty_token m₁) _ h₁ in
      let (has_token, is₂) = require_success (not (is_empty token)) empty_token d₁ m₁ m₂ required in
      let cert_name = cert_filename os src_token in
      let (cert, m₃, read₃, h₃) =
        then_task_success (asking (os.read_file (clean cert_name)) m₂) _ h₂ in
      let (cert_read, is₃) = asking_success (os.read_file (clean cert_name)) cert m₂ m₃ read₃ in
      let (d₄, m₄, r₄, h₄) =
        then_task_success (require (not (is_empty cert)) empty_certificate m₃) _ h₃ in
      let (has_cert, is₄) = require_success (not (is_empty cert)) empty_certificate d₄ m₃ m₄ r₄ in
      let host = get_var os.getenv svc_host in
      let (d₅, m₅, r₅, h₅) = then_task_success (require (not (is_empty host)) empty_host m₄) _ h₄ in
      let (has_host, is₅) = require_success (not (is_empty host)) empty_host d₅ m₄ m₅ r₅ in
      let port = get_var os.getenv svc_port in
      let (d₆, m₆, r₆, h₆) = then_task_success (require (not (is_empty port)) empty_port m₅) _ h₅ in
      let (has_port, is₆) = require_success (not (is_empty port)) empty_port d₆ m₅ m₆ r₆ in
      let (filled, is₇) = returned h₆ in
      let still : m₂ ≡ m = is₂ ∙ is₁ in
      (
        record {
          token = token;
          token_read = token_read;
          has_token = not-true (is_empty token) has_token;
          cert = cert;
          cert_read = ap (λ n. os.read_file (clean cert_name) n.world) (sym still) ∙ cert_read;
          has_cert = not-true (is_empty cert) has_cert;
          has_host =
              ap (λ x. is_empty x.service_host) (sym filled) ∙ not-true (is_empty host) has_host;
          has_port =
              ap (λ x. is_empty x.service_port) (sym filled) ∙ not-true (is_empty port) has_port;
          filled = sym filled;
        },
        sym is₇ ∙ is₆ ∙ is₅ ∙ is₄ ∙ is₃ ∙ still,
      )

  store_config_success :
      WritesOut os
      → (dst text : Bytes) (d : Done) (m m' : Machine W)
      → clean (k8s_tmp_file dst) ≡ k8s_tmp_file dst
      → store_config os dst text m ≡ (ok d, m')
      → (os.read_file dst m'.world ≡ ok text) × (is_indexed dst m'.installer.entries ≡ true)
  unfolding store_config add_entry filename
  store_config_success writes_out dst text d m m' tmp_clean h =
      let (fd, m₁, opened, h₁) =
        then_task_success (opening (os.open_file (clean (k8s_tmp_file dst)) write_file_perm) m) _
          h in
      let (w₁, e₁, is₁) =
        opening_success (os.open_file (clean (k8s_tmp_file dst)) write_file_perm) fd m m₁ opened in
      let (d₂, m₂, written, h₂) =
        then_task_success (or_cleanup (doing (os.write fd text)) (ignoring (os.close fd)) m₁) _
          h₁ in
      let (w₂, e₂, is₂) =
        doing_success (os.write fd text) d₂ m₁ m₂ (cleaned_up_success _ _ written) in
      let (d₃, m₃, synced, h₃) =
        then_task_success (or_cleanup (doing (os.sync fd)) (ignoring (os.close fd)) m₂) _ h₂ in
      let (w₃, e₃, is₃) = doing_success (os.sync fd) d₃ m₂ m₃ (cleaned_up_success _ _ synced) in
      let (d₄, m₄, closed, h₄) = then_task_success (doing (os.close fd) m₃) _ h₃ in
      let (w₄, e₄, is₄) = doing_success (os.close fd) d₄ m₃ m₄ closed in
      let (d₅, m₅, renamed, h₅) =
        then_task_success (doing (os.rename (k8s_tmp_file dst) dst) m₄) _ h₄ in
      let (w₅, e₅, is₅) = doing_success (os.rename (k8s_tmp_file dst) dst) d₅ m₄ m₅ renamed in
      let read =
        writes_out (k8s_tmp_file dst) dst text write_file_perm fd m.world w₁ w₂ w₃ w₄ w₅ tmp_clean
          (ap (λ t. os.open_file t write_file_perm m.world) (sym tmp_clean) ∙ e₁)
          (call_at (os.write fd text) m m₁ w₁ is₁ e₂) (call_at (os.sync fd) m₁ m₂ w₂ is₂ e₃)
          (call_at (os.close fd) m₂ m₃ w₃ is₃ e₄)
          (call_at (os.rename (k8s_tmp_file dst) dst) m₃ m₄ w₄ is₄ e₅) in
      let (_, is₆) = returned h₅ in
      (
        ap (λ n. os.read_file dst n.world) (sym is₆)
            ∙ ap (λ n. os.read_file dst n.world) is₅
            ∙ read,
        ap (λ n. is_indexed dst n.installer.entries) (sym is₆)
            ∙ is_indexed-append_entry dst (k8s_file dst) m₅.installer.entries
            ∙ ground (arith, same_refl dst),
      )

  -- If a text that is written to a file, closed and renamed is what the new name reads, and the name
  -- of the temporary file is clean, then a run
  -- of reconfigureK8s that succeeds has read a token and a certificate that are not empty, and the
  -- template, filled in with these, trimmed, and with the host and the port of the service, none of
  -- them empty, is what the file reads; the log names the file.
  pub reconfigure_k8s_success :
      WritesOut os
      → (dst src_token : Bytes) (m m' : Machine W) → clean (k8s_tmp_file dst) ≡ k8s_tmp_file dst
      → reconfigure_k8s os dst src_token m ≡ (ok done, m')
      → (d : K8sConfigData) × ReadData src_token m.world d
        × (os.read_file dst m'.world ≡ ok (k8s_config d))
        × (is_indexed dst m'.installer.entries ≡ true)
  unfolding reconfigure_k8s
  reconfigure_k8s_success writes_out dst src_token m m' tmp_clean h =
      let (d, m₁, made, h₁) =
        then_task_success (read_config_data os src_token m)
          (λ d. store_config os dst (k8s_config d)) h in
      let (read, _) = read_config_data_success src_token d m m₁ made in
      let (stands, indexed) =
        store_config_success writes_out dst (k8s_config d) done m₁ m' tmp_clean h₁ in
      (d, read, stands, indexed)
