-- ===== src/Cni/Run/Steps.antt =====
-- The steps of a run, and the log.
use linkerd2_proxy_init.Base.{
  Bytes, codes, Bool, true, false, same, Option, List, [], ◌∷◌, Result, ok, err, if◌then◌else◌, not,
  is_empty, refl,
}
use linkerd2_proxy_init.Task.{Done, done, return, fail}
use linkerd2_proxy_init.Go.Strings.{has_suffix, trim_space}
use linkerd2_proxy_init.Cni.Json.{Json}
use linkerd2_proxy_init.Cni.Os.{Os}
use linkerd2_proxy_init.Cni.Log.{installed_file, cni_file, k8s_file}
use linkerd2_proxy_init.Cni.Inject.{JsonError, inject}
use linkerd2_proxy_init.Cni.Installer.{
  Machine, InstallError, Act, doing, require, hash_of, os_error, not_a_directory, empty_token,
  empty_certificate, empty_host, empty_port,
}
use linkerd2_proxy_init.Cni.Installer.Laws.{
  KeepsInstaller, asking-KeepsInstaller, doing-KeepsInstaller, opening-KeepsInstaller,
  return-KeepsInstaller, >>=-KeepsInstaller, or_cleanup-KeepsInstaller,
}
use linkerd2_proxy_init.Cni.Installer.Entries.{
  Grows, Grows-refl, KeepsLog, KeepsInstaller-KeepsLog, add_entry-KeepsLog, >>=-KeepsLog,
  if-KeepsLog,
}
use linkerd2_proxy_init.Cni.Install.{regular_files, install_files, install, install_regular_files}
use linkerd2_proxy_init.Cni.Install.Laws.{copy_file-KeepsInstaller}
use linkerd2_proxy_init.Cni.Configure.{
  target_name, injected, merged_text, store_merged, set_hash, remove_previous, rewrite_cni,
  reconfigure_read, reconfigure_cni,
}
use linkerd2_proxy_init.Cni.Kubeconfig.{read_config_data, store_config, k8s_config, reconfigure_k8s}
use linkerd2_proxy_init.Go.Base64.{encode_base64}
use linkerd2_proxy_init.Cni.Paths.{get_var, svc_host, svc_port}

module _ {W E : Type 0} (os : Os W E) where
  pub doing-KeepsLog : (call : W → Option E × W) → KeepsLog (doing {W = W} {E = E} call)
  doing-KeepsLog call = KeepsInstaller-KeepsLog _ (doing-KeepsInstaller call)

  pub return-KeepsLog : {A : Type 0} (a : A) → KeepsLog {W = W} {E = E} (return a)
  return-KeepsLog a = KeepsInstaller-KeepsLog _ (return-KeepsInstaller a)

  install_files-KeepsLog : (dst : Bytes) (srcs : List Bytes) → KeepsLog (install_files os dst srcs)
  unfolding install_files
  install_files-KeepsLog dst [] = return-KeepsLog []
  install_files-KeepsLog dst (src ∷ srcs) =
      >>=-KeepsLog _ _ (KeepsInstaller-KeepsLog _ (copy_file-KeepsInstaller os dst src)) λ dst_file.
        >>=-KeepsLog _ _ (add_entry-KeepsLog (installed_file dst_file)) λ added.
          >>=-KeepsLog _ _ (install_files-KeepsLog dst srcs)
            λ dst_files. return-KeepsLog (dst_file ∷ dst_files)

  pub install_regular_files-KeepsLog :
      (dst src : Bytes) → KeepsLog (install_regular_files os dst src)
  unfolding install_regular_files install
  install_regular_files-KeepsLog dst src =
      >>=-KeepsLog _ _ (KeepsInstaller-KeepsLog _ (asking-KeepsInstaller (os.read_dir src)))
        λ entries.
          >>=-KeepsLog _ _ (KeepsInstaller-KeepsLog _ (asking-KeepsInstaller (os.stat dst))) λ info.
            if-KeepsLog (not info.is_dir) (fail not_a_directory)
              (install_files os dst (regular_files src entries))
              (record { kept = λ m. Grows-refl _ })
              (install_files-KeepsLog dst (regular_files src entries))

  require-KeepsInstaller :
      (test : Bool) (e : InstallError E) → KeepsInstaller (require {W = W} test e)
  require-KeepsInstaller true e = record { kept = λ m. refl }
  require-KeepsInstaller false e = record { kept = λ m. refl }

  read_config_data-KeepsInstaller : (token : Bytes) → KeepsInstaller (read_config_data os token)
  unfolding read_config_data
  read_config_data-KeepsInstaller token =
      >>=-KeepsInstaller _ _ (asking-KeepsInstaller (os.read_file _)) λ token_data.
        >>=-KeepsInstaller _ _ (require-KeepsInstaller (not (is_empty token_data)) empty_token)
          λ has_token. >>=-KeepsInstaller _ _ (asking-KeepsInstaller (os.read_file _)) λ cert_data.
            >>=-KeepsInstaller _ _
              (require-KeepsInstaller (not (is_empty cert_data)) empty_certificate)
              λ has_cert.
                >>=-KeepsInstaller _ _
                  (require-KeepsInstaller (not (is_empty (get_var os.getenv svc_host))) empty_host)
                  λ has_host.
                    >>=-KeepsInstaller _ _
                      (require-KeepsInstaller (not (is_empty (get_var os.getenv svc_port)))
                        empty_port)
                      λ has_port. return-KeepsInstaller (record {
                        auth_token = trim_space token_data;
                        certificate_authority_data = encode_base64 (trim_space cert_data);
                        service_host = get_var os.getenv svc_host;
                        service_port = get_var os.getenv svc_port;
                      })

  store_config-KeepsLog : (dst text : Bytes) → KeepsLog (store_config os dst text)
  unfolding store_config
  store_config-KeepsLog dst text =
      >>=-KeepsLog _ _ (KeepsInstaller-KeepsLog _ (opening-KeepsInstaller (os.open_file _ _)))
        λ dst_w.
          >>=-KeepsLog _ _
            (KeepsInstaller-KeepsLog _ (
              or_cleanup-KeepsInstaller _ _ (doing-KeepsInstaller (os.write dst_w text))
                (λ m. refl)))
            λ executed.
              >>=-KeepsLog _ _
                (KeepsInstaller-KeepsLog _ (
                  or_cleanup-KeepsInstaller _ _ (doing-KeepsInstaller (os.sync dst_w)) (λ m. refl)))
                λ synced. >>=-KeepsLog _ _ (doing-KeepsLog (os.close dst_w)) λ closed.
                  >>=-KeepsLog _ _ (doing-KeepsLog (os.rename _ _))
                    λ renamed. add_entry-KeepsLog (k8s_file dst)

  pub reconfigure_k8s-KeepsLog : (dst token : Bytes) → KeepsLog (reconfigure_k8s os dst token)
  unfolding reconfigure_k8s
  reconfigure_k8s-KeepsLog dst token =
      >>=-KeepsLog _ _ (KeepsInstaller-KeepsLog _ (read_config_data-KeepsInstaller token))
        λ d. store_config-KeepsLog dst (k8s_config d)

  module _ (unmarshal : Bytes → Option Json) (marshal_indent : Json → Option Bytes)
      (hash_encode : Bytes → Bytes) where
    injected-KeepsInstaller : (r : Result JsonError Bytes) → KeepsInstaller (injected os r)
    injected-KeepsInstaller (ok merged) = return-KeepsInstaller merged
    injected-KeepsInstaller (err e) = record { kept = λ m. refl }

    merged_text-KeepsInstaller :
        (text : Bytes) → KeepsInstaller (merged_text os unmarshal marshal_indent hash_encode text)
    unfolding merged_text
    merged_text-KeepsInstaller text =
        >>=-KeepsInstaller _ _ (record { kept = λ m. refl })
          λ configuration.
            injected-KeepsInstaller (inject unmarshal marshal_indent text configuration)

    set_hash-KeepsLog : (name hash : Bytes) → KeepsLog (set_hash os name hash)
    unfolding set_hash
    set_hash-KeepsLog name hash = record { kept = λ m. Grows-refl _ }

    remove_previous-KeepsLog : (name : Bytes) → KeepsLog (remove_previous os name)
    unfolding remove_previous
    remove_previous-KeepsLog name =
        if-KeepsLog (has_suffix name (codes ".conf")) (doing (os.remove name)) (return done)
          (doing-KeepsLog (os.remove name)) (return-KeepsLog done)

    rewrite_cni-KeepsLog :
        (name text : Bytes)
        → KeepsLog (rewrite_cni os unmarshal marshal_indent hash_encode name text)
    unfolding rewrite_cni store_merged
    rewrite_cni-KeepsLog name text =
        >>=-KeepsLog _ _ (KeepsInstaller-KeepsLog _ (merged_text-KeepsInstaller text)) λ merged.
          >>=-KeepsLog _ _ (doing-KeepsLog (os.write_file _ merged _)) λ written.
            >>=-KeepsLog _ _ (doing-KeepsLog (os.rename _ _)) λ renamed.
              >>=-KeepsLog _ _ (add_entry-KeepsLog (cni_file (target_name name))) λ added.
                >>=-KeepsLog _ _ (set_hash-KeepsLog (target_name name) (hash_encode merged))
                  λ noted. remove_previous-KeepsLog name

    if-Grows :
        (test : Bool) (m : Machine W) (act : Act W E Done)
        → KeepsLog act
        → Grows m.installer.entries (if test then (ok done, m) else act m).1.installer.entries
    if-Grows true m act h = Grows-refl _
    if-Grows false m act h = h.kept m

    reconfigure_read-KeepsLog :
        (name : Bytes) (r : Result E Bytes)
        → KeepsLog (reconfigure_read os unmarshal marshal_indent hash_encode name r)
    unfolding reconfigure_read
    reconfigure_read-KeepsLog name (err e) =
        if-KeepsLog (os.is_not_exist e) (return done) (fail (os_error e)) (return-KeepsLog done)
          (record { kept = λ m. Grows-refl _ })
    reconfigure_read-KeepsLog name (ok text) = record {
      kept = λ m.
          if-Grows (same (hash_of name m.installer.file_hash_set) (hash_encode text)) m
            (rewrite_cni os unmarshal marshal_indent hash_encode name text)
            (rewrite_cni-KeepsLog name text);
    }

    pub reconfigure_cni-KeepsLog :
        (name : Bytes) → KeepsLog (reconfigure_cni os unmarshal marshal_indent hash_encode name)
    unfolding reconfigure_cni
    reconfigure_cni-KeepsLog name = record {
      kept = λ m. (reconfigure_read-KeepsLog name (os.read_file _ m.world)).kept m;
    }
