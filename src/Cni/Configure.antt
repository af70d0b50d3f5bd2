-- ===== src/Cni/Configure.antt =====
-- `configureCNI` and `reconfigureCNI` of internal/cni/conf.go. `hash_encode` stands for the checksum
-- of the same name, the hex form of crypto/sha256.
pub mod Laws
pub mod Settled
pub mod Failed
use linkerd2_proxy_init.Base.{
  ℕ, zero, suc, ◌-◌, Bytes, codes, Bool, length, is_empty, same, Option, none, some, List, [], ◌∷◌,
  ◌++◌, Result, ok, err, if◌then◌else◌,
}
use linkerd2_proxy_init.Task.{Done, done, then_task, ◌>>=◌, return, fail}
use linkerd2_proxy_init.Go.Pathname.{clean, join_path, dir, base}
use linkerd2_proxy_init.Go.Strings.{has_prefix, has_suffix, replace_all}
use linkerd2_proxy_init.Cni.Json.{Json}
use linkerd2_proxy_init.Cni.Os.{Os}
use linkerd2_proxy_init.Cni.Paths.{plugin_kube_config_filename}
use linkerd2_proxy_init.Cni.Log.{Log, cni_file}
use linkerd2_proxy_init.Cni.Inject.{JsonError, inject}
use linkerd2_proxy_init.Cni.Installer.{
  Source, environment_source, file_source, Machine, Installer, InstallError, os_error, json_error,
  no_configuration_source, Act, hash_of, asking, doing, add_entry,
}

-- 0644
abbrev pub write_file_perm : ℕ
write_file_perm = 420

-- A file of one plugin becomes one of a list: `99-cni-foo.conf` is `99-cni-foo.conflist` then.
unfoldable pub target_name : Bytes → Bytes
target_name config_filename =
    if has_suffix config_filename (codes ".conf")
    then config_filename ++ codes "list"
    else config_filename

unfoldable pub install_name : Bytes → Bytes
install_name config_filename =
    clean (join_path (dir config_filename ∷ (base config_filename ++ codes ".install") ∷ []))

module _ {W E : Type 0} (os : Os W E) where
  unfoldable pub read_source : Source → W → Result E Bytes
  read_source (environment_source key) w = ok (os.getenv key)
  read_source (file_source name) w = os.read_file name w

  -- The loop of `configureCNI`; a source that cannot be read, or is empty, is passed over.
  abbrev pub or_next :
      Result E Bytes → Result (InstallError E) Bytes → Result (InstallError E) Bytes
  or_next (err e) next = next
  or_next (ok text) next =
      let replaced =
        replace_all text (codes "__KUBECONFIG_FILEPATH__")
          (plugin_kube_config_filename os.getenv) in
      if is_empty replaced then next else ok replaced

  unfoldable pub configure_cni : List Source → W → Result (InstallError E) Bytes
  configure_cni [] w = err no_configuration_source
  configure_cni (source ∷ sources) w = or_next (read_source source w) (configure_cni sources w)

  unfoldable pub set_hash : Bytes → Bytes → Act W E Done
  set_hash name hash = λ m. (
    ok done,
    record m {
      installer = record m.installer { file_hash_set = (name, hash) ∷ m.installer.file_hash_set };
    },
  )

  abbrev pub injected : Result JsonError Bytes → Act W E Bytes
  injected (ok merged) = return merged
  injected (err e) = fail (json_error e)

  unfoldable pub remove_previous : Bytes → Act W E Done
  remove_previous config_filename =
      if has_suffix config_filename (codes ".conf")
      then doing (os.remove config_filename)
      else return done

  abbrev pub configured : Act W E Bytes
  configured = λ m. (configure_cni m.installer.sources m.world, m)

  module _ (unmarshal : Bytes → Option Json) (marshal_indent : Json → Option Bytes)
      (hash_encode : Bytes → Bytes) where
    -- What is written in place of the file's text.
    unfoldable pub merged_text : Bytes → Act W E Bytes
    merged_text text = do
      configuration ← configured
      injected (inject unmarshal marshal_indent text configuration)

    -- The merged text is written under another name first.
    unfoldable pub store_merged : Bytes → Bytes → Act W E Done
    store_merged config_filename merged = do
      let target = target_name config_filename
      written ← doing (os.write_file (install_name target) merged write_file_perm)
      renamed ← doing (os.rename (install_name target) target)
      added ← add_entry (cni_file target)
      noted ← set_hash target (hash_encode merged)
      remove_previous config_filename

    unfoldable pub rewrite_cni : Bytes → Bytes → Act W E Done
    rewrite_cni config_filename text = do
      merged ← merged_text text
      store_merged config_filename merged

    -- Nothing is done for a file that is not there, or is as the installer left it.
    unfoldable pub reconfigure_read : Bytes → Result E Bytes → Act W E Done
    reconfigure_read config_filename (err e) =
        if os.is_not_exist e then return done else fail (os_error e)
    reconfigure_read config_filename (ok text) = λ m.
        if same (hash_of config_filename m.installer.file_hash_set) (hash_encode text)
        then (ok done, m)
        else rewrite_cni config_filename text m

    unfoldable pub reconfigure_cni : Bytes → Act W E Done
    reconfigure_cni config_filename =
        λ m. reconfigure_read config_filename (os.read_file (clean config_filename) m.world) m
