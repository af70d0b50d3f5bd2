-- ===== src/Tests/Removal.antt =====
-- Tests of a run and the removal behind it, on a disk.
use linkerd2_proxy_init.Cni.Install.{copy_file, dst_tmp_file, copied_name}
use linkerd2_proxy_init.Base.{
  ℕ, Bytes, codes, Bool, false, same, any, none, true, List, [], ◌∷◌, Result, ok, err, ◌≡◌, refl,
}
use linkerd2_proxy_init.Task.{Done}
use linkerd2_proxy_init.Go.Pathname.{clean, join_path, dir, base, ext, split_last}
use linkerd2_proxy_init.Go.Strings.{split, join, has_suffix, has_prefix, replace_all}
use linkerd2_proxy_init.Cni.Json.{get, fields}
use linkerd2_proxy_init.Cni.Paths.{get_var, host_cni_config, host_cni_bin, kube_config_filename}
use linkerd2_proxy_init.Cni.Log.{append_entry}
use linkerd2_proxy_init.Cni.Inject.{inject, as_map, encoded, inject_value, merge}
use linkerd2_proxy_init.Cni.Installer.{
  Machine, InstallError, Act, token_filename, new_installer, hash_of, add_entry,
}
use linkerd2_proxy_init.Cni.Install.{install_regular_files, regular_files, install, install_files}
use linkerd2_proxy_init.Cni.Configure.{
  target_name, install_name, configure_cni, reconfigure_cni, reconfigure_read, rewrite_cni,
  store_merged, merged_text, read_source, set_hash, remove_previous,
}
use linkerd2_proxy_init.Cni.Kubeconfig.{
  reconfigure_k8s, read_config_data, store_config, cert_filename, k8s_tmp_file,
}
use linkerd2_proxy_init.Cni.Watch.{
  Event, Watch, watch_at, applies, handle_event, register_watches, deliver, handled, announce,
  listed, all_sent, cancel, finish, here, next,
}
use linkerd2_proxy_init.Cni.Run.{
  is_cni_file, on_token, on_config, watches, initial_events, token_event, start, ran,
}
use linkerd2_proxy_init.Tests.Disk.{Disk, DiskError}
use linkerd2_proxy_init.Tests.Installer.{getenv, unmarshal, marshal}
use linkerd2_proxy_init.Tests.Installer.{os, entries}
use linkerd2_proxy_init.Base.{All}
use linkerd2_proxy_init.Tests.Disk.{disk-Shrinks}
use linkerd2_proxy_init.Tests.Running.{with_text, has, new_watcher, add}
use linkerd2_proxy_init.Cni.Os.{is_found}
use linkerd2_proxy_init.Cni.Paths.{container_cni_bin_dir}
use linkerd2_proxy_init.Cni.Run.{exit_main}
use linkerd2_proxy_init.Cni.Log.{is_indexed, filename}
use linkerd2_proxy_init.Cni.Remove.{remove_all, revert}
use linkerd2_proxy_init.Go.Hex.{encode_to_string}
use linkerd2_proxy_init.Cni.Main.{hash_encode, ended, main_removed}

-- A digest of one's own.
abbrev digest : Bytes → Bytes
digest text = text

abbrev fresh : Machine Disk
fresh = with_text (codes "t")

abbrev installed : Result (InstallError DiskError) (List Bytes) × Machine Disk
installed =
    install_regular_files os (host_cni_bin getenv) (get_var getenv container_cni_bin_dir) fresh

abbrev started :
    Result (InstallError DiskError) (List (Bytes × Watch ℕ Disk DiskError)) × Machine Disk
started = start os 0 1 2 unmarshal marshal (hash_encode digest) has new_watcher add fresh

abbrev index_of :
    Result (InstallError DiskError) (List (Bytes × Watch ℕ Disk DiskError))
    → List (Bytes × Watch ℕ Disk DiskError)
index_of (ok index) = index
index_of (err e) = []

abbrev announced : Event ℕ
announced = token_event os 0 1 2 token_filename

abbrev binary : Event ℕ
binary = record { name = codes "x/x/b"; op = 2 }

abbrev handler : Event ℕ → Act Disk DiskError Done
handler = handle_event has (index_of started.0)

abbrev behind : Machine Disk
behind = (handler binary (handler announced started.1).1).1

abbrev exited : Bool × Disk
exited =
    exit_main os 0 1 2 unmarshal marshal (hash_encode digest) has new_watcher add (λ e. false) none
      behind

is_level : Bytes → Bool
is_level = same (codes "info")

main_removed_example :
    (is_level (codes "info") ≡ true)
    × All (λ path. is_found (os.stat path exited.1) ≡ false) (codes "x/x/b" ∷ [])
unfolding start install_regular_files regular_files install install_files register_watches
    new_installer watches handle_event watch_at applies any same on_token on_config is_cni_file
    reconfigure_k8s read_config_data store_config reconfigure_cni reconfigure_read rewrite_cni
    merged_text store_merged configure_cni read_source replace_all inject as_map encoded
    inject_value merge get fields hash_of exit_main remove_all revert is_indexed has_suffix
    has_prefix clean join_path split join dir base ext split_last get_var host_cni_config
    host_cni_bin set_hash remove_previous add_entry append_entry target_name install_name
    initial_events cert_filename k8s_tmp_file kube_config_filename copy_file dst_tmp_file
    copied_name filename is_level hash_encode encode_to_string
main_removed_example =
    main_removed os 0 1 2 unmarshal marshal digest has new_watcher add is_level (λ e. false)
      (disk-Shrinks getenv entries) (codes "info") fresh.world exited.1 (codes "x/x/b" ∷ [])
      installed.1
      (ended none behind true exited.1 refl
        (ran (index_of started.0) started.1 _ none refl
          (next
            (next
              (next
                (next
                  (next
                    (next (next (next here (announce announced refl refl)) (handled announced refl))
                      (listed (binary ∷ []) refl refl))
                    (deliver binary [] refl refl))
                  (handled binary refl))
                (all_sent refl))
              cancel)
            (finish refl refl))
          refl)
        refl)
      refl
