-- ===== src/Tests/Watch.antt =====
-- Tests of the watches and of a whole run.
use linkerd2_proxy_init.Base.{
  arith, ℕ, codes, true, same, any, Option, none, [], ◌∷◌, ◌≡◌, ◌≢◌, refl,
}
use linkerd2_proxy_init.Go.Pathname.{clean, join_path, dir, base, ext, split_last}
use linkerd2_proxy_init.Go.Strings.{split, join, has_suffix, has_prefix, replace_all}
use linkerd2_proxy_init.Cni.Json.{get, fields}
use linkerd2_proxy_init.Cni.Paths.{get_var, host_cni_config, host_cni_bin, kube_config_filename}
use linkerd2_proxy_init.Cni.Log.{append_entry}
use linkerd2_proxy_init.Cni.Inject.{inject, as_map, encoded, inject_value, merge, not_decoded}
use linkerd2_proxy_init.Cni.Installer.{
  Machine, InstallError, new_installer, json_error, empty_token, hash_of, add_entry,
}
use linkerd2_proxy_init.Cni.Installer.Entries.{Grows}
use linkerd2_proxy_init.Cni.Install.{install_regular_files, regular_files, install, install_files}
use linkerd2_proxy_init.Cni.Configure.{
  target_name, install_name, configure_cni, reconfigure_cni, reconfigure_read, rewrite_cni,
  store_merged, merged_text, read_source, set_hash, remove_previous,
}
use linkerd2_proxy_init.Cni.Kubeconfig.{
  reconfigure_k8s, read_config_data, store_config, cert_filename, k8s_tmp_file,
}
use linkerd2_proxy_init.Cni.Watch.{
  watch_at, applies, handle_event, register_watches, stopped, sending, deliver, handled, selecting,
  announce, listed, all_sent, cancel, finish, returned, System, Reach, here, next,
}
use linkerd2_proxy_init.Cni.Watch.Hangs.{run_hangs}
use linkerd2_proxy_init.Cni.Watch.Ready.{IsReady, run-IsReady}
use linkerd2_proxy_init.Cni.Watch.Returns.{ReturnedFor, run_returns}
use linkerd2_proxy_init.Cni.Run.{
  is_cni_file, on_token, on_config, watches, initial_events, start, ran,
}
use linkerd2_proxy_init.Cni.Run.Laws.{run-Grows}
use linkerd2_proxy_init.Tests.Disk.{Disk, DiskError}
use linkerd2_proxy_init.Tests.Installer.{unmarshal, marshal, hash_encode}
use linkerd2_proxy_init.Tests.Running.{
  os, with_text, has, new_watcher, add, undecoded, started, index_of, handler, first, initial,
  announced, conf_event, ready, all_done,
}

run_hangs_example :
    (t : System ℕ (InstallError DiskError) (Machine Disk)) × Reach
      (handler undecoded (with_text []))
      initial
      (first undecoded (with_text []))
      t
    × ((u : System ℕ (InstallError DiskError) (Machine Disk))
        → Reach (handler undecoded (with_text [])) initial t u
        → (result : Option (InstallError DiskError)) → u.main ≢ returned result)
unfolding start install_regular_files regular_files install install_files register_watches
    new_installer watches handle_event watch_at applies any same on_token on_config is_cni_file
    reconfigure_k8s read_config_data reconfigure_cni reconfigure_read rewrite_cni merged_text
    configure_cni read_source replace_all inject as_map hash_of has_suffix has_prefix clean
    join_path split join dir base ext split_last get_var host_cni_config host_cni_bin initial_events
run_hangs_example =
    run_hangs (handler undecoded (with_text [])) initial (first undecoded (with_text [])) announced
      (conf_event (codes "1.conf")) (conf_event (codes "2.conf")) [] empty_token
      (json_error not_decoded) refl refl refl refl refl refl

run-IsReady_example :
    (t : System ℕ (InstallError DiskError) (Machine Disk)) × IsReady
      (handler unmarshal ready)
      initial
      (first unmarshal ready)
      t
      all_done
    × (u : System ℕ (InstallError DiskError) (Machine Disk)) × Reach
        (handler unmarshal ready)
        initial
        t
        u
    × (u.main ≡ returned none)
    × (u.pc ≡ stopped)
    × (u.machine ≡ all_done)
unfolding start install_regular_files regular_files install install_files register_watches
    new_installer watches handle_event watch_at applies any same on_token on_config is_cni_file
    reconfigure_k8s read_config_data store_config reconfigure_cni reconfigure_read rewrite_cni
    merged_text store_merged configure_cni read_source replace_all inject as_map encoded
    inject_value merge get fields hash_of has_suffix has_prefix clean join_path split join dir base
    ext split_last get_var host_cni_config host_cni_bin set_hash remove_previous add_entry
    append_entry target_name install_name initial_events cert_filename k8s_tmp_file
    kube_config_filename
run-IsReady_example =
    run-IsReady (handler unmarshal ready) initial (first unmarshal ready) announced
      (conf_event (codes "1.conf") ∷ conf_event (codes "2.conf") ∷ []) all_done refl refl refl refl
      (refl, (refl, refl))

abbrev sent : System ℕ (InstallError DiskError) (Machine Disk)
sent = record (first unmarshal ready) { main = sending [] }

abbrev ending : System ℕ (InstallError DiskError) (Machine Disk)
ending = record sent { main = selecting; cancelled = true }

abbrev ended : System ℕ (InstallError DiskError) (Machine Disk)
ended = record ending { main = returned none }

run_returns_example : ReturnedFor (handler unmarshal ready) initial ending none
run_returns_example =
    run_returns (handler unmarshal ready) initial sent ending ended refl
      (next (next here (all_sent refl)) cancel) (λ result e. ground arith) (finish refl refl) none
      refl

run-Grows_example : Grows ready.installer.entries all_done.installer.entries
unfolding start install_regular_files regular_files install install_files register_watches
    new_installer watches handle_event watch_at applies any same on_token on_config is_cni_file
    reconfigure_k8s read_config_data store_config reconfigure_cni reconfigure_read rewrite_cni
    merged_text store_merged configure_cni read_source replace_all inject as_map encoded
    inject_value merge get fields hash_of has_suffix has_prefix clean join_path split join dir base
    ext split_last get_var host_cni_config host_cni_bin set_hash remove_previous add_entry
    append_entry target_name install_name initial_events cert_filename k8s_tmp_file
    kube_config_filename
run-Grows_example =
    run-Grows os 0 1 2 unmarshal marshal hash_encode has new_watcher add ready all_done none (
      ran (index_of unmarshal ready (started unmarshal ready).0) (started unmarshal ready).1 _ none
        refl
        (next
          (next
            (next
              (next
                (next
                  (next
                    (next
                      (next
                        (next (next here (announce announced refl refl)) (handled announced refl))
                        (listed (conf_event (codes "1.conf") ∷ conf_event (codes "2.conf") ∷ [])
                          refl refl))
                      (deliver (conf_event (codes "1.conf")) (conf_event (codes "2.conf") ∷ []) refl
                        refl))
                    (handled (conf_event (codes "1.conf")) refl))
                  (deliver (conf_event (codes "2.conf")) [] refl refl))
                (handled (conf_event (codes "2.conf")) refl))
              (all_sent refl))
            cancel)
          (finish refl refl))
        refl)
