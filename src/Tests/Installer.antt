-- ===== src/Tests/Installer.antt =====
-- Tests of the installer of internal/cni, on a disk.
use linkerd2_proxy_init.Base.{
  Bytes, codes, true, false, same, any, Option, none, some, List, [], ◌∷◌, ok, ◌≡◌, ◌⊎◌, refl, All,
  if◌then◌else◌,
}
use linkerd2_proxy_init.Task.{done}
use linkerd2_proxy_init.Go.Pathname.{clean, join_path, dir, base, split_last}
use linkerd2_proxy_init.Go.Strings.{split, join, has_suffix, has_prefix, replace_all}
use linkerd2_proxy_init.Cni.Json.{Json, str, obj, field, end, get, fields}
use linkerd2_proxy_init.Cni.Os.{Os, DirEntry}
use linkerd2_proxy_init.Cni.Paths.{get_var}
use linkerd2_proxy_init.Cni.Log.{Entry, installed_file, k8s_file, append_entry, is_indexed}
use linkerd2_proxy_init.Cni.Inject.{
  cni_key_type, inject, as_map, encoded, inject_value, merge, not_encoded,
}
use linkerd2_proxy_init.Cni.Installer.{Machine, new_installer, json_error, hash_of, add_entry}
use linkerd2_proxy_init.Cni.Install.{install_files}
use linkerd2_proxy_init.Cni.Install.Laws.{Installs, install_files-Installs}
use linkerd2_proxy_init.Cni.Configure.{
  target_name, install_name, configure_cni, reconfigure_cni, reconfigure_read, rewrite_cni,
  store_merged, merged_text, read_source, set_hash, remove_previous,
}
use linkerd2_proxy_init.Cni.Configure.Laws.{Configured}
use linkerd2_proxy_init.Cni.Configure.Settled.{
  IsSettled, reconfigure_cni-Configured, reconfigure_cni_settled,
}
use linkerd2_proxy_init.Cni.Configure.Failed.{reconfigure_cni_failed}
use linkerd2_proxy_init.Cni.Kubeconfig.{
  K8sConfigData, read_config_data, store_config, cert_filename, k8s_config, reconfigure_k8s,
  k8s_tmp_file,
}
use linkerd2_proxy_init.Cni.Kubeconfig.Laws.{ReadData, reconfigure_k8s_success}
use linkerd2_proxy_init.Cni.Remove.{remove_all, revert}
use linkerd2_proxy_init.Cni.Remove.Laws.{IsGone, remove_all-IsGone}
use linkerd2_proxy_init.Tests.Disk.{
  Disk, DiskError, disk, disk-Stores, disk-Untouched, disk-WritesOut, disk-Shrinks,
}

-- All variables but that of the certificate are set.
abbrev pub getenv : Bytes → Bytes
getenv key = if same key (codes "KUBE_CA_FILE") then [] else codes "x"

abbrev pub entries : List DirEntry
entries = record { name = codes "b"; is_dir = false; is_regular = true } ∷ []

abbrev pub os : Os Disk DiskError
os = disk getenv entries

abbrev pub full : Disk
full = record { files = λ n. some (codes "t"); target = []; source = [] }

abbrev pub machine : Machine Disk
machine = record { world = full; installer = new_installer getenv }

-- Every text is that of a single plugin.
abbrev pub unmarshal : Bytes → Option Json
unmarshal text = some (obj (field cni_key_type (str (codes "y")) end))

abbrev pub marshal : Json → Option Bytes
marshal value = some (codes "merged")

abbrev pub hash_encode : Bytes → Bytes
hash_encode text = b'h' ∷ text

abbrev conf_name : Bytes
conf_name = codes "/n/1.conf"

abbrev behind : Machine Disk
behind = (reconfigure_cni os unmarshal marshal hash_encode conf_name machine).1

reconfigure_cni-Configured_example :
    IsSettled os (disk-Stores getenv entries) unmarshal marshal hash_encode conf_name machine
      × (behind ≡ machine)
    ⊎ ((text : Bytes) × (os.read_file (clean conf_name) full ≡ ok text)
        × Configured os
            (disk-Stores getenv entries)
            unmarshal
            marshal
            hash_encode
            conf_name
            text
            machine
            behind)
unfolding reconfigure_cni reconfigure_read rewrite_cni store_merged merged_text configure_cni
    read_source replace_all inject as_map encoded inject_value merge get fields same hash_of
    new_installer add_entry set_hash remove_previous has_suffix has_prefix target_name install_name
    clean join_path split join dir base split_last append_entry
reconfigure_cni-Configured_example =
    reconfigure_cni-Configured os (disk-Stores getenv entries) unmarshal marshal hash_encode
      conf_name machine behind (refl, refl) refl

reconfigure_cni_settled_example :
    (reconfigure_cni os unmarshal marshal hash_encode conf_name behind ≡ (ok done, behind))
    × ((behind ≡ machine)
        ⊎ (reconfigure_cni os unmarshal marshal hash_encode (target_name conf_name) behind
            ≡ (ok done, behind)))
unfolding reconfigure_cni reconfigure_read rewrite_cni store_merged merged_text configure_cni
    read_source replace_all inject as_map encoded inject_value merge get fields same hash_of
    new_installer add_entry set_hash remove_previous has_suffix has_prefix target_name install_name
    clean join_path split join dir base split_last append_entry
reconfigure_cni_settled_example =
    reconfigure_cni_settled os (disk-Stores getenv entries) unmarshal marshal hash_encode conf_name
      machine behind (refl, refl) refl

abbrev unmarshaled : Json → Option Bytes
unmarshaled value = none

abbrev failed_machine : Machine Disk
failed_machine = (reconfigure_cni os unmarshal unmarshaled hash_encode conf_name machine).1

reconfigure_cni_failed_example :
    os.read_file conf_name failed_machine.world ≡ os.read_file conf_name full
unfolding reconfigure_cni reconfigure_read rewrite_cni store_merged merged_text configure_cni
    read_source replace_all inject as_map encoded inject_value merge get fields same hash_of
    new_installer has_suffix has_prefix target_name install_name clean join_path split join dir base
    split_last
reconfigure_cni_failed_example =
    reconfigure_cni_failed os (disk-Untouched getenv entries) unmarshal unmarshaled hash_encode
      conf_name (json_error not_encoded) machine failed_machine (refl, refl) refl refl refl

abbrev one_binary : List Bytes
one_binary = codes "/c/b" ∷ []

install_files-Installs_example :
    Installs os (codes "/n") one_binary machine (install_files os (codes "/n") one_binary machine)
unfolding new_installer is_indexed any
install_files-Installs_example =
    install_files-Installs os (codes "/n") one_binary machine
      (record { indexed = λ name. refl; distinct = tt })

abbrev token_machine : Machine Disk
token_machine = (reconfigure_k8s os (codes "/n/k") (codes "/s/token") machine).1

reconfigure_k8s_success_example :
    (d : K8sConfigData) × ReadData os (codes "/s/token") full d
    × (os.read_file (codes "/n/k") token_machine.world ≡ ok (k8s_config d))
    × (is_indexed (codes "/n/k") token_machine.installer.entries ≡ true)
unfolding reconfigure_k8s read_config_data store_config get_var same cert_filename clean join_path
    split join dir base split_last k8s_tmp_file add_entry append_entry
reconfigure_k8s_success_example =
    reconfigure_k8s_success os (disk-WritesOut getenv entries) (codes "/n/k") (codes "/s/token")
      machine token_machine refl refl

abbrev log : List Entry
log = installed_file (codes "/n/b") ∷ k8s_file (codes "/n/k") ∷ []

remove_all-IsGone_example :
    All
      (IsGone os
        (disk-Shrinks getenv entries)
        unmarshal
        marshal
        (remove_all os unmarshal marshal log full).1)
      log
unfolding remove_all revert same clean join split
remove_all-IsGone_example =
    remove_all-IsGone os (disk-Shrinks getenv entries) unmarshal marshal log full refl
