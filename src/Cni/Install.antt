-- ===== src/Cni/Install.antt =====
-- internal/cni/install.go: copying the binaries.
pub mod Laws
pub mod Binaries
use linkerd2_proxy_init.Base.{
  Bytes, codes, Bool, not, List, [], ◌∷◌, ◌++◌, ◌&&◌, Result, ok, err, if◌then◌else◌,
}
use linkerd2_proxy_init.Task.{Done, then_task, ◌>>=◌, return, fail}
use linkerd2_proxy_init.Go.Pathname.{clean, join_path, base}
use linkerd2_proxy_init.Cni.Os.{Os, DirEntry}
use linkerd2_proxy_init.Cni.Log.{installed_file}
use linkerd2_proxy_init.Cni.Installer.{
  Machine, Act, not_a_directory, asking, doing, opening, ignoring, or_cleanup, add_entry,
}

-- Where a source goes, and the file that it is copied to first.
unfoldable pub copied_name : Bytes → Bytes → Bytes
copied_name dst src = join_path (dst ∷ base src ∷ [])

unfoldable pub dst_tmp_file : Bytes → Bytes → Bytes
dst_tmp_file dst src = join_path (dst ∷ (base src ++ codes ".install") ∷ [])

-- The entries of a directory that are regular files.
unfoldable pub regular_files : Bytes → List DirEntry → List Bytes
regular_files src [] = []
regular_files src (entry ∷ entries) =
    let rest = regular_files src entries in
    if not entry.is_dir && entry.is_regular then join_path (src ∷ entry.name ∷ []) ∷ rest else rest

module _ {W E : Type 0} (os : Os W E) where
  unfoldable pub copy_file : Bytes → Bytes → Act W E Bytes
  copy_file dst src = do
    info ← asking (os.stat src)
    dst_w ← opening (os.open_file (clean (dst_tmp_file dst src)) info.mode)
    src_r ← or_cleanup (opening (os.open_read (clean src))) (ignoring (os.close dst_w))
    copied ←
        or_cleanup (doing (os.copy dst_w src_r))
          (λ m. ignoring (os.close src_r) (ignoring (os.close dst_w) m))
    synced ← or_cleanup (doing (os.sync dst_w)) (ignoring (os.close dst_w))
    closed ← doing (os.close dst_w)
    renamed ← doing (os.rename (dst_tmp_file dst src) (copied_name dst src))
    return (copied_name dst src)

  -- The loop over the sources.
  unfoldable pub install_files : Bytes → List Bytes → Act W E (List Bytes)
  install_files dst [] = return []
  install_files dst (src ∷ srcs) = do
    dst_file ← copy_file dst src
    added ← add_entry (installed_file dst_file)
    dst_files ← install_files dst srcs
    return (dst_file ∷ dst_files)

  unfoldable pub install : Bytes → List Bytes → Act W E (List Bytes)
  install dst srcs = do
    info ← asking (os.stat dst)
    if not info.is_dir then fail not_a_directory else install_files dst srcs

  unfoldable pub install_regular_files : Bytes → Bytes → Act W E (List Bytes)
  install_regular_files dst src = do
    entries ← asking (os.read_dir src)
    install dst (regular_files src entries)
