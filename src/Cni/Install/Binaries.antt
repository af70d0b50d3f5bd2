-- ===== src/Cni/Install/Binaries.antt =====
-- The log behind an installation of binaries.
use linkerd2_proxy_init.Base.{
  if◌then◌else◌, not, Bytes, Bool, true, false, any, List, [], ◌∷◌, Result, ok, All, All-append,
  ◌≡◌, refl, arith, ap, sym, ◌∙◌, Bool-cases, inl, inr,
}
use mathlib.Core.Path.{subst}
use linkerd2_proxy_init.Task.{◌>>=◌, then_task_success, returned, fail}
use linkerd2_proxy_init.Cni.Os.{Os}
use linkerd2_proxy_init.Cni.Log.{
  Entry, installed_file, cni_file, k8s_file, filename, Log, no_entries, is_indexed, append_entry,
}
use linkerd2_proxy_init.Cni.Log.Laws.{IsConsistent}
use linkerd2_proxy_init.Cni.Installer.{Machine, Act, asking, add_entry, not_a_directory}
use linkerd2_proxy_init.Cni.Installer.Laws.{asking_success}
use linkerd2_proxy_init.Cni.Install.{
  copy_file, install_files, install, install_regular_files, regular_files,
}
use linkerd2_proxy_init.Cni.Install.Laws.{copy_file-KeepsInstaller, install_files-Installs}

-- The entries of a log are of binaries.
abbrev pub IsBinary : Entry → Type 0
IsBinary (installed_file f) = Unit
IsBinary (cni_file f) = ⊥
IsBinary (k8s_file f) = ⊥

pub no_entries-IsConsistent : IsConsistent no_entries
unfolding is_indexed
no_entries-IsConsistent = record { indexed = λ name. refl; distinct = tt }

append_entry-IsBinary :
    (f : Bytes) (l : Log)
    → All IsBinary l.log
    → All IsBinary (append_entry (installed_file f) l).log
unfolding append_entry is_indexed any filename
append_entry-IsBinary f l h = elim (Bool-cases (is_indexed f l)) [
  | inl known ↦ rw known h
  | inr new ↦ rw new (All-append IsBinary l.log (installed_file f ∷ []) h (tt, tt))
]

module _ {W E : Type 0} (os : Os W E) where
  pub install_files-IsBinary :
      (dst : Bytes) (srcs paths : List Bytes) (m m' : Machine W)
      → All IsBinary m.installer.entries.log
      → install_files os dst srcs m ≡ (ok paths, m')
      → All IsBinary m'.installer.entries.log
  unfolding install_files add_entry
  install_files-IsBinary dst [] paths m m' h e =
      subst (λ n. All IsBinary n.installer.entries.log) (returned e).1 h
  install_files-IsBinary dst (src ∷ srcs) paths m m' h e =
      let (path, m₁, copied, e₁) = then_task_success (copy_file os dst src m) _ e in
      let same_state =
        sym (ap (λ x. x.1.installer) copied) ∙ (copy_file-KeepsInstaller os dst src).kept m in
      let (rest, m₂, installed, e₂) = then_task_success (install_files os dst srcs _) _ e₁ in
      subst (λ n. All IsBinary n.installer.entries.log) (returned e₂).1
        (install_files-IsBinary dst srcs rest _ m₂
          (append_entry-IsBinary path m₁.installer.entries
            (subst (λ i. All IsBinary i.entries.log) (sym same_state) h))
          installed)

  -- The paths are in the log.
  pub install_files_logged :
      (dst : Bytes) (srcs paths : List Bytes) (m m' : Machine W)
      → IsConsistent m.installer.entries
      → install_files os dst srcs m ≡ (ok paths, m')
      → IsConsistent m'.installer.entries
        × All (λ path. is_indexed path m'.installer.entries ≡ true) paths
  install_files_logged dst srcs paths m m' h e =
      let r = install_files-Installs os dst srcs m h in
      elim r.ended [
        | inl (all, result) ↦
            let (same_paths, same_machine) = returned (sym result ∙ e) in
            (
              subst (λ n. IsConsistent n.installer.entries) same_machine r.consistent,
              subst (λ n. All (λ path. is_indexed path n.installer.entries ≡ true) paths)
                  same_machine
                  (subst (λ ps. All (λ path. is_indexed path r.behind.installer.entries ≡ true) ps)
                    same_paths r.logs),
            )
        | inr (src, rest, x, m₁, left, failed, result, state) ↦ absurd (ground (arith, result, e))
      ]

  asked :
      {A B : Type 0} (request : W → Result E A) (rest : A → Act W E B) (b : B) (m m' : Machine W)
      → (asking request >>= rest) m ≡ (ok b, m')
      → (a : A) × (rest a m ≡ (ok b, m'))
  asked request rest b m m' e =
      let (a, m₁, answered, e₁) = then_task_success (asking request m) rest e in
      (a, ap (rest a) (sym (asking_success request a m m₁ answered).1) ∙ e₁)

  into_directory :
      (test : Bool) (dst : Bytes) (srcs paths : List Bytes) (m m' : Machine W)
      → (if test then fail not_a_directory else install_files os dst srcs) m ≡ (ok paths, m')
      → install_files os dst srcs m ≡ (ok paths, m')
  into_directory true dst srcs paths m m' e = absurd (ground arith)
  into_directory false dst srcs paths m m' e = e

  -- What has been installed are the binaries from some sources.
  pub install_regular_files_success :
      (dst src : Bytes) (paths : List Bytes) (m m' : Machine W)
      → install_regular_files os dst src m ≡ (ok paths, m')
      → (srcs : List Bytes) × (install_files os dst srcs m ≡ (ok paths, m'))
  unfolding install_regular_files install
  install_regular_files_success dst src paths m m' e =
      let (entries, e₁) = asked (os.read_dir src) _ paths m m' e in
      let (info, e₂) = asked (os.stat dst) _ paths m m' e₁ in
      (regular_files src entries, into_directory (not info.is_dir) dst _ paths m m' e₂)
