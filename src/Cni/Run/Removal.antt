-- ===== src/Cni/Run/Removal.antt =====
-- A run of the installer and the removal behind it.
use linkerd2_proxy_init.Base.{
  Bytes, Bool, true, false, any, same, same_iff, Option, none, some, List, [], ◌∷◌, map, ok, All,
  All-append_left, ◌≡◌, arith, ap, sym, ◌∙◌, Bool-cases, inl, inr,
}
use mathlib.Core.Path.{subst}
use linkerd2_proxy_init.Cni.Json.{Json}
use linkerd2_proxy_init.Cni.Os.{Os, is_found}
use linkerd2_proxy_init.Cni.Log.{
  Entry, installed_file, cni_file, k8s_file, filename, Log, no_entries, is_indexed,
}
use linkerd2_proxy_init.Cni.Log.Laws.{IsConsistent}
use linkerd2_proxy_init.Cni.Paths.{host_cni_bin, get_var, container_cni_bin_dir}
use linkerd2_proxy_init.Cni.Installer.{Machine, InstallError}
use linkerd2_proxy_init.Cni.Installer.Entries.{Grows}
use linkerd2_proxy_init.Cni.Install.{install_regular_files}
use linkerd2_proxy_init.Cni.Remove.{remove_all}
use linkerd2_proxy_init.Cni.Remove.Laws.{Shrinks, IsGone, remove_all-IsGone}
use linkerd2_proxy_init.Cni.Run.{start, Runs, removed, exit_main}
use linkerd2_proxy_init.Cni.Run.Laws.{Runs-Grows, start-Grows}
use linkerd2_proxy_init.Cni.Install.Binaries.{
  IsBinary, no_entries-IsConsistent, install_files-IsBinary, install_files_logged,
  install_regular_files_success,
}

module _ {W E : Type 0} (os : Os W E) (shrinks : Shrinks os) (unmarshal : Bytes → Option Json)
    (marshal_indent : Json → Option Bytes) where
  binary_gone :
      (f : Bytes) (w : W) (entries : List Entry)
      → All IsBinary entries
      → All (IsGone os shrinks unmarshal marshal_indent w) entries
      → any (same f) (map filename entries) ≡ true
      → is_found (os.stat f w) ≡ false
  unfolding filename any
  binary_gone f w [] h g k = absurd (ground arith)
  binary_gone f w (installed_file p ∷ entries) (_, h) (gone, g) k = elim (Bool-cases (same f p)) [
    | inl eq ↦ rw ((same_iff f p).0 eq) gone
    | inr ne ↦ binary_gone f w entries h g (rw ne at k)
  ]
  binary_gone f w (cni_file p ∷ entries) (h, _) g k = absurd h
  binary_gone f w (k8s_file p ∷ entries) (h, _) g k = absurd h

  binaries_gone :
      (l l' : Log) (w w' : W) (paths : List Bytes)
      → All IsBinary l.log
      → IsConsistent l
      → All (λ path. is_indexed path l ≡ true) paths
      → Grows l l'
      → remove_all os unmarshal marshal_indent l'.log w ≡ ([], w')
      → All (λ path. is_found (os.stat path w') ≡ false) paths
  binaries_gone l l' w w' [] h c logged g e = tt
  binaries_gone l l' w w' (path ∷ paths) h c (indexed, logged) g e =
      let gone = remove_all-IsGone os shrinks unmarshal marshal_indent l'.log w (ap (λ x. x.0) e) in
      let here =
        subst (λ v. All (IsGone os shrinks unmarshal marshal_indent v) l'.log) (ap (λ x. x.1) e)
          gone in
      let parts =
        subst (λ es. All (IsGone os shrinks unmarshal marshal_indent w') es) g.grown here in
      (
        binary_gone path w' l.log h (All-append_left _ l.log g.more parts)
            (sym (c.indexed path) ∙ indexed),
        binaries_gone l l' w w' paths h c logged g e,
      )

  module _ {Op : Type 0} (create rename write : Op) (hash_encode : Bytes → Bytes)
      (has : Op → Op → Bool) (new_watcher : W → Option E × W) (add : Bytes → W → Option E × W)
      (is_canceled : InstallError E → Bool) where
    removed_all :
        (x : List (InstallError E) × W) (w : W)
        → removed os create rename write unmarshal marshal_indent hash_encode has new_watcher add x
          ≡ (true, w)
        → x ≡ ([], w)
    removed_all ([], v) w h = ap (λ y. ([], y.1)) h
    removed_all (e ∷ errors, v) w h = absurd (ground arith)

    exited :
        (result : Option (InstallError E)) (m : Machine W) (w : W)
        → exit_main os create rename write unmarshal marshal_indent hash_encode has new_watcher add
            is_canceled result m
          ≡ (true, w)
        → remove_all os unmarshal marshal_indent m.installer.entries.log m.world ≡ ([], w)
    unfolding exit_main
    exited none m w h = removed_all _ w h
    exited (some e) m w h = elim (Bool-cases (is_canceled e)) [
      | inl canceled ↦ removed_all _ w (rw canceled at h)
      | inr failed ↦ absurd (ground (arith, rw failed at h))
    ]

    -- If a file that is removed is gone, and neither that nor a rewrite makes a file appear, then
    -- for an installer whose log is empty: when its run has copied the binaries to these paths,
    -- then, however the run goes on and whatever it returns, if the process exits with 0 none of
    -- the paths is there.
    pub run_removed :
        (m m₁ m' : Machine W) (w : W) (paths : List Bytes) (result : Option (InstallError E))
        → m.installer.entries ≡ no_entries
        → install_regular_files os
            (host_cni_bin os.getenv)
            (get_var os.getenv container_cni_bin_dir)
            m
          ≡ (ok paths, m₁)
        → Runs os create rename write unmarshal marshal_indent hash_encode has new_watcher add m
            result m'
        → exit_main os create rename write unmarshal marshal_indent hash_encode has new_watcher add
            is_canceled result m'
          ≡ (true, w)
        → All (λ path. is_found (os.stat path w) ≡ false) paths
    run_removed m m₁ m' w paths result empty installed runs exits =
        let (srcs, copied) = install_regular_files_success os _ _ paths m m₁ installed in
        let none_yet = subst (λ l. All IsBinary l.log) (sym empty) tt in
        let (consistent, logged) =
          install_files_logged os _ srcs paths m m₁
            (subst IsConsistent (sym empty) no_entries-IsConsistent) copied in
        let grown =
          Runs-Grows os create rename write unmarshal marshal_indent hash_encode has new_watcher add
            m₁.installer.entries m m' result
            (subst
              (λ x.
                Grows x.1.installer.entries
                  (start os create rename write unmarshal marshal_indent hash_encode has new_watcher
                    add m).1.installer.entries)
              installed
              (start-Grows os create rename write unmarshal marshal_indent hash_encode has
                new_watcher add m))
            runs in
        binaries_gone m₁.installer.entries m'.installer.entries m'.world w paths
          (install_files-IsBinary os _ srcs paths m m₁ none_yet copied) consistent logged grown
          (exited result m' w exits)
