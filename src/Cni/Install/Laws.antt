-- ===== src/Cni/Install/Laws.antt =====
-- Copying files, and the log.
use linkerd2_proxy_init.Base.{
  Bytes, true, same_refl, List, [], ◌∷◌, ◌++◌, Result, ok, err, ◌≡◌, ◌⊎◌, refl, arith, All, inl,
  inr, ap, sym, ◌∙◌,
}
use linkerd2_proxy_init.Cni.Os.{Os}
use linkerd2_proxy_init.Cni.Log.{installed_file, filename, is_indexed}
use linkerd2_proxy_init.Cni.Log.Laws.{
  IsConsistent, append_entry-IsConsistent, is_indexed-append_entry,
}
use linkerd2_proxy_init.Cni.Installer.{Machine, InstallError, add_entry}
use linkerd2_proxy_init.Cni.Installer.Laws.{
  KeepsInstaller, asking-KeepsInstaller, doing-KeepsInstaller, opening-KeepsInstaller,
  return-KeepsInstaller, >>=-KeepsInstaller, or_cleanup-KeepsInstaller,
}
use linkerd2_proxy_init.Cni.Install.{copy_file, install_files}

module _ {W E : Type 0} (os : Os W E) where
  pub copy_file-KeepsInstaller : (dst src : Bytes) → KeepsInstaller (copy_file os dst src)
  unfolding copy_file
  copy_file-KeepsInstaller dst src =
      >>=-KeepsInstaller _ _ (asking-KeepsInstaller (os.stat src)) λ info.
        >>=-KeepsInstaller _ _ (opening-KeepsInstaller (os.open_file _ info.mode)) λ dst_w.
          >>=-KeepsInstaller _ _
            (or_cleanup-KeepsInstaller _ _ (opening-KeepsInstaller (os.open_read _)) (λ m. refl))
            λ src_r.
              >>=-KeepsInstaller _ _
                (or_cleanup-KeepsInstaller _ _ (doing-KeepsInstaller (os.copy dst_w src_r))
                  (λ m. refl))
                λ copied.
                  >>=-KeepsInstaller _ _
                    (or_cleanup-KeepsInstaller _ _ (doing-KeepsInstaller (os.sync dst_w))
                      (λ m. refl))
                    λ synced.
                      >>=-KeepsInstaller _ _ (doing-KeepsInstaller (os.close dst_w)) λ closed.
                        >>=-KeepsInstaller _ _ (doing-KeepsInstaller (os.rename _ _))
                          λ renamed. return-KeepsInstaller _

  -- The machine behind a file that has been copied.
  abbrev pub logged : Bytes → Machine W → Machine W
  logged path m = (add_entry {E = E} (installed_file path) m).1

  -- The sources are copied in order, to these paths, and each one is logged before the next.
  abbrev pub Copies : Bytes → List Bytes → List Bytes → Machine W → Machine W → Type 0
  Copies dst [] [] m m' = m ≡ m'
  Copies dst (src ∷ srcs) (path ∷ paths) m m' =
      (m₁ : Machine W) × (copy_file os dst src m ≡ (ok path, m₁))
      × Copies dst srcs paths (logged path m₁) m'
  Copies dst _ _ m m' = ⊥

  abbrev pub Logged : List Bytes → Machine W → Type 0
  Logged paths m = All (λ path. is_indexed path m.installer.entries ≡ true) paths

  -- All is copied, or an error ends the copying behind some of the sources.
  abbrev pub Ended :
      Bytes
      → List Bytes
      → List Bytes
      → Machine W
      → Result (InstallError E) (List Bytes) × Machine W
      → Type 0
  Ended dst left paths m result =
      (left ≡ []) × (result ≡ (ok paths, m))
      ⊎ (src : Bytes) × (rest : List Bytes) × (e : InstallError E) × (m' : Machine W) × (left
          ≡ src ∷ rest)
        × (copy_file os dst src m ≡ (err e, m'))
        × (result ≡ (err e, m'))
        × (m'.installer ≡ m.installer)

  pub record Installs (dst : Bytes) (srcs : List Bytes) (m : Machine W)
      (result : Result (InstallError E) (List Bytes) × Machine W) : Type 0 where
    pub copied : List Bytes
    pub left : List Bytes
    pub paths : List Bytes
    pub behind : Machine W
    pub parts : srcs ≡ copied ++ left
    pub copies : Copies dst copied paths m behind
    pub logs : Logged paths behind
    pub consistent : IsConsistent behind.installer.entries
    pub kept :
        (name : Bytes)
        → is_indexed name m.installer.entries ≡ true
        → is_indexed name behind.installer.entries ≡ true
    pub ended : Ended dst left paths behind result

  logged-IsConsistent :
      (path : Bytes) (m : Machine W)
      → IsConsistent m.installer.entries
      → IsConsistent (logged path m).installer.entries
        × (is_indexed path (logged path m).installer.entries ≡ true)
        × ((name : Bytes)
            → is_indexed name m.installer.entries ≡ true
            → is_indexed name (logged path m).installer.entries ≡ true)
  unfolding add_entry filename
  logged-IsConsistent path m h = (
    (append_entry-IsConsistent (installed_file path) m.installer.entries h).0,
    is_indexed-append_entry path (installed_file path) m.installer.entries
        ∙ ground (arith, same_refl path),
    λ name k.
        is_indexed-append_entry name (installed_file path) m.installer.entries ∙ ground (arith, k),
  )

  -- The rest of a loop whose first round has returned a path.
  ended_first :
      (dst src path : Bytes) (srcs : List Bytes) (m m₁ : Machine W)
      → copy_file os dst src m ≡ (ok path, m₁)
      → (r : Installs dst srcs (logged path m₁) (install_files os dst srcs (logged path m₁)))
      → Ended dst r.left (path ∷ r.paths) r.behind (install_files os dst (src ∷ srcs) m)
  unfolding install_files add_entry
  ended_first dst src path srcs m m₁ e r = elim r.ended [
    | inl (all, result) ↦ inl (all, rw e (rw result refl))
    | inr (s, rest, x, m', left, failed, result, same_state) ↦
        inr (s, rest, x, m', left, failed, rw e (rw result refl), same_state)
  ]

  install_files_first :
      (dst src path : Bytes) (srcs : List Bytes) (m m₁ : Machine W)
      → IsConsistent m.installer.entries
      → copy_file os dst src m ≡ (ok path, m₁)
      → Installs dst srcs (logged path m₁) (install_files os dst srcs (logged path m₁))
      → Installs dst (src ∷ srcs) m (install_files os dst (src ∷ srcs) m)
  install_files_first dst src path srcs m m₁ h e r =
      let same_state =
        sym ((copy_file-KeepsInstaller dst src).kept m) ∙ ap (λ x. x.1.installer) e in
      let (consistent, indexed, grown) = logged-IsConsistent path m₁ (rw (← same_state) h) in
      record {
        copied = src ∷ r.copied;
        left = r.left;
        paths = path ∷ r.paths;
        behind = r.behind;
        parts = ap (λ t. src ∷ t) r.parts;
        copies = (m₁, e, r.copies);
        logs = (r.kept path indexed, r.logs);
        consistent = r.consistent;
        kept = λ name k. r.kept name (grown name (rw (← same_state) k));
        ended = ended_first dst src path srcs m m₁ e r;
      }

  -- If the log is consistent, then a first part of the sources is copied, in order, each one logged
  -- before the next is begun, and the log is consistent behind them, has their paths and has lost
  -- no name; either these are all and their paths are returned, or the next one fails and its error
  -- is returned, with the installer's state as it was behind the part.
  pub install_files-Installs :
      (dst : Bytes) (srcs : List Bytes) (m : Machine W)
      → IsConsistent m.installer.entries
      → Installs dst srcs m (install_files os dst srcs m)
  unfolding install_files
  install_files-Installs dst [] m h = record {
    copied = [];
    left = [];
    paths = [];
    behind = m;
    parts = refl;
    copies = refl;
    logs = tt;
    consistent = h;
    kept = λ name k. k;
    ended = inl (refl, refl);
  }
  install_files-Installs dst (src ∷ srcs) m h =
      inspect (install_files-Installs dst srcs) (copy_file os dst src m) refl
    where
      inspect :
          ((n : Machine W)
            → IsConsistent n.installer.entries
            → Installs dst srcs n (install_files os dst srcs n))
          → (x : Result (InstallError E) Bytes × Machine W) → copy_file os dst src m ≡ x
          → Installs dst (src ∷ srcs) m (install_files os dst (src ∷ srcs) m)
      inspect again (err e, m') is = record {
        copied = [];
        left = src ∷ srcs;
        paths = [];
        behind = m;
        parts = refl;
        copies = refl;
        logs = tt;
        consistent = h;
        kept = λ name k. k;
        ended = inr (
          src,
          srcs,
          e,
          m',
          refl,
          is,
          rw is refl,
          ap (λ x. x.1.installer) (sym is) ∙ (copy_file-KeepsInstaller dst src).kept m,
        );
      }
      inspect again (ok path, m₁) is =
          let same_state =
            sym ((copy_file-KeepsInstaller dst src).kept m) ∙ ap (λ x. x.1.installer) is in
          let (consistent, _, _) = logged-IsConsistent path m₁ (rw (← same_state) h) in
          install_files_first dst src path srcs m m₁ h is (again (logged path m₁) consistent)
