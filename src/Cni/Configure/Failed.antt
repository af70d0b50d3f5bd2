-- ===== src/Cni/Configure/Failed.antt =====
-- Configurations that fail, and the file.
use linkerd2_proxy_init.Base.{
  Bytes, codes, ℕ, true, false, same, Option, some, none, Result, ok, err, ◌≡◌, refl, arith, ap,
  sym, ◌∙◌, Bool-cases, inl, inr, [], ◌∷◌, ◌++◌,
}
use linkerd2_proxy_init.Task.{Done, done, then_task}
use linkerd2_proxy_init.Go.Pathname.{clean}
use linkerd2_proxy_init.Go.Strings.{has_suffix}
use linkerd2_proxy_init.Cni.Json.{Json}
use linkerd2_proxy_init.Cni.Os.{Os}
use linkerd2_proxy_init.Cni.Inject.{JsonError, inject}
use linkerd2_proxy_init.Cni.Installer.{
  Machine, InstallError, hash_of, Act, doing, add_entry, answered, outcome,
}
use linkerd2_proxy_init.Cni.Configure.Laws.{IsPlain}
use linkerd2_proxy_init.Cni.Configure.{
  target_name, install_name, write_file_perm, configured, injected, remove_previous, set_hash,
  merged_text, store_merged, rewrite_cni, reconfigure_read, reconfigure_cni,
}

-- What the calls that change files leave alone: a write all other files, a renaming all but the two
-- names, where names that are clean and differ are of different files; a renaming or removal that
-- fails leaves every file alone.
pub record Untouched {W E : Type 0} (os : Os W E) : Type 0 where
  pub write_kept :
      (f g text : Bytes) (mode : ℕ) (w : W)
      → clean f ≡ f
      → clean g ≡ g
      → same f g ≡ false
      → os.read_file f (os.write_file g text mode w).1 ≡ os.read_file f w
  pub rename_kept :
      (f g h : Bytes) (w : W)
      → clean f ≡ f
      → clean g ≡ g
      → clean h ≡ h
      → same f g ≡ false
      → same f h ≡ false
      → os.read_file f (os.rename g h w).1 ≡ os.read_file f w
  pub rename_failed :
      (f g h : Bytes) (e : E) (w w' : W)
      → os.rename g h w ≡ (some e, w')
      → os.read_file f w' ≡ os.read_file f w
  pub remove_failed :
      (f g : Bytes) (e : E) (w w' : W)
      → os.remove g w ≡ (some e, w')
      → os.read_file f w' ≡ os.read_file f w

shorter : (f suffix : Bytes) (c : ℕ) → same f (f ++ c ∷ suffix) ≡ false
unfolding same
shorter [] suffix c = refl
shorter (d ∷ f) suffix c = ground (arith, shorter f suffix c)

-- A single plugin's file is not its target.
not_target : (f : Bytes) → has_suffix f (codes ".conf") ≡ true → same f (target_name f) ≡ false
unfolding target_name
not_target f h = rw h (shorter f (codes "ist") b'l')

module _ {W E : Type 0} (os : Os W E) (untouched : Untouched os) (unmarshal : Bytes → Option Json)
    (marshal_indent : Json → Option Bytes) (hash_encode : Bytes → Bytes) where
  -- The file reads as before, if there is an error.
  abbrev AsBefore : Bytes → W → Result (InstallError E) Done × Machine W → Type 0
  AsBefore f w (ok d, m) = Unit
  AsBefore f w (err e, m) = os.read_file f m.world ≡ os.read_file f w

  -- A call that changes files, and what follows it.
  doing-AsBefore :
      (f : Bytes) (call : W → Option E × W) (rest : Done → Act W E Done) (w : W) (m : Machine W)
      → os.read_file f m.world ≡ os.read_file f w
      → ((e : E) (w' : W)
          → call m.world ≡ (some e, w')
          → os.read_file f w' ≡ os.read_file f m.world)
      → ((w' : W) → call m.world ≡ (none, w') → AsBefore f w (rest done (record m { world = w' })))
      → AsBefore f w (then_task (doing call m) rest)
  doing-AsBefore f call rest w m before failed follows = inspect (call m.world) refl
    where
      inspect :
          (x : Option E × W)
          → call m.world ≡ x
          → AsBefore f w (then_task (answered (outcome x.0) (record m { world = x.1 })) rest)
      inspect (none, w') is = follows w' is
      inspect (some e, w') is = failed e w' is ∙ before

  last-AsBefore :
      (f g : Bytes) (w : W) (m : Machine W)
      → os.read_file f m.world ≡ os.read_file f w
      → AsBefore f w (doing (os.remove g) m)
  last-AsBefore f g w m before = inspect (os.remove g m.world) refl
    where
      inspect :
          (x : Option E × W)
          → os.remove g m.world ≡ x
          → AsBefore f w (answered (outcome x.0) (record m { world = x.1 }))
      inspect (none, w') is = tt
      inspect (some e, w') is = untouched.remove_failed f g e m.world w' is ∙ before

  remove_previous-AsBefore :
      (f : Bytes) (w : W) (m : Machine W)
      → (has_suffix f (codes ".conf") ≡ true → os.read_file f m.world ≡ os.read_file f w)
      → AsBefore f w (remove_previous os f m)
  unfolding remove_previous
  remove_previous-AsBefore f w m before = elim (Bool-cases (has_suffix f (codes ".conf"))) [
    | inl single ↦ rw single (last-AsBefore f f w m (before single))
    | inr several ↦ rw several tt
  ]

  store_merged-AsBefore :
      (f merged : Bytes) (w : W) (m : Machine W)
      → IsPlain f
      → clean (install_name (target_name f)) ≡ install_name (target_name f)
      → same f (install_name (target_name f)) ≡ false
      → os.read_file f m.world ≡ os.read_file f w
      → AsBefore f w (store_merged os unmarshal marshal_indent hash_encode f merged m)
  unfolding store_merged add_entry set_hash
  store_merged-AsBefore f merged w m plain tmp_clean other before =
      let target = target_name f in
      let tmp = install_name target in
      let write = os.write_file tmp merged write_file_perm in
      let written =
        λ (w' : W). untouched.write_kept f tmp merged write_file_perm w' plain.0 tmp_clean other in
      doing-AsBefore f write _ w m before
        (λ e w₁ is. ap (λ x. os.read_file f x.1) (sym is) ∙ written m.world)
        (λ w₁ is₁.
          let before₁ : os.read_file f w₁ ≡ os.read_file f w =
            ap (λ x. os.read_file f x.1) (sym is₁) ∙ written m.world ∙ before in
          doing-AsBefore f (os.rename tmp target) _ w (record m { world = w₁ }) before₁
            (λ e w₂ is. untouched.rename_failed f tmp target e w₁ w₂ is)
            (λ w₂ is₂. remove_previous-AsBefore f w _ (λ single.
              ap (λ x. os.read_file f x.1) (sym is₂)
              ∙ untouched.rename_kept f tmp target w₁ plain.0 tmp_clean plain.1 other
                  (not_target f single)
              ∙ before₁)))

  merged_text_kept :
      (text : Bytes) (m : Machine W)
      → (merged_text os unmarshal marshal_indent hash_encode text m).1 ≡ m
  unfolding merged_text
  merged_text_kept text m = read (configured os m).0
    where
      made : (r : Result JsonError Bytes) → (injected os r m).1 ≡ m
      made (ok t) = refl
      made (err e) = refl

      read :
          (r : Result (InstallError E) Bytes)
          → (then_task (r, m) (λ c. injected os (inject unmarshal marshal_indent text c))).1 ≡ m
      read (ok c) = made (inject unmarshal marshal_indent text c)
      read (err e) = refl

  rewrite_cni-AsBefore :
      (f text : Bytes) (m : Machine W)
      → IsPlain f
      → clean (install_name (target_name f)) ≡ install_name (target_name f)
      → same f (install_name (target_name f)) ≡ false
      → AsBefore f m.world (rewrite_cni os unmarshal marshal_indent hash_encode f text m)
  unfolding rewrite_cni
  rewrite_cni-AsBefore f text m plain tmp_clean other =
      inspect (merged_text os unmarshal marshal_indent hash_encode text m) (merged_text_kept text m)
    where
      inspect :
          (x : Result (InstallError E) Bytes × Machine W)
          → x.1 ≡ m
          → AsBefore f m.world
              (then_task x (store_merged os unmarshal marshal_indent hash_encode f))
      inspect (ok merged, m₁) is =
          store_merged-AsBefore f merged m.world m₁ plain tmp_clean other
            (ap (λ n. os.read_file f n.world) is)
      inspect (err e, m₁) is = ap (λ n. os.read_file f n.world) is

  reconfigure_read-AsBefore :
      (f : Bytes) (r : Result E Bytes) (m : Machine W)
      → IsPlain f
      → clean (install_name (target_name f)) ≡ install_name (target_name f)
      → same f (install_name (target_name f)) ≡ false
      → AsBefore f m.world (reconfigure_read os unmarshal marshal_indent hash_encode f r m)
  unfolding reconfigure_read
  reconfigure_read-AsBefore f (err e) m plain tmp_clean other =
      elim (Bool-cases (os.is_not_exist e)) [ inl gone ↦ rw gone tt | inr found ↦ rw found refl ]
  reconfigure_read-AsBefore f (ok text) m plain tmp_clean other =
      elim (Bool-cases (same (hash_of f m.installer.file_hash_set) (hash_encode text))) [
        | inl eq ↦ rw eq tt
        | inr ne ↦ rw ne (rewrite_cni-AsBefore f text m plain tmp_clean other)
      ]

  -- On a system that satisfies Untouched: if the names of the file, of its target and of the
  -- temporary file are clean, and the first and the last one differ, then a run of reconfigureCNI
  -- that fails leaves the file readable as it was, whichever step failed.
  pub reconfigure_cni_failed :
      (f : Bytes) (e : InstallError E) (m m' : Machine W)
      → IsPlain f
      → clean (install_name (target_name f)) ≡ install_name (target_name f)
      → same f (install_name (target_name f)) ≡ false
      → reconfigure_cni os unmarshal marshal_indent hash_encode f m ≡ (err e, m')
      → os.read_file f m'.world ≡ os.read_file f m.world
  unfolding reconfigure_cni
  reconfigure_cni_failed f e m m' plain tmp_clean other h =
      rw h at (reconfigure_read-AsBefore f (os.read_file (clean f) m.world) m plain tmp_clean other)
