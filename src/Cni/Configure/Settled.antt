-- ===== src/Cni/Configure/Settled.antt =====
-- `reconfigureCNI` and the events that its own writing causes.
use linkerd2_proxy_init.Base.{
  Bytes, same, same_refl, same_iff, Option, Result, ok, err, ◌≡◌, ◌⊎◌, refl, arith, ap, sym, ◌∙◌,
  Bool-cases, inl, inr,
}
use linkerd2_proxy_init.Task.{Done, done, then_task_success, fail}
use linkerd2_proxy_init.Go.Pathname.{clean}
use linkerd2_proxy_init.Cni.Json.{Json}
use linkerd2_proxy_init.Cni.Os.{Os}
use linkerd2_proxy_init.Cni.Installer.{Machine, InstallError, os_error, hash_of}
use linkerd2_proxy_init.Cni.Configure.{
  target_name, merged_text, store_merged, rewrite_cni, reconfigure_read, reconfigure_cni,
}
use linkerd2_proxy_init.Cni.Configure.Laws.{
  Stores, IsPlain, IsGone, Configured, merged_text_same, store_merged-Stored,
}

module _ {W E : Type 0} (os : Os W E) (stores : Stores os) (unmarshal : Bytes → Option Json)
    (marshal_indent : Json → Option Bytes) (hash_encode : Bytes → Bytes) where
  rewrite_cni-Configured :
      (f text : Bytes) (d : Done) (m m' : Machine W)
      → IsPlain f
      → rewrite_cni os unmarshal marshal_indent hash_encode f text m ≡ (ok d, m')
      → Configured os stores unmarshal marshal_indent hash_encode f text m m'
  unfolding rewrite_cni
  rewrite_cni-Configured f text d m m' plain h =
      let (merged, m₁, made, h₁) =
        then_task_success (merged_text os unmarshal marshal_indent hash_encode text m)
          (store_merged os unmarshal marshal_indent hash_encode f) h in
      let (stands, noted, indexed, previous) =
        store_merged-Stored os stores unmarshal marshal_indent hash_encode f merged d m₁ m' plain
          h₁ in
      let e =
        merged_text_same os stores unmarshal marshal_indent hash_encode text merged m m₁ made in
      record {
        merged = merged;
        made = made ∙ ap (λ n. (ok merged, n)) e;
        stands = stands;
        noted = noted;
        indexed = indexed;
        previous = previous;
      }

  failed : (e : InstallError E) (m : Machine W) {m' : Machine W} → fail e m ≡ (ok done, m') → ⊥
  failed e m h = ground arith

  -- There is nothing to configure: no file, or one whose hash is the noted one.
  abbrev pub IsSettled : Bytes → Machine W → Type 0
  IsSettled f m =
      IsGone os stores (clean f) m.world
      ⊎ (text : Bytes) × (os.read_file (clean f) m.world ≡ ok text)
        × (hash_of f m.installer.file_hash_set ≡ hash_encode text)

  settled_nothing :
      (f : Bytes) (m : Machine W)
      → IsSettled f m
      → reconfigure_cni os unmarshal marshal_indent hash_encode f m ≡ (ok done, m)
  unfolding reconfigure_cni reconfigure_read
  settled_nothing f m (inl (e, read, gone)) = rw read (rw gone refl)
  settled_nothing f m (inr (text, read, noted)) =
      rw read (rw noted (rw (same_refl (hash_encode text)) refl))

  -- On a system that satisfies Stores: if the names of the file and of its target are clean, then a
  -- run of reconfigureCNI that succeeds either has found nothing to do, and has done nothing, or
  -- has read a text and configured the file: what injection makes of that text stands in the
  -- target, whose hash is noted and which the log names, and a file `.conf` is gone.
  pub reconfigure_cni-Configured :
      (f : Bytes) (m m' : Machine W)
      → IsPlain f
      → reconfigure_cni os unmarshal marshal_indent hash_encode f m ≡ (ok done, m')
      → IsSettled f m × (m' ≡ m)
        ⊎ ((text : Bytes) × (os.read_file (clean f) m.world ≡ ok text)
            × Configured os stores unmarshal marshal_indent hash_encode f text m m')
  unfolding reconfigure_cni reconfigure_read
  reconfigure_cni-Configured f m m' plain h = inspect (os.read_file (clean f) m.world) refl h
    where
      inspect :
          (r : Result E Bytes)
          → os.read_file (clean f) m.world ≡ r
          → reconfigure_read os unmarshal marshal_indent hash_encode f r m ≡ (ok done, m')
          → IsSettled f m × (m' ≡ m)
            ⊎ ((text : Bytes) × (os.read_file (clean f) m.world ≡ ok text)
                × Configured os stores unmarshal marshal_indent hash_encode f text m m')
      inspect (err e) is h = elim (Bool-cases (os.is_not_exist e)) [
        | inl gone ↦ inl (inl (e, is, gone), ap (λ x. x.1) (sym (rw gone at h)))
        | inr other ↦ absurd (failed (os_error e) m (rw other at h))
      ]
      inspect (ok text) is h =
          elim (Bool-cases (same (hash_of f m.installer.file_hash_set) (hash_encode text))) [
            | inl eq ↦ inl (
              inr (
                text,
                is,
                (same_iff (hash_of f m.installer.file_hash_set) (hash_encode text)).0 eq,
              ),
              ap (λ x. x.1) (sym (rw eq at h)),
            )
            | inr ne ↦ inr (text, is, rewrite_cni-Configured f text done m m' plain (rw ne at h))
          ]

  target-IsSettled :
      (f text : Bytes) (m m' : Machine W)
      → clean (target_name f) ≡ target_name f
      → Configured os stores unmarshal marshal_indent hash_encode f text m m'
      → IsSettled (target_name f) m'
  target-IsSettled f text m m' h c = inr (c.merged, rw h c.stands, c.noted)

  previous-IsSettled :
      (f text : Bytes) (m m' : Machine W)
      → clean f ≡ f
      → clean (target_name f) ≡ target_name f
      → Configured os stores unmarshal marshal_indent hash_encode f text m m'
      → IsSettled f m'
  unfolding target_name
  previous-IsSettled f text m m' h k c = elim c.previous [
    | inl several ↦ rw several at (target-IsSettled f text m m' k c)
    | inr (single, gone) ↦ inl (rw h gone)
  ]

  -- On a system that satisfies Stores: if the names of the file and of its target are clean, then
  -- behind a run on the file that
  -- succeeds another one does nothing; nor does a run on the target, unless the first one has done
  -- nothing itself.
  pub reconfigure_cni_settled :
      (f : Bytes) (m m' : Machine W)
      → IsPlain f
      → reconfigure_cni os unmarshal marshal_indent hash_encode f m ≡ (ok done, m')
      → (reconfigure_cni os unmarshal marshal_indent hash_encode f m' ≡ (ok done, m'))
        × ((m' ≡ m)
            ⊎ (reconfigure_cni os unmarshal marshal_indent hash_encode (target_name f) m'
                ≡ (ok done, m')))
  reconfigure_cni_settled f m m' (h, k) r = elim (reconfigure_cni-Configured f m m' (h, k) r) [
    | inl (settled, same_machine) ↦
        (rw same_machine (settled_nothing f m settled), inl same_machine)
    | inr (text, read, c) ↦ (
      settled_nothing f m' (previous-IsSettled f text m m' h k c),
      inr (settled_nothing (target_name f) m' (target-IsSettled f text m m' k c)),
    )
  ]
