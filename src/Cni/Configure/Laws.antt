-- ===== src/Cni/Configure/Laws.antt =====
-- What `reconfigureCNI` leaves.
use linkerd2_proxy_init.Base.{
  ℕ, Bytes, codes, true, false, same, same_refl, Option, none, List, [], ◌∷◌, ◌++◌, Result, ok, err,
  ◌≡◌, ◌⊎◌, refl, arith, ap, sym, ◌∙◌, Bool-cases, inl, inr,
}
use linkerd2_proxy_init.Task.{Done, then_task_success}
use linkerd2_proxy_init.Go.Pathname.{clean}
use linkerd2_proxy_init.Go.Strings.{has_suffix}
use linkerd2_proxy_init.Cni.Json.{Json}
use linkerd2_proxy_init.Cni.Os.{Os}
use linkerd2_proxy_init.Cni.Log.{cni_file, filename, is_indexed, append_entry}
use linkerd2_proxy_init.Cni.Log.Laws.{is_indexed-append_entry}
use linkerd2_proxy_init.Cni.Inject.{JsonError, inject}
use linkerd2_proxy_init.Cni.Installer.{Machine, hash_of, doing, add_entry}
use linkerd2_proxy_init.Cni.Installer.Laws.{doing_success}
use linkerd2_proxy_init.Cni.Configure.{
  target_name, install_name, write_file_perm, configured, injected, set_hash, remove_previous,
  merged_text, store_merged,
}

-- What the writing of a file under another name, its renaming and a removal do to what is read,
-- where names that are clean and differ are of different files.
pub record Stores {W E : Type 0} (os : Os W E) : Type 0 where
  pub renamed :
      (t f text : Bytes) (w w₁ w₂ : W)
      → os.write_file t text write_file_perm w ≡ (none, w₁)
      → os.rename t f w₁ ≡ (none, w₂)
      → os.read_file f w₂ ≡ ok text
  pub others_kept :
      (f g : Bytes) (w : W)
      → clean f ≡ f
      → clean g ≡ g
      → same f g ≡ false
      → os.read_file f (os.remove g w).1 ≡ os.read_file f w
  pub removed :
      (f : Bytes) (w w' : W)
      → os.remove f w ≡ (none, w')
      → (e : E) × (os.read_file f w' ≡ err e) × (os.is_not_exist e ≡ true)

-- The file and its target have clean names.
abbrev pub IsPlain : Bytes → Type 0
IsPlain f = (clean f ≡ f) × (clean (target_name f) ≡ target_name f)

hash_of-first :
    (name hash : Bytes) (hashes : List (Bytes × Bytes))
    → hash_of name ((name, hash) ∷ hashes) ≡ hash
unfolding hash_of
hash_of-first name hash hashes = ground (arith, same_refl name)

-- A longer name is another.
longer : (f suffix : Bytes) (c : ℕ) → same (f ++ c ∷ suffix) f ≡ false
unfolding same
longer [] suffix c = refl
longer (d ∷ f) suffix c = ground (arith, longer f suffix c)

module _ {W E : Type 0} (os : Os W E) (stores : Stores os) where
  -- A file is not there.
  abbrev pub IsGone : Bytes → W → Type 0
  IsGone f w = (e : E) × (os.read_file f w ≡ err e) × (os.is_not_exist e ≡ true)

  -- The file that a list takes the place of is gone, and no other file is touched.
  abbrev pub PreviousGone : Bytes → W → Type 0
  PreviousGone f w =
      (has_suffix f (codes ".conf") ≡ false) ⊎ (has_suffix f (codes ".conf") ≡ true) × IsGone f w

  remove_previous_success :
      (f text : Bytes) (d : Done) (m m' : Machine W)
      → IsPlain f
      → os.read_file (target_name f) m.world ≡ ok text
      → remove_previous os f m ≡ (ok d, m')
      → (m'.installer ≡ m.installer)
        × (os.read_file (target_name f) m'.world ≡ ok text)
        × PreviousGone f m'.world
  unfolding remove_previous target_name
  remove_previous_success f text d m m' plain read h =
      elim (Bool-cases (has_suffix f (codes ".conf"))) [
        | inl single ↦
            let (w, gone, is) = doing_success (os.remove f) d m m' (rw single at h) in
            let kept =
              stores.others_kept (f ++ codes "list") f m.world (rw single at plain.1) plain.0
                (longer f (codes "ist") b'l') in
            let at = ap (λ n. n.world) is in
            (
              ap (λ n. n.installer) is,
              rw (single, at)
                  (ap (λ x. os.read_file (f ++ codes "list") x.1) (sym gone)
                    ∙ kept
                    ∙ (rw single at read)),
              inr (single, rw at (stores.removed f m.world w gone)),
            )
        | inr several ↦
            let is = ap (λ x. x.1) (rw several at h) in
            (ap (λ n. n.installer) (sym is), rw (ap (λ n. n.world) (sym is)) read, inl several)
      ]

  module _ (unmarshal : Bytes → Option Json) (marshal_indent : Json → Option Bytes)
      (hash_encode : Bytes → Bytes) where
    -- A file that has been configured: the merged text stands in its target, whose hash is noted and
    -- which the log names, and the file itself is gone if the target has another name.
    pub record Configured (f text : Bytes) (m m' : Machine W) : Type 0 where
      pub merged : Bytes
      pub made : merged_text os unmarshal marshal_indent hash_encode text m ≡ (ok merged, m)
      pub stands : os.read_file (target_name f) m'.world ≡ ok merged
      pub noted : hash_of (target_name f) m'.installer.file_hash_set ≡ hash_encode merged
      pub indexed : is_indexed (target_name f) m'.installer.entries ≡ true
      pub previous : PreviousGone f m'.world

    pub merged_text_same :
        (text merged : Bytes) (m m₁ : Machine W)
        → merged_text os unmarshal marshal_indent hash_encode text m ≡ (ok merged, m₁)
        → m₁ ≡ m
    unfolding merged_text
    merged_text_same text merged m m₁ h =
        let (configuration, m₂, read, h₁) =
          then_task_success (configured os m)
            (λ c. injected os (inject unmarshal marshal_indent text c)) h in
        made (inject unmarshal marshal_indent text configuration) m₂ h₁ ∙ ap (λ x. x.1) (sym read)
      where
        made :
            (r : Result JsonError Bytes) (n : Machine W)
            → injected os r n ≡ (ok merged, m₁)
            → m₁ ≡ n
        made (ok t) n h = ap (λ x. x.1) (sym h)
        made (err e) n h = absurd (ground arith)

    -- What storing a text leaves.
    abbrev pub Stored : Bytes → Bytes → Machine W → Type 0
    Stored f merged m' =
        (os.read_file (target_name f) m'.world ≡ ok merged)
        × (hash_of (target_name f) m'.installer.file_hash_set ≡ hash_encode merged)
        × (is_indexed (target_name f) m'.installer.entries ≡ true)
        × PreviousGone f m'.world

    pub store_merged-Stored :
        (f merged : Bytes) (d : Done) (m m' : Machine W)
        → IsPlain f
        → store_merged os unmarshal marshal_indent hash_encode f merged m ≡ (ok d, m')
        → Stored f merged m'
    unfolding store_merged add_entry set_hash filename
    store_merged-Stored f merged d m m' plain h =
        let target = target_name f in
        let write = os.write_file (install_name target) merged write_file_perm in
        let move = os.rename (install_name target) target in
        let (d₁, m₁, written, h₁) = then_task_success (doing write m) _ h in
        let (w₁, wrote, is₁) = doing_success write d₁ m m₁ written in
        let (d₂, m₂, moved, h₂) = then_task_success (doing move m₁) _ h₁ in
        let (w₂, renamed, is₂) = doing_success move d₂ m₁ m₂ moved in
        let at₁ : w₁ ≡ m₁.world = ap (λ n. n.world) (sym is₁) in
        let read : os.read_file target w₂ ≡ ok merged =
          stores.renamed (install_name target) target merged m.world w₁ w₂ wrote (rw at₁ renamed) in
        let at₂ : m₂.world ≡ w₂ = ap (λ n. n.world) is₂ in
        let log = append_entry (cni_file target) m₂.installer.entries in
        let hashes = (target, hash_encode merged) ∷ m₂.installer.file_hash_set in
        let m₃ = record m₂ {
          installer = record m₂.installer { entries = log; file_hash_set = hashes };
        } in
        let (same_state, stands, previous) =
          remove_previous_success f merged d m₃ m' plain (rw at₂ read) h₂ in
        (
          stands,
          ap (λ i. hash_of target i.file_hash_set) same_state
              ∙ hash_of-first target (hash_encode merged) m₂.installer.file_hash_set,
          ap (λ i. is_indexed target i.entries) same_state
              ∙ is_indexed-append_entry target (cni_file target) m₂.installer.entries
              ∙ ground (arith, same_refl target),
          previous,
        )
