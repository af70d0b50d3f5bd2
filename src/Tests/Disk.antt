-- ===== src/Tests/Disk.antt =====
-- A disk: files by their clean names, and the names of the file that is open for writing and of the
-- one that is open for reading.
use linkerd2_proxy_init.Base.{
  is_empty, Bytes, true, false, same, same_refl, same_iff, Option, none, some, List, [], Result, ok,
  err, ◌≡◌, refl, arith, ap, sym, ◌∙◌, Bool-cases, inl, inr, if◌then◌else◌,
}
use linkerd2_proxy_init.Go.Pathname.{clean}
use linkerd2_proxy_init.Cni.Os.{Os, FileInfo, DirEntry, is_found}
use linkerd2_proxy_init.Cni.Configure.Laws.{Stores}
use linkerd2_proxy_init.Cni.Configure.Failed.{Untouched}
use linkerd2_proxy_init.Cni.Kubeconfig.Laws.{WritesOut}
use linkerd2_proxy_init.Cni.Remove.Laws.{Shrinks}

pub data DiskError : Type 0 where
  missing refused : DiskError

pub record Disk : Type 0 where
  pub files : Bytes → Option Bytes
  pub target : Bytes
  pub source : Bytes

abbrev set_file : Bytes → Option Bytes → Disk → Disk
set_file name text w = record w { files = λ n. if same n name then text else w.files n }

abbrev text_of : Option Bytes → Result DiskError Bytes
text_of none = err missing
text_of (some text) = ok text

-- An empty file stands for a directory.
abbrev info_of : Option Bytes → Result DiskError FileInfo
info_of none = err missing
info_of (some text) = ok (record { mode = 420; is_dir = is_empty text })

abbrev remove_from : Bytes → Disk → Option Bytes → Option DiskError × Disk
remove_from name w none = (some missing, w)
remove_from name w (some text) = (none, set_file name none w)

abbrev rename_from : Bytes → Bytes → Disk → Option Bytes → Option DiskError × Disk
rename_from old new w none = (some missing, w)
rename_from old new w (some text) = (none, set_file new (some text) (set_file old none w))

-- The environment is a function, and so are the entries of a directory.
abbrev pub disk : (Bytes → Bytes) → List DirEntry → Os Disk DiskError
disk getenv entries = record {
  is_not_exist = λ e. elim e [ missing ↦ true | refused ↦ false ];
  getenv = getenv;
  read_file = λ f w. text_of (w.files (clean f));
  stat = λ f w. info_of (w.files (clean f));
  read_dir = λ f w. ok entries;
  write_file = λ f text mode w. (none, set_file (clean f) (some text) w);
  open_file = λ f mode w. (ok 0, record (set_file (clean f) (some []) w) { target = clean f });
  open_read = λ f w. (ok 1, record w { source = clean f });
  copy = λ dst src w. (none, set_file w.target (w.files w.source) w);
  write = λ h text w. (none, set_file w.target (some text) w);
  sync = λ h w. (none, w);
  close = λ h w. (none, w);
  rename = λ f g w. rename_from (clean f) (clean g) w (w.files (clean f));
  remove = λ f w. remove_from (clean f) w (w.files (clean f));
}

put_there : (f : Bytes) (text : Option Bytes) (w : Disk) → (set_file f text w).files f ≡ text
put_there f text w = rw (same_refl f) refl

put_other :
    (f g : Bytes) (text : Option Bytes) (w : Disk)
    → same f g ≡ false
    → (set_file g text w).files f ≡ w.files f
put_other f g text w h = rw h refl

rename_found :
    (old new text : Bytes) (w w' : Disk)
    → w.files old ≡ some text
    → rename_from old new w (w.files old) ≡ (none, w')
    → text_of (w'.files new) ≡ ok text
rename_found old new text w w' found h =
    ap (λ x. text_of (x.1.files new)) (sym (rw found at h))
    ∙ ap text_of (put_there new (some text) (set_file old none w))

module _ (getenv : Bytes → Bytes) (entries : List DirEntry) where
  pub disk-Stores : Stores (disk getenv entries)
  disk-Stores = record {
    renamed = λ t f text w w₁ w₂ e₁ e₂.
        rename_found (clean t) (clean f) text w₁ w₂
          (ap (λ x. x.1.files (clean t)) (sym e₁) ∙ rw (same_refl (clean t)) refl) e₂;
    others_kept =
        λ f g w cf cg other. kept (clean f) (clean g) w (w.files (clean g)) (rw (cf, cg) other);
    removed = λ f w w' h. (missing, gone (clean f) w w' (w.files (clean f)) h, refl);
  }
    where
      kept :
          (f g : Bytes) (w : Disk) (found : Option Bytes)
          → same f g ≡ false
          → text_of ((remove_from g w found).1.files f) ≡ text_of (w.files f)
      kept f g w none h = refl
      kept f g w (some text) h = rw h refl

      gone :
          (f : Bytes) (w w' : Disk) (found : Option Bytes)
          → remove_from f w found ≡ (none, w')
          → text_of (w'.files f) ≡ err missing
      gone f w w' none h = absurd (ground arith)
      gone f w w' (some text) h =
          ap (λ x. text_of (x.1.files f)) (sym h) ∙ ap text_of (put_there f none w)

  pub disk-Untouched : Untouched (disk getenv entries)
  disk-Untouched = record {
    write_kept = λ f g text mode w cf cg other.
        ap text_of (put_other (clean f) (clean g) (some text) w (rw (cf, cg) other));
    rename_kept = λ f g h w cf cg ch other₁ other₂.
        renamed (clean f) (clean g) (clean h) w (w.files (clean g)) (rw (cf, cg) other₁)
          (rw (cf, ch) other₂);
    rename_failed =
        λ f g h e w w' is. unrenamed (clean f) (clean g) (clean h) e w w' (w.files (clean g)) is;
    remove_failed = λ f g e w w' is. unremoved (clean f) (clean g) e w w' (w.files (clean g)) is;
  }
    where
      renamed :
          (f g h : Bytes) (w : Disk) (found : Option Bytes)
          → same f g ≡ false
          → same f h ≡ false
          → text_of ((rename_from g h w found).1.files f) ≡ text_of (w.files f)
      renamed f g h w none other₁ other₂ = refl
      renamed f g h w (some text) other₁ other₂ =
          ap text_of
            (put_other f h (some text) (set_file g none w) other₂ ∙ put_other f g none w other₁)

      unrenamed :
          (f g h : Bytes) (e : DiskError) (w w' : Disk) (found : Option Bytes)
          → rename_from g h w found ≡ (some e, w')
          → text_of (w'.files f) ≡ text_of (w.files f)
      unrenamed f g h e w w' none is = ap (λ x. text_of (x.1.files f)) (sym is)
      unrenamed f g h e w w' (some text) is = absurd (ground arith)

      unremoved :
          (f g : Bytes) (e : DiskError) (w w' : Disk) (found : Option Bytes)
          → remove_from g w found ≡ (some e, w')
          → text_of (w'.files f) ≡ text_of (w.files f)
      unremoved f g e w w' none is = ap (λ x. text_of (x.1.files f)) (sym is)
      unremoved f g e w w' (some text) is = absurd (ground arith)

  pub disk-WritesOut : WritesOut (disk getenv entries)
  disk-WritesOut t f text mode h w w₁ w₂ w₃ w₄ w₅ plain e₁ e₂ e₃ e₄ e₅ =
      rename_found (clean t) (clean f) text w₄ w₅
        (ap (λ x. x.1.files (clean t)) (sym e₄)
          ∙ ap (λ x. x.1.files (clean t)) (sym e₃)
          ∙ ap (λ x. x.1.files (clean t)) (sym e₂)
          ∙ ap (λ x. (set_file x.1.target (some text) x.1).files (clean t)) (sym e₁)
          ∙ put_there (clean t) (some text)
              (record (set_file (clean t) (some []) w) { target = clean t }))
        e₅

  pub disk-Shrinks : Shrinks (disk getenv entries)
  disk-Shrinks = record {
    removed = λ f w w' h. gone (clean f) w w' (w.files (clean f)) h;
    remove_shrinks = λ f g w h. still (clean f) (clean g) w (w.files (clean f)) h;
    write_shrinks = λ f g text mode w found h. elim (Bool-cases (same (clean g) (clean f))) [
      | inl eq ↦ absurd (
          ground (
            arith,
            found,
            h,
            ap (λ n. is_found (info_of (w.files n))) ((same_iff (clean g) (clean f)).0 eq),
          ))
      | inr ne ↦ ap (λ x. is_found (info_of x)) (put_other (clean g) (clean f) (some text) w ne) ∙ h
    ];
  }
    where
      gone :
          (f : Bytes) (w w' : Disk) (found : Option Bytes)
          → remove_from f w found ≡ (none, w')
          → is_found (info_of (w'.files f)) ≡ false
      gone f w w' none h = absurd (ground arith)
      gone f w w' (some text) h =
          ap (λ x. is_found (info_of (x.1.files f))) (sym h)
          ∙ ap (λ x. is_found (info_of x)) (put_there f none w)

      still :
          (f g : Bytes) (w : Disk) (found : Option Bytes)
          → is_found (info_of (w.files g)) ≡ false
          → is_found (info_of ((remove_from f w found).1.files g)) ≡ false
      still f g w none h = h
      still f g w (some text) h = elim (Bool-cases (same g f)) [
        | inl eq ↦ rw eq refl
        | inr ne ↦ rw ne h
      ]
