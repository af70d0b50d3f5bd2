-- ===== src/Cni/Log/Laws.antt =====
-- The log names each file once.
use linkerd2_proxy_init.Base.{
  Bytes, true, false, ◌||◌, same, same_iff, same_refl, any, List, [], ◌∷◌, ◌++◌, map, ◌≡◌, refl,
  arith, ◌⊎◌, Bool-cases, inl, inr, ap, sym, ◌∙◌,
}
use linkerd2_proxy_init.Cni.Log.{Entry, filename, Log, is_indexed, append_entry}

abbrev pub AllDistinct : List Bytes → Type 0
AllDistinct [] = Unit
AllDistinct (x ∷ xs) = (any (same x) xs ≡ false) × AllDistinct xs

-- The index holds the names of the entries, and no two entries have one name.
pub record IsConsistent (l : Log) : Type 0 where
  pub indexed : (name : Bytes) → is_indexed name l ≡ any (same name) (map filename l.log)
  pub distinct : AllDistinct (map filename l.log)

any-end :
    (name : Bytes) (es : List Entry) (e : Entry)
    → any (same name) (map filename (es ++ e ∷ []))
      ≡ (same name (filename e) || any (same name) (map filename es))
unfolding any
any-end name [] e = refl
any-end name (d ∷ es) e = ground (arith, any-end name es e)

AllDistinct-end :
    (es : List Entry) (e : Entry)
    → AllDistinct (map filename es)
    → any (same (filename e)) (map filename es) ≡ false
    → AllDistinct (map filename (es ++ e ∷ []))
unfolding any
AllDistinct-end [] e h k = (refl, tt)
AllDistinct-end (d ∷ es) e (h, hs) k = (
  ground (
    arith,
    any-end (filename d) es e,
    h,
    k,
    same_iff (filename d) (filename e),
    same_iff (filename e) (filename d),
  ),
  AllDistinct-end es e hs (ground (arith, k)),
)

is_indexed-end :
    (name : Bytes) (e : Entry) (l : Log)
    → is_indexed name (record { log = l.log ++ e ∷ []; log_idx = filename e ∷ l.log_idx })
      ≡ (same name (filename e) || is_indexed name l)
unfolding is_indexed any
is_indexed-end name e l = refl

-- An entry that is added to a consistent log, one whose index holds the names of its entries and no
-- two of whose entries have one name, leaves it consistent; the log then has the entry's file, and
-- the entries before stand in front of at most one more.
pub append_entry-IsConsistent :
    (e : Entry) (l : Log)
    → IsConsistent l
    → IsConsistent (append_entry e l)
      × (any (same (filename e)) (map filename (append_entry e l).log) ≡ true)
      × (((append_entry e l).log ≡ l.log) ⊎ ((append_entry e l).log ≡ l.log ++ e ∷ []))
unfolding append_entry
append_entry-IsConsistent e l h = elim (Bool-cases (is_indexed (filename e) l)) [
  | inl known ↦ rw known (h, sym (h.indexed (filename e)) ∙ known, inl refl)
  | inr new ↦ rw new (
    record {
      indexed = λ name.
          is_indexed-end name e l
          ∙ ap (λ b. same name (filename e) || b) (h.indexed name)
          ∙ sym (any-end name l.log e);
      distinct = AllDistinct-end l.log e h.distinct (sym (h.indexed (filename e)) ∙ new);
    },
    ground (arith, any-end (filename e) l.log e, same_refl (filename e)),
    inr refl,
  )
]

known_once :
    (name : Bytes) (e : Entry) (l : Log)
    → is_indexed (filename e) l ≡ true
    → is_indexed name l ≡ (same name (filename e) || is_indexed name l)
known_once name e l h = elim (Bool-cases (same name (filename e))) [
  | inl eq ↦ rw eq (ap (λ n. is_indexed n l) ((same_iff name (filename e)).0 eq) ∙ h)
  | inr ne ↦ rw ne refl
]

pub is_indexed-append_entry :
    (name : Bytes) (e : Entry) (l : Log)
    → is_indexed name (append_entry e l) ≡ (same name (filename e) || is_indexed name l)
unfolding append_entry
is_indexed-append_entry name e l = elim (Bool-cases (is_indexed (filename e) l)) [
  | inl known ↦ rw known (known_once name e l known)
  | inr new ↦ rw new (is_indexed-end name e l)
]
