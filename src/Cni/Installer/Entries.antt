-- ===== src/Cni/Installer/Entries.antt =====
-- Steps that at most add entries to the installer's log.
use linkerd2_proxy_init.Base.{
  Bool, true, false, List, [], ◌∷◌, ◌++◌, append_assoc, append-nil, Result, ok, err, ◌≡◌, refl, sym,
  ap, ◌∙◌, Bool-cases, inl, inr, if◌then◌else◌,
}
use mathlib.Core.Path.{subst}
use linkerd2_proxy_init.Task.{then_task, ◌>>=◌}
use linkerd2_proxy_init.Cni.Log.{Entry, Log, filename, is_indexed, append_entry}
use linkerd2_proxy_init.Cni.Log.Laws.{IsConsistent, append_entry-IsConsistent}
use linkerd2_proxy_init.Cni.Installer.{Machine, InstallError, Act, add_entry}
use linkerd2_proxy_init.Cni.Installer.Laws.{KeepsInstaller}

pub record Grows (l l' : Log) : Type 0 where
  pub more : List Entry
  pub grown : l'.log ≡ l.log ++ more
  pub consistent : IsConsistent l → IsConsistent l'

pub Grows-refl : (l : Log) → Grows l l
Grows-refl l = record { more = []; grown = sym (append-nil l.log); consistent = λ h. h }

pub Grows-trans : {l l' l'' : Log} → Grows l l' → Grows l' l'' → Grows l l''
Grows-trans {l} g h = record {
  more = g.more ++ h.more;
  grown = h.grown ∙ ap (λ t. t ++ h.more) g.grown ∙ append_assoc l.log g.more h.more;
  consistent = λ c. h.consistent (g.consistent c);
}

append_entry-Grows : (e : Entry) (l : Log) → Grows l (append_entry e l)
unfolding append_entry
append_entry-Grows e l = elim (Bool-cases (is_indexed (filename e) l)) [
  | inl known ↦ record {
    more = [];
    grown = rw known (sym (append-nil l.log));
    consistent = λ h. (append_entry-IsConsistent e l h).0;
  }
  | inr new ↦ record {
    more = e ∷ [];
    grown = rw new refl;
    consistent = λ h. (append_entry-IsConsistent e l h).0;
  }
]

pub record KeepsLog {W E A : Type 0} (act : Act W E A) : Type 0 where
  pub kept : (m : Machine W) → Grows m.installer.entries (act m).1.installer.entries

module _ {W E : Type 0} where
  pub KeepsInstaller-KeepsLog : {A : Type 0} (act : Act W E A) → KeepsInstaller act → KeepsLog act
  KeepsInstaller-KeepsLog act h = record {
    kept = λ m. subst (λ i. Grows m.installer.entries i.entries) (sym (h.kept m)) (Grows-refl _);
  }

  pub add_entry-KeepsLog : (e : Entry) → KeepsLog (add_entry {W = W} {E = E} e)
  unfolding add_entry
  add_entry-KeepsLog e = record { kept = λ m. append_entry-Grows e m.installer.entries }

  then_task-Grows :
      {A B : Type 0} (x : Result (InstallError E) A × Machine W) (rest : A → Act W E B)
      → ((a : A) → KeepsLog (rest a))
      → Grows x.1.installer.entries (then_task x rest).1.installer.entries
  then_task-Grows (ok a, m) rest h = (h a).kept m
  then_task-Grows (err e, m) rest h = Grows-refl _

  pub >>=-KeepsLog :
      {A B : Type 0} (act : Act W E A) (rest : A → Act W E B)
      → KeepsLog act
      → ((a : A) → KeepsLog (rest a))
      → KeepsLog (act >>= rest)
  >>=-KeepsLog act rest h k = record {
    kept = λ m. Grows-trans (h.kept m) (then_task-Grows (act m) rest k);
  }

  pub if-KeepsLog :
      {A : Type 0} (test : Bool) (one other : Act W E A)
      → KeepsLog one
      → KeepsLog other
      → KeepsLog (if test then one else other)
  if-KeepsLog true one other h k = h
  if-KeepsLog false one other h k = k
