-- ===== src/Cni/Installer/Laws.antt =====
-- Steps that leave the installer's own state alone: they only talk to the operating system.
use linkerd2_proxy_init.Base.{
  Bool, true, false, ap, sym, arith, Option, none, some, Result, ok, err, ◌≡◌, refl, ◌∙◌,
}
use linkerd2_proxy_init.Task.{then_task, Done, ◌>>=◌, return}
use linkerd2_proxy_init.Cni.Installer.{
  Machine, InstallError, Act, answered, outcome, asking, doing, opening, cleaned_up, or_cleanup,
  require,
}

pub record KeepsInstaller {W E A : Type 0} (act : Act W E A) : Type 0 where
  pub kept : (m : Machine W) → (act m).1.installer ≡ m.installer

pub return-KeepsInstaller : {W E A : Type 0} (a : A) → KeepsInstaller {W = W} {E = E} (return a)
return-KeepsInstaller a = record { kept = λ m. refl }

module _ {W E : Type 0} where
  answered_same :
      {A : Type 0} (r : Result E A) (m : Machine W) → (answered r m).1.installer ≡ m.installer
  answered_same (ok a) m = refl
  answered_same (err e) m = refl

  pub asking-KeepsInstaller :
      {A : Type 0} (request : W → Result E A)
      → KeepsInstaller (asking {W = W} {E = E} {A = A} request)
  asking-KeepsInstaller request = record { kept = λ m. answered_same (request m.world) m }

  pub doing-KeepsInstaller : (call : W → Option E × W) → KeepsInstaller (doing {W = W} {E = E} call)
  doing-KeepsInstaller call = record { kept = λ m. answered_same (outcome (call m.world).0) _ }

  pub opening-KeepsInstaller :
      {A : Type 0} (call : W → Result E A × W)
      → KeepsInstaller (opening {W = W} {E = E} {A = A} call)
  opening-KeepsInstaller call = record { kept = λ m. answered_same (call m.world).0 _ }

  then_same :
      {A B : Type 0} (x : Result (InstallError E) A × Machine W) (rest : A → Act W E B)
      → ((a : A) → KeepsInstaller (rest a))
      → (then_task x rest).1.installer ≡ x.1.installer
  then_same (ok a, m) rest h = (h a).kept m
  then_same (err e, m) rest h = refl

  pub >>=-KeepsInstaller :
      {A B : Type 0} (act : Act W E A) (rest : A → Act W E B)
      → KeepsInstaller act
      → ((a : A) → KeepsInstaller (rest a))
      → KeepsInstaller (act >>= rest)
  >>=-KeepsInstaller act rest h k = record { kept = λ m. then_same (act m) rest k ∙ h.kept m }

  cleaned_same :
      {A : Type 0} (x : Result (InstallError E) A × Machine W) (cleanup : Machine W → Machine W)
      → ((m : Machine W) → (cleanup m).installer ≡ m.installer)
      → (cleaned_up cleanup x).1.installer ≡ x.1.installer
  cleaned_same (ok a, m) cleanup h = refl
  cleaned_same (err e, m) cleanup h = h m

  pub or_cleanup-KeepsInstaller :
      {A : Type 0} (act : Act W E A) (cleanup : Machine W → Machine W)
      → KeepsInstaller act
      → ((m : Machine W) → (cleanup m).installer ≡ m.installer)
      → KeepsInstaller (or_cleanup act cleanup)
  or_cleanup-KeepsInstaller act cleanup h k = record {
    kept = λ m. cleaned_same (act m) cleanup k ∙ h.kept m;
  }

-- A call that succeeds: what it returned, and the machine then.
pub doing_success :
    {W E : Type 0} (call : W → Option E × W) (d : Done) (m m' : Machine W)
    → doing {W = W} {E = E} call m ≡ (ok d, m')
    → (w : W) × (call m.world ≡ (none, w)) × (m' ≡ record m { world = w })
doing_success {W} {E} call d m m' h = inspect (call m.world) refl h
  where
    inspect :
        (x : Option E × W)
        → call m.world ≡ x
        → answered (outcome x.0) (record m { world = x.1 }) ≡ (ok d, m')
        → (w : W) × (call m.world ≡ (none, w)) × (m' ≡ record m { world = w })
    inspect (none, w) is h = (w, is, ap (λ x. x.1) (sym h))
    inspect (some e, w) is h = absurd (ground arith)

pub asking_success :
    {W E A : Type 0} (request : W → Result E A) (a : A) (m m' : Machine W)
    → asking {W = W} {E = E} request m ≡ (ok a, m')
    → (request m.world ≡ ok a) × (m' ≡ m)
asking_success {W} {E} {A} request a m m' h = inspect (request m.world) refl h
  where
    inspect :
        (r : Result E A)
        → request m.world ≡ r
        → answered r m ≡ (ok a, m')
        → (request m.world ≡ ok a) × (m' ≡ m)
    inspect (ok b) is h = (is ∙ ground (arith, h), ap (λ x. x.1) (sym h))
    inspect (err e) is h = absurd (ground arith)

pub opening_success :
    {W E A : Type 0} (call : W → Result E A × W) (a : A) (m m' : Machine W)
    → opening {W = W} {E = E} call m ≡ (ok a, m')
    → (w : W) × (call m.world ≡ (ok a, w)) × (m' ≡ record m { world = w })
opening_success {W} {E} {A} call a m m' h = inspect (call m.world) refl h
  where
    inspect :
        (x : Result E A × W)
        → call m.world ≡ x
        → answered x.0 (record m { world = x.1 }) ≡ (ok a, m')
        → (w : W) × (call m.world ≡ (ok a, w)) × (m' ≡ record m { world = w })
    inspect (ok b, w) is h = (w, is ∙ ground (arith, h), ap (λ x. x.1) (sym h))
    inspect (err e, w) is h = absurd (ground arith)

pub cleaned_up_success :
    {X M A : Type 0} (cleanup : M → M) (x : Result X A × M) {a : A} {m : M}
    → cleaned_up cleanup x ≡ (ok a, m)
    → x ≡ (ok a, m)
cleaned_up_success cleanup (ok b, m) h = h
cleaned_up_success cleanup (err e, m) h = absurd (ground arith)

pub require_success :
    {W E : Type 0} (test : Bool) (e : InstallError E) (d : Done) (m m' : Machine W)
    → require {W = W} test e m ≡ (ok d, m')
    → (test ≡ true) × (m' ≡ m)
require_success true e d m m' h = (refl, ap (λ x. x.1) (sym h))
require_success false e d m m' h = absurd (ground arith)
