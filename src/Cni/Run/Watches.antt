-- ===== src/Cni/Run/Watches.antt =====
-- The watches and their index, and the log.
use linkerd2_proxy_init.Base.{
  Bytes, Bool, true, false, same, Option, none, some, List, [], ◌∷◌, ok, All, arith, ◌≡◌, refl,
}
use mathlib.Core.Path.{subst}
use linkerd2_proxy_init.Task.{Done, done}
use linkerd2_proxy_init.Go.Pathname.{dir}
use linkerd2_proxy_init.Cni.Os.{Os}
use linkerd2_proxy_init.Cni.Installer.{Machine, Act, asking, doing}
use linkerd2_proxy_init.Cni.Installer.Laws.{asking-KeepsInstaller}
use linkerd2_proxy_init.Cni.Installer.Entries.{
  KeepsLog, KeepsInstaller-KeepsLog, >>=-KeepsLog, if-KeepsLog,
}
use linkerd2_proxy_init.Cni.Watch.{
  Event, Watch, watch_at, applies, fire_if, handle_event, register_watches,
}
use linkerd2_proxy_init.Cni.Run.Steps.{doing-KeepsLog, return-KeepsLog}
use linkerd2_proxy_init.Task.{returned, then_task_success}
use linkerd2_proxy_init.Base.{if◌then◌else◌}
use linkerd2_proxy_init.Base.{some_eq}

module _ {W E Op : Type 0} (os : Os W E) (has : Op → Op → Bool) where
  abbrev pub WatchKeeps : Watch Op W E → Type 0
  WatchKeeps w = (event : Event Op) → KeepsLog (w.event_fn event)

  abbrev pub IndexKeeps : List (Bytes × Watch Op W E) → Type 0
  IndexKeeps index = All (λ entry. WatchKeeps entry.1) index

  fire_if-KeepsLog :
      (w : Option (Watch Op W E)) (event : Event Op) (otherwise : Act W E Done)
      → ((v : Watch Op W E) → w ≡ some v → WatchKeeps v)
      → KeepsLog otherwise
      → KeepsLog (fire_if has w event otherwise)
  fire_if-KeepsLog none event otherwise h k = k
  fire_if-KeepsLog (some w) event otherwise h k =
      if-KeepsLog (applies has w event.op) (w.event_fn event) otherwise (h w refl event) k

  watch_at-WatchKeeps :
      (path : Bytes) (index : List (Bytes × Watch Op W E))
      → IndexKeeps index
      → (v : Watch Op W E) → watch_at has path index ≡ some v
      → WatchKeeps v
  unfolding watch_at
  watch_at-WatchKeeps path [] h v e = absurd (ground arith)
  watch_at-WatchKeeps path ((k, w) ∷ index) (h, hs) v e =
      choose (same k path) h (watch_at-WatchKeeps path index hs v) e
    where
      choose :
          (test : Bool)
          → WatchKeeps w
          → (watch_at has path index ≡ some v → WatchKeeps v)
          → (if test then some w else watch_at has path index) ≡ some v
          → WatchKeeps v
      choose true h again e = subst WatchKeeps (some_eq e) h
      choose false h again e = again e

  pub handle_event-KeepsLog :
      (index : List (Bytes × Watch Op W E)) (event : Event Op)
      → IndexKeeps index
      → KeepsLog (handle_event has index event)
  unfolding handle_event
  handle_event-KeepsLog index event h =
      fire_if-KeepsLog (watch_at has event.name index) event _
        (watch_at-WatchKeeps event.name index h)
        (fire_if-KeepsLog (watch_at has (dir event.name) index) event _
          (watch_at-WatchKeeps (dir event.name) index h) (return-KeepsLog os done))

  module _ (add : Bytes → W → Option E × W) where
    pub register_watches-KeepsLog :
        (ws : List (Watch Op W E)) (index : List (Bytes × Watch Op W E))
        → KeepsLog (register_watches os add ws index)
    unfolding register_watches
    register_watches-KeepsLog [] index = return-KeepsLog os index
    register_watches-KeepsLog (w ∷ ws) index =
        >>=-KeepsLog _ _ (KeepsInstaller-KeepsLog _ (asking-KeepsInstaller (os.stat w.path)))
          λ info.
            >>=-KeepsLog _ _ (doing-KeepsLog os (add w.path))
              λ added. register_watches-KeepsLog ws ((w.path, w) ∷ index)

    pub register_watches-IndexKeeps :
        (ws : List (Watch Op W E)) (index result : List (Bytes × Watch Op W E)) (m m' : Machine W)
        → All WatchKeeps ws
        → IndexKeeps index
        → register_watches os add ws index m ≡ (ok result, m')
        → IndexKeeps result
    unfolding register_watches
    register_watches-IndexKeeps [] index result m m' h k e = subst IndexKeeps (returned e).0 k
    register_watches-IndexKeeps (w ∷ ws) index result m m' (h, hs) k e =
        let (info, m₁, _, e₁) = then_task_success (asking (os.stat w.path) m) _ e in
        let (added, m₂, _, e₂) = then_task_success (doing (add w.path) m₁) _ e₁ in
        register_watches-IndexKeeps ws ((w.path, w) ∷ index) result m₂ m' hs (h, k) e₂
