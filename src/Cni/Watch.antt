-- ===== src/Cni/Watch.antt =====
-- internal/cni/watch_fs.go: the watches and the loop over their events. `Op` and `has` are
-- `fsnotify.Op` and its method `Has`; `add` is the method `Add` of the watcher.
pub mod Laws
pub mod Hangs
pub mod Returns
pub mod Ready
use linkerd2_proxy_init.Base.{
  Bytes, Bool, true, false, any, same, Option, none, some, List, [], ◌∷◌, Result, ok, err,
  if◌then◌else◌, ◌≡◌,
}
use linkerd2_proxy_init.Task.{Done, done, Task, then_task, ◌>>=◌, return}
use linkerd2_proxy_init.Go.Pathname.{dir}
use linkerd2_proxy_init.Cni.Os.{Os}
use linkerd2_proxy_init.Cni.Installer.{Act, asking, doing}

pub record Event (Op : Type 0) : Type 0 where
  pub name : Bytes
  pub op : Op

pub record Watch (Op W E : Type 0) : Type 0 where
  pub path : Bytes
  pub operations : List Op
  pub event_fn : Event Op → Act W E Done

module _ {Op W E : Type 0} (has : Op → Op → Bool) where
  unfoldable pub applies : Watch Op W E → Op → Bool
  applies w op = any (has op) w.operations

  -- `index[path]`
  unfoldable pub watch_at : Bytes → List (Bytes × Watch Op W E) → Option (Watch Op W E)
  watch_at path [] = none
  watch_at path ((k, w) ∷ index) = if same k path then some w else watch_at path index

  abbrev pub fire_if : Option (Watch Op W E) → Event Op → Act W E Done → Act W E Done
  fire_if none event otherwise = otherwise
  fire_if (some w) event otherwise = if applies w event.op then w.event_fn event else otherwise

  -- The watch of the event's name, or else that of its directory, is fired, if it applies.
  unfoldable pub handle_event : List (Bytes × Watch Op W E) → Event Op → Act W E Done
  handle_event index event =
      fire_if (watch_at event.name index) event
        (fire_if (watch_at (dir event.name) index) event (return done))

module _ {Op W E : Type 0} (os : Os W E) (add : Bytes → W → Option E × W) where
  -- The loop that registers the watches and makes the index.
  unfoldable pub register_watches :
      List (Watch Op W E) → List (Bytes × Watch Op W E) → Act W E (List (Bytes × Watch Op W E))
  register_watches [] index = return index
  register_watches (w ∷ watches) index = do
    info ← asking (os.stat w.path)
    added ← doing (add w.path)
    register_watches watches ((w.path, w) ∷ index)

-- What the goroutine of `watchFS` is about to do: wait in its `select`, handle an event that it has
-- received, send an error on `errs`, send the error of closing the watcher, or nothing any more, with
-- `errs` closed.
pub data Pc (Op X : Type 0) : Type 0 where
  waiting stopped : Pc Op X
  handling : Event Op → Pc Op X
  reporting closing : X → Pc Op X

-- Where `Run` stands behind `watchFS`: it sends the event for the token, reads the directory of
-- configurations, sends the events for its entries, waits in its `select`, or has returned.
pub data Main (Op X : Type 0) : Type 0 where
  announcing : Event Op → Main Op X
  listing selecting : Main Op X
  sending : List (Event Op) → Main Op X
  returned : Option X → Main Op X

-- Both goroutines, what they work on, the channel `errs`, which holds one error at most, and
-- whether the context has been cancelled.
pub record System (Op X M : Type 0) : Type 0 where
  pub machine : M
  pub main : Main Op X
  pub pc : Pc Op X
  pub errs : Option X
  pub cancelled : Bool

-- The loop behind a handler.
abbrev pub after : {Op X : Type 0} → Result X Done → Pc Op X
after (ok d) = waiting
after (err e) = reporting e

-- One step. The channel of events has no buffer: an event is handed over when `Run` sends it and
-- the loop waits; then `Run` goes on, and the loop handles the event in a step of its own. `handle`
-- is the body of the loop for an event, `list` makes the events for the entries of the directory.
-- Events and errors of the watcher may come whenever the loop waits.
module _ {Op X M : Type 0} (handle : Event Op → Task M X Done)
    (list : M → Result X (List (Event Op))) where
  pub data Step (s : System Op X M) : System Op X M → Type 0 where
    announce :
        (e : Event Op)
        → s.main ≡ announcing e
        → s.pc ≡ waiting
        → Step s (record s { main = listing; pc = handling e })
    listed :
        (es : List (Event Op))
        → s.main ≡ listing
        → list s.machine ≡ ok es
        → Step s (record s { main = sending es })
    not_listed :
        (x : X)
        → s.main ≡ listing
        → list s.machine ≡ err x
        → Step s (record s { main = returned (some x); cancelled = true })
    deliver :
        (e : Event Op) (es : List (Event Op))
        → s.main ≡ sending (e ∷ es)
        → s.pc ≡ waiting
        → Step s (record s { main = sending es; pc = handling e })
    all_sent : s.main ≡ sending [] → Step s (record s { main = selecting })
    observe : (e : Event Op) → s.pc ≡ waiting → Step s (record s { pc = handling e })
    handled :
        (e : Event Op)
        → s.pc ≡ handling e
        → Step s (record s { machine = (handle e s.machine).1; pc = after (handle e s.machine).0 })
    watcher_error : (x : X) → s.pc ≡ waiting → Step s (record s { pc = reporting x })
    report :
        (x : X)
        → s.pc ≡ reporting x
        → s.errs ≡ none
        → Step s (record s { pc = waiting; errs = some x })
    cancel : Step s (record s { cancelled = true })
    stop : s.cancelled ≡ true → s.pc ≡ waiting → Step s (record s { pc = stopped })
    stop_failed :
        (x : X) → s.cancelled ≡ true → s.pc ≡ waiting → Step s (record s { pc = closing x })
    report_close :
        (x : X)
        → s.pc ≡ closing x
        → s.errs ≡ none
        → Step s (record s { pc = stopped; errs = some x })
    take_error :
        (x : X)
        → s.main ≡ selecting
        → s.errs ≡ some x
        → Step s (record s { main = returned (some x); errs = none; cancelled = true })
    errs_closed :
        s.main ≡ selecting
        → s.errs ≡ none
        → s.pc ≡ stopped
        → Step s (record s { main = returned none; cancelled = true })
    finish : s.main ≡ selecting → s.cancelled ≡ true → Step s (record s { main = returned none })

  pub data Reach (s : System Op X M) : System Op X M → Type 0 where
    here : Reach s s
    next : {t u : System Op X M} → Reach s t → Step t u → Reach s u
