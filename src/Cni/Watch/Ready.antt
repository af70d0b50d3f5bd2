-- ===== src/Cni/Watch/Ready.antt =====
-- What `Run` comes to when no handler fails, and the end of the loop behind it.
use linkerd2_proxy_init.Base.{none, List, [], ◌∷◌, Result, ok, ◌≡◌, refl, ap}
use linkerd2_proxy_init.Task.{Done, done, Task}
use linkerd2_proxy_init.Cni.Watch.{
  Event, waiting, stopped, announcing, selecting, sending, returned, System, after, announce,
  listed, deliver, handled, all_sent, cancel, stop, finish, Reach, here, next,
}
use linkerd2_proxy_init.Cni.Watch.Laws.{Reach-trans}

module _ {Op X M : Type 0} (handle : Event Op → Task M X Done)
    (list : M → Result X (List (Event Op))) where
  -- The handlers of the events succeed, one behind the other.
  abbrev pub Handled : List (Event Op) → M → M → Type 0
  Handled [] m m' = m ≡ m'
  Handled (e ∷ es) m m' = ((handle e m).0 ≡ ok done) × Handled es (handle e m).1 m'

  -- `Run` waits for an error or the end of the context, and the loop for an event.
  pub record IsReady (s t : System Op X M) (m : M) : Type 0 where
    pub reached : Reach handle list s t
    pub is_selecting : t.main ≡ selecting
    pub is_waiting : t.pc ≡ waiting
    pub unread : t.errs ≡ s.errs
    pub machine : t.machine ≡ m

  delivered :
      (es : List (Event Op)) (s : System Op X M) (m : M)
      → s.main ≡ sending es
      → s.pc ≡ waiting
      → Handled es s.machine m
      → (t : System Op X M) × IsReady s t m
  delivered [] s m a w h = (
    _,
    record {
      reached = next here (all_sent a);
      is_selecting = refl;
      is_waiting = w;
      unread = refl;
      machine = h;
    },
  )
  delivered (e ∷ es) s m a w (h, hs) =
      let (t, r) =
        delivered es
          (record s {
            machine = (handle e s.machine).1;
            main = sending es;
            pc = after (handle e s.machine).0;
          })
          m refl (ap after h) hs in
      (
        t,
        record {
          reached =
              Reach-trans handle list (next (next here (deliver e es a w)) (handled e refl))
                r.reached;
          is_selecting = r.is_selecting;
          is_waiting = r.is_waiting;
          unread = r.unread;
          machine = r.machine;
        },
      )

  -- From where `Run` is about to announce the token, with the loop waiting: if the directory can be
  -- read behind that event and the handlers succeed, of it and of those for the entries in order, then
  -- `Run` can get to its `select`, with all of that done, the loop waiting and no error more; and
  -- there it can return without an error once the context ends, with the loop stopped.
  pub run-IsReady :
      (s : System Op X M) (e : Event Op) (es : List (Event Op)) (m : M)
      → s.main ≡ announcing e
      → s.pc ≡ waiting
      → (handle e s.machine).0 ≡ ok done
      → list (handle e s.machine).1 ≡ ok es
      → Handled es (handle e s.machine).1 m
      → (t : System Op X M) × IsReady s t m
        × (u : System Op X M) × Reach handle list t u
        × (u.main ≡ returned none)
        × (u.pc ≡ stopped)
        × (u.machine ≡ m)
  run-IsReady s e es m a w h l hs =
      let (t, r) =
        delivered es
          (record s {
            machine = (handle e s.machine).1;
            main = sending es;
            pc = after (handle e s.machine).0;
          })
          m refl (ap after h) hs in
      (
        t,
        record {
          reached =
              Reach-trans handle list
                (next (next (next here (announce e a w)) (handled e refl)) (listed es refl l))
                r.reached;
          is_selecting = r.is_selecting;
          is_waiting = r.is_waiting;
          unread = r.unread;
          machine = r.machine;
        },
        _,
        next (next (next here cancel) (stop refl r.is_waiting)) (finish r.is_selecting refl),
        refl,
        refl,
        r.machine,
      )
