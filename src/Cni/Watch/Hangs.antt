-- ===== src/Cni/Watch/Hangs.antt =====
-- `Run` and the loop, each waiting for the other.
use linkerd2_proxy_init.Base.{
  Option, none, some, List, ◌∷◌, Result, ok, err, ◌≡◌, ◌≢◌, refl, ap, arith,
}
use linkerd2_proxy_init.Task.{Done, Task}
use linkerd2_proxy_init.Cni.Watch.{
  Event, waiting, reporting, announcing, sending, returned, System, after, Step, announce, listed,
  not_listed, deliver, all_sent, observe, handled, watcher_error, report, cancel, stop, stop_failed,
  report_close, take_error, errs_closed, finish, Reach, here, next,
}

module _ {Op X M : Type 0} (handle : Event Op → Task M X Done)
    (list : M → Result X (List (Event Op))) where
  -- `Run` is sending, the loop waits to report an error, and the channel of errors is full.
  record IsStuck (s : System Op X M) : Type 0 where
    event : Event Op
    events : List (Event Op)
    error : X
    unread : X
    is_sending : s.main ≡ sending (event ∷ events)
    is_reporting : s.pc ≡ reporting error
    is_full : s.errs ≡ some unread

  Step-IsStuck : {s t : System Op X M} → Step handle list s t → IsStuck s → IsStuck t
  Step-IsStuck (announce e a b) h = absurd (ground (arith, h.is_reporting))
  Step-IsStuck (listed es a b) h = absurd (ground (arith, h.is_sending))
  Step-IsStuck (not_listed x a b) h = absurd (ground (arith, h.is_sending))
  Step-IsStuck (deliver e es a b) h = absurd (ground (arith, h.is_reporting))
  Step-IsStuck (all_sent a) h = absurd (ground (arith, h.is_sending))
  Step-IsStuck (observe e a) h = absurd (ground (arith, h.is_reporting))
  Step-IsStuck (handled e a) h = absurd (ground (arith, h.is_reporting))
  Step-IsStuck (watcher_error x a) h = absurd (ground (arith, h.is_reporting))
  Step-IsStuck (report x a b) h = absurd (ground (arith, h.is_full))
  Step-IsStuck cancel h = record {
    event = h.event;
    events = h.events;
    error = h.error;
    unread = h.unread;
    is_sending = h.is_sending;
    is_reporting = h.is_reporting;
    is_full = h.is_full;
  }
  Step-IsStuck (stop a b) h = absurd (ground (arith, h.is_reporting))
  Step-IsStuck (stop_failed x a b) h = absurd (ground (arith, h.is_reporting))
  Step-IsStuck (report_close x a b) h = absurd (ground (arith, h.is_reporting))
  Step-IsStuck (take_error x a b) h = absurd (ground (arith, h.is_sending))
  Step-IsStuck (errs_closed a b c) h = absurd (ground (arith, h.is_sending))
  Step-IsStuck (finish a b) h = absurd (ground (arith, h.is_sending))

  Reach-IsStuck : {s t : System Op X M} → Reach handle list s t → IsStuck s → IsStuck t
  Reach-IsStuck here h = h
  Reach-IsStuck (next r step) h = Step-IsStuck step (Reach-IsStuck r h)

  not_returned : {s : System Op X M} → IsStuck s → (result : Option X) → s.main ≢ returned result
  not_returned h result e = absurd (ground (arith, h.is_sending, e))

  -- From where `Run` is about to announce the token, with the loop waiting and no error to be read:
  -- if the handlers of that event and of the first one for the directory fail, and a second one is
  -- left to be sent, the goroutines can come to a state from which, whatever happens then, the
  -- context's end included, `Run` never returns.
  pub run_hangs :
      (s : System Op X M) (e e' e'' : Event Op) (es : List (Event Op)) (x y : X)
      → s.main ≡ announcing e
      → s.pc ≡ waiting
      → s.errs ≡ none
      → (handle e s.machine).0 ≡ err x
      → list (handle e s.machine).1 ≡ ok (e' ∷ e'' ∷ es)
      → (handle e' (handle e s.machine).1).0 ≡ err y
      → (t : System Op X M) × Reach handle list s t
        × ((u : System Op X M)
            → Reach handle list t u
            → (result : Option X) → u.main ≢ returned result)
  run_hangs s e e' e'' es x y a w n f l f' = (
    _,
    next
        (next
          (next
            (next (next (next here (announce e a w)) (handled e refl)) (report x (ap after f) n))
            (listed (e' ∷ e'' ∷ es) refl l))
          (deliver e' (e'' ∷ es) refl refl))
        (handled e' refl),
    λ u r. not_returned (
        Reach-IsStuck r (record {
          event = e'';
          events = es;
          error = y;
          unread = x;
          is_sending = refl;
          is_reporting = ap after f';
          is_full = refl;
        })),
  )
