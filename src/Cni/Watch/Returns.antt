-- ===== src/Cni/Watch/Returns.antt =====
-- When `Run` returns, and with what.
use linkerd2_proxy_init.Base.{
  true, Option, none, some, List, Result, ok, err, ◌≡◌, ◌≢◌, ◌⊎◌, inl, inr, refl, arith,
}
use linkerd2_proxy_init.Task.{Done, Task}
use linkerd2_proxy_init.Cni.Watch.{
  Event, Pc, waiting, stopped, handling, reporting, Main, listing, returned, System, after, Step,
  announce, listed, not_listed, deliver, all_sent, observe, handled, watcher_error, report, cancel,
  stop, stop_failed, report_close, take_error, errs_closed, finish, Reach, here, next,
}
use mathlib.Core.Path.{subst}

module _ {Op X M : Type 0} (handle : Event Op → Task M X Done)
    (list : M → Result X (List (Event Op))) where
  -- Until `Run` has returned, and as long as the context has not ended, the loop goes on.
  abbrev IsRunning : System Op X M → Type 0
  IsRunning s =
      (s.cancelled ≡ true)
      ⊎ ((e : Event Op) × (s.pc ≡ handling e))
      ⊎ (s.pc ≡ waiting)
      ⊎ (x : X) × (s.pc ≡ reporting x)

  after-IsRunning :
      (r : Result X Done)
      → (◌≡◌ {A = Pc Op X} (after r) waiting)
        ⊎ (x : X) × (◌≡◌ {A = Pc Op X} (after r) (reporting x))
  after-IsRunning (ok d) = inl refl
  after-IsRunning (err x) = inr (x, refl)

  Step-IsRunning : {s t : System Op X M} → Step handle list s t → IsRunning s → IsRunning t
  Step-IsRunning (announce e a b) h = inr (inl (e, refl))
  Step-IsRunning (listed es a b) h = h
  Step-IsRunning (not_listed x a b) h = inl refl
  Step-IsRunning (deliver e es a b) h = inr (inl (e, refl))
  Step-IsRunning (all_sent a) h = h
  Step-IsRunning (observe e a) h = inr (inl (e, refl))
  Step-IsRunning {s = s} (handled e a) h = inr (inr (after-IsRunning (handle e s.machine).0))
  Step-IsRunning (watcher_error x a) h = inr (inr (inr (x, refl)))
  Step-IsRunning (report x a b) h = inr (inr (inl refl))
  Step-IsRunning cancel h = inl refl
  Step-IsRunning (stop a b) h = inl a
  Step-IsRunning (stop_failed x a b) h = inl a
  Step-IsRunning (report_close x a b) h = elim h [
    | inl c ↦ inl c
    | inr (inl (e, w)) ↦ absurd (ground (arith, w, a))
    | inr (inr (inl w)) ↦ absurd (ground (arith, w, a))
    | inr (inr (inr (y, w))) ↦ absurd (ground (arith, w, a))
  ]
  Step-IsRunning (take_error x a b) h = inl refl
  Step-IsRunning (errs_closed a b c) h = inl refl
  Step-IsRunning (finish a b) h = inl b

  Reach-IsRunning : {s t : System Op X M} → Reach handle list s t → IsRunning s → IsRunning t
  Reach-IsRunning here h = h
  Reach-IsRunning (next r step) h = Step-IsRunning step (Reach-IsRunning r h)

  stopped_cancelled : (s : System Op X M) → IsRunning s → s.pc ≡ stopped → s.cancelled ≡ true
  stopped_cancelled s (inl c) e = c
  stopped_cancelled s (inr (inl (d, w))) e = absurd (ground (arith, w, e))
  stopped_cancelled s (inr (inr (inl w))) e = absurd (ground (arith, w, e))
  stopped_cancelled s (inr (inr (inr (x, w)))) e = absurd (ground (arith, w, e))

  -- What a return of `Run` comes from.
  abbrev pub ReturnedFor : System Op X M → Option X → Type 0
  ReturnedFor s none = s.cancelled ≡ true
  ReturnedFor s (some x) = (s.errs ≡ some x) ⊎ (s.main ≡ listing) × (list s.machine ≡ err x)

  ReturnedFor-same :
      (s : System Op X M) (r r' : Option X)
      → ◌≡◌ {A = Main Op X} (returned r) (returned r')
      → ReturnedFor s r
      → ReturnedFor s r'
  ReturnedFor-same s r r' e h = subst (ReturnedFor s) (ground (arith, e)) h

  Step-ReturnedFor :
      (s : System Op X M) {t : System Op X M}
      → Step handle list s t
      → IsRunning s
      → ((result : Option X) → s.main ≢ returned result)
      → (result : Option X) → t.main ≡ returned result
      → ReturnedFor s result
  Step-ReturnedFor s (announce e a b) h n r k = absurd (ground (arith, k))
  Step-ReturnedFor s (listed es a b) h n r k = absurd (ground (arith, k))
  Step-ReturnedFor s (not_listed x a b) h n r k = ReturnedFor-same s (some x) r k (inr (a, b))
  Step-ReturnedFor s (deliver e es a b) h n r k = absurd (ground (arith, k))
  Step-ReturnedFor s (all_sent a) h n r k = absurd (ground (arith, k))
  Step-ReturnedFor s (observe e a) h n r k = absurd (n r k)
  Step-ReturnedFor s (handled e a) h n r k = absurd (n r k)
  Step-ReturnedFor s (watcher_error x a) h n r k = absurd (n r k)
  Step-ReturnedFor s (report x a b) h n r k = absurd (n r k)
  Step-ReturnedFor s cancel h n r k = absurd (n r k)
  Step-ReturnedFor s (stop a b) h n r k = absurd (n r k)
  Step-ReturnedFor s (stop_failed x a b) h n r k = absurd (n r k)
  Step-ReturnedFor s (report_close x a b) h n r k = absurd (n r k)
  Step-ReturnedFor s (take_error x a b) h n r k = ReturnedFor-same s (some x) r k (inl b)
  Step-ReturnedFor s (errs_closed a b c) h n r k =
      ReturnedFor-same s none r k (stopped_cancelled s h c)
  Step-ReturnedFor s (finish a b) h n r k = ReturnedFor-same s none r k b

  -- On any way from a state in which the loop waits, a step with which `Run` returns is taken with
  -- the context at its end, if no error is returned; an error that is returned has been read from
  -- the channel of errors, or is the one that kept the directory from being read.
  pub run_returns :
      (s t u : System Op X M)
      → s.pc ≡ waiting
      → Reach handle list s t
      → ((result : Option X) → t.main ≢ returned result)
      → Step handle list t u
      → (result : Option X) → u.main ≡ returned result
      → ReturnedFor t result
  run_returns s t u w r n step = Step-ReturnedFor t step (Reach-IsRunning r (inr (inr (inl w)))) n
