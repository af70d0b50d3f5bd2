-- ===== src/Cni/Watch/Laws.antt =====
-- What the steps of the watches keep.
use linkerd2_proxy_init.Base.{List, Result}
use linkerd2_proxy_init.Task.{Done, Task}
use linkerd2_proxy_init.Cni.Watch.{
  Event, System, Step, announce, listed, not_listed, deliver, all_sent, observe, handled,
  watcher_error, report, cancel, stop, stop_failed, report_close, take_error, errs_closed, finish,
  Reach, here, next,
}

module _ {Op X M : Type 0} (handle : Event Op → Task M X Done)
    (list : M → Result X (List (Event Op))) where
  Step-machine :
      (P : M → Type 0)
      → ((e : Event Op) (m : M) → P m → P (handle e m).1)
      → {s t : System Op X M} → Step handle list s t
      → P s.machine
      → P t.machine
  Step-machine P keeps (announce e a b) h = h
  Step-machine P keeps (listed es a b) h = h
  Step-machine P keeps (not_listed x a b) h = h
  Step-machine P keeps (deliver e es a b) h = h
  Step-machine P keeps (all_sent a) h = h
  Step-machine P keeps (observe e a) h = h
  Step-machine P keeps {s = s} (handled e a) h = keeps e s.machine h
  Step-machine P keeps (watcher_error x a) h = h
  Step-machine P keeps (report x a b) h = h
  Step-machine P keeps cancel h = h
  Step-machine P keeps (stop a b) h = h
  Step-machine P keeps (stop_failed x a b) h = h
  Step-machine P keeps (report_close x a b) h = h
  Step-machine P keeps (take_error x a b) h = h
  Step-machine P keeps (errs_closed a b c) h = h
  Step-machine P keeps (finish a b) h = h

  -- What the handlers keep is kept.
  pub Reach-machine :
      (P : M → Type 0)
      → ((e : Event Op) (m : M) → P m → P (handle e m).1)
      → {s t : System Op X M} → Reach handle list s t
      → P s.machine
      → P t.machine
  Reach-machine P keeps here h = h
  Reach-machine P keeps (next r step) h = Step-machine P keeps step (Reach-machine P keeps r h)

  pub Reach-trans :
      {s t u : System Op X M}
      → Reach handle list s t
      → Reach handle list t u
      → Reach handle list s u
  Reach-trans r here = r
  Reach-trans r (next q step) = next (Reach-trans r q) step
