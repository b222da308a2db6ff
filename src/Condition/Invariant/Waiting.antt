-- ===== src/Condition/Invariant/Waiting.antt =====
-- The steps of a wait keep the invariant.
use libpthread.Base.{
  ℕ, suc, if◌then◌else◌, ◌≡◌, Bool, true, false, Option, some, Timespec, update, arith,
  elem-remove_other, elem-remove_self, remove-Distinct,
}
use libpthread.Condition.{Cond, Thread, queued, begin_wait, cond_settle, end_wait}
use libpthread.Condition.System.{
  running, exited, draining, enqueued, blocked, unblocked, closing, locking, System, to,
}
use libpthread.Condition.Invariant.{Inv}

module _ {s : System} (inv : Inv s) (i : ℕ) where
  pub begins-Inv :
      (a : Option Timespec) (t : Bool) (c : Cond) (th : Thread) (clock : ℕ)
      → s.pc i ≡ running
      → begin_wait s.cond (s.thread i) i a ≡ queued c th clock
      → Inv (record s { cond = c; thread = update s.thread i th; pc = update s.pc i (enqueued t) })
  unfolding begin_wait
  begins-Inv a t c th clock here h = record {
    distinct = ground (arith, inv.distinct);
    queued = λ j q. ground (arith, inv.queued j);
    sent = λ j. ground (arith, inv.sent j, inv.sent i, inv.queued i);
    hooked = λ j. ground (arith, inv.hooked j, inv.hooked i);
    deferred = λ j q. ground (arith, inv.deferred j, inv.deferred i);
    prompt = λ j q. ground (arith, inv.prompt j, inv.prompt i);
  }

  pub releases-Inv :
      (t : Bool) (o : Option ℕ)
      → s.pc i ≡ enqueued t
      → Inv (record s { owner = o; pc = update s.pc i (blocked t) })
  releases-Inv t o here = record {
    distinct = ground (arith, inv.distinct);
    queued = λ j q. ground (arith, inv.queued j);
    sent = λ j. ground (arith, inv.sent j, inv.sent i, inv.queued i);
    hooked = λ j. ground (arith, inv.hooked j, inv.hooked i);
    deferred = λ j q. ground (arith, inv.deferred j, inv.deferred i);
    prompt = λ j q. ground (arith, inv.prompt j, inv.prompt i);
  }

  pub receives-Inv :
      (t : Bool) (k : ℕ)
      → s.pc i ≡ blocked t
      → s.msgs i ≡ suc k
      → Inv (record s { pc = update s.pc i (unblocked false); msgs = update s.msgs i k })
  receives-Inv t k here h = record {
    distinct = ground (arith, inv.distinct);
    queued = λ j q. ground (arith, inv.queued j, inv.sent i);
    sent = λ j. ground (arith, inv.sent j, inv.sent i, inv.queued i);
    hooked = λ j. ground (arith, inv.hooked j, inv.hooked i);
    deferred = λ j q. ground (arith, inv.deferred j, inv.deferred i);
    prompt = λ j q. ground (arith, inv.prompt j, inv.prompt i, inv.queued j, inv.sent i);
  }

  pub times_out-Inv : s.pc i ≡ blocked true → Inv (to s i (unblocked true))
  times_out-Inv here = record {
    distinct = ground (arith, inv.distinct);
    queued = λ j q. ground (arith, inv.queued j);
    sent = λ j. ground (arith, inv.sent j, inv.sent i, inv.queued i);
    hooked = λ j. ground (arith, inv.hooked j, inv.hooked i);
    deferred = λ j q. ground (arith, inv.deferred j, inv.deferred i);
    prompt = λ j q. ground (arith, inv.prompt j, inv.prompt i);
  }

  pub taken-Inv :
      (e : Bool) (c : Cond)
      → s.pc i ≡ unblocked e
      → cond_settle s.cond i e ≡ some (c, true)
      → Inv (record s { cond = c; pc = update s.pc i draining })
  unfolding cond_settle
  taken-Inv e c here h = record {
    distinct = ground (arith, inv.distinct);
    queued = λ j q. ground (arith, inv.queued j);
    sent = λ j. ground (arith, inv.sent j, inv.sent i, inv.queued i);
    hooked = λ j. ground (arith, inv.hooked j, inv.hooked i);
    deferred = λ j q. ground (arith, inv.deferred j, inv.deferred i);
    prompt = λ j q. ground (arith, inv.prompt j, inv.prompt i);
  }

  pub leaves-Inv :
      (e : Bool) (c : Cond)
      → s.pc i ≡ unblocked e
      → cond_settle s.cond i e ≡ some (c, false)
      → Inv (record s { cond = c; pc = update s.pc i (closing e) })
  unfolding cond_settle
  leaves-Inv e c here h = record {
    distinct = ground (arith, inv.distinct, remove-Distinct i s.cond.queue);
    queued = λ j q.
        ground (
          arith,
          inv.queued j,
          elem-remove_other i j s.cond.queue,
          elem-remove_self i s.cond.queue,
        );
    sent = λ j. ground (
      arith,
      inv.sent j,
      inv.sent i,
      inv.queued i,
      elem-remove_other i j s.cond.queue,
      elem-remove_self i s.cond.queue,
    );
    hooked = λ j. ground (arith, inv.hooked j, inv.hooked i);
    deferred = λ j q. ground (arith, inv.deferred j, inv.deferred i);
    prompt = λ j q. ground (
      arith,
      inv.prompt j,
      inv.prompt i,
      elem-remove_other i j s.cond.queue,
      elem-remove_self i s.cond.queue,
    );
  }

  pub drains-Inv :
      (k : ℕ)
      → s.pc i ≡ draining
      → s.msgs i ≡ suc k
      → Inv (record s { pc = update s.pc i (closing true); msgs = update s.msgs i k })
  drains-Inv k here h = record {
    distinct = ground (arith, inv.distinct);
    queued = λ j q. ground (arith, inv.queued j);
    sent = λ j. ground (arith, inv.sent j, inv.sent i, inv.queued i);
    hooked = λ j. ground (arith, inv.hooked j, inv.hooked i);
    deferred = λ j q. ground (arith, inv.deferred j, inv.deferred i);
    prompt = λ j q. ground (arith, inv.prompt j, inv.prompt i);
  }

  pub closes-Inv :
      (e : Bool)
      → s.pc i ≡ closing e
      → Inv (record s {
        thread = update s.thread i (end_wait (s.thread i)).0;
        pc = update s.pc i (locking (end_wait (s.thread i)).1 e);
      })
  closes-Inv e here = record {
    distinct = ground (arith, inv.distinct);
    queued = λ j q. ground (arith, inv.queued j);
    sent = λ j. ground (arith, inv.sent j, inv.sent i, inv.queued i);
    hooked = λ j. ground (arith, inv.hooked j, inv.hooked i);
    deferred = λ j q. ground (arith, inv.deferred j, inv.deferred i);
    prompt = λ j q. ground (arith, inv.prompt j, inv.prompt i);
  }

  pub locks-Inv :
      (o : Option ℕ) (c e : Bool)
      → s.pc i ≡ locking c e
      → Inv (record s { owner = o; pc = update s.pc i (if c then exited else running) })
  locks-Inv o c e here = record {
    distinct = ground (arith, inv.distinct);
    queued = λ j q. ground (arith, inv.queued j);
    sent = λ j. ground (arith, inv.sent j, inv.sent i, inv.queued i);
    hooked = λ j. ground (arith, inv.hooked j, inv.hooked i);
    deferred = λ j q. ground (arith, inv.deferred j, inv.deferred i);
    prompt = λ j q. ground (arith, inv.prompt j, inv.prompt i, inv.queued j);
  }
