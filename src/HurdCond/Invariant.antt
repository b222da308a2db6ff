-- ===== src/HurdCond/Invariant.antt =====
-- What holds in every state that the threads reach.
use libpthread.Base.{
  ℕ, zero, suc, ◌≡◌, Bool, true, false, Option, none, some, elem, Distinct, if◌then◌else◌, arith,
  Timespec, einval, Errno, Bool-cases, inl, inr, elem-remove_other, elem-remove_self,
  remove-Distinct,
}
use libpthread.HurdCond.{
  Begun, invalid_time, aborts, cancelled, queued, hurd_begin, hurd_settle, hurd_thread_cancel,
}
use libpthread.HurdCond.System.{
  Pc, running, interrupted, draining, enqueued, blocked, unblocked, locking, System, goes_to,
  returns, after_begin, after_settle, take_message, end_interrupted, drained, received, relocked,
  is_draining, after_cancel,
}

-- The hook is set.
abbrev pub inside : Pc → Bool
inside (enqueued t) = true
inside (blocked t) = true
inside (unblocked e) = true
inside draining = true
inside p = false

abbrev pub may_queue : Pc → Bool
may_queue (enqueued t) = true
may_queue (blocked t) = true
may_queue (unblocked e) = e
may_queue p = false

-- The messages that a thread has still to receive.
abbrev pub due : Pc → Bool → ℕ
due (enqueued t) q = if q then 0 else 1
due (blocked t) q = if q then 0 else 1
due (unblocked true) q = if q then 0 else 1
due draining q = 1
due p q = 0

-- The mutex has not been released.
abbrev pub keeps_mutex : Pc → Bool
keeps_mutex interrupted = true
keeps_mutex (enqueued t) = true
keeps_mutex p = false

pub record Inv (s : System) : Type 0 where
  pub distinct : Distinct s.cond.queue
  pub queued : (i : ℕ) → elem i s.cond.queue ≡ true → may_queue (s.pc i) ≡ true
  pub sent : (i : ℕ) → s.msgs i ≡ due (s.pc i) (elem i s.cond.queue)
  pub hooked : (i : ℕ) → (s.ss i).hook ≡ inside (s.pc i)
  pub prompt : (i : ℕ) → elem i s.cond.queue ≡ true → (s.ss i).cancel ≡ false
  pub kept : (i : ℕ) → keeps_mutex (s.pc i) ≡ true → s.owner ≡ some i

abbrev pub AllInv : Option System → Type 0
AllInv none = Unit {0}
AllInv (some s) = Inv s

module _ (s : System) (inv : Inv s) (i : ℕ) where
  pub returns-Inv : (e : Errno) → s.pc i ≡ running → Inv (returns s i e)
  returns-Inv e here = record {
    distinct = inv.distinct;
    queued = λ j q. ground (arith, inv.queued j);
    sent = λ j. ground (arith, inv.sent j, inv.sent i, inv.queued i);
    hooked = λ j. ground (arith, inv.hooked j);
    prompt = λ j q. ground (arith, inv.prompt j);
    kept = λ j q. ground (arith, inv.kept j);
  }

  pub begin-Inv :
      (a : Option Timespec) (t : Bool) (b : Begun)
      → s.pc i ≡ running
      → s.owner ≡ some i
      → hurd_begin s.cond (s.ss i) i a ≡ b
      → AllInv (after_begin s i t b)
  unfolding hurd_begin
  begin-Inv a t invalid_time here o h = returns-Inv einval here
  begin-Inv a t aborts here o h = tt
  begin-Inv a t (cancelled ss) here o h = record {
    distinct = inv.distinct;
    queued = λ j q. ground (arith, inv.queued j);
    sent = λ j. ground (arith, inv.sent j, inv.sent i, inv.queued i);
    hooked = λ j. ground (arith, inv.hooked j, inv.hooked i);
    prompt = λ j q. ground (arith, inv.prompt j, inv.queued i);
    kept = λ j q. ground (arith, inv.kept j);
  }
  begin-Inv a t (queued c ss clock) here o h = record {
    distinct = ground (arith, inv.distinct);
    queued = λ j q. ground (arith, inv.queued j);
    sent = λ j. ground (arith, inv.sent j, inv.sent i, inv.queued i);
    hooked = λ j. ground (arith, inv.hooked j, inv.hooked i);
    prompt = λ j q. ground (arith, inv.prompt j, inv.queued i);
    kept = λ j q. ground (arith, inv.kept j);
  }

  pub interrupted-Inv : s.pc i ≡ interrupted → Inv (end_interrupted s i)
  interrupted-Inv here = record {
    distinct = inv.distinct;
    queued = λ j q. ground (arith, inv.queued j);
    sent = λ j. ground (arith, inv.sent j, inv.sent i, inv.queued i);
    hooked = λ j. ground (arith, inv.hooked j);
    prompt = λ j q. ground (arith, inv.prompt j);
    kept = λ j q. ground (arith, inv.kept j);
  }

  pub releases-Inv :
      (t : Bool) → s.pc i ≡ enqueued t → Inv (record (goes_to s i (blocked t)) { owner = none })
  releases-Inv t here = record {
    distinct = inv.distinct;
    queued = λ j q. ground (arith, inv.queued j);
    sent = λ j. ground (arith, inv.sent j, inv.sent i);
    hooked = λ j. ground (arith, inv.hooked j, inv.hooked i);
    prompt = λ j q. ground (arith, inv.prompt j);
    kept = λ j q. ground (arith, inv.kept j, inv.kept i);
  }

  pub receives-Inv :
      (t : Bool) (k : ℕ)
      → s.pc i ≡ blocked t
      → s.msgs i ≡ k
      → AllInv (received i (take_message s i k))
  receives-Inv t zero here h = tt
  receives-Inv t (suc k) here h = record {
    distinct = inv.distinct;
    queued = λ j q. ground (arith, inv.queued j, inv.sent i);
    sent = λ j. ground (arith, inv.sent j, inv.sent i);
    hooked = λ j. ground (arith, inv.hooked j, inv.hooked i);
    prompt = λ j q. ground (arith, inv.prompt j);
    kept = λ j q. ground (arith, inv.kept j);
  }

  pub times_out-Inv : s.pc i ≡ blocked true → Inv (goes_to s i (unblocked true))
  times_out-Inv here = record {
    distinct = inv.distinct;
    queued = λ j q. ground (arith, inv.queued j);
    sent = λ j. ground (arith, inv.sent j, inv.sent i);
    hooked = λ j. ground (arith, inv.hooked j, inv.hooked i);
    prompt = λ j q. ground (arith, inv.prompt j);
    kept = λ j q. ground (arith, inv.kept j);
  }

  -- The thread has been taken out of the queue.
  pub settled_out :
      (e : Bool)
      → s.pc i ≡ unblocked e
      → elem i s.cond.queue ≡ false
      → Inv (after_settle s i e (s.cond, e))
  settled_out true here n = record {
    distinct = inv.distinct;
    queued = λ j q. ground (arith, inv.queued j);
    sent = λ j. ground (arith, inv.sent j, inv.sent i);
    hooked = λ j. ground (arith, inv.hooked j, inv.hooked i);
    prompt = λ j q. ground (arith, inv.prompt j);
    kept = λ j q. ground (arith, inv.kept j);
  }
  settled_out false here n = record {
    distinct = inv.distinct;
    queued = λ j q. ground (arith, inv.queued j);
    sent = λ j. ground (arith, inv.sent j, inv.sent i);
    hooked = λ j. ground (arith, inv.hooked j, inv.hooked i);
    prompt = λ j q. ground (arith, inv.prompt j);
    kept = λ j q. ground (arith, inv.kept j);
  }

  pub settle-Inv :
      (e : Bool) → s.pc i ≡ unblocked e → Inv (after_settle s i e (hurd_settle s.cond i e))
  unfolding hurd_settle
  settle-Inv e here = elim (Bool-cases (elem i s.cond.queue)) [
    | inl q ↦ rw q (record {
      distinct = remove-Distinct i s.cond.queue inv.distinct;
      queued = λ j m. ground (
        arith,
        inv.queued j,
        elem-remove_other i j s.cond.queue,
        elem-remove_self i s.cond.queue,
      );
      sent = λ j. ground (
        arith,
        inv.sent j,
        inv.sent i,
        inv.queued i,
        elem-remove_other i j s.cond.queue,
        elem-remove_self i s.cond.queue,
      );
      hooked = λ j. ground (arith, inv.hooked j, inv.hooked i);
      prompt = λ j m. ground (
        arith,
        inv.prompt j,
        inv.distinct,
        elem-remove_other i j s.cond.queue,
        elem-remove_self i s.cond.queue,
      );
      kept = λ j m. ground (arith, inv.kept j);
    })
    | inr q ↦ rw q (settled_out e here q)
  ]

  pub take-Inv :
      (k : ℕ) → s.pc i ≡ draining → s.msgs i ≡ k → AllInv (drained i (take_message s i k))
  take-Inv zero here h = tt
  take-Inv (suc k) here h = record {
    distinct = inv.distinct;
    queued = λ j q. ground (arith, inv.queued j);
    sent = λ j. ground (arith, inv.sent j, inv.sent i, inv.queued i);
    hooked = λ j. ground (arith, inv.hooked j, inv.hooked i);
    prompt = λ j q. ground (arith, inv.prompt j);
    kept = λ j q. ground (arith, inv.kept j);
  }

  pub relocks-Inv :
      (c e : Bool) (r : Errno) (o : Option ℕ)
      → s.pc i ≡ locking c e
      → s.owner ≡ o
      → AllInv (relocked s i r o)
  relocks-Inv c e r (some j) here h = tt
  relocks-Inv c e r none here h = record {
    distinct = inv.distinct;
    queued = λ j q. ground (arith, inv.queued j);
    sent = λ j. ground (arith, inv.sent j, inv.sent i, inv.queued i);
    hooked = λ j. ground (arith, inv.hooked j, inv.hooked i);
    prompt = λ j q. ground (arith, inv.prompt j);
    kept = λ j q. ground (arith, inv.kept j);
  }

  -- `i` is the thread to be interrupted.
  pub cancel-Inv :
      is_draining (s.pc i) ≡ false → Inv (after_cancel s i (hurd_thread_cancel s.cond (s.ss i) i))
  unfolding hurd_thread_cancel
  cancel-Inv d = record {
    distinct = ground (arith, inv.distinct, remove-Distinct i s.cond.queue);
    queued = λ j q.
        ground (
          arith,
          inv.queued j,
          elem-remove_other i j s.cond.queue,
          elem-remove_self i s.cond.queue,
        );
    sent = λ j. ground (
      arith,
      inv.sent j,
      inv.queued i,
      inv.hooked i,
      inv.sent i,
      elem-remove_other i j s.cond.queue,
      elem-remove_self i s.cond.queue,
    );
    hooked = λ j. ground (arith, inv.hooked j, inv.hooked i);
    prompt = λ j q. ground (
      arith,
      inv.prompt j,
      inv.distinct,
      inv.queued i,
      inv.hooked i,
      elem-remove_other i j s.cond.queue,
      elem-remove_self i s.cond.queue,
    );
    kept = λ j q. ground (arith, inv.kept j);
  }
