-- ===== src/Condition/Waiters.antt =====
-- What the threads that wait on a condition variable can rely on, in every state that they reach.
use libpthread.Base.{
  ℕ, ◌+◌, ◌≡◌, ◌≢◌, refl, Bool, true, false, Option, none, some, List, [], ◌∷◌, elem, Distinct,
  Timespec, update, arith, ◌==◌, if◌then◌else◌, elem-remove_self,
}
use libpthread.Condition.{aborts, begin_wait, cond_settle, cancel, is_cancelled}
use libpthread.Condition.System.{
  System, running, blocked, unblocked, deliver, after_cancel, step, act, signal, broadcast, cancels,
  Reach,
}
use libpthread.Condition.Invariant.{may_queue, due}
use libpthread.Condition.Invariant.Waking.{deliver_counts}
use libpthread.Condition.Steps.{Reach-Inv}

module _ {clock : Option ℕ} {s : System} (r : Reach clock s) where
  -- In every state that the threads reach, no thread waits in the queue while a cancellation
  -- request for it is pending and it has cancellation enabled.
  pub no_lost_cancellation :
      (i : ℕ) → elem i s.cond.queue ≡ true → is_cancelled (s.thread i) ≡ false
  no_lost_cancellation = (Reach-Inv r).prompt

  -- In every state that the threads reach, the queue has no thread twice and only threads in a
  -- wait, before the last section of it; and the messages that a thread has not received are none
  -- while it is in the queue, and outside of a wait, and one from the time it is taken out of the
  -- queue until it has received it.
  pub one_message :
      Distinct s.cond.queue
      × ((i : ℕ) → elem i s.cond.queue ≡ true → may_queue (s.pc i) ≡ true)
      × ((i : ℕ) → s.msgs i ≡ due (s.pc i) (elem i s.cond.queue))
  one_message = let inv = Reach-Inv r in (inv.distinct, inv.queued, inv.sent)

  -- In every state that the threads reach, the assertions in the wait hold: a thread that begins
  -- one is not in the queue, and one that is still in the queue after the block has timed out.
  pub cond_no_abort :
      ((i : ℕ)
        → s.pc i ≡ running
        → (a : Option Timespec) → begin_wait s.cond (s.thread i) i a ≢ aborts)
      × ((i : ℕ) (e : Bool) → s.pc i ≡ unblocked e → cond_settle s.cond i e ≢ none)
  unfolding begin_wait cond_settle
  cond_no_abort =
      let inv = Reach-Inv r in
      ((λ i p a h. ground (arith, inv.queued i)), (λ i e p h. ground (arith, inv.queued i)))

  -- In every state that the threads reach: if a running thread cancels one that is blocked in a
  -- wait and has cancellation enabled, that one stays where it is, but out of the queue, with one
  -- message to wake it and the request pending.
  pub cancel_unblocks :
      (i t : ℕ) (b : Bool)
      → s.pc i ≡ running
      → s.pc t ≡ blocked b
      → (s.thread t).enabled ≡ true
      → (u : System) × (step s i (cancels t) ≡ some u)
        × (u.pc t ≡ blocked b)
        × (elem t u.cond.queue ≡ false)
        × (u.msgs t ≡ 1)
        × (is_cancelled (u.thread t) ≡ true)
  unfolding step act cancel
  cancel_unblocks i t b p q e =
      let inv = Reach-Inv r in
      let gone = elem-remove_self t s.cond.queue inv.distinct in
      (
        after_cancel s t (cancel s.cond (s.thread t) t),
        rw p refl,
        ground (arith, inv.deferred t, inv.hooked t),
        ground (arith, inv.deferred t, inv.hooked t, inv.prompt t),
        ground (arith, inv.deferred t, inv.hooked t, inv.prompt t, inv.sent t),
        ground (arith, inv.deferred t, inv.hooked t, inv.prompt t),
      )

  -- In every state that the threads reach: `pthread_cond_signal`, called by a running thread, takes
  -- the first thread of the queue out of it, where there is one, and sends it the one message that
  -- it has now; all other threads are as they were.
  pub signal_unblocks :
      (i t : ℕ) (ts : List ℕ)
      → s.pc i ≡ running
      → s.cond.queue ≡ t ∷ ts
      → (u : System) × (step s i signal ≡ some u)
        × (u.cond.queue ≡ ts)
        × (elem t u.cond.queue ≡ false)
        × (u.msgs t ≡ 1)
        × ((j : ℕ)
            → (t == j) ≡ false
            → (u.msgs j ≡ s.msgs j) × (elem j u.cond.queue ≡ elem j s.cond.queue))
  unfolding step act
  signal_unblocks i t ts p q =
      let inv = Reach-Inv r in
      (
        record s {
          cond = record { queue = ts; attr = s.cond.attr };
          msgs = update s.msgs t (s.msgs t + 1);
        },
        rw (p, q) refl,
        refl,
        ground (arith, inv.distinct),
        ground (arith, inv.sent t, inv.queued t),
        (λ j n. (ground arith, ground arith)),
      )

  -- In every state that the threads reach: `pthread_cond_broadcast`, called by a running thread,
  -- empties the queue: each thread that was in it has one message now, and the others have the
  -- messages that they had.
  pub broadcast_unblocks :
      (i : ℕ)
      → s.pc i ≡ running
      → (u : System) × (step s i broadcast ≡ some u)
        × (u.cond.queue ≡ [])
        × ((j : ℕ) → u.msgs j ≡ (if elem j s.cond.queue then 1 else s.msgs j))
  unfolding step act
  broadcast_unblocks i p =
      let inv = Reach-Inv r in
      (
        record s {
          cond = record { queue = []; attr = s.cond.attr };
          msgs = deliver s.cond.queue s.msgs;
        },
        rw p refl,
        refl,
        (λ j.
            ground
              (arith, deliver_counts s.cond.queue s.msgs j inv.distinct, inv.sent j, inv.queued j)),
      )
