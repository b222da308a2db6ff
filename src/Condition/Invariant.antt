-- ===== src/Condition/Invariant.antt =====
-- What holds of a condition variable's queue, of the messages on their way and of the cancel fields.
pub mod Waiting
pub mod Waking
use libpthread.Base.{ℕ, ◌≡◌, Bool, true, false, elem, Distinct, if◌then◌else◌}
use libpthread.Condition.{Cond, Thread, is_cancelled}
use libpthread.Condition.System.{
  Pc, running, exited, draining, enqueued, blocked, unblocked, closing, locking, System,
}

-- Between the first and the last section under the cancel lock of a wait.
abbrev pub inside : Pc → Bool
inside running = false
inside exited = false
inside (locking c e) = false
inside _ = true

abbrev pub may_queue : Pc → Bool
may_queue (enqueued t) = true
may_queue (blocked t) = true
may_queue (unblocked e) = e
may_queue _ = false

-- The messages that a thread has still to receive.
abbrev pub due : Pc → Bool → ℕ
due (enqueued t) queued = if queued then 0 else 1
due (blocked t) queued = if queued then 0 else 1
due (unblocked true) queued = if queued then 0 else 1
due draining queued = 1
due _ queued = 0

pub record Inv (s : System) : Type 0 where
  pub distinct : Distinct s.cond.queue
  pub queued : (i : ℕ) → elem i s.cond.queue ≡ true → may_queue (s.pc i) ≡ true
  pub sent : (i : ℕ) → s.msgs i ≡ due (s.pc i) (elem i s.cond.queue)
  pub hooked : (i : ℕ) → (s.thread i).hook ≡ inside (s.pc i)
  pub deferred : (i : ℕ) → inside (s.pc i) ≡ true → (s.thread i).asynchronous ≡ false
  pub prompt : (i : ℕ) → elem i s.cond.queue ≡ true → is_cancelled (s.thread i) ≡ false
