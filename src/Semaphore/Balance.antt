-- ===== src/Semaphore/Balance.antt =====
-- What the threads that share a semaphore can rely on, in every state that they reach.
use libpthread.Base.{ℕ, ◌+◌, ◌≡◌, ◌≢◌, length, elem, arith, aborts, Option, Timespec}
use libpthread.Semaphore.{sem_post, sem_timedwait}
use libpthread.Semaphore.System.{System, idle, Reach}
use libpthread.Semaphore.Tokens.{is_owed}
use libpthread.Semaphore.Tokens.Steps.{Reach-Inv}

module _ {n : ℕ} {s : System} (r : Reach n s) where
  -- In every state that the threads reach, the initial value and the posts together are the present
  -- value, the successful waits, the tokens handed to threads on their way out of a wait, and the
  -- tokens lost in time-outs; and those threads are the ones that a post has taken out of the queue
  -- and that have not returned.
  pub tokens_balance :
      (n + s.posts ≡ s.sem.value + s.takes + length s.owed + s.lost)
      × ((i : ℕ) → elem i s.owed ≡ is_owed (s.pc i) (elem i s.sem.queue))
  tokens_balance = let inv = Reach-Inv r in (inv.balance, inv.owes)

  -- In every state that the threads reach, nobody waits while a token is free, so the assertion in
  -- a post does not fail; nor does that of the queue, when a thread outside a call waits.
  pub sem_no_abort :
      (sem_post s.sem ≢ aborts)
      × ((i : ℕ) → s.pc i ≡ idle → (a : Option Timespec) → sem_timedwait s.sem i a ≢ aborts)
  unfolding sem_post sem_timedwait
  sem_no_abort =
      let inv = Reach-Inv r in
      ((λ h. ground (arith, inv.no_waiting)), (λ i p a h. ground (arith, inv.queued i)))
