-- ===== src/Mutex/Safety.antt =====
-- What the threads that share a mutex can rely on, in every state that they reach.
use libpthread.Base.{
  ℕ, ◌≡◌, ◌≢◌, ◌⊎◌, Bool, true, false, Option, List, [], eperm, returns, aborts, Timespec, arith,
  success, elem,
}
use libpthread.Mutex.{own, Mutex, timed, mutex_type, unlock, timedlock, finish, AttrRef}
use libpthread.Mutex.System.{idle, owning, draining, finishing, System, Reach}
use libpthread.Mutex.Invariant.{Inv}
use libpthread.Mutex.Invariant.Steps.{Reach-Inv}

module _ {a : AttrRef} {s : System} (r : Reach a s) where
  inv : Inv s.mutex s.pc s.msgs
  inv = Reach-Inv r

  -- In every state that the threads reach: two threads never have the lock at once, for each type
  -- of mutex, whatever time-outs occur. A thread has it while fewer of its calls of unlock have
  -- succeeded than of its calls that lock: a recursive mutex that was locked `n + 1` times is free
  -- for others only after the last of as many calls of unlock. It is
  -- assumed that no thread locks one so often that its count would overflow, and that none that does
  -- not have a mutex unlocks a normal one, or a recursive one that names it as the owner.
  pub mutual_exclusion : (i j n k : ℕ) → s.pc i ≡ owning n → s.pc j ≡ owning k → i ≡ j
  mutual_exclusion i j n k p q = ground (arith, inv.unique i j)

  -- In every state that the threads reach: a thread outside a wait has no wakeup left over; one
  -- that has timed out while it was taken out of the queue has just the one that it goes on to
  -- receive, so this receipt does not block for ever; and a thread still in the queue has none.
  pub wakeups :
      (i : ℕ)
      → ((s.pc i ≡ idle) ⊎ ((n : ℕ) × (s.pc i ≡ owning n)) → s.msgs i ≡ 0)
        × (s.pc i ≡ draining → s.msgs i ≡ 1)
        × (elem i s.mutex.queue ≡ true → s.msgs i ≡ 0)
  wakeups i = (
    (λ p. ground (arith, inv.sent i)),
    (λ p. ground (arith, inv.sent i)),
    (λ p. ground (arith, inv.sent i, inv.queued i)),
  )

  -- In every state that the threads reach: no assertion of the mutex code fails: not when an idle
  -- thread locks, not when one that has the lock locks again a mutex that tracks its owner, and not
  -- at the end of a wait.
  pub no_abort :
      (i : ℕ)
      → (s.pc i ≡ idle → (t : Option Timespec) → timedlock s.mutex i t ≢ aborts)
        × ((n : ℕ)
            → s.pc i ≡ owning n
            → mutex_type s.mutex ≢ timed
            → (t : Option Timespec) → timedlock s.mutex i t ≢ aborts)
        × ((e : Bool) → s.pc i ≡ finishing e → finish s.mutex i e ≢ aborts)
  unfolding timedlock finish
  no_abort i = (
    (λ p t h. ground (arith, inv.queued i, inv.named)),
    (λ n p k t h. ground (arith, inv.owned i k, inv.held i)),
    (λ e p h. ground (arith, inv.owned i, inv.fresh i)),
  )

  -- In every state that the threads reach: unlocking is refused only to a thread that does not have
  -- the lock, by a mutex that tracks its owner; the mutex is then as before, and nobody is woken.
  pub unlock_permission :
      (i : ℕ) (ws : List ℕ) (m : Mutex)
      → unlock s.mutex i ≡ returns eperm ws m
      → ((n : ℕ) → s.pc i ≢ owning n) × (mutex_type s.mutex ≢ timed) × (m ≡ s.mutex) × (ws ≡ [])
  unfolding unlock
  unlock_permission i ws m h =
      ((λ n p. ground (arith, inv.owned i)), (λ p. ground arith), ground arith, ground arith)

  -- In every state that the threads reach: a call that has waited and was woken returns with the
  -- lock.
  pub woken_gets_lock :
      (i : ℕ)
      → s.pc i ≡ finishing false
      → (m : Mutex) × (finish s.mutex i false ≡ returns success [] m) × (m.held ≡ true)
  unfolding finish
  woken_gets_lock i p = (
    own (mutex_type s.mutex) i s.mutex,
    ground (arith, inv.owned i, inv.fresh i),
    ground (arith, inv.held i),
  )
