-- ===== src/HurdCond.antt =====
-- Condition waits that hurd_thread_cancel interrupts: sysdeps/mach/hurd/pt-hurd-cond-timedwait.c and
-- pt-hurd-cond-wait.c. Each function is a stretch of code under the lock of the thread's signal state,
-- the lock of the condition variable, or both.
pub mod System
pub mod Invariant
pub mod Steps
pub mod Waits
mod Tests
use libpthread.Base.{
  ℕ, Bool, true, false, not, ◌||◌, if◌then◌else◌, Option, none, some, List, [], ◌∷◌, elem, remove,
  Timespec, abstime_valid, Errno, success, eintr, etimedout,
}
use libpthread.Condition.{Cond, clock_of, cancel_hook}

-- `struct hurd_sigstate`: `cancel`, and whether `cancel_hook` is set, to `cancel_me`.
pub record SigState : Type 0 where
  pub cancel : Bool
  pub hook : Bool

-- How the first part of a wait ends: with EINVAL; cancelled on entry, with the flag cleared; at the
-- assertion of the queue; or in the queue, with the clock to use.
pub data Begun : Type 0 where
  invalid_time aborts : Begun
  cancelled : SigState → Begun
  queued : Cond → SigState → ℕ → Begun

-- `__pthread_hurd_cond_timedwait_internal` up to the release of the mutex
unfoldable pub hurd_begin : Cond → SigState → ℕ → Option Timespec → Begun
hurd_begin c ss self abstime =
    if not (abstime_valid abstime)
    then invalid_time
    else if ss.cancel
    then cancelled (record ss { cancel = false })
    else if elem self c.queue
    then aborts
    else queued (record c { queue = self ∷ c.queue }) (record ss { hook = true }) (clock_of c.attr)

-- Back from the block, with a time-out if `err`: whether a message is to be drained.
unfoldable pub hurd_settle : Cond → ℕ → Bool → Cond × Bool
hurd_settle c self err =
    if elem self c.queue then (record c { queue = remove self c.queue }, false) else (c, err)

-- The hook and the flag are cleared; the flag as it was, or the call was cancelled on entry.
abbrev pub hurd_end : SigState → Bool → SigState × Bool
hurd_end ss cancel = (record { cancel = false; hook = false }, cancel || ss.cancel)

-- What the call returns.
abbrev pub hurd_result : Bool → Bool → Errno
hurd_result cancel err = if cancel then eintr else if err then etimedout else success

-- `__pthread_hurd_cond_wait_np`: whether the wait was interrupted
abbrev pub hurd_wait_result : Errno → Bool
hurd_wait_result eintr = true
hurd_wait_result e = false

-- What hurd_thread_cancel, of the C library, does with a thread: it sets the flag, and calls the hook,
-- `cancel_me`, if there is one. With the threads that are sent a message.
unfoldable pub hurd_thread_cancel : Cond → SigState → ℕ → (Cond × List ℕ) × SigState
hurd_thread_cancel c ss t =
    ((if ss.hook then cancel_hook c t else (c, [])), record ss { cancel = true })
