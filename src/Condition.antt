-- ===== src/Condition.antt =====
-- Condition variables and cancellation: sysdeps/generic/pt-cond-*.c and bits/condition.h, and
-- pthread/pt-cancel.c, pt-setcancelstate.c, pt-setcanceltype.c and pt-testcancel.c. Each function is a
-- stretch of code under the lock of the condition variable, the cancel lock of a thread, or both.
pub mod System
pub mod Invariant
pub mod Steps
pub mod Waiters
mod Tests
use libpthread.Base.{
  ℕ, zero, suc, Bool, true, false, not, ◌&&◌, if◌then◌else◌, Option, none, some, List, [], ◌∷◌,
  Errno, success, einval, esrch, enomem, elem, remove, Timespec, abstime_valid,
}

-- `struct __pthread_cond`: the queue, and the clock of its attributes, if it has any.
pub record Cond : Type 0 where
  pub queue : List ℕ
  pub attr : Option ℕ

-- The fields of a thread that its cancel lock protects: `cancel_state` is PTHREAD_CANCEL_ENABLE,
-- `cancel_type` is PTHREAD_CANCEL_ASYNCHRONOUS, `cancel_pending`, and `cancel_hook` is set, with the
-- thread and the condition variable for its argument. `oldtype` is the local variable of the wait.
pub record Thread : Type 0 where
  pub enabled : Bool
  pub asynchronous : Bool
  pub pending : Bool
  pub hook : Bool
  pub oldtype : Bool

abbrev pub cond_initializer : Cond
cond_initializer = record { queue = []; attr = none }

-- As the source has it, any attributes that are given are copied, the default ones too.
abbrev pub cond_init : Option ℕ → Bool → Errno × Cond
cond_init none allocates = (success, cond_initializer)
cond_init (some clock) true = (success, record { queue = []; attr = some clock })
cond_init (some clock) false = (enomem, cond_initializer)

-- The clock that a wait with a time-out uses: that of the default attributes is 0.
abbrev pub clock_of : Option ℕ → ℕ
clock_of none = 0
clock_of (some clock) = clock

-- A request is pending and cancellation is enabled.
abbrev pub is_cancelled : Thread → Bool
is_cancelled t = t.enabled && t.pending

-- How the first part of a wait ends: with EINVAL; with `pthread_exit`; at the assertion of the
-- queue; or with the thread in the queue, and the clock to use.
pub data Begun : Type 0 where
  invalid_time exits aborts : Begun
  queued : Cond → Thread → ℕ → Begun

-- `__pthread_cond_timedwait_internal` up to the release of the cancel lock
unfoldable pub begin_wait : Cond → Thread → ℕ → Option Timespec → Begun
begin_wait c t self abstime =
    if not (abstime_valid abstime)
    then invalid_time
    else if is_cancelled t
    then exits
    else if elem self c.queue
    then aborts
    else queued (record c { queue = self ∷ c.queue })
        (record t { hook = true; asynchronous = false; oldtype = t.asynchronous }) (clock_of c.attr)

-- Back from the block, with a time-out if `err`: whether a message is to be drained; none if an
-- assertion fails.
unfoldable pub cond_settle : Cond → ℕ → Bool → Option (Cond × Bool)
cond_settle c self err =
    if not (elem self c.queue)
    then some (c, err)
    else if err
    then some (record c { queue = remove self c.queue }, false)
    else none

-- The last section under the cancel lock, and whether the thread is to exit.
abbrev pub end_wait : Thread → Thread × Bool
end_wait t = (record t { hook = false; asynchronous = t.oldtype }, is_cancelled t)

-- A thread that waits is taken out of the queue and sent a message: the hook of the wait.
abbrev pub cancel_hook : Cond → ℕ → Cond × List ℕ
cancel_hook c t =
    if elem t c.queue then (record c { queue = remove t c.queue }, t ∷ []) else (c, [])

abbrev pub signal_queue : List ℕ → List ℕ × List ℕ
signal_queue [] = ([], [])
signal_queue (t ∷ ts) = (ts, t ∷ [])

-- `__pthread_cond_signal` and `__pthread_cond_broadcast`, with the threads that are sent a message
abbrev pub cond_signal : Cond → Cond × List ℕ
cond_signal c = (record c { queue = (signal_queue c.queue).0 }, (signal_queue c.queue).1)

abbrev pub cond_broadcast : Cond → Cond × List ℕ
cond_broadcast c = (record c { queue = [] }, c.queue)

-- What `pthread_cancel` does to a thread: the condition variable, the thread, the threads that are
-- sent a message, and whether the thread is made to exit, by `__pthread_do_cancel`.
pub record Cancelled : Type 0 where
  pub cond : Cond
  pub thread : Thread
  pub woken : List ℕ
  pub made_exit : Bool

unfoldable pub cancel : Cond → Thread → ℕ → Cancelled
cancel c t i =
    let marked : Thread = record t { pending = true } in
    if t.pending
    then record { cond = c; thread = t; woken = []; made_exit = false }
    else if not t.enabled
    then record { cond = c; thread = marked; woken = []; made_exit = false }
    else if t.asynchronous
    then record { cond = c; thread = marked; woken = []; made_exit = true }
    else if t.hook
    then record {
      cond = (cancel_hook c i).0;
      thread = marked;
      woken = (cancel_hook c i).1;
      made_exit = false;
    }
    else record { cond = c; thread = marked; woken = []; made_exit = false }

-- `pthread_setcancelstate` and `pthread_setcanceltype`, by the codes of pthread.h, with the old code
abbrev pub code : Bool → ℕ
code b = if b then 1 else 0

abbrev pub setcancelstate : Thread → ℕ → Option (Thread × ℕ)
setcancelstate t zero = some (record t { enabled = false }, code t.enabled)
setcancelstate t (suc zero) = some (record t { enabled = true }, code t.enabled)
setcancelstate t (suc (suc n)) = none

abbrev pub setcanceltype : Thread → ℕ → Option (Thread × ℕ)
setcanceltype t zero = some (record t { asynchronous = false }, code t.asynchronous)
setcanceltype t (suc zero) = some (record t { asynchronous = true }, code t.asynchronous)
setcanceltype t (suc (suc n)) = none
