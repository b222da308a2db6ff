-- ===== src/Semaphore.antt =====
-- Semaphores: sysdeps/generic/sem-*.c and bits/semaphore.h. A call that returns -1 with `errno` set
-- is a call that returns that error code.
pub mod System
pub mod Tokens
pub mod Balance
mod Tests
use libpthread.Base.{
  ℕ, ◌+◌, ◌-◌, Bool, true, false, Option, none, some, List, [], ◌∷◌, Errno, Outcome, returns, waits,
  spins, aborts, success, einval, ebusy, eagain, etimedout, eopnotsupp, Timespec, abstime_valid,
  elem, remove, if◌then◌else◌, ltb, ◌==◌, not,
}

-- `struct __semaphore`; `value` is an `int`, and no call tests it for overflow.
pub record Semaphore : Type 0 where
  pub lock : Bool
  pub queue : List ℕ
  pub value : ℕ

-- `__SEMAPHORE_INITIALIZER`
abbrev pub sem_initializer : ℕ → Semaphore
sem_initializer n = record { lock = false; queue = []; value = n }

-- `value_max` is SEM_VALUE_MAX where the system's headers define it.
abbrev pub exceeds : ℕ → Option ℕ → Bool
exceeds n none = false
exceeds n (some value_max) = ltb value_max n

-- `__sem_init`: the semaphore it makes, or an error.
pub sem_init : Option ℕ → ℕ → ℕ → Option Semaphore × Errno
sem_init value_max pshared n =
    if not (pshared == 0)
    then (none, eopnotsupp)
    else if exceeds n value_max
    then (none, einval)
    else (some (sem_initializer n), success)

-- `__sem_timedwait_internal` up to the block; no timeout is `sem_wait`.
pub sem_timedwait : Semaphore → ℕ → Option Timespec → Outcome Semaphore
sem_timedwait s self timeout =
    if s.lock
    then spins
    else if ltb 0 s.value
    then returns success [] (record s { value = s.value - 1 })
    else if not (abstime_valid timeout)
    then returns einval [] (record s { lock = true })
    else if elem self s.queue
    then aborts
    else waits (record s { queue = self ∷ s.queue })

-- After the wait, under the spin lock.
pub sem_settle : Semaphore → ℕ → Bool → Option (Semaphore × Bool)
sem_settle s self timed_out =
    if s.lock
    then none
    else if elem self s.queue
    then some (record s { queue = remove self s.queue }, false)
    else some (s, timed_out)

pub sem_finish : Semaphore → Bool → Outcome Semaphore
sem_finish s true = returns etimedout [] s
sem_finish s false = returns success [] s

-- `__sem_trywait`
pub sem_trywait : Semaphore → Outcome Semaphore
sem_trywait s =
    if s.lock
    then spins
    else if ltb 0 s.value
    then returns success [] (record s { value = s.value - 1 })
    else returns eagain [] s

abbrev pub is_empty : List ℕ → Bool
is_empty [] = true
is_empty (t ∷ ts) = false

-- `__sem_post`
pub sem_post : Semaphore → Outcome Semaphore
sem_post s =
    if s.lock
    then spins
    else if ltb 0 s.value
    then (if is_empty s.queue
        then returns success [] (record s { value = s.value + 1 })
        else aborts)
    else elim s.queue [
      | [] ↦ returns success [] (record s { value = 1 })
      | t ∷ ts ↦ returns success (t ∷ []) (record s { queue = ts })
    ]

-- `__sem_destroy`
pub sem_destroy : Semaphore → Errno
sem_destroy s = if is_empty s.queue then success else ebusy

-- `__sem_getvalue`; `none`: the spin lock is taken.
pub sem_getvalue : Semaphore → Option ℕ
sem_getvalue s = if s.lock then none else some s.value
