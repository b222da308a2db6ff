-- ===== src/Rwlock.antt =====
-- Read-write locks: sysdeps/generic/pt-rwlock-*.c and bits/rwlock.h, a function for each section of
-- code under the lock's spin lock, and for what follows a wait.
pub mod System
pub mod Invariant
pub mod Steps
pub mod Exclusion
pub mod Modes
mod Tests
use libpthread.Base.{
  ℕ, ◌+◌, ◌-◌, Bool, true, false, Option, none, some, List, [], ◌∷◌, Errno, Outcome, returns, waits,
  spins, aborts, success, einval, ebusy, etimedout, Timespec, abstime_valid, elem, remove,
  if◌then◌else◌, ltb, ◌==◌, not, length, ◌&&◌, ◌||◌,
}

-- `struct __pthread_rwlock`; `readers` is an `int`, which the number of threads keeps small.
pub record Rwlock : Type 0 where
  pub held : Bool
  pub lock : Bool
  pub readers : ℕ
  pub reader_queue : List ℕ
  pub writer_queue : List ℕ

-- `__PTHREAD_RWLOCK_INITIALIZER`
abbrev pub rwlock_initializer : Rwlock
rwlock_initializer = record {
  held = false;
  lock = false;
  readers = 0;
  reader_queue = [];
  writer_queue = [];
}

abbrev pub is_empty : List ℕ → Bool
is_empty [] = true
is_empty (t ∷ ts) = false

-- What is asserted of a lock that was free.
abbrev pub unused : Rwlock → Bool
unused m = is_empty m.reader_queue && is_empty m.writer_queue && m.readers == 0

-- The lock is held by a writer: the caller waits as a reader.
pub queue_reader : Rwlock → ℕ → Option Timespec → Outcome Rwlock
queue_reader m self abstime =
    if not (abstime_valid abstime)
    then returns einval [] m
    else if elem self m.reader_queue || elem self m.writer_queue
    then aborts
    else waits (record m { reader_queue = self ∷ m.reader_queue; lock = false })

-- `__pthread_rwlock_timedrdlock_internal` up to the block; no `abstime` is `pthread_rwlock_rdlock`.
pub timedrdlock : Rwlock → ℕ → Option Timespec → Outcome Rwlock
unfolding queue_reader
timedrdlock m self abstime =
    if m.lock
    then spins
    else if not m.held
    then (if unused m then returns success [] (record m { held = true; readers = 1 }) else aborts)
    else if ltb 0 m.readers
    then (if is_empty m.reader_queue
        then returns success [] (record m { readers = m.readers + 1 })
        else aborts)
    else queue_reader (record m { lock = true }) self abstime

-- `__pthread_rwlock_timedwrlock_internal` up to the block; no `abstime` is `pthread_rwlock_wrlock`.
pub timedwrlock : Rwlock → ℕ → Option Timespec → Outcome Rwlock
timedwrlock m self abstime =
    if m.lock
    then spins
    else if not m.held
    then (if unused m then returns success [] (record m { held = true }) else aborts)
    else if not (abstime_valid abstime)
    then returns einval [] (record m { lock = true })
    else if elem self m.reader_queue || elem self m.writer_queue
    then aborts
    else waits (record m { writer_queue = self ∷ m.writer_queue })

-- After the wait of a reader, or of a writer, under the spin lock: the lock, and whether a wakeup is
-- still to be received.
pub settle_reader : Rwlock → ℕ → Bool → Option (Rwlock × Bool)
settle_reader m self timed_out =
    if m.lock
    then none
    else if elem self m.reader_queue
    then some (record m { reader_queue = remove self m.reader_queue }, false)
    else some (m, timed_out)

pub settle_writer : Rwlock → ℕ → Bool → Option (Rwlock × Bool)
settle_writer m self timed_out =
    if m.lock
    then none
    else if elem self m.writer_queue
    then some (record m { writer_queue = remove self m.writer_queue }, false)
    else some (m, timed_out)

-- The ends of the calls that have waited.
pub finish_reader : Rwlock → Bool → Outcome Rwlock
finish_reader m true = returns etimedout [] m
finish_reader m false = if ltb 0 m.readers then returns success [] m else aborts

pub finish_writer : Rwlock → Bool → Outcome Rwlock
finish_writer m true = returns etimedout [] m
finish_writer m false = if m.readers == 0 then returns success [] m else aborts

-- `pthread_rwlock_tryrdlock`
pub tryrdlock : Rwlock → Outcome Rwlock
tryrdlock m =
    if m.lock
    then spins
    else if not m.held
    then (if unused m then returns success [] (record m { held = true; readers = 1 }) else aborts)
    else if ltb 0 m.readers
    then (if is_empty m.reader_queue
        then returns success [] (record m { readers = m.readers + 1 })
        else aborts)
    else returns ebusy [] m

-- `pthread_rwlock_trywrlock`
pub trywrlock : Rwlock → Outcome Rwlock
trywrlock m =
    if m.lock
    then spins
    else if not m.held
    then (if unused m then returns success [] (record m { held = true }) else aborts)
    else returns ebusy [] m

-- Wake a writer, else all readers, else drop the lock; there is no reader left.
pub hand_over : Rwlock → List ℕ → List ℕ → Outcome Rwlock
hand_over m (w ∷ ws) rs = returns success (w ∷ []) (record m { writer_queue = ws })
hand_over m [] (r ∷ rs) =
    returns success (r ∷ rs) (record m { readers = m.readers + length (r ∷ rs); reader_queue = [] })
hand_over m [] [] = returns success [] (record m { held = false })

-- `pthread_rwlock_unlock`
pub rwlock_unlock : Rwlock → Outcome Rwlock
unfolding hand_over
rwlock_unlock m =
    if m.lock
    then spins
    else if not m.held
    then aborts
    else if ltb 1 m.readers
    then returns success [] (record m { readers = m.readers - 1 })
    else hand_over (record m { readers = 0 }) m.writer_queue m.reader_queue
