-- ===== src/Barrier.antt =====
-- Barriers: sysdeps/generic/pt-barrier-*.c and bits/barrier.h.
pub mod Rounds
mod Tests
use libpthread.Base.{
  ℕ, ◌+◌, ◌-◌, ◌%◌, Bool, true, false, Option, none, some, List, [], ◌∷◌, Errno, success, einval,
  enomem, elem, if◌then◌else◌, ltb, ◌==◌, uint_mod,
}

-- `struct __pthread_barrier`; `pending` and `count` are unsigned.
pub record Barrier : Type 0 where
  pub lock : Bool
  pub queue : List ℕ
  pub pending : ℕ
  pub count : ℕ

-- How the section of `pthread_barrier_wait` ends: the thread is the last one, returns
-- PTHREAD_BARRIER_SERIAL_THREAD and has woken the threads of a list; or it waits; or the spin lock
-- is taken; or an assertion fails.
pub data Arrival : Type 0 where
  serial : List ℕ → Barrier → Arrival
  waits : Barrier → Arrival
  spins aborts : Arrival

-- `pthread_barrier_init`: without attributes, or with attributes that are copied if `allocates`.
-- An error after the fields are set leaves them set.
pub barrier_init : Option Bool → ℕ → Option Barrier × Errno
barrier_init attr n =
    let made : Barrier = record { lock = false; queue = []; pending = n; count = n } in
    if n == 0 then (none, einval) else elim attr [
      | none ↦ (some made, success)
      | some true ↦ (some made, success)
      | some false ↦ (some made, enomem)
    ]

-- `pthread_barrier_wait`, up to the block. With a count of 1 the spin lock is not released.
pub barrier_wait : Barrier → ℕ → Arrival
barrier_wait b self =
    let pending = (b.pending + uint_mod - 1) % uint_mod in
    if b.lock
    then spins
    else if pending == 0
    then (if ltb 1 b.count
        then serial b.queue (record b { pending = b.count; queue = [] })
        else serial [] (record b { pending = b.count; lock = true }))
    else if elem self b.queue
    then aborts
    else waits (record b { pending = pending; queue = self ∷ b.queue })
