-- ===== src/Once.antt =====
-- sysdeps/generic/pt-once.c: one control, which threads use at the same time. Each step is one access to
-- the control, or the call or the return of the routine.
pub mod Invariant
pub mod Runs
mod Tests
use libpthread.Base.{ℕ, ◌+◌, ◌≡◌, Bool, true, false, Option, none, some, update}

-- Where a thread is: outside of the call, and returned from it at least once; before the lock is taken;
-- before the second test; in the routine; before the flag is set; and before the lock is released.
pub data Pc : Type 0 where
  outside returned locks tests in_routine sets unlocks : Pc

-- `pthread_once_t`, with the place of each thread; how often the routine was called, and how often it
-- has returned.
pub record Once : Type 0 where
  pub run : Bool
  pub lock : Option ℕ
  pub pc : ℕ → Pc
  pub calls : ℕ
  pub finished : ℕ

abbrev pub goes_to : Once → ℕ → Pc → Once
goes_to s i p = record s { pc = update s.pc i p }

-- What the tests of the flag do.
abbrev pub first_test : Once → ℕ → Bool → Once
first_test s i true = goes_to s i returned
first_test s i false = goes_to s i locks

abbrev pub second_test : Once → ℕ → Bool → Once
second_test s i true = goes_to s i unlocks
second_test s i false = record (goes_to s i in_routine) { calls = s.calls + 1 }

-- The spin lock is taken; none where another thread has it.
abbrev pub take_lock : Once → ℕ → Option ℕ → Option Once
take_lock s i none = some (record (goes_to s i tests) { lock = some i })
take_lock s i (some j) = none

-- The next step of a thread at a place.
unfoldable pub once_act : Once → ℕ → Pc → Option Once
once_act s i outside = some (first_test s i s.run)
once_act s i returned = some (first_test s i s.run)
once_act s i locks = take_lock s i s.lock
once_act s i tests = some (second_test s i s.run)
once_act s i in_routine = some (record (goes_to s i sets) { finished = s.finished + 1 })
once_act s i sets = some (record (goes_to s i unlocks) { run = true })
once_act s i unlocks = some (record (goes_to s i returned) { lock = none })

abbrev pub once_init : Once
once_init = record { run = false; lock = none; pc = λ i. outside; calls = 0; finished = 0 }

pub data Reach : Once → Type 0 where
  start : Reach once_init
  later : {s t : Once} (i : ℕ) → Reach s → once_act s i (s.pc i) ≡ some t → Reach t
