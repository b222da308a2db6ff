-- ===== src/Threads/Grow.antt =====
-- Calls of __pthread_alloc that run at the same time and may both enlarge the table: pthread/pt-alloc.c
-- from `retry` on. A step is one section under the lock of the table.
pub mod Unique
use libpthread.Base.{
  ℕ, zero, suc, ◌+◌, Bool, true, false, ltb, ◌==◌, if◌then◌else◌, Option, none, some, update, ◌≡◌,
}
use libpthread.Threads.{larger}

-- Where a call is: about to look for a slot; about to enlarge a table that had `n` slots; or returned,
-- with an identifier or without memory.
pub data Pc : Type 0 where
  looks failed : Pc
  enlarges has : ℕ → Pc

-- `__pthread_max_threads` and `__pthread_num_threads`, and the place of each call
pub record Slots : Type 0 where
  pub max_threads : ℕ
  pub num_threads : ℕ
  pub pc : ℕ → Pc

abbrev pub goes_to : Slots → ℕ → Pc → Slots
goes_to s i p = record s { pc = update s.pc i p }

-- The next slot, and the identifier that comes with it
abbrev pub next_slot : Slots → ℕ → Slots
next_slot s i = record (goes_to s i (has (s.num_threads + 1))) { num_threads = s.num_threads + 1 }

abbrev pub look : Slots → ℕ → Slots
look s i =
    if ltb s.num_threads s.max_threads then next_slot s i else goes_to s i (enlarges s.max_threads)

-- `memory` tells whether there is memory for the larger table.
abbrev pub enlarge : Slots → ℕ → Bool → ℕ → Slots
enlarge s i false n = goes_to s i failed
enlarge s i true n =
    if n == s.max_threads
    then record (next_slot s i) { max_threads = larger n }
    else goes_to s i looks

unfoldable pub alloc_act : Slots → ℕ → Bool → Pc → Option Slots
alloc_act s i memory looks = some (look s i)
alloc_act s i memory (enlarges n) = some (enlarge s i memory n)
alloc_act s i memory failed = none
alloc_act s i memory (has n) = none

abbrev pub slots_init : Slots
slots_init = record { max_threads = 0; num_threads = 0; pc = λ i. looks }

pub data Reach : Slots → Type 0 where
  start : Reach slots_init
  later :
      {s t : Slots} (i : ℕ) (memory : Bool)
      → Reach s
      → alloc_act s i memory (s.pc i) ≡ some t
      → Reach t
