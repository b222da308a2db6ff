-- ===== src/Mutex/Tests.antt =====
-- Runs of the mutex model, and the theorems at concrete inputs.
use libpthread.Base.{
  inl, etimedout, ℕ, ◌≡◌, ◌≢◌, ◌↔◌, refl, true, false, none, some, List, [], ◌∷◌, ◌⊎◌, Option,
  Timespec, pos, negsuc, returns, success, einval, spins, elem,
}
use libpthread.Mutex.{
  settle, finish, null, recursive_mark, initializer, timedlock, trylock, unlock, Mutex,
}
use libpthread.Mutex.System.{
  step, drains, ends, System, Action, lock, release, times_out, resettles, run, run-Reach, init,
  Reach, start, idle, owning, draining,
}
use libpthread.Mutex.Safety.{mutual_exclusion, wakeups}
use libpthread.Mutex.Progress.{began, then_step, no_lost_lock, is_late}
use libpthread.Mutex.Invariant.{holds}
use libpthread.Mutex.Lost.{timeout_loses_lock, From}
use libpthread.Mutex.Sections.{trylock-timedlock, invalid_abstime_keeps_spin_lock}

abbrev soon : Option Timespec
soon = some (record { sec = 5; nsec = pos 0 })

-- Thread 1 has the lock; thread 2 has timed out in the queue.
abbrev late_run : List (ℕ × Action)
late_run = (1, lock none) ∷ (2, lock soon) ∷ (2, times_out) ∷ []

abbrev late_state : System
late_state = run (init null) late_run

late_Reach : Reach null late_state
late_Reach = run-Reach late_run (init null) start

-- Thread 1 has locked a recursive mutex twice and unlocked it once; thread 2 waits.
abbrev nested_run : List (ℕ × Action)
nested_run = (1, lock none) ∷ (1, lock none) ∷ (2, lock none) ∷ (1, release) ∷ []

abbrev nested_state : System
nested_state = run (init recursive_mark) nested_run

nested_Reach : Reach recursive_mark nested_state
nested_Reach = run-Reach nested_run (init recursive_mark) start

-- Thread 2 has timed out while a recursive mutex was handed to it: it does not have the mutex, is its
-- owner, and the count is 0. Where it unlocks the mutex, that succeeds, and the count underflows.
abbrev refused_run : List (ℕ × Action)
refused_run =
    (1, lock none)
    ∷ (2, lock soon)
    ∷ (2, times_out)
    ∷ (1, release)
    ∷ (2, resettles)
    ∷ (2, drains)
    ∷ (2, ends)
    ∷ []

abbrev refused_state : System
refused_state = run (init recursive_mark) refused_run

unlock_underflows :
    (refused_state.pc 2 ≡ idle)
    × (unlock refused_state.mutex 2
        ≡ returns success [] (record refused_state.mutex { locks = 4294967295 }))
unfolding run timedlock unlock settle finish
unlock_underflows = (refl, refl)

mutual_exclusion_example : ◌≡◌ {A = ℕ} 1 1
unfolding run timedlock unlock
mutual_exclusion_example = mutual_exclusion nested_Reach 1 1 0 0 refl refl

timeout_loses_lock_example :
    (u v w z : System) × (unlock late_state.mutex 1 ≡ returns success (2 ∷ []) u.mutex)
    × (u.mutex.held ≡ true)
    × (step late_state 1 release ≡ some u)
    × (step u 2 resettles ≡ some v)
    × (step v 2 drains ≡ some w)
    × (finish w.mutex 2 true ≡ returns etimedout [] z.mutex)
    × (step w 2 ends ≡ some z)
    × (z.pc 2 ≡ idle)
    × ((y : System) → From z y → (y.mutex.held ≡ true) × ((j n : ℕ) → y.pc j ≢ owning n))
unfolding run timedlock
timeout_loses_lock_example = timeout_loses_lock late_Reach 1 2 [] refl refl refl refl refl

wakeups_example :
    ((late_state.pc 2 ≡ idle) ⊎ ((n : ℕ) × (late_state.pc 2 ≡ owning n)) → late_state.msgs 2 ≡ 0)
    × (late_state.pc 2 ≡ draining → late_state.msgs 2 ≡ 1)
    × (elem 2 late_state.mutex.queue ≡ true → late_state.msgs 2 ≡ 0)
wakeups_example = wakeups late_Reach 2

no_lost_lock_example :
    let s = run (init null) ((1, lock none) ∷ []) in
    (i : ℕ) × (holds s.mutex s.pc i ≡ true) × (is_late (s.pc i) ≡ false)
unfolding run timedlock
no_lost_lock_example = no_lost_lock {a = null} (then_step 1 (lock none) began (λ e. cc) refl) refl

trylock-timedlock_example :
    (trylock (initializer null) 4 ≡ returns success [] (record (initializer null) { held = true }))
    ↔ (timedlock (initializer null) 4 none
        ≡ returns success [] (record (initializer null) { held = true }))
trylock-timedlock_example = trylock-timedlock (initializer null) 4 none [] _

abbrev bad_time : Timespec
bad_time = record { sec = 5; nsec = negsuc 0 }

invalid_abstime_keeps_spin_lock_example :
    (m : Mutex) × (timedlock late_state.mutex 3 (some bad_time) ≡ returns einval [] m)
    × ((j : ℕ)
        → ((a : Option Timespec) → timedlock m j a ≡ spins)
          × (trylock m j ≡ spins)
          × (unlock m j ≡ spins))
unfolding run timedlock
invalid_abstime_keeps_spin_lock_example =
    invalid_abstime_keeps_spin_lock late_state.mutex 3 bad_time refl refl (inl refl) refl
