-- ===== src/Mutex/Sections.antt =====
-- What each call on a mutex does, branch by branch.
use libpthread.Base.{
  ◌⊎◌, inl, inr, ◌==◌, ◌<◌, ◌↔◌, uint_mod, nsec_valid, spins, etimedout, ℕ, ◌+◌, ◌≡◌, ◌≢◌, Bool,
  true, false, Option, some, List, [], Errno, returns, waits, Timespec, arith, success, einval,
}
use libpthread.Mutex.{Mutex, timed, recursive, mutex_type, unlock, timedlock, trylock, finish}

-- A lock call that returns an error wakes nobody and leaves the mutex as it was, but for the spin
-- lock.
pub timedlock_error :
    (m : Mutex) (i : ℕ) (a : Option Timespec) {e : Errno} {ws : List ℕ} {m' : Mutex}
    → e ≢ success
    → timedlock m i a ≡ returns e ws m'
    → (ws ≡ []) × (m' ≡ record m { lock = m'.lock })
unfolding timedlock
timedlock_error m i a n h = ground arith

-- A trylock call that returns an error wakes nobody and leaves the mutex as it was.
pub trylock_error :
    (m : Mutex) (i : ℕ) {e : Errno} {ws : List ℕ} {m' : Mutex}
    → e ≢ success
    → trylock m i ≡ returns e ws m'
    → (ws ≡ []) × (m' ≡ m)
unfolding trylock
trylock_error m i n h = ground arith

-- These calls do not wait.
pub trylock_answers : (m : Mutex) (i : ℕ) {m' : Mutex} → trylock m i ≢ waits m'
unfolding trylock
trylock_answers m i h = ground arith

pub finish_answers : (m : Mutex) (i : ℕ) (e : Bool) {m' : Mutex} → finish m i e ≢ waits m'
unfolding finish
finish_answers m i e h = ground arith

-- A call that has waited fails only by a time-out, and leaves the mutex as it is.
pub finish_error :
    (m : Mutex) (i : ℕ) (e : Bool) {r : Errno} {ws : List ℕ} {m' : Mutex}
    → r ≢ success
    → finish m i e ≡ returns r ws m'
    → (e ≡ true) × (r ≡ etimedout) × (m' ≡ m)
unfolding finish
finish_error m i e n h = ground arith

-- Whatever the type, `pthread_mutex_trylock` succeeds exactly where `pthread_mutex_lock` would
-- succeed at once, and does the same.
pub trylock-timedlock :
    (m : Mutex) (i : ℕ) (a : Option Timespec) (ws : List ℕ) (m' : Mutex)
    → (trylock m i ≡ returns success ws m') ↔ (timedlock m i a ≡ returns success ws m')
unfolding trylock timedlock
trylock-timedlock m i a ws m' = ((λ h. ground arith), (λ h. ground arith))

-- An owner that locks a recursive mutex once more and unlocks it is where it was: the count is
-- below its bound, and the spin lock free.
pub relock-unlock :
    (m : Mutex) (i : ℕ) (a : Option Timespec)
    → mutex_type m ≡ recursive
    → m.owner ≡ some i
    → m.held ≡ true
    → m.lock ≡ false
    → 0 < m.locks
    → m.locks + 1 < uint_mod
    → (m' : Mutex) × (timedlock m i a ≡ returns success [] m')
      × (unlock m' i ≡ returns success [] m)
unfolding timedlock unlock
relock-unlock m i a k o h f p b = (record m { locks = m.locks + 1 }, ground arith, ground arith)

-- An invalid `abstime` on a mutex that the caller would have to wait for, that is, one that is held
-- and is normal, or has another thread as its owner: the call returns EINVAL with the spin lock taken, and after that no lock, trylock or unlock call of any thread gets past
-- the spin lock.
pub invalid_abstime_keeps_spin_lock :
    (m : Mutex) (i : ℕ) (t : Timespec)
    → m.lock ≡ false
    → m.held ≡ true
    → (mutex_type m ≡ timed) ⊎ ((k : ℕ) × (m.owner ≡ some k) × ((k == i) ≡ false))
    → nsec_valid t.nsec ≡ false
    → (m' : Mutex) × (timedlock m i (some t) ≡ returns einval [] m')
      × ((j : ℕ)
          → ((a : Option Timespec) → timedlock m' j a ≡ spins)
            × (trylock m' j ≡ spins)
            × (unlock m' j ≡ spins))
unfolding timedlock trylock unlock
invalid_abstime_keeps_spin_lock m i t f h k v = (
  record m { lock = true },
  elim k [ inl n ↦ ground arith | inr (o, e, d) ↦ ground arith ],
  (λ j. ((λ a. ground arith), ground arith, ground arith)),
)
