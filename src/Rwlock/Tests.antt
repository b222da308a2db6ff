-- ===== src/Rwlock/Tests.antt =====
-- Runs of the read-write lock model, and the theorems at concrete inputs.
use libpthread.Base.{
  ℕ, ◌≡◌, ◌↔◌, ◌+◌, refl, true, false, none, List, [], ◌∷◌, ◌⊎◌, returns, success,
}
use libpthread.Rwlock.{
  unused, Rwlock, rwlock_initializer, timedrdlock, timedwrlock, tryrdlock, trywrlock, rwlock_unlock,
}
use libpthread.Rwlock.System.{
  System, Action, read, write, lock, release, receives, resettles, ends, rw_run, rw_run-Reach,
  rw_init, Reach, start,
}
use libpthread.Rwlock.Exclusion.{reader_writer_exclusion}
use libpthread.Rwlock.Modes.{
  mode, unlocked, written, readers_hold, Released, lock-mode, rwlock_unlock-Released,
}

-- Thread 1 writes, threads 2 and 3 wait to read, and get the lock together.
abbrev rw_acts : List (ℕ × Action)
rw_acts =
    (1, lock write none)
    ∷ (2, lock read none)
    ∷ (3, lock read none)
    ∷ (1, release)
    ∷ (3, receives)
    ∷ (3, resettles)
    ∷ (3, ends)
    ∷ []

abbrev rw_state : System
rw_state = rw_run rw_init rw_acts

rw_state-Reach : Reach rw_state
rw_state-Reach = rw_run-Reach rw_acts rw_init start

abbrev writing_state : System
writing_state =
    rw_run rw_init ((1, lock write none) ∷ (2, lock read none) ∷ (3, lock read none) ∷ [])

reader_writer_exclusion_example : (◌≡◌ {A = ℕ} 1 1) × (write ≡ write)
unfolding rw_run timedwrlock timedrdlock
reader_writer_exclusion_example =
    reader_writer_exclusion
      (rw_run-Reach ((1, lock write none) ∷ (2, lock read none) ∷ []) rw_init start) 1 1 write refl
      refl

abbrev one_reader : Rwlock
one_reader = record rwlock_initializer { held = true; readers = 1 }

lock-mode_example :
    (timedrdlock one_reader 4 none ≡ returns success [] (record one_reader { readers = 2 })
      → ((mode one_reader ≡ unlocked) × (readers_hold 2 ≡ readers_hold 1))
        ⊎ ((n : ℕ) × (mode one_reader ≡ readers_hold n) × (readers_hold 2 ≡ readers_hold (n + 1))))
    × (timedwrlock one_reader 4 none ≡ returns success [] (record one_reader { readers = 2 })
        → (mode one_reader ≡ unlocked) × (◌≡◌ {A = ℕ} 1 0) × (readers_hold 2 ≡ written))
    × ((tryrdlock one_reader ≡ returns success [] (record one_reader { readers = 2 }))
        ↔ (timedrdlock one_reader 4 none ≡ returns success [] (record one_reader { readers = 2 })))
    × ((trywrlock one_reader ≡ returns success [] (record one_reader { readers = 2 }))
        ↔ (timedwrlock one_reader 4 none ≡ returns success [] (record one_reader { readers = 2 })))
    × (one_reader.lock ≡ false
        → mode one_reader ≡ unlocked
        → unused one_reader ≡ true
        → ((k : Rwlock) × (timedrdlock one_reader 4 none ≡ returns success [] k))
          × ((k : Rwlock) × (timedwrlock one_reader 4 none ≡ returns success [] k)))
    × (one_reader.lock ≡ false
        → (n : ℕ) → mode one_reader ≡ readers_hold n
        → one_reader.reader_queue ≡ []
        → (k : Rwlock) × (timedrdlock one_reader 4 none ≡ returns success [] k))
lock-mode_example = lock-mode one_reader (record one_reader { readers = 2 }) 4 none []

-- A writer leaves while two readers wait.
abbrev awaited : Rwlock
awaited = record rwlock_initializer { held = true; reader_queue = 3 ∷ 2 ∷ [] }

rwlock_unlock-Released_example : Released awaited (3 ∷ 2 ∷ []) (readers_hold 2)
unfolding rwlock_unlock
rwlock_unlock-Released_example =
    rwlock_unlock-Released awaited (record awaited { readers = 2; reader_queue = [] }) (3 ∷ 2 ∷ [])
      refl
