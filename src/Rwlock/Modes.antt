-- ===== src/Rwlock/Modes.antt =====
-- The states of a lock as bits/rwlock.h describes them, and what each call does to them.
use libpthread.Base.{
  ℕ, ◌+◌, ◌-◌, ◌<◌, ◌≡◌, ◌≢◌, ◌⊎◌, refl, true, false, not, List, [], ◌∷◌, length, returns, spins,
  arith, Timespec, Option, some, success, einval, if◌then◌else◌, ◌==◌, nsec_valid, ◌↔◌, Bool-cases,
  ltb, inl, inr,
}
use libpthread.Rwlock.{
  Rwlock, unused, timedrdlock, timedwrlock, tryrdlock, trywrlock, rwlock_unlock,
}

pub data Mode : Type 0 where
  unlocked written : Mode
  readers_hold : ℕ → Mode

-- "If held is not held and readers is 0, then the lock is unlocked. If held is held and readers is
-- 0, then the lock is held by a writer. If held is held and readers is greater than 0, then the
-- lock is held by that many readers."
abbrev pub mode : Rwlock → Mode
mode m = if not m.held then unlocked else if m.readers == 0 then written else readers_hold m.readers

-- The lock is held by a writer, or by one reader.
abbrev pub Last : Mode → Type 0
Last b = (b ≡ written) ⊎ (b ≡ readers_hold 1)

-- What an unlock does to the mode, and the threads that it wakes: a reader leaves others reading;
-- or, where a writer or the last reader unlocks, a waiting writer gets the lock, else all waiting readers, else nobody.
pub data Released (m : Rwlock) (ws : List ℕ) (b : Mode) : Type 0 where
  one_less :
      (n : ℕ)
      → 0 < n
      → mode m ≡ readers_hold (n + 1)
      → ws ≡ []
      → b ≡ readers_hold n
      → Released m ws b
  to_writer :
      (w : ℕ) (rest : List ℕ)
      → Last (mode m)
      → m.writer_queue ≡ w ∷ rest
      → ws ≡ w ∷ []
      → b ≡ written
      → Released m ws b
  to_readers :
      Last (mode m)
      → m.writer_queue ≡ []
      → ws ≡ m.reader_queue
      → ws ≢ []
      → b ≡ readers_hold (length ws)
      → Released m ws b
  to_nobody :
      Last (mode m)
      → m.writer_queue ≡ []
      → m.reader_queue ≡ []
      → ws ≡ []
      → b ≡ unlocked
      → Released m ws b

-- A read lock is got at once exactly from the modes unlocked and read-held, a write lock exactly from
-- unlocked, and the mode changes as it should; it is got then if the spin lock is free and the lock is
-- consistent: nobody waits on one that is unlocked, which has no readers, and no reader waits on one
-- that is read-held. The try calls succeed where the others do not have to wait, and do the same.
pub lock-mode :
    (m m' : Rwlock) (i : ℕ) (a : Option Timespec) (ws : List ℕ)
    → (timedrdlock m i a ≡ returns success ws m'
        → ((mode m ≡ unlocked) × (mode m' ≡ readers_hold 1))
          ⊎ ((n : ℕ) × (mode m ≡ readers_hold n) × (mode m' ≡ readers_hold (n + 1))))
      × (timedwrlock m i a ≡ returns success ws m'
          → (mode m ≡ unlocked) × (m.readers ≡ 0) × (mode m' ≡ written))
      × ((tryrdlock m ≡ returns success ws m') ↔ (timedrdlock m i a ≡ returns success ws m'))
      × ((trywrlock m ≡ returns success ws m') ↔ (timedwrlock m i a ≡ returns success ws m'))
      × (m.lock ≡ false
          → mode m ≡ unlocked
          → unused m ≡ true
          → ((k : Rwlock) × (timedrdlock m i a ≡ returns success [] k))
            × ((k : Rwlock) × (timedwrlock m i a ≡ returns success [] k)))
      × (m.lock ≡ false
          → (n : ℕ) → mode m ≡ readers_hold n
          → m.reader_queue ≡ []
          → (k : Rwlock) × (timedrdlock m i a ≡ returns success [] k))
unfolding timedrdlock timedwrlock tryrdlock trywrlock
lock-mode m m' i a ws = (
  (λ h. elim (Bool-cases m.held) [
    | inl held ↦ inr (m.readers, ground arith, ground arith)
    | inr free ↦ inl (ground arith, ground arith)
  ]),
  (λ h. (ground arith, ground arith, ground arith)),
  ((λ h. ground arith), (λ h. ground arith)),
  ((λ h. ground arith), (λ h. ground arith)),
  (λ f o u. (
    (record m { held = true; readers = 1 }, ground arith),
    (record m { held = true }, ground arith),
  )),
  (λ f n o q. (record m { readers = m.readers + 1 }, ground arith)),
)

release_cases :
    (m m' : Rwlock) (ws qs rs : List ℕ)
    → m.writer_queue ≡ qs
    → m.reader_queue ≡ rs
    → rwlock_unlock m ≡ returns success ws m'
    → Released m ws (mode m')
unfolding rwlock_unlock
release_cases m m' ws qs rs p q h = elim (Bool-cases (ltb 1 m.readers)) [
  | inl more ↦ one_less (m.readers - 1) (ground arith) (ground arith) (ground arith) (ground arith)
  | inr last ↦ handed last (last_holder last) qs rs p q
]
  where
    last_holder : ltb 1 m.readers ≡ false → Last (mode m)
    last_holder last = elim (Bool-cases (m.readers == 0)) [
      | inl e ↦ inl (ground arith)
      | inr e ↦ inr (ground arith)
    ]

    handed :
        ltb 1 m.readers ≡ false
        → Last (mode m)
        → (qs rs : List ℕ) → m.writer_queue ≡ qs
        → m.reader_queue ≡ rs
        → Released m ws (mode m')
    handed last o (w ∷ rest) rs p q = to_writer w rest o p (ground arith) (ground arith)
    handed last o [] (r ∷ rs) p q = to_readers o p (ground arith) (λ e. ground arith) (ground arith)
    handed last o [] [] p q = to_nobody o p q (ground arith) (ground arith)

-- Unlocking moves between the documented modes: where more than one reader has the lock there is one
-- reader fewer; where a writer or one reader has it, the lock goes to the first waiting writer, or if there is none to all waiting readers at once, or to nobody; and just the
-- threads that get it are woken.
pub rwlock_unlock-Released :
    (m m' : Rwlock) (ws : List ℕ)
    → rwlock_unlock m ≡ returns success ws m'
    → Released m ws (mode m')
rwlock_unlock-Released m m' ws h = release_cases m m' ws m.writer_queue m.reader_queue refl refl h

-- An invalid `abstime` on a lock that the caller has to wait for: EINVAL is returned with the spin
-- lock taken, and after that no call of any thread gets past it.
pub rw_invalid_abstime :
    (m : Rwlock) (i : ℕ) (t : Timespec)
    → m.lock ≡ false
    → mode m ≡ written
    → nsec_valid t.nsec ≡ false
    → (m' : Rwlock) × (timedrdlock m i (some t) ≡ returns einval [] m')
      × (timedwrlock m i (some t) ≡ returns einval [] m')
      × (rwlock_unlock m' ≡ spins)
      × (tryrdlock m' ≡ spins)
      × (trywrlock m' ≡ spins)
unfolding timedrdlock timedwrlock rwlock_unlock tryrdlock trywrlock
rw_invalid_abstime m i t f k v =
    (record m { lock = true }, ground arith, ground arith, ground arith, ground arith, ground arith)
