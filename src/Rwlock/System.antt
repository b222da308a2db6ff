-- ===== src/Rwlock/System.antt =====
-- Threads that use one read-write lock, a section at a time. Each has the lock once at most.
use libpthread.Base.{
  ℕ, zero, suc, ◌+◌, ◌≡◌, Bool, true, false, inl, inr, Option-cases, Option, none, some, List, [],
  ◌∷◌, Outcome, returns, waits, spins, aborts, success, Timespec, update,
}
use libpthread.Rwlock.{
  Rwlock, rwlock_initializer, timedrdlock, timedwrlock, tryrdlock, trywrlock, settle_reader,
  settle_writer, finish_reader, finish_writer, rwlock_unlock,
}

-- A thread reads or writes.
pub data Side : Type 0 where
  read write : Side

-- `has`: the thread has the lock. The others are the stages of a call that waits, as for a mutex.
pub data Pc : Type 0 where
  idle : Pc
  has draining : Side → Pc
  blocked unblocked finishing : Side → Bool → Pc

pub record System : Type 0 where
  pub rwlock : Rwlock
  pub pc : ℕ → Pc
  pub msgs : ℕ → ℕ

abbrev pub deliver : List ℕ → (ℕ → ℕ) → ℕ → ℕ
deliver [] f = f
deliver (t ∷ ts) f = deliver ts (update f t (f t + 1))

abbrev pub put : System → ℕ → Pc → Rwlock → List ℕ → System
put s i p m ws = record { rwlock = m; pc = update s.pc i p; msgs = deliver ws s.msgs }

abbrev pub receive : System → ℕ → Pc → Option System
receive s i p = elim (s.msgs i) [
  | zero ↦ none
  | suc k ↦ some (record s { pc = update s.pc i p; msgs = update s.msgs i k })
]

abbrev pub after_call : System → ℕ → Side → Bool → Outcome Rwlock → Option System
after_call s i d t (returns success ws m) = some (put s i (has d) m ws)
after_call s i d t (returns e ws m) = some (put s i idle m ws)
after_call s i d t (waits m) = some (put s i (blocked d t) m [])
after_call s i d t spins = none
after_call s i d t aborts = none

abbrev pub after_settle : System → ℕ → Side → Bool → Option (Rwlock × Bool) → Option System
after_settle s i d e none = none
after_settle s i d e (some (m, true)) = some (put s i (draining d) m [])
after_settle s i d e (some (m, false)) = some (put s i (finishing d e) m [])

abbrev pub after_unlock : System → ℕ → Outcome Rwlock → Option System
after_unlock s i (returns success ws m) = some (put s i idle m ws)
after_unlock s i _ = none

pub data Action : Type 0 where
  lock : Side → Option Timespec → Action
  try : Side → Action
  release receives times_out resettles drains ends : Action

abbrev pub is_some : Option Timespec → Bool
is_some none = false
is_some (some t) = true

abbrev pub locking : Side → Rwlock → ℕ → Option Timespec → Outcome Rwlock
locking read m i a = timedrdlock m i a
locking write m i a = timedwrlock m i a

abbrev pub trying : Side → Rwlock → Outcome Rwlock
trying read m = tryrdlock m
trying write m = trywrlock m

abbrev pub settling : Side → Rwlock → ℕ → Bool → Option (Rwlock × Bool)
settling read m i e = settle_reader m i e
settling write m i e = settle_writer m i e

abbrev pub ending : Side → Rwlock → Bool → Outcome Rwlock
ending read m e = finish_reader m e
ending write m e = finish_writer m e

unfoldable pub rw_act : Action → Pc → System → ℕ → Option System
rw_act (lock d a) idle s i = after_call s i d (is_some a) (locking d s.rwlock i a)
rw_act (try d) idle s i = after_call s i d false (trying d s.rwlock)
rw_act release (has d) s i = after_unlock s i (rwlock_unlock s.rwlock)
rw_act receives (blocked d t) s i = receive s i (unblocked d false)
rw_act times_out (blocked d true) s i = some (put s i (unblocked d true) s.rwlock [])
rw_act resettles (unblocked d e) s i = after_settle s i d e (settling d s.rwlock i e)
rw_act drains (draining d) s i = receive s i (finishing d true)
rw_act ends (finishing d e) s i = after_call s i d false (ending d s.rwlock e)
rw_act _ _ s i = none

unfoldable pub rw_step : System → ℕ → Action → Option System
unfolding rw_act
rw_step s i a = rw_act a (s.pc i) s i

abbrev pub rw_init : System
rw_init = record { rwlock = rwlock_initializer; pc = λ _. idle; msgs = λ _. 0 }

pub data Reach : System → Type 0 where
  start : Reach rw_init
  later : {s t : System} (i : ℕ) (b : Action) → Reach s → rw_step s i b ≡ some t → Reach t

unfoldable pub rw_run : System → List (ℕ × Action) → System
unfolding rw_step
rw_run s [] = s
rw_run s ((i, b) ∷ rest) = elim (rw_step s i b) [ none ↦ s | some t ↦ rw_run t rest ]

pub rw_run-Reach : (acts : List (ℕ × Action)) (s : System) → Reach s → Reach (rw_run s acts)
unfolding rw_run
rw_run-Reach [] s r = r
rw_run-Reach ((i, b) ∷ rest) s r = elim (Option-cases (rw_step s i b)) [
  | inl e ↦ rw (e, rw_run) r
  | inr (t, e) ↦ rw (e, rw_run) (rw_run-Reach rest t (later i b r e))
]
