-- ===== src/Mutex/System.antt =====
-- Threads that use one mutex, interleaved: each step is one section of one thread. A wakeup counts
-- as sent in the step that takes its thread out of the queue: a thread that has not yet received a
-- message cannot tell whether it is late or was sent late.
use libpthread.Base.{
  ℕ, zero, suc, ◌+◌, ◌≡◌, Bool, true, false, inl, inr, Option-cases, Option, none, some, List, [],
  ◌∷◌, Errno, Outcome, returns, waits, spins, aborts, success, Timespec, update, uint_mod, ltb,
  if◌then◌else◌, owner_is,
}
use libpthread.Mutex.{
  Mutex, timed, errorcheck, recursive, mutex_type, timedlock, trylock, unlock, settle, finish,
  AttrRef, initializer,
}

-- Where a thread stands. `blocked t`: in `__pthread_block`, or in `__pthread_timedblock` if `t`;
-- `unblocked e`: returned from there, with a time-out if `e`; `draining`: in the second block;
-- `finishing e`: past it; `owning n`: the thread has made `n + 1` calls that lock, and that its calls
-- of unlock have not undone. That number is of the calls made and their results, not of the mutex.
pub data Pc : Type 0 where
  idle draining : Pc
  owning : ℕ → Pc
  blocked unblocked finishing : Bool → Pc

pub record System : Type 0 where
  pub mutex : Mutex
  pub pc : ℕ → Pc
  pub msgs : ℕ → ℕ  -- wakeup messages that a thread has not received

abbrev pub deliver : List ℕ → (ℕ → ℕ) → ℕ → ℕ
deliver [] f = f
deliver (t ∷ ts) f = deliver ts (update f t (f t + 1))

abbrev pub put : System → ℕ → Pc → Mutex → List ℕ → System
put s i p m ws = record { mutex = m; pc = update s.pc i p; msgs = deliver ws s.msgs }

abbrev pub receive : System → ℕ → Pc → Option System
receive s i p = elim (s.msgs i) [
  | zero ↦ none
  | suc k ↦ some (record s { pc = update s.pc i p; msgs = update s.msgs i k })
]

-- Where a call that locks leaves a thread.
abbrev pub deeper : Pc → Pc
deeper (owning n) = owning (n + 1)
deeper p = owning 0

-- A call has ended a section: where the thread stands next.
abbrev pub after_call : System → ℕ → Pc → Bool → Outcome Mutex → Option System
after_call s i old t (returns success ws m) = some (put s i (deeper old) m ws)
after_call s i old t (returns e ws m) = some (put s i old m ws)
after_call s i old t (waits m) = some (put s i (blocked t) m [])
after_call s i old t spins = none
after_call s i old t aborts = none

-- A call of unlock that succeeds undoes one call that has locked.
abbrev pub after_unlock : Errno → ℕ → Pc
after_unlock success zero = idle
after_unlock success (suc n) = owning n
after_unlock e n = owning n

-- A thread does not lock again where that would overflow the count of a recursive mutex.
abbrev pub bounded : ℕ → Option System → Option System
bounded n o = if ltb (n + 2) uint_mod then o else none

pub data Action : Type 0 where
  lock : Option Timespec → Action
  try release receives times_out resettles drains ends : Action

abbrev pub is_some : Option Timespec → Bool
is_some none = false
is_some (some t) = true

abbrev pub after_settle : System → ℕ → Bool → Option (Mutex × Bool) → Option System
after_settle s i e none = none
after_settle s i e (some (m, true)) = some (put s i draining m [])
after_settle s i e (some (m, false)) = some (put s i (finishing e) m [])

abbrev pub after_release : System → ℕ → Pc → Outcome Mutex → Option System
after_release s i (owning n) (returns e ws m) = some (put s i (after_unlock e n) m ws)
after_release s i p (returns e ws m) = some (put s i p m ws)
after_release s i p _ = none

-- A normal mutex is locked by threads that do not have it, and unlocked by the one that has it;
-- of the other types any thread may do either, only that one which does not have a recursive mutex,
-- but which the mutex names as its owner since it was handed over while the thread timed out, does
-- not unlock it: the count would underflow. `none`: the step cannot be taken.
unfoldable pub act : Action → Pc → System → ℕ → Option System
act (lock abstime) idle s i = after_call s i idle (is_some abstime) (timedlock s.mutex i abstime)
act (lock abstime) (owning n) s i = elim (mutex_type s.mutex) [
  | timed ↦ none
  | _ ↦ bounded n (after_call s i (owning n) (is_some abstime) (timedlock s.mutex i abstime))
]
act try idle s i = after_call s i idle false (trylock s.mutex i)
act try (owning n) s i = bounded n (after_call s i (owning n) false (trylock s.mutex i))
act release (owning n) s i = after_release s i (owning n) (unlock s.mutex i)
act release idle s i = elim (mutex_type s.mutex) [
  | timed ↦ none
  | errorcheck ↦ after_release s i idle (unlock s.mutex i)
  | recursive ↦ if owner_is s.mutex.owner i then none else after_release s i idle (unlock s.mutex i)
]
act receives (blocked t) s i = receive s i (unblocked false)
act times_out (blocked true) s i = some (put s i (unblocked true) s.mutex [])
act resettles (unblocked e) s i = after_settle s i e (settle s.mutex i e)
act drains draining s i = receive s i (finishing true)
act ends (finishing e) s i = after_call s i idle false (finish s.mutex i e)
act _ _ s i = none

unfoldable pub step : System → ℕ → Action → Option System
unfolding act
step s i a = act a (s.pc i) s i

abbrev pub init : AttrRef → System
init a = record { mutex = initializer a; pc = λ _. idle; msgs = λ _. 0 }

pub data Reach (a : AttrRef) : System → Type 0 where
  start : Reach a (init a)
  later : {s t : System} (i : ℕ) (b : Action) → Reach a s → step s i b ≡ some t → Reach a t

-- Threads in a given order, each with the action that it takes; stops at one that cannot be taken.
unfoldable pub run : System → List (ℕ × Action) → System
unfolding step
run s [] = s
run s ((i, b) ∷ rest) = elim (step s i b) [ none ↦ s | some t ↦ run t rest ]

pub run-Reach :
    {a : AttrRef} (acts : List (ℕ × Action)) (s : System) → Reach a s → Reach a (run s acts)
unfolding run
run-Reach [] s r = r
run-Reach ((i, b) ∷ rest) s r = elim (Option-cases (step s i b)) [
  | inl e ↦ rw (e, run) r
  | inr (t, e) ↦ rw (e, run) (run-Reach rest t (later i b r e))
]
