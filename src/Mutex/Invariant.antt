-- ===== src/Mutex/Invariant.antt =====
-- Who has the lock or has been handed it, who is queued, and which wakeups are under way.
pub mod Release
pub mod Locking
pub mod Trying
pub mod Waiting
pub mod Steps
use libpthread.Base.{
  ℕ, zero, suc, ◌≡◌, ◌≢◌, Bool, true, false, not, Option, none, some, List, [], ◌∷◌, elem, Distinct,
  if◌then◌else◌, ◌+◌, ◌<◌, uint_mod,
}
use libpthread.Mutex.{is_none, Mutex, MutexType, timed, recursive, mutex_type}
use libpthread.Mutex.System.{Pc, idle, owning, draining, blocked, unblocked, finishing, System}

-- The thread has the lock, or has been handed it and not yet returned.
abbrev pub holder : Pc → Bool → Bool
holder (owning n) queued = true
holder draining queued = true
holder (blocked t) queued = not queued
holder (unblocked e) queued = not queued
holder (finishing e) queued = not e
holder idle queued = false

abbrev pub is_owning : Pc → Bool
is_owning (owning n) = true
is_owning p = false

-- The thread may be in the queue.
abbrev pub may_queue : Pc → Bool
may_queue (blocked t) = true
may_queue (unblocked e) = e
may_queue _ = false

-- The wakeups that the thread has still to receive.
abbrev pub due : Pc → Bool → ℕ
due (blocked t) queued = if queued then 0 else 1
due (unblocked true) queued = if queued then 0 else 1
due draining queued = 1
due _ queued = 0

abbrev pub holds : Mutex → (ℕ → Pc) → ℕ → Bool
holds m pc i = holder (pc i) (elem i m.queue)

-- The lock has been handed to the thread, which has not returned with it.
abbrev pub handed : Pc → Bool → Bool
handed (owning n) queued = false
handed p queued = holder p queued

-- While a mutex is held, one that keeps track of its owner has one.
abbrev pub is_named : MutexType → Bool → Option ℕ → Bool
is_named timed held owner = true
is_named _ false owner = true
is_named _ true owner = not (is_none owner)

pub record Inv (m : Mutex) (pc : ℕ → Pc) (msgs : ℕ → ℕ) : Type 0 where
  pub distinct : Distinct m.queue
  pub queued : (i : ℕ) → elem i m.queue ≡ true → may_queue (pc i) ≡ true
  pub sent : (i : ℕ) → msgs i ≡ due (pc i) (elem i m.queue)
  pub unique : (i j : ℕ) → holds m pc i ≡ true → holds m pc j ≡ true → i ≡ j
  pub held : (i : ℕ) → holds m pc i ≡ true → m.held ≡ true
  pub waited : (i : ℕ) → elem i m.queue ≡ true → m.held ≡ true
  pub owned : (i : ℕ) → mutex_type m ≢ timed → holds m pc i ≡ true → m.owner ≡ some i
  pub named : is_named (mutex_type m) m.held m.owner ≡ true
  pub fresh :
      (i : ℕ) → mutex_type m ≡ recursive → handed (pc i) (elem i m.queue) ≡ true → m.locks ≡ 0
  pub counted :
      (i n : ℕ)
      → mutex_type m ≡ recursive
      → pc i ≡ owning n
      → (m.locks ≡ n + 1) × (m.locks < uint_mod)
  pub single : (i n : ℕ) → mutex_type m ≢ recursive → pc i ≡ owning n → n ≡ 0
  pub spare :
      (i : ℕ) → mutex_type m ≡ recursive → m.owner ≡ some i → is_owning (pc i) ≡ false → m.locks ≡ 0
