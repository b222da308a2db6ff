-- ===== src/Semaphore/Tokens.antt =====
-- No token of a semaphore is made up, and none disappears but by a time-out.
pub mod Steps
use libpthread.Base.{
  ℕ, ◌+◌, ◌≡◌, ◌<◌, Bool, true, false, not, List, [], elem, Distinct, length, if◌then◌else◌,
}
use libpthread.Semaphore.System.{System, Pc, idle, draining, blocked, unblocked, finishing}

-- The thread has been handed a token in a wait that it has not left.
abbrev pub is_owed : Pc → Bool → Bool
is_owed idle queued = false
is_owed draining queued = true
is_owed (blocked t) queued = not queued
is_owed (unblocked e) queued = not queued
is_owed (finishing e) queued = not e

abbrev pub may_queue : Pc → Bool
may_queue (blocked t) = true
may_queue (unblocked e) = e
may_queue _ = false

abbrev pub due : Pc → Bool → ℕ
due (blocked t) queued = if queued then 0 else 1
due (unblocked true) queued = if queued then 0 else 1
due draining queued = 1
due _ queued = 0

pub record Inv (n : ℕ) (s : System) : Type 0 where
  pub distinct : Distinct s.sem.queue
  pub queued : (i : ℕ) → elem i s.sem.queue ≡ true → may_queue (s.pc i) ≡ true
  pub sent : (i : ℕ) → s.msgs i ≡ due (s.pc i) (elem i s.sem.queue)
  pub no_waiting : 0 < s.sem.value → s.sem.queue ≡ []
  pub owed_distinct : Distinct s.owed
  pub owes : (i : ℕ) → elem i s.owed ≡ is_owed (s.pc i) (elem i s.sem.queue)
  pub balance : n + s.posts ≡ s.sem.value + s.takes + length s.owed + s.lost
