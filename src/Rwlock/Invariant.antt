-- ===== src/Rwlock/Invariant.antt =====
-- Who reads and who writes. `shares` lists a thread for each time it has been counted in `readers`:
-- every reader is in it, and a thread whose read lock was lost in a time-out stays in it.
pub mod Locking
pub mod Waiting
pub mod Release
use libpthread.Base.{
  ℕ, ◌≡◌, ◌<◌, ◌&&◌, Bool, true, false, not, List, [], elem, Distinct, length, if◌then◌else◌,
}
use libpthread.Rwlock.{Rwlock}
use libpthread.Rwlock.System.{
  Side, read, write, Pc, idle, has, draining, blocked, unblocked, finishing,
}

abbrev pub same_side : Side → Side → Bool
same_side read read = true
same_side write write = true
same_side _ _ = false

-- The thread has the lock on side `d`, or has been handed it; `queued`: it is in the queue of `d`.
abbrev pub holder : Side → Pc → Bool → Bool
holder d idle queued = false
holder d (has c) queued = same_side d c
holder d (draining c) queued = same_side d c
holder d (blocked c t) queued = same_side d c && not queued
holder d (unblocked c e) queued = same_side d c && not queued
holder d (finishing c e) queued = same_side d c && not e

abbrev pub may_queue : Side → Pc → Bool
may_queue d (blocked c t) = same_side d c
may_queue d (unblocked c e) = same_side d c && e
may_queue d _ = false

abbrev pub queued : Side → Rwlock → ℕ → Bool
queued read m i = elem i m.reader_queue
queued write m i = elem i m.writer_queue

abbrev pub due : Rwlock → ℕ → Pc → ℕ
due m i (blocked d t) = if queued d m i then 0 else 1
due m i (unblocked d true) = if queued d m i then 0 else 1
due m i (draining d) = 1
due m i _ = 0

abbrev pub reads : Rwlock → (ℕ → Pc) → ℕ → Bool
reads m pc i = holder read (pc i) (elem i m.reader_queue)

abbrev pub writes : Rwlock → (ℕ → Pc) → ℕ → Bool
writes m pc i = holder write (pc i) (elem i m.writer_queue)

pub record Inv (shares : List ℕ) (m : Rwlock) (pc : ℕ → Pc) (msgs : ℕ → ℕ) : Type 0 where
  pub distinct_readers : Distinct m.reader_queue
  pub distinct_writers : Distinct m.writer_queue
  pub queued_readers : (i : ℕ) → elem i m.reader_queue ≡ true → may_queue read (pc i) ≡ true
  pub queued_writers : (i : ℕ) → elem i m.writer_queue ≡ true → may_queue write (pc i) ≡ true
  pub sent : (i : ℕ) → msgs i ≡ due m i (pc i)
  pub counted : m.readers ≡ length shares
  pub shared : (i : ℕ) → reads m pc i ≡ true → elem i shares ≡ true
  pub unique : (i j : ℕ) → writes m pc i ≡ true → writes m pc j ≡ true → i ≡ j
  pub exclusive : (i : ℕ) → writes m pc i ≡ true → m.readers ≡ 0
  pub held_write : (i : ℕ) → writes m pc i ≡ true → m.held ≡ true
  pub held_read : 0 < m.readers → m.held ≡ true
  pub waited_readers : (i : ℕ) → elem i m.reader_queue ≡ true → m.held ≡ true
  pub waited_writers : (i : ℕ) → elem i m.writer_queue ≡ true → m.held ≡ true
  pub no_waiting : 0 < m.readers → m.reader_queue ≡ []
