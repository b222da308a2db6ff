-- ===== src/Rwlock/Invariant/Locking.antt =====
-- Locking a read-write lock keeps the invariant.
use libpthread.Base.{
  ℕ, ◌≡◌, ◌≢◌, sym, subst, Bool, Option, List, [], ◌∷◌, Errno, returns, waits, Timespec, update,
  arith, success, update_same,
}
use libpthread.Rwlock.{Rwlock, timedrdlock, timedwrlock}
use libpthread.Rwlock.System.{read, write, Pc, idle, has, blocked, deliver}
use libpthread.Rwlock.Invariant.{Inv}

-- A call that fails wakes nobody and leaves the lock as it was, but for the spin lock.
pub timedrdlock_error :
    (m : Rwlock) (i : ℕ) (a : Option Timespec) {e : Errno} {ws : List ℕ} {m' : Rwlock}
    → e ≢ success
    → timedrdlock m i a ≡ returns e ws m'
    → (ws ≡ []) × (m' ≡ record m { lock = m'.lock })
unfolding timedrdlock
timedrdlock_error m i a n h = ground arith

pub timedwrlock_error :
    (m : Rwlock) (i : ℕ) (a : Option Timespec) {e : Errno} {ws : List ℕ} {m' : Rwlock}
    → e ≢ success
    → timedwrlock m i a ≡ returns e ws m'
    → (ws ≡ []) × (m' ≡ record m { lock = m'.lock })
unfolding timedwrlock
timedwrlock_error m i a n h = ground arith

module _ {shares : List ℕ} {m : Rwlock} {pc : ℕ → Pc} {msgs : ℕ → ℕ}
    (inv : Inv shares m pc msgs) where
  pub Inv-lock : (b : Bool) → Inv shares (record m { lock = b }) pc msgs
  Inv-lock b = record {
    distinct_readers = inv.distinct_readers;
    distinct_writers = inv.distinct_writers;
    queued_readers = inv.queued_readers;
    queued_writers = inv.queued_writers;
    sent = λ j. ground (arith, inv.sent j);
    counted = inv.counted;
    shared = inv.shared;
    unique = inv.unique;
    exclusive = inv.exclusive;
    held_write = inv.held_write;
    held_read = inv.held_read;
    waited_readers = inv.waited_readers;
    waited_writers = inv.waited_writers;
    no_waiting = inv.no_waiting;
  }

module _ {shares : List ℕ} {m : Rwlock} {pc : ℕ → Pc} {msgs : ℕ → ℕ} (inv : Inv shares m pc msgs)
    (i : ℕ) where
  pub stays-Inv : {p : Pc} → pc i ≡ p → Inv shares m (update pc i p) msgs
  stays-Inv here = subst (λ f. Inv shares m f msgs) (sym (update_same pc i here)) inv

  pub read_success-Inv :
      (a : Option Timespec) {ws : List ℕ} {m' : Rwlock}
      → pc i ≡ idle
      → timedrdlock m i a ≡ returns success ws m'
      → Inv (i ∷ shares) m' (update pc i (has read)) (deliver ws msgs)
  unfolding timedrdlock
  read_success-Inv a here h = record {
    distinct_readers = ground (arith, inv.distinct_readers);
    distinct_writers = ground (arith, inv.distinct_writers);
    queued_readers = λ j p. ground (arith, inv.queued_readers j);
    queued_writers = λ j p. ground (arith, inv.queued_writers j);
    sent = λ j. ground (arith, inv.sent j, inv.sent i);
    counted = ground (arith, inv.counted);
    shared = λ j p. ground (arith, inv.shared j);
    unique = λ j k p q. ground (arith, inv.unique j k);
    exclusive = λ j p. ground (arith, inv.exclusive j, inv.held_write j);
    held_write = λ j p. ground (arith, inv.held_write j);
    held_read = λ p. ground (arith, inv.held_read);
    waited_readers = λ j p. ground (arith, inv.waited_readers j);
    waited_writers = λ j p. ground (arith, inv.waited_writers j);
    no_waiting = λ p. ground (arith, inv.no_waiting);
  }

  pub write_success-Inv :
      (a : Option Timespec) {ws : List ℕ} {m' : Rwlock}
      → pc i ≡ idle
      → timedwrlock m i a ≡ returns success ws m'
      → Inv shares m' (update pc i (has write)) (deliver ws msgs)
  unfolding timedwrlock
  write_success-Inv a here h = record {
    distinct_readers = ground (arith, inv.distinct_readers);
    distinct_writers = ground (arith, inv.distinct_writers);
    queued_readers = λ j p. ground (arith, inv.queued_readers j);
    queued_writers = λ j p. ground (arith, inv.queued_writers j);
    sent = λ j. ground (arith, inv.sent j, inv.sent i);
    counted = ground (arith, inv.counted);
    shared = λ j p. ground (arith, inv.shared j);
    unique = λ j k p q. ground (arith, inv.unique j k, inv.held_write j, inv.held_write k);
    exclusive = λ j p. ground (arith, inv.exclusive j);
    held_write = λ j p. ground (arith, inv.held_write j);
    held_read = λ p. ground (arith, inv.held_read);
    waited_readers = λ j p. ground (arith, inv.waited_readers j);
    waited_writers = λ j p. ground (arith, inv.waited_writers j);
    no_waiting = λ p. ground (arith, inv.no_waiting);
  }

  pub read_waits-Inv :
      (a : Option Timespec) (b : Bool) {m' : Rwlock}
      → pc i ≡ idle
      → timedrdlock m i a ≡ waits m'
      → Inv shares m' (update pc i (blocked read b)) msgs
  unfolding timedrdlock
  read_waits-Inv a b here h = record {
    distinct_readers = ground (arith, inv.distinct_readers);
    distinct_writers = ground (arith, inv.distinct_writers);
    queued_readers = λ j p. ground (arith, inv.queued_readers j);
    queued_writers = λ j p. ground (arith, inv.queued_writers j);
    sent = λ j. ground (arith, inv.sent j, inv.sent i);
    counted = ground (arith, inv.counted);
    shared = λ j p. ground (arith, inv.shared j);
    unique = λ j k p q. ground (arith, inv.unique j k);
    exclusive = λ j p. ground (arith, inv.exclusive j);
    held_write = λ j p. ground (arith, inv.held_write j);
    held_read = λ p. ground (arith, inv.held_read);
    waited_readers = λ j p. ground (arith, inv.waited_readers j);
    waited_writers = λ j p. ground (arith, inv.waited_writers j);
    no_waiting = λ p. ground (arith, inv.no_waiting);
  }

  pub write_waits-Inv :
      (a : Option Timespec) (b : Bool) {m' : Rwlock}
      → pc i ≡ idle
      → timedwrlock m i a ≡ waits m'
      → Inv shares m' (update pc i (blocked write b)) msgs
  unfolding timedwrlock
  write_waits-Inv a b here h = record {
    distinct_readers = ground (arith, inv.distinct_readers);
    distinct_writers = ground (arith, inv.distinct_writers);
    queued_readers = λ j p. ground (arith, inv.queued_readers j);
    queued_writers = λ j p. ground (arith, inv.queued_writers j);
    sent = λ j. ground (arith, inv.sent j, inv.sent i);
    counted = ground (arith, inv.counted);
    shared = λ j p. ground (arith, inv.shared j);
    unique = λ j k p q. ground (arith, inv.unique j k);
    exclusive = λ j p. ground (arith, inv.exclusive j);
    held_write = λ j p. ground (arith, inv.held_write j);
    held_read = λ p. ground (arith, inv.held_read);
    waited_readers = λ j p. ground (arith, inv.waited_readers j);
    waited_writers = λ j p. ground (arith, inv.waited_writers j);
    no_waiting = λ p. ground (arith, inv.no_waiting);
  }
