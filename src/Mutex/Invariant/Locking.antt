-- ===== src/Mutex/Invariant/Locking.antt =====
-- Each section of the mutex code keeps the invariant of the system.
use libpthread.Base.{
  ℕ, ◌≡◌, ◌≢◌, Bool, Option, List, Errno, subst, sym, returns, waits, Timespec, update, arith,
  success, ◌+◌, ◌<◌, uint_mod,
}
use libpthread.Mutex.{Mutex, timed, mutex_type, timedlock}
use libpthread.Mutex.System.{Pc, idle, owning, blocked, deliver}
use libpthread.Mutex.Sections.{timedlock_error}
use libpthread.Mutex.Invariant.{Inv}

-- The spin lock is no part of the invariant.
Inv-lock :
    {m : Mutex} {pc : ℕ → Pc} {msgs : ℕ → ℕ}
    → Inv m pc msgs
    → (b : Bool) → Inv (record m { lock = b }) pc msgs
Inv-lock inv b = record {
  distinct = inv.distinct;
  queued = inv.queued;
  sent = inv.sent;
  unique = inv.unique;
  held = inv.held;
  waited = inv.waited;
  owned = inv.owned;
  named = inv.named;
  fresh = inv.fresh;
  counted = inv.counted;
  single = inv.single;
  spare = inv.spare;
}

module _ {m : Mutex} {pc : ℕ → Pc} {msgs : ℕ → ℕ} (inv : Inv m pc msgs) (i : ℕ)
    (a : Option Timespec) where
  pub lock_success-Inv :
      {ws : List ℕ} {m' : Mutex}
      → pc i ≡ idle
      → timedlock m i a ≡ returns success ws m'
      → Inv m' (update pc i (owning 0)) (deliver ws msgs)
  unfolding timedlock
  lock_success-Inv here h = record {
    distinct = ground (arith, inv.distinct);
    queued = λ j p. ground (arith, inv.queued j);
    sent = λ j. ground (arith, inv.sent j, inv.sent i, inv.queued i, inv.queued j);
    unique =
        λ j k p q. ground (arith, inv.unique j k, inv.held j, inv.held k, inv.owned j, inv.owned k);
    held = λ j p. ground (arith, inv.held j);
    waited = λ j p. ground (arith, inv.waited j);
    owned = λ j k p. ground (arith, inv.held j, inv.owned j);
    named = ground (arith, inv.named);
    fresh = λ j k p. ground (arith, inv.held j, inv.fresh j, inv.owned j);
    counted = λ j d k p.
        ground (arith, inv.counted j d, inv.held j, inv.single j d, inv.owned j, inv.spare i);
    single = λ j d k p. ground (arith, inv.single j d, inv.held j);
    spare = λ j k o p. ground (arith, inv.spare j);
  }

  pub lock_error-Inv :
      {e : Errno} {ws : List ℕ} {m' : Mutex}
      → e ≢ success
      → timedlock m i a ≡ returns e ws m'
      → Inv m' pc (deliver ws msgs)
  lock_error-Inv {m'} n h =
      let (w, q) = timedlock_error m i a n h in
      subst (λ v. Inv m' pc (deliver v msgs)) (sym w)
        (subst (λ v. Inv v pc msgs) (sym q) (Inv-lock inv m'.lock))

  pub lock_waits-Inv :
      (b : Bool) {m' : Mutex}
      → pc i ≡ idle
      → timedlock m i a ≡ waits m'
      → Inv m' (update pc i (blocked b)) msgs
  unfolding timedlock
  lock_waits-Inv b here h = record {
    distinct = ground (arith, inv.distinct);
    queued = λ j p. ground (arith, inv.queued j);
    sent = λ j. ground (arith, inv.sent j, inv.sent i, inv.queued i, inv.queued j);
    unique = λ j k p q. ground (arith, inv.unique j k);
    held = λ j p. ground (arith, inv.held j);
    waited = λ j p. ground (arith, inv.waited j);
    owned = λ j k p. ground (arith, inv.owned j);
    named = ground (arith, inv.named);
    fresh = λ j k p. ground (arith, inv.fresh j);
    counted = λ j d k p.
        ground (arith, inv.counted j d, inv.held j, inv.single j d, inv.owned j, inv.spare i);
    single = λ j d k p. ground (arith, inv.single j d, inv.held j);
    spare = λ j k o p. ground (arith, inv.spare j);
  }

  pub relock-Inv :
      {n : ℕ} {ws : List ℕ} {m' : Mutex}
      → pc i ≡ owning n
      → n + 2 < uint_mod
      → timedlock m i a ≡ returns success ws m'
      → Inv m' (update pc i (owning (n + 1))) (deliver ws msgs)
  unfolding timedlock
  relock-Inv {n} here b h = record {
    distinct = ground (arith, inv.distinct);
    queued = λ j p. ground (arith, inv.queued j);
    sent = λ j. ground (arith, inv.sent j);
    unique = λ j k p q. ground (arith, inv.unique j k);
    held = λ j p. ground (arith, inv.held j);
    waited = λ j p. ground (arith, inv.waited j);
    owned = λ j k p. ground (arith, inv.held i, inv.owned j);
    named = ground (arith, inv.named);
    fresh = λ j k p. ground (arith, inv.held i, inv.fresh j, inv.unique i j);
    counted = λ j d k p. ground (
      arith,
      inv.counted j d,
      inv.held j,
      inv.single j d,
      inv.owned j,
      inv.counted i n,
      inv.single i n,
      inv.held i,
      inv.owned i,
      inv.unique i j,
    );
    single = λ j d k p. ground (
      arith,
      inv.single j d,
      inv.held j,
      inv.counted i n,
      inv.single i n,
      inv.held i,
      inv.owned i,
      inv.unique i j,
    );
    spare = λ j k o p. ground (arith, inv.spare j);
  }

  -- A thread that has the lock does not wait for it.
  pub relock_waits :
      {n : ℕ} {m' : Mutex} → pc i ≡ owning n → mutex_type m ≢ timed → timedlock m i a ≡ waits m' → ⊥
  unfolding timedlock
  relock_waits here k h = ground (arith, inv.held i, inv.owned i k)
