-- ===== src/Mutex/Invariant/Trying.antt =====
-- Each section of the mutex code keeps the invariant of the system.
use libpthread.Base.{
  ℕ, ◌≡◌, ◌≢◌, List, Errno, subst, sym, returns, update, arith, success, ◌+◌, ◌<◌, uint_mod,
}
use libpthread.Mutex.{Mutex, trylock}
use libpthread.Mutex.System.{Pc, idle, owning, deliver}
use libpthread.Mutex.Sections.{trylock_error}
use libpthread.Mutex.Invariant.{Inv}

module _ {m : Mutex} {pc : ℕ → Pc} {msgs : ℕ → ℕ} (inv : Inv m pc msgs) (i : ℕ) where
  pub try_success-Inv :
      {ws : List ℕ} {m' : Mutex}
      → pc i ≡ idle
      → trylock m i ≡ returns success ws m'
      → Inv m' (update pc i (owning 0)) (deliver ws msgs)
  unfolding trylock
  try_success-Inv here h = record {
    distinct = ground (arith, inv.distinct);
    queued = λ j p. ground (arith, inv.queued j);
    sent = λ j. ground (arith, inv.sent j, inv.sent i, inv.queued i, inv.queued j);
    unique =
        λ j k p q. ground (arith, inv.unique j k, inv.held j, inv.held k, inv.owned j, inv.owned k);
    held = λ j p. ground (arith, inv.held j);
    waited = λ j p. ground (arith, inv.waited j);
    owned = λ j k p. ground (arith, inv.held j, inv.owned j);
    named = ground (arith, inv.named);
    fresh = λ j k p. ground (arith, inv.held j, inv.fresh j, inv.owned j);
    counted = λ j d k p.
        ground (arith, inv.counted j d, inv.held j, inv.single j d, inv.owned j, inv.spare i);
    single = λ j d k p. ground (arith, inv.single j d, inv.held j);
    spare = λ j k o p. ground (arith, inv.spare j);
  }

  pub retry-Inv :
      {n : ℕ} {ws : List ℕ} {m' : Mutex}
      → pc i ≡ owning n
      → n + 2 < uint_mod
      → trylock m i ≡ returns success ws m'
      → Inv m' (update pc i (owning (n + 1))) (deliver ws msgs)
  unfolding trylock
  retry-Inv {n} here b h = record {
    distinct = ground (arith, inv.distinct);
    queued = λ j p. ground (arith, inv.queued j);
    sent = λ j. ground (arith, inv.sent j, inv.sent i, inv.queued i, inv.queued j);
    unique =
        λ j k p q. ground (arith, inv.unique j k, inv.held j, inv.held k, inv.owned j, inv.owned k);
    held = λ j p. ground (arith, inv.held j);
    waited = λ j p. ground (arith, inv.waited j);
    owned = λ j k p. ground (arith, inv.held j, inv.owned j);
    named = ground (arith, inv.named);
    fresh = λ j k p. ground (arith, inv.held j, inv.fresh j, inv.owned j);
    counted = λ j d k p. ground (
      arith,
      inv.counted j d,
      inv.held j,
      inv.single j d,
      inv.owned j,
      inv.counted i n,
      inv.single i n,
      inv.held i,
      inv.owned i,
      inv.unique i j,
    );
    single = λ j d k p. ground (
      arith,
      inv.single j d,
      inv.held j,
      inv.counted i n,
      inv.single i n,
      inv.held i,
      inv.owned i,
      inv.unique i j,
    );
    spare = λ j k o p. ground (arith, inv.spare j);
  }

  pub try_error-Inv :
      {e : Errno} {ws : List ℕ} {m' : Mutex}
      → e ≢ success
      → trylock m i ≡ returns e ws m'
      → Inv m' pc (deliver ws msgs)
  unfolding trylock
  try_error-Inv {m'} n h =
      let (w, q) = trylock_error m i n h in
      subst (λ v. Inv m' pc (deliver v msgs)) (sym w) (subst (λ v. Inv v pc msgs) (sym q) inv)
