-- ===== src/Mutex/Invariant/Release.antt =====
-- Each section of the mutex code keeps the invariant of the system.
use libpthread.Base.{
  ℕ, ◌≡◌, ◌≢◌, List, Distinct, Errno, ◌⊎◌, inl, inr, ◌∷◌, true, returns, update, arith, owner_is,
  false,
}
use libpthread.Mutex.{Mutex, timed, recursive, mutex_type, unlock}
use libpthread.Mutex.System.{Pc, idle, owning, after_unlock, deliver}
use libpthread.Mutex.Invariant.{Inv, holds}

unlock-Distinct :
    (m : Mutex) (i : ℕ) {e : Errno} {ws : List ℕ} {m' : Mutex}
    → Distinct m.queue
    → unlock m i ≡ returns e ws m'
    → Distinct m'.queue
unfolding unlock
unlock-Distinct m i d h = ground arith

module _ {m : Mutex} {pc : ℕ → Pc} {msgs : ℕ → ℕ} (inv : Inv m pc msgs) (i : ℕ) where
  -- Who holds the lock afterwards held it before, or has been handed it.
  unlock-holds :
      {e : Errno} {n : ℕ} {ws : List ℕ} {m' : Mutex}
      → pc i ≡ owning n
      → unlock m i ≡ returns e ws m'
      → (l : ℕ) → holds m' (update pc i (after_unlock e n)) l ≡ true
      → (holds m pc l ≡ true) ⊎ ((after_unlock e n ≡ idle) × (i ≢ l) × (m.queue ≡ l ∷ m'.queue))
  unfolding unlock
  unlock-holds {n} here h l p = ground (arith, inv.counted i n, inv.single i n, inv.owned i)

  unlock_unique :
      {e : Errno} {n : ℕ} {ws : List ℕ} {m' : Mutex}
      → pc i ≡ owning n
      → unlock m i ≡ returns e ws m'
      → (j k : ℕ) → holds m' (update pc i (after_unlock e n)) j ≡ true
      → holds m' (update pc i (after_unlock e n)) k ≡ true
      → j ≡ k
  unlock_unique here h j k p q = elim (unlock-holds here h j p) [
    | inl x ↦ elim (unlock-holds here h k q) [
      | inl y ↦ inv.unique j k x y
      | inr (y, n, _) ↦ absurd (ground (arith, inv.unique i j))
    ]
    | inr (x, n, f) ↦ elim (unlock-holds here h k q) [
      | inl y ↦ absurd (ground (arith, inv.unique i k))
      | inr (_, _, g) ↦ ground arith
    ]
  ]

  -- A thread that has the lock unlocks.
  pub release-Inv :
      {e : Errno} {n : ℕ} {ws : List ℕ} {m' : Mutex}
      → pc i ≡ owning n
      → unlock m i ≡ returns e ws m'
      → Inv m' (update pc i (after_unlock e n)) (deliver ws msgs)
  unfolding unlock
  release-Inv {n} here h = record {
    distinct = unlock-Distinct m i inv.distinct h;
    queued = λ j p. ground (arith, inv.distinct, inv.queued j, inv.queued i);
    sent = λ j. ground (arith, inv.distinct, inv.sent j, inv.sent i, inv.queued j);
    unique = unlock_unique here h;
    held = λ j p.
        ground (arith, inv.unique i j, inv.held j, inv.held i, inv.counted i n, inv.single i n);
    waited = λ j p.
        ground (arith, inv.distinct, inv.waited j, inv.held i, inv.counted i n, inv.single i n);
    owned = λ j k p.
        ground (arith, inv.unique i j, inv.owned j, inv.owned i, inv.counted i n, inv.single i n);
    named = ground (arith, inv.named);
    fresh = λ j k p.
        ground (arith, inv.unique i j, inv.fresh j, inv.fresh i, inv.counted i n, inv.single i n);
    counted = λ j d k p. ground (
      arith,
      inv.counted j d,
      inv.unique i j,
      inv.held j,
      inv.single j d,
      inv.owned j,
      inv.owned i,
      inv.counted i n,
      inv.single i n,
    );
    single = λ j d k p. ground (arith, inv.single j d, inv.single i n);
    spare = λ j k o p. ground (arith, inv.spare j, inv.counted i n, inv.owned i, inv.held i);
  }

  -- A thread that does not have it calls unlock.
  pub release_idle-Inv :
      {e : Errno} {ws : List ℕ} {m' : Mutex}
      → pc i ≡ idle
      → mutex_type m ≢ timed
      → (mutex_type m ≡ recursive → owner_is m.owner i ≡ false)
      → unlock m i ≡ returns e ws m'
      → Inv m' (update pc i idle) (deliver ws msgs)
  unfolding unlock
  release_idle-Inv here k g h = record {
    distinct = unlock-Distinct m i inv.distinct h;
    queued = λ j p. ground (arith, inv.distinct, inv.queued j, inv.queued i, k);
    sent = λ j. ground (arith, inv.distinct, inv.sent j, inv.sent i, inv.queued j, k);
    unique = λ j l p q. ground (arith, inv.unique j l, inv.owned j k, inv.owned l k);
    held = λ j p. ground (arith, inv.held j, inv.owned j k, inv.waited j);
    waited = λ j p. ground (arith, inv.distinct, inv.waited j);
    owned = λ j l p. ground (arith, inv.owned j k);
    named = ground (arith, inv.named);
    fresh = λ j l p. ground (arith, inv.fresh j, inv.owned j k, inv.owned j);
    counted = λ j d k p. ground (arith, inv.counted j d, inv.held j, inv.single j d, inv.owned j);
    single = λ j d k p. ground (arith, inv.single j d, inv.held j);
    spare = λ j k o p. ground (arith, inv.spare j);
  }
