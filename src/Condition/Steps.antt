-- ===== src/Condition/Steps.antt =====
-- Each step of the threads keeps the invariant of the condition variable.
use libpthread.Base.{
  ℕ, zero, suc, ◌≡◌, refl, subst, Bool, true, false, Option, none, some, Timespec, arith, inl, inr,
  Bool-cases, Option-cases, some_inj, owner_is,
}
use libpthread.Condition.{
  Cond, Thread, is_cancelled, Begun, invalid_time, exits, aborts, queued, begin_wait, cond_settle,
  setcancelstate, setcanceltype,
}
use libpthread.Condition.System.{
  Pc, running, draining, enqueued, blocked, unblocked, closing, locking, System, receive, has_time,
  after_begin, after_settle, after_set, Action, wait, unlock, lock, releases, receives, times_out,
  resettles, drains, closes, relocks, signal, broadcast, testcancel, cancels, setstate, settype,
  act, step, Reach, start, later,
}
use libpthread.Condition.Invariant.{Inv}
use libpthread.Condition.Invariant.Waiting.{
  begins-Inv, releases-Inv, receives-Inv, times_out-Inv, taken-Inv, leaves-Inv, drains-Inv,
  closes-Inv, locks-Inv,
}
use libpthread.Condition.Invariant.Waking.{
  owner-Inv, exits-Inv, setstate-Inv, settype-Inv, cancel-Inv, signal-Inv, broadcast-Inv,
}

reached : {t u : System} → some u ≡ some t → Inv u → Inv t
reached h v = subst Inv (some_inj h) v

module _ (s t : System) (inv : Inv s) (i : ℕ) where
  begin_by-Inv :
      (a : Option Timespec) (b : Bool) (o : Begun)
      → s.pc i ≡ running
      → begin_wait s.cond (s.thread i) i a ≡ o
      → after_begin s i b o ≡ some t
      → Inv t
  begin_by-Inv a b invalid_time here q h = reached h inv
  begin_by-Inv a b exits here q h = reached h (exits-Inv inv i here)
  begin_by-Inv a b aborts here q h = cc
  begin_by-Inv a b (queued c th clock) here q h = reached h (begins-Inv inv i a b c th clock here q)

  receive_by-Inv :
      (k : ℕ) (b : Bool)
      → s.msgs i ≡ k
      → s.pc i ≡ blocked b
      → receive s i (unblocked false) ≡ some t
      → Inv t
  receive_by-Inv zero b q here h = absurd (ground arith)
  receive_by-Inv (suc k) b q here h = reached (ground arith) (receives-Inv inv i b k here q)

  drain_by-Inv :
      (k : ℕ) → s.msgs i ≡ k → s.pc i ≡ draining → receive s i (closing true) ≡ some t → Inv t
  drain_by-Inv zero q here h = absurd (ground arith)
  drain_by-Inv (suc k) q here h = reached (ground arith) (drains-Inv inv i k here q)

  settle_by-Inv :
      (e : Bool) (o : Option (Cond × Bool))
      → s.pc i ≡ unblocked e
      → cond_settle s.cond i e ≡ o
      → after_settle s i e o ≡ some t
      → Inv t
  settle_by-Inv e none here q h = cc
  settle_by-Inv e (some (c, true)) here q h = reached h (taken-Inv inv i e c here q)
  settle_by-Inv e (some (c, false)) here q h = reached h (leaves-Inv inv i e c here q)

  setstate_by-Inv :
      (n : ℕ) (o : Option (Thread × ℕ))
      → s.pc i ≡ running
      → setcancelstate (s.thread i) n ≡ o
      → after_set s i o ≡ some t
      → Inv t
  setstate_by-Inv n none here q h = reached h inv
  setstate_by-Inv n (some (th, old)) here q h = reached h (setstate-Inv inv i n old th here q)

  settype_by-Inv :
      (n : ℕ) (o : Option (Thread × ℕ))
      → s.pc i ≡ running
      → setcanceltype (s.thread i) n ≡ o
      → after_set s i o ≡ some t
      → Inv t
  settype_by-Inv n none here q h = reached h inv
  settype_by-Inv n (some (th, old)) here q h = reached h (settype-Inv inv i n old th here q)

  -- The mutex is free, or locked by another thread.
  lock_by-Inv : s.pc i ≡ running → act lock running s i ≡ some t → Inv t
  unfolding act
  lock_by-Inv here h = elim (Option-cases s.owner) [
    | inl n ↦ reached (ground arith) (owner-Inv inv i (some i))
    | inr (j, e) ↦ absurd (ground arith)
  ]

  relock_by-Inv :
      (c e : Bool) → s.pc i ≡ locking c e → act relocks (locking c e) s i ≡ some t → Inv t
  unfolding act
  relock_by-Inv c e here h = elim (Option-cases s.owner) [
    | inl n ↦ reached (ground arith) (locks-Inv inv i (some i) c e here)
    | inr (j, q) ↦ absurd (ground arith)
  ]

  unlock_by-Inv : act unlock running s i ≡ some t → Inv t
  unfolding act
  unlock_by-Inv h = elim (Bool-cases (owner_is s.owner i)) [
    | inl q ↦ reached (ground arith) (owner-Inv inv i none)
    | inr q ↦ absurd (ground arith)
  ]

  wait_by-Inv : (a : Option Timespec) → s.pc i ≡ running → act (wait a) running s i ≡ some t → Inv t
  unfolding act
  wait_by-Inv a here h = elim (Bool-cases (owner_is s.owner i)) [
    | inl q ↦ begin_by-Inv a (has_time a) _ here refl (ground arith)
    | inr q ↦ absurd (ground arith)
  ]

  testcancel_by-Inv : s.pc i ≡ running → act testcancel running s i ≡ some t → Inv t
  unfolding act
  testcancel_by-Inv here h = elim (Bool-cases (is_cancelled (s.thread i))) [
    | inl q ↦ reached (ground arith) (exits-Inv inv i here)
    | inr q ↦ reached (ground arith) inv
  ]

  act-Inv : (a : Action) (p : Pc) → s.pc i ≡ p → act a p s i ≡ some t → Inv t
  unfolding act
  act-Inv lock running here h = lock_by-Inv here h
  act-Inv unlock running here h = unlock_by-Inv h
  act-Inv (wait a) running here h = wait_by-Inv a here h
  act-Inv releases (enqueued b) here h = reached h (releases-Inv inv i b none here)
  act-Inv receives (blocked b) here h = receive_by-Inv (s.msgs i) b refl here h
  act-Inv times_out (blocked true) here h = reached h (times_out-Inv inv i here)
  act-Inv resettles (unblocked e) here h = settle_by-Inv e _ here refl h
  act-Inv drains draining here h = drain_by-Inv (s.msgs i) refl here h
  act-Inv closes (closing e) here h = reached h (closes-Inv inv i e here)
  act-Inv relocks (locking c e) here h = relock_by-Inv c e here h
  act-Inv signal running here h = reached h (signal-Inv inv s.cond.queue _ _ refl refl)
  act-Inv broadcast running here h = reached h (broadcast-Inv inv)
  act-Inv (cancels j) running here h = reached h (cancel-Inv inv j)
  act-Inv (setstate n) running here h = setstate_by-Inv n _ here refl h
  act-Inv (settype n) running here h = settype_by-Inv n _ here refl h
  act-Inv testcancel running here h = testcancel_by-Inv here h
  act-Inv _ _ here h = cc

pub Reach-Inv : {clock : Option ℕ} {s : System} → Reach clock s → Inv s
unfolding step
Reach-Inv {clock} start = record {
  distinct = tt;
  queued = λ i h. cc;
  sent = λ i. refl;
  hooked = λ i. refl;
  deferred = λ i h. refl;
  prompt = λ i h. refl;
}
Reach-Inv {clock} (later {s} {t} i b r h) = act-Inv s t (Reach-Inv r) i b (s.pc i) refl h
