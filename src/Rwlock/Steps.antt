-- ===== src/Rwlock/Steps.antt =====
-- Each step of the threads of a read-write lock keeps the invariant.
use libpthread.Base.{
  ℕ, zero, suc, ◌≡◌, ◌≢◌, refl, sym, subst, Bool, true, false, Option, none, some, List, [], ◌∷◌,
  elem, Errno, Outcome, returns, aborts, waits, spins, Timespec, update, arith, success, Bool-cases,
  some_inj, inl, inr, ◌⊎◌,
}
use libpthread.Rwlock.{
  Rwlock, timedrdlock, timedwrlock, tryrdlock, trywrlock, settle_reader, settle_writer,
  finish_reader, finish_writer, rwlock_unlock,
}
use libpthread.Rwlock.System.{
  Side, read, write, Pc, idle, has, draining, blocked, unblocked, finishing, System, put, receive,
  after_call, after_settle, after_unlock, Action, lock, try, release, receives, times_out,
  resettles, drains, ends, rw_act, rw_step, Reach, start, later, is_some, locking, trying, settling,
  ending, rw_init,
}
use libpthread.Rwlock.Invariant.{Inv}
use libpthread.Rwlock.Invariant.Locking.{
  Inv-lock, stays-Inv, read_success-Inv, write_success-Inv, read_waits-Inv, write_waits-Inv,
  timedrdlock_error, timedwrlock_error,
}
use libpthread.Rwlock.Invariant.Waiting.{
  receives-Inv, times_out-Inv, drains-Inv, reader_leaves-Inv, writer_leaves-Inv, taken-Inv,
  returns-Inv, fails-Inv,
}
use libpthread.Rwlock.Invariant.Release.{release-Inv}

abbrev pub SystemInv : System → Type 0
SystemInv s = (shares : List ℕ) × Inv shares s.rwlock s.pc s.msgs

reached : {t u : System} → some u ≡ some t → SystemInv u → SystemInv t
reached h v = subst SystemInv (some_inj h) v

trylock_agrees :
    (d : Side) (m : Rwlock) (i : ℕ) (ws : List ℕ) (m' : Rwlock)
    → trying d m ≡ returns success ws m'
    → locking d m i none ≡ returns success ws m'
unfolding tryrdlock trywrlock timedrdlock timedwrlock
trylock_agrees read m i ws m' h = ground arith
trylock_agrees write m i ws m' h = ground arith

trylock_error :
    (d : Side) (m : Rwlock) (e : Errno) (ws : List ℕ) (m' : Rwlock)
    → e ≢ success
    → trying d m ≡ returns e ws m'
    → (ws ≡ []) × (m' ≡ m)
unfolding tryrdlock trywrlock
trylock_error read m e ws m' n h = ground arith
trylock_error write m e ws m' n h = ground arith

trylock_answers : (d : Side) (m m' : Rwlock) → trying d m ≢ waits m'
unfolding tryrdlock trywrlock
trylock_answers read m m' h = ground arith
trylock_answers write m m' h = ground arith

finish_answers : (d : Side) (m m' : Rwlock) (e : Bool) → ending d m e ≢ waits m'
unfolding finish_reader finish_writer
finish_answers read m m' true h = cc
finish_answers read m m' false h = ground arith
finish_answers write m m' true h = cc
finish_answers write m m' false h = ground arith

finish_result :
    (d : Side) (m : Rwlock) (e : Bool) (r : Errno) (ws : List ℕ) (m' : Rwlock)
    → ending d m e ≡ returns r ws m'
    → (m' ≡ m) × (ws ≡ []) × ((r ≡ success) × (e ≡ false) ⊎ (r ≢ success) × (e ≡ true))
unfolding finish_reader finish_writer
finish_result read m true r ws m' h = (cc, cc, inr ((λ k. cc), refl))
finish_result read m false r ws m' h = (ground arith, ground arith, ground arith)
finish_result write m true r ws m' h = (cc, cc, inr ((λ k. cc), refl))
finish_result write m false r ws m' h = (ground arith, ground arith, ground arith)

module _ (s t : System) {shares : List ℕ} (inv : Inv shares s.rwlock s.pc s.msgs) (i : ℕ) where
  -- A call's outcome, by cases.
  call-Inv :
      (d : Side) (b : Bool) (o : Outcome Rwlock)
      → ((ws : List ℕ) (m : Rwlock) → o ≡ returns success ws m → SystemInv (put s i (has d) m ws))
      → ((e : Errno) (ws : List ℕ) (m : Rwlock)
          → e ≢ success
          → o ≡ returns e ws m
          → SystemInv (put s i idle m ws))
      → ((m : Rwlock) → o ≡ waits m → SystemInv (put s i (blocked d b) m []))
      → after_call s i d b o ≡ some t
      → SystemInv t
  call-Inv d b (returns success ws m) p q r h = reached h (p ws m refl)
  call-Inv d b (returns e ws m) p q r h = reached h (q e ws m (λ k. cc) refl)
  call-Inv d b (waits m) p q r h = reached h (r m refl)
  call-Inv d b spins p q r h = cc
  call-Inv d b aborts p q r h = cc

  -- A failed call leaves all but the spin lock.
  failed-Inv :
      (ws : List ℕ) (m : Rwlock) (p : Pc)
      → s.pc i ≡ p
      → (ws ≡ []) × (m ≡ record (s.rwlock) { lock = m.lock })
      → SystemInv (put s i p m ws)
  failed-Inv ws m p here (w, e) =
      subst (λ v. SystemInv (put s i p m v)) (sym w)
        (subst (λ v. SystemInv (put s i p v [])) (sym e)
          (shares, stays-Inv (Inv-lock inv m.lock) i here))

  lock-Inv :
      (d : Side) (a : Option Timespec)
      → s.pc i ≡ idle
      → after_call s i d (is_some a) (locking d s.rwlock i a) ≡ some t
      → SystemInv t
  lock-Inv read a here h =
      call-Inv read (is_some a) (timedrdlock s.rwlock i a)
        (λ ws m q. (i ∷ shares, read_success-Inv inv i a here q))
        (λ e ws m n q. failed-Inv ws m idle here (timedrdlock_error s.rwlock i a n q))
        (λ m q. (shares, read_waits-Inv inv i a _ here q)) h
  lock-Inv write a here h =
      call-Inv write (is_some a) (timedwrlock s.rwlock i a)
        (λ ws m q. (shares, write_success-Inv inv i a here q))
        (λ e ws m n q. failed-Inv ws m idle here (timedwrlock_error s.rwlock i a n q))
        (λ m q. (shares, write_waits-Inv inv i a _ here q)) h

  try_success-Inv :
      (d : Side) (ws : List ℕ) (m : Rwlock)
      → s.pc i ≡ idle
      → trying d s.rwlock ≡ returns success ws m
      → SystemInv (put s i (has d) m ws)
  try_success-Inv read ws m here q =
      (i ∷ shares, read_success-Inv inv i none here (trylock_agrees read s.rwlock i ws m q))
  try_success-Inv write ws m here q =
      (shares, write_success-Inv inv i none here (trylock_agrees write s.rwlock i ws m q))

  try-Inv :
      (d : Side) → s.pc i ≡ idle → after_call s i d false (trying d s.rwlock) ≡ some t → SystemInv t
  try-Inv d here h =
      call-Inv d false (trying d s.rwlock) (λ ws m q. try_success-Inv d ws m here q)
        (λ e ws m n q.
          let (w, k) = trylock_error d s.rwlock e ws m n q in
          failed-Inv ws m idle here (w, ground arith))
        (λ m q. absurd (trylock_answers d s.rwlock m q)) h

  unlock-Inv :
      (d : Side) (o : Outcome Rwlock)
      → s.pc i ≡ has d
      → rwlock_unlock s.rwlock ≡ o
      → after_unlock s i o ≡ some t
      → SystemInv t
  unlock-Inv d (returns success ws m) here q h = reached h (release-Inv inv i d here q)
  unlock-Inv d (waits m) here q h = cc
  unlock-Inv d _ here q h = cc

  receive-Inv :
      (p : Pc) (n : ℕ)
      → s.msgs i ≡ n
      → ((k : ℕ)
          → n ≡ suc k
          → SystemInv (record s { pc = update s.pc i p; msgs = update s.msgs i k }))
      → receive s i p ≡ some t
      → SystemInv t
  receive-Inv p zero e f h = absurd (ground arith)
  receive-Inv p (suc k) e f h = reached (ground arith) (f k refl)

  settle-Inv :
      (d : Side) (e : Bool)
      → s.pc i ≡ unblocked d e
      → after_settle s i d e (settling d s.rwlock i e) ≡ some t
      → SystemInv t
  unfolding settle_reader settle_writer
  settle-Inv read e here h = elim (Bool-cases (elem i s.rwlock.reader_queue)) [
    | inl q ↦ reached (ground arith) (shares, reader_leaves-Inv inv i e here q)
    | inr q ↦ reached (ground arith) (shares, taken-Inv inv i read e here q)
  ]
  settle-Inv write e here h = elim (Bool-cases (elem i s.rwlock.writer_queue)) [
    | inl q ↦ reached (ground arith) (shares, writer_leaves-Inv inv i e here q)
    | inr q ↦ reached (ground arith) (shares, taken-Inv inv i write e here q)
  ]

  ended-Inv :
      (ws : List ℕ) (m : Rwlock) (p : Pc)
      → (m ≡ s.rwlock) × (ws ≡ [])
      → Inv shares s.rwlock (update s.pc i p) s.msgs
      → SystemInv (put s i p m ws)
  ended-Inv ws m p (e, w) v =
      subst (λ l. SystemInv (put s i p m l)) (sym w)
        (subst (λ n. SystemInv (put s i p n [])) (sym e) (shares, v))

  finish-Inv :
      (d : Side) (e : Bool)
      → s.pc i ≡ finishing d e
      → after_call s i d false (ending d s.rwlock e) ≡ some t
      → SystemInv t
  finish-Inv d true here h =
      call-Inv d false (ending d s.rwlock true)
        (λ ws m q. absurd (ground (arith, finish_result d s.rwlock true success ws m q)))
        (λ e ws m n q.
          let r = finish_result d s.rwlock true e ws m q in
          ended-Inv ws m idle (r.0, r.1) (fails-Inv inv i d here))
        (λ m q. absurd (finish_answers d s.rwlock m true q)) h
  finish-Inv d false here h =
      call-Inv d false (ending d s.rwlock false)
        (λ ws m q.
          let r = finish_result d s.rwlock false success ws m q in
          ended-Inv ws m (has d) (r.0, r.1) (returns-Inv inv i d here))
        (λ e ws m n q. absurd (ground (arith, finish_result d s.rwlock false e ws m q)))
        (λ m q. absurd (finish_answers d s.rwlock m false q)) h

  act-Inv : (a : Action) (p : Pc) → s.pc i ≡ p → rw_act a p s i ≡ some t → SystemInv t
  unfolding rw_act
  act-Inv (lock d a) idle here h = lock-Inv d a here h
  act-Inv (try d) idle here h = try-Inv d here h
  act-Inv release (has d) here h = unlock-Inv d (rwlock_unlock s.rwlock) here refl h
  act-Inv receives (blocked d b) here h =
      receive-Inv (unblocked d false) (s.msgs i) refl
        (λ k q. (shares, receives-Inv inv i d b k here q)) h
  act-Inv times_out (blocked d true) here h = reached h (shares, times_out-Inv inv i d here)
  act-Inv resettles (unblocked d e) here h = settle-Inv d e here h
  act-Inv drains (draining d) here h =
      receive-Inv (finishing d true) (s.msgs i) refl (λ k q. (shares, drains-Inv inv i d k here q))
        h
  act-Inv ends (finishing d e) here h = finish-Inv d e here h
  act-Inv _ _ here h = cc

init-Inv : SystemInv rw_init
init-Inv = (
  [],
  record {
    distinct_readers = tt;
    distinct_writers = tt;
    queued_readers = λ i h. cc;
    queued_writers = λ i h. cc;
    sent = λ i. refl;
    counted = refl;
    shared = λ i h. cc;
    unique = λ i j h k. cc;
    exclusive = λ i h. refl;
    held_write = λ i h. cc;
    held_read = λ h. absurd (omega arith);
    waited_readers = λ i h. cc;
    waited_writers = λ i h. cc;
    no_waiting = λ h. refl;
  },
)

pub Reach-Inv : {s : System} → Reach s → SystemInv s
unfolding rw_step
Reach-Inv start = init-Inv
Reach-Inv (later {s} {t} i b r h) =
    let (shares, inv) = Reach-Inv r in act-Inv s t inv i b (s.pc i) refl h
