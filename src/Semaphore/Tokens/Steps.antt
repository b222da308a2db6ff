-- ===== src/Semaphore/Tokens/Steps.antt =====
-- Each step of the threads of a semaphore keeps the balance of its tokens.
use libpthread.Base.{
  ℕ, zero, suc, ◌+◌, ◌≡◌, ◌≢◌, refl, sym, subst, Bool, true, false, Option, none, some, List, [],
  ◌∷◌, ◌++◌, elem, Errno, Outcome, returns, waits, Timespec, update, arith, success,
  elem-remove_other, elem-remove_self, remove-Distinct, length-remove, remove, inl, inr, Bool-cases,
  some_inj, if◌then◌else◌, update_same,
}
use libpthread.Semaphore.{Semaphore, sem_timedwait, sem_trywait, sem_post, sem_settle, sem_finish}
use libpthread.Semaphore.System.{
  System, Pc, idle, draining, blocked, unblocked, finishing, at, deliver, after_wait, after_post,
  after_settle, after_finish, woken, drained, Action, wait, try, post, receives, times_out,
  resettles, drains, ends, sem_act, sem_step, Reach, start, later, is_some,
}
use libpthread.Semaphore.Tokens.{Inv}

module _ {n : ℕ} {s : System} (inv : Inv n s) (i : ℕ) where
  takes-Inv :
      (a : Option Timespec) (ws : List ℕ) (m : Semaphore)
      → s.pc i ≡ idle
      → sem_timedwait s.sem i a ≡ returns success ws m
      → Inv n (record s { sem = m; pc = update s.pc i idle; takes = s.takes + 1 })
  unfolding sem_timedwait
  takes-Inv a ws m here h = record {
    distinct = ground (arith, inv.distinct);
    queued = λ j p. ground (arith, inv.queued j);
    sent = λ j. ground (arith, inv.sent j, inv.sent i);
    no_waiting = λ p. ground (arith, inv.no_waiting);
    owed_distinct = inv.owed_distinct;
    owes = λ j. ground (arith, inv.owes j);
    balance = ground (arith, inv.balance);
  }

  fails-Inv :
      (a : Option Timespec) (e : Errno) (ws : List ℕ) (m : Semaphore)
      → s.pc i ≡ idle
      → e ≢ success
      → sem_timedwait s.sem i a ≡ returns e ws m
      → Inv n (at s i idle m)
  unfolding sem_timedwait
  fails-Inv a e ws m here k h = record {
    distinct = ground (arith, inv.distinct);
    queued = λ j p. ground (arith, inv.queued j);
    sent = λ j. ground (arith, inv.sent j, inv.sent i);
    no_waiting = λ p. ground (arith, inv.no_waiting);
    owed_distinct = inv.owed_distinct;
    owes = λ j. ground (arith, inv.owes j);
    balance = ground (arith, inv.balance);
  }

  queues-Inv :
      (a : Option Timespec) (b : Bool) (m : Semaphore)
      → s.pc i ≡ idle
      → sem_timedwait s.sem i a ≡ waits m
      → Inv n (at s i (blocked b) m)
  unfolding sem_timedwait
  queues-Inv a b m here h = record {
    distinct = ground (arith, inv.distinct);
    queued = λ j p. ground (arith, inv.queued j);
    sent = λ j. ground (arith, inv.sent j, inv.sent i);
    no_waiting = λ p. ground (arith, inv.no_waiting);
    owed_distinct = inv.owed_distinct;
    owes = λ j. ground (arith, inv.owes j);
    balance = ground (arith, inv.balance);
  }

  same-Inv : (p : Pc) → s.pc i ≡ p → Inv n (at s i p s.sem)
  same-Inv p here = subst (λ f. Inv n (record s { pc = f })) (sym (update_same s.pc i here)) inv

  posts-Inv :
      (ws q : List ℕ) (m : Semaphore)
      → s.sem.queue ≡ q
      → sem_post s.sem ≡ returns success ws m
      → Inv n
          (record s { sem = m; msgs = deliver ws s.msgs; posts = s.posts + 1; owed = ws ++ s.owed })
  unfolding sem_post
  posts-Inv ws [] m e h = record {
    distinct = ground (arith, inv.distinct);
    queued = λ j p. ground (arith, inv.queued j);
    sent = λ j. ground (arith, inv.sent j, inv.sent i);
    no_waiting = λ p. ground (arith, inv.no_waiting);
    owed_distinct = ground (arith, inv.owed_distinct);
    owes = λ j. ground (arith, inv.owes j);
    balance = ground (arith, inv.balance);
  }
  posts-Inv ws (t ∷ ts) m e h = record {
    distinct = ground (arith, inv.distinct, inv.no_waiting);
    queued = λ j p. ground (arith, inv.queued j, inv.no_waiting);
    sent = λ j. ground (arith, inv.sent j, inv.distinct, inv.queued t, inv.no_waiting);
    no_waiting = λ p. ground (arith, inv.no_waiting);
    owed_distinct = ground (arith, inv.owed_distinct, inv.owes t, inv.queued t, inv.no_waiting);
    owes = λ j. ground (arith, inv.owes j, inv.distinct, inv.queued t, inv.no_waiting);
    balance = ground (arith, inv.balance, inv.no_waiting);
  }

  woken-Inv :
      (b : Bool) (k : ℕ)
      → s.pc i ≡ blocked b
      → s.msgs i ≡ suc k
      → Inv n (record s { pc = update s.pc i (unblocked false); msgs = update s.msgs i k })
  woken-Inv b k here h = record {
    distinct = ground (arith, inv.distinct);
    queued = λ j p. ground (arith, inv.queued j, inv.sent i);
    sent = λ j. ground (arith, inv.sent j, inv.sent i);
    no_waiting = inv.no_waiting;
    owed_distinct = inv.owed_distinct;
    owes = λ j. ground (arith, inv.owes j);
    balance = inv.balance;
  }

  late-Inv : s.pc i ≡ blocked true → Inv n (at s i (unblocked true) s.sem)
  late-Inv here = record {
    distinct = ground (arith, inv.distinct);
    queued = λ j p. ground (arith, inv.queued j);
    sent = λ j. ground (arith, inv.sent j, inv.sent i);
    no_waiting = inv.no_waiting;
    owed_distinct = inv.owed_distinct;
    owes = λ j. ground (arith, inv.owes j);
    balance = inv.balance;
  }

  leaves-Inv :
      (e : Bool)
      → s.pc i ≡ unblocked e
      → elem i s.sem.queue ≡ true
      → Inv n (at s i (finishing e) (record (s.sem) { queue = remove i s.sem.queue }))
  leaves-Inv e here h =
      let gone = elem-remove_self i s.sem.queue inv.distinct in
      let others = λ (j : ℕ) (k : i ≢ j). elem-remove_other i j s.sem.queue k in
      record {
        distinct = remove-Distinct i s.sem.queue inv.distinct;
        queued = λ j p. ground (arith, inv.queued j, others j);
        sent = λ j. ground (arith, inv.sent j, others j, inv.queued i);
        no_waiting = λ p. ground (arith, inv.no_waiting p);
        owed_distinct = inv.owed_distinct;
        owes = λ j. ground (arith, inv.owes j, others j, inv.queued i);
        balance = inv.balance;
      }

  taken-Inv :
      (e : Bool)
      → s.pc i ≡ unblocked e
      → elem i s.sem.queue ≡ false
      → Inv n (at s i (if e then draining else finishing e) s.sem)
  taken-Inv true here h = record {
    distinct = ground (arith, inv.distinct);
    queued = λ j p. ground (arith, inv.queued j);
    sent = λ j. ground (arith, inv.sent j, inv.sent i);
    no_waiting = inv.no_waiting;
    owed_distinct = inv.owed_distinct;
    owes = λ j. ground (arith, inv.owes j);
    balance = inv.balance;
  }
  taken-Inv false here h = record {
    distinct = ground (arith, inv.distinct);
    queued = λ j p. ground (arith, inv.queued j);
    sent = λ j. ground (arith, inv.sent j, inv.sent i);
    no_waiting = inv.no_waiting;
    owed_distinct = inv.owed_distinct;
    owes = λ j. ground (arith, inv.owes j);
    balance = inv.balance;
  }

  drained-Inv :
      (k : ℕ)
      → s.pc i ≡ draining
      → s.msgs i ≡ suc k
      → Inv n (record s {
        pc = update s.pc i (finishing true);
        msgs = update s.msgs i k;
        lost = s.lost + 1;
        owed = remove i s.owed;
      })
  drained-Inv k here h =
      let mine : elem i s.owed ≡ true = ground (arith, inv.owes i) in
      let gone = elem-remove_self i s.owed inv.owed_distinct in
      let others = λ (j : ℕ) (l : i ≢ j). elem-remove_other i j s.owed l in
      record {
        distinct = inv.distinct;
        queued = λ j p. ground (arith, inv.queued j, inv.queued i);
        sent = λ j. ground (arith, inv.sent j, inv.sent i);
        no_waiting = inv.no_waiting;
        owed_distinct = remove-Distinct i s.owed inv.owed_distinct;
        owes = λ j. ground (arith, inv.owes j, others j);
        balance = omega (arith, inv.balance, length-remove i s.owed mine);
      }

  has-Inv :
      s.pc i ≡ finishing false
      → Inv n (record s { pc = update s.pc i idle; takes = s.takes + 1; owed = remove i s.owed })
  has-Inv here =
      let mine : elem i s.owed ≡ true = ground (arith, inv.owes i) in
      let gone = elem-remove_self i s.owed inv.owed_distinct in
      let others = λ (j : ℕ) (l : i ≢ j). elem-remove_other i j s.owed l in
      record {
        distinct = inv.distinct;
        queued = λ j p. ground (arith, inv.queued j, inv.queued i);
        sent = λ j. ground (arith, inv.sent j, inv.sent i);
        no_waiting = inv.no_waiting;
        owed_distinct = remove-Distinct i s.owed inv.owed_distinct;
        owes = λ j. ground (arith, inv.owes j, others j);
        balance = omega (arith, inv.balance, length-remove i s.owed mine);
      }

  gives_up-Inv : s.pc i ≡ finishing true → Inv n (at s i idle s.sem)
  gives_up-Inv here = record {
    distinct = ground (arith, inv.distinct);
    queued = λ j p. ground (arith, inv.queued j);
    sent = λ j. ground (arith, inv.sent j, inv.sent i);
    no_waiting = inv.no_waiting;
    owed_distinct = inv.owed_distinct;
    owes = λ j. ground (arith, inv.owes j);
    balance = inv.balance;
  }

reached : {n : ℕ} {t u : System} → some u ≡ some t → Inv n u → Inv n t
reached {n} h v = subst (Inv n) (some_inj h) v

trywait_agrees :
    (m m' : Semaphore) (i : ℕ) (ws : List ℕ)
    → sem_trywait m ≡ returns success ws m'
    → sem_timedwait m i none ≡ returns success ws m'
unfolding sem_trywait sem_timedwait
trywait_agrees m m' i ws h = ground arith

trywait_error :
    (m m' : Semaphore) (e : Errno) (ws : List ℕ)
    → e ≢ success
    → sem_trywait m ≡ returns e ws m'
    → m' ≡ m
unfolding sem_trywait
trywait_error m m' e ws n h = ground arith

trywait_answers : (m m' : Semaphore) → sem_trywait m ≢ waits m'
unfolding sem_trywait
trywait_answers m m' h = ground arith

module _ (n : ℕ) (s t : System) (inv : Inv n s) (i : ℕ) where
  wait_by-Inv :
      (a : Option Timespec) (o : Outcome Semaphore)
      → s.pc i ≡ idle
      → sem_timedwait s.sem i a ≡ o
      → after_wait s i (is_some a) o ≡ some t
      → Inv n t
  wait_by-Inv a (returns success ws m) here q h = reached h (takes-Inv inv i a ws m here q)
  wait_by-Inv a (returns e ws m) here q h = reached h (fails-Inv inv i a e ws m here (λ k. cc) q)
  wait_by-Inv a (waits m) here q h = reached h (queues-Inv inv i a _ m here q)
  wait_by-Inv a _ here q h = cc

  try_by-Inv :
      (o : Outcome Semaphore)
      → s.pc i ≡ idle
      → sem_trywait s.sem ≡ o
      → after_wait s i false o ≡ some t
      → Inv n t
  try_by-Inv (returns success ws m) here q h =
      reached h (takes-Inv inv i none ws m here (trywait_agrees s.sem m i ws q))
  try_by-Inv (returns e ws m) here q h =
      let same : m ≡ s.sem = trywait_error s.sem m e ws (λ k. cc) q in
      reached h (subst (λ v. Inv n (at s i idle v)) (sym same) (same-Inv inv i idle here))
  try_by-Inv (waits m) here q h = absurd (trywait_answers s.sem m q)
  try_by-Inv _ here q h = cc

  post_by-Inv : (o : Outcome Semaphore) → sem_post s.sem ≡ o → after_post s i o ≡ some t → Inv n t
  post_by-Inv (returns success ws m) q h = reached h (posts-Inv inv i ws s.sem.queue m refl q)
  post_by-Inv (waits m) q h = cc
  post_by-Inv _ q h = cc

  receive-Inv :
      (k : ℕ) (b : Bool) → s.msgs i ≡ k → s.pc i ≡ blocked b → woken s i ≡ some t → Inv n t
  receive-Inv zero b q here h = absurd (ground arith)
  receive-Inv (suc k) b q here h = reached (ground arith) (woken-Inv inv i b k here q)

  drain-Inv : (k : ℕ) → s.msgs i ≡ k → s.pc i ≡ draining → drained s i ≡ some t → Inv n t
  drain-Inv zero q here h = absurd (ground arith)
  drain-Inv (suc k) q here h = reached (ground arith) (drained-Inv inv i k here q)

  settle-Inv :
      (e : Bool)
      → s.pc i ≡ unblocked e
      → after_settle s i e (sem_settle s.sem i e) ≡ some t
      → Inv n t
  unfolding sem_settle
  settle-Inv e here h = elim (Bool-cases (elem i s.sem.queue)) [
    | inl q ↦ reached (ground arith) (leaves-Inv inv i e here q)
    | inr q ↦ reached (ground arith) (taken-Inv inv i e here q)
  ]

  finish-Inv :
      (e : Bool) → s.pc i ≡ finishing e → after_finish s i (sem_finish s.sem e) ≡ some t → Inv n t
  unfolding sem_finish
  finish-Inv true here h = reached h (gives_up-Inv inv i here)
  finish-Inv false here h = reached h (has-Inv inv i here)

  act-Inv : (a : Action) (p : Pc) → s.pc i ≡ p → sem_act a p s i ≡ some t → Inv n t
  unfolding sem_act
  act-Inv (wait a) idle here h = wait_by-Inv a _ here refl h
  act-Inv try idle here h = try_by-Inv _ here refl h
  act-Inv post idle here h = post_by-Inv _ refl h
  act-Inv receives (blocked b) here h = receive-Inv (s.msgs i) b refl here h
  act-Inv times_out (blocked true) here h = reached h (late-Inv inv i here)
  act-Inv resettles (unblocked e) here h = settle-Inv e here h
  act-Inv drains draining here h = drain-Inv (s.msgs i) refl here h
  act-Inv ends (finishing e) here h = finish-Inv e here h
  act-Inv _ _ here h = cc

pub Reach-Inv : {n : ℕ} {s : System} → Reach n s → Inv n s
unfolding sem_step
Reach-Inv {n} start = record {
  distinct = tt;
  queued = λ i h. cc;
  sent = λ i. refl;
  no_waiting = λ h. refl;
  owed_distinct = tt;
  owes = λ i. refl;
  balance = omega arith;
}
Reach-Inv {n} (later {s} {t} i b r h) = act-Inv n s t (Reach-Inv r) i b (s.pc i) refl h
