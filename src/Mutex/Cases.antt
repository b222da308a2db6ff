-- ===== src/Mutex/Cases.antt =====
-- A step of the mutex system, by cases: what each section has to keep for a step to keep it.
use libpthread.Base.{
  ℕ, zero, suc, ◌≡◌, ◌≢◌, refl, sym, subst, ◌⊎◌, inl, inr, Bool, true, false, Option, some, List,
  [], Errno, Outcome, returns, waits, spins, aborts, Timespec, arith, success, Bool-cases, elem,
  if◌then◌else◌, update, remove, some_inj, ◌+◌, ◌<◌, uint_mod, owner_is,
}
use libpthread.Mutex.{
  Mutex, MutexType, timed, errorcheck, recursive, mutex_type, unlock, timedlock, trylock, settle,
  finish,
}
use libpthread.Mutex.System.{
  Pc, idle, owning, draining, blocked, unblocked, finishing, System, after_unlock, act, Action, put,
  after_call, is_some, after_settle, after_release, lock, try, release, receives, times_out,
  resettles, drains, ends, receive, step, deeper, bounded,
}
use libpthread.Mutex.Sections.{trylock_answers, finish_answers}

-- `P` holds after the section that thread `i` runs for action `b`.
pub record Kept (P : System → Type 0) (s : System) (i : ℕ) (b : Action) : Type 0 where
  pub locks :
      (a : Option Timespec) (ws : List ℕ) (m : Mutex)
      → s.pc i ≡ idle
      → timedlock s.mutex i a ≡ returns success ws m
      → P (put s i (owning 0) m ws)
  pub lock_fails :
      (a : Option Timespec) (e : Errno) (ws : List ℕ) (m : Mutex) (p : Pc)
      → s.pc i ≡ p
      → e ≢ success
      → timedlock s.mutex i a ≡ returns e ws m
      → P (put s i p m ws)
  pub queues :
      (a : Option Timespec) (m : Mutex)
      → s.pc i ≡ idle
      → timedlock s.mutex i a ≡ waits m
      → P (put s i (blocked (is_some a)) m [])
  pub relocks :
      (a : Option Timespec) (n : ℕ) (ws : List ℕ) (m : Mutex)
      → s.pc i ≡ owning n
      → n + 2 < uint_mod
      → mutex_type s.mutex ≢ timed
      → timedlock s.mutex i a ≡ returns success ws m
      → P (put s i (owning (n + 1)) m ws)
  pub requeues :
      (a : Option Timespec) (n : ℕ) (m : Mutex)
      → s.pc i ≡ owning n
      → mutex_type s.mutex ≢ timed
      → timedlock s.mutex i a ≡ waits m
      → P (put s i (blocked (is_some a)) m [])
  pub tries :
      (ws : List ℕ) (m : Mutex)
      → s.pc i ≡ idle
      → trylock s.mutex i ≡ returns success ws m
      → P (put s i (owning 0) m ws)
  pub retries :
      (n : ℕ) (ws : List ℕ) (m : Mutex)
      → s.pc i ≡ owning n
      → n + 2 < uint_mod
      → trylock s.mutex i ≡ returns success ws m
      → P (put s i (owning (n + 1)) m ws)
  pub try_fails :
      (e : Errno) (ws : List ℕ) (m : Mutex) (p : Pc)
      → s.pc i ≡ p
      → e ≢ success
      → trylock s.mutex i ≡ returns e ws m
      → P (put s i p m ws)
  pub unlocks :
      (e : Errno) (n : ℕ) (ws : List ℕ) (m : Mutex)
      → s.pc i ≡ owning n
      → unlock s.mutex i ≡ returns e ws m
      → P (put s i (after_unlock e n) m ws)
  pub foreign_unlocks :
      (e : Errno) (ws : List ℕ) (m : Mutex)
      → s.pc i ≡ idle
      → mutex_type s.mutex ≢ timed
      → (mutex_type s.mutex ≡ recursive → owner_is s.mutex.owner i ≡ false)
      → unlock s.mutex i ≡ returns e ws m
      → P (put s i idle m ws)
  pub woken :
      (t : Bool) (k : ℕ)
      → s.pc i ≡ blocked t
      → s.msgs i ≡ suc k
      → P (record s { pc = update s.pc i (unblocked false); msgs = update s.msgs i k })
  pub late : b ≡ times_out → s.pc i ≡ blocked true → P (put s i (unblocked true) s.mutex [])
  pub leaves :
      (e : Bool)
      → s.pc i ≡ unblocked e
      → elem i s.mutex.queue ≡ true
      → P (put s i (finishing e) (record (s.mutex) { queue = remove i s.mutex.queue }) [])
  pub taken :
      (e : Bool)
      → s.pc i ≡ unblocked e
      → elem i s.mutex.queue ≡ false
      → P (put s i (if e then draining else finishing e) s.mutex [])
  pub drained :
      (k : ℕ)
      → s.pc i ≡ draining
      → s.msgs i ≡ suc k
      → P (record s { pc = update s.pc i (finishing true); msgs = update s.msgs i k })
  pub returns_lock :
      (e : Bool) (ws : List ℕ) (m : Mutex)
      → s.pc i ≡ finishing e
      → finish s.mutex i e ≡ returns success ws m
      → P (put s i (owning 0) m ws)
  pub returns_error :
      (e : Bool) (r : Errno) (ws : List ℕ) (m : Mutex)
      → s.pc i ≡ finishing e
      → r ≢ success
      → finish s.mutex i e ≡ returns r ws m
      → P (put s i idle m ws)

module _ (P : System → Type 0) (s t : System) (i : ℕ) where
  reached : {u : System} → some u ≡ some t → P u → P t
  reached h v = subst P (some_inj h) v

  -- A call's outcome, by cases.
  call_cases :
      (old : Pc) (b : Bool) (o : Outcome Mutex)
      → ((ws : List ℕ) (m : Mutex) → o ≡ returns success ws m → P (put s i (deeper old) m ws))
      → ((e : Errno) (ws : List ℕ) (m : Mutex)
          → e ≢ success
          → o ≡ returns e ws m
          → P (put s i old m ws))
      → ((m : Mutex) → o ≡ waits m → P (put s i (blocked b) m []))
      → after_call s i old b o ≡ some t
      → P t
  call_cases old b (returns success ws m) p q r h = reached h (p ws m refl)
  call_cases old b (returns e ws m) p q r h = reached h (q e ws m (λ k. cc) refl)
  call_cases old b (waits m) p q r h = reached h (r m refl)
  call_cases old b spins p q r h = cc
  call_cases old b aborts p q r h = cc

  release_cases :
      (p : Pc) (o : Outcome Mutex)
      → ((e : Errno) (n : ℕ) (ws : List ℕ) (m : Mutex)
          → p ≡ owning n
          → o ≡ returns e ws m
          → P (put s i (after_unlock e n) m ws))
      → ((e : Errno) (ws : List ℕ) (m : Mutex)
          → p ≡ idle
          → o ≡ returns e ws m
          → P (put s i idle m ws))
      → (p ≡ idle) ⊎ ((n : ℕ) × (p ≡ owning n))
      → after_release s i p o ≡ some t
      → P t
  release_cases (owning n) (returns e ws m) f g c h = reached h (f e n ws m refl refl)
  release_cases idle (returns e ws m) f g c h = reached h (g e ws m refl refl)
  release_cases (owning n) _ f g c h = cc
  release_cases idle _ f g c h = cc
  release_cases p _ f g (inl e) h = absurd (ground arith)
  release_cases p _ f g (inr (n, e)) h = absurd (ground arith)

  bounded-some :
      (n : ℕ) (o : Option System) → bounded n o ≡ some t → (n + 2 < uint_mod) × (o ≡ some t)
  bounded-some n o h = ground arith

  receive_cases :
      (p : Pc) (n : ℕ)
      → s.msgs i ≡ n
      → ((k : ℕ) → n ≡ suc k → P (record s { pc = update s.pc i p; msgs = update s.msgs i k }))
      → receive s i p ≡ some t
      → P t
  receive_cases p zero e f h = absurd (ground arith)
  receive_cases p (suc k) e f h = reached (ground arith) (f k refl)

  module _ (b : Action) (kept : Kept P s i b) where
    relock_cases :
        (a : Option Timespec) (n : ℕ) (k : MutexType)
        → s.pc i ≡ owning n
        → mutex_type s.mutex ≡ k
        → act (lock a) (owning n) s i ≡ some t
        → P t
    unfolding act
    relock_cases a n timed here e h = cc
    relock_cases a n k here e h =
        let (b, q) =
          bounded-some n (after_call s i (owning n) (is_some a) (timedlock s.mutex i a))
            (rw (e, act) at h) in
        call_cases (owning n) (is_some a) (timedlock s.mutex i a)
          (λ ws m q. kept.relocks a n ws m here b (λ n. cc) q)
          (λ r ws m f q. kept.lock_fails a r ws m (owning n) here f q)
          (λ m q. kept.requeues a n m here (λ n. cc) q) q

    foreign_cases :
        (k : MutexType)
        → s.pc i ≡ idle
        → mutex_type s.mutex ≡ k
        → act release idle s i ≡ some t
        → P t
    unfolding act
    foreign_cases timed here e h = cc
    foreign_cases errorcheck here e h =
        release_cases idle (unlock s.mutex i) (λ r n ws m c q. cc)
          (λ r ws m n q. kept.foreign_unlocks r ws m here (λ c. cc) (λ c. cc) q) (inl refl)
          (rw (e, act) at h)
    foreign_cases recursive here e h = elim (Bool-cases (owner_is s.mutex.owner i)) [
      | inl o ↦ absurd (ground arith)
      | inr o ↦
          release_cases idle (unlock s.mutex i) (λ r n ws m c q. cc)
            (λ r ws m n q. kept.foreign_unlocks r ws m here (λ c. cc) (λ c. o) q) (inl refl)
            (rw (e, o, act) at h)
    ]

    try_cases :
        (p : Pc)
        → s.pc i ≡ p
        → ((ws : List ℕ) (m : Mutex)
            → trylock s.mutex i ≡ returns success ws m
            → P (put s i (deeper p) m ws))
        → after_call s i p false (trylock s.mutex i) ≡ some t
        → P t
    try_cases p here f h =
        call_cases p false (trylock s.mutex i) f (λ r ws m n q. kept.try_fails r ws m p here n q)
          (λ m q. absurd (trylock_answers s.mutex i q)) h

    settle_cases :
        (e : Bool) → s.pc i ≡ unblocked e → after_settle s i e (settle s.mutex i e) ≡ some t → P t
    unfolding settle
    settle_cases e here h = elim (Bool-cases (elem i s.mutex.queue)) [
      | inl q ↦ reached (ground arith) (kept.leaves e here q)
      | inr q ↦ reached (ground arith) (kept.taken e here q)
    ]

    act_cases : (a : Action) (p : Pc) → a ≡ b → s.pc i ≡ p → act a p s i ≡ some t → P t
    unfolding act
    act_cases (lock a) idle n here h =
        call_cases idle (is_some a) (timedlock s.mutex i a) (λ ws m q. kept.locks a ws m here q)
          (λ r ws m n q. kept.lock_fails a r ws m idle here n q) (λ m q. kept.queues a m here q) h
    act_cases (lock a) (owning d) n here h = relock_cases a d (mutex_type s.mutex) here refl h
    act_cases try idle n here h = try_cases idle here (λ ws m. kept.tries ws m here) h
    act_cases try (owning d) n here h =
        let (b, q) = bounded-some d (after_call s i (owning d) false (trylock s.mutex i)) h in
        try_cases (owning d) here (λ ws m. kept.retries d ws m here b) q
    act_cases release (owning d) n here h =
        release_cases (owning d) (unlock s.mutex i)
          (λ r k ws m e q. kept.unlocks r k ws m (ground arith) q) (λ r ws m c q. cc)
          (inr (d, refl)) h
    act_cases release idle n here h = foreign_cases (mutex_type s.mutex) here refl h
    act_cases receives (blocked c) n here h =
        receive_cases (unblocked false) (s.msgs i) refl (λ k. kept.woken c k here) h
    act_cases times_out (blocked true) n here h = reached h (kept.late (sym n) here)
    act_cases resettles (unblocked e) n here h = settle_cases e here h
    act_cases drains draining n here h =
        receive_cases (finishing true) (s.msgs i) refl (λ k. kept.drained k here) h
    act_cases ends (finishing e) n here h =
        call_cases idle false (finish s.mutex i e) (λ ws m q. kept.returns_lock e ws m here q)
          (λ r ws m n q. kept.returns_error e r ws m here n q)
          (λ m q. absurd (finish_answers s.mutex i e q)) h
    act_cases _ _ n here h = cc

    -- What every section keeps, a step keeps.
    pub step_cases : step s i b ≡ some t → P t
    unfolding step
    step_cases h = act_cases b (s.pc i) refl refl h
