-- ===== src/Mutex/Progress.antt =====
-- Without time-outs a mutex is never held by nobody.
use libpthread.Base.{
  ℕ, ◌≡◌, ◌≢◌, refl, inl, inr, Bool, true, false, Option, some, List, [], ◌∷◌, Errno, returns,
  waits, Timespec, arith, Bool-cases, ◌+◌,
}
use libpthread.Mutex.{Mutex, timed, mutex_type, unlock, timedlock, trylock, finish, AttrRef}
use libpthread.Mutex.System.{
  Pc, idle, owning, draining, blocked, unblocked, finishing, System, Action, step, put, init,
  times_out, after_unlock,
}
use libpthread.Mutex.Invariant.Locking.{relock_waits}
use libpthread.Mutex.Sections.{finish_error}
use libpthread.Mutex.Cases.{Kept, step_cases}
use libpthread.Mutex.Invariant.{holds}
use libpthread.Mutex.Invariant.Steps.{SystemInv, step-Inv, init-Inv}

abbrev pub is_late : Pc → Bool
is_late draining = true
is_late (unblocked e) = e
is_late (finishing e) = e
is_late _ = false

pub record IsCovered (m : Mutex) (pc : ℕ → Pc) : Type 0 where
  pub prompt : (i : ℕ) → is_late (pc i) ≡ false
  pub covered : m.held ≡ true → (i : ℕ) × (holds m pc i ≡ true)

abbrev Covered : System → Type 0
Covered s = IsCovered s.mutex s.pc

-- States reached without a time-out.
pub data Untimed (a : AttrRef) : System → Type 0 where
  began : Untimed a (init a)
  then_step :
      {s t : System} (i : ℕ) (b : Action)
      → Untimed a s
      → b ≢ times_out
      → step s i b ≡ some t
      → Untimed a t

module _ (s : System) (i : ℕ) (inv : SystemInv s) (c : Covered s) where
  unlocks-Covered :
      (e : Errno) (n : ℕ) (ws : List ℕ) (m : Mutex) (q : List ℕ)
      → s.pc i ≡ owning n
      → s.mutex.queue ≡ q
      → unlock s.mutex i ≡ returns e ws m
      → Covered (put s i (after_unlock e n) m ws)
  unfolding unlock
  unlocks-Covered e n ws m [] here o q = record {
    prompt = λ j. ground (arith, c.prompt j);
    covered = λ h. (i, ground (arith, inv.counted i n, inv.single i n));
  }
  unlocks-Covered e n [] m (t ∷ ts) here o q = record {
    prompt = λ j. ground (arith, c.prompt j);
    covered = λ h. (i, ground (arith, inv.counted i n, inv.single i n));
  }
  unlocks-Covered e n (w ∷ ws) m (t ∷ ts) here o q = record {
    prompt = λ j. ground (arith, c.prompt j);
    covered = λ h. (t, ground (arith, inv.distinct, inv.queued i, inv.queued t));
  }

  foreign-Covered :
      (e : Errno) (ws : List ℕ) (m : Mutex)
      → s.pc i ≡ idle
      → mutex_type s.mutex ≢ timed
      → s.mutex.held ≡ true
      → unlock s.mutex i ≡ returns e ws m
      → Covered (put s i idle m ws)
  unfolding unlock
  foreign-Covered e ws m here k held q =
      let (j, holding) = c.covered held in
      let refused : (m ≡ s.mutex) = ground (arith, inv.owned j k) in
      record { prompt = λ l. ground (arith, c.prompt l); covered = λ h. (j, ground arith) }

  waits-Covered :
      (a : Option Timespec) (m : Mutex) (b : Bool)
      → s.pc i ≡ idle
      → timedlock s.mutex i a ≡ waits m
      → Covered (put s i (blocked b) m [])
  unfolding timedlock
  waits-Covered a m b here q = record {
    prompt = λ l. ground (arith, c.prompt l);
    covered = λ h. let (j, holding) = c.covered (ground arith) in (j, ground arith);
  }

  -- A call that leaves the queue alone, and a thread that stays where it is.
  same-Covered :
      (m : Mutex) (ws : List ℕ) (p : Pc)
      → s.pc i ≡ p
      → m.queue ≡ s.mutex.queue
      → m.held ≡ s.mutex.held
      → Covered (put s i p m ws)
  same-Covered m ws p here q e = record {
    prompt = λ l. ground (arith, c.prompt l);
    covered = λ h. let (j, holding) = c.covered (ground arith) in (j, ground arith);
  }

  -- A thread that has the lock afterwards.
  has-Covered : (n : ℕ) (m : Mutex) (ws : List ℕ) → Covered (put s i (owning n) m ws)
  has-Covered n m ws = record {
    prompt = λ l. ground (arith, c.prompt l);
    covered = λ h. (i, ground arith);
  }

  free-Covered :
      (e : Errno) (ws : List ℕ) (m : Mutex) (q : List ℕ)
      → s.pc i ≡ idle
      → s.mutex.held ≡ false
      → s.mutex.queue ≡ q
      → unlock s.mutex i ≡ returns e ws m
      → Covered (put s i idle m ws)
  unfolding unlock
  free-Covered e ws m [] here f o q = record {
    prompt = λ l. ground (arith, c.prompt l);
    covered = λ h. absurd (ground arith);
  }
  free-Covered e ws m (t ∷ ts) here f o q = absurd (ground (arith, inv.waited t))

  Kept-Covered : (b : Action) → b ≢ times_out → Kept Covered s i b
  unfolding timedlock trylock finish
  Kept-Covered b n = record {
    locks = λ a ws m here q. has-Covered 0 m ws;
    lock_fails = λ a e ws m p here n q. same-Covered m ws p here (ground arith) (ground arith);
    queues = λ a m here q. waits-Covered a m _ here q;
    relocks = λ a n ws m here b k q. has-Covered (n + 1) m ws;
    requeues = λ a n m here k q. absurd (relock_waits inv i a here k q);
    tries = λ ws m here q. has-Covered 0 m ws;
    retries = λ n ws m here b q. has-Covered (n + 1) m ws;
    try_fails = λ e ws m p here n q. same-Covered m ws p here (ground arith) (ground arith);
    unlocks = λ e n ws m here q. unlocks-Covered e n ws m s.mutex.queue here refl q;
    foreign_unlocks = λ e ws m here k g q. elim (Bool-cases s.mutex.held) [
      | inl h ↦ foreign-Covered e ws m here k h q
      | inr f ↦ free-Covered e ws m s.mutex.queue here f refl q
    ];
    woken = λ t k here q. record {
      prompt = λ l. ground (arith, c.prompt l);
      covered = λ h. let (j, holding) = c.covered h in (j, ground arith);
    };
    late = λ e here. absurd (n e);
    leaves = λ e here q. absurd (ground (arith, c.prompt i, inv.queued i));
    taken = λ e here q. record {
      prompt = λ l. ground (arith, c.prompt l, c.prompt i);
      covered = λ h. let (j, holding) = c.covered h in (j, ground (arith, c.prompt i));
    };
    drained = λ k here q. absurd (ground (arith, c.prompt i));
    returns_lock = λ e ws m here q. has-Covered 0 m ws;
    returns_error =
        λ e r ws m here n q. absurd (ground (arith, c.prompt i, finish_error s.mutex i e n q));
  }

Untimed-Covered : {a : AttrRef} {s : System} → Untimed a s → SystemInv s × Covered s
Untimed-Covered {a} began =
    (init-Inv a, record { prompt = λ i. refl; covered = λ h. absurd (ground arith) })
Untimed-Covered (then_step {s} {t} i b r n h) =
    let (v, c) = Untimed-Covered r in
    (step-Inv s t i b v h, step_cases Covered s t i b (Kept-Covered s i v c b n) h)

-- As long as no thread times out, a mutex that is held has a thread that has the lock, or that has
-- been taken out of the queue to have it and is on its way out of the call.
pub no_lost_lock :
    {a : AttrRef} {s : System}
    → Untimed a s
    → s.mutex.held ≡ true
    → (i : ℕ) × (holds s.mutex s.pc i ≡ true) × (is_late (s.pc i) ≡ false)
no_lost_lock r h =
    let (v, c) = Untimed-Covered r in let (i, holding) = c.covered h in (i, holding, c.prompt i)
