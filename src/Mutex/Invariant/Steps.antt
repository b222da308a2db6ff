-- ===== src/Mutex/Invariant/Steps.antt =====
-- The invariant holds in every state that the threads reach.
use libpthread.Base.{ℕ, ◌≡◌, refl, sym, subst, some, arith, update, update_same}
use libpthread.Mutex.{Mutex, AttrRef}
use libpthread.Mutex.System.{Pc, System, Action, step, Reach, start, later, init}
use libpthread.Mutex.Cases.{Kept, step_cases}
use libpthread.Mutex.Invariant.{Inv}
use libpthread.Mutex.Invariant.Release.{release-Inv, release_idle-Inv}
use libpthread.Mutex.Invariant.Locking.{
  lock_success-Inv, lock_error-Inv, lock_waits-Inv, relock-Inv, relock_waits,
}
use libpthread.Mutex.Invariant.Trying.{try_success-Inv, retry-Inv, try_error-Inv}
use libpthread.Mutex.Invariant.Waiting.{
  receives-Inv, times_out-Inv, drains-Inv, leaves-Inv, taken-Inv, ends_success-Inv, ends_error-Inv,
}

abbrev pub SystemInv : System → Type 0
SystemInv s = Inv s.mutex s.pc s.msgs

-- The thread stands where it stood.
stays-Inv :
    {m : Mutex} {pc : ℕ → Pc} {msgs : ℕ → ℕ} (i : ℕ) {p : Pc}
    → pc i ≡ p
    → Inv m pc msgs
    → Inv m (update pc i p) msgs
stays-Inv {m} {pc} {msgs} i here v = subst (λ f. Inv m f msgs) (sym (update_same pc i here)) v

Kept-Inv : (s : System) (i : ℕ) (b : Action) → SystemInv s → Kept SystemInv s i b
Kept-Inv s i b inv = record {
  locks = λ a ws m here q. lock_success-Inv inv i a here q;
  lock_fails = λ a e ws m p here n q. stays-Inv i here (lock_error-Inv inv i a n q);
  queues = λ a m here q. lock_waits-Inv inv i a _ here q;
  relocks = λ a n ws m here b k q. relock-Inv inv i a here b q;
  requeues = λ a n m here k q. absurd (relock_waits inv i a here k q);
  tries = λ ws m here q. try_success-Inv inv i here q;
  retries = λ n ws m here b q. retry-Inv inv i here b q;
  try_fails = λ e ws m p here n q. stays-Inv i here (try_error-Inv inv i n q);
  unlocks = λ e n ws m here q. release-Inv inv i here q;
  foreign_unlocks = λ e ws m here k g q. release_idle-Inv inv i here k g q;
  woken = λ t k here q. receives-Inv inv i t k here q;
  late = λ _ here. times_out-Inv inv i here;
  leaves = λ e here q. leaves-Inv inv i e here q;
  taken = λ e here q. taken-Inv inv i e here q;
  drained = λ k here q. drains-Inv inv i k here q;
  returns_lock = λ e ws m here q. ends_success-Inv inv i e here q;
  returns_error = λ e r ws m here n q. ends_error-Inv inv i e here n q;
}

pub step-Inv : (s t : System) (i : ℕ) (a : Action) → SystemInv s → step s i a ≡ some t → SystemInv t
step-Inv s t i a inv h = step_cases SystemInv s t i a (Kept-Inv s i a inv) h

pub init-Inv : (a : AttrRef) → SystemInv (init a)
init-Inv a = record {
  distinct = tt;
  queued = λ i h. cc;
  sent = λ i. refl;
  unique = λ i j h k. cc;
  held = λ i h. cc;
  waited = λ i h. cc;
  owned = λ i k h. cc;
  named = ground arith;
  fresh = λ i k h. cc;
  counted = λ i n k h. cc;
  single = λ i n k h. cc;
  spare = λ i k h p. refl;
}

-- The invariant holds in every state that the threads can reach, in whatever order they run, with
-- whatever time-outs, and for each type of mutex.
pub Reach-Inv : {a : AttrRef} {s : System} → Reach a s → SystemInv s
Reach-Inv {a} start = init-Inv a
Reach-Inv (later {s} {t} i b r h) = step-Inv s t i b (Reach-Inv r) h
