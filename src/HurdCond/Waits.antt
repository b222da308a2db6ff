-- ===== src/HurdCond/Waits.antt =====
-- What a thread that waits can rely on: no request is lost, one message each, and the mutex on return.
use libpthread.Base.{
  ℕ, zero, suc, ◌≡◌, ◌≢◌, Bool, true, false, ◌==◌, ◌&&◌, refl, subst, Option, none, some, [], ◌∷◌,
  elem, remove, Distinct, if◌then◌else◌, arith, Timespec, eintr, Errno, Bool-cases, inl, inr, ◌⊎◌,
  sym, abstime_valid, owner_is, elem-remove_other, elem-remove_self,
}
use libpthread.Condition.{Cond}
use libpthread.Condition.System.{has_time}
use libpthread.HurdCond.{
  Begun, invalid_time, aborts, cancelled, queued, hurd_begin, hurd_settle, hurd_result,
  hurd_thread_cancel,
}
use libpthread.HurdCond.System.{
  Pc, running, interrupted, draining, enqueued, blocked, unblocked, locking, System, after_begin,
  after_settle, take_message, drained, received, locked, relocked, is_draining, after_cancel,
  Action, wait, unlock, lock, ends_interrupted, releases, receives, times_out, resettles, drains,
  relocks, signal, broadcast, cancels, hurd_act, Reach,
}
use libpthread.HurdCond.Invariant.{inside, may_queue, due, Inv}
use libpthread.HurdCond.Steps.{Reach-Inv}

module _ {clock : Option ℕ} {s : System} (r : Reach clock s) where
  -- In every state that the threads reach: a thread in the queue has not been interrupted; the queue has
  -- no thread twice, and only threads in a wait, before its last section; and a thread has no message
  -- to receive while it is in the queue or outside of a wait, and one from the time it is taken out of
  -- the queue until it has received it.
  pub hurd_no_lost_wakeup :
      ((i : ℕ) → elem i s.cond.queue ≡ true → (s.ss i).cancel ≡ false)
      × Distinct s.cond.queue
      × ((i : ℕ) → elem i s.cond.queue ≡ true → may_queue (s.pc i) ≡ true)
      × ((i : ℕ) → s.msgs i ≡ due (s.pc i) (elem i s.cond.queue))
  hurd_no_lost_wakeup = let v = Reach-Inv r in (v.prompt, v.distinct, v.queued, v.sent)

-- The thread is to return EINTR: cancelled on entry; in a wait, with the flag set; or before it locks
-- the mutex.
abbrev pub told : System → ℕ → Pc → Bool
told s i interrupted = true
told s i (locking c e) = c
told s i p = (s.ss i).cancel && inside p

-- So is it, or it has returned EINTR.
abbrev pub has_told : System → ℕ → Pc → Errno → Bool
has_told s i running eintr = true
has_told s i p e = told s i p

abbrev Told : ℕ → Option System → Type 0
Told i none = Unit {0}
Told i (some t) = has_told t i (t.pc i) (t.last i) ≡ true

module _ (s : System) (i k : ℕ) (h : told s i (s.pc i) ≡ true) where
  same-Told : has_told s i (s.pc i) (s.last i) ≡ true
  same-Told = ground arith

  begin-Told : (t : Bool) (b : Begun) → s.pc k ≡ running → Told i (after_begin s k t b)
  begin-Told t invalid_time here = ground arith
  begin-Told t aborts here = tt
  begin-Told t (cancelled ss) here = ground arith
  begin-Told t (queued c ss clock) here = ground arith

  receives-Told : (t : Bool) (n : ℕ) → s.pc k ≡ blocked t → Told i (received k (take_message s k n))
  receives-Told t zero here = tt
  receives-Told t (suc n) here = ground arith

  drains-Told : (n : ℕ) → s.pc k ≡ draining → Told i (drained k (take_message s k n))
  drains-Told zero here = tt
  drains-Told (suc n) here = ground arith

  settle-Told :
      (e : Bool) (c : Cond × Bool) → s.pc k ≡ unblocked e → Told i (some (after_settle s k e c))
  settle-Told e (c, true) here = ground arith
  settle-Told e (c, false) here = ground arith

  lock-Told : (o : Option ℕ) → Told i (locked s k o)
  lock-Told none = ground arith
  lock-Told (some j) = tt

  relocks-Told :
      (c e : Bool) (o : Option ℕ) → s.pc k ≡ locking c e → Told i (relocked s k (hurd_result c e) o)
  relocks-Told c e (some j) here = tt
  relocks-Told true e none here = ground arith
  relocks-Told false e none here = ground arith

  unlock-Told :
      s.pc k ≡ running
      → Told i (if owner_is s.owner k then some (record s { owner = none }) else none)
  unlock-Told here = elim (Bool-cases (owner_is s.owner k)) [
    | inl e ↦ rw e (ground arith)
    | inr e ↦ rw e tt
  ]

  wait-Told :
      (a : Option Timespec)
      → s.pc k ≡ running
      → Told i (
          if owner_is s.owner k
          then after_begin s k (has_time a) (hurd_begin s.cond (s.ss k) k a)
          else none)
  wait-Told a here = elim (Bool-cases (owner_is s.owner k)) [
    | inl e ↦ rw e (begin-Told (has_time a) (hurd_begin s.cond (s.ss k) k a) here)
    | inr e ↦ rw e tt
  ]

  cancel-Told :
      (t : ℕ)
      → Told i (
          if is_draining (s.pc t)
          then none
          else some (after_cancel s t (hurd_thread_cancel s.cond (s.ss t) t)))
  unfolding hurd_thread_cancel
  cancel-Told t = elim (Bool-cases (is_draining (s.pc t))) [
    | inl e ↦ rw e tt
    | inr e ↦ rw e (ground arith)
  ]

  act-Told : (a : Action) (p : Pc) → s.pc k ≡ p → Told i (hurd_act a p s k)
  unfolding hurd_act
  act-Told lock running here = lock-Told s.owner
  act-Told unlock running here = unlock-Told here
  act-Told (wait a) running here = wait-Told a here
  act-Told ends_interrupted interrupted here = ground arith
  act-Told releases (enqueued t) here = ground arith
  act-Told receives (blocked t) here = receives-Told t (s.msgs k) here
  act-Told times_out (blocked true) here = ground arith
  act-Told resettles (unblocked e) here = settle-Told e (hurd_settle s.cond k e) here
  act-Told drains draining here = drains-Told (s.msgs k) here
  act-Told relocks (locking c e) here = relocks-Told c e s.owner here
  act-Told signal running here = ground arith
  act-Told broadcast running here = ground arith
  act-Told (cancels t) running here = cancel-Told t
  act-Told a p here = tt

-- The thread begins a wait, with a time that is valid, and has been asked before to return from it.
pub Asked : System → ℕ → ℕ → Action → Type 0
Asked s i k a =
    (k ≡ i)
    × (s.pc i ≡ running)
    × ((s.ss i).cancel ≡ true)
    × ((t : Option Timespec) × (a ≡ wait t) × (abstime_valid t ≡ true))

-- A wait that is begun with the flag set.
enters-Told :
    (s : System) (i : ℕ) (a : Option Timespec)
    → s.pc i ≡ running
    → (s.ss i).cancel ≡ true
    → abstime_valid a ≡ true
    → Told i (hurd_act (wait a) running s i)
unfolding hurd_act hurd_begin
enters-Told s i a here c v = elim (Bool-cases (owner_is s.owner i)) [
  | inl e ↦ rw (e, v, c) (ground arith)
  | inr e ↦ rw e tt
]

-- A thread that is interrupted in a wait, or begins one with the flag set and a valid time, is to return
-- EINTR after the step; and once it is, a step of any thread leaves it so, or is its return with EINTR.
-- So a request is not lost before the call returns, whatever messages and time-outs there are.
pub hurd_interrupt_sticks :
    (s t : System) (i k : ℕ) (a : Action)
    → (told s i (s.pc i) ≡ true) ⊎ Asked s i k a
    → hurd_act a (s.pc k) s k ≡ some t
    → has_told t i (t.pc i) (t.last i) ≡ true
unfolding Asked
hurd_interrupt_sticks s t i k a (inl h) e = subst (Told i) e (act-Told s i k h a (s.pc k) refl)
hurd_interrupt_sticks s t i k a (inr (r, here, c, (b, w, v))) e = subst (Told i) e (
    subst (λ j. Told i (hurd_act a (s.pc j) s j)) (sym r)
      (rw (here, w) (enters-Told s i b here c v)))

-- In every state that the threads reach: a thread that interrupts one in the queue takes it out of the
-- queue and sends it the one message that it has then; it is to return EINTR, and the other threads are
-- as they were.
pub hurd_cancel_unblocks :
    {clock : Option ℕ} {s : System}
    → Reach clock s
    → (i t : ℕ) → s.pc i ≡ running
    → elem t s.cond.queue ≡ true
    → (u : System) × (hurd_act (cancels t) (s.pc i) s i ≡ some u)
      × (elem t u.cond.queue ≡ false)
      × (u.msgs t ≡ 1)
      × (told u t (u.pc t) ≡ true)
      × ((j : ℕ)
          → (t == j) ≡ false
          → (u.msgs j ≡ s.msgs j) × (elem j u.cond.queue ≡ elem j s.cond.queue) × (u.ss j ≡ s.ss j))
unfolding hurd_act hurd_thread_cancel
hurd_cancel_unblocks {clock} {s} r i t here q =
    let v = Reach-Inv r in
    let m = v.queued t q in
    let h = v.hooked t in
    let d : is_draining (s.pc t) ≡ false = ground arith in
    let hooked : (s.ss t).hook ≡ true = ground arith in
    (
      after_cancel s t (
        (record s.cond { queue = remove t s.cond.queue }, t ∷ []),
        record (s.ss t) { cancel = true },
      ),
      rw (here, d, hooked, q) refl,
      elem-remove_self t s.cond.queue v.distinct,
      ground (arith, v.sent t),
      ground arith,
      (λ j n. (ground arith, elem-remove_other t j s.cond.queue (λ e. ground arith), ground arith)),
    )

-- Where a step has brought thread `i` out of the call, it has the mutex.
abbrev Locked : ℕ → Option System → Type 0
Locked i none = Unit {0}
Locked i (some t) = t.pc i ≡ running → t.owner ≡ some i

module _ (s : System) (inv : Inv s) (i : ℕ) where
  received-Locked : (n : ℕ) → Locked i (received i (take_message s i n))
  received-Locked zero = tt
  received-Locked (suc n) = λ e. ground arith

  drained-Locked : (n : ℕ) → Locked i (drained i (take_message s i n))
  drained-Locked zero = tt
  drained-Locked (suc n) = λ e. ground arith

  settled-Locked : (e : Bool) (c : Cond × Bool) → Locked i (some (after_settle s i e c))
  settled-Locked e (c, true) = λ q. ground arith
  settled-Locked e (c, false) = λ q. ground arith

  relocked-Locked : (r : Errno) (o : Option ℕ) → Locked i (relocked s i r o)
  relocked-Locked r none = λ q. refl
  relocked-Locked r (some j) = tt

  begun-Locked : (t : Bool) (b : Begun) → s.owner ≡ some i → Locked i (after_begin s i t b)
  begun-Locked t invalid_time o = λ q. o
  begun-Locked t aborts o = tt
  begun-Locked t (cancelled ss) o = λ q. o
  begun-Locked t (queued c ss clock) o = λ q. o

  wait-Locked : (a : Option Timespec) → Locked i (hurd_act (wait a) running s i)
  unfolding hurd_act
  wait-Locked a = elim (Bool-cases (owner_is s.owner i)) [
    | inl e ↦ rw e (begun-Locked (has_time a) (hurd_begin s.cond (s.ss i) i a) (ground arith))
    | inr e ↦ rw e tt
  ]

  act-Locked :
      (a : Action) (p : Pc)
      → s.pc i ≡ p
      → (p ≢ running) ⊎ ((b : Option Timespec) × (a ≡ wait b))
      → Locked i (hurd_act a p s i)
  unfolding hurd_act
  act-Locked a running here (inl n) = absurd (n refl)
  act-Locked a running here (inr (b, e)) =
      subst (λ c. Locked i (hurd_act c running s i)) (sym e) (wait-Locked b)
  act-Locked ends_interrupted interrupted here n = λ q. inv.kept i (ground arith)
  act-Locked releases (enqueued t) here n = λ q. ground arith
  act-Locked receives (blocked t) here n = received-Locked (s.msgs i)
  act-Locked times_out (blocked true) here n = λ q. ground arith
  act-Locked resettles (unblocked e) here n = settled-Locked e (hurd_settle s.cond i e)
  act-Locked drains draining here n = drained-Locked (s.msgs i)
  act-Locked relocks (locking c e) here n = relocked-Locked (hurd_result c e) s.owner
  act-Locked a p here n = tt

-- In every state that the threads reach: the step with which a call of the wait returns, at
-- once or after it has waited, leaves its thread with the mutex locked: also where the time is not valid,
-- and where the call was interrupted on entry.
pub hurd_returns_locked :
    {clock : Option ℕ} {s t : System}
    → Reach clock s
    → (i : ℕ) (a : Action) → (s.pc i ≢ running) ⊎ ((b : Option Timespec) × (a ≡ wait b))
    → hurd_act a (s.pc i) s i ≡ some t
    → t.pc i ≡ running
    → t.owner ≡ some i
hurd_returns_locked {clock} {s} {t} r i a n h e =
    subst (Locked i) h (act-Locked s (Reach-Inv r) i a (s.pc i) refl n) e
