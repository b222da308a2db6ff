-- ===== src/HurdCond/Steps.antt =====
-- Each step keeps what holds in the states that the threads reach.
use libpthread.Base.{
  ℕ, ◌≡◌, true, refl, subst, Option, none, some, List, [], ◌∷◌, if◌then◌else◌, arith, Timespec,
  Bool-cases, inl, inr, owner_is,
}
use libpthread.Condition.{cond_broadcast, signal_queue}
use libpthread.Condition.System.{has_time}
use libpthread.Condition.Invariant.Waking.{deliver_counts}
use libpthread.HurdCond.{hurd_begin, hurd_result, hurd_thread_cancel}
use libpthread.HurdCond.System.{
  Pc, running, interrupted, draining, enqueued, blocked, unblocked, locking, System, after_begin,
  locked, after_wakes, is_draining, after_cancel, Action, wait, unlock, lock, ends_interrupted,
  releases, receives, times_out, resettles, drains, relocks, signal, broadcast, cancels, hurd_act,
  Reach, start, later,
}
use libpthread.HurdCond.Invariant.{
  Inv, AllInv, begin-Inv, interrupted-Inv, releases-Inv, receives-Inv, times_out-Inv, settle-Inv,
  take-Inv, relocks-Inv, cancel-Inv,
}

module _ (s : System) (inv : Inv s) where
  lock-Inv : (i : ℕ) (o : Option ℕ) → s.owner ≡ o → AllInv (locked s i o)
  lock-Inv i (some j) h = tt
  lock-Inv i none h = record {
    distinct = inv.distinct;
    queued = inv.queued;
    sent = inv.sent;
    hooked = inv.hooked;
    prompt = inv.prompt;
    kept = λ j q. ground (arith, inv.kept j);
  }

  unlock-Inv :
      (i : ℕ)
      → s.pc i ≡ running
      → AllInv (if owner_is s.owner i then some (record s { owner = none }) else none)
  unlock-Inv i here = elim (Bool-cases (owner_is s.owner i)) [
    | inl e ↦ rw e (record {
      distinct = inv.distinct;
      queued = inv.queued;
      sent = inv.sent;
      hooked = inv.hooked;
      prompt = inv.prompt;
      kept = λ j q. ground (arith, inv.kept j);
    })
    | inr e ↦ rw e tt
  ]

  signal-Inv :
      (l : List ℕ)
      → s.cond.queue ≡ l
      → Inv (after_wakes s (record s.cond { queue = (signal_queue l).0 }, (signal_queue l).1))
  signal-Inv [] e = record {
    distinct = ground (arith, inv.distinct);
    queued = λ j q. ground arith;
    sent = λ j. ground (arith, inv.sent j);
    hooked = inv.hooked;
    prompt = λ j q. ground arith;
    kept = inv.kept;
  }
  signal-Inv (t ∷ ts) e = record {
    distinct = ground (arith, inv.distinct);
    queued = λ j q. ground (arith, inv.queued j);
    sent = λ j. ground (arith, inv.sent j, inv.sent t, inv.queued j, inv.queued t, inv.distinct);
    hooked = inv.hooked;
    prompt = λ j q. ground (arith, inv.prompt j);
    kept = inv.kept;
  }

  broadcast-Inv : Inv (after_wakes s (cond_broadcast s.cond))
  broadcast-Inv = record {
    distinct = tt;
    queued = λ j q. ground arith;
    sent = λ j.
        ground (arith, inv.sent j, inv.queued j, deliver_counts s.cond.queue s.msgs j inv.distinct);
    hooked = inv.hooked;
    prompt = λ j q. ground arith;
    kept = inv.kept;
  }

-- Every step keeps the invariant.
wait_by-Inv :
    (s : System) (i : ℕ) (a : Option Timespec)
    → Inv s
    → s.pc i ≡ running
    → AllInv (
        if owner_is s.owner i
        then after_begin s i (has_time a) (hurd_begin s.cond (s.ss i) i a)
        else none)
wait_by-Inv s i a v here = elim (Bool-cases (owner_is s.owner i)) [
  | inl e ↦
      rw e
        (begin-Inv s v i a (has_time a) (hurd_begin s.cond (s.ss i) i a) here (ground arith) refl)
  | inr e ↦ rw e tt
]

cancel_by-Inv :
    (s : System) (t : ℕ)
    → Inv s
    → AllInv (
        if is_draining (s.pc t)
        then none
        else some (after_cancel s t (hurd_thread_cancel s.cond (s.ss t) t)))
cancel_by-Inv s t v = elim (Bool-cases (is_draining (s.pc t))) [
  | inl e ↦ rw e tt
  | inr e ↦ rw e (cancel-Inv s v t e)
]

act-Inv :
    (s : System) (i : ℕ) (a : Action) (p : Pc) → Inv s → s.pc i ≡ p → AllInv (hurd_act a p s i)
unfolding hurd_act
act-Inv s i lock running v here = lock-Inv s v i s.owner refl
act-Inv s i unlock running v here = unlock-Inv s v i here
act-Inv s i (wait a) running v here = wait_by-Inv s i a v here
act-Inv s i ends_interrupted interrupted v here = interrupted-Inv s v i here
act-Inv s i releases (enqueued t) v here = releases-Inv s v i t here
act-Inv s i receives (blocked t) v here = receives-Inv s v i t (s.msgs i) here refl
act-Inv s i times_out (blocked true) v here = times_out-Inv s v i here
act-Inv s i resettles (unblocked e) v here = settle-Inv s v i e here
act-Inv s i drains draining v here = take-Inv s v i (s.msgs i) here refl
act-Inv s i relocks (locking c e) v here = relocks-Inv s v i c e (hurd_result c e) s.owner here refl
act-Inv s i signal running v here = signal-Inv s v s.cond.queue refl
act-Inv s i broadcast running v here = broadcast-Inv s v
act-Inv s i (cancels t) running v here = cancel_by-Inv s t v
act-Inv s i a p v here = tt

pub Reach-Inv : {clock : Option ℕ} {s : System} → Reach clock s → Inv s
Reach-Inv {clock} start = record {
  distinct = tt;
  queued = λ i h. cc;
  sent = λ i. refl;
  hooked = λ i. refl;
  prompt = λ i h. refl;
  kept = λ i h. cc;
}
Reach-Inv {clock} (later {s} i b r h) = subst AllInv h (act-Inv s i b (s.pc i) (Reach-Inv r) refl)
