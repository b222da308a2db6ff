-- ===== src/Condition/Invariant/Waking.antt =====
-- The steps that wake waiting threads, and those of threads outside of a wait, keep the invariant.
use libpthread.Base.{
  ℕ, zero, suc, ◌+◌, ◌≡◌, Option, some, List, [], ◌∷◌, elem, Distinct, update, arith,
  elem-remove_other, elem-remove_self, remove-Distinct, Bool-cases, inl, inr, if◌then◌else◌, ◌==◌,
}
use libpthread.Condition.{Thread, cancel, setcancelstate, setcanceltype, signal_queue}
use libpthread.Condition.System.{running, exited, System, to, deliver, after_cancel}
use libpthread.Condition.Invariant.{Inv}

-- Each thread of a list without repetition is sent one message.
pub deliver_counts :
    (ws : List ℕ) (f : ℕ → ℕ) (j : ℕ)
    → Distinct ws
    → deliver ws f j ≡ f j + (if elem j ws then 1 else 0)
deliver_counts [] f j d = ground arith
deliver_counts (w ∷ ws) f j d =
    let r = deliver_counts ws (update f w (f w + 1)) j d.1 in
    elim (Bool-cases (w == j)) [ inl e ↦ ground (arith, r, d.0) | inr e ↦ ground (arith, r) ]

module _ {s : System} (inv : Inv s) (i : ℕ) where
  pub owner-Inv : (o : Option ℕ) → Inv (record s { owner = o })
  owner-Inv o = record {
    distinct = inv.distinct;
    queued = inv.queued;
    sent = inv.sent;
    hooked = inv.hooked;
    deferred = inv.deferred;
    prompt = inv.prompt;
  }

  pub exits-Inv : s.pc i ≡ running → Inv (to s i exited)
  exits-Inv here = record {
    distinct = ground (arith, inv.distinct);
    queued = λ j q. ground (arith, inv.queued j);
    sent = λ j. ground (arith, inv.sent j, inv.sent i, inv.queued i);
    hooked = λ j. ground (arith, inv.hooked j, inv.hooked i);
    deferred = λ j q. ground (arith, inv.deferred j, inv.deferred i);
    prompt = λ j q. ground (arith, inv.prompt j, inv.prompt i, inv.queued j);
  }

  pub setstate-Inv :
      (n old : ℕ) (th : Thread)
      → s.pc i ≡ running
      → setcancelstate (s.thread i) n ≡ some (th, old)
      → Inv (record s { thread = update s.thread i th })
  setstate-Inv zero old th here h = record {
    distinct = ground (arith, inv.distinct);
    queued = λ j q. ground (arith, inv.queued j);
    sent = λ j. ground (arith, inv.sent j, inv.sent i, inv.queued i);
    hooked = λ j. ground (arith, inv.hooked j, inv.hooked i);
    deferred = λ j q. ground (arith, inv.deferred j, inv.deferred i);
    prompt = λ j q. ground (arith, inv.prompt j, inv.prompt i, inv.queued j);
  }
  setstate-Inv (suc zero) old th here h = record {
    distinct = ground (arith, inv.distinct);
    queued = λ j q. ground (arith, inv.queued j);
    sent = λ j. ground (arith, inv.sent j, inv.sent i, inv.queued i);
    hooked = λ j. ground (arith, inv.hooked j, inv.hooked i);
    deferred = λ j q. ground (arith, inv.deferred j, inv.deferred i);
    prompt = λ j q. ground (arith, inv.prompt j, inv.prompt i, inv.queued j);
  }
  setstate-Inv (suc (suc n)) old th here h = ground arith

  pub settype-Inv :
      (n old : ℕ) (th : Thread)
      → s.pc i ≡ running
      → setcanceltype (s.thread i) n ≡ some (th, old)
      → Inv (record s { thread = update s.thread i th })
  settype-Inv zero old th here h = record {
    distinct = ground (arith, inv.distinct);
    queued = λ j q. ground (arith, inv.queued j);
    sent = λ j. ground (arith, inv.sent j, inv.sent i, inv.queued i);
    hooked = λ j. ground (arith, inv.hooked j, inv.hooked i);
    deferred = λ j q. ground (arith, inv.deferred j, inv.deferred i);
    prompt = λ j q. ground (arith, inv.prompt j, inv.prompt i, inv.queued j);
  }
  settype-Inv (suc zero) old th here h = record {
    distinct = ground (arith, inv.distinct);
    queued = λ j q. ground (arith, inv.queued j);
    sent = λ j. ground (arith, inv.sent j, inv.sent i, inv.queued i);
    hooked = λ j. ground (arith, inv.hooked j, inv.hooked i);
    deferred = λ j q. ground (arith, inv.deferred j, inv.deferred i);
    prompt = λ j q. ground (arith, inv.prompt j, inv.prompt i, inv.queued j);
  }
  settype-Inv (suc (suc n)) old th here h = ground arith

  -- `i` is the thread to be cancelled.
  pub cancel-Inv : Inv (after_cancel s i (cancel s.cond (s.thread i) i))
  unfolding cancel
  cancel-Inv = record {
    distinct = ground (arith, inv.distinct, remove-Distinct i s.cond.queue);
    queued = λ j q. ground (
      arith,
      inv.queued j,
      inv.queued i,
      inv.hooked i,
      inv.deferred i,
      inv.prompt i,
      inv.sent i,
      elem-remove_other i j s.cond.queue,
      elem-remove_self i s.cond.queue,
    );
    sent = λ j. ground (
      arith,
      inv.sent j,
      inv.queued i,
      inv.hooked i,
      inv.deferred i,
      inv.prompt i,
      inv.sent i,
      elem-remove_other i j s.cond.queue,
      elem-remove_self i s.cond.queue,
    );
    hooked = λ j.
        ground (
          arith,
          inv.hooked j,
          inv.queued i,
          inv.hooked i,
          inv.deferred i,
          inv.prompt i,
          inv.sent i,
        );
    deferred = λ j q. ground (
      arith,
      inv.deferred j,
      inv.queued i,
      inv.hooked i,
      inv.deferred i,
      inv.prompt i,
      inv.sent i,
    );
    prompt = λ j q. ground (
      arith,
      inv.prompt j,
      inv.queued i,
      inv.hooked i,
      inv.deferred i,
      inv.prompt i,
      inv.sent i,
      elem-remove_other i j s.cond.queue,
      elem-remove_self i s.cond.queue,
    );
  }

module _ {s : System} (inv : Inv s) where
  pub signal-Inv :
      (l q ws : List ℕ)
      → s.cond.queue ≡ l
      → signal_queue l ≡ (q, ws)
      → Inv (record s { cond = record { queue = q; attr = s.cond.attr }; msgs = deliver ws s.msgs })
  signal-Inv [] q ws e h = record {
    distinct = ground (arith, inv.distinct);
    queued = λ j m. ground (arith, inv.queued j);
    sent = λ j. ground (arith, inv.sent j);
    hooked = inv.hooked;
    deferred = inv.deferred;
    prompt = λ j m. ground (arith, inv.prompt j);
  }
  signal-Inv (t ∷ ts) q ws e h = record {
    distinct = ground (arith, inv.distinct);
    queued = λ j m. ground (arith, inv.queued j);
    sent = λ j. ground (arith, inv.sent j, inv.queued j, inv.queued t, inv.distinct);
    hooked = inv.hooked;
    deferred = inv.deferred;
    prompt = λ j m. ground (arith, inv.prompt j);
  }

  pub broadcast-Inv : Inv (record s {
    cond = record { queue = []; attr = s.cond.attr };
    msgs = deliver s.cond.queue s.msgs;
  })
  broadcast-Inv = record {
    distinct = tt;
    queued = λ j q. ground arith;
    sent = λ j.
        ground (arith, inv.sent j, inv.queued j, deliver_counts s.cond.queue s.msgs j inv.distinct);
    hooked = inv.hooked;
    deferred = inv.deferred;
    prompt = λ j q. ground arith;
  }
