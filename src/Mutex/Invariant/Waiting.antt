-- ===== src/Mutex/Invariant/Waiting.antt =====
-- The sections of a call that waits, from the block to its return, keep the invariant.
use libpthread.Base.{
  ℕ, suc, ◌≡◌, ◌≢◌, Bool, true, false, List, elem, if◌then◌else◌, Errno, returns, aborts, update,
  arith, success, elem-remove_other, elem-remove_self, remove-Distinct, remove,
}
use libpthread.Mutex.{Mutex, finish}
use libpthread.Mutex.System.{Pc, idle, owning, draining, blocked, unblocked, finishing, deliver}
use libpthread.Mutex.Invariant.{Inv}

module _ {m : Mutex} {pc : ℕ → Pc} {msgs : ℕ → ℕ} (inv : Inv m pc msgs) (i : ℕ) where
  pub receives-Inv :
      (b : Bool) (k : ℕ)
      → pc i ≡ blocked b
      → msgs i ≡ suc k
      → Inv m (update pc i (unblocked false)) (update msgs i k)
  receives-Inv b k here h = record {
    distinct = inv.distinct;
    queued = λ j p. ground (arith, inv.queued j, inv.sent i);
    sent = λ j. ground (arith, inv.sent j, inv.sent i);
    unique = λ j l p q. ground (arith, inv.unique j l);
    held = λ j p. ground (arith, inv.held j);
    waited = inv.waited;
    owned = λ j l p. ground (arith, inv.owned j);
    named = ground (arith, inv.named);
    fresh = λ j l p. ground (arith, inv.fresh j);
    counted = λ j d k p. ground (arith, inv.counted j d, inv.held j, inv.single j d, inv.owned j);
    single = λ j d k p. ground (arith, inv.single j d, inv.held j);
    spare = λ j k o p. ground (arith, inv.spare j);
  }

  pub times_out-Inv : pc i ≡ blocked true → Inv m (update pc i (unblocked true)) msgs
  times_out-Inv here = record {
    distinct = inv.distinct;
    queued = λ j p. ground (arith, inv.queued j);
    sent = λ j. ground (arith, inv.sent j, inv.sent i);
    unique = λ j k p q. ground (arith, inv.unique j k);
    held = λ j p. ground (arith, inv.held j);
    waited = inv.waited;
    owned = λ j k p. ground (arith, inv.owned j);
    named = ground (arith, inv.named);
    fresh = λ j k p. ground (arith, inv.fresh j);
    counted = λ j d k p. ground (arith, inv.counted j d, inv.held j, inv.single j d, inv.owned j);
    single = λ j d k p. ground (arith, inv.single j d, inv.held j);
    spare = λ j k o p. ground (arith, inv.spare j);
  }

  pub drains-Inv :
      (k : ℕ)
      → pc i ≡ draining
      → msgs i ≡ suc k
      → Inv m (update pc i (finishing true)) (update msgs i k)
  drains-Inv k here h = record {
    distinct = inv.distinct;
    queued = λ j p. ground (arith, inv.queued j, inv.queued i);
    sent = λ j. ground (arith, inv.sent j, inv.sent i);
    unique = λ j l p q. ground (arith, inv.unique j l);
    held = λ j p. ground (arith, inv.held j);
    waited = inv.waited;
    owned = λ j l p. ground (arith, inv.owned j);
    named = ground (arith, inv.named);
    fresh = λ j l p. ground (arith, inv.fresh j);
    counted = λ j d k p. ground (arith, inv.counted j d, inv.held j, inv.single j d, inv.owned j);
    single = λ j d k p. ground (arith, inv.single j d, inv.held j);
    spare = λ j k o p. ground (arith, inv.spare j);
  }

  -- Nobody has taken the thread out of the queue: it has timed out, and leaves.
  pub leaves-Inv :
      (e : Bool)
      → pc i ≡ unblocked e
      → elem i m.queue ≡ true
      → Inv (record m { queue = remove i m.queue }) (update pc i (finishing e)) msgs
  leaves-Inv e here h =
      let gone = elem-remove_self i m.queue inv.distinct in
      let others = λ (j : ℕ) (n : i ≢ j). elem-remove_other i j m.queue n in
      record {
        distinct = remove-Distinct i m.queue inv.distinct;
        queued = λ j p. ground (arith, inv.queued j, others j, inv.queued i);
        sent = λ j. ground (arith, inv.sent j, inv.sent i, others j, inv.queued i);
        unique = λ j k p q. ground (arith, inv.unique j k, others j, others k, inv.queued i);
        held = λ j p. ground (arith, inv.held j, others j, inv.queued i);
        waited = λ j p. inv.waited i h;
        owned = λ j k p. ground (arith, inv.owned j, others j, inv.queued i);
        named = ground (arith, inv.named);
        fresh = λ j k p. ground (arith, inv.fresh j, others j, inv.queued i);
        counted =
            λ j d k p. ground (arith, inv.counted j d, inv.held j, inv.single j d, inv.owned j);
        single = λ j d k p. ground (arith, inv.single j d, inv.held j);
        spare = λ j k o p. ground (arith, inv.spare j);
      }

  -- Somebody has: the message that this one sent is received next, if the thread has timed out.
  pub taken-Inv :
      (e : Bool)
      → pc i ≡ unblocked e
      → elem i m.queue ≡ false
      → Inv m (update pc i (if e then draining else finishing e)) msgs
  taken-Inv true here h = record {
    distinct = inv.distinct;
    queued = λ j p. ground (arith, inv.queued j);
    sent = λ j. ground (arith, inv.sent j, inv.sent i);
    unique = λ j k p q. ground (arith, inv.unique j k);
    held = λ j p. ground (arith, inv.held j);
    waited = inv.waited;
    owned = λ j k p. ground (arith, inv.owned j);
    named = ground (arith, inv.named);
    fresh = λ j k p. ground (arith, inv.fresh j);
    counted = λ j d k p. ground (arith, inv.counted j d, inv.held j, inv.single j d, inv.owned j);
    single = λ j d k p. ground (arith, inv.single j d, inv.held j);
    spare = λ j k o p. ground (arith, inv.spare j);
  }
  taken-Inv false here h = record {
    distinct = inv.distinct;
    queued = λ j p. ground (arith, inv.queued j);
    sent = λ j. ground (arith, inv.sent j, inv.sent i);
    unique = λ j k p q. ground (arith, inv.unique j k);
    held = λ j p. ground (arith, inv.held j);
    waited = inv.waited;
    owned = λ j k p. ground (arith, inv.owned j);
    named = ground (arith, inv.named);
    fresh = λ j k p. ground (arith, inv.fresh j);
    counted = λ j d k p. ground (arith, inv.counted j d, inv.held j, inv.single j d, inv.owned j);
    single = λ j d k p. ground (arith, inv.single j d, inv.held j);
    spare = λ j k o p. ground (arith, inv.spare j);
  }

  pub ends_success-Inv :
      (e : Bool) {ws : List ℕ} {m' : Mutex}
      → pc i ≡ finishing e
      → finish m i e ≡ returns success ws m'
      → Inv m' (update pc i (owning 0)) (deliver ws msgs)
  unfolding finish
  ends_success-Inv e here h = record {
    distinct = ground (arith, inv.distinct);
    queued = λ j p. ground (arith, inv.queued j, inv.queued i);
    sent = λ j. ground (arith, inv.sent j, inv.sent i);
    unique = λ j k p q. ground (arith, inv.unique j k);
    held = λ j p. ground (arith, inv.held j);
    waited = λ j p. ground (arith, inv.waited j);
    owned = λ j k p. ground (arith, inv.owned j, inv.unique i j);
    named = ground (arith, inv.named);
    fresh = λ j k p. ground (arith, inv.fresh j, inv.unique i j);
    counted = λ j d k p. ground (arith, inv.counted j d, inv.held j, inv.single j d, inv.owned j);
    single = λ j d k p. ground (arith, inv.single j d, inv.held j);
    spare = λ j k o p. ground (arith, inv.spare j);
  }

  pub ends_error-Inv :
      (e : Bool) {r : Errno} {ws : List ℕ} {m' : Mutex}
      → pc i ≡ finishing e
      → r ≢ success
      → finish m i e ≡ returns r ws m'
      → Inv m' (update pc i idle) (deliver ws msgs)
  unfolding finish
  ends_error-Inv e here n h = record {
    distinct = ground (arith, inv.distinct);
    queued = λ j p. ground (arith, inv.queued j, inv.queued i);
    sent = λ j. ground (arith, inv.sent j, inv.sent i);
    unique = λ j k p q. ground (arith, inv.unique j k);
    held = λ j p. ground (arith, inv.held j);
    waited = λ j p. ground (arith, inv.waited j);
    owned = λ j k p. ground (arith, inv.owned j);
    named = ground (arith, inv.named);
    fresh = λ j k p. ground (arith, inv.fresh j);
    counted = λ j d k p. ground (arith, inv.counted j d, inv.held j, inv.single j d, inv.owned j);
    single = λ j d k p. ground (arith, inv.single j d, inv.held j);
    spare = λ j k o p. ground (arith, inv.spare j);
  }

  -- No assertion at the end of a call fails.
  pub ends_asserts : (e : Bool) → pc i ≡ finishing e → finish m i e ≢ aborts
  unfolding finish
  ends_asserts e here h = ground (arith, inv.owned i, inv.fresh i)
