-- ===== src/Rwlock/Invariant/Waiting.antt =====
-- Waiting for a read-write lock keeps the invariant.
use libpthread.Base.{
  ℕ, suc, ◌≡◌, ◌≢◌, Bool, true, false, List, elem, if◌then◌else◌, update, arith, elem-remove_other,
  elem-remove_self, remove-Distinct, remove,
}
use libpthread.Rwlock.{Rwlock}
use libpthread.Rwlock.System.{
  Side, read, write, Pc, idle, has, draining, blocked, unblocked, finishing,
}
use libpthread.Rwlock.Invariant.{Inv, queued}

module _ {shares : List ℕ} {m : Rwlock} {pc : ℕ → Pc} {msgs : ℕ → ℕ} (inv : Inv shares m pc msgs)
    (i : ℕ) where
  pub receives-Inv :
      (d : Side) (b : Bool) (k : ℕ)
      → pc i ≡ blocked d b
      → msgs i ≡ suc k
      → Inv shares m (update pc i (unblocked d false)) (update msgs i k)
  receives-Inv d b k here h = record {
    distinct_readers = inv.distinct_readers;
    distinct_writers = inv.distinct_writers;
    queued_readers = λ j p. ground (arith, inv.queued_readers j, inv.sent i);
    queued_writers = λ j p. ground (arith, inv.queued_writers j, inv.sent i);
    sent = λ j. ground (arith, inv.sent j, inv.sent i);
    counted = inv.counted;
    shared = λ j p. ground (arith, inv.shared j);
    unique = λ j l p q. ground (arith, inv.unique j l);
    exclusive = λ j p. ground (arith, inv.exclusive j);
    held_write = λ j p. ground (arith, inv.held_write j);
    held_read = inv.held_read;
    waited_readers = inv.waited_readers;
    waited_writers = inv.waited_writers;
    no_waiting = inv.no_waiting;
  }

  pub times_out-Inv :
      (d : Side) → pc i ≡ blocked d true → Inv shares m (update pc i (unblocked d true)) msgs
  times_out-Inv d here = record {
    distinct_readers = inv.distinct_readers;
    distinct_writers = inv.distinct_writers;
    queued_readers = λ j p. ground (arith, inv.queued_readers j);
    queued_writers = λ j p. ground (arith, inv.queued_writers j);
    sent = λ j. ground (arith, inv.sent j, inv.sent i);
    counted = inv.counted;
    shared = λ j p. ground (arith, inv.shared j);
    unique = λ j k p q. ground (arith, inv.unique j k);
    exclusive = λ j p. ground (arith, inv.exclusive j);
    held_write = λ j p. ground (arith, inv.held_write j);
    held_read = inv.held_read;
    waited_readers = inv.waited_readers;
    waited_writers = inv.waited_writers;
    no_waiting = inv.no_waiting;
  }

  pub drains-Inv :
      (d : Side) (k : ℕ)
      → pc i ≡ draining d
      → msgs i ≡ suc k
      → Inv shares m (update pc i (finishing d true)) (update msgs i k)
  drains-Inv d k here h = record {
    distinct_readers = inv.distinct_readers;
    distinct_writers = inv.distinct_writers;
    queued_readers = λ j p. ground (arith, inv.queued_readers j, inv.queued_readers i);
    queued_writers = λ j p. ground (arith, inv.queued_writers j, inv.queued_writers i);
    sent = λ j. ground (arith, inv.sent j, inv.sent i);
    counted = inv.counted;
    shared = λ j p. ground (arith, inv.shared j);
    unique = λ j l p q. ground (arith, inv.unique j l);
    exclusive = λ j p. ground (arith, inv.exclusive j);
    held_write = λ j p. ground (arith, inv.held_write j);
    held_read = inv.held_read;
    waited_readers = inv.waited_readers;
    waited_writers = inv.waited_writers;
    no_waiting = inv.no_waiting;
  }

  pub reader_leaves-Inv :
      (e : Bool)
      → pc i ≡ unblocked read e
      → elem i m.reader_queue ≡ true
      → Inv shares
          (record m { reader_queue = remove i m.reader_queue })
          (update pc i (finishing read e))
          msgs
  reader_leaves-Inv e here h =
      let gone = elem-remove_self i m.reader_queue inv.distinct_readers in
      let others = λ (j : ℕ) (n : i ≢ j). elem-remove_other i j m.reader_queue n in
      record {
        distinct_readers = remove-Distinct i m.reader_queue inv.distinct_readers;
        distinct_writers = inv.distinct_writers;
        queued_readers = λ j p. ground (arith, inv.queued_readers j, others j);
        queued_writers = λ j p. ground (arith, inv.queued_writers j, inv.queued_writers i);
        sent = λ j. ground (arith, inv.sent j, others j, inv.queued_readers i);
        counted = inv.counted;
        shared = λ j p. ground (arith, inv.shared j, others j, inv.queued_readers i);
        unique = λ j k p q. ground (arith, inv.unique j k);
        exclusive = λ j p. ground (arith, inv.exclusive j);
        held_write = λ j p. ground (arith, inv.held_write j);
        held_read = inv.held_read;
        waited_readers = λ j p. inv.waited_readers i h;
        waited_writers = inv.waited_writers;
        no_waiting = λ p. ground (arith, inv.no_waiting p);
      }

  pub writer_leaves-Inv :
      (e : Bool)
      → pc i ≡ unblocked write e
      → elem i m.writer_queue ≡ true
      → Inv shares
          (record m { writer_queue = remove i m.writer_queue })
          (update pc i (finishing write e))
          msgs
  writer_leaves-Inv e here h =
      let gone = elem-remove_self i m.writer_queue inv.distinct_writers in
      let others = λ (j : ℕ) (n : i ≢ j). elem-remove_other i j m.writer_queue n in
      record {
        distinct_readers = inv.distinct_readers;
        distinct_writers = remove-Distinct i m.writer_queue inv.distinct_writers;
        queued_readers = λ j p. ground (arith, inv.queued_readers j, inv.queued_readers i);
        queued_writers = λ j p. ground (arith, inv.queued_writers j, others j);
        sent = λ j. ground (arith, inv.sent j, others j, inv.queued_writers i);
        counted = inv.counted;
        shared = λ j p. ground (arith, inv.shared j);
        unique =
            λ j k p q. ground (arith, inv.unique j k, others j, others k, inv.queued_writers i);
        exclusive = λ j p. ground (arith, inv.exclusive j, others j, inv.queued_writers i);
        held_write = λ j p. inv.waited_writers i h;
        held_read = inv.held_read;
        waited_readers = inv.waited_readers;
        waited_writers = λ j p. inv.waited_writers i h;
        no_waiting = inv.no_waiting;
      }

  pub taken-Inv :
      (d : Side) (e : Bool)
      → pc i ≡ unblocked d e
      → queued d m i ≡ false
      → Inv shares m (update pc i (if e then draining d else finishing d e)) msgs
  taken-Inv read e here h = record {
    distinct_readers = inv.distinct_readers;
    distinct_writers = inv.distinct_writers;
    queued_readers = λ j p. ground (arith, inv.queued_readers j, inv.queued_readers i);
    queued_writers = λ j p. ground (arith, inv.queued_writers j, inv.queued_writers i);
    sent = λ j. ground (arith, inv.sent j, inv.sent i);
    counted = inv.counted;
    shared = λ j p. ground (arith, inv.shared j);
    unique = λ j k p q. ground (arith, inv.unique j k);
    exclusive = λ j p. ground (arith, inv.exclusive j);
    held_write = λ j p. ground (arith, inv.held_write j);
    held_read = inv.held_read;
    waited_readers = inv.waited_readers;
    waited_writers = inv.waited_writers;
    no_waiting = inv.no_waiting;
  }
  taken-Inv write e here h = record {
    distinct_readers = inv.distinct_readers;
    distinct_writers = inv.distinct_writers;
    queued_readers = λ j p. ground (arith, inv.queued_readers j, inv.queued_readers i);
    queued_writers = λ j p. ground (arith, inv.queued_writers j, inv.queued_writers i);
    sent = λ j. ground (arith, inv.sent j, inv.sent i);
    counted = inv.counted;
    shared = λ j p. ground (arith, inv.shared j);
    unique = λ j k p q. ground (arith, inv.unique j k);
    exclusive = λ j p. ground (arith, inv.exclusive j);
    held_write = λ j p. ground (arith, inv.held_write j);
    held_read = inv.held_read;
    waited_readers = inv.waited_readers;
    waited_writers = inv.waited_writers;
    no_waiting = inv.no_waiting;
  }

  pub returns-Inv : (d : Side) → pc i ≡ finishing d false → Inv shares m (update pc i (has d)) msgs
  returns-Inv d here = record {
    distinct_readers = inv.distinct_readers;
    distinct_writers = inv.distinct_writers;
    queued_readers = λ j p. ground (arith, inv.queued_readers j);
    queued_writers = λ j p. ground (arith, inv.queued_writers j);
    sent = λ j. ground (arith, inv.sent j, inv.sent i);
    counted = inv.counted;
    shared = λ j p. ground (arith, inv.shared j);
    unique = λ j k p q. ground (arith, inv.unique j k);
    exclusive = λ j p. ground (arith, inv.exclusive j);
    held_write = λ j p. ground (arith, inv.held_write j);
    held_read = inv.held_read;
    waited_readers = inv.waited_readers;
    waited_writers = inv.waited_writers;
    no_waiting = inv.no_waiting;
  }

  pub fails-Inv : (d : Side) → pc i ≡ finishing d true → Inv shares m (update pc i idle) msgs
  fails-Inv d here = record {
    distinct_readers = inv.distinct_readers;
    distinct_writers = inv.distinct_writers;
    queued_readers = λ j p. ground (arith, inv.queued_readers j);
    queued_writers = λ j p. ground (arith, inv.queued_writers j);
    sent = λ j. ground (arith, inv.sent j, inv.sent i);
    counted = inv.counted;
    shared = λ j p. ground (arith, inv.shared j);
    unique = λ j k p q. ground (arith, inv.unique j k);
    exclusive = λ j p. ground (arith, inv.exclusive j);
    held_write = λ j p. ground (arith, inv.held_write j);
    held_read = inv.held_read;
    waited_readers = inv.waited_readers;
    waited_writers = inv.waited_writers;
    no_waiting = inv.no_waiting;
  }
