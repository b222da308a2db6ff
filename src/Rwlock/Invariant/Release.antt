-- ===== src/Rwlock/Invariant/Release.antt =====
-- Unlocking a read-write lock keeps the invariant.
use libpthread.Base.{
  ℕ, ◌+◌, ◌<◌, ◌≤◌, ◌-◌, ltb, ◌≡◌, ◌≢◌, refl, subst, true, false, List, [], ◌∷◌, elem, Distinct,
  if◌then◌else◌, returns, update, arith, success, elem-remove_other, length-remove, remove, inl,
  inr, Bool-cases, length,
}
use libpthread.Rwlock.{Rwlock, rwlock_unlock, hand_over}
use libpthread.Rwlock.System.{Side, read, write, Pc, idle, has, deliver}
use libpthread.Rwlock.Invariant.{Inv, reads, writes, due, may_queue}

-- A list with one member has no other.
single : (i j : ℕ) (xs : List ℕ) → length xs ≤ 1 → elem i xs ≡ true → elem j xs ≡ true → i ≡ j
single i j [] l p q = cc
single i j (x ∷ []) l p q = ground arith
single i j (x ∷ y ∷ xs) l p q = absurd (omega arith)

empty_of_length : (xs : List ℕ) → length xs ≡ 0 → xs ≡ []
empty_of_length [] l = refl
empty_of_length (x ∷ xs) l = absurd (omega arith)

-- The lock is still held, but by nobody: what is left before it is handed over.
record Vacant (m : Rwlock) (pc : ℕ → Pc) (msgs : ℕ → ℕ) : Type 0 where
  distinct_readers : Distinct m.reader_queue
  distinct_writers : Distinct m.writer_queue
  queued_readers : (i : ℕ) → elem i m.reader_queue ≡ true → may_queue read (pc i) ≡ true
  queued_writers : (i : ℕ) → elem i m.writer_queue ≡ true → may_queue write (pc i) ≡ true
  sent : (i : ℕ) → msgs i ≡ due m i (pc i)
  held : m.held ≡ true
  none_counted : m.readers ≡ 0
  nobody_reads : (i : ℕ) → reads m pc i ≡ false
  nobody_writes : (i : ℕ) → writes m pc i ≡ false

-- One message to each thread of a list without repetition.
deliver-elem :
    (ts : List ℕ) (f : ℕ → ℕ) (j : ℕ)
    → Distinct ts
    → deliver ts f j ≡ (if elem j ts then f j + 1 else f j)
deliver-elem [] f j d = refl
deliver-elem (t ∷ ts) f j d = ground (arith, deliver-elem ts (update f t (f t + 1)) j d.1)

-- The state and the wakeups of a call that returns.
as_returned :
    {shares : List ℕ} {m m' : Rwlock} {pc : ℕ → Pc} (msgs : ℕ → ℕ) (ws ws' : List ℕ)
    → Inv shares m pc (deliver ws msgs)
    → returns success ws m ≡ returns success ws' m'
    → Inv shares m' pc (deliver ws' msgs)
as_returned {shares} {m} {m'} {pc} msgs ws ws' v h =
    let p : m ≡ m' = cc in
    let q : ws ≡ ws' = cc in
    subst (λ n. Inv shares n pc (deliver ws' msgs)) p
      (subst (λ n. Inv shares m pc (deliver n msgs)) q v)

writer_next :
    {m : Rwlock} {pc : ℕ → Pc} {msgs : ℕ → ℕ} (v : Vacant m pc msgs) (w : ℕ) (ws : List ℕ)
    → m.writer_queue ≡ w ∷ ws
    → Inv [] (record m { writer_queue = ws }) pc (deliver (w ∷ []) msgs)
writer_next v w ws e = record {
  distinct_readers = v.distinct_readers;
  distinct_writers = ground (arith, v.distinct_writers);
  queued_readers = v.queued_readers;
  queued_writers = λ j p. ground (arith, v.queued_writers j);
  sent = λ j. ground (arith, v.sent j, v.distinct_writers, v.queued_writers w);
  counted = v.none_counted;
  shared = λ j p. absurd (ground (arith, v.nobody_reads j));
  unique = λ j k p q. ground (arith, v.nobody_writes j, v.nobody_writes k);
  exclusive = λ j p. v.none_counted;
  held_write = λ j p. v.held;
  held_read = λ p. v.held;
  waited_readers = λ j p. v.held;
  waited_writers = λ j p. v.held;
  no_waiting = λ p. absurd (ground (arith, v.none_counted));
}

readers_next :
    {m : Rwlock} {pc : ℕ → Pc} {msgs : ℕ → ℕ} (v : Vacant m pc msgs)
    → m.writer_queue ≡ []
    → Inv m.reader_queue
        (record m { readers = 0 + length m.reader_queue; reader_queue = [] })
        pc
        (deliver m.reader_queue msgs)
readers_next {m} {pc} {msgs} v e = record {
  distinct_readers = tt;
  distinct_writers = v.distinct_writers;
  queued_readers = λ j p. cc;
  queued_writers = v.queued_writers;
  sent = λ j.
      ground (
        arith,
        v.sent j,
        deliver-elem m.reader_queue msgs j v.distinct_readers,
        v.queued_readers j,
      );
  counted = omega arith;
  shared = λ j p. ground (arith, v.nobody_reads j);
  unique = λ j k p q. ground (arith, v.nobody_writes j, v.nobody_writes k);
  exclusive = λ j p. absurd (ground (arith, v.nobody_writes j));
  held_write = λ j p. v.held;
  held_read = λ p. v.held;
  waited_readers = λ j p. v.held;
  waited_writers = λ j p. v.held;
  no_waiting = λ p. refl;
}

nobody_next :
    {m : Rwlock} {pc : ℕ → Pc} {msgs : ℕ → ℕ} (v : Vacant m pc msgs)
    → m.writer_queue ≡ []
    → m.reader_queue ≡ []
    → Inv [] (record m { held = false }) pc msgs
nobody_next v e f = record {
  distinct_readers = v.distinct_readers;
  distinct_writers = v.distinct_writers;
  queued_readers = v.queued_readers;
  queued_writers = v.queued_writers;
  sent = λ j. ground (arith, v.sent j);
  counted = v.none_counted;
  shared = λ j p. absurd (ground (arith, v.nobody_reads j));
  unique = λ j k p q. ground (arith, v.nobody_writes j, v.nobody_writes k);
  exclusive = λ j p. v.none_counted;
  held_write = λ j p. absurd (ground (arith, v.nobody_writes j));
  held_read = λ p. absurd (ground (arith, v.none_counted));
  waited_readers = λ j p. absurd (ground arith);
  waited_writers = λ j p. absurd (ground arith);
  no_waiting = λ p. absurd (ground (arith, v.none_counted));
}

module _ {shares : List ℕ} {m : Rwlock} {pc : ℕ → Pc} {msgs : ℕ → ℕ} (inv : Inv shares m pc msgs)
    (i : ℕ) where
  -- A thread stops reading while others read.
  fewer-Inv :
      pc i ≡ has read
      → 1 < m.readers
      → Inv (remove i shares) (record m { readers = m.readers - 1 }) (update pc i idle) msgs
  fewer-Inv here l =
      let mine : elem i shares ≡ true = inv.shared i (ground arith) in
      let others = λ (j : ℕ) (n : i ≢ j). elem-remove_other i j shares n in
      record {
        distinct_readers = inv.distinct_readers;
        distinct_writers = inv.distinct_writers;
        queued_readers = λ j p. ground (arith, inv.queued_readers j);
        queued_writers = λ j p. ground (arith, inv.queued_writers j);
        sent = λ j. ground (arith, inv.sent j, inv.sent i);
        counted = omega (arith, inv.counted, length-remove i shares mine);
        shared = λ j p. ground (arith, inv.shared j, others j);
        unique = λ j k p q. ground (arith, inv.unique j k);
        exclusive = λ j p. ground (arith, inv.exclusive j);
        held_write = λ j p. ground (arith, inv.held_write j);
        held_read = λ p. inv.held_read (omega arith);
        waited_readers = inv.waited_readers;
        waited_writers = inv.waited_writers;
        no_waiting = λ p. inv.no_waiting (omega arith);
      }

  last_reader-Vacant :
      pc i ≡ has read → m.readers ≤ 1 → Vacant (record m { readers = 0 }) (update pc i idle) msgs
  last_reader-Vacant here l =
      let mine : elem i shares ≡ true = inv.shared i (ground arith) in
      let some_reader = length-remove i shares mine in
      record {
        distinct_readers = inv.distinct_readers;
        distinct_writers = inv.distinct_writers;
        queued_readers = λ j p. ground (arith, inv.queued_readers j);
        queued_writers = λ j p. ground (arith, inv.queued_writers j);
        sent = λ j. ground (arith, inv.sent j, inv.sent i);
        held = inv.held_read (omega (arith, inv.counted));
        none_counted = refl;
        nobody_reads = λ j. ground (arith, inv.shared j, single i j shares, inv.counted);
        nobody_writes = λ j. ground (arith, inv.exclusive j, inv.counted);
      }

  writer-Vacant : pc i ≡ has write → Vacant (record m { readers = 0 }) (update pc i idle) msgs
  writer-Vacant here =
      let alone : m.readers ≡ 0 = inv.exclusive i (ground arith) in
      let unshared : shares ≡ [] = empty_of_length shares (omega (arith, inv.counted)) in
      record {
        distinct_readers = inv.distinct_readers;
        distinct_writers = inv.distinct_writers;
        queued_readers = λ j p. ground (arith, inv.queued_readers j);
        queued_writers = λ j p. ground (arith, inv.queued_writers j);
        sent = λ j. ground (arith, inv.sent j, inv.sent i);
        held = inv.held_write i (ground arith);
        none_counted = refl;
        nobody_reads = λ j. ground (arith, inv.shared j);
        nobody_writes = λ j. ground (arith, inv.unique i j);
      }

  vacant :
      (d : Side)
      → pc i ≡ has d
      → m.readers ≤ 1
      → Vacant (record m { readers = 0 }) (update pc i idle) msgs
  vacant read here l = last_reader-Vacant here l
  vacant write here l = writer-Vacant here

  handed-Inv :
      {ws : List ℕ} {m' : Rwlock} (v : Vacant (record m { readers = 0 }) (update pc i idle) msgs)
      (qs rs : List ℕ)
      → m.writer_queue ≡ qs
      → m.reader_queue ≡ rs
      → hand_over (record m { readers = 0 }) qs rs ≡ returns success ws m'
      → (shares' : List ℕ) × Inv shares' m' (update pc i idle) (deliver ws msgs)
  unfolding hand_over
  handed-Inv {ws} v (q ∷ qs) rs a b h = ([], as_returned msgs (q ∷ []) ws (writer_next v q qs a) h)
  handed-Inv {ws} v [] (r ∷ rs) a b h =
      (m.reader_queue, as_returned msgs m.reader_queue ws (readers_next v a) (rw b h))
  handed-Inv {ws} v [] [] a b h = ([], as_returned msgs [] ws (nobody_next v a b) h)

  -- A thread that reads or writes unlocks.
  pub release-Inv :
      (d : Side) {ws : List ℕ} {m' : Rwlock}
      → pc i ≡ has d
      → rwlock_unlock m ≡ returns success ws m'
      → (shares' : List ℕ) × Inv shares' m' (update pc i idle) (deliver ws msgs)
  unfolding rwlock_unlock
  release-Inv d {ws} here h = elim (Bool-cases (ltb 1 m.readers)) [
    | inl more ↦
        let reads_on : d ≡ read = reader d here more in
        (
          remove i shares,
          as_returned msgs [] ws (fewer-Inv (rw reads_on at here) (ground arith)) (ground arith),
        )
    | inr last ↦
        handed-Inv {ws = ws} (vacant d here (ground arith)) m.writer_queue m.reader_queue refl refl
          (ground arith)
  ]
    where
      reader : (c : Side) → pc i ≡ has c → ltb 1 m.readers ≡ true → c ≡ read
      reader read p q = refl
      reader write p q = absurd (ground (arith, inv.exclusive i))
