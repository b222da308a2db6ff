-- ===== src/Rwlock/Exclusion.antt =====
-- Readers and writers exclude one another in every state that the threads reach.
use libpthread.Base.{
  ℕ, refl, ◌<◌, ◌≤◌, ◌≡◌, ◌≢◌, Bool, true, false, List, [], ◌∷◌, elem, length, aborts, arith,
  Timespec, Option, Distinct, remove, length-remove, elem-remove_other,
}
use libpthread.Rwlock.{
  Rwlock, finish_reader, finish_writer, rwlock_unlock, timedrdlock, timedwrlock, tryrdlock,
  trywrlock,
}
use libpthread.Rwlock.System.{
  Side, read, write, Pc, idle, has, finishing, System, Reach, locking, trying, ending,
}
use libpthread.Rwlock.Invariant.{Inv, reads}
use libpthread.Rwlock.Steps.{Reach-Inv}

-- No list without repetition whose members are all in another is longer than it.
Distinct-length-le :
    (xs ys : List ℕ)
    → Distinct xs
    → ((i : ℕ) → elem i xs ≡ true → elem i ys ≡ true)
    → length xs ≤ length ys
Distinct-length-le [] ys d h = omega arith
Distinct-length-le (x ∷ xs) ys d h = omega (
  arith,
  length-remove x ys (h x (ground arith)),
  Distinct-length-le xs (remove x ys) d.1 (λ i p. ground (arith, h i, elem-remove_other x i ys)),
)

length-pos : (j : ℕ) (xs : List ℕ) → elem j xs ≡ true → 0 < length xs
length-pos j [] h = cc
length-pos j (x ∷ xs) h = omega arith

-- A list that holds nothing is empty.
empty_of_elem : (xs : List ℕ) → ((i : ℕ) → elem i xs ≡ true → ⊥) → xs ≡ []
empty_of_elem [] h = refl
empty_of_elem (x ∷ xs) h = absurd (h x (ground arith))

-- A lock that is not held is unused.
unused_lem :
    {shares : List ℕ} {m : Rwlock} {pc : ℕ → Pc} {msgs : ℕ → ℕ}
    → Inv shares m pc msgs
    → m.held ≡ false
    → (m.reader_queue ≡ []) × (m.writer_queue ≡ []) × (m.readers ≡ 0)
unused_lem {m} inv f = (
  empty_of_elem m.reader_queue (λ i h. ground (arith, inv.waited_readers i h)),
  empty_of_elem m.writer_queue (λ i h. ground (arith, inv.waited_writers i h)),
  ground (arith, inv.held_read),
)

module _ {s : System} (r : Reach s) where
  -- In every state that the threads reach: two threads never write at once, and no thread reads
  -- while another writes, whatever time-outs occur.
  pub reader_writer_exclusion :
      (i j : ℕ) (d : Side) → s.pc i ≡ has write → s.pc j ≡ has d → (i ≡ j) × (d ≡ write)
  reader_writer_exclusion i j write p q =
      let (shares, inv) = Reach-Inv r in (ground (arith, inv.unique i j), ground arith)
  reader_writer_exclusion i j read p q =
      let (shares, inv) = Reach-Inv r in
      let counted : 0 < length shares = length-pos j shares (inv.shared j (ground arith)) in
      absurd (ground (arith, inv.exclusive i, inv.counted))

  -- In every state that the threads reach: the count of readers is no smaller than the number of
  -- threads that read, so the lock is not handed on or dropped while one of them does.
  pub readers_bound :
      (ts : List ℕ)
      → Distinct ts
      → ((i : ℕ) → elem i ts ≡ true → s.pc i ≡ has read)
      → length ts ≤ s.rwlock.readers
  readers_bound ts d h =
      let (shares, inv) = Reach-Inv r in
      let le = Distinct-length-le ts shares d (λ i m. inv.shared i (ground (arith, h i m))) in
      omega (arith, inv.counted)

  -- In every state that the threads reach: no assertion fails: not for a thread outside a call that
  -- locks or tries, not for one that has the lock and unlocks, and not at the end of a wait.
  pub rw_no_abort :
      (i : ℕ)
      → (s.pc i ≡ idle
          → (d : Side) (a : Option Timespec)
          → (locking d s.rwlock i a ≢ aborts) × (trying d s.rwlock ≢ aborts))
        × ((d : Side) → s.pc i ≡ has d → rwlock_unlock s.rwlock ≢ aborts)
        × ((d : Side) (e : Bool) → s.pc i ≡ finishing d e → ending d s.rwlock e ≢ aborts)
  unfolding timedrdlock timedwrlock tryrdlock trywrlock rwlock_unlock finish_reader finish_writer
  rw_no_abort i = (λ p d a. (lock_case d a p, try_case d), release_case, end_case)
    where
      inv : Inv ((Reach-Inv r).0) s.rwlock s.pc s.msgs
      inv = (Reach-Inv r).1

      lock_case : (d : Side) (a : Option Timespec) → s.pc i ≡ idle → locking d s.rwlock i a ≢ aborts
      lock_case read a p h =
          ground (arith, unused_lem inv, inv.queued_readers i, inv.queued_writers i, inv.no_waiting)
      lock_case write a p h =
          ground (arith, unused_lem inv, inv.queued_readers i, inv.queued_writers i)

      try_case : (d : Side) → trying d s.rwlock ≢ aborts
      try_case read h = ground (arith, unused_lem inv, inv.no_waiting)
      try_case write h = ground (arith, unused_lem inv)

      counted : (reads s.rwlock s.pc i ≡ true) → 0 < s.rwlock.readers
      counted q = omega (arith, inv.counted, length-pos i ((Reach-Inv r).0) (inv.shared i q))

      release_case : (d : Side) → s.pc i ≡ has d → rwlock_unlock s.rwlock ≢ aborts
      release_case read p h = ground (arith, counted (ground arith), inv.held_read)
      release_case write p h = ground (arith, inv.held_write i)

      end_case : (d : Side) (e : Bool) → s.pc i ≡ finishing d e → ending d s.rwlock e ≢ aborts
      end_case read true p h = cc
      end_case write true p h = cc
      end_case read false p h = ground (arith, counted (ground arith))
      end_case write false p h = ground (arith, inv.exclusive i)
