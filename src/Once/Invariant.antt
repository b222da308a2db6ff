-- ===== src/Once/Invariant.antt =====
-- What holds of the control and the threads in every state that they reach.
use libpthread.Base.{
  ℕ, ◌≡◌, refl, Bool, true, false, Option, none, some, arith, Option-cases, inl, inr, subst,
}
use libpthread.Once.{
  Pc, outside, returned, locks, tests, in_routine, sets, unlocks, Once, goes_to, first_test,
  second_test, take_lock, once_act, once_init, Reach, start, later,
}

-- The thread has the lock.
abbrev pub has_lock : Pc → Bool
has_lock tests = true
has_lock in_routine = true
has_lock sets = true
has_lock unlocks = true
has_lock p = false

-- The places where the flag is set, and where it is not.
abbrev pub is_past : Pc → Bool
is_past unlocks = true
is_past returned = true
is_past p = false

abbrev pub is_before : Pc → Bool
is_before in_routine = true
is_before sets = true
is_before p = false

-- How often the routine was called and has returned, by where the thread with the lock is.
abbrev pub calls_at : Bool → Pc → ℕ
calls_at true p = 1
calls_at false in_routine = 1
calls_at false sets = 1
calls_at false p = 0

abbrev pub finished_at : Bool → Pc → ℕ
finished_at true p = 1
finished_at false sets = 1
finished_at false p = 0

abbrev pub holder : Once → Option ℕ → Pc
holder s none = outside
holder s (some i) = s.pc i

pub record Inv (s : Once) : Type 0 where
  pub held : (i : ℕ) → has_lock (s.pc i) ≡ true → s.lock ≡ some i
  pub holds : (i : ℕ) → s.lock ≡ some i → has_lock (s.pc i) ≡ true
  pub past : (i : ℕ) → is_past (s.pc i) ≡ true → s.run ≡ true
  pub before : (i : ℕ) → is_before (s.pc i) ≡ true → s.run ≡ false
  pub calls : s.calls ≡ calls_at s.run (holder s s.lock)
  pub finished : s.finished ≡ finished_at s.run (holder s s.lock)

init-Inv : Inv once_init
init-Inv = record {
  held = λ i h. ground arith;
  holds = λ i h. ground arith;
  past = λ i h. ground arith;
  before = λ i h. ground arith;
  calls = refl;
  finished = refl;
}

abbrev AllInv : Option Once → Type 0
AllInv none = Unit {0}
AllInv (some s) = Inv s

-- A thread without the lock goes where it still has none.
moves-Inv :
    (s : Once) (i : ℕ) (p : Pc)
    → Inv s
    → has_lock (s.pc i) ≡ false
    → has_lock p ≡ false
    → (is_past p ≡ true → s.run ≡ true)
    → is_before p ≡ false
    → Inv (goes_to s i p)
moves-Inv s i p v a b c d = elim (Option-cases s.lock) [
  | inl e ↦ record {
    held = λ j h. ground (arith, v.held j);
    holds = λ j h. ground (arith, v.holds j);
    past = λ j h. ground (arith, v.past j);
    before = λ j h. ground (arith, v.before j);
    calls = ground (arith, v.calls);
    finished = ground (arith, v.finished);
  }
  | inr (k, e) ↦ record {
    held = λ j h. ground (arith, v.held j);
    holds = λ j h. ground (arith, v.holds j);
    past = λ j h. ground (arith, v.past j);
    before = λ j h. ground (arith, v.before j);
    calls = ground (arith, v.calls, v.holds k);
    finished = ground (arith, v.finished, v.holds k);
  }
]

first_test-Inv :
    (s : Once) (i : ℕ) (r : Bool)
    → Inv s
    → has_lock (s.pc i) ≡ false
    → s.run ≡ r
    → Inv (first_test s i r)
first_test-Inv s i true v h r = moves-Inv s i returned v h refl (λ _. r) refl
first_test-Inv s i false v h r = moves-Inv s i locks v h refl (λ q. ground arith) refl

take-Inv :
    (s : Once) (i : ℕ) (o : Option ℕ)
    → Inv s
    → s.pc i ≡ locks
    → s.lock ≡ o
    → AllInv (take_lock s i o)
take-Inv s i (some k) v e h = tt
take-Inv s i none v e h = record {
  held = λ j q. ground (arith, v.held j);
  holds = λ j q. ground (arith, v.holds j);
  past = λ j q. ground (arith, v.past j);
  before = λ j q. ground (arith, v.before j);
  calls = ground (arith, v.calls);
  finished = ground (arith, v.finished);
}

second_test-Inv :
    (s : Once) (i : ℕ) (r : Bool)
    → Inv s
    → s.pc i ≡ tests
    → s.lock ≡ some i
    → s.run ≡ r
    → Inv (second_test s i r)
second_test-Inv s i true v e l r = record {
  held = λ j q. ground (arith, v.held j);
  holds = λ j q. ground (arith, v.holds j);
  past = λ j q. r;
  before = λ j q. ground (arith, v.before j);
  calls = ground (arith, v.calls);
  finished = ground (arith, v.finished);
}
second_test-Inv s i false v e l r = record {
  held = λ j q. ground (arith, v.held j);
  holds = λ j q. ground (arith, v.holds j);
  past = λ j q. ground (arith, v.past j);
  before = λ j q. r;
  calls = ground (arith, v.calls);
  finished = ground (arith, v.finished);
}

act-Inv : (s : Once) (i : ℕ) (p : Pc) → Inv s → s.pc i ≡ p → AllInv (once_act s i p)
unfolding once_act
act-Inv s i outside v e = first_test-Inv s i s.run v (ground arith) refl
act-Inv s i returned v e = first_test-Inv s i s.run v (ground arith) refl
act-Inv s i locks v e = take-Inv s i s.lock v e refl
act-Inv s i tests v e = second_test-Inv s i s.run v e (v.held i (ground arith)) refl
act-Inv s i in_routine v e =
    let l : s.lock ≡ some i = v.held i (ground arith) in
    let r : s.run ≡ false = v.before i (ground arith) in
    record {
      held = λ j q. ground (arith, v.held j);
      holds = λ j q. ground (arith, v.holds j);
      past = λ j q. ground (arith, v.past j);
      before = λ j q. r;
      calls = ground (arith, v.calls);
      finished = ground (arith, v.finished);
    }
act-Inv s i sets v e =
    let l : s.lock ≡ some i = v.held i (ground arith) in
    let r : s.run ≡ false = v.before i (ground arith) in
    record {
      held = λ j q. ground (arith, v.held j);
      holds = λ j q. ground (arith, v.holds j);
      past = λ j q. refl;
      before = λ j q. ground (arith, v.before j, v.held j);
      calls = ground (arith, v.calls);
      finished = ground (arith, v.finished);
    }
act-Inv s i unlocks v e =
    let l : s.lock ≡ some i = v.held i (ground arith) in
    let r : s.run ≡ true = v.past i (ground arith) in
    record {
      held = λ j q. ground (arith, v.held j);
      holds = λ j q. ground (arith, v.holds j);
      past = λ j q. r;
      before = λ j q. ground (arith, v.before j);
      calls = ground (arith, v.calls);
      finished = ground (arith, v.finished);
    }

pub Reach-Inv : {s : Once} → Reach s → Inv s
Reach-Inv start = init-Inv
Reach-Inv (later {s} i r h) = subst AllInv h (act-Inv s i (s.pc i) (Reach-Inv r) refl)
