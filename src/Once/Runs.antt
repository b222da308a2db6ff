-- ===== src/Once/Runs.antt =====
-- The routine is called once, and no call returns before it has returned.
use libpthread.Base.{
  ℕ, ◌+◌, ◌≡◌, ◌≢◌, ◌≤◌, refl, Bool, true, none, some, arith, Option-cases, inl, inr,
}
use libpthread.Once.{
  Pc, outside, returned, locks, tests, in_routine, sets, unlocks, Once, goes_to, first_test,
  second_test, once_act, Reach,
}
use libpthread.Once.Invariant.{has_lock, calls_at, holder, Reach-Inv}

calls_at-le : (r : Bool) (p : Pc) → calls_at r p ≤ 1
calls_at-le r p = ground arith

-- In every state that the threads reach, with their steps in any order: the routine was called once at
-- most; and where a thread has returned from `pthread_once`, it was called and has returned just once.
pub once_runs :
    {s : Once}
    → Reach s
    → (s.calls ≤ 1) × ((i : ℕ) → s.pc i ≡ returned → (s.calls ≡ 1) × (s.finished ≡ 1))
once_runs {s} r =
    let v = Reach-Inv r in
    (
      rw v.calls (calls_at-le s.run (holder s s.lock)),
      λ i e.
          let t : s.run ≡ true = v.past i (ground arith) in
          (ground (arith, v.calls), ground (arith, v.finished)),
    )

free_goes_on : (s : Once) (i : ℕ) (p : Pc) → s.lock ≡ none → (t : Once) × (once_act s i p ≡ some t)
unfolding once_act
free_goes_on s i outside e = (first_test s i s.run, refl)
free_goes_on s i returned e = (first_test s i s.run, refl)
free_goes_on s i locks e = (record (goes_to s i tests) { lock = some i }, rw e refl)
free_goes_on s i tests e = (second_test s i s.run, refl)
free_goes_on s i in_routine e = (record (goes_to s i sets) { finished = s.finished + 1 }, refl)
free_goes_on s i sets e = (record (goes_to s i unlocks) { run = true }, refl)
free_goes_on s i unlocks e = (record (goes_to s i returned) { lock = none }, refl)

holder_goes_on :
    (s : Once) (i : ℕ) (p : Pc)
    → has_lock p ≡ true
    → (t : Once) × (p ≢ outside) × (p ≢ returned) × (once_act s i p ≡ some t)
unfolding once_act
holder_goes_on s i outside e = cc
holder_goes_on s i returned e = cc
holder_goes_on s i locks e = cc
holder_goes_on s i tests e = (second_test s i s.run, (λ h. cc), (λ h. cc), refl)
holder_goes_on s i in_routine e =
    (record (goes_to s i sets) { finished = s.finished + 1 }, (λ h. cc), (λ h. cc), refl)
holder_goes_on s i sets e =
    (record (goes_to s i unlocks) { run = true }, (λ h. cc), (λ h. cc), refl)
holder_goes_on s i unlocks e =
    (record (goes_to s i returned) { lock = none }, (λ h. cc), (λ h. cc), refl)

-- In every state that the threads reach where one of them is in the call: there is a thread in the call
-- that can go on, so that the spin lock is not held by one that never lets go of it, if the routine
-- returns.
pub once_goes_on :
    {s : Once}
    → Reach s
    → (i : ℕ) → s.pc i ≢ outside
    → s.pc i ≢ returned
    → (j : ℕ) × (t : Once) × (s.pc j ≢ outside)
      × (s.pc j ≢ returned)
      × (once_act s j (s.pc j) ≡ some t)
once_goes_on {s} r i a b = elim (Option-cases s.lock) [
  | inl e ↦ let g = free_goes_on s i (s.pc i) e in (i, g.0, a, b, g.1)
  | inr (k, e) ↦
      let g = holder_goes_on s k (s.pc k) ((Reach-Inv r).holds k e) in (k, g.0, g.1, g.2, g.3)
]
