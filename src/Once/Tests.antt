-- ===== src/Once/Tests.antt =====
-- The theorems on a control where threads 1 and 2 call `pthread_once`.
use libpthread.Base.{ℕ, ◌≡◌, ◌≢◌, ◌≤◌, refl, none, some, List, [], ◌∷◌, Option-cases, inl, inr}
use libpthread.Once.{outside, returned, Once, once_act, once_init, Reach, start, later}
use libpthread.Once.Runs.{once_runs, once_goes_on}

-- The threads that take a step, in order; stops at one that cannot.
unfoldable run : Once → List ℕ → Once
run s [] = s
run s (i ∷ is) = elim (once_act s i (s.pc i)) [ none ↦ s | some t ↦ run t is ]

run-Reach : (is : List ℕ) (s : Once) → Reach s → Reach (run s is)
unfolding run
run-Reach [] s r = r
run-Reach (i ∷ is) s r = elim (Option-cases (once_act s i (s.pc i))) [
  | inl e ↦ rw (e, run) r
  | inr (t, e) ↦ rw (e, run) (run-Reach is t (later i r e))
]

-- Both threads see the flag unset; the first one calls the routine, and both return.
abbrev both : Once
both = run once_init (1 ∷ 2 ∷ 1 ∷ 1 ∷ 1 ∷ 1 ∷ 1 ∷ 2 ∷ 2 ∷ 2 ∷ [])

once_runs_example :
    (both.calls ≤ 1) × ((i : ℕ) → both.pc i ≡ returned → (both.calls ≡ 1) × (both.finished ≡ 1))
once_runs_example =
    once_runs (run-Reach (1 ∷ 2 ∷ 1 ∷ 1 ∷ 1 ∷ 1 ∷ 1 ∷ 2 ∷ 2 ∷ 2 ∷ []) once_init start)

second_returns : both.pc 2 ≡ returned
unfolding run once_act
second_returns = refl

-- The first thread is in the routine, and the second one waits for the lock.
abbrev one_in : Once
one_in = run once_init (1 ∷ 2 ∷ 1 ∷ 1 ∷ [])

once_goes_on_example :
    (j : ℕ) × (t : Once) × (one_in.pc j ≢ outside)
    × (one_in.pc j ≢ returned)
    × (once_act one_in j (one_in.pc j) ≡ some t)
unfolding run once_act
once_goes_on_example =
    once_goes_on (run-Reach (1 ∷ 2 ∷ 1 ∷ 1 ∷ []) once_init start) 2 (λ h. cc) (λ h. cc)
