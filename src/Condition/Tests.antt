-- ===== src/Condition/Tests.antt =====
-- The theorems on condition variables where threads 1 and 2 wait and thread 3 wakes or cancels.
use libpthread.Base.{
  ℕ, ◌≡◌, refl, true, false, Option, none, some, List, [], ◌∷◌, elem, Distinct, inl, inr,
  Option-cases,
}
use libpthread.Condition.{begin_wait, cond_settle, is_cancelled}
use libpthread.Condition.System.{
  System, running, blocked, Action, wait, lock, releases, receives, resettles, closes, relocks,
  broadcast, cancels, step, init, Reach, start, later,
}
use libpthread.Condition.Invariant.{may_queue, due}
use libpthread.Condition.Waiters.{no_lost_cancellation, one_message, cancel_unblocks}

-- Threads in a given order, each with the action that it takes; stops at one that cannot be taken.
unfoldable run : System → List (ℕ × Action) → System
unfolding step
run s [] = s
run s ((i, b) ∷ rest) = elim (step s i b) [ none ↦ s | some t ↦ run t rest ]

run-Reach :
    {clock : Option ℕ} (acts : List (ℕ × Action)) (s : System)
    → Reach clock s
    → Reach clock (run s acts)
unfolding run
run-Reach [] s r = r
run-Reach ((i, b) ∷ rest) s r = elim (Option-cases (step s i b)) [
  | inl e ↦ rw (e, run) r
  | inr (t, e) ↦ rw (e, run) (run-Reach rest t (later i b r e))
]

abbrev both_wait : List (ℕ × Action)
both_wait =
    (1, lock) ∷ (1, wait none) ∷ (1, releases) ∷ (2, lock) ∷ (2, wait none) ∷ (2, releases) ∷ []

abbrev waiting : System
waiting = run (init none) both_wait

waiting-Reach : Reach none waiting
waiting-Reach = run-Reach both_wait (init none) start

no_lost_cancellation_example : is_cancelled (waiting.thread 2) ≡ false
unfolding run begin_wait
no_lost_cancellation_example = no_lost_cancellation waiting-Reach 2 refl

one_message_example :
    Distinct waiting.cond.queue
    × ((i : ℕ) → elem i waiting.cond.queue ≡ true → may_queue (waiting.pc i) ≡ true)
    × ((i : ℕ) → waiting.msgs i ≡ due (waiting.pc i) (elem i waiting.cond.queue))
one_message_example = one_message waiting-Reach

cancel_unblocks_example :
    (u : System) × (step waiting 3 (cancels 1) ≡ some u)
    × (u.pc 1 ≡ blocked false)
    × (elem 1 u.cond.queue ≡ false)
    × (u.msgs 1 ≡ 1)
    × (is_cancelled (u.thread 1) ≡ true)
unfolding run begin_wait
cancel_unblocks_example = cancel_unblocks waiting-Reach 3 1 false refl refl refl

-- Thread 1 is signalled after thread 2, locks the mutex again and goes on.
abbrev wakes_up : List (ℕ × Action)
wakes_up = (3, broadcast) ∷ (1, receives) ∷ (1, resettles) ∷ (1, closes) ∷ (1, relocks) ∷ []

back_with_mutex : ((run waiting wakes_up).pc 1 ≡ running) × ((run waiting wakes_up).owner ≡ some 1)
unfolding run begin_wait cond_settle
back_with_mutex = (refl, refl)
