-- ===== src/HurdCond/Tests.antt =====
-- The theorems on interrupted waits where threads 1 and 2 wait and thread 3 interrupts or wakes.
use libpthread.Base.{
  ℕ, ◌≡◌, refl, true, false, none, some, List, [], ◌∷◌, elem, Distinct, inl, inr, Option-cases,
  ◌==◌,
}
use libpthread.HurdCond.{hurd_begin, hurd_settle, hurd_thread_cancel}
use libpthread.HurdCond.System.{
  System, Action, wait, lock, releases, receives, resettles, relocks, cancels, hurd_act, hurd_init,
  Reach, start, later,
}
use libpthread.HurdCond.Invariant.{may_queue, due}
use libpthread.HurdCond.Waits.{
  told, has_told, hurd_no_lost_wakeup, hurd_interrupt_sticks, hurd_cancel_unblocks,
  hurd_returns_locked,
}

-- Threads in a given order, each with the action that it takes; stops at one that cannot be taken.
unfoldable run : System → List (ℕ × Action) → System
run s [] = s
run s ((i, b) ∷ rest) = elim (hurd_act b (s.pc i) s i) [ none ↦ s | some t ↦ run t rest ]

run-Reach : (acts : List (ℕ × Action)) (s : System) → Reach none s → Reach none (run s acts)
unfolding run
run-Reach [] s r = r
run-Reach ((i, b) ∷ rest) s r = elim (Option-cases (hurd_act b (s.pc i) s i)) [
  | inl e ↦ rw (e, run) r
  | inr (t, e) ↦ rw (e, run) (run-Reach rest t (later i b r e))
]

abbrev both_wait : List (ℕ × Action)
both_wait =
    (1, lock) ∷ (1, wait none) ∷ (1, releases) ∷ (2, lock) ∷ (2, wait none) ∷ (2, releases) ∷ []

abbrev waiting : System
waiting = run (hurd_init none) both_wait

waiting-Reach : Reach none waiting
waiting-Reach = run-Reach both_wait (hurd_init none) start

hurd_no_lost_wakeup_example :
    ((i : ℕ) → elem i waiting.cond.queue ≡ true → (waiting.ss i).cancel ≡ false)
    × Distinct waiting.cond.queue
    × ((i : ℕ) → elem i waiting.cond.queue ≡ true → may_queue (waiting.pc i) ≡ true)
    × ((i : ℕ) → waiting.msgs i ≡ due (waiting.pc i) (elem i waiting.cond.queue))
hurd_no_lost_wakeup_example = hurd_no_lost_wakeup waiting-Reach

hurd_cancel_unblocks_example :
    (u : System) × (hurd_act (cancels 1) (waiting.pc 3) waiting 3 ≡ some u)
    × (elem 1 u.cond.queue ≡ false)
    × (u.msgs 1 ≡ 1)
    × (told u 1 (u.pc 1) ≡ true)
    × ((j : ℕ)
        → (1 == j) ≡ false
        → (u.msgs j ≡ waiting.msgs j)
          × (elem j u.cond.queue ≡ elem j waiting.cond.queue)
          × (u.ss j ≡ waiting.ss j))
unfolding run hurd_act hurd_begin
hurd_cancel_unblocks_example = hurd_cancel_unblocks waiting-Reach 3 1 refl refl

-- Thread 1 is interrupted and about to lock the mutex.
abbrev before_lock : System
before_lock = run waiting ((3, cancels 1) ∷ (1, receives) ∷ (1, resettles) ∷ [])

abbrev after_lock : System
after_lock = run before_lock ((1, relocks) ∷ [])

before_lock-Reach : Reach none before_lock
before_lock-Reach =
    run-Reach ((3, cancels 1) ∷ (1, receives) ∷ (1, resettles) ∷ []) waiting waiting-Reach

hurd_interrupt_sticks_example : has_told after_lock 1 (after_lock.pc 1) (after_lock.last 1) ≡ true
unfolding run hurd_act hurd_begin hurd_settle hurd_thread_cancel
hurd_interrupt_sticks_example =
    hurd_interrupt_sticks before_lock after_lock 1 1 relocks (inl refl) refl

hurd_returns_locked_example : after_lock.owner ≡ some 1
unfolding run hurd_act hurd_begin hurd_settle hurd_thread_cancel
hurd_returns_locked_example =
    hurd_returns_locked before_lock-Reach 1 relocks (inl (λ h. cc)) refl refl
