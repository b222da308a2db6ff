-- ===== src/Semaphore/Tests.antt =====
-- Runs of the semaphore model, and the theorems at concrete inputs.
use libpthread.Base.{
  ℕ, ◌+◌, ◌≡◌, refl, none, some, List, [], ◌∷◌, pos, elem, length, success, eopnotsupp, einval,
}
use libpthread.Semaphore.{
  sem_post, sem_timedwait, sem_settle, sem_finish, sem_init, sem_initializer,
}
use libpthread.Semaphore.System.{
  System, Action, wait, post, times_out, resettles, drains, ends, sem_run, sem_run-Reach, sem_start,
  Reach, start, idle,
}
use libpthread.Semaphore.Tokens.{is_owed}
use libpthread.Semaphore.Balance.{tokens_balance}

-- Thread 1 takes the token and thread 2 waits; thread 2 times out, but thread 1 posts before it has
-- left the queue.
abbrev late_acts : List (ℕ × Action)
late_acts =
    (1, wait none)
    ∷ (2, wait (some (record { sec = 5; nsec = pos 0 })))
    ∷ (2, times_out)
    ∷ (1, post)
    ∷ (2, resettles)
    ∷ (2, drains)
    ∷ (2, ends)
    ∷ []

abbrev late_state : System
late_state = sem_run (sem_start 1) late_acts

late_Reach : Reach 1 late_state
late_Reach = sem_run-Reach late_acts (sem_start 1) start

-- Its token is lost: everybody is out of the calls, and no token is left.
lost_token : (late_state.lost ≡ 1) × (late_state.sem.value ≡ 0) × (late_state.pc 2 ≡ idle)
unfolding sem_run sem_timedwait sem_post sem_settle sem_finish
lost_token = (refl, refl, refl)

tokens_balance_example :
    (1 + late_state.posts
      ≡ late_state.sem.value + late_state.takes + length late_state.owed + late_state.lost)
    × ((i : ℕ) → elem i late_state.owed ≡ is_owed (late_state.pc i) (elem i late_state.sem.queue))
tokens_balance_example = tokens_balance late_Reach

init_shared : sem_init none 1 3 ≡ (none, eopnotsupp)
unfolding sem_init
init_shared = refl

init_bounded : sem_init (some 7) 0 8 ≡ (none, einval)
unfolding sem_init
init_bounded = refl

init_private : sem_init (some 7) 0 7 ≡ (some (sem_initializer 7), success)
unfolding sem_init
init_private = refl
