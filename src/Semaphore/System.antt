-- ===== src/Semaphore/System.antt =====
-- Threads that use one semaphore, a section at a time, with a record of the tokens: `posts` and
-- `takes` count the calls of `sem_post` and the successful waits, `owed` lists the threads that have
-- been handed a token and are on their way out of the call, and `lost` counts the tokens whose
-- thread returned ETIMEDOUT instead.
use libpthread.Base.{
  ℕ, zero, suc, ◌+◌, ◌≡◌, Bool, true, false, inl, inr, Option-cases, Option, none, some, List, [],
  ◌∷◌, ◌++◌, Outcome, returns, waits, spins, aborts, success, Timespec, update, remove,
}
use libpthread.Semaphore.{
  Semaphore, sem_initializer, sem_timedwait, sem_trywait, sem_post, sem_settle, sem_finish,
}

pub data Pc : Type 0 where
  idle draining : Pc
  blocked unblocked finishing : Bool → Pc

pub record System : Type 0 where
  pub sem : Semaphore
  pub pc : ℕ → Pc
  pub msgs : ℕ → ℕ
  pub posts : ℕ
  pub takes : ℕ
  pub lost : ℕ
  pub owed : List ℕ

abbrev pub deliver : List ℕ → (ℕ → ℕ) → ℕ → ℕ
deliver [] f = f
deliver (t ∷ ts) f = deliver ts (update f t (f t + 1))

abbrev pub at : System → ℕ → Pc → Semaphore → System
at s i p m = record s { sem = m; pc = update s.pc i p }

abbrev pub after_wait : System → ℕ → Bool → Outcome Semaphore → Option System
after_wait s i t (returns success ws m) =
    some (record s { sem = m; pc = update s.pc i idle; takes = s.takes + 1 })
after_wait s i t (returns e ws m) = some (at s i idle m)
after_wait s i t (waits m) = some (at s i (blocked t) m)
after_wait s i t spins = none
after_wait s i t aborts = none

abbrev pub after_post : System → ℕ → Outcome Semaphore → Option System
after_post s i (returns success ws m) =
    some (record s { sem = m; msgs = deliver ws s.msgs; posts = s.posts + 1; owed = ws ++ s.owed })
after_post s i _ = none

abbrev pub after_settle : System → ℕ → Bool → Option (Semaphore × Bool) → Option System
after_settle s i e none = none
after_settle s i e (some (m, true)) = some (at s i draining m)
after_settle s i e (some (m, false)) = some (at s i (finishing e) m)

-- The end of a call that has waited: a thread that was handed a token has it now.
abbrev pub after_finish : System → ℕ → Outcome Semaphore → Option System
after_finish s i (returns success ws m) =
    some
      (record s { sem = m; pc = update s.pc i idle; takes = s.takes + 1; owed = remove i s.owed })
after_finish s i (returns e ws m) = some (at s i idle m)
after_finish s i _ = none

-- The message is received. In the second block it comes with a token that will not be used.
abbrev pub woken : System → ℕ → Option System
woken s i = elim (s.msgs i) [
  | zero ↦ none
  | suc k ↦ some (record s { pc = update s.pc i (unblocked false); msgs = update s.msgs i k })
]

abbrev pub drained : System → ℕ → Option System
drained s i = elim (s.msgs i) [
  | zero ↦ none
  | suc k ↦ some (record s {
    pc = update s.pc i (finishing true);
    msgs = update s.msgs i k;
    lost = s.lost + 1;
    owed = remove i s.owed;
  })
]

pub data Action : Type 0 where
  wait : Option Timespec → Action
  try post receives times_out resettles drains ends : Action

abbrev pub is_some : Option Timespec → Bool
is_some none = false
is_some (some t) = true

unfoldable pub sem_act : Action → Pc → System → ℕ → Option System
sem_act (wait a) idle s i = after_wait s i (is_some a) (sem_timedwait s.sem i a)
sem_act try idle s i = after_wait s i false (sem_trywait s.sem)
sem_act post idle s i = after_post s i (sem_post s.sem)
sem_act receives (blocked t) s i = woken s i
sem_act times_out (blocked true) s i = some (at s i (unblocked true) s.sem)
sem_act resettles (unblocked e) s i = after_settle s i e (sem_settle s.sem i e)
sem_act drains draining s i = drained s i
sem_act ends (finishing e) s i = after_finish s i (sem_finish s.sem e)
sem_act _ _ s i = none

unfoldable pub sem_step : System → ℕ → Action → Option System
unfolding sem_act
sem_step s i a = sem_act a (s.pc i) s i

abbrev pub sem_start : ℕ → System
sem_start n = record {
  sem = sem_initializer n;
  pc = λ _. idle;
  msgs = λ _. 0;
  posts = 0;
  takes = 0;
  lost = 0;
  owed = [];
}

pub data Reach (n : ℕ) : System → Type 0 where
  start : Reach n (sem_start n)
  later : {s t : System} (i : ℕ) (b : Action) → Reach n s → sem_step s i b ≡ some t → Reach n t

unfoldable pub sem_run : System → List (ℕ × Action) → System
unfolding sem_step
sem_run s [] = s
sem_run s ((i, b) ∷ rest) = elim (sem_step s i b) [ none ↦ s | some t ↦ sem_run t rest ]

pub sem_run-Reach :
    {n : ℕ} (acts : List (ℕ × Action)) (s : System) → Reach n s → Reach n (sem_run s acts)
unfolding sem_run
sem_run-Reach [] s r = r
sem_run-Reach ((i, b) ∷ rest) s r = elim (Option-cases (sem_step s i b)) [
  | inl e ↦ rw (e, sem_run) r
  | inr (t, e) ↦ rw (e, sem_run) (sem_run-Reach rest t (later i b r e))
]
