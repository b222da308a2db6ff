-- ===== src/Signals/Waiters.antt =====
-- The threads that wait for a signal: signal/sigwaiter.c. Each waiter is known by its thread, which
-- has one at most at a time; `sigwaiter t` says that the pointer in the signal state of `t` is set.
pub mod Order
use libpthread.Base.{
  ℕ, ◌≡◌, ◌==◌, Bool, true, false, if◌then◌else◌, Option, none, some, List, [], ◌∷◌, Distinct,
  update,
}
use libpthread.Signals.{SigSet}

pub record Waiters : Type 0 where
  pub sigwaiters : Option ℕ
  pub next : ℕ → Option ℕ
  pub prev : ℕ → Option ℕ
  pub signals : ℕ → SigSet
  pub signo : ℕ → ℕ
  pub sigwaiter : ℕ → Bool

abbrev pub is_set : Option ℕ → Bool
is_set none = false
is_set (some t) = true

-- `if (p) p->prev = v`
abbrev pub set_prev : Option ℕ → Option ℕ → Waiters → Waiters
set_prev none v w = w
set_prev (some p) v w = record w { prev = update w.prev p v }

-- `if (p) p->next = v; else sigwaiters = v`
abbrev pub set_next : Option ℕ → Option ℕ → Waiters → Waiters
set_next none v w = record w { sigwaiters = v }
set_next (some p) v w = record w { next = update w.next p v }

abbrev pub prev_of : Waiters → Option ℕ → Option ℕ
prev_of w none = none
prev_of w (some p) = w.prev p

abbrev pub placed : ℕ → SigSet → Waiters → Waiters
placed t set w = record (set_prev w.sigwaiters (some t) w) {
  sigwaiters = some t;
  next = update (set_prev w.sigwaiters (some t) w).next t w.sigwaiters;
  prev = update (set_prev w.sigwaiters (some t) w).prev t none;
  signals = update (set_prev w.sigwaiters (some t) w).signals t set;
  signo = update (set_prev w.sigwaiters (some t) w).signo t 0;
  sigwaiter = update (set_prev w.sigwaiters (some t) w).sigwaiter t true;
}

-- `sigwaiter_block` up to the wait; none is a failed assertion.
unfoldable pub sigwaiter_block : ℕ → SigSet → Waiters → Option Waiters
sigwaiter_block t set w =
    if w.sigwaiter t
    then none
    else if is_set (prev_of w w.sigwaiters)
    then none
    else some (placed t set w)

-- `sigwaiter_unblock` on the list, once the signal has been put into the waiter
unfoldable pub sigwaiter_unblock : ℕ → Waiters → Waiters
sigwaiter_unblock t w = set_next (w.prev t) (w.next t) (set_prev (w.next t) (w.prev t) w)

-- The rest of `sigwaiter_block`: the signal, and none where it has not been set.
unfoldable pub sigwaiter_done : ℕ → Waiters → Option (ℕ × Waiters)
sigwaiter_done t w =
    if w.signo t == 0
    then none
    else some (w.signo t, record w { sigwaiter = update w.sigwaiter t false })

-- From the pointer `o` on the waiters are `xs`, the first one's `prev` being `p`.
abbrev pub Chain : Waiters → Option ℕ → Option ℕ → List ℕ → Type 0
Chain w p o [] = o ≡ none
Chain w p o (x ∷ xs) = (o ≡ some x) × (w.prev x ≡ p) × Chain w (some x) (w.next x) xs

-- The waiters are `xs`, the last one that came first.
abbrev pub Waiting : Waiters → List ℕ → Type 0
Waiting w xs = Chain w none w.sigwaiters xs × Distinct xs
