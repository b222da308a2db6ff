-- ===== src/Condition/System.antt =====
-- Threads that use one condition variable and may cancel each other, interleaved. The user's mutex
-- is what its own module shows of it: locked by one thread at most. A step of a thread is one stretch
-- of code between the points where others can see it.
use libpthread.Base.{
  ℕ, zero, suc, ◌+◌, ◌≡◌, Bool, true, false, if◌then◌else◌, Option, none, some, List, [], ◌∷◌,
  Timespec, update, owner_is,
}
use libpthread.Condition.{
  Cond, Thread, Begun, invalid_time, exits, aborts, queued, begin_wait, cond_settle, end_wait,
  cond_signal, cond_broadcast, Cancelled, cancel, is_cancelled, setcancelstate, setcanceltype,
}

-- `enqueued t`: in the queue, with a time-out if `t`, the mutex not released; `blocked t`;
-- `unblocked e`: back from the block, with a time-out if `e`; `draining`; `closing e`: before the
-- last section under the cancel lock; `locking c e`: before the mutex is locked, to exit if `c`.
pub data Pc : Type 0 where
  running exited draining : Pc
  enqueued blocked unblocked closing : Bool → Pc
  locking : Bool → Bool → Pc

pub record System : Type 0 where
  pub cond : Cond
  pub owner : Option ℕ
  pub thread : ℕ → Thread
  pub pc : ℕ → Pc
  pub msgs : ℕ → ℕ

abbrev pub deliver : List ℕ → (ℕ → ℕ) → ℕ → ℕ
deliver [] f = f
deliver (t ∷ ts) f = deliver ts (update f t (f t + 1))

abbrev pub to : System → ℕ → Pc → System
to s i p = record s { pc = update s.pc i p }

abbrev pub receive : System → ℕ → Pc → Option System
receive s i p = elim (s.msgs i) [
  | zero ↦ none
  | suc k ↦ some (record s { pc = update s.pc i p; msgs = update s.msgs i k })
]

abbrev pub has_time : Option Timespec → Bool
has_time none = false
has_time (some t) = true

-- A wait is called with the mutex locked.
abbrev pub after_begin : System → ℕ → Bool → Begun → Option System
after_begin s i t invalid_time = some s
after_begin s i t exits = some (to s i exited)
after_begin s i t aborts = none
after_begin s i t (queued c th clock) =
    some (record s { cond = c; thread = update s.thread i th; pc = update s.pc i (enqueued t) })

abbrev pub after_settle : System → ℕ → Bool → Option (Cond × Bool) → Option System
after_settle s i e none = none
after_settle s i e (some (c, true)) = some (record s { cond = c; pc = update s.pc i draining })
after_settle s i e (some (c, false)) = some (record s { cond = c; pc = update s.pc i (closing e) })

-- A thread that is made to exit leaves its code wherever it is.
abbrev pub after_cancel : System → ℕ → Cancelled → System
after_cancel s t r = record s {
  cond = r.cond;
  thread = update s.thread t r.thread;
  pc = if r.made_exit then update s.pc t exited else s.pc;
  msgs = deliver r.woken s.msgs;
}

abbrev pub after_set : System → ℕ → Option (Thread × ℕ) → Option System
after_set s i none = some s
after_set s i (some (t, old)) = some (record s { thread = update s.thread i t })

abbrev pub after_wakes : System → Cond × List ℕ → Option System
after_wakes s (c, ws) = some (record s { cond = c; msgs = deliver ws s.msgs })

pub data Action : Type 0 where
  wait : Option Timespec → Action
  unlock lock releases receives times_out resettles drains closes relocks signal broadcast
        testcancel :
      Action
  cancels setstate settype : ℕ → Action

unfoldable pub act : Action → Pc → System → ℕ → Option System
act lock running s i = elim s.owner [ none ↦ some (record s { owner = some i }) | some j ↦ none ]
act unlock running s i = if owner_is s.owner i then some (record s { owner = none }) else none
act (wait abstime) running s i =
    if owner_is s.owner i
    then after_begin s i (has_time abstime) (begin_wait s.cond (s.thread i) i abstime)
    else none
act releases (enqueued t) s i = some (record s { owner = none; pc = update s.pc i (blocked t) })
act receives (blocked t) s i = receive s i (unblocked false)
act times_out (blocked true) s i = some (to s i (unblocked true))
act resettles (unblocked e) s i = after_settle s i e (cond_settle s.cond i e)
act drains draining s i = receive s i (closing true)
act closes (closing e) s i = some (record s {
  thread = update s.thread i (end_wait (s.thread i)).0;
  pc = update s.pc i (locking (end_wait (s.thread i)).1 e);
})
act relocks (locking c e) s i = elim s.owner [
  | none ↦ some (record s { owner = some i; pc = update s.pc i (if c then exited else running) })
  | some j ↦ none
]
act signal running s i = after_wakes s (cond_signal s.cond)
act broadcast running s i = after_wakes s (cond_broadcast s.cond)
act (cancels t) running s i = some (after_cancel s t (cancel s.cond (s.thread t) t))
act (setstate n) running s i = after_set s i (setcancelstate (s.thread i) n)
act (settype n) running s i = after_set s i (setcanceltype (s.thread i) n)
act testcancel running s i = some (if is_cancelled (s.thread i) then to s i exited else s)
act _ _ s i = none

unfoldable pub step : System → ℕ → Action → Option System
unfolding act
step s i a = act a (s.pc i) s i

abbrev pub new_thread : Thread
new_thread = record {
  enabled = true;
  asynchronous = false;
  pending = false;
  hook = false;
  oldtype = false;
}

abbrev pub init : Option ℕ → System
init clock = record {
  cond = record { queue = []; attr = clock };
  owner = none;
  thread = λ _. new_thread;
  pc = λ _. running;
  msgs = λ _. 0;
}

pub data Reach (clock : Option ℕ) : System → Type 0 where
  start : Reach clock (init clock)
  later : {s t : System} (i : ℕ) (b : Action) → Reach clock s → step s i b ≡ some t → Reach clock t
