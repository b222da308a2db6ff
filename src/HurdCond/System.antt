-- ===== src/HurdCond/System.antt =====
-- Threads that wait on one condition variable in this way, wake and interrupt each other, interleaved.
-- The mutex is locked by one thread at most. The lock of a signal state is held from the return from
-- the block to the end of the wait, also while a message is drained: nobody interrupts a thread then.
use libpthread.Base.{
  ℕ, zero, suc, ◌≡◌, Bool, true, false, if◌then◌else◌, Option, none, some, List, [], Timespec,
  Errno, success, einval, update, owner_is,
}
use libpthread.Condition.{Cond, cond_signal, cond_broadcast}
use libpthread.Condition.System.{deliver, has_time}
use libpthread.HurdCond.{
  SigState, Begun, invalid_time, aborts, cancelled, queued, hurd_begin, hurd_settle, hurd_end,
  hurd_result, hurd_thread_cancel,
}

-- `interrupted`: cancelled on entry, before the last section; `enqueued t`: in the queue, with a
-- time-out if `t`, the mutex not released; `blocked t`; `unblocked e`: back from the block, with a
-- time-out if `e`; `draining`; `locking c e`: before the mutex is locked, to return by `c` and `e`.
pub data Pc : Type 0 where
  running interrupted draining : Pc
  enqueued blocked unblocked : Bool → Pc
  locking : Bool → Bool → Pc

-- `last i` is what the last call of thread `i` has returned.
pub record System : Type 0 where
  pub cond : Cond
  pub owner : Option ℕ
  pub ss : ℕ → SigState
  pub pc : ℕ → Pc
  pub msgs : ℕ → ℕ
  pub last : ℕ → Errno

abbrev pub goes_to : System → ℕ → Pc → System
goes_to s i p = record s { pc = update s.pc i p }

abbrev pub returns : System → ℕ → Errno → System
returns s i e = record s { pc = update s.pc i running; last = update s.last i e }

abbrev pub after_begin : System → ℕ → Bool → Begun → Option System
after_begin s i t invalid_time = some (returns s i einval)
after_begin s i t aborts = none
after_begin s i t (cancelled ss) = some (record (goes_to s i interrupted) { ss = update s.ss i ss })
after_begin s i t (queued c ss clock) =
    some (record (goes_to s i (enqueued t)) { cond = c; ss = update s.ss i ss })

-- The last section, after a wait with a time-out if `e`.
abbrev pub closed : System → ℕ → Bool → System
closed s i e = record s {
  ss = update s.ss i (hurd_end (s.ss i) false).0;
  pc = update s.pc i (locking (hurd_end (s.ss i) false).1 e);
}

abbrev pub after_settle : System → ℕ → Bool → Cond × Bool → System
after_settle s i e (c, true) = record (goes_to s i draining) { cond = c }
after_settle s i e (c, false) = closed (record s { cond = c }) i e

abbrev pub take_message : System → ℕ → ℕ → Option System
take_message s i zero = none
take_message s i (suc k) = some (record s { msgs = update s.msgs i k })

-- Cancelled on entry: the call returns with the mutex still locked.
abbrev pub end_interrupted : System → ℕ → System
end_interrupted s i = record (returns s i (hurd_result (hurd_end (s.ss i) true).1 false)) {
  ss = update s.ss i (hurd_end (s.ss i) true).0;
}

abbrev pub drained : ℕ → Option System → Option System
drained i none = none
drained i (some s) = some (closed s i true)

abbrev pub received : ℕ → Option System → Option System
received i none = none
received i (some s) = some (goes_to s i (unblocked false))

abbrev pub locked : System → ℕ → Option ℕ → Option System
locked s i none = some (record s { owner = some i })
locked s i (some j) = none

abbrev pub relocked : System → ℕ → Errno → Option ℕ → Option System
relocked s i e none = some (record (returns s i e) { owner = some i })
relocked s i e (some j) = none

abbrev pub after_wakes : System → Cond × List ℕ → System
after_wakes s (c, ws) = record s { cond = c; msgs = deliver ws s.msgs }

-- hurd_thread_cancel waits for the lock of the signal state.
abbrev pub is_draining : Pc → Bool
is_draining draining = true
is_draining p = false

abbrev pub after_cancel : System → ℕ → (Cond × List ℕ) × SigState → System
after_cancel s t (w, ss) = record (after_wakes s w) { ss = update s.ss t ss }

pub data Action : Type 0 where
  wait : Option Timespec → Action
  unlock lock ends_interrupted releases receives times_out resettles drains relocks signal
        broadcast :
      Action
  cancels : ℕ → Action

unfoldable pub hurd_act : Action → Pc → System → ℕ → Option System
hurd_act lock running s i = locked s i s.owner
hurd_act unlock running s i = if owner_is s.owner i then some (record s { owner = none }) else none
hurd_act (wait abstime) running s i =
    if owner_is s.owner i
    then after_begin s i (has_time abstime) (hurd_begin s.cond (s.ss i) i abstime)
    else none
hurd_act ends_interrupted interrupted s i = some (end_interrupted s i)
hurd_act releases (enqueued t) s i = some (record (goes_to s i (blocked t)) { owner = none })
hurd_act receives (blocked t) s i = received i (take_message s i (s.msgs i))
hurd_act times_out (blocked true) s i = some (goes_to s i (unblocked true))
hurd_act resettles (unblocked e) s i = some (after_settle s i e (hurd_settle s.cond i e))
hurd_act drains draining s i = drained i (take_message s i (s.msgs i))
hurd_act relocks (locking c e) s i = relocked s i (hurd_result c e) s.owner
hurd_act signal running s i = some (after_wakes s (cond_signal s.cond))
hurd_act broadcast running s i = some (after_wakes s (cond_broadcast s.cond))
hurd_act (cancels t) running s i =
    if is_draining (s.pc t)
    then none
    else some (after_cancel s t (hurd_thread_cancel s.cond (s.ss t) t))
hurd_act a p s i = none

abbrev pub hurd_init : Option ℕ → System
hurd_init clock = record {
  cond = record { queue = []; attr = clock };
  owner = none;
  ss = λ i. record { cancel = false; hook = false };
  pc = λ i. running;
  msgs = λ i. 0;
  last = λ i. success;
}

pub data Reach (clock : Option ℕ) : System → Type 0 where
  start : Reach clock (hurd_init clock)
  later :
      {s t : System} (i : ℕ) (b : Action)
      → Reach clock s
      → hurd_act b (s.pc i) s i ≡ some t
      → Reach clock t
