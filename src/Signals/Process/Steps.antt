-- ===== src/Signals/Process/Steps.antt =====
-- The operations of threads on signals as steps, in any order.
pub mod Missed
use libpthread.Base.{
  ℕ, zero, suc, ◌≡◌, ◌≢◌, ◌≤◌, ◌<◌, Bool, true, false, Option, none, some, ℤ, pos, negsuc, arith,
  Bool-cases, inl, inr, Option-cases, ◌==◌, ◌&&◌, leb, ltb, update, ==→eq, subst, refl, ap,
}
use libpthread.Signals.{SigSet, in_range, Action, SignalState, sigdelset, discards, nsig}
use libpthread.Signals.Dispatch.{View, enter, clear_opposite, reset_handler}
use libpthread.Signals.Dispatch.Drains.{clear-pending, reset_pending}
use libpthread.Signals.Waiters.{
  Waiters, sigwaiter_block, sigwaiter_unblock, sigwaiter_done, placed, is_set, prev_of, set_next,
  set_prev,
}
use libpthread.Signals.Process.{
  Process, with_state, wake, off_stack, Sent, fails, probes, woken, dropped, pended, handled_here,
  handled_there, send_state, pthread_kill_siginfo_np, find_waiter, kill_found, kill, set_action,
  apply_action, sigaction, HighestBit, Waited, accepts, waits, aborts, common, accepted, block_in,
  accept_from, sigwaitinfo, resumed, sigwait_returns,
}

-- The process after a signal has been sent; where a thread is to handle it, before it does.
abbrev pub after_send : Process → Sent → Process
after_send p (woken q) = q
after_send p (pended q) = q
after_send p s = p

abbrev pub after_kill : Process → Option Sent → Process
after_kill p none = p
after_kill p (some s) = after_send p s

abbrev pub after_wait : Process → Waited → Process
after_wait p (accepts n i q) = q
after_wait p (waits q) = q
after_wait p aborts = p

abbrev pub after_return : Process → Option (ℕ × Process) → Process
after_return p none = p
after_return p (some (n, q)) = q

abbrev pub after_action : Process → Option (Action × Process) → Process
after_action p none = p
after_action p (some (a, q)) = q

-- A thread enters the handler of a signal.
abbrev pub entered : Process → ℕ → ℕ → Process
entered p t n =
    let v : View = enter n (record { ss = p.states t; process_pending = p.process_pending }) in
    record p { states = update p.states t v.ss; process_pending = v.process_pending }

-- A step: a signal is sent to a thread or to the process; a thread waits for signals or returns from
-- the wait; sets an action; sets its mask, as a handler that returns does too; or enters a handler.
pub data Step : Process → Process → Type 0 where
  sends :
      (p : Process) (self tid : ℕ) (n : ℤ)
      → Step p (after_send p (pthread_kill_siginfo_np p self tid n))
  kills :
      (p : Process) (fuel self : ℕ) (own : Bool) (n : ℕ)
      → Step p (after_kill p (kill fuel p self own n))
  wait_for :
      (p : Process) (bits : HighestBit) (t : ℕ) (set : SigSet)
      → Step p (after_wait p (sigwaitinfo bits p t set))
  returns : (p : Process) (t : ℕ) → Step p (after_return p (sigwait_returns p t))
  acts : (p : Process) (t n : ℕ) (a : Option Action) → Step p (after_action p (sigaction p t n a))
  masks :
      (p : Process) (t : ℕ) (set : SigSet)
      → Step p (with_state p t (record (p.states t) { blocked = set }))
  enters : (p : Process) (t n : ℕ) → Step p (entered p t n)

pub data Reach (start : Process) : Process → Type 0 where
  begin : Reach start start
  next : (p q : Process) → Reach start p → Step p q → Reach start q
