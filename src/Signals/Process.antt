-- ===== src/Signals/Process.antt =====
-- Signals that threads send and wait for: signal/pt-kill-siginfo-np.c, kill.c, sigaction.c,
-- sigaltstack.c, sigpending.c and sigwaitinfo.c, and sysdeps/generic/signal.c, siginterrupt.c,
-- sigwait.c, pt-kill.c, raise.c and killpg.c. Threads are known by their numbers; information about a
-- signal is a number too.
pub mod Steps
pub mod Accept
use libpthread.Base.{
  ℕ, zero, suc, ◌+◌, ◌≡◌, ◌≢◌, ◌≤◌, ◌<◌, Bool, true, false, not, ◌&&◌, ◌||◌, ltb, leb, ◌==◌,
  if◌then◌else◌, Option, none, some, List, [], ◌∷◌, Errno, success, einval, enomem, eperm,
  eopnotsupp, ℤ, pos, negsuc, update,
}
use libpthread.Signals.{
  SigSet, nsig, in_range, sigkill, sigstop, sigemptyset, sigaddset, sigdelset, Handler, dfl, ign,
  catches, Action, SignalState, discards,
}
use libpthread.Signals.Waiters.{Waiters, sigwaiter_block, sigwaiter_unblock, sigwaiter_done}
use libpthread.Signals.Dispatch.{unblocked, View}

pub record Process : Type 0 where
  pub process_pending : SigSet
  pub process_info : ℕ → ℕ
  pub states : ℕ → SignalState
  pub waiters : Waiters

abbrev pub with_state : Process → ℕ → SignalState → Process
with_state p t ss = record p { states = update p.states t ss }

-- A signal is put into the waiter of a thread, which is unblocked.
abbrev pub wake : Process → ℕ → ℕ → Process
wake p t n = record p {
  process_pending = sigdelset p.process_pending n;
  states = update p.states t (record (p.states t) { pending = sigdelset (p.states t).pending n });
  waiters = sigwaiter_unblock t (record p.waiters { signo = update p.waiters.signo t n });
}

-- What a signal to a thread does: an error; nothing; a waiter is woken; it is dropped; it is pending;
-- or the thread, the caller or another one, handles it.
pub data Sent : Type 0 where
  fails : Errno → Sent
  probes : Sent
  woken : Process → Sent
  dropped : Sent
  pended : Process → Sent
  handled_here : Sent
  handled_there : Sent

-- A signal to the caller itself is handled without its alternate stack.
abbrev pub off_stack : SignalState → ℕ → Bool
off_stack ss n = not (ss.actions n).onstack || ss.stack_disabled || ss.stack_in_use

abbrev pub send_state : Process → ℕ → ℕ → ℕ → SignalState → Sent
send_state p self tid n ss =
    if p.waiters.sigwaiter tid && p.waiters.signals tid n
    then woken (wake p tid n)
    else if discards (ss.actions n).handler n
    then dropped
    else if ss.blocked n
    then pended (with_state p tid (record ss { pending = update ss.pending n true }))
    else if self == tid && off_stack ss n
    then handled_here
    else handled_there

-- `pthread_kill_siginfo_np`, called by `self`, to a thread of the table
unfoldable pub pthread_kill_siginfo_np : Process → ℕ → ℕ → ℤ → Sent
pthread_kill_siginfo_np p self tid (negsuc n) = fails einval
pthread_kill_siginfo_np p self tid (pos n) =
    if leb nsig n
    then fails einval
    else if n == 0
    then probes
    else send_state p self tid n (p.states tid)

-- The loop of `kill`: the first waiter from a pointer on that waits for the signal. The fuel bounds
-- the rounds; the outer none is a loop that has not ended by then.
pub find_waiter : ℕ → Option ℕ → Waiters → ℕ → Option (Option ℕ)
find_waiter fuel none w n = some none
find_waiter zero (some t) w n = none
find_waiter (suc fuel) (some t) w n =
    let rest = find_waiter fuel (w.next t) w n in if w.signals t n then some (some t) else rest

-- `kill`, where `own` tells whether the process is the caller's; none where the loop has not ended.
abbrev pub kill_found : Process → ℕ → ℕ → Option (Option ℕ) → Option Sent
kill_found p self n none = none
kill_found p self n (some (some t)) = some (woken (wake p t n))
kill_found p self n (some none) = some (pthread_kill_siginfo_np p self self (pos n))

unfoldable pub kill : ℕ → Process → ℕ → Bool → ℕ → Option Sent
unfolding find_waiter
kill fuel p self own n =
    if not own
    then some (fails eopnotsupp)
    else kill_found p self n (find_waiter fuel p.waiters.sigwaiters p.waiters n)

-- `sigaction` by thread `self`, for a signal that is not negative: the old action, and the state; none
-- is EINVAL. SIGKILL and SIGSTOP are taken out of the thread's mask, not out of the action's.
abbrev pub set_action : Process → ℕ → ℕ → Action → Process
set_action p self n sa =
    let ss = p.states self in
    let blocked = sigdelset (sigdelset ss.blocked sigkill) sigstop in
    if discards sa.handler n
    then record p {
      states = update p.states self (record ss {
        actions = update ss.actions n sa;
        blocked = blocked;
        pending = sigdelset ss.pending n;
      });
      process_pending = sigdelset p.process_pending n;
    }
    else with_state p self (record ss { actions = update ss.actions n sa; blocked = blocked })

abbrev pub apply_action : Process → ℕ → ℕ → Option Action → Process
apply_action p self n none = p
apply_action p self n (some sa) = set_action p self n sa

unfoldable pub sigaction : Process → ℕ → ℕ → Option Action → Option (Action × Process)
sigaction p self n sa =
    if in_range n then some ((p.states self).actions n, apply_action p self n sa) else none

-- `signal`: none is SIG_ERR.
abbrev pub old_handler : Option (Action × Process) → Option (Handler × Process)
old_handler none = none
old_handler (some (a, p)) = some (a.handler, p)

unfoldable pub signal : Process → ℕ → ℕ → Handler → Option (Handler × Process)
unfolding sigaction
signal p self n h =
    if in_range n
    then old_handler (
        sigaction p self n (
          some (record {
            handler = h;
            mask = sigaddset sigemptyset n;
            resethand = false;
            nodefer = false;
            onstack = false;
            restart = true;
          })))
    else none

-- `siginterrupt`
abbrev pub interrupt_from : Process → ℕ → ℕ → Bool → Option (Action × Process) → Option Process
interrupt_from p self n flag none = none
interrupt_from p self n flag (some (a, q)) =
    elim (sigaction q self n (some (record a { restart = not flag }))) [
      | none ↦ none
      | some (b, r) ↦ some r
    ]

unfoldable pub siginterrupt : Process → ℕ → ℕ → Bool → Option Process
unfolding sigaction
siginterrupt p self n flag = interrupt_from p self n flag (sigaction p self n none)

-- `sigaltstack` with a stack of a size, its flag SS_DISABLE, and whether it has other flags
unfoldable pub sigaltstack : ℕ → SignalState → ℕ → Bool → Bool → Errno × SignalState
sigaltstack minimum ss size disabled others =
    if ltb size minimum
    then (enomem, ss)
    else if others
    then (einval, ss)
    else if ss.stack_in_use
    then (eperm, ss)
    else (success, record ss { stack_size = size; stack_disabled = disabled; stack_in_use = false })

-- `sigpending`
abbrev pub sigpending : Process → ℕ → SigSet
sigpending p self n =
    ((p.states self).pending n || p.process_pending n) && (p.states self).blocked n

-- `l4_msb64`: the number of the highest bit, from 1, or 0 if there is none.
pub record HighestBit : Type 0 where
  pub msb : SigSet → ℕ
  pub msb-zero : (s : SigSet) (n : ℕ) → msb s ≡ 0 → 0 < n → n ≤ 64 → s n ≡ false
  pub msb-elem : (s : SigSet) → msb s ≢ 0 → s (msb s) ≡ true

-- How `sigwaitinfo` goes on: with a signal and its information, in a wait, or at an assertion.
pub data Waited : Type 0 where
  accepts : ℕ → ℕ → Process → Waited
  waits : Process → Waited
  aborts : Waited

abbrev pub common : SigSet → SigSet → SigSet
common s t n = s n && t n

abbrev pub accepted : Process → ℕ → ℕ → Process
accepted p self n = record p {
  process_pending = sigdelset p.process_pending n;
  states =
      update p.states self
        (record (p.states self) { pending = sigdelset (p.states self).pending n });
}

abbrev pub block_in : Process → Option Waiters → Waited
block_in p none = aborts
block_in p (some w) = waits (record p { waiters = w })

module _ (bits : HighestBit) where
  -- A pending signal is taken from the process first. Its information is read from the thread's table
  -- then, and from the process's where the signal was the thread's.
  abbrev pub accept_from : Process → ℕ → SigSet → ℕ → ℕ → Waited
  accept_from p self set (suc n) m =
      accepts (suc n) ((p.states self).info (suc n)) (accepted p self (suc n))
  accept_from p self set zero (suc n) =
      accepts (suc n) (p.process_info (suc n)) (accepted p self (suc n))
  accept_from p self set zero zero = block_in p (sigwaiter_block self set p.waiters)

  unfoldable pub sigwaitinfo : Process → ℕ → SigSet → Waited
  sigwaitinfo p self set =
      accept_from p self set (bits.msb (common p.process_pending set))
        (bits.msb (common (p.states self).pending set))

-- The return from the wait; none is a failed assertion, as where the signal is not of the set.
abbrev pub resumed : Process → ℕ → Option (ℕ × Waiters) → Option (ℕ × Process)
resumed p self none = none
resumed p self (some (n, w)) =
    if p.waiters.signals self n then some (n, record p { waiters = w }) else none

unfoldable pub sigwait_returns : Process → ℕ → Option (ℕ × Process)
sigwait_returns p self = resumed p self (sigwaiter_done self p.waiters)

-- `pthread_kill`, and `raise`, with errno
abbrev pub pthread_kill : Process → ℕ → ℕ → ℤ → Sent
unfolding pthread_kill_siginfo_np
pthread_kill p self tid n = pthread_kill_siginfo_np p self tid n

abbrev pub raise : Process → ℕ → ℤ → Sent
raise p self n = pthread_kill p self self n

-- `killpg`: `kill` of the process with the negated number
abbrev pub killpg : ℕ → Process → ℕ → ℤ → ℤ → ℕ → Option Sent
unfolding kill
killpg fuel p self (pos getpid) (negsuc k) n = kill fuel p self (getpid == k + 1) n
killpg fuel p self getpid pid n = kill fuel p self false n
