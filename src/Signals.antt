-- ===== src/Signals.antt =====
-- Signals: signal/signal.h, signal/sig-internal.h and sysdeps/generic/sig*set.c. A set of signals is
-- a 64-bit mask in the source, with bit n - 1 for signal n: here it is the test of that bit.
pub mod Waiters
pub mod Dispatch
pub mod Process
pub mod Masks
mod Tests
use libpthread.Base.{
  ℕ, ◌≡◌, Bool, true, false, not, ◌&&◌, ◌||◌, ltb, leb, ◌==◌, if◌then◌else◌, Option, none, some,
  List, [], ◌∷◌, elem, Errno, success, einval, update,
}

abbrev pub SigSet : Type 0
SigSet = ℕ → Bool

-- `NSIG`, and the signals that the code names.
abbrev pub nsig : ℕ
nsig = 32

abbrev pub sigill : ℕ
sigill = 4

abbrev pub sigtrap : ℕ
sigtrap = 5

abbrev pub sigkill : ℕ
sigkill = 9

abbrev pub sigcont : ℕ
sigcont = 18

abbrev pub sigstop : ℕ
sigstop = 19

abbrev pub sigtstp : ℕ
sigtstp = 20

abbrev pub sigttin : ℕ
sigttin = 21

abbrev pub sigttou : ℕ
sigttou = 22

-- A signal number that is not 0, negative, or too large
abbrev pub in_range : ℕ → Bool
in_range n = ltb 0 n && ltb n nsig

abbrev pub sigemptyset : SigSet
sigemptyset n = false

-- `(1ULL << (NSIG - 1)) - 1`
abbrev pub sigfillset : SigSet
sigfillset n = in_range n

-- `sigaddset`, `sigdelset`: a signal out of range is EINVAL, and the set is unchanged.
abbrev pub sigaddset : SigSet → ℕ → SigSet
sigaddset s n = if in_range n then update s n true else s

abbrev pub sigdelset : SigSet → ℕ → SigSet
sigdelset s n = if in_range n then update s n false else s

-- `sigismember`: none is EINVAL.
abbrev pub sigismember : SigSet → ℕ → Option Bool
sigismember s n = if in_range n then some (s n) else none

-- `STOPSIGS`
abbrev pub stop_signals : SigSet
stop_signals n = elem n (sigttin ∷ sigttou ∷ sigstop ∷ sigtstp ∷ [])

-- `s & ~t` and `s | t`
abbrev pub minus : SigSet → SigSet → SigSet
minus s t n = s n && not (t n)

abbrev pub union : SigSet → SigSet → SigSet
union s t n = s n || t n

-- `enum sig_action`
pub data SigAction : Type 0 where
  core terminate ignore cont stop : SigAction

-- `default_action`; none is the panic for an unknown signal.
pub default_action : ℕ → Option SigAction
default_action n =
    if elem n (6 ∷ 7 ∷ 8 ∷ 4 ∷ 3 ∷ 11 ∷ 16 ∷ 31 ∷ 5 ∷ 24 ∷ 25 ∷ [])
    then some core
    else if elem n (14 ∷ 1 ∷ 2 ∷ 29 ∷ 9 ∷ 13 ∷ 27 ∷ 15 ∷ 10 ∷ 12 ∷ 26 ∷ [])
    then some terminate
    else if elem n (17 ∷ 30 ∷ 23 ∷ 28 ∷ [])
    then some ignore
    else if n == sigcont
    then some cont
    else if elem n (19 ∷ 20 ∷ 21 ∷ 22 ∷ [])
    then some stop
    else none

-- `sa_handler`: SIG_DFL, SIG_IGN, or a function.
pub data Handler : Type 0 where
  dfl ign : Handler
  catches : ℕ → Handler

-- `struct sigaction`, with the flags that the code tests
pub record Action : Type 0 where
  pub handler : Handler
  pub mask : SigSet
  pub resethand : Bool
  pub nodefer : Bool
  pub onstack : Bool
  pub restart : Bool

-- `struct signal_state` without its lock and its waiter: `actions n` and `info n` are the elements at
-- n - 1; of the stack's flags, whether it is disabled and whether it is in use.
pub record SignalState : Type 0 where
  pub pending : SigSet
  pub blocked : SigSet
  pub actions : ℕ → Action
  pub info : ℕ → ℕ
  pub stack_size : ℕ
  pub stack_disabled : Bool
  pub stack_in_use : Bool

-- The signal is ignored: so is it set, or that is the default.
abbrev pub discards : Handler → ℕ → Bool
unfolding default_action
discards ign n = true
discards dfl n = elim (default_action n) [ some ignore ↦ true | _ ↦ false ]
discards (catches f) n = false
