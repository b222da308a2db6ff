-- ===== src/Signals/Dispatch.antt =====
-- The delivery of signals to a thread: signal/signal-dispatch.c. What a handler does to the signal
-- state is an argument, and so is `l4_lsb64`, which is not code of the repository.
pub mod Drains
use libpthread.Base.{
  ℕ, zero, suc, ◌+◌, ◌≡◌, ◌≢◌, ◌≤◌, ◌<◌, Bool, true, false, not, ◌&&◌, ◌||◌, ltb, ◌==◌,
  if◌then◌else◌, Option, none, some, List, [], ◌∷◌, update,
}
use libpthread.Signals.{
  SigSet, nsig, sigill, sigtrap, sigcont, in_range, sigaddset, sigdelset, stop_signals, minus,
  union, SigAction, core, terminate, ignore, cont, stop, default_action, Handler, dfl, ign, catches,
  Action, SignalState,
}

-- The state of the thread, and the variable of the process.
pub record View : Type 0 where
  pub ss : SignalState
  pub process_pending : SigSet

-- `l4_lsb64`: the number of the lowest bit, from 1, or 0 if there is none.
pub record LowestBit : Type 0 where
  pub lsb : SigSet → ℕ
  pub lsb-zero : (s : SigSet) (n : ℕ) → lsb s ≡ 0 → 0 < n → n ≤ 64 → s n ≡ false
  pub lsb-elem : (s : SigSet) → lsb s ≢ 0 → s (lsb s) ≡ true
  pub lsb-le : (s : SigSet) → lsb s ≤ 64

-- A stop signal takes back a pending SIGCONT, and SIGCONT the pending stop signals.
abbrev pub clear_opposite : ℕ → View → View
clear_opposite n s =
    if stop_signals n
    then record s {
      ss = record s.ss { pending = sigdelset s.ss.pending sigcont };
      process_pending = sigdelset s.process_pending sigcont;
    }
    else if n == sigcont
    then record s {
      ss = record s.ss { pending = minus s.ss.pending stop_signals };
      process_pending = minus s.process_pending stop_signals;
    }
    else s

-- SA_RESETHAND
abbrev pub reset_handler : ℕ → SignalState → SignalState
reset_handler n ss =
    if (ss.actions n).resethand && not (n == sigill) && not (n == sigtrap)
    then record ss { actions = update ss.actions n (record (ss.actions n) { handler = dfl }) }
    else ss

-- The signals that are blocked while the handler runs
abbrev pub blocked_in : ℕ → SignalState → SigSet
blocked_in n ss =
    if (ss.actions n).resethand || (ss.actions n).nodefer
    then union ss.blocked (ss.actions n).mask
    else sigaddset (union ss.blocked (ss.actions n).mask) n

-- The body of the loop up to the handler; the signal is pending no more.
abbrev pub enter_state : ℕ → SignalState → SignalState
enter_state n ss = record ss { blocked = blocked_in n ss; pending = sigdelset ss.pending n }

abbrev pub enter : ℕ → View → View
enter n s = record s {
  ss = enter_state n (reset_handler n (clear_opposite n s).ss);
  process_pending = sigdelset (clear_opposite n s).process_pending n;
}

-- What is still to be delivered: of the thread, or if there is none, of the process.
abbrev pub unblocked : SigSet → SigSet → SigSet
unblocked blocked pending n = not (blocked n) && pending n

-- A delivery of a signal by a handler: the function, the signal, and the signal in its information.
pub record Call : Type 0 where
  pub function : ℕ
  pub signo : ℕ
  pub si_signo : ℕ

-- How a dispatch ends: all is delivered; the process exits with a code; the code panics; or it is
-- not known, since the fuel has run out.
pub data Dispatched : Type 0 where
  finishes : List Call → View → Dispatched
  exits : ℕ → Dispatched
  panics : Dispatched
  runs : Dispatched

-- A default action: exit or panic, in the source also where the process continues or the signal
-- is to be ignored.
abbrev pub default_delivery : ℕ → Option SigAction → Dispatched
default_delivery n (some core) = exits (128 + n)
default_delivery n (some terminate) = exits (128 + n)
default_delivery n _ = panics

-- A round of the loop ends the dispatch, or the loop goes on after a handler or none was called.
pub data Round : Type 0 where
  ends : Dispatched → Round
  goes_on : Option Call → View → Round

abbrev pub called : Option Call → Dispatched → Dispatched
called (some c) (finishes cs s) = finishes (c ∷ cs) s
called c d = d

abbrev pub first_of : ℕ → ℕ → ℕ
first_of zero b = b
first_of (suc a) b = suc a

module _ (bits : LowestBit) (run : Call → View → View) where
  abbrev pub next_signal : View → ℕ
  next_signal s =
      first_of (bits.lsb (unblocked s.ss.blocked s.ss.pending))
        (bits.lsb (unblocked s.ss.blocked s.process_pending))

  -- The signal mask is what it was before the handler.
  abbrev pub leave : SigSet → View → View
  leave blocked s = record s { ss = record s.ss { blocked = blocked } }

  -- The body of the loop, with the handler that was found.
  abbrev pub deliver : ℕ → ℕ → View → Handler → Round
  deliver si_signo n s dfl = ends (default_delivery n (default_action n))
  deliver si_signo n s ign = goes_on none (leave s.ss.blocked (enter n s))
  deliver si_signo n s (catches f) =
      let c : Call = record { function = f; signo = n; si_signo = si_signo } in
      goes_on (some c) (leave s.ss.blocked (run c (enter n s)))

  -- The test of the loop; `again` is the loop for the next signal.
  abbrev pub tested : (ℕ → View → Dispatched) → View → ℕ → Dispatched
  tested again s zero = finishes [] s
  tested again s (suc n) = again (suc n) s

  abbrev pub proceed : (ℕ → View → Dispatched) → Round → Dispatched
  proceed again (ends d) = d
  proceed again (goes_on c s) = called c (tested again s (next_signal s))

  -- `signal_dispatch` of signal `n`, with information about `si_signo`. The fuel bounds the rounds.
  unfoldable pub dispatch : ℕ → ℕ → ℕ → View → Dispatched
  dispatch zero si_signo n s = runs
  dispatch (suc fuel) si_signo n s =
      proceed (λ m v. dispatch fuel si_signo m v) (deliver si_signo n s (s.ss.actions n).handler)
