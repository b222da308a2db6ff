-- ===== src/Signals/Tests.antt =====
-- The theorems on signals at concrete states of a process.
use libpthread.Base.{
  ℕ, zero, suc, ◌≡◌, ◌≢◌, refl, ◌≤◌, ◌<◌, true, false, ◌&&◌, ◌||◌, ◌==◌, if◌then◌else◌, none, some,
  List, [], ◌∷◌, arith, ==→eq, Bool-cases, inl, inr,
}
use libpthread.Signals.{SigSet, sigemptyset, ign, catches, Action, SignalState}
use libpthread.Signals.Waiters.{Waiters, sigwaiter_block, sigwaiter_unblock, placed, Waiting}
use libpthread.Signals.Waiters.Order.{block-Waiting, second_signal_drops_waiter}
use libpthread.Signals.Dispatch.{View, LowestBit, Call, Dispatched, finishes, dispatch}
use libpthread.Signals.Dispatch.Drains.{Ended, dispatch_drains}
use libpthread.Signals.Process.{Process, HighestBit, sigwaitinfo, kill, sigaction}
use libpthread.Signals.Process.Steps.{Reach, begin, next, wait_for, after_wait}
use libpthread.Signals.Process.Steps.Missed.{Given, no_missed_signal}
use libpthread.Signals.Process.Accept.{
  Waits, sigwaitinfo-Waits, Kills, kill-Kills, Acts, sigaction-Acts,
}

-- The lowest and the highest element of a set up to a number, or 0
unfoldable lowest : ℕ → SigSet → ℕ
lowest zero s = 0
lowest (suc k) s = let r = lowest k s in if r == 0 && s (suc k) then suc k else r

unfoldable highest : ℕ → SigSet → ℕ
highest zero s = 0
highest (suc k) s = let r = highest k s in if s (suc k) then suc k else r

lowest-zero : (k : ℕ) (s : SigSet) (n : ℕ) → lowest k s ≡ 0 → 0 < n → n ≤ k → s n ≡ false
unfolding lowest
lowest-zero zero s n h p q = absurd (omega (arith, p, q))
lowest-zero (suc k) s n h p q = elim (Bool-cases (lowest k s == 0 && s (suc k))) [
  | inl e ↦ absurd (ground arith)
  | inr e ↦ elim (Bool-cases (n == suc k)) [
    | inl d ↦ rw (==→eq n (suc k) d) (ground arith)
    | inr d ↦ lowest-zero k s n (ground arith) p (ground arith)
  ]
]

lowest-elem : (k : ℕ) (s : SigSet) → lowest k s ≢ 0 → s (lowest k s) ≡ true
unfolding lowest
lowest-elem zero s h = absurd (h refl)
lowest-elem (suc k) s h = elim (Bool-cases (lowest k s == 0 && s (suc k))) [
  | inl e ↦ rw e (ground arith)
  | inr e ↦ rw e (lowest-elem k s (λ z. ground arith))
]

lowest-le : (k : ℕ) (s : SigSet) → lowest k s ≤ k
unfolding lowest
lowest-le zero s = ground arith
lowest-le (suc k) s = ground (arith, lowest-le k s)

highest-zero : (k : ℕ) (s : SigSet) (n : ℕ) → highest k s ≡ 0 → 0 < n → n ≤ k → s n ≡ false
unfolding highest
highest-zero zero s n h p q = absurd (omega (arith, p, q))
highest-zero (suc k) s n h p q = elim (Bool-cases (s (suc k))) [
  | inl e ↦ absurd (ground arith)
  | inr e ↦ elim (Bool-cases (n == suc k)) [
    | inl d ↦ rw (==→eq n (suc k) d) e
    | inr d ↦ highest-zero k s n (ground arith) p (ground arith)
  ]
]

highest-elem : (k : ℕ) (s : SigSet) → highest k s ≢ 0 → s (highest k s) ≡ true
unfolding highest
highest-elem zero s h = absurd (h refl)
highest-elem (suc k) s h = elim (Bool-cases (s (suc k))) [
  | inl e ↦ rw e e
  | inr e ↦ rw e (highest-elem k s (λ z. ground arith))
]

abbrev lowest_bit : LowestBit
lowest_bit = record {
  lsb = lowest 64;
  lsb-zero = λ s n h p q. lowest-zero 64 s n h p q;
  lsb-elem = λ s h. lowest-elem 64 s h;
  lsb-le = λ s. lowest-le 64 s;
}

abbrev highest_bit : HighestBit
highest_bit = record {
  msb = highest 64;
  msb-zero = λ s n h p q. highest-zero 64 s n h p q;
  msb-elem = λ s h. highest-elem 64 s h;
}

-- Signals 10 and 12 are caught, the others are ignored.
abbrev caught : ℕ → Action
caught n = record {
  handler = if n == 10 then catches 1 else if n == 12 then catches 2 else ign;
  mask = sigemptyset;
  resethand = false;
  nodefer = false;
  onstack = false;
  restart = true;
}

abbrev state : SignalState
state = record {
  pending = λ n. n == 10;
  blocked = sigemptyset;
  actions = caught;
  info = λ n. n;
  stack_size = 0;
  stack_disabled = false;
  stack_in_use = false;
}

abbrev view : View
view = record { ss = state; process_pending = sigemptyset }

-- A signal is caught, and then the one that is pending.
abbrev calls : List Call
calls =
    record { function = 2; signo = 12; si_signo = 12 }
    ∷ record { function = 1; signo = 10; si_signo = 12 }
    ∷ []

abbrev calls_of : Dispatched → List Call
calls_of (finishes cs v) = cs
calls_of d = []

dispatch-calls : calls_of (dispatch lowest_bit (λ c s. s) 32 12 12 view) ≡ calls
unfolding dispatch lowest
dispatch-calls = refl

dispatch_drains_example : Ended sigemptyset (dispatch lowest_bit (λ c s. s) 32 12 12 view)
dispatch_drains_example =
    dispatch_drains lowest_bit (λ c s. s) (λ c s i h. h) 12 12 view (λ i h. ground arith) refl

-- Threads 1 and 2 wait, the second one in front; signal 10 is pending for thread 3.
abbrev waiters : Waiters
waiters = record {
  sigwaiters = some 2;
  next = λ t. if t == 2 then some 1 else none;
  prev = λ t. if t == 1 then some 2 else none;
  signals = λ t n. if t == 1 then n == 12 else if t == 2 then n == 10 else false;
  signo = λ t. 0;
  sigwaiter = λ t. (t == 1) || (t == 2);
}

abbrev process : Process
process = record {
  process_pending = sigemptyset;
  process_info = λ n. n;
  states = λ t. if t == 3 then state else record state { pending = sigemptyset };
  waiters = waiters;
}

waiting : Waiting waiters (2 ∷ 1 ∷ [])
waiting = ((refl, refl, (refl, refl, refl)), (refl, (refl, tt)))

abbrev nobody : Waiters
nobody = record waiters {
  sigwaiters = none;
  next = λ t. none;
  prev = λ t. none;
  sigwaiter = λ t. false;
}

block-Waiting_example :
    (sigwaiter_block 3 (λ n. n == 10) waiters ≡ some (placed 3 (λ n. n == 10) waiters))
    × Waiting (placed 3 (λ n. n == 10) waiters) (3 ∷ 2 ∷ 1 ∷ [])
block-Waiting_example = block-Waiting 3 (λ n. n == 10) waiters (2 ∷ 1 ∷ []) waiting refl refl

second_signal_drops_waiter_example :
    (v : Waiters) × (sigwaiter_block 1 (λ n. n == 10) nobody
      ≡ some (placed 1 (λ n. n == 10) nobody))
    × (sigwaiter_block 2 (λ n. n == 12) (sigwaiter_unblock 1 (placed 1 (λ n. n == 10) nobody))
        ≡ some v)
    × Waiting v (2 ∷ [])
    × (v.sigwaiter 1 ≡ true)
    × Waiting (sigwaiter_unblock 1 v) []
second_signal_drops_waiter_example =
    second_signal_drops_waiter 1 2 (λ n. n == 10) (λ n. n == 12) nobody (refl, tt) refl refl
      (λ h. omega (arith, h))

-- Thread 3 accepts its pending signal.
sigwaitinfo-Waits_example :
    Waits process 3 (λ n. n == 10) (2 ∷ 1 ∷ []) (sigwaitinfo highest_bit process 3 (λ n. n == 10))
sigwaitinfo-Waits_example =
    sigwaitinfo-Waits process highest_bit 3 (λ n. n == 10) (2 ∷ 1 ∷ []) waiting refl refl

kill-Kills_example : Kills process 3 12 (2 ∷ 1 ∷ []) (some 1) (kill 2 process 3 true 12)
kill-Kills_example = kill-Kills 2 process 3 12 (2 ∷ 1 ∷ []) waiting (ground arith)

sigaction-Acts_example :
    (q : Process) × (sigaction process 3 10 (some (caught 1)) ≡ some (caught 10, q))
    × Acts process q 3 10 (caught 1)
    × (sigaction q 3 10 none ≡ some (caught 1, q))
sigaction-Acts_example = sigaction-Acts process 3 10 (caught 1) refl

-- Thread 4 waits for signal 10, and then signal 12 is sent to it, which it ignores while it waits.
abbrev idle : Process
idle = record process { states = λ t. record state { pending = sigemptyset }; waiters = nobody }

abbrev in_wait : Process
in_wait = after_wait idle (sigwaitinfo highest_bit idle 4 (λ n. n == 10))

in_wait-Reach : Reach idle in_wait
in_wait-Reach = next idle in_wait begin (wait_for idle highest_bit 4 (λ n. n == 10))

no_missed_signal_example : ((in_wait.states 4).pending 10 ≡ false) × Given in_wait 4 10
unfolding sigwaitinfo sigwaiter_block lowest highest
no_missed_signal_example =
    no_missed_signal {start = idle} {p = in_wait} (λ t n h s r. refl) in_wait-Reach 4 10 refl refl
      refl
