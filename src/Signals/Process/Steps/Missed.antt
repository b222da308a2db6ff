-- ===== src/Signals/Process/Steps/Missed.antt =====
-- No thread waits for a signal that is pending for it.
use libpthread.Base.{
  ℕ, zero, suc, ◌≡◌, Bool, true, false, Option, none, some, ℤ, pos, negsuc, arith, Bool-cases, inl,
  inr, Option-cases, ◌==◌, ◌&&◌, leb, update, ==→eq, subst, refl, ap,
}
use libpthread.Signals.{SigSet, in_range, Action, sigdelset, discards, nsig}
use libpthread.Signals.Dispatch.{View, enter, clear_opposite}
use libpthread.Signals.Dispatch.Drains.{clear-pending, reset_pending}
use libpthread.Signals.Waiters.{
  Waiters, sigwaiter_block, sigwaiter_unblock, sigwaiter_done, placed, is_set, prev_of,
}
use libpthread.Signals.Process.{
  Process, with_state, wake, off_stack, send_state, pthread_kill_siginfo_np, find_waiter,
  kill_found, kill, set_action, apply_action, sigaction, HighestBit, common, accepted, block_in,
  accept_from, sigwaitinfo, sigwait_returns, woken,
}
use libpthread.Signals.Process.Accept.{unblock_signo}
use libpthread.Signals.Process.Steps.{
  after_send, after_kill, after_wait, after_return, after_action, entered, Step, sends, kills,
  wait_for, returns, acts, masks, enters, Reach, begin, next,
}

-- A thread that waits for a signal has none of them pending.
abbrev pub Awake : Process → Type 0
Awake p =
    (t n : ℕ)
    → p.waiters.sigwaiter t ≡ true
    → p.waiters.signals t n ≡ true
    → in_range n ≡ true
    → (p.states t).pending n ≡ false

-- A process with the same waits in which no signal is added
record Quieter (p q : Process) : Type 0 where
  sigwaiter : (t : ℕ) → q.waiters.sigwaiter t ≡ true → p.waiters.sigwaiter t ≡ true
  signals : (t n : ℕ) → q.waiters.signals t n ≡ p.waiters.signals t n
  pending : (t n : ℕ) → (q.states t).pending n ≡ true → (p.states t).pending n ≡ true

Quieter-Awake : (p q : Process) → Quieter p q → Awake p → Awake q
Quieter-Awake p q k a t n w s r =
    ground (arith, k.signals t n, a t n (k.sigwaiter t w), k.pending t n)

unblock_same :
    (t : ℕ) (w : Waiters)
    → ((u : ℕ) → (sigwaiter_unblock t w).sigwaiter u ≡ w.sigwaiter u)
      × ((u n : ℕ) → (sigwaiter_unblock t w).signals u n ≡ w.signals u n)
unfolding sigwaiter_unblock
unblock_same t w = elim (Option-cases (w.next t)) [
  | inl a ↦ elim (Option-cases (w.prev t)) [
    | inl b ↦ (λ u. ground arith, λ u n. ground arith)
    | inr (y, b) ↦ (λ u. ground arith, λ u n. ground arith)
  ]
  | inr (x, a) ↦ elim (Option-cases (w.prev t)) [
    | inl b ↦ (λ u. ground arith, λ u n. ground arith)
    | inr (y, b) ↦ (λ u. ground arith, λ u n. ground arith)
  ]
]

del-le : (s : SigSet) (n i : ℕ) → sigdelset s n i ≡ true → s i ≡ true
del-le s n i h = ground arith

wake-Quieter : (p : Process) (t n : ℕ) → Quieter p (wake p t n)
wake-Quieter p t n =
    let same = unblock_same t (record p.waiters { signo = update p.waiters.signo t n }) in
    record {
      sigwaiter = λ u h. ground (arith, same.0 u);
      signals = λ u m. same.1 u m;
      pending = λ u m h. ground arith;
    }

same-Quieter : (p : Process) → Quieter p p
same-Quieter p = record { sigwaiter = λ u h. h; signals = λ u n. refl; pending = λ u n h. h }

pended-Awake :
    (p : Process) (tid n : ℕ)
    → Awake p
    → p.waiters.sigwaiter tid && p.waiters.signals tid n ≡ false
    → Awake (
        with_state p tid (record (p.states tid) { pending = update (p.states tid).pending n true }))
pended-Awake p tid n a e t m w s r = elim (Bool-cases (tid == t)) [
  | inl h ↦ elim (Bool-cases (n == m)) [
    | inl k ↦
        let x =
          subst (λ i. p.waiters.sigwaiter i && p.waiters.signals i n ≡ false) (==→eq tid t h) e in
        let y =
          subst (λ i. p.waiters.sigwaiter t && p.waiters.signals t i ≡ false) (==→eq n m k) x in
        ground arith
    | inr k ↦ ground (arith, a t m w s r)
  ]
  | inr h ↦ ground (arith, a t m w s r)
]

send-Awake :
    (p : Process) (self tid n : ℕ)
    → Awake p
    → Awake (after_send p (send_state p self tid n (p.states tid)))
send-Awake p self tid n a = elim (Bool-cases (p.waiters.sigwaiter tid && p.waiters.signals tid n)) [
  | inl e ↦ rw e (Quieter-Awake p (wake p tid n) (wake-Quieter p tid n) a)
  | inr e ↦ elim (Bool-cases (discards ((p.states tid).actions n).handler n)) [
    | inl d ↦ rw (e, d) a
    | inr d ↦ elim (Bool-cases ((p.states tid).blocked n)) [
      | inl b ↦ rw (e, d, b) (pended-Awake p tid n a e)
      | inr b ↦ elim (Bool-cases (self == tid && off_stack (p.states tid) n)) [
        | inl o ↦ rw (e, d, b, o) a
        | inr o ↦ rw (e, d, b, o) a
      ]
    ]
  ]
]

kill_siginfo-Awake :
    (p : Process) (self tid : ℕ) (n : ℤ)
    → Awake p
    → Awake (after_send p (pthread_kill_siginfo_np p self tid n))
unfolding pthread_kill_siginfo_np
kill_siginfo-Awake p self tid (negsuc n) a = a
kill_siginfo-Awake p self tid (pos n) a = elim (Bool-cases (leb nsig n)) [
  | inl e ↦ rw e a
  | inr e ↦ elim (Bool-cases (n == 0)) [
    | inl z ↦ rw (e, z) a
    | inr z ↦ rw (e, z) (send-Awake p self tid n a)
  ]
]

kill_found-Awake :
    (p : Process) (self n : ℕ) (o : Option (Option ℕ))
    → Awake p
    → Awake (after_kill p (kill_found p self n o))
kill_found-Awake p self n none a = a
kill_found-Awake p self n (some (some t)) a = Quieter-Awake p (wake p t n) (wake-Quieter p t n) a
kill_found-Awake p self n (some none) a = kill_siginfo-Awake p self self (pos n) a

kill-Awake :
    (p : Process) (fuel self : ℕ) (own : Bool) (n : ℕ)
    → Awake p
    → Awake (after_kill p (kill fuel p self own n))
unfolding kill
kill-Awake p fuel self true n a =
    kill_found-Awake p self n (find_waiter fuel p.waiters.sigwaiters p.waiters n) a
kill-Awake p fuel self false n a = a

accepted-Quieter : (p : Process) (t n : ℕ) → Quieter p (accepted p t n)
accepted-Quieter p t n = record {
  sigwaiter = λ u h. h;
  signals = λ u m. refl;
  pending = λ u m h. ground arith;
}

placed-Awake :
    (p : Process) (t : ℕ) (set : SigSet)
    → Awake p
    → ((n : ℕ) → in_range n ≡ true → common (p.states t).pending set n ≡ false)
    → Awake (record p { waiters = placed t set p.waiters })
placed-Awake p t set a z u m w s r = elim (Option-cases p.waiters.sigwaiters) [
  | inl h ↦ elim (Bool-cases (t == u)) [
    | inl e ↦ subst (λ i. (p.states i).pending m ≡ false) (==→eq t u e) (ground (arith, z m r))
    | inr e ↦ ground (arith, a u m)
  ]
  | inr (x, h) ↦ elim (Bool-cases (t == u)) [
    | inl e ↦ subst (λ i. (p.states i).pending m ≡ false) (==→eq t u e) (ground (arith, z m r))
    | inr e ↦ ground (arith, a u m)
  ]
]

-- A wait begins only if no signal of the set is pending.
block-Awake :
    (p : Process) (t : ℕ) (set : SigSet)
    → Awake p
    → ((n : ℕ) → in_range n ≡ true → common (p.states t).pending set n ≡ false)
    → Awake (after_wait p (block_in p (sigwaiter_block t set p.waiters)))
unfolding sigwaiter_block
block-Awake p t set a z = elim (Bool-cases (p.waiters.sigwaiter t)) [
  | inl e ↦ rw e a
  | inr e ↦ elim (Bool-cases (is_set (prev_of p.waiters p.waiters.sigwaiters))) [
    | inl f ↦ rw (e, f) a
    | inr f ↦ rw (e, f) (placed-Awake p t set a z)
  ]
]

accept_from-Awake :
    (p : Process) (bits : HighestBit) (t : ℕ) (set : SigSet) (n m : ℕ)
    → Awake p
    → (m ≡ 0 → (i : ℕ) → in_range i ≡ true → common (p.states t).pending set i ≡ false)
    → Awake (after_wait p (accept_from bits p t set n m))
accept_from-Awake p bits t set (suc n) m a z =
    Quieter-Awake p (accepted p t (suc n)) (accepted-Quieter p t (suc n)) a
accept_from-Awake p bits t set zero (suc m) a z =
    Quieter-Awake p (accepted p t (suc m)) (accepted-Quieter p t (suc m)) a
accept_from-Awake p bits t set zero zero a z = block-Awake p t set a (z refl)

sigwaitinfo-Awake :
    (p : Process) (bits : HighestBit) (t : ℕ) (set : SigSet)
    → Awake p
    → Awake (after_wait p (sigwaitinfo bits p t set))
unfolding sigwaitinfo
sigwaitinfo-Awake p bits t set a =
    let own = common (p.states t).pending set in
    accept_from-Awake p bits t set (bits.msb (common p.process_pending set)) (bits.msb own) a
      (λ h i r. bits.msb-zero own i h (ground arith) (ground arith))

sigwait_returns-Awake :
    (p : Process) (t : ℕ) → Awake p → Awake (after_return p (sigwait_returns p t))
unfolding sigwait_returns sigwaiter_done
sigwait_returns-Awake p t a = elim (Bool-cases (p.waiters.signo t == 0)) [
  | inl e ↦ rw e a
  | inr e ↦ elim (Bool-cases (p.waiters.signals t (p.waiters.signo t))) [
    | inl f ↦ rw (e, f) (λ u m w s r. ground (arith, a u m))
    | inr f ↦ rw (e, f) a
  ]
]

set_action-Quieter : (p : Process) (t n : ℕ) (sa : Action) → Quieter p (set_action p t n sa)
set_action-Quieter p t n sa = elim (Bool-cases (discards sa.handler n)) [
  | inl e ↦
      rw e (record { sigwaiter = λ u h. h; signals = λ u m. refl; pending = λ u m h. ground arith })
  | inr e ↦
      rw e (record { sigwaiter = λ u h. h; signals = λ u m. refl; pending = λ u m h. ground arith })
]

apply_action-Quieter :
    (p : Process) (t n : ℕ) (a : Option Action) → Quieter p (apply_action p t n a)
apply_action-Quieter p t n none = same-Quieter p
apply_action-Quieter p t n (some a) = set_action-Quieter p t n a

sigaction-Awake :
    (p : Process) (t n : ℕ) (sa : Option Action)
    → Awake p
    → Awake (after_action p (sigaction p t n sa))
unfolding sigaction
sigaction-Awake p t n sa a = elim (Bool-cases (in_range n)) [
  | inl e ↦ rw e (Quieter-Awake p (apply_action p t n sa) (apply_action-Quieter p t n sa) a)
  | inr e ↦ rw e a
]

enter-pending : (n i : ℕ) (v : View) → (enter n v).ss.pending i ≡ true → v.ss.pending i ≡ true
enter-pending n i v h =
    let own = clear-pending n i v in
    let kept = ap (λ (f : SigSet). f i) (reset_pending n (clear_opposite n v).ss) in
    ground (arith, own)

enter-Quieter : (p : Process) (t n : ℕ) → Quieter p (entered p t n)
enter-Quieter p t n = record {
  sigwaiter = λ u h. h;
  signals = λ u m. refl;
  pending = λ u m h. elim (Bool-cases (t == u)) [
    | inl e ↦
        subst (λ i. (p.states i).pending m ≡ true) (==→eq t u e)
          (enter-pending n m (record { ss = p.states t; process_pending = p.process_pending })
            (ground arith))
    | inr e ↦ ground arith
  ];
}

Step-Awake : {p q : Process} → Awake p → Step p q → Awake q
Step-Awake a (sends p self tid n) = kill_siginfo-Awake p self tid n a
Step-Awake a (kills p fuel self own n) = kill-Awake p fuel self own n a
Step-Awake a (wait_for p bits t set) = sigwaitinfo-Awake p bits t set a
Step-Awake a (returns p t) = sigwait_returns-Awake p t a
Step-Awake a (acts p t n sa) = sigaction-Awake p t n sa a
Step-Awake a (masks p t set) = λ u m w s r. ground (arith, a u m w s r)
Step-Awake a (enters p t n) = Quieter-Awake p (entered p t n) (enter-Quieter p t n) a

-- A signal that is sent to a thread in a wait for it is given to the thread.
pub Given : Process → ℕ → ℕ → Type 0
Given p t n =
    (self : ℕ)
    → (q : Process) × (pthread_kill_siginfo_np p self t (pos n) ≡ woken q)
      × (q.waiters.signo t ≡ n)
      × ((q.states t).pending n ≡ false)

waiting-Given :
    (p : Process) (t n : ℕ)
    → p.waiters.sigwaiter t ≡ true
    → p.waiters.signals t n ≡ true
    → in_range n ≡ true
    → Given p t n
unfolding Given pthread_kill_siginfo_np
waiting-Given p t n w s r self = (
  wake p t n,
  ground arith,
  ground (arith, unblock_signo t (record p.waiters { signo = update p.waiters.signo t n })),
  ground arith,
)

Reach-Awake : {start p : Process} → Awake start → Reach start p → Awake p
Reach-Awake a begin = a
Reach-Awake a (next q p r s) = Step-Awake (Reach-Awake a r) s

-- Whatever the threads do, in any order, after a start in which no thread in a wait for a signal has it
-- pending: a thread in a wait for a signal in range does not have that signal pending; and if a thread
-- then sends it that signal, the signal is not dropped, made pending or handled, but given to the thread
-- that waits, which is unblocked, and is not pending for it.
pub no_missed_signal :
    {start p : Process}
    → Awake start
    → Reach start p
    → (t n : ℕ) → p.waiters.sigwaiter t ≡ true
    → p.waiters.signals t n ≡ true
    → in_range n ≡ true
    → ((p.states t).pending n ≡ false) × Given p t n
no_missed_signal {p} a r t n w s i = (Reach-Awake a r t n w s i, waiting-Given p t n w s i)
