-- ===== src/Signals/Process/Accept.antt =====
-- Who gets a signal: the thread that accepts a pending one, or the first one that waits for it.
use libpthread.Base.{
  ℕ, zero, suc, ◌≡◌, ◌≤◌, true, false, Option, none, some, List, [], ◌∷◌, length, elem, remove, pos,
  arith, Bool-cases, Option-cases, inl, inr, ◌==◌, ◌||◌, update, subst, refl, ap, if◌then◌else◌,
}
use libpthread.Signals.{SigSet, in_range, Action, discards, sigkill, sigstop}
use libpthread.Signals.Waiters.{Waiters, sigwaiter_unblock, Chain, Waiting}
use libpthread.Signals.Waiters.Order.{block-Waiting, unblock-Waiting}
use libpthread.Signals.Process.{
  Process, wake, Sent, woken, find_waiter, kill_found, kill, set_action, sigaction,
  pthread_kill_siginfo_np, HighestBit, Waited, accepts, waits, aborts, common, accepted,
  accept_from, sigwaitinfo,
}

-- What a wait does: a signal of the set that was pending is taken, from the thread and the process, and
-- nothing else changes; or none of the set was pending, and the thread waits in front of the others.
pub Waits : Process → ℕ → SigSet → List ℕ → Waited → Type 0
Waits p t set xs (accepts n i q) =
    (set n ≡ true)
    × (((p.states t).pending n || p.process_pending n) ≡ true)
    × (in_range n ≡ true → ((q.states t).pending n || q.process_pending n) ≡ false)
    × ((m : ℕ)
        → (n == m) ≡ false
        → ((q.states t).pending m ≡ (p.states t).pending m)
          × (q.process_pending m ≡ p.process_pending m))
    × ((u : ℕ) → (t == u) ≡ false → q.states u ≡ p.states u)
    × (q.waiters ≡ p.waiters)
Waits p t set xs (waits q) =
    ((n : ℕ)
      → in_range n ≡ true
      → set n ≡ true
      → ((p.states t).pending n || p.process_pending n) ≡ false)
    × Waiting q.waiters (t ∷ xs)
    × (q.waiters.sigwaiter t ≡ true)
    × (q.waiters.signals t ≡ set)
Waits p t set xs aborts = true ≡ false

-- What is taken.
accepted-Waits :
    (p : Process) (t : ℕ) (set : SigSet) (xs : List ℕ) (n i : ℕ)
    → set n ≡ true
    → ((p.states t).pending n || p.process_pending n) ≡ true
    → Waits p t set xs (accepts n i (accepted p t n))
unfolding Waits
accepted-Waits p t set xs n i s e =
    (s, e, (λ r. ground arith), (λ m d. (ground arith, ground arith)), (λ u d. ground arith), refl)

accept_from-Waits :
    (p : Process) (bits : HighestBit) (t : ℕ) (set : SigSet) (xs : List ℕ) (n m : ℕ)
    → Waiting p.waiters xs
    → p.waiters.sigwaiter t ≡ false
    → elem t xs ≡ false
    → bits.msb (common p.process_pending set) ≡ n
    → bits.msb (common (p.states t).pending set) ≡ m
    → Waits p t set xs (accept_from bits p t set n m)
unfolding Waits
accept_from-Waits p bits t set xs (suc n) m w s a e f =
    let k =
      subst (λ x. common p.process_pending set x ≡ true) e
        (bits.msb-elem (common p.process_pending set) (λ h. omega (arith, h, e))) in
    accepted-Waits p t set xs (suc n) ((p.states t).info (suc n)) (ground (arith, k))
      (ground (arith, k))
accept_from-Waits p bits t set xs zero (suc m) w s a e f =
    let k =
      subst (λ x. common (p.states t).pending set x ≡ true) f
        (bits.msb-elem (common (p.states t).pending set) (λ h. omega (arith, h, f))) in
    accepted-Waits p t set xs (suc m) (p.process_info (suc m)) (ground (arith, k))
      (ground (arith, k))
accept_from-Waits p bits t set xs zero zero w s a e f =
    let b = block-Waiting t set p.waiters xs w s a in
    rw b.0 (
      (λ n r h. ground (
        arith,
        bits.msb-zero (common p.process_pending set) n e (ground arith) (ground arith),
        bits.msb-zero (common (p.states t).pending set) n f (ground arith) (ground arith),
      )),
      b.1,
      ground arith,
      ground arith,
    )

-- `sigwaitinfo` by a thread that does not wait yet: if it takes a signal, that was pending and is of the
-- set, and it is pending no more, if it is in range, for the thread and for the process, while the other
-- signals, the other threads and the waiters are as before; if it waits, no signal of the set
-- was pending, and the thread is in the list of waiters, in front, with the set. No assertion fails.
pub sigwaitinfo-Waits :
    (p : Process) (bits : HighestBit) (t : ℕ) (set : SigSet) (xs : List ℕ)
    → Waiting p.waiters xs
    → p.waiters.sigwaiter t ≡ false
    → elem t xs ≡ false
    → Waits p t set xs (sigwaitinfo bits p t set)
unfolding sigwaitinfo
sigwaitinfo-Waits p bits t set xs w s a =
    accept_from-Waits p bits t set xs (bits.msb (common p.process_pending set))
      (bits.msb (common (p.states t).pending set)) w s a refl refl

-- The first one of a list that waits for a signal
abbrev pub first_for : Waiters → List ℕ → ℕ → Option ℕ
first_for w [] n = none
first_for w (t ∷ ts) n = if w.signals t n then some t else first_for w ts n

find_waiter-first_for :
    (fuel : ℕ) (w : Waiters) (p o : Option ℕ) (xs : List ℕ) (n : ℕ)
    → Chain w p o xs
    → length xs ≤ fuel
    → find_waiter fuel o w n ≡ some (first_for w xs n)
unfolding find_waiter
find_waiter-first_for zero w p o [] n c l = rw c refl
find_waiter-first_for (suc fuel) w p o [] n c l = rw c refl
find_waiter-first_for zero w p o (x ∷ xs) n c l = absurd (omega (arith, l))
find_waiter-first_for (suc fuel) w p o (x ∷ xs) n c l =
    let rest = find_waiter-first_for fuel w (some x) (w.next x) xs n c.2 (ground arith) in
    rw c.0 (ground (arith, rest))

first_for-elem :
    (w : Waiters) (xs : List ℕ) (n t : ℕ)
    → first_for w xs n ≡ some t
    → (elem t xs ≡ true) × (w.signals t n ≡ true)
first_for-elem w [] n t h = cc
first_for-elem w (x ∷ xs) n t h = ground (arith, first_for-elem w xs n t)

-- Who leaves the list keeps the signal.
pub unblock_signo : (t : ℕ) (w : Waiters) → (sigwaiter_unblock t w).signo t ≡ w.signo t
unfolding sigwaiter_unblock
unblock_signo t w = elim (Option-cases (w.next t)) [
  | inl a ↦ elim (Option-cases (w.prev t)) [ inl b ↦ ground arith | inr (y, b) ↦ ground arith ]
  | inr (x, a) ↦ elim (Option-cases (w.prev t)) [ inl b ↦ ground arith | inr (y, b) ↦ ground arith ]
]

-- What `kill` of the own process comes to, by the first thread that waits for the signal.
pub Kills : Process → ℕ → ℕ → List ℕ → Option ℕ → Option Sent → Type 0
Kills p self n xs (some t) o =
    (q : Process) × (o ≡ some (woken q))
    × (p.waiters.signals t n ≡ true)
    × Waiting q.waiters (remove t xs)
    × (q.waiters.signo t ≡ n)
    × ((in_range n ≡ true) → ((q.states t).pending n || q.process_pending n) ≡ false)
Kills p self n xs none o = o ≡ some (pthread_kill_siginfo_np p self self (pos n))

Chain-signo :
    (t n : ℕ) (w : Waiters) (p o : Option ℕ) (xs : List ℕ)
    → Chain w p o xs
    → Chain (record w { signo = update w.signo t n }) p o xs
Chain-signo t n w p o [] c = c
Chain-signo t n w p o (x ∷ xs) c = (c.0, c.1, Chain-signo t n w (some x) (w.next x) xs c.2)

found-Kills :
    (p : Process) (self n : ℕ) (xs : List ℕ) (o : Option ℕ)
    → Waiting p.waiters xs
    → first_for p.waiters xs n ≡ o
    → Kills p self n xs o (kill_found p self n (some o))
unfolding Kills
found-Kills p self n xs none w e = refl
found-Kills p self n xs (some t) w e =
    let f = first_for-elem p.waiters xs n t e in
    let v : Waiters = record p.waiters { signo = update p.waiters.signo t n } in
    (
      wake p t n,
      refl,
      f.1,
      unblock-Waiting t v xs (Chain-signo t n p.waiters none p.waiters.sigwaiters xs w.0, w.1) f.0,
      ground (arith, unblock_signo t v),
      (λ r. ground arith),
    )

-- `kill` of the own process, with fuel for the threads that wait, ends. The first thread in the list
-- that waits for the signal gets it and leaves the list, and the signal is pending no more, for that
-- thread and the process; if there is none, the signal is sent to the caller.
pub kill-Kills :
    (fuel : ℕ) (p : Process) (self n : ℕ) (xs : List ℕ)
    → Waiting p.waiters xs
    → length xs ≤ fuel
    → Kills p self n xs (first_for p.waiters xs n) (kill fuel p self true n)
unfolding kill
kill-Kills fuel p self n xs w l =
    rw (find_waiter-first_for fuel p.waiters none p.waiters.sigwaiters xs n w.0 l)
      (found-Kills p self n xs (first_for p.waiters xs n) w refl)

-- What `sigaction` does with an action for a signal.
pub record Acts (p q : Process) (t n : ℕ) (a : Action) : Type 0 where
  pub set : (q.states t).actions n ≡ a
  pub others : (i : ℕ) → (n == i) ≡ false → (q.states t).actions i ≡ (p.states t).actions i
  pub threads : (u : ℕ) → (t == u) ≡ false → q.states u ≡ p.states u
  pub kept : (i : ℕ) → (n == i) ≡ false → (q.states t).pending i ≡ (p.states t).pending i
  pub kept_process : (i : ℕ) → (n == i) ≡ false → q.process_pending i ≡ p.process_pending i
  pub not_discarded :
      discards a.handler n ≡ false
      → ((q.states t).pending n ≡ (p.states t).pending n)
        × (q.process_pending n ≡ p.process_pending n)
  pub waiting : q.waiters ≡ p.waiters
  pub discarded :
      discards a.handler n ≡ true → ((q.states t).pending n || q.process_pending n) ≡ false
  pub unstoppable : ((q.states t).blocked sigkill || (q.states t).blocked sigstop) ≡ false

set_action-Acts :
    (p : Process) (t n : ℕ) (a : Action) → in_range n ≡ true → Acts p (set_action p t n a) t n a
set_action-Acts p t n a r = elim (Bool-cases (discards a.handler n)) [
  | inl e ↦ rw e (record {
    set = ground arith;
    others = λ i h. ground arith;
    threads = λ u h. ground arith;
    kept = λ i h. ground arith;
    kept_process = λ i h. ground arith;
    not_discarded = λ h. ground (arith, e);
    waiting = refl;
    discarded = λ h. ground arith;
    unstoppable = ground arith;
  })
  | inr e ↦ rw e (record {
    set = ground arith;
    others = λ i h. ground arith;
    threads = λ u h. ground arith;
    kept = λ i h. ground arith;
    kept_process = λ i h. ground arith;
    not_discarded = λ h. (ground arith, ground arith);
    waiting = refl;
    discarded = λ h. ground (arith, e);
    unstoppable = ground arith;
  })
]

sigaction_old :
    (q : Process) (t n : ℕ) (a : Action)
    → in_range n ≡ true
    → (q.states t).actions n ≡ a
    → sigaction q t n none ≡ some (a, q)
unfolding sigaction
sigaction_old q t n a r h = rw r (ap (λ (x : Action). some (x, q)) h)

-- `sigaction` for a signal in range returns the action that was set before and sets the new one, which
-- the next call returns. The actions of other signals and threads stay, and so do the waiters and
-- the other pending signals, of the thread and of the process; the signal itself is pending as it was,
-- unless the new action ignores it: then it is pending no more, for the thread and for the process.
-- SIGKILL and SIGSTOP are not blocked afterwards.
pub sigaction-Acts :
    (p : Process) (t n : ℕ) (a : Action)
    → in_range n ≡ true
    → (q : Process) × (sigaction p t n (some a) ≡ some ((p.states t).actions n, q))
      × Acts p q t n a
      × (sigaction q t n none ≡ some (a, q))
unfolding sigaction
sigaction-Acts p t n a r =
    let acts = set_action-Acts p t n a r in
    (set_action p t n a, rw r refl, acts, sigaction_old (set_action p t n a) t n a r acts.set)
