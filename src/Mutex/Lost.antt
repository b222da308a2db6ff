-- ===== src/Mutex/Lost.antt =====
-- What a time-out that meets a hand-over does to a mutex, and what cannot happen without time-outs.
use libpthread.Base.{
  returns, success, etimedout, ℕ, ◌≡◌, ◌≢◌, true, false, some, List, [], ◌∷◌, arith, update,
  elem-remove_other,
}
use libpthread.Mutex.{Mutex, timed, mutex_type, unlock, timedlock, trylock, settle, finish, AttrRef}
use libpthread.Mutex.System.{
  Pc, idle, owning, draining, unblocked, finishing, System, Reach, Action, step, put, release,
  resettles, drains, ends,
}
use libpthread.Mutex.Cases.{Kept, step_cases}
use libpthread.Mutex.Invariant.{holds}
use libpthread.Mutex.Invariant.Steps.{Reach-Inv, SystemInv, step-Inv}

-- The mutex is held, and nobody holds it.
pub record IsLost (m : Mutex) (pc : ℕ → Pc) : Type 0 where
  pub normal : mutex_type m ≡ timed
  pub taken : m.held ≡ true
  pub nobody : (i : ℕ) → holds m pc i ≡ false

abbrev Lost : System → Type 0
Lost s = IsLost s.mutex s.pc

-- The states reached from `s`.
pub data From (s : System) : System → Type 0 where
  here : From s s
  next : {t u : System} (i : ℕ) (b : Action) → From s t → step t i b ≡ some u → From s u

Kept-Lost : (s : System) (i : ℕ) (b : Action) → SystemInv s → Lost s → Kept Lost s i b
unfolding timedlock trylock finish
Kept-Lost s i b inv l = record {
  locks = λ a ws m here q. absurd (ground (arith, l.taken));
  lock_fails = λ a e ws m p here n q. record {
    normal = ground arith;
    taken = ground arith;
    nobody = λ j. ground (arith, l.nobody j);
  };
  queues = λ a m here q. record {
    normal = ground arith;
    taken = ground arith;
    nobody = λ j. ground (arith, l.nobody j);
  };
  relocks = λ a n ws m here b k q. absurd (k l.normal);
  requeues = λ a n m here k q. absurd (k l.normal);
  tries = λ ws m here q. absurd (ground arith);
  retries = λ n ws m here b q. absurd (ground arith);
  try_fails = λ e ws m p here n q. record {
    normal = ground arith;
    taken = ground arith;
    nobody = λ j. ground (arith, l.nobody j);
  };
  unlocks = λ e n ws m here q. absurd (ground (arith, l.nobody i));
  foreign_unlocks = λ e ws m here k g q. absurd (k l.normal);
  woken = λ t k here q. record {
    normal = l.normal;
    taken = l.taken;
    nobody = λ j. ground (arith, l.nobody j);
  };
  late = λ _ here. record {
    normal = l.normal;
    taken = l.taken;
    nobody = λ j. ground (arith, l.nobody j);
  };
  leaves = λ e here q.
      let others = λ (j : ℕ) (n : i ≢ j). elem-remove_other i j s.mutex.queue n in
      record {
        normal = ground arith;
        taken = ground arith;
        nobody = λ j. ground (arith, l.nobody j, others j, inv.queued i);
      };
  taken = λ e here q. absurd (ground (arith, l.nobody i));
  drained = λ k here q. absurd (ground (arith, l.nobody i));
  returns_lock = λ e ws m here q. absurd (ground (arith, l.nobody i));
  returns_error = λ e r ws m here n q. record {
    normal = ground arith;
    taken = ground arith;
    nobody = λ j. ground (arith, l.nobody j);
  };
}

From-Inv : {s t : System} → SystemInv s → From s t → SystemInv t
From-Inv v here = v
From-Inv v (next {t} {u} i b r h) = step-Inv t u i b (From-Inv v r) h

-- A lost mutex stays lost.
From-Lost : {s t : System} → SystemInv s → Lost s → From s t → Lost t
From-Lost v l here = l
From-Lost v l (next {t} {u} i b r h) =
    step_cases Lost t u i b (Kept-Lost t i b (From-Inv v r) (From-Lost v l r)) h

module _ {a : AttrRef} {s : System} (r : Reach a s) (i t : ℕ) (ts : List ℕ)
    (normal : mutex_type s.mutex ≡ timed) (free : s.mutex.lock ≡ false) (has : s.pc i ≡ owning 0)
    (first : s.mutex.queue ≡ t ∷ ts) (late : s.pc t ≡ unblocked true) where
  inv : SystemInv s
  inv = Reach-Inv r

  rest : Mutex
  rest = record (s.mutex) { queue = ts }

  unlocked : System
  unfolding rest
  unlocked = put s i idle rest (t ∷ [])

  settled : System
  unfolding unlocked
  settled = put unlocked t draining rest []

  received : System
  unfolding settled
  received = record settled {
    pc = update settled.pc t (finishing true);
    msgs = update settled.msgs t (s.msgs t);
  }

  returned : System
  unfolding received
  returned = put received t idle rest []

  unlock_step : step s i release ≡ some unlocked
  unfolding unlocked step unlock
  unlock_step = ground arith

  settle_step : step unlocked t resettles ≡ some settled
  unfolding settled step settle
  settle_step = ground (arith, inv.distinct)

  drain_step : step settled t drains ≡ some received
  unfolding received step
  drain_step = ground (arith, inv.sent t)

  end_step : step received t ends ≡ some returned
  unfolding returned step finish
  end_step = ground arith

  returned-Lost : Lost returned
  unfolding returned
  returned-Lost = record {
    normal = normal;
    taken = inv.held i (ground arith);
    nobody = λ j. ground (arith, inv.unique i j, inv.distinct);
  }

  -- On a normal mutex, let the thread `t` to be woken first time out before the owner unlocks. The
  -- unlock takes it out of the queue, sends it a message and leaves the mutex held: the lock is
  -- handed to `t`. Its call settles, receives the message and returns ETIMEDOUT. These are four
  -- steps, of which the last brings `t` out of the call; from there on the mutex is held in every
  -- state and no thread ever has it again.
  pub timeout_loses_lock :
      (u v w z : System) × (unlock s.mutex i ≡ returns success (t ∷ []) u.mutex)
      × (u.mutex.held ≡ true)
      × (step s i release ≡ some u)
      × (step u t resettles ≡ some v)
      × (step v t drains ≡ some w)
      × (finish w.mutex t true ≡ returns etimedout [] z.mutex)
      × (step w t ends ≡ some z)
      × (z.pc t ≡ idle)
      × ((y : System) → From z y → (y.mutex.held ≡ true) × ((j n : ℕ) → y.pc j ≢ owning n))
  unfolding unlock unlocked rest finish received returned settled
  timeout_loses_lock =
      let path =
        next t ends
          (next t drains (next t resettles (next i release here unlock_step) settle_step)
            drain_step)
          end_step in
      (
        unlocked,
        settled,
        received,
        returned,
        ground arith,
        ground (arith, inv.held i),
        unlock_step,
        settle_step,
        drain_step,
        ground arith,
        end_step,
        ground arith,
        (λ y f.
            let lost = From-Lost (From-Inv inv path) returned-Lost f in
            (lost.taken, λ j n h. ground (arith, lost.nobody j))),
      )
