-- ===== src/Barrier/Rounds.antt =====
-- A round of a barrier: all but the last thread wait, and the last one wakes them.
use libpthread.Base.{
  ℕ, ◌+◌, ◌-◌, ◌<◌, ◌≤◌, ◌≡◌, true, false, Option, none, some, List, [], ◌∷◌, elem, Distinct,
  length, arith, uint_mod, ◌∙◌,
}
use libpthread.Barrier.{Barrier, serial, waits, spins, barrier_wait}

-- Threads that arrive one after the other; `none` if one of them does not wait.
pub arrive : Barrier → List ℕ → Option Barrier
arrive b [] = some b
arrive b (t ∷ ts) = elim (barrier_wait b t) [ waits c ↦ arrive c ts | _ ↦ none ]

-- The queue after they have arrived.
abbrev pub push_all : List ℕ → List ℕ → List ℕ
push_all [] q = q
push_all (t ∷ ts) q = push_all ts (t ∷ q)

elem-push_all : (ts q : List ℕ) (t : ℕ) → elem t q ≡ true → elem t (push_all ts q) ≡ true
elem-push_all [] q t h = h
elem-push_all (x ∷ ts) q t h = elem-push_all ts (x ∷ q) t (ground arith)

Distinct-push_all : (ts q : List ℕ) → Distinct (push_all ts q) → Distinct q
Distinct-push_all [] q d = d
Distinct-push_all (t ∷ ts) q d = (Distinct-push_all ts (t ∷ q) d).1

length-push_all : (ts q : List ℕ) → length (push_all ts q) ≡ length ts + length q
length-push_all [] q = omega arith
length-push_all (t ∷ ts) q = omega (arith, length-push_all ts (t ∷ q))

wait_first :
    (b : Barrier) (t : ℕ)
    → b.lock ≡ false
    → b.pending ≤ b.count
    → b.count < uint_mod
    → 1 < b.pending
    → elem t b.queue ≡ false
    → barrier_wait b t ≡ waits (record b { pending = b.pending - 1; queue = t ∷ b.queue })
unfolding barrier_wait
wait_first b t f p c l a = ground arith

wait_last :
    (b : Barrier) (t : ℕ)
    → b.lock ≡ false
    → b.pending ≡ 1
    → 1 < b.count
    → barrier_wait b t ≡ serial b.queue (record b { pending = b.count; queue = [] })
unfolding barrier_wait
wait_last b t f p c = ground arith

arrive_lem :
    (b : Barrier) (ts : List ℕ)
    → b.lock ≡ false
    → b.pending ≤ b.count
    → b.count < uint_mod
    → length ts < b.pending
    → Distinct (push_all ts b.queue)
    → arrive b ts ≡ some (record b { pending = b.pending - length ts; queue = push_all ts b.queue })
unfolding arrive
arrive_lem b [] f p c l d = ground arith
arrive_lem b (t ∷ ts) f p c l d =
    let b₁ : Barrier = record b { pending = b.pending - 1; queue = t ∷ b.queue } in
    let absent : elem t b.queue ≡ false = (Distinct-push_all ts (t ∷ b.queue) d).0 in
    let first : barrier_wait b t ≡ waits b₁ = wait_first b t f p c (omega arith) absent in
    rw (first, arrive) (ground (arith, arrive_lem b₁ ts f (omega arith) c (omega arith) d))

-- Of as many threads as the barrier counts, two at least, all but the last one wait; the last is
-- told to be the serial thread, wakes all the others, each once, and leaves the barrier as it was
-- before the round, ready for the next.
pub barrier_round :
    (b : Barrier) (ts : List ℕ) (t : ℕ)
    → b.lock ≡ false
    → b.queue ≡ []
    → b.pending ≡ b.count
    → 1 < b.count
    → b.count < uint_mod
    → length ts + 1 ≡ b.count
    → Distinct (push_all ts [])
    → (c : Barrier) × (arrive b ts ≡ some c) × (barrier_wait c t ≡ serial (push_all ts []) b)
barrier_round b ts t f q p m w l d =
    let c : Barrier = record b { pending = b.pending - length ts; queue = push_all ts b.queue } in
    let d' : Distinct (push_all ts b.queue) = rw q d in
    (
      c,
      arrive_lem b ts f (omega arith) w (omega arith) d',
      wait_last c t f (omega arith) m ∙ ground arith,
    )

-- A barrier for one thread: the first wait returns as it should, but leaves the spin lock taken,
-- and after that no thread gets past it.
pub single_barrier_wedges :
    (b : Barrier) (t : ℕ)
    → b.lock ≡ false
    → b.pending ≡ 1
    → b.count ≡ 1
    → (c : Barrier) × (barrier_wait b t ≡ serial [] c) × ((u : ℕ) → barrier_wait c u ≡ spins)
unfolding barrier_wait
single_barrier_wedges b t f p c =
    (record b { pending = b.count; lock = true }, ground arith, (λ u. ground arith))
