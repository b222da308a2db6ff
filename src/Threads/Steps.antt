-- ===== src/Threads/Steps.antt =====
-- The calls of threads in any order, and what each keeps of the table.
use libpthread.Base.{
  ℕ, ◌-◌, ◌≡◌, ◌≢◌, refl, subst, Bool, true, false, Option, none, some, [], ◌∷◌, elem, update,
  arith, Errno, success, esrch,
}
use libpthread.Threads.{
  no_mask, exited, terminated, Threads, getid, Failure, Ends, returns, aborts, create, exit_thread,
  join, detach,
}
use libpthread.Threads.Invariant.{Inv}
use libpthread.Threads.Alloc.{Fresh}
use libpthread.Threads.Calls.{
  EndsWell, create-Ends, create-Inv, exit_thread-Ends, join-Ends, detach-Ends, is_running,
  getid-Live, dealloc_lem,
}

-- A thread that runs may exit; any identifier may be joined or detached.
pub data Step (t u : Threads) : Type 0 where
  creates :
      (memory : Option ℕ) (grows detach : Bool) (f : Failure) (e : Errno) (v : Option ℕ)
      → Fresh t memory
      → create t memory grows detach f ≡ returns e v u
      → Step t u
  exits :
      (p value : ℕ) (e : Errno) (v : Option ℕ)
      → elem p t.allocated ≡ true
      → elem p t.free_threads ≡ false
      → is_running (t.state p) ≡ true
      → exit_thread t p value ≡ returns e v u
      → Step t u
  joins : (i : ℕ) (e : Errno) (v : Option ℕ) → join t i ≡ some (returns e v u) → Step t u
  detaches : (i : ℕ) (e : Errno) (v : Option ℕ) → detach t i ≡ returns e v u → Step t u

abbrev pub init : Threads
init = record {
  entries = λ _. none;
  num_threads = 0;
  max_threads = 0;
  free_threads = [];
  allocated = [];
  state = λ _. terminated;
  thread = λ _. 0;
  stack = λ _. false;
  status = λ _. 0;
}

pub data Reach : Threads → Type 0 where
  start : Reach init
  later : {t u : Threads} → Reach t → Step t u → Reach u

returned :
    {t : Threads} {o : Ends} (e : Errno) (v : Option ℕ)
    → o ≡ returns e v t
    → EndsWell o
    → Inv none t
unfolding EndsWell
returned e v h w = subst EndsWell h w

pub Reach-Inv : {t : Threads} → Reach t → Inv none t
unfolding EndsWell
Reach-Inv start = record {
  room = ground arith;
  least = λ p a. ground arith;
  bounded = λ p a. ground arith;
  unique = λ p q a b e. ground arith;
  own_id = λ i p e. ground arith;
  own_allocated = λ i p e. ground arith;
  own_used = λ i p e. ground arith;
  free_allocated = λ p f. ground arith;
  free_terminated = λ p f. ground arith;
  free_distinct = tt;
  live_entry = λ p a f o. ground arith;
  live_state = λ p a f o. ground arith;
  live_stack = λ p a f o. ground arith;
}
Reach-Inv (later {t} r (creates memory grows d f e v m h)) =
    create-Inv t memory grows d f (Reach-Inv r) m h
Reach-Inv (later {t} r (exits p value e v a f s h)) =
    returned e v h (exit_thread-Ends t p value (Reach-Inv r) a f s)
Reach-Inv (later {t} r (joins i e v h)) = join-Ends t i (returns e v _) (Reach-Inv r) h
Reach-Inv (later {t} r (detaches i e v h)) = returned e v h (detach-Ends t i (Reach-Inv r))

never_aborts : (o : Ends) → EndsWell o → o ≢ aborts
unfolding EndsWell
never_aborts o w h = absurd (ground (arith, subst EndsWell h w))

module _ {t : Threads} (r : Reach t) where
  -- In every state that the calls lead to, none of the assertions that the model has fails: not when
  -- a thread is created, if `malloc` gives a structure that is not in use or none and the calls that
  -- set the signal mask do not fail; not when a thread exits that runs; and not when any identifier
  -- is joined or detached. They are those on the state of a thread and on its stack, and that a
  -- structure comes to the free list only if it is not in it.
  pub threads_no_abort :
      ((memory : Option ℕ) (grows d : Bool) (f : Failure)
        → Fresh t memory
        → f ≢ no_mask
        → create t memory grows d f ≢ aborts)
      × ((p value : ℕ)
          → elem p t.allocated ≡ true
          → elem p t.free_threads ≡ false
          → is_running (t.state p) ≡ true
          → exit_thread t p value ≢ aborts)
      × ((i : ℕ) → join t i ≢ some aborts)
      × ((i : ℕ) → detach t i ≢ aborts)
  threads_no_abort =
      let v = Reach-Inv r in
      (
        (λ memory grows d f m k. never_aborts _ (create-Ends t memory grows d f k v m)),
        (λ p value a f s. never_aborts _ (exit_thread-Ends t p value v a f s)),
        (λ i h. never_aborts aborts (join-Ends t i aborts v h) refl),
        (λ i. never_aborts _ (detach-Ends t i v)),
      )

  -- In every state that the calls lead to: joining a thread that has exited, by an identifier that
  -- is found, returns its status and puts its structure on the free list; the identifier is then
  -- not found, and joining it again returns ESRCH, while every other identifier is found as before.
  pub join_reaps :
      (i p : ℕ)
      → getid t i ≡ some (some p)
      → t.state p ≡ exited
      → (u : Threads) × (join t i ≡ some (returns success (some (t.status p)) u))
        × (elem p u.free_threads ≡ true)
        × (getid u i ≡ some none)
        × (join u i ≡ some (returns esrch none u))
        × ((j : ℕ) → j ≢ i → getid u j ≡ getid t j)
  unfolding join
  join_reaps i p g s =
      let l = getid-Live t i p (Reach-Inv r) g in
      let given : Threads = record t { stack = update t.stack p false } in
      let u : Threads = record given {
        entries = update t.entries (t.thread p - 1) none;
        free_threads = p ∷ t.free_threads;
        state = update t.state p terminated;
      } in
      let gone : getid u i ≡ some none = ground (arith, l.2) in
      (
        u,
        rw (g, s, l.4, dealloc_lem given p l.3 l.1) refl,
        ground arith,
        gone,
        rw gone refl,
        (λ j n. ground (arith, l.2)),
      )
