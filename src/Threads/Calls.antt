-- ===== src/Threads/Calls.antt =====
-- Each call on threads ends at no assertion, and keeps the table well formed.
use libpthread.Base.{
  ◌≢◌, ◌⊎◌, ℕ, ◌-◌, ◌≡◌, refl, subst, Bool, true, false, Option, none, some, ◌∷◌, elem, update,
  arith, inl, inr, Bool-cases, Errno, success, some_inj,
}
use libpthread.Threads.{
  State, joinable, detached, exited, terminated, Threads, is_terminated, getid, alloc, dealloc,
  Failure, nowhere, no_tls, no_mask, no_stack, no_thread, no_setup, no_start, given_up, Ends,
  returns, aborts, out_of_range, freed, start_in, create_on, create, exit_thread, reap, join_in,
  join, detach_in, detach, exit_in, join_state, detach_state, initial_state,
}
use libpthread.Threads.Invariant.{Inv, set_up-Inv, dealloc-Inv}
use libpthread.Threads.Alloc.{Fresh, Allocated, no_memory, holds, alloc-Allocated}

weaken : (t : Threads) (p : ℕ) → Inv none t → Inv (some p) t
weaken t p v = record {
  room = v.room;
  least = v.least;
  bounded = v.bounded;
  unique = v.unique;
  own_id = v.own_id;
  own_allocated = v.own_allocated;
  own_used = v.own_used;
  free_allocated = v.free_allocated;
  free_terminated = v.free_terminated;
  free_distinct = v.free_distinct;
  live_entry = λ q a f o. v.live_entry q a f refl;
  live_state = λ q a f o. v.live_state q a f refl;
  live_stack = λ q a f o. v.live_stack q a f refl;
}

-- A call that ends does so at no assertion, and the table stays well formed.
unfoldable pub EndsWell : Ends → Type 0
EndsWell (returns e v t) = Inv none t
EndsWell aborts = true ≡ false
EndsWell out_of_range = Unit {0}

pub dealloc_lem :
    (t : Threads) (p : ℕ)
    → is_terminated (t.state p) ≡ false
    → elem p t.free_threads ≡ false
    → dealloc t p
      ≡ some (record t {
        entries = update t.entries (t.thread p - 1) none;
        free_threads = p ∷ t.free_threads;
        state = update t.state p terminated;
      })
unfolding dealloc
dealloc_lem t p s f = rw (s, f) refl

-- A structure that a call holds, or that is in use, with the fields set as the call sets them.
module _ (t : Threads) (p : ℕ) (v : Inv (some p) t) (a : elem p t.allocated ≡ true)
    (f : elem p t.free_threads ≡ false) where
  given_up-Ends :
      (detach : Bool) (e : Errno) (r : Option ℕ)
      → EndsWell (freed e r (dealloc (given_up t p detach) p))
  unfolding EndsWell
  given_up-Ends true e r = rw (dealloc_lem (given_up t p true) p (ground arith) f) (
      dealloc-Inv t p v a f (update (update t.state p (initial_state true)) p terminated)
        (update t.stack p false) (ground arith) (λ q n. ground arith) (λ q n. ground arith))
  given_up-Ends false e r = rw (dealloc_lem (given_up t p false) p (ground arith) f) (
      dealloc-Inv t p v a f (update (update t.state p (initial_state false)) p terminated)
        (update t.stack p false) (ground arith) (λ q n. ground arith) (λ q n. ground arith))

  start_in-Ends : (detach : Bool) (g : Failure) → g ≢ no_mask → EndsWell (start_in t p detach g)
  unfolding EndsWell
  start_in-Ends detach nowhere m = set_up-Inv t p v a f detach
  start_in-Ends detach no_mask m = absurd (m refl)
  start_in-Ends detach no_tls m = given_up-Ends detach _ none
  start_in-Ends detach (no_stack e) m = elim (Bool-cases (t.stack p)) [
    | inl s ↦ rw s (set_up-Inv t p v a f detach)
    | inr s ↦ rw s (given_up-Ends detach _ none)
  ]
  start_in-Ends detach (no_thread e) m = given_up-Ends detach _ none
  start_in-Ends detach (no_setup e) m = given_up-Ends detach _ none
  start_in-Ends detach (no_start e) m = given_up-Ends detach _ none

  -- A stack is there, and it is given back with the structure.
  reap-Ends :
      (r : Option ℕ) → is_terminated (t.state p) ≡ false → t.stack p ≡ true → EndsWell (reap t p r)
  unfolding EndsWell
  reap-Ends r s k =
      let given : Threads = record t { stack = update t.stack p false } in
      rw (k, dealloc_lem given p s f)
        (dealloc-Inv t p v a f (update t.state p terminated) (update t.stack p false) (ground arith)
          (λ q n. ground arith) (λ q n. ground arith))

  dealloc-Ends :
      (e : Errno) (r : Option ℕ)
      → is_terminated (t.state p) ≡ false
      → EndsWell (freed e r (dealloc t p))
  unfolding EndsWell
  dealloc-Ends e r s = rw (dealloc_lem t p s f) (
      dealloc-Inv t p v a f (update t.state p terminated) t.stack (ground arith)
        (λ q n. ground arith) (λ q n. ground arith))

create_on-Ends :
    (t : Threads) (o : Option ℕ × Threads) (detach : Bool) (f : Failure)
    → f ≢ no_mask
    → Inv none t
    → Allocated t o
    → EndsWell (create_on detach f o)
unfolding EndsWell
create_on-Ends t _ detach f m v no_memory = v
create_on-Ends t _ detach f m v (holds p u w a n) = start_in-Ends u p w a n detach f m

pub create-Ends :
    (t : Threads) (memory : Option ℕ) (grows detach : Bool) (f : Failure)
    → f ≢ no_mask
    → Inv none t
    → Fresh t memory
    → EndsWell (create t memory grows detach f)
unfolding create
create-Ends t memory grows detach f k v m =
    create_on-Ends t (alloc t memory grows) detach f k v (alloc-Allocated t memory grows v m)

mask-cases : (f : Failure) → (f ≡ no_mask) ⊎ (f ≢ no_mask)
mask-cases nowhere = inr (λ e. cc)
mask-cases no_tls = inr (λ e. cc)
mask-cases no_mask = inl refl
mask-cases (no_stack e) = inr (λ e. cc)
mask-cases (no_thread e) = inr (λ e. cc)
mask-cases (no_setup e) = inr (λ e. cc)
mask-cases (no_start e) = inr (λ e. cc)

masked-Inv :
    (t : Threads) (o : Option ℕ × Threads) (detach : Bool) {e : Errno} {r : Option ℕ} {u : Threads}
    → Inv none t
    → Allocated t o
    → create_on detach no_mask o ≡ returns e r u
    → Inv none u
unfolding EndsWell
masked-Inv t _ detach v no_memory h = subst EndsWell h v
masked-Inv t _ detach v (holds p u w a n) h = cc

-- A call that returns, whatever else fails, leaves the table well formed.
pub create-Inv :
    (t : Threads) (memory : Option ℕ) (grows detach : Bool) (f : Failure) {e : Errno} {r : Option ℕ}
    {u : Threads}
    → Inv none t
    → Fresh t memory
    → create t memory grows detach f ≡ returns e r u
    → Inv none u
unfolding create EndsWell
create-Inv t memory grows detach f {e} {r} {u} v m h = elim (mask-cases f) [
  | inl k ↦
      masked-Inv t (alloc t memory grows) detach v (alloc-Allocated t memory grows v m)
        (subst (λ g. create_on detach g (alloc t memory grows) ≡ returns e r u) k h)
  | inr k ↦ subst EndsWell h (create-Ends t memory grows detach f k v m)
]

-- The state of a structure in use changes, to one that is not terminated.
changed-Inv :
    (t : Threads) (p : ℕ) (s : State) (status : ℕ → ℕ)
    → Inv none t
    → is_terminated s ≡ false
    → elem p t.free_threads ≡ false
    → Inv none (record t { state = update t.state p s; status = status })
changed-Inv t p s status v n f = record {
  room = v.room;
  least = v.least;
  bounded = v.bounded;
  unique = v.unique;
  own_id = v.own_id;
  own_allocated = v.own_allocated;
  own_used = v.own_used;
  free_allocated = v.free_allocated;
  free_terminated = λ q g. ground (arith, v.free_terminated q);
  free_distinct = v.free_distinct;
  live_entry = v.live_entry;
  live_state = λ q a g o. ground (arith, v.live_state q);
  live_stack = v.live_stack;
}

-- `pthread_join` ends well, if it ends.
join_state-Ends :
    (t : Threads) (p : ℕ) (s : State) (o : Ends)
    → Inv none t
    → elem p t.allocated ≡ true
    → elem p t.free_threads ≡ false
    → t.state p ≡ s
    → join_state t p s ≡ some o
    → EndsWell o
unfolding EndsWell
join_state-Ends t p joinable o v a f e h = cc
join_state-Ends t p exited o v a f e h =
    subst EndsWell (some_inj h)
      (reap-Ends t p (weaken t p v) a f _ (ground arith) (v.live_stack p a f refl))
join_state-Ends t p terminated o v a f e h = subst EndsWell (some_inj h) v
join_state-Ends t p detached o v a f e h = subst EndsWell (some_inj h) v

detach_state-Ends :
    (t : Threads) (p : ℕ) (s : State)
    → Inv none t
    → elem p t.allocated ≡ true
    → elem p t.free_threads ≡ false
    → t.state p ≡ s
    → EndsWell (detach_state t p s)
unfolding EndsWell
detach_state-Ends t p joinable v a f e = changed-Inv t p detached t.status v refl f
detach_state-Ends t p exited v a f e =
    reap-Ends t p (weaken t p v) a f none (ground arith) (v.live_stack p a f refl)
detach_state-Ends t p terminated v a f e = v
detach_state-Ends t p detached v a f e = v

abbrev pub is_running : State → Bool
is_running joinable = true
is_running detached = true
is_running exited = false
is_running terminated = false

exit_in-Ends :
    (t : Threads) (p value : ℕ) (s : State)
    → Inv none t
    → elem p t.allocated ≡ true
    → elem p t.free_threads ≡ false
    → t.state p ≡ s
    → is_running s ≡ true
    → EndsWell (exit_in t p value s)
unfolding EndsWell
exit_in-Ends t p value joinable v a f e r =
    changed-Inv t p exited (update t.status p value) v refl f
exit_in-Ends t p value detached v a f e r =
    dealloc-Ends t p (weaken t p v) a f success none (ground arith)
exit_in-Ends t p value exited v a f e r = ground arith
exit_in-Ends t p value terminated v a f e r = ground arith

pub exit_thread-Ends :
    (t : Threads) (p value : ℕ)
    → Inv none t
    → elem p t.allocated ≡ true
    → elem p t.free_threads ≡ false
    → is_running (t.state p) ≡ true
    → EndsWell (exit_thread t p value)
unfolding exit_thread
exit_thread-Ends t p value v a f r = exit_in-Ends t p value (t.state p) v a f refl r

-- What an identifier gives is a structure in use.
pub getid-Live :
    (t : Threads) (i p : ℕ)
    → Inv none t
    → getid t i ≡ some (some p)
    → (elem p t.allocated ≡ true)
      × (elem p t.free_threads ≡ false)
      × (t.thread p ≡ i)
      × (is_terminated (t.state p) ≡ false)
      × (t.stack p ≡ true)
getid-Live t i p v g =
    let e : t.entries (i - 1) ≡ some p = ground arith in
    let a = v.own_allocated (i - 1) p e in
    let f = v.own_used (i - 1) p e in
    (a, f, ground (arith, v.own_id (i - 1) p e), v.live_state p a f refl, v.live_stack p a f refl)

join_in-Ends :
    (t : Threads) (i : ℕ) (g : Option (Option ℕ)) (o : Ends)
    → Inv none t
    → getid t i ≡ g
    → join_in t g ≡ some o
    → EndsWell o
unfolding EndsWell
join_in-Ends t i none o v e h = subst EndsWell (some_inj h) tt
join_in-Ends t i (some none) o v e h = subst EndsWell (some_inj h) v
join_in-Ends t i (some (some p)) o v e h =
    let l = getid-Live t i p v e in join_state-Ends t p (t.state p) o v l.0 l.1 refl h

pub join-Ends : (t : Threads) (i : ℕ) (o : Ends) → Inv none t → join t i ≡ some o → EndsWell o
unfolding join
join-Ends t i o v h = join_in-Ends t i (getid t i) o v refl h

detach_in-Ends :
    (t : Threads) (i : ℕ) (g : Option (Option ℕ))
    → Inv none t
    → getid t i ≡ g
    → EndsWell (detach_in t g)
unfolding EndsWell
detach_in-Ends t i none v e = tt
detach_in-Ends t i (some none) v e = v
detach_in-Ends t i (some (some p)) v e =
    let l = getid-Live t i p v e in detach_state-Ends t p (t.state p) v l.0 l.1 refl

pub detach-Ends : (t : Threads) (i : ℕ) → Inv none t → EndsWell (detach t i)
unfolding detach
detach-Ends t i v = detach_in-Ends t i (getid t i) v refl
