-- ===== src/Threads/Invariant.antt =====
-- The table of threads: each structure has its own identifier and its own slot, and the structures
-- on the free list are terminated and have an empty slot.
use libpthread.Base.{
  ℕ, ◌+◌, ◌-◌, ◌≤◌, ◌<◌, ◌≡◌, ◌≢◌, Bool, true, false, Option, none, some, List, [], ◌∷◌, elem,
  remove, Distinct, owner_is, update, arith, elem-remove_other, elem-remove_self, remove-Distinct,
}
use libpthread.Threads.{State, Threads, is_terminated, take_slot, set_up, find_terminated}

-- `held` is a structure that a call is about to set up or to give back.
pub record Inv (held : Option ℕ) (t : Threads) : Type 0 where
  pub room : t.num_threads ≤ t.max_threads
  pub least : (p : ℕ) → elem p t.allocated ≡ true → 0 < t.thread p
  pub bounded : (p : ℕ) → elem p t.allocated ≡ true → t.thread p ≤ t.num_threads
  pub unique :
      (p q : ℕ)
      → elem p t.allocated ≡ true
      → elem q t.allocated ≡ true
      → t.thread p ≡ t.thread q
      → p ≡ q
  pub own_id : (i p : ℕ) → t.entries i ≡ some p → t.thread p ≡ i + 1
  pub own_allocated : (i p : ℕ) → t.entries i ≡ some p → elem p t.allocated ≡ true
  pub own_used : (i p : ℕ) → t.entries i ≡ some p → elem p t.free_threads ≡ false
  pub free_allocated : (p : ℕ) → elem p t.free_threads ≡ true → elem p t.allocated ≡ true
  pub free_terminated : (p : ℕ) → elem p t.free_threads ≡ true → is_terminated (t.state p) ≡ true
  pub free_distinct : Distinct t.free_threads
  pub live_entry :
      (p : ℕ)
      → elem p t.allocated ≡ true
      → elem p t.free_threads ≡ false
      → owner_is held p ≡ false
      → t.entries (t.thread p - 1) ≡ some p
  pub live_state :
      (p : ℕ)
      → elem p t.allocated ≡ true
      → elem p t.free_threads ≡ false
      → owner_is held p ≡ false
      → is_terminated (t.state p) ≡ false
  pub live_stack :
      (p : ℕ)
      → elem p t.allocated ≡ true
      → elem p t.free_threads ≡ false
      → owner_is held p ≡ false
      → t.stack p ≡ true

pub find_terminated-Free :
    (state : ℕ → State) (ps : List ℕ) (p : ℕ) → find_terminated state ps ≡ some p → elem p ps ≡ true
find_terminated-Free state [] p h = ground arith
find_terminated-Free state (q ∷ ps) p h = ground (arith, find_terminated-Free state ps p)

-- A structure is taken from the free list.
pub recycled-Inv :
    (t : Threads) (p : ℕ)
    → Inv none t
    → elem p t.free_threads ≡ true
    → Inv (some p) (record t { free_threads = remove p t.free_threads })
recycled-Inv t p v h =
    let gone = elem-remove_self p t.free_threads v.free_distinct in
    let others = λ (q : ℕ) (n : p ≢ q). elem-remove_other p q t.free_threads n in
    record {
      room = v.room;
      least = v.least;
      bounded = v.bounded;
      unique = v.unique;
      own_id = v.own_id;
      own_allocated = v.own_allocated;
      own_used = λ i q e. ground (arith, v.own_used i q, others q);
      free_allocated = λ q f. ground (arith, v.free_allocated q, others q);
      free_terminated = λ q f. ground (arith, v.free_terminated q, others q);
      free_distinct = remove-Distinct p t.free_threads v.free_distinct;
      live_entry = λ q a f o. ground (arith, v.live_entry q, others q);
      live_state = λ q a f o. ground (arith, v.live_state q, others q);
      live_stack = λ q a f o. ground (arith, v.live_stack q, others q);
    }

-- A new structure gets a slot, in a table that is enlarged if it is full.
pub take_slot-Inv :
    (t : Threads) (p : ℕ) → Inv none t → elem p t.allocated ≡ false → Inv (some p) (take_slot t p)
take_slot-Inv t p v h = record {
  room = ground (arith, v.room);
  least = λ q a. ground (arith, v.least q);
  bounded = λ q a. ground (arith, v.bounded q);
  unique = λ q r a b e. ground (arith, v.unique q r, v.bounded q, v.bounded r);
  own_id = λ i q e. ground (arith, v.own_id i q, v.own_allocated i q);
  own_allocated = λ i q e. ground (arith, v.own_allocated i q);
  own_used = λ i q e. ground (arith, v.own_used i q);
  free_allocated = λ q f. ground (arith, v.free_allocated q);
  free_terminated = λ q f. ground (arith, v.free_terminated q);
  free_distinct = v.free_distinct;
  live_entry = λ q a f o. ground (arith, v.live_entry q, v.bounded q, v.least q);
  live_state = λ q a f o. ground (arith, v.live_state q);
  live_stack = λ q a f o. ground (arith, v.live_stack q);
}

module _ (t : Threads) (p : ℕ) (v : Inv (some p) t) (a : elem p t.allocated ≡ true)
    (f : elem p t.free_threads ≡ false) where
  -- The structure is set up and stands in the table.
  pub set_up-Inv : (detach : Bool) → Inv none (set_up t p detach)
  set_up-Inv detach = record {
    room = v.room;
    least = v.least;
    bounded = v.bounded;
    unique = v.unique;
    own_id = λ i q e. ground (arith, v.own_id i q, v.least p);
    own_allocated = λ i q e. ground (arith, v.own_allocated i q);
    own_used = λ i q e. ground (arith, v.own_used i q);
    free_allocated = v.free_allocated;
    free_terminated = λ q g. ground (arith, v.free_terminated q);
    free_distinct = v.free_distinct;
    live_entry = λ q b g o. ground (arith, v.live_entry q, v.unique p q, v.least p, v.least q);
    live_state = λ q b g o. ground (arith, v.live_state q);
    live_stack = λ q b g o. ground (arith, v.live_stack q);
  }

  -- The structure is put on the free list; the other structures keep their states and stacks.
  pub dealloc-Inv :
      (state : ℕ → State) (stack : ℕ → Bool)
      → is_terminated (state p) ≡ true
      → ((q : ℕ) → p ≢ q → state q ≡ t.state q)
      → ((q : ℕ) → p ≢ q → stack q ≡ t.stack q)
      → Inv none (record t {
        entries = update t.entries (t.thread p - 1) none;
        free_threads = p ∷ t.free_threads;
        state = state;
        stack = stack;
      })
  dealloc-Inv state stack s ss ks = record {
    room = v.room;
    least = v.least;
    bounded = v.bounded;
    unique = v.unique;
    own_id = λ i q e. ground (arith, v.own_id i q);
    own_allocated = λ i q e. ground (arith, v.own_allocated i q);
    own_used = λ i q e. ground (arith, v.own_used i q, v.own_id i q);
    free_allocated = λ q g. ground (arith, v.free_allocated q);
    free_terminated = λ q g. ground (arith, v.free_terminated q, ss q);
    free_distinct = (f, v.free_distinct);
    live_entry = λ q b g o. ground (arith, v.live_entry q, v.unique p q, v.least p, v.least q);
    live_state = λ q b g o. ground (arith, v.live_state q, ss q);
    live_stack = λ q b g o. ground (arith, v.live_stack q, ks q);
  }
