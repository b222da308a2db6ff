-- ===== src/Threads.antt =====
-- Threads and their identifiers: pthread/pt-alloc.c, pt-dealloc.c, pt-create.c, pt-exit.c, pt-join.c
-- and pt-detach.c, and __pthread_getid of pt-internal.h. Each call is one step of the library's state;
-- what the kernel and the memory give is an argument.
pub mod Grow
pub mod Invariant
pub mod Alloc
pub mod Calls
pub mod Steps
mod Tests
use libpthread.Base.{
  ℕ, zero, suc, ◌+◌, ◌-◌, ◌*◌, Bool, true, false, not, leb, ltb, ◌==◌, ◌&&◌, ◌||◌, if◌then◌else◌,
  Option, none, some, List, [], ◌∷◌, Errno, success, eagain, einval, enomem, esrch, update, remove,
  elem,
}

-- `enum pthread_state`
pub data State : Type 0 where
  joinable detached exited terminated : State

-- The variables of pt-alloc.c and the fields of thread structures. `entries` is the table of
-- `num_threads` pointers; `allocated` lists the structures that have an identifier.
pub record Threads : Type 0 where
  pub entries : ℕ → Option ℕ
  pub num_threads : ℕ
  pub max_threads : ℕ
  pub free_threads : List ℕ
  pub allocated : List ℕ
  pub state : ℕ → State
  pub thread : ℕ → ℕ
  pub stack : ℕ → Bool
  pub status : ℕ → ℕ

abbrev pub is_terminated : State → Bool
is_terminated terminated = true
is_terminated _ = false

-- `__pthread_getid`: none if the identifier is not an index of the table, which the source does not
-- test.
abbrev pub getid : Threads → ℕ → Option (Option ℕ)
getid t i = if ltb 0 i && leb i t.num_threads then some (t.entries (i - 1)) else none

-- The first structure of the list that is marked as terminated
abbrev pub find_terminated : (ℕ → State) → List ℕ → Option ℕ
find_terminated state [] = none
find_terminated state (p ∷ ps) =
    if is_terminated (state p) then some p else find_terminated state ps

-- A new structure gets the next slot of the table, whose size is doubled if it is full.
abbrev pub larger : ℕ → ℕ
larger n = if ltb 0 n then n * 2 else 64

abbrev pub take_slot : Threads → ℕ → Threads
take_slot t p = record t {
  entries = update t.entries t.num_threads none;
  num_threads = t.num_threads + 1;
  max_threads = if ltb t.num_threads t.max_threads then t.max_threads else larger t.max_threads;
  allocated = p ∷ t.allocated;
  thread = update t.thread p (t.num_threads + 1);
  stack = update t.stack p false;
}

-- `__pthread_alloc`; `memory` is the new structure, if there is memory for one, and `grows` tells
-- whether there is memory for a larger table. A structure that is taken is one of the free list, as the
-- assertion in `__pthread_dequeue` has it.
unfoldable pub alloc : Threads → Option ℕ → Bool → Option ℕ × Threads
alloc t memory grows = elim (find_terminated t.state t.free_threads) [
  | some p ↦ (some p, record t { free_threads = remove p t.free_threads })
  | none ↦ elim memory [
    | none ↦ (none, t)
    | some p ↦
        if ltb t.num_threads t.max_threads || grows then (some p, take_slot t p) else (none, t)
  ]
]

-- `__pthread_dealloc`, and none at an assertion: the structure is not terminated, and, in
-- `__pthread_enqueue`, it is not in the list already.
unfoldable pub dealloc : Threads → ℕ → Option Threads
dealloc t p =
    if is_terminated (t.state p) || elem p t.free_threads
    then none
    else some (record t {
      entries = update t.entries (t.thread p - 1) none;
      free_threads = p ∷ t.free_threads;
      state = update t.state p terminated;
    })

-- Where `__pthread_create_internal` fails, and with what error: nowhere; for the stack; for the kernel
-- thread; for thread-local storage; in the setup or the signal state; at one of the two calls that set
-- the signal mask, which are asserted not to fail; or at the start.
pub data Failure : Type 0 where
  nowhere no_tls no_mask : Failure
  no_stack no_thread no_setup no_start : Errno → Failure

-- The error that is returned: at `failed_thread_tls_alloc` it is that of the call before, 0.
abbrev pub failure_code : Failure → Errno
failure_code nowhere = success
failure_code no_tls = success
failure_code no_mask = success
failure_code (no_stack e) = e
failure_code (no_thread e) = e
failure_code (no_setup e) = e
failure_code (no_start e) = e

abbrev pub initial_state : Bool → State
initial_state detach = if detach then detached else joinable

-- The structure with its state and its stack, in the table.
abbrev pub set_up : Threads → ℕ → Bool → Threads
set_up t p detach = record t {
  state = update t.state p (initial_state detach);
  stack = update t.stack p true;
  entries = update t.entries (t.thread p - 1) (some p);
}

-- At the labels of the error paths the stack is given back, if there is one, and the structure is
-- deallocated.
abbrev pub given_up : Threads → ℕ → Bool → Threads
given_up t p detach = record t {
  state = update t.state p (initial_state detach);
  stack = update t.stack p false;
}

-- How a call ends: it returns an error code, and perhaps a value; or an assertion fails; or the table
-- is read out of range.
pub data Ends : Type 0 where
  returns : Errno → Option ℕ → Threads → Ends
  aborts out_of_range : Ends

abbrev pub freed : Errno → Option ℕ → Option Threads → Ends
freed e v none = aborts
freed e v (some t) = returns e v t

-- `pthread_create`: the identifier of the new thread, or an error; ENOMEM becomes EAGAIN.
abbrev pub as_create : Errno → Errno
as_create enomem = eagain
as_create e = e

abbrev pub started : Threads → ℕ → Bool → Ends
started t p detach = returns success (some (t.thread p)) (set_up t p detach)

-- A stack is needed only if the structure has none from before. An error of the signal mask is caught
-- by `assert_perror`.
abbrev pub start_in : Threads → ℕ → Bool → Failure → Ends
start_in t p detach nowhere = started t p detach
start_in t p detach no_mask = aborts
start_in t p detach (no_stack e) =
    if t.stack p
    then started t p detach
    else freed (as_create e) none (dealloc (given_up t p detach) p)
start_in t p detach f = freed (as_create (failure_code f)) none (dealloc (given_up t p detach) p)

abbrev pub create_on : Bool → Failure → Option ℕ × Threads → Ends
create_on detach f (none, t) = returns eagain none t
create_on detach f (some p, t) = start_in t p detach f

unfoldable pub create : Threads → Option ℕ → Bool → Bool → Failure → Ends
create t memory grows detach f = create_on detach f (alloc t memory grows)

-- `pthread_exit` of the thread with structure `p`, from the lock of its state on. The value is the
-- argument, or PTHREAD_CANCELED.
abbrev pub exit_in : Threads → ℕ → ℕ → State → Ends
exit_in t p value detached = freed success none (dealloc t p)
exit_in t p value joinable =
    returns success none
      (record t { state = update t.state p exited; status = update t.status p value })
exit_in t p value exited = aborts
exit_in t p value terminated = aborts

unfoldable pub exit_thread : Threads → ℕ → ℕ → Ends
exit_thread t p value = exit_in t p value (t.state p)

-- A thread that has exited: its stack and its structure are given back.
abbrev pub reap : Threads → ℕ → Option ℕ → Ends
reap t p value =
    if t.stack p
    then freed success value (dealloc (record t { stack = update t.stack p false }) p)
    else aborts

-- `pthread_join`, when the thread is no longer joinable: none while it is.
abbrev pub join_state : Threads → ℕ → State → Option Ends
join_state t p joinable = none
join_state t p exited = some (reap t p (some (t.status p)))
join_state t p terminated = some (returns esrch none t)
join_state t p detached = some (returns einval none t)

abbrev pub join_in : Threads → Option (Option ℕ) → Option Ends
join_in t none = some out_of_range
join_in t (some none) = some (returns esrch none t)
join_in t (some (some p)) = join_state t p (t.state p)

unfoldable pub join : Threads → ℕ → Option Ends
join t i = join_in t (getid t i)

-- `pthread_detach`
abbrev pub detach_state : Threads → ℕ → State → Ends
detach_state t p joinable = returns success none (record t { state = update t.state p detached })
detach_state t p exited = reap t p none
detach_state t p terminated = returns esrch none t
detach_state t p detached = returns einval none t

abbrev pub detach_in : Threads → Option (Option ℕ) → Ends
detach_in t none = out_of_range
detach_in t (some none) = returns esrch none t
detach_in t (some (some p)) = detach_state t p (t.state p)

unfoldable pub detach : Threads → ℕ → Ends
detach t i = detach_in t (getid t i)
