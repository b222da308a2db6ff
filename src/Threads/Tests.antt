-- ===== src/Threads/Tests.antt =====
-- The theorems on threads after one thread has been created and has exited.
use libpthread.Base.{
  ℕ, ◌≡◌, ◌≢◌, ◌≤◌, ◌<◌, ◌==◌, refl, List, [], ◌∷◌, Option-cases, inl, inr, Bool, true, false,
  Option, none, some, elem, success, esrch,
}
use libpthread.Threads.{
  no_mask, Threads, Failure, nowhere, no_tls, Ends, returns, aborts, create, exit_thread, join,
  detach, getid, alloc, dealloc,
}
use libpthread.Threads.Grow
use libpthread.Threads.Grow.{Slots, alloc_act, slots_init, enlarges, looks, enlarge}
use libpthread.Threads.Grow.Unique.{id_of, alloc_ids_unique}
use libpthread.Threads.Alloc.{Fresh}
use libpthread.Threads.Calls.{is_running}
use libpthread.Threads.Steps.{
  Reach, start, later, creates, exits, init, threads_no_abort, join_reaps,
}

abbrev left : Ends → Threads
left (returns e v t) = t
left _ = init

abbrev created : Threads
created = left (create init (some 7) true false nowhere)

abbrev ended : Threads
ended = left (exit_thread created 7 42)

created-Reach : Reach created
unfolding create alloc
created-Reach = later start (creates (some 7) true false nowhere success (some 1) refl refl)

ended-Reach : Reach ended
unfolding create alloc exit_thread
ended-Reach = later created-Reach (exits 7 42 success none refl refl refl refl)

threads_no_abort_example :
    ((memory : Option ℕ) (grows d : Bool) (f : Failure)
      → Fresh ended memory
      → f ≢ no_mask
      → create ended memory grows d f ≢ aborts)
    × ((p value : ℕ)
        → elem p ended.allocated ≡ true
        → elem p ended.free_threads ≡ false
        → is_running (ended.state p) ≡ true
        → exit_thread ended p value ≢ aborts)
    × ((i : ℕ) → join ended i ≢ some aborts)
    × ((i : ℕ) → detach ended i ≢ aborts)
threads_no_abort_example = threads_no_abort ended-Reach

join_reaps_example :
    (u : Threads) × (join ended 1 ≡ some (returns success (some (ended.status 7)) u))
    × (elem 7 u.free_threads ≡ true)
    × (getid u 1 ≡ some none)
    × (join u 1 ≡ some (returns esrch none u))
    × ((j : ℕ) → j ≢ 1 → getid u j ≡ getid ended j)
unfolding create alloc exit_thread
join_reaps_example = join_reaps ended-Reach 1 7 refl refl

-- Without memory for thread-local storage the call returns 0, and no thread.
tls_failure : (u : Threads) × (create init (some 7) true false no_tls ≡ returns success none u)
unfolding create alloc dealloc
tls_failure = (left (create init (some 7) true false no_tls), refl)

-- Calls 1 and 2 both find the table full; the first one enlarges it, and the second one starts again.
unfoldable run : Slots → List ℕ → Slots
run s [] = s
run s (i ∷ is) = elim (alloc_act s i true (s.pc i)) [ none ↦ s | some t ↦ run t is ]

run-Reach : (is : List ℕ) (s : Slots) → Grow.Reach s → Grow.Reach (run s is)
unfolding run
run-Reach [] s r = r
run-Reach (i ∷ is) s r = elim (Option-cases (alloc_act s i true (s.pc i))) [
  | inl e ↦ rw (e, run) r
  | inr (t, e) ↦ rw (e, run) (run-Reach is t (Grow.later i true r e))
]

abbrev both : Slots
both = run slots_init (1 ∷ 2 ∷ 1 ∷ 2 ∷ 2 ∷ [])

second_identifier : id_of (both.pc 2) ≡ 2
unfolding run alloc_act
second_identifier = refl

alloc_ids_unique_example :
    (both.num_threads ≤ both.max_threads)
    × ((i : ℕ) → id_of (both.pc i) ≤ both.num_threads)
    × ((i j : ℕ) → (i == j) ≡ false → 0 < id_of (both.pc i) → id_of (both.pc i) ≢ id_of (both.pc j))
    × ((i n : ℕ)
        → both.pc i ≡ enlarges n
        → (enlarge both i true n).pc i ≡ looks
        → n < both.max_threads)
alloc_ids_unique_example =
    alloc_ids_unique (run-Reach (1 ∷ 2 ∷ 1 ∷ 2 ∷ 2 ∷ []) slots_init Grow.start)
