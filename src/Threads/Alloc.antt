-- ===== src/Threads/Alloc.antt =====
-- An allocation gives a structure that no one else has.
use libpthread.Base.{
  ℕ, ◌≡◌, Bool, true, false, ltb, ◌||◌, if◌then◌else◌, Option, none, some, elem, remove, arith, inl,
  inr, Bool-cases, Option-cases, elem-remove_self,
}
use libpthread.Threads.{Threads, find_terminated, take_slot, alloc}
use libpthread.Threads.Invariant.{Inv, find_terminated-Free, recycled-Inv, take_slot-Inv}

-- `malloc` gives a structure that is not in use.
abbrev pub Fresh : Threads → Option ℕ → Type 0
Fresh t none = Unit {0}
Fresh t (some p) = elem p t.allocated ≡ false

-- What an allocation gives: a structure that a call holds, or none and the table unchanged.
pub data Allocated (t : Threads) : Option ℕ × Threads → Type 0 where
  no_memory : Allocated t (none, t)
  holds :
      (p : ℕ) (u : Threads)
      → Inv (some p) u
      → elem p u.allocated ≡ true
      → elem p u.free_threads ≡ false
      → Allocated t (some p, u)

pub alloc-Allocated :
    (t : Threads) (memory : Option ℕ) (grows : Bool)
    → Inv none t
    → Fresh t memory
    → Allocated t (alloc t memory grows)
unfolding alloc
alloc-Allocated t memory grows v m = elim (Option-cases (find_terminated t.state t.free_threads)) [
  | inr (p, e) ↦
      let h = find_terminated-Free t.state t.free_threads p e in
      rw (alloc, e)
        (holds p (record t { free_threads = remove p t.free_threads }) (recycled-Inv t p v h)
          (v.free_allocated p h) (elem-remove_self p t.free_threads v.free_distinct))
  | inl e ↦ rw (alloc, e) (new_structure t memory grows v m)
]
  where
    new_structure :
        (t : Threads) (memory : Option ℕ) (grows : Bool)
        → Inv none t
        → Fresh t memory
        → Allocated t (elim memory as (λ _. Option ℕ × Threads) [
          | none ↦ (none, t)
          | some p ↦
              if ltb t.num_threads t.max_threads || grows
              then (some p, take_slot t p)
              else (none, t)
        ])
    new_structure t none grows v m = no_memory
    new_structure t (some p) grows v m =
        elim (Bool-cases (ltb t.num_threads t.max_threads || grows)) [
          | inl e ↦ rw e (
              holds p (take_slot t p) (take_slot-Inv t p v m) (ground arith)
                (ground (arith, v.free_allocated p)))
          | inr e ↦ rw e no_memory
        ]
