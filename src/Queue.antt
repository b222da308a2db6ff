-- ===== src/Queue.antt =====
-- The queues of waiting threads of pthread/pt-internal.h: a doubly linked list through the thread
-- structures, `next` to the following thread and `prevp` to the pointer that points at this one.
pub mod Frame
pub mod Enqueue
pub mod Dequeue
mod Tests
use libpthread.Base.{
  ℕ, zero, suc, ◌≡◌, if◌then◌else◌, Bool, true, false, Option, none, some, List, [], ◌∷◌, update,
  Distinct,
}

-- Where a thread pointer is stored: in the head of queue `q`, or in the `next` of thread `t`.
pub data Slot : Type 0 where
  head : ℕ → Slot
  next_of : ℕ → Slot

pub record Links : Type 0 where
  pub heads : ℕ → Option ℕ
  pub next : ℕ → Option ℕ
  pub prevp : ℕ → Option Slot

-- `*slot`
abbrev pub load : Links → Slot → Option ℕ
load s (head q) = s.heads q
load s (next_of t) = s.next t

-- `*slot = v`
abbrev pub store : Slot → Option ℕ → Links → Links
store (head q) v s = record s { heads = update s.heads q v }
store (next_of t) v s = record s { next = update s.next t v }

-- `if (p) p->prevp = slot`
abbrev pub set_prevp : Option ℕ → Option Slot → Links → Links
set_prevp none slot s = s
set_prevp (some p) slot s = record s { prevp = update s.prevp p slot }

abbrev is_null : Option Slot → Bool
is_null none = true
is_null (some p) = false

-- `__pthread_enqueue` behind its assertion.
pub link : Slot → ℕ → Links → Links
link h t s =
    let linked = record s {
      next = update s.next t (load s h);
      prevp = update s.prevp t (some h);
    } in
    store h (some t) (set_prevp (load linked h) (some (next_of t)) linked)

-- `none` is a failed assertion.
pub enqueue : Slot → ℕ → Links → Option Links
enqueue h t s = if is_null (s.prevp t) then some (link h t s) else none

-- `__pthread_dequeue` behind its assertions, at a `prevp` of `slot`.
pub unlink : Slot → ℕ → Links → Links
unlink slot t s =
    let unlinked = set_prevp (s.next t) (some slot) s in
    set_prevp (some t) none (store slot (unlinked.next t) unlinked)

pub dequeue : ℕ → Links → Option Links
dequeue t s = elim (s.prevp t) [ none ↦ none | some slot ↦ some (unlink slot t s) ]

-- `__pthread_dequeuing_iterate`, with the threads that the loop's body is run on. The fuel bounds
-- the number of rounds; `none` is a loop that has not ended by then.
pub dequeuing_iterate : ℕ → Option ℕ → Links → Option (List ℕ × Links)
dequeuing_iterate fuel none s = some ([], s)
dequeuing_iterate zero (some t) s = none
dequeuing_iterate (suc fuel) (some t) s =
    elim (dequeuing_iterate fuel (s.next t) (set_prevp (some t) none s)) [
      | none ↦ none
      | some (ts, s') ↦ some (t ∷ ts, s')
    ]

-- From `slot` on the threads are `xs`, each one's `prevp` naming the place that points at it.
abbrev pub Chain : Links → Slot → List ℕ → Type 0
Chain s slot [] = load s slot ≡ none
Chain s slot (x ∷ xs) = (load s slot ≡ some x) × (s.prevp x ≡ some slot) × Chain s (next_of x) xs

-- Queue `q` holds the threads `xs`, the first one first.
abbrev pub Represents : Links → ℕ → List ℕ → Type 0
Represents s q xs = Chain s (head q) xs × Distinct xs
