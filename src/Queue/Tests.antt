-- ===== src/Queue/Tests.antt =====
-- The queue theorems at concrete queues.
use libpthread.Base.{◌≡◌, refl, none, some, [], ◌∷◌, if◌then◌else◌, ◌==◌, arith}
use libpthread.Queue.{Links, head, next_of, dequeue, dequeuing_iterate, Represents}
use libpthread.Queue.Dequeue.{dequeue-Represents, dequeuing_iterate-Represents, Cleared}

-- Queue 0 holds thread 1, then thread 2.
abbrev two : Links
two = record {
  heads = λ q. if q == 0 then some 1 else none;
  next = λ t. if t == 1 then some 2 else none;
  prevp = λ t. if t == 1 then some (head 0) else if t == 2 then some (next_of 1) else none;
}

two-Represents : Represents two 0 (1 ∷ 2 ∷ [])
two-Represents = ((refl, refl, (refl, refl, refl)), (refl, (refl, tt)))

dequeue-Represents_example :
    (s : Links) × (dequeue 2 two ≡ some s) × Represents s 0 (1 ∷ []) × (s.prevp 2 ≡ none)
dequeue-Represents_example = dequeue-Represents two 0 2 (1 ∷ 2 ∷ []) two-Represents refl

dequeuing_iterate-Represents_example :
    (s : Links) × (dequeuing_iterate 2 (some 1) two ≡ some (1 ∷ 2 ∷ [], s))
    × Cleared two s (1 ∷ 2 ∷ [])
dequeuing_iterate-Represents_example =
    dequeuing_iterate-Represents two 0 2 (1 ∷ 2 ∷ []) two-Represents (omega arith)
