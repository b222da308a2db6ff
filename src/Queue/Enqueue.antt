-- ===== src/Queue/Enqueue.antt =====
-- `__pthread_enqueue` puts a thread in front of a queue.
use libpthread.Base.{ℕ, ◌≡◌, refl, false, none, some, List, [], ◌∷◌, elem, arith}
use libpthread.Queue.{Slot, Links, Chain, Represents, head, next_of, link, enqueue}
use libpthread.Queue.Frame.{Agree-pointwise, Chain-Agree}

-- A thread whose `prevp` is null is on no chain.
pub unqueued_absent :
    (s : Links) (slot : Slot) (t : ℕ) (xs : List ℕ)
    → s.prevp t ≡ none
    → Chain s slot xs
    → elem t xs ≡ false
unqueued_absent s slot t [] h c = refl
unqueued_absent s slot t (x ∷ xs) h c = ground (arith, unqueued_absent s (next_of x) t xs h c.2)

link-Chain :
    (s : Links) (q t : ℕ) (xs : List ℕ)
    → elem t xs ≡ false
    → Represents s q xs
    → Chain (link (head q) t s) (head q) (t ∷ xs)
unfolding link
link-Chain s q t [] a r = ground arith
link-Chain s q t (x ∷ xs) a r = (
  ground arith,
  ground arith,
  (
    ground arith,
    ground arith,
    Chain-Agree s (link (head q) t s) (next_of x) xs (ground arith)
        (Agree-pointwise s (link (head q) t s) xs (λ y m. (ground arith, ground arith))) r.0.2,
  ),
)

-- A thread that is on no queue goes to the front of the one it is put on, ahead of the threads
-- that wait there already.
pub enqueue-Represents :
    (s : Links) (q t : ℕ) (xs : List ℕ)
    → Represents s q xs
    → s.prevp t ≡ none
    → (s' : Links) × (enqueue (head q) t s ≡ some s') × Represents s' q (t ∷ xs)
unfolding enqueue
enqueue-Represents s q t xs r h =
    let absent = unqueued_absent s (head q) t xs h r.0 in
    (link (head q) t s, ground arith, (link-Chain s q t xs absent r, (absent, r.1)))
