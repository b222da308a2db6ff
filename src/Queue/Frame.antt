-- ===== src/Queue/Frame.antt =====
-- Writes that leave a chain of threads alone.
use libpthread.Base.{ℕ, ◌≡◌, ◌∙◌, true, List, [], ◌∷◌, elem, arith}
use libpthread.Queue.{Slot, Links, load, Chain, next_of}

-- Two states agree on the threads of `xs`.
abbrev pub Agree : Links → Links → List ℕ → Type 0
Agree s s' [] = Unit {0}
Agree s s' (x ∷ xs) = (s'.prevp x ≡ s.prevp x) × (s'.next x ≡ s.next x) × Agree s s' xs

pub Chain-Agree :
    (s s' : Links) (slot : Slot) (xs : List ℕ)
    → load s' slot ≡ load s slot
    → Agree s s' xs
    → Chain s slot xs
    → Chain s' slot xs
Chain-Agree s s' slot [] e a c = e ∙ c
Chain-Agree s s' slot (x ∷ xs) e a c =
    (e ∙ c.0, a.0 ∙ c.1, Chain-Agree s s' (next_of x) xs a.1 a.2 c.2)

pub Agree-pointwise :
    (s s' : Links) (xs : List ℕ)
    → ((x : ℕ) → elem x xs ≡ true → (s'.prevp x ≡ s.prevp x) × (s'.next x ≡ s.next x))
    → Agree s s' xs
Agree-pointwise s s' [] h = tt
Agree-pointwise s s' (x ∷ xs) h =
    let here = h x (ground arith) in
    (here.0, here.1, Agree-pointwise s s' xs (λ y m. h y (ground arith)))
