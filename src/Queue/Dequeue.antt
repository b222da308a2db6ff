-- ===== src/Queue/Dequeue.antt =====
-- `__pthread_dequeue` takes a thread out of its queue, wherever it stands there, and
-- `__pthread_dequeuing_iterate` takes out all threads, in order.
use libpthread.Base.{
  ℕ, zero, suc, subst, ◌≤◌, ◌≡◌, refl, true, false, none, some, List, [], ◌∷◌, elem, arith,
  Bool-cases, Option-cases, ◌⊎◌, inl, inr, ◌==◌, ==→eq, Distinct, remove, length, remove-Distinct,
}
use libpthread.Queue.{
  Slot, Links, load, Chain, Represents, head, next_of, unlink, dequeue, dequeuing_iterate,
  set_prevp,
}
use libpthread.Queue.Frame.{Agree-pointwise, Chain-Agree}

-- `slot` is not the `next` of a thread of `xs`.
abbrev IsOutside : Slot → List ℕ → Type 0
IsOutside (head q) xs = Unit {0}
IsOutside (next_of u) xs = elem u xs ≡ false

-- The place that points at a queued thread is the start, or the `next` of a queued thread.
abbrev Pointer : Slot → Slot → List ℕ → Type 0
Pointer p slot xs = (p ≡ slot) ⊎ ((u : ℕ) × (p ≡ next_of u) × (elem u xs ≡ true))

prevp-Pointer :
    (s : Links) (slot p : Slot) (t : ℕ) (xs : List ℕ)
    → Chain s slot xs
    → elem t xs ≡ true
    → s.prevp t ≡ some p
    → Pointer p slot xs
prevp-Pointer s slot p t [] c m e = cc
prevp-Pointer s slot p t (x ∷ xs) c m e = elim (Bool-cases (x == t)) [
  | inl h ↦ inl (ground arith)
  | inr h ↦ inr (elim (prevp-Pointer s (next_of x) p t xs c.2 (ground arith) e) [
    | inl q ↦ (x, q, ground arith)
    | inr (u, q, n) ↦ (u, q, ground arith)
  ])
]

next-elem :
    (s : Links) (slot : Slot) (t y : ℕ) (xs : List ℕ)
    → Chain s slot xs
    → elem t xs ≡ true
    → s.next t ≡ some y
    → elem y xs ≡ true
next-elem s slot t y [] c m e = m
next-elem s slot t y (x ∷ []) c m e = ground arith
next-elem s slot t y (x ∷ z ∷ xs) c m e = ground (arith, next-elem s (next_of x) t y (z ∷ xs) c.2)

-- The first thread of a chain is unlinked.
unlink_first :
    (s : Links) (slot : Slot) (t : ℕ) (xs : List ℕ)
    → Chain s slot (t ∷ xs)
    → Distinct (t ∷ xs)
    → IsOutside slot (t ∷ xs)
    → Chain (unlink slot t s) slot xs
unfolding unlink
unlink_first s (head q) t [] c d o = ground arith
unlink_first s (next_of u) t [] c d o = ground arith
unlink_first s (head q) t (y ∷ ys) c d o = (
  ground arith,
  ground arith,
  Chain-Agree s (unlink (head q) t s) (next_of y) ys (ground arith)
      (Agree-pointwise s (unlink (head q) t s) ys (λ z m. (ground arith, ground arith))) c.2.2,
)
unlink_first s (next_of u) t (y ∷ ys) c d o = (
  ground arith,
  ground arith,
  Chain-Agree s (unlink (next_of u) t s) (next_of y) ys (ground arith)
      (Agree-pointwise s (unlink (next_of u) t s) ys (λ z m. (ground arith, ground arith))) c.2.2,
)

-- Past the first thread, `unlink` leaves the first link alone.
unlink_keeps :
    (s : Links) (slot p : Slot) (t x : ℕ) (xs : List ℕ)
    → Chain s slot (x ∷ xs)
    → Distinct (x ∷ xs)
    → IsOutside slot (x ∷ xs)
    → (x == t) ≡ false
    → Pointer p (next_of x) xs
    → ((y : ℕ) → s.next t ≡ some y → elem y xs ≡ true)
    → (load (unlink p t s) slot ≡ some x) × ((unlink p t s).prevp x ≡ some slot)
unfolding unlink
unlink_keeps s (head h) (head g) t x xs c d o n (inl q) m = cc
unlink_keeps s (head h) (head g) t x xs c d o n (inr (u, q, _)) m = cc
unlink_keeps s (head h) (next_of g) t x xs c d o n q m = elim (Option-cases (s.next t)) [
  | inl e ↦ (ground arith, ground arith)
  | inr (y, e) ↦ let k = m y e in (ground arith, ground arith)
]
unlink_keeps s (next_of h) (head g) t x xs c d o n (inl q) m = cc
unlink_keeps s (next_of h) (head g) t x xs c d o n (inr (u, q, _)) m = cc
unlink_keeps s (next_of h) (next_of g) t x xs c d o n q m = elim (Option-cases (s.next t)) [
  | inl e ↦ (ground arith, ground arith)
  | inr (y, e) ↦ let k = m y e in (ground arith, ground arith)
]

unlink-Chain :
    (s : Links) (slot p : Slot) (t : ℕ) (xs : List ℕ)
    → Chain s slot xs
    → Distinct xs
    → IsOutside slot xs
    → elem t xs ≡ true
    → s.prevp t ≡ some p
    → Chain (unlink p t s) slot (remove t xs)
unlink-Chain s slot p t [] c d o m e = cc
unlink-Chain s slot p t (x ∷ xs) c d o m e = elim (Bool-cases (x == t)) [
  | inl h ↦
      let same : x ≡ t = ==→eq x t h in
      let place : slot ≡ p = ground arith in
      rw h (
        subst (λ v. Chain (unlink p v s) slot xs) same
          (subst (λ v. Chain (unlink v x s) slot xs) place (unlink_first s slot x xs c d o)))
  | inr h ↦
      let m' : elem t xs ≡ true = ground arith in
      let kept =
        unlink_keeps s slot p t x xs c d o h (prevp-Pointer s (next_of x) p t xs c.2 m' e)
          (λ y. next-elem s (next_of x) t y xs c.2 m') in
      rw h (kept.0, kept.1, unlink-Chain s (next_of x) p t xs c.2 d.1 d.0 m' e)
]

queued-prevp :
    (s : Links) (slot : Slot) (t : ℕ) (xs : List ℕ)
    → Chain s slot xs
    → elem t xs ≡ true
    → (p : Slot) × (s.prevp t ≡ some p)
queued-prevp s slot t [] c m = cc
queued-prevp s slot t (x ∷ xs) c m = elim (Bool-cases (x == t)) [
  | inl h ↦ (slot, ground arith)
  | inr h ↦ queued-prevp s (next_of x) t xs c.2 (ground arith)
]

unlink-prevp : (s : Links) (p : Slot) (t : ℕ) → (unlink p t s).prevp t ≡ none
unfolding unlink
unlink-prevp s p t = ground arith

-- A queued thread is taken out of its queue wherever it stands there, the others keep their
-- order, and its `prevp` is null afterwards.
pub dequeue-Represents :
    (s : Links) (q t : ℕ) (xs : List ℕ)
    → Represents s q xs
    → elem t xs ≡ true
    → (s' : Links) × (dequeue t s ≡ some s') × Represents s' q (remove t xs) × (s'.prevp t ≡ none)
unfolding dequeue
dequeue-Represents s q t xs r m =
    let (p, e) = queued-prevp s (head q) t xs r.0 m in
    (
      unlink p t s,
      rw (e, dequeue),
      (unlink-Chain s (head q) p t xs r.0 r.1 tt m e, remove-Distinct t xs r.1),
      unlink-prevp s p t,
    )

-- Clearing the `prevp` of a thread that is not on the chain.
clear-Chain :
    (s : Links) (slot : Slot) (t : ℕ) (xs : List ℕ)
    → elem t xs ≡ false
    → Chain s slot xs
    → Chain (set_prevp (some t) none s) slot xs
clear-Chain s (head q) t [] a c = c
clear-Chain s (next_of u) t [] a c = c
clear-Chain s (head q) t (x ∷ xs) a c =
    (c.0, ground arith, clear-Chain s (next_of x) t xs (ground arith) c.2)
clear-Chain s (next_of u) t (x ∷ xs) a c =
    (c.0, ground arith, clear-Chain s (next_of x) t xs (ground arith) c.2)

-- What the loop leaves behind: the threads of the list have a null `prevp`, and no thread off the
-- list has another than before.
abbrev pub Cleared : Links → Links → List ℕ → Type 0
Cleared s s' xs =
    ((t : ℕ) → elem t xs ≡ true → s'.prevp t ≡ none)
    × ((t : ℕ) → elem t xs ≡ false → s'.prevp t ≡ s.prevp t)

Cleared-step :
    (s s' : Links) (x : ℕ) (xs : List ℕ)
    → Cleared (set_prevp (some x) none s) s' xs
    → Cleared s s' (x ∷ xs)
Cleared-step s s' x xs k = ((λ t m. gone t m), (λ t m. ground (arith, k.1 t)))
  where
    gone : (t : ℕ) → elem t (x ∷ xs) ≡ true → s'.prevp t ≡ none
    gone t m = elim (Bool-cases (elem t xs)) [ inl h ↦ k.0 t h | inr h ↦ ground (arith, k.1 t) ]

iterate-Chain :
    (fuel : ℕ) (s : Links) (slot : Slot) (xs : List ℕ)
    → length xs ≤ fuel
    → Chain s slot xs
    → Distinct xs
    → (s' : Links) × (dequeuing_iterate fuel (load s slot) s ≡ some (xs, s')) × Cleared s s' xs
unfolding dequeuing_iterate
iterate-Chain fuel s slot [] l c d = (s, rw c, ((λ t m. cc), (λ t m. refl)))
iterate-Chain zero s slot (x ∷ xs) l c d = absurd (omega arith)
iterate-Chain (suc fuel) s slot (x ∷ xs) l c d =
    let s₁ : Links = set_prevp (some x) none s in
    let (s', e, k) =
      iterate-Chain fuel s₁ (next_of x) xs (omega arith) (clear-Chain s (next_of x) x xs d.0 c.2)
        d.1 in
    (s', rw (c.0, dequeuing_iterate) (rw e), Cleared-step s s' x xs k)

-- Run on a queue with rounds enough for its threads, the loop's body sees the threads of the
-- queue from the first to the last; these then have a null `prevp`, and that of the others is unchanged.
pub dequeuing_iterate-Represents :
    (s : Links) (q fuel : ℕ) (xs : List ℕ)
    → Represents s q xs
    → length xs ≤ fuel
    → (s' : Links) × (dequeuing_iterate fuel (s.heads q) s ≡ some (xs, s')) × Cleared s s' xs
dequeuing_iterate-Represents s q fuel xs r l = iterate-Chain fuel s (head q) xs l r.0 r.1
