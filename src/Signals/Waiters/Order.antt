-- ===== src/Signals/Waiters/Order.antt =====
-- Waiters come to the front of the list, and leave it from wherever they stand.
use libpthread.Base.{
  ℕ, ◌≡◌, ◌≢◌, refl, subst, Option-cases, ◌==◌, ==→eq, Bool, true, false, not, if◌then◌else◌,
  Option, none, some, List, [], ◌∷◌, elem, remove, Distinct, arith, Bool-cases, inl, inr,
  remove-Distinct, ◌∙◌,
}
use libpthread.Signals.{SigSet}
use libpthread.Signals.Waiters.{Waiters, sigwaiter_block, sigwaiter_unblock, placed, Chain, Waiting}

-- Two states agree on the links of the waiters of a list.
Agree : Waiters → Waiters → List ℕ → Type 0
Agree w v xs = (x : ℕ) → elem x xs ≡ true → (v.prev x ≡ w.prev x) × (v.next x ≡ w.next x)

Chain-Agree :
    (w v : Waiters) (p o : Option ℕ) (xs : List ℕ) → Agree w v xs → Chain w p o xs → Chain v p o xs
unfolding Agree
Chain-Agree w v p o [] a c = c
Chain-Agree w v p o (x ∷ xs) a c =
    let here = a x (ground arith) in
    (
      c.0,
      here.0 ∙ c.1,
      ground (arith, Chain-Agree w v (some x) (w.next x) xs (λ y m. a y (ground arith)) c.2),
    )

-- A thread that does not wait comes to the front; no assertion fails.
pub block-Waiting :
    (t : ℕ) (set : SigSet) (w : Waiters) (xs : List ℕ)
    → Waiting w xs
    → w.sigwaiter t ≡ false
    → elem t xs ≡ false
    → (sigwaiter_block t set w ≡ some (placed t set w)) × Waiting (placed t set w) (t ∷ xs)
unfolding sigwaiter_block Agree
block-Waiting t set w [] i s a =
    (ground arith, ((ground arith, ground arith, ground arith), (refl, tt)))
block-Waiting t set w (x ∷ xs) i s a = (
  ground arith,
  (
    (
      ground arith,
      ground arith,
      (
        ground arith,
        ground arith,
        ground (
          arith,
          Chain-Agree w (placed t set w) (some x) (w.next x) xs
              (λ y m. (ground arith, ground arith)) i.0.2,
        ),
      ),
    ),
    (a, i.1),
  ),
)

next-elem :
    (w : Waiters) (p o : Option ℕ) (t u : ℕ) (xs : List ℕ)
    → Chain w p o xs
    → elem t xs ≡ true
    → w.next t ≡ some u
    → elem u xs ≡ true
next-elem w p o t u [] c m e = cc
next-elem w p o t u (x ∷ []) c m e = ground arith
next-elem w p o t u (x ∷ y ∷ ys) c m e =
    ground (arith, next-elem w (some x) (w.next x) t u (y ∷ ys) c.2)

-- Before a waiter that is not the first one stands another.
prev-elem :
    (w : Waiters) (p o : Option ℕ) (t x : ℕ) (xs : List ℕ)
    → Chain w p o (x ∷ xs)
    → elem t xs ≡ true
    → (u : ℕ) × (w.prev t ≡ some u) × (elem u (x ∷ xs) ≡ true)
prev-elem w p o t x [] c m = cc
prev-elem w p o t x (y ∷ ys) c m = elim (Bool-cases (y == t)) [
  | inl e ↦ (x, ground arith, ground arith)
  | inr e ↦
      let r = prev-elem w (some x) (w.next x) t y ys c.2 (ground arith) in (r.0, r.1, ground arith)
]

abbrev outside : Option ℕ → List ℕ → Bool
outside none xs = true
outside (some u) xs = not (elem u xs)

-- Where the list begins once `t` has left it.
abbrev entry : Waiters → ℕ → Option ℕ → List ℕ → Option ℕ
entry w t o [] = o
entry w t o (x ∷ xs) = if x == t then w.next t else o

-- The waiter leaves the list that is pointed at from `p`.
unlink-first :
    (w : Waiters) (p o : Option ℕ) (t : ℕ) (xs : List ℕ)
    → Chain w p o (t ∷ xs)
    → Distinct (t ∷ xs)
    → outside p (t ∷ xs) ≡ true
    → Chain (sigwaiter_unblock t w) p (w.next t) xs
unfolding sigwaiter_unblock Agree
unlink-first w p o t [] c d n = ground arith
unlink-first w none o t (y ∷ ys) c d n = (
  ground arith,
  ground arith,
  ground (
    arith,
    Chain-Agree w (sigwaiter_unblock t w) (some y) (w.next y) ys
        (λ z m. (ground arith, ground arith)) c.2.2,
  ),
)
unlink-first w (some u) o t (y ∷ ys) c d n = (
  ground arith,
  ground arith,
  ground (
    arith,
    Chain-Agree w (sigwaiter_unblock t w) (some y) (w.next y) ys
        (λ z m. (ground arith, ground arith)) c.2.2,
  ),
)

-- What the links of the waiter in front of others become.
unblock_prev :
    (w : Waiters) (p o : Option ℕ) (t x : ℕ) (xs : List ℕ)
    → Chain w p o (x ∷ xs)
    → elem t xs ≡ true
    → Distinct (x ∷ xs)
    → (sigwaiter_unblock t w).prev x ≡ p
unfolding sigwaiter_unblock
unblock_prev w p o t x xs c m d = elim (Option-cases (w.next t)) [
  | inl e ↦ elim (Option-cases (w.prev t)) [ inl q ↦ ground arith | inr (u, q) ↦ ground arith ]
  | inr (u, e) ↦
      let r = next-elem w (some x) (w.next x) t u xs c.2 m e in
      elim (Option-cases (w.prev t)) [ inl q ↦ ground arith | inr (v, q) ↦ ground arith ]
]

unblock_next :
    (w : Waiters) (p o : Option ℕ) (t x : ℕ) (xs : List ℕ)
    → Chain w p o (x ∷ xs)
    → elem t xs ≡ true
    → Distinct (x ∷ xs)
    → (sigwaiter_unblock t w).next x ≡ entry w t (w.next x) xs
unfolding sigwaiter_unblock
unblock_next w p o t x [] c m d = cc
unblock_next w p o t x (y ∷ ys) c m d = elim (Bool-cases (y == t)) [
  | inl e ↦ elim (Option-cases (w.next t)) [ inl q ↦ ground arith | inr (u, q) ↦ ground arith ]
  | inr e ↦
      let r = prev-elem w (some x) (w.next x) t y ys c.2 (ground arith) in
      let q = r.1 in
      let n = r.2 in
      elim (Option-cases (w.next t)) [ inl a ↦ ground arith | inr (u, a) ↦ ground arith ]
]

unblock-Chain :
    (w : Waiters) (p o : Option ℕ) (t : ℕ) (xs : List ℕ)
    → Chain w p o xs
    → elem t xs ≡ true
    → Distinct xs
    → outside p xs ≡ true
    → Chain (sigwaiter_unblock t w) p (entry w t o xs) (remove t xs)
unblock-Chain w p o t [] c m d n = cc
unblock-Chain w p o t (x ∷ xs) c m d n = elim (Bool-cases (x == t)) [
  | inl e ↦
      let q : x ≡ t = ==→eq x t e in
      rw e (
        unlink-first w p o t xs (subst (λ y. Chain w p o (y ∷ xs)) q c)
          (subst (λ y. Distinct (y ∷ xs)) q d) (subst (λ y. outside p (y ∷ xs) ≡ true) q n))
  | inr e ↦
      let a : elem t xs ≡ true = ground arith in
      let rest = unblock-Chain w (some x) (w.next x) t xs c.2 a d.1 (ground arith) in
      rw e (c.0, unblock_prev w p o t x xs c a d, rw (unblock_next w p o t x xs c a d) rest)
]

unblock_head :
    (w : Waiters) (t : ℕ) (xs : List ℕ)
    → Chain w none w.sigwaiters xs
    → elem t xs ≡ true
    → (sigwaiter_unblock t w).sigwaiters ≡ entry w t w.sigwaiters xs
unfolding sigwaiter_unblock
unblock_head w t [] c m = cc
unblock_head w t (x ∷ xs) c m = elim (Bool-cases (x == t)) [
  | inl e ↦ elim (Option-cases (w.next t)) [ inl q ↦ ground arith | inr (u, q) ↦ ground arith ]
  | inr e ↦
      let r = prev-elem w none w.sigwaiters t x xs c (ground arith) in
      let q = r.1 in
      elim (Option-cases (w.next t)) [ inl a ↦ ground arith | inr (u, a) ↦ ground arith ]
]

-- A thread that waits is taken out of the list, wherever it stands, and the others keep their order.
pub unblock-Waiting :
    (t : ℕ) (w : Waiters) (xs : List ℕ)
    → Waiting w xs
    → elem t xs ≡ true
    → Waiting (sigwaiter_unblock t w) (remove t xs)
unblock-Waiting t w xs i m = (
  rw (unblock_head w t xs i.0 m) (unblock-Chain w none w.sigwaiters t xs i.0 m i.1 refl),
  remove-Distinct t xs i.1,
)

-- Where no thread waits at first: a thread comes to wait, is sent a signal and so leaves the list, and
-- another thread comes to wait before the first one runs. The pointer `sigwaiter` of the first one is
-- still set then; where it is sent a second signal, the list of waiters becomes empty, as it was when
-- the first thread came, so that the other one, which waits, is in it no more.
pub second_signal_drops_waiter :
    (t u : ℕ) (a b : SigSet) (w : Waiters)
    → Waiting w []
    → w.sigwaiter t ≡ false
    → w.sigwaiter u ≡ false
    → t ≢ u
    → (v : Waiters) × (sigwaiter_block t a w ≡ some (placed t a w))
      × (sigwaiter_block u b (sigwaiter_unblock t (placed t a w)) ≡ some v)
      × Waiting v (u ∷ [])
      × (v.sigwaiter t ≡ true)
      × Waiting (sigwaiter_unblock t v) []
unfolding sigwaiter_block sigwaiter_unblock
second_signal_drops_waiter t u a b w i s r n = (
  placed u b (sigwaiter_unblock t (placed t a w)),
  ground arith,
  ground arith,
  ((ground arith, ground arith, ground arith), (refl, tt)),
  ground arith,
  (ground arith, tt),
)
