-- ===== src/Stacks/Search.antt =====
-- The search finds a place for a stack if there is one in its steps.
use libpthread.Base.{
  ℕ, zero, suc, ◌+◌, ◌-◌, ◌%◌, ◌≡◌, ◌≤◌, ◌<◌, refl, Bool, true, false, not, ◌&&◌, ltb, ◌==◌, Option,
  none, some, eagain, uint_mod, arith, Bool-cases, inl, inr,
}
use libpthread.Stacks.{
  Space, Allocated, fails, allocates, search, after_second, after_first, stack_alloc,
}

-- From one address in steps of a stack to another one: nothing can be allocated before that.
pub data Tried (space : Space) (free : ℕ → Bool) : ℕ → ℕ → Type 0 where
  here : {a : ℕ} → Tried space free a a
  on :
      {a b : ℕ}
      → free a ≡ false
      → a < space.last
      → Tried space free (a + space.stacksize) b
      → Tried space free a b

module _ (space : Space) (free : ℕ → Bool) where
  -- What a call with the right size comes to.
  pub Allocates : ℕ → Option Allocated → Type 0
  Allocates next none = true ≡ false
  Allocates next (some (allocates base n)) =
      (space.first ≤ base) × (base < space.last) × (free base ≡ true) × (n ≡ base + space.stacksize)
  Allocates next (some (fails e n)) =
      (e ≡ eagain)
      × (n ≡ space.first)
      × ((b : ℕ) × Tried space free next b × (space.last ≤ b))
      × ((b : ℕ) × Tried space free space.first b × (space.last ≤ b))

  module _ (positive : 0 < space.stacksize)
      (small : space.last + space.stacksize ≤ 4294967296) where
    record Searched (a : ℕ) (o : Option ℕ) : Type 0 where
      b : ℕ
      result : o ≡ some b
      tried : Tried space free a b
      behind : a ≤ b
      ended : b < space.last → free b ≡ true

    step_small : (a : ℕ) → a < space.last → (a + space.stacksize) % uint_mod ≡ a + space.stacksize
    step_small a h = omega arith

    search-Searched : (fuel a : ℕ) → space.last - a ≤ fuel → Searched a (search space free fuel a)
    unfolding search
    search-Searched zero a l =
        let e : (ltb a space.last && not (free a)) ≡ false = ground arith in
        rw e (record {
          b = a;
          result = refl;
          tried = here;
          behind = omega arith;
          ended = λ h. absurd (omega arith);
        })
    search-Searched (suc fuel) a l = elim (Bool-cases (ltb a space.last && not (free a))) [
      | inl e ↦
          let step : (a + space.stacksize) % uint_mod ≡ a + space.stacksize =
            step_small a (ground arith) in
          let r = search-Searched fuel (a + space.stacksize) (ground arith) in
          rw (e, step)
            (record {
              b = r.b;
              result = r.result;
              tried = on (ground arith) (ground arith) r.tried;
              behind = omega (arith, r.behind);
              ended = r.ended;
            })
      | inr e ↦ rw e (record {
        b = a;
        result = refl;
        tried = here;
        behind = omega arith;
        ended = λ h. ground arith;
      })
    ]

    found_second :
        (next : ℕ) {o q : Option ℕ} (r : Searched next o) (s : Searched space.first q)
        → ltb r.b space.last ≡ false
        → Allocates next (after_second space free (some s.b))
    unfolding Allocates
    found_second next r s e = elim (Bool-cases (ltb s.b space.last)) [
      | inl f ↦ rw f (s.behind, ground arith, s.ended (ground arith), step_small s.b (ground arith))
      | inr f ↦ rw f (refl, refl, (r.b, r.tried, ground arith), (s.b, s.tried, ground arith))
    ]

    found_first :
        (fuel next : ℕ) (o : Option ℕ)
        → space.last - space.first ≤ fuel
        → space.first ≤ next
        → Searched next o
        → Allocates next (after_first space free fuel o)
    unfolding Allocates
    found_first fuel next o l f r = elim (Bool-cases (ltb r.b space.last)) [
      | inl e ↦
          rw (r.result, e)
            (
              omega (arith, r.behind),
              ground arith,
              r.ended (ground arith),
              step_small r.b (ground arith),
            )
      | inr e ↦
          let s = search-Searched fuel space.first l in
          rw (r.result, e, s.result) (found_second next r s e)
    ]

    -- The call with the size of all stacks, where that is positive, no address of a search exceeds
    -- `2 ^ 32` (the last address and a stack together do not), the search starts at the first address or
    -- behind it, and there is fuel for the whole address space: it ends. If it returns a stack, its base
    -- is at or behind the first address and before the last one (its end may lie behind that), where the
    -- kernel could allocate it, and the next search starts at its end; or it returns EAGAIN, neither of the searches, from the last place and from the
    -- first address, having found a place in its steps, and the next search starts at the first address.
    pub stack_alloc-Allocates :
        (fuel next : ℕ)
        → space.last - next ≤ fuel
        → space.last - space.first ≤ fuel
        → space.first ≤ next
        → Allocates next (stack_alloc space free fuel next space.stacksize)
    unfolding stack_alloc
    stack_alloc-Allocates fuel next l m f =
        let e : (space.stacksize == space.stacksize) ≡ true = ground arith in
        rw e (found_first fuel next (search space free fuel next) m f (search-Searched fuel next l))
