-- ===== src/Attributes/Supported.antt =====
-- What the setters keep, and what setting a stack does.
use Prim.Native.Nat.{bit_and, bit_and-bitwise}
use libpthread.Base.{
  ℕ, zero, suc, ◌-◌, ◌≡◌, ◌≤◌, refl, true, false, ◌==◌, Option, none, some, List, [], ◌∷◌, Errno,
  success, einval, arith, Bool-cases, inl, inr, ==→eq,
}
use libpthread.Attributes.{
  Attr, default_attr, getstack, setstack, Setting, to_detachstate, to_guardsize, to_inheritsched,
  to_schedpolicy, to_schedparam, to_scope, to_stackaddr, to_stacksize, to_stack, set_attr,
  after_set, set_all,
}

-- Every attribute has a value that the library supports.
pub record Supported (d a : Attr) : Type 0 where
  pub schedparam : a.schedparam ≡ d.schedparam
  pub aligned : bit_and a.stackaddr (d.stacksize - 1) ≡ 0
  pub stacksize : a.stacksize ≡ d.stacksize
  pub detachstate : a.detachstate ≤ 1
  pub inheritsched : a.inheritsched ≤ 1
  pub contentionscope : a.contentionscope ≡ d.contentionscope
  pub schedpolicy : a.schedpolicy ≡ 0

zero-bit_and : (b : ℕ) → bit_and 0 b ≡ 0
zero-bit_and b = bit_and-bitwise 0 b

default-Supported : (stack page : ℕ) → Supported (default_attr stack page) (default_attr stack page)
default-Supported stack page = record {
  schedparam = refl;
  aligned = zero-bit_and (stack - 1);
  stacksize = refl;
  detachstate = omega arith;
  inheritsched = omega arith;
  contentionscope = refl;
  schedpolicy = refl;
}

-- What `pthread_attr_setstack` does: it sets both, or neither.
pub SetsStack : Attr → Attr → ℕ → ℕ → Option (Errno × Attr) → Type 0
SetsStack d a addr size none = true ≡ false
SetsStack d a addr size (some (success, b)) =
    (getstack b ≡ (addr, size)) × (size ≡ d.stacksize) × (bit_and addr (d.stacksize - 1) ≡ 0)
SetsStack d a addr size (some (e, b)) = (e ≡ einval) × (b ≡ a)

-- `pthread_attr_setstack` on an object of the supported size: no assertion fails. Where it succeeds, the
-- address and the size are read back, the size is the one size of stacks, and the address aligned to
-- it; or else it returns EINVAL, and the object is as before.
pub setstack-SetsStack :
    (d a : Attr) (addr size : ℕ)
    → a.stacksize ≡ d.stacksize
    → SetsStack d a addr size (setstack d a addr size)
unfolding setstack SetsStack
setstack-SetsStack d a addr size s = elim (Bool-cases (size == d.stacksize)) [
  | inr e ↦ rw e (refl, refl)
  | inl e ↦ elim (Bool-cases (bit_and addr (d.stacksize - 1) == 0)) [
    | inl f ↦ rw (e, f) (refl, ==→eq size d.stacksize e, ground arith)
    | inr f ↦
        let z : (a.stacksize == d.stacksize) ≡ true = ground arith in rw (e, f, z) (refl, refl)
  ]
]

-- No assertion fails, and the attributes are supported.
pub AllSupported : Attr → Option (Errno × Attr) → Type 0
AllSupported d none = true ≡ false
AllSupported d (some (e, a)) = Supported d a

module _ (d a : Attr) (u : Supported d a) where
  detachstate-Supported : (n : ℕ) → n ≤ 1 → Supported d (record a { detachstate = n })
  detachstate-Supported n l = record {
    schedparam = u.schedparam;
    aligned = u.aligned;
    stacksize = u.stacksize;
    detachstate = l;
    inheritsched = u.inheritsched;
    contentionscope = u.contentionscope;
    schedpolicy = u.schedpolicy;
  }

  guardsize-Supported : (n : ℕ) → Supported d (record a { guardsize = n })
  guardsize-Supported n = record {
    schedparam = u.schedparam;
    aligned = u.aligned;
    stacksize = u.stacksize;
    detachstate = u.detachstate;
    inheritsched = u.inheritsched;
    contentionscope = u.contentionscope;
    schedpolicy = u.schedpolicy;
  }

  inheritsched-Supported : (n : ℕ) → n ≤ 1 → Supported d (record a { inheritsched = n })
  inheritsched-Supported n l = record {
    schedparam = u.schedparam;
    aligned = u.aligned;
    stacksize = u.stacksize;
    detachstate = u.detachstate;
    inheritsched = l;
    contentionscope = u.contentionscope;
    schedpolicy = u.schedpolicy;
  }

  scheduling-Supported :
      (p c q : ℕ)
      → p ≡ d.schedparam
      → c ≡ d.contentionscope
      → q ≡ 0
      → Supported d (record a { schedparam = p; contentionscope = c; schedpolicy = q })
  scheduling-Supported p c q e f g = record {
    schedparam = e;
    aligned = u.aligned;
    stacksize = u.stacksize;
    detachstate = u.detachstate;
    inheritsched = u.inheritsched;
    contentionscope = f;
    schedpolicy = g;
  }

  stack-Supported :
      (addr size : ℕ)
      → size ≡ d.stacksize
      → bit_and addr (d.stacksize - 1) ≡ 0
      → Supported d (record a { stackaddr = addr; stacksize = size })
  stack-Supported addr size e f = record {
    schedparam = u.schedparam;
    aligned = f;
    stacksize = e;
    detachstate = u.detachstate;
    inheritsched = u.inheritsched;
    contentionscope = u.contentionscope;
    schedpolicy = u.schedpolicy;
  }

  sized-Supported : (n : ℕ) → n ≡ d.stacksize → Supported d (record a { stacksize = n })
  sized-Supported n e = stack-Supported a.stackaddr n e u.aligned

  setstack-Supported : (addr size : ℕ) → AllSupported d (setstack d a addr size)
  unfolding setstack AllSupported
  setstack-Supported addr size = elim (Bool-cases (size == d.stacksize)) [
    | inr f ↦ rw f u
    | inl f ↦ elim (Bool-cases (bit_and addr (d.stacksize - 1) == 0)) [
      | inl g ↦ rw (f, g) (stack-Supported addr size (==→eq size d.stacksize f) (ground arith))
      | inr g ↦
          let z : (a.stacksize == d.stacksize) ≡ true = ground (arith, u.stacksize) in
          rw (f, g, z) u
    ]
  ]

  set_attr-Supported : (s : Setting) → AllSupported d (set_attr d a s)
  unfolding AllSupported
  set_attr-Supported (to_detachstate zero) = detachstate-Supported 0 (omega arith)
  set_attr-Supported (to_detachstate (suc zero)) = detachstate-Supported 1 (omega arith)
  set_attr-Supported (to_detachstate (suc (suc n))) = u
  set_attr-Supported (to_guardsize n) = guardsize-Supported n
  set_attr-Supported (to_inheritsched zero) = inheritsched-Supported 0 (omega arith)
  set_attr-Supported (to_inheritsched (suc zero)) = inheritsched-Supported 1 (omega arith)
  set_attr-Supported (to_inheritsched (suc (suc n))) = u
  set_attr-Supported (to_schedpolicy zero) =
      scheduling-Supported a.schedparam a.contentionscope 0 u.schedparam u.contentionscope refl
  set_attr-Supported (to_schedpolicy (suc zero)) = u
  set_attr-Supported (to_schedpolicy (suc (suc zero))) = u
  set_attr-Supported (to_schedpolicy (suc (suc (suc n)))) = u
  set_attr-Supported (to_schedparam n) = elim (Bool-cases (n == d.schedparam)) [
    | inl e ↦ rw e (
        scheduling-Supported n a.contentionscope a.schedpolicy (==→eq n d.schedparam e)
          u.contentionscope u.schedpolicy)
    | inr e ↦ rw e u
  ]
  set_attr-Supported (to_scope n) = elim (Bool-cases (n == d.contentionscope)) [
    | inl e ↦ rw e (
        scheduling-Supported a.schedparam n a.schedpolicy u.schedparam (==→eq n d.contentionscope e)
          u.schedpolicy)
    | inr e ↦ rw e u
  ]
  set_attr-Supported (to_stackaddr n) = elim (Bool-cases (bit_and n (d.stacksize - 1) == 0)) [
    | inl e ↦ rw e (stack-Supported n a.stacksize u.stacksize (ground arith))
    | inr e ↦ rw e u
  ]
  set_attr-Supported (to_stacksize n) = elim (Bool-cases (n == d.stacksize)) [
    | inl e ↦ rw e (sized-Supported n (==→eq n d.stacksize e))
    | inr e ↦ rw e u
  ]
  set_attr-Supported (to_stack addr size) = setstack-Supported addr size

AllSet : Attr → Option Attr → Type 0
AllSet d o = (b : Attr) × (o ≡ some b) × Supported d b

after-AllSet :
    (d : Attr) (o : Option (Errno × Attr)) (rest : Attr → Option Attr)
    → AllSupported d o
    → ((b : Attr) → Supported d b → AllSet d (rest b))
    → AllSet d (after_set o rest)
unfolding AllSupported AllSet
after-AllSet d none rest u k = cc
after-AllSet d (some (e, b)) rest u k = k b u

set_all-AllSet : (d a : Attr) (ss : List Setting) → Supported d a → AllSet d (set_all d a ss)
unfolding set_all AllSet
set_all-AllSet d a [] u = (a, refl, u)
set_all-AllSet d a (s ∷ ss) u =
    after-AllSet d (set_attr d a s) (λ b. set_all d b ss) (set_attr-Supported d a u s)
      (λ b v. set_all-AllSet d b ss v)

-- From the default attributes, whatever setters are called with whatever values, in any order: no
-- assertion fails, and every attribute has a value that the library supports.
pub set_all-Supported :
    (stack page : ℕ) (ss : List Setting)
    → (b : Attr) × (set_all (default_attr stack page) (default_attr stack page) ss ≡ some b)
      × Supported (default_attr stack page) b
unfolding AllSet
set_all-Supported stack page ss =
    let d = default_attr stack page in set_all-AllSet d d ss (default-Supported stack page)
