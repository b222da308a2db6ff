-- ===== src/Stacks.antt =====
-- The allocation of stacks: sysdeps/mach/pt-stack-alloc.c. Addresses are numbers below 2 ^ 32; which of
-- them the kernel can allocate a stack at is an argument, and so are the bounds of the address space.
pub mod Search
mod Tests
use libpthread.Base.{
  ℕ, zero, suc, ◌+◌, ◌%◌, Bool, true, false, not, ◌&&◌, ltb, ◌==◌, if◌then◌else◌, Option, none,
  some, Errno, einval, eagain, uint_mod,
}

-- VM_MIN_ADDRESS, VM_MAX_ADDRESS and the size of every stack
pub record Space : Type 0 where
  pub first : ℕ
  pub last : ℕ
  pub stacksize : ℕ

-- How the call ends: with an error, or with a stack at an address; and `next_stack_base` then.
pub data Allocated : Type 0 where
  fails : Errno → ℕ → Allocated
  allocates : ℕ → ℕ → Allocated

module _ (space : Space) (free : ℕ → Bool) where
  -- The inner loop, from an address to one where a stack is allocated, or past the last one. The fuel
  -- bounds its rounds; none is a loop that has not ended by then.
  unfoldable pub search : ℕ → ℕ → Option ℕ
  search zero base = if ltb base space.last && not (free base) then none else some base
  search (suc fuel) base =
      let rest = search fuel ((base + space.stacksize) % uint_mod) in
      if ltb base space.last && not (free base) then rest else some base

  -- What follows the second search, and the first one.
  abbrev pub after_second : Option ℕ → Option Allocated
  after_second none = none
  after_second (some base) =
      if ltb base space.last
      then some (allocates base ((base + space.stacksize) % uint_mod))
      else some (fails eagain space.first)

  abbrev pub after_first : ℕ → Option ℕ → Option Allocated
  after_first fuel none = none
  after_first fuel (some base) =
      if ltb base space.last
      then some (allocates base ((base + space.stacksize) % uint_mod))
      else after_second (search fuel space.first)

  -- `__pthread_stack_alloc`, with `next_stack_base`
  unfoldable pub stack_alloc : ℕ → ℕ → ℕ → Option Allocated
  unfolding search
  stack_alloc fuel next size =
      if size == space.stacksize
      then after_first fuel (search fuel next)
      else some (fails einval next)
