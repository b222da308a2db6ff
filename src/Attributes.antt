-- ===== src/Attributes.antt =====
-- Attribute objects: sysdeps/generic/pt-attr*.c with the Hurd's pt-attr-setstackaddr.c and
-- pt-attr-setstacksize.c, bits/thread-attr.h, and the attributes of condition variables, barriers and
-- read-write locks. Enumerations are their codes of include/pthread/pthreadtypes.h.
pub mod Supported
mod Tests
use Prim.Native.Nat.{bit_and}
use libpthread.Base.{
  ℕ, zero, suc, ◌-◌, Bool, true, false, not, ◌==◌, if◌then◌else◌, Option, none, some, List, [], ◌∷◌,
  Errno, success, einval, enotsup,
}

-- `struct __pthread_attr`; of the scheduling parameters, the priority.
pub record Attr : Type 0 where
  pub schedparam : ℕ
  pub stackaddr : ℕ
  pub stacksize : ℕ
  pub guardsize : ℕ
  pub detachstate : ℕ
  pub inheritsched : ℕ
  pub contentionscope : ℕ
  pub schedpolicy : ℕ

-- `__pthread_default_attr`, with the size of a stack and of a page
abbrev pub default_attr : ℕ → ℕ → Attr
default_attr stack page = record {
  schedparam = 0;
  stackaddr = 0;
  stacksize = stack;
  guardsize = page;
  detachstate = 0;
  inheritsched = 0;
  contentionscope = 0;
  schedpolicy = 0;
}

abbrev pub setdetachstate : Attr → ℕ → Errno × Attr
setdetachstate a zero = (success, record a { detachstate = 0 })
setdetachstate a (suc zero) = (success, record a { detachstate = 1 })
setdetachstate a (suc (suc n)) = (einval, a)

abbrev pub setguardsize : Attr → ℕ → Errno × Attr
setguardsize a n = (success, record a { guardsize = n })

abbrev pub setinheritsched : Attr → ℕ → Errno × Attr
setinheritsched a zero = (success, record a { inheritsched = 0 })
setinheritsched a (suc zero) = (success, record a { inheritsched = 1 })
setinheritsched a (suc (suc n)) = (einval, a)

-- SCHED_OTHER is 0, SCHED_FIFO and SCHED_RR are 1 and 2.
abbrev pub setschedpolicy : Attr → ℕ → Errno × Attr
setschedpolicy a zero = (success, record a { schedpolicy = 0 })
setschedpolicy a (suc zero) = (enotsup, a)
setschedpolicy a (suc (suc zero)) = (enotsup, a)
setschedpolicy a (suc (suc (suc n))) = (einval, a)

-- The setters that compare with the default attributes `d`
abbrev pub setschedparam : Attr → Attr → ℕ → Errno × Attr
setschedparam d a n =
    if n == d.schedparam then (success, record a { schedparam = n }) else (enotsup, a)

abbrev pub other_scope : ℕ → Errno
other_scope zero = enotsup
other_scope (suc zero) = enotsup
other_scope (suc (suc n)) = einval

abbrev pub setscope : Attr → Attr → ℕ → Errno × Attr
setscope d a n =
    if n == d.contentionscope
    then (success, record a { contentionscope = n })
    else (other_scope n, a)

-- Of the Hurd: stacks have one size, and are aligned to it.
abbrev pub setstackaddr : Attr → Attr → ℕ → Errno × Attr
setstackaddr d a n =
    if bit_and n (d.stacksize - 1) == 0 then (success, record a { stackaddr = n }) else (einval, a)

abbrev pub setstacksize : Attr → Attr → ℕ → Errno × Attr
setstacksize d a n = if n == d.stacksize then (success, record a { stacksize = n }) else (einval, a)

abbrev pub getstack : Attr → ℕ × ℕ
getstack a = (a.stackaddr, a.stacksize)

-- `pthread_attr_setstack`: where the address is refused the size is set back; none is a failed
-- assertion.
abbrev pub set_back : Errno → Errno × Attr → Option (Errno × Attr)
set_back e (success, a) = some (e, a)
set_back e (f, a) = none

abbrev pub then_address : Attr → ℕ → Errno × Attr → Option (Errno × Attr)
then_address d old (success, a) = some (success, a)
then_address d old (e, a) = set_back e (setstacksize d a old)

abbrev pub then_size : Attr → ℕ → ℕ → Errno × Attr → Option (Errno × Attr)
then_size d old addr (success, a) = then_address d old (setstackaddr d a addr)
then_size d old addr (e, a) = some (e, a)

unfoldable pub setstack : Attr → Attr → ℕ → ℕ → Option (Errno × Attr)
setstack d a addr size = then_size d a.stacksize addr (setstacksize d a size)

-- `pthread_attr_init` and the getters
abbrev pub attr_init : Attr → Attr
attr_init d = d

abbrev pub getdetachstate : Attr → ℕ
getdetachstate a = a.detachstate

abbrev pub getguardsize : Attr → ℕ
getguardsize a = a.guardsize

abbrev pub getinheritsched : Attr → ℕ
getinheritsched a = a.inheritsched

abbrev pub getschedparam : Attr → ℕ
getschedparam a = a.schedparam

abbrev pub getschedpolicy : Attr → ℕ
getschedpolicy a = a.schedpolicy

abbrev pub getscope : Attr → ℕ
getscope a = a.contentionscope

abbrev pub getstackaddr : Attr → ℕ
getstackaddr a = a.stackaddr

abbrev pub getstacksize : Attr → ℕ
getstacksize a = a.stacksize

-- A call of one of the setters.
pub data Setting : Type 0 where
  to_detachstate to_guardsize to_inheritsched to_schedpolicy to_schedparam to_scope to_stackaddr
        to_stacksize :
      ℕ → Setting
  to_stack : ℕ → ℕ → Setting

abbrev pub set_attr : Attr → Attr → Setting → Option (Errno × Attr)
set_attr d a (to_detachstate n) = some (setdetachstate a n)
set_attr d a (to_guardsize n) = some (setguardsize a n)
set_attr d a (to_inheritsched n) = some (setinheritsched a n)
set_attr d a (to_schedpolicy n) = some (setschedpolicy a n)
set_attr d a (to_schedparam n) = some (setschedparam d a n)
set_attr d a (to_scope n) = some (setscope d a n)
set_attr d a (to_stackaddr n) = some (setstackaddr d a n)
set_attr d a (to_stacksize n) = some (setstacksize d a n)
set_attr d a (to_stack addr size) = setstack d a addr size

-- Setters one after the other, on an object that `pthread_attr_init` has made; none is a failed
-- assertion.
abbrev pub after_set : Option (Errno × Attr) → (Attr → Option Attr) → Option Attr
after_set none rest = none
after_set (some (e, a)) rest = rest a

unfoldable pub set_all : Attr → Attr → List Setting → Option Attr
set_all d a [] = some a
set_all d a (s ∷ ss) = after_set (set_attr d a s) (λ b. set_all d b ss)

-- `pshared` of condition variables, barriers and read-write locks
abbrev pub setpshared : ℕ → ℕ → Errno × ℕ
setpshared old zero = (success, 0)
setpshared old (suc zero) = (enotsup, old)
setpshared old (suc (suc n)) = (einval, old)

-- `pthread_condattr_setclock`: the static variable `avail` is 0 until the kernel has been asked for
-- CLOCK_MONOTONIC, which is 1; CLOCK_REALTIME is 0. The error, the clock and the variable: none is 0.
abbrev pub asked : Option Bool → Bool → Bool
asked none kernel = kernel
asked (some b) kernel = b

abbrev pub setclock : Option Bool → Bool → ℕ → ℕ → Errno × ℕ × Option Bool
setclock avail kernel old zero = (success, 0, avail)
setclock avail kernel old (suc zero) =
    if asked avail kernel
    then (success, 1, some (asked avail kernel))
    else (einval, old, some (asked avail kernel))
setclock avail kernel old (suc (suc n)) = (einval, old, avail)

-- `pthread_getattr_np`: none is ESRCH; of the thread, its stack, the size of its guard, and whether it is
-- detached.
pub record ThreadStack : Type 0 where
  pub stackaddr : ℕ
  pub stacksize : ℕ
  pub guardsize : ℕ
  pub detached : Bool

abbrev pub getattr_np : Attr → Option ThreadStack → Option Attr
getattr_np d none = none
getattr_np d (some t) = some (record d {
  stackaddr = t.stackaddr;
  stacksize = t.stacksize;
  guardsize = t.guardsize;
  detachstate = if t.detached then 1 else 0;
})
