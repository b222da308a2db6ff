-- ===== src/Base/Results.antt =====
-- Results of the library's calls: the error codes it returns (0 is `success`), time values, and
-- the outcome of a section of code that runs under an object's spin lock.
use Prim.Native.Nat.{ℕ, ◌^◌}
use mathlib.Core.Bool.{Bool, true, false}
use mathlib.Core.Option.{Option, none, some}
use mathlib.Core.List.{List}
use libpthread.Base.Tests.{ltb}

pub data Errno : Type 0 where
  success eperm esrch eagain enomem ebusy einval enosys edeadlk etimedout enotsup eopnotsupp eintr :
      Errno

-- `negsuc n` is -(n + 1).
pub data ℤ : Type 0 where
  pos : ℕ → ℤ
  negsuc : ℕ → ℤ

-- `struct timespec`; `tv_nsec` is a signed long, which a caller may set to any value.
pub record Timespec : Type 0 where
  pub sec : ℕ
  pub nsec : ℤ

-- `tv_nsec < 0 || tv_nsec >= 1000000000` fails
abbrev pub nsec_valid : ℤ → Bool
nsec_valid (pos n) = ltb n 1000000000
nsec_valid (negsuc n) = false

-- The test of a timed call: a null `abstime` waits for ever and is valid.
abbrev pub abstime_valid : Option Timespec → Bool
abstime_valid none = true
abstime_valid (some t) = nsec_valid t.nsec

-- How a section ends. `returns e ws s`: the call returns `e` in state `s`, and has sent a wakeup
-- to each thread of `ws`. `waits s`: the calling thread has put itself on a queue and goes on to
-- block. `spins`: the spin lock is taken, so the section does not begin. `aborts`: an assertion
-- fails, or the code dereferences null on purpose.
pub data Outcome {ℓ} (S : Type ℓ) : Type ℓ where
  returns : Errno → List ℕ → S → Outcome S
  waits : S → Outcome S
  spins : Outcome S
  aborts : Outcome S

-- `unsigned` has 32 bits.
abbrev pub uint_mod : ℕ
uint_mod = 2 ^ 32
