-- ===== src/Timedblock.antt =====
-- sysdeps/mach/pt-timedblock.c: the relative timeout of a block, in milliseconds, from an absolute
-- time and the present one. What is sent and received is the kernel's: here is what it is asked.
mod Tests
use libpthread.Base.{
  ℕ, ◌+◌, ◌-◌, ◌*◌, ◌/◌, ◌%◌, ◌<◌, ◌≤◌, ◌≡◌, ◌≢◌, Bool, true, false, ltb, leb, ◌==◌, ◌&&◌, ◌||◌,
  if◌then◌else◌, uint_mod, arith, ◌↔◌,
}

-- A time with its nanoseconds in range.
pub record Time : Type 0 where
  pub seconds : ℕ
  pub nanos : ℕ

-- The time has passed, and ETIMEDOUT is returned; or a message is awaited for so many
-- milliseconds, a `mach_msg_timeout_t` of 32 bits.
pub data Block : Type 0 where
  expired : Block
  receive : ℕ → Block

-- The fraction of the second, added to the milliseconds of the seconds or taken away from them.
pub with_nanos : ℕ → ℕ → ℕ → ℕ
with_nanos millis now abstime =
    if leb now abstime
    then (millis + (abstime - now + 999999) / 1000000) % uint_mod
    else (millis + uint_mod - (now - abstime + 999999) / 1000000) % uint_mod

-- `__pthread_timedblock` up to the call of `__mach_msg`. The product is one of signed longs in the code;
-- past 2147483 seconds it overflows where they have 32 bits, and is taken to wrap around.
pub timedblock : Time → Time → Block
unfolding with_nanos
timedblock now abstime =
    if ltb abstime.seconds now.seconds
      || (now.seconds == abstime.seconds && ltb abstime.nanos now.nanos)
    then expired
    else receive
        (with_nanos ((abstime.seconds - now.seconds) * 1000 % uint_mod) now.nanos abstime.nanos)

-- The nanoseconds from `now` to `abstime`, where that is not before.
abbrev pub remaining : Time → Time → ℕ
remaining now abstime =
    (abstime.seconds * 1000000000 + abstime.nanos) - (now.seconds * 1000000000 + now.nanos)

-- Within 4294966 seconds, where the absolute time is not in an earlier second than the present and
-- its nanoseconds are no fewer: the block lasts until the time is reached, and less than a
-- millisecond longer.
pub timeout_rounds_up :
    (now abstime : Time)
    → now.nanos < 1000000000
    → abstime.nanos < 1000000000
    → now.seconds ≤ abstime.seconds
    → abstime.seconds - now.seconds ≤ 4294966
    → now.nanos ≤ abstime.nanos
    → (t : ℕ) × (timedblock now abstime ≡ receive t)
      × (remaining now abstime ≤ t * 1000000)
      × (t * 1000000 < remaining now abstime + 1000000)
unfolding timedblock
timeout_rounds_up now abstime n a s d c =
    let millis : ℕ = (abstime.seconds - now.seconds) * 1000 in
    let t : ℕ = millis + (abstime.nanos - now.nanos + 999999) / 1000000 in
    (t, ground arith, omega arith, omega arith)

-- Within 4294966 seconds, where the absolute time is in a later second than the present and its
-- nanoseconds are fewer: the milliseconds are rounded down. The block ends no later than the time
-- is reached and less than a millisecond before; and it ends before, unless the difference of the
-- nanoseconds is a whole number of milliseconds.
pub timeout_carry_rounds_down :
    (now abstime : Time)
    → now.nanos < 1000000000
    → now.seconds < abstime.seconds
    → abstime.seconds - now.seconds ≤ 4294966
    → abstime.nanos < now.nanos
    → (t : ℕ) × (timedblock now abstime ≡ receive t)
      × (t * 1000000 ≤ remaining now abstime)
      × (remaining now abstime < t * 1000000 + 1000000)
      × ((now.nanos - abstime.nanos) % 1000000 ≢ 0 → t * 1000000 < remaining now abstime)
unfolding timedblock
timeout_carry_rounds_down now abstime n s d c =
    let millis : ℕ = (abstime.seconds - now.seconds) * 1000 in
    let t : ℕ = millis - (now.nanos - abstime.nanos + 999999) / 1000000 in
    (t, ground arith, omega arith, omega arith, (λ k. omega arith))
