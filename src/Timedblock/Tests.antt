-- ===== src/Timedblock/Tests.antt =====
-- The time-out theorems at concrete times.
use libpthread.Base.{ℕ, ◌*◌, ◌+◌, ◌-◌, ◌%◌, ◌<◌, ◌≤◌, ◌≡◌, ◌≢◌, refl, arith}
use libpthread.Timedblock.{Time, receive, timedblock, remaining, timeout_carry_rounds_down}

abbrev early : Time
early = record { seconds = 10; nanos = 200 }

abbrev late : Time
late = record { seconds = 10; nanos = 1500000 }

abbrev next : Time
next = record { seconds = 11; nanos = 100 }

timeout_carry_rounds_down_example :
    (t : ℕ) × (timedblock early next ≡ receive t)
    × (t * 1000000 ≤ remaining early next)
    × (remaining early next < t * 1000000 + 1000000)
    × ((early.nanos - next.nanos) % 1000000 ≢ 0 → t * 1000000 < remaining early next)
timeout_carry_rounds_down_example =
    timeout_carry_rounds_down early next (omega arith) (omega arith) (omega arith) (omega arith)

carry_short : timedblock early next ≡ receive 999
unfolding timedblock
carry_short = refl
