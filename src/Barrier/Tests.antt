-- ===== src/Barrier/Tests.antt =====
-- The barrier theorems at concrete barriers.
use libpthread.Base.{ℕ, ◌≡◌, refl, false, none, some, [], ◌∷◌, arith, einval, success}
use libpthread.Barrier.{Barrier, serial, spins, barrier_wait, barrier_init}
use libpthread.Barrier.Rounds.{arrive, barrier_round, single_barrier_wedges}

abbrev three : Barrier
three = record { lock = false; queue = []; pending = 3; count = 3 }

abbrev one : Barrier
one = record { lock = false; queue = []; pending = 1; count = 1 }

barrier_round_example :
    (c : Barrier) × (arrive three (5 ∷ 6 ∷ []) ≡ some c)
    × (barrier_wait c 7 ≡ serial (6 ∷ 5 ∷ []) three)
barrier_round_example =
    barrier_round three (5 ∷ 6 ∷ []) 7 refl refl refl (omega arith) (omega arith) refl
      (refl, (refl, tt))

single_barrier_wedges_example :
    (c : Barrier) × (barrier_wait one 5 ≡ serial [] c) × ((u : ℕ) → barrier_wait c u ≡ spins)
single_barrier_wedges_example = single_barrier_wedges one 5 refl refl refl

init_zero : barrier_init none 0 ≡ (none, einval)
unfolding barrier_init
init_zero = refl

init_three : barrier_init none 3 ≡ (some three, success)
unfolding barrier_init
init_three = refl
