-- ===== src/Base/Lists.antt =====
-- Lists of thread identifiers: membership as a test, removal, and lists without repetition.
use Prim.Native.Nat.{ℕ, zero, suc, ◌+◌}
use mathlib.Core.Path.{◌≡◌, refl}
use mathlib.Core.Logic.{◌≢◌}
use mathlib.Core.Bool.{Bool, true, false, ◌||◌}
use mathlib.Core.Option.{Option, none, some}
use mathlib.Core.List.{List, [], ◌∷◌}
use native.Mathlib.Omega.{arith}
use libpthread.Base.Tests.{◌==◌, if◌then◌else◌}

module _ {ℓ} {A : Type ℓ} where
  abbrev pub length : List A → ℕ
  length [] = 0
  length (x ∷ xs) = suc (length xs)

  abbrev pub get_elem? : List A → ℕ → Option A
  get_elem? [] i = none
  get_elem? (x ∷ xs) zero = some x
  get_elem? (x ∷ xs) (suc i) = get_elem? xs i

abbrev pub elem : ℕ → List ℕ → Bool
elem t [] = false
elem t (x ∷ xs) = x == t || elem t xs

abbrev pub remove : ℕ → List ℕ → List ℕ
remove t [] = []
remove t (x ∷ xs) = if x == t then xs else x ∷ remove t xs

abbrev pub Distinct : List ℕ → Type 0
Distinct [] = Unit {0}
Distinct (x ∷ xs) = (elem x xs ≡ false) × Distinct xs

pub elem-remove_other : (t u : ℕ) (xs : List ℕ) → t ≢ u → elem u (remove t xs) ≡ elem u xs
elem-remove_other t u [] h = refl
elem-remove_other t u (x ∷ xs) h = ground (arith, elem-remove_other t u xs)

pub elem-remove_self : (t : ℕ) (xs : List ℕ) → Distinct xs → elem t (remove t xs) ≡ false
elem-remove_self t [] d = refl
elem-remove_self t (x ∷ xs) d = ground (arith, elem-remove_self t xs d.1)

pub elem-remove_absent : (t u : ℕ) (xs : List ℕ) → elem u xs ≡ false → elem u (remove t xs) ≡ false
elem-remove_absent t u [] h = refl
elem-remove_absent t u (x ∷ xs) h = ground (arith, elem-remove_absent t u xs)

pub remove-Distinct : (t : ℕ) (xs : List ℕ) → Distinct xs → Distinct (remove t xs)
remove-Distinct t [] d = tt
remove-Distinct t (x ∷ xs) d =
    ground (arith, remove-Distinct t xs d.1, elem-remove_absent t x xs d.0)

pub remove_absent : (t : ℕ) (xs : List ℕ) → elem t xs ≡ false → remove t xs ≡ xs
remove_absent t [] h = refl
remove_absent t (x ∷ xs) h = ground (arith, remove_absent t xs)

pub length-remove : (t : ℕ) (xs : List ℕ) → elem t xs ≡ true → length (remove t xs) + 1 ≡ length xs
length-remove t [] h = ground arith
length-remove t (x ∷ xs) h = ground (arith, length-remove t xs)
