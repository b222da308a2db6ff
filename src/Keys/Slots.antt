-- ===== src/Keys/Slots.antt =====
-- The array of destructors: what setting an element and searching for a free one do to it.
use libpthread.Base.{
  ℕ, zero, suc, ◌+◌, ◌≤◌, ◌<◌, ◌≡◌, refl, false, ◌==◌, none, some, List, [], ◌∷◌, ◌++◌, length,
  get_elem?, arith,
}
use libpthread.Keys.{
  Slot, invalid, absent, destructor, set_slot, first_invalid, rest_of, search_from,
}

abbrev pub slot_invalid : Slot → ℕ
slot_invalid invalid = 1
slot_invalid absent = 0
slot_invalid (destructor f) = 0

abbrev pub count_invalid : List Slot → ℕ
count_invalid [] = 0
count_invalid (s ∷ ss) = slot_invalid s + count_invalid ss

pub length-set_slot : (ss : List Slot) (i : ℕ) (d : Slot) → length (set_slot ss i d) ≡ length ss
length-set_slot [] i d = refl
length-set_slot (s ∷ ss) zero d = refl
length-set_slot (s ∷ ss) (suc i) d = ground (arith, length-set_slot ss i d)

pub set_slot_same :
    (ss : List Slot) (i : ℕ) (d : Slot) → i < length ss → get_elem? (set_slot ss i d) i ≡ some d
set_slot_same [] i d h = ground arith
set_slot_same (s ∷ ss) zero d h = refl
set_slot_same (s ∷ ss) (suc i) d h = set_slot_same ss i d (omega arith)

pub set_slot_other :
    (ss : List Slot) (i j : ℕ) (d : Slot)
    → (i == j) ≡ false
    → get_elem? (set_slot ss i d) j ≡ get_elem? ss j
set_slot_other [] i j d h = refl
set_slot_other (s ∷ ss) zero zero d h = ground arith
set_slot_other (s ∷ ss) zero (suc j) d h = refl
set_slot_other (s ∷ ss) (suc i) zero d h = refl
set_slot_other (s ∷ ss) (suc i) (suc j) d h = set_slot_other ss i j d (ground arith)

-- The number of invalid elements after an element is set.
pub count_invalid-set_slot :
    (ss : List Slot) (i : ℕ) (d old : Slot)
    → get_elem? ss i ≡ some old
    → count_invalid (set_slot ss i d) + slot_invalid old ≡ count_invalid ss + slot_invalid d
count_invalid-set_slot [] i d old h = ground arith
count_invalid-set_slot (s ∷ ss) zero d old h = ground arith
count_invalid-set_slot (s ∷ ss) (suc i) d old h =
    let r = count_invalid-set_slot ss i d old h in omega arith

pub length-append : (ss : List Slot) (d : Slot) → length (ss ++ d ∷ []) ≡ length ss + 1
length-append [] d = refl
length-append (s ∷ ss) d = ground (arith, length-append ss d)

pub count_invalid-append :
    (ss : List Slot) (d : Slot) → count_invalid (ss ++ d ∷ []) ≡ count_invalid ss + slot_invalid d
count_invalid-append [] d = ground arith
count_invalid-append (s ∷ ss) d = let r = count_invalid-append ss d in omega arith

pub append_last : (ss : List Slot) (d : Slot) → get_elem? (ss ++ d ∷ []) (length ss) ≡ some d
append_last [] d = refl
append_last (s ∷ ss) d = append_last ss d

pub append_other :
    (ss : List Slot) (d : Slot) (j : ℕ)
    → (length ss == j) ≡ false
    → get_elem? (ss ++ d ∷ []) j ≡ get_elem? ss j
append_other [] d zero h = ground arith
append_other [] d (suc j) h = refl
append_other (s ∷ ss) d zero h = refl
append_other (s ∷ ss) d (suc j) h = append_other ss d j (ground arith)

pub get_past : (ss : List Slot) (i : ℕ) → length ss ≤ i → get_elem? ss i ≡ none
get_past [] i h = refl
get_past (s ∷ ss) zero h = ground arith
get_past (s ∷ ss) (suc i) h = get_past ss i (omega arith)

-- The first invalid element is in the list or it is the end of it.
pub first_invalid-Found :
    (ss : List Slot) (i : ℕ)
    → (k : ℕ) × (first_invalid ss i ≡ i + k)
      × (k ≤ length ss)
      × (k < length ss → get_elem? ss k ≡ some invalid)
first_invalid-Found [] i = (0, ground arith, ground arith, (λ h. ground arith))
first_invalid-Found (invalid ∷ ss) i = (0, ground arith, ground arith, (λ h. refl))
first_invalid-Found (absent ∷ ss) i =
    let r = first_invalid-Found ss (suc i) in
    (suc r.0, ground arith, ground arith, (λ h. r.3 (omega arith)))
first_invalid-Found (destructor f ∷ ss) i =
    let r = first_invalid-Found ss (suc i) in
    (suc r.0, ground arith, ground arith, (λ h. r.3 (omega arith)))

pub rest_of-Suffix :
    (ss : List Slot) (i : ℕ)
    → i ≤ length ss
    → (length (rest_of ss i) + i ≡ length ss)
      × ((j : ℕ) → get_elem? (rest_of ss i) j ≡ get_elem? ss (i + j))
rest_of-Suffix ss zero h = (ground arith, (λ j. ground arith))
rest_of-Suffix [] (suc i) h = (ground arith, (λ j. ground arith))
rest_of-Suffix (s ∷ ss) (suc i) h =
    let r = rest_of-Suffix ss i (omega arith) in (omega arith, (λ j. ground (arith, r.1 j)))

-- The search goes from an index to an invalid element or to the end.
pub search_from-Found :
    (ss : List Slot) (i : ℕ)
    → i ≤ length ss
    → (i ≤ search_from ss i)
      × (search_from ss i ≤ length ss)
      × (search_from ss i < length ss → get_elem? ss (search_from ss i) ≡ some invalid)
search_from-Found ss i h =
    let r = rest_of-Suffix ss i h in
    let f = first_invalid-Found (rest_of ss i) i in
    (ground arith, ground arith, (λ k. ground (arith, r.1 f.0, f.3)))

-- An array with an invalid element: the search from its start finds one.
pub search_zero :
    (ss : List Slot) (i : ℕ) → 0 < count_invalid ss → first_invalid ss i < i + length ss
search_zero [] i h = ground arith
search_zero (invalid ∷ ss) i h = ground arith
search_zero (absent ∷ ss) i h = let r = search_zero ss (suc i) (omega arith) in omega arith
search_zero (destructor f ∷ ss) i h = let r = search_zero ss (suc i) (omega arith) in omega arith
