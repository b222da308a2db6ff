-- ===== src/Keys/Table.antt =====
-- The table of keys stays well formed; creating a key ends, with a free element and at no assertion.
use libpthread.Base.{
  ℕ, zero, suc, ◌+◌, ◌-◌, ◌≤◌, ◌<◌, ◌≡◌, ◌⊎◌, inl, inr, refl, Bool, true, false, ltb, ◌==◌,
  if◌then◌else◌, Bool-cases, Option, none, some, List, [], ◌∷◌, ◌++◌, length, get_elem?, enomem,
  einval, success, arith,
}
use libpthread.Keys.{
  Slot, invalid, absent, destructor, KeyTable, key_count, no_keys, is_invalid, set_slot,
  search_from, Created, created, fails, aborts, searches, reuse_slot, append_slot, new_size,
  worth_search, key_create_from, key_create, key_delete,
}
use libpthread.Keys.Slots.{
  slot_invalid, count_invalid, length-set_slot, set_slot_same, set_slot_other,
  count_invalid-set_slot, length-append, count_invalid-append, append_last, append_other, get_past,
  search_from-Found, search_zero,
}

-- The array is large enough, the number of invalid elements is right, and the search starts in the
-- array or at its end.
pub record Inv (k : KeyTable) : Type 0 where
  pub fits : key_count k ≤ k.size
  pub counted : k.invalid_count ≡ count_invalid k.slots
  pub starts : k.index ≤ key_count k

-- `pthread_key_create` with destructor `d` ends well from `k`: either with a key whose element was
-- free and is now `d`, the other elements as they were, and an array that has grown only if it was
-- not worth searching it; or, if the memory is exhausted, with ENOMEM and the elements unchanged.
unfoldable pub CreatesFrom : Bool → KeyTable → Slot → Created → Type 0
CreatesFrom allocates k d (created i k') =
    Inv k'
    × (get_elem? k'.slots i ≡ some d)
    × ((get_elem? k.slots i ≡ some invalid) ⊎ (get_elem? k.slots i ≡ none))
    × ((j : ℕ) → (i == j) ≡ false → get_elem? k'.slots j ≡ get_elem? k.slots j)
    × ((k'.size ≡ k.size) ⊎ (worth_search k ≡ false))
CreatesFrom allocates k d (fails e k') =
    Inv k' × (e ≡ enomem) × (allocates ≡ false) × (k'.slots ≡ k.slots)
CreatesFrom allocates k d aborts = true ≡ false
CreatesFrom allocates k d searches = true ≡ false

no_keys-Inv : Inv no_keys
no_keys-Inv = record { fits = ground arith; counted = refl; starts = ground arith }

-- Whether an array of elements is invalid at an index, as an equation and as a test.
abbrev pub Usable : Slot → Type 0
Usable d = slot_invalid d ≡ 0

reuse_slot-Creates :
    (allocates : Bool) (k : KeyTable) (i : ℕ) (d : Slot)
    → Inv k
    → Usable d
    → i < key_count k
    → get_elem? k.slots i ≡ some invalid
    → CreatesFrom allocates k d (reuse_slot k i d)
unfolding CreatesFrom
reuse_slot-Creates allocates k i d v n l e =
    let c = count_invalid-set_slot k.slots i d invalid e in
    let len = length-set_slot k.slots i d in
    let eq : reuse_slot k i d
        ≡ created i (record {
          slots = set_slot k.slots i d;
          size = k.size;
          invalid_count = k.invalid_count - 1;
          index = i + 1;
        }) =
      ground (arith, v.counted) in
    rw (eq, CreatesFrom)
      (
        record {
          fits = ground (arith, v.fits);
          counted = ground (arith, v.counted);
          starts = ground arith;
        },
        set_slot_same k.slots i d l,
        inl e,
        (λ j h. set_slot_other k.slots i j d h),
        inl refl,
      )

-- A free element at the end, in an array of which `n` elements are in use or there is room for one.
append-Creates :
    (allocates : Bool) (k : KeyTable) (d : Slot) (n : ℕ)
    → Inv k
    → Usable d
    → key_count k < n
    → (n ≡ k.size) ⊎ (worth_search k ≡ false)
    → CreatesFrom allocates k d (
        created (key_count k) (record {
          slots = k.slots ++ d ∷ [];
          size = n;
          invalid_count = k.invalid_count;
          index = key_count k + 1;
        }))
unfolding CreatesFrom
append-Creates allocates k d n v u l w =
    let c = count_invalid-append k.slots d in
    let len = length-append k.slots d in
    (
      record { fits = ground arith; counted = ground (arith, v.counted); starts = ground arith },
      append_last k.slots d,
      inr (get_past k.slots (key_count k) (omega arith)),
      (λ j h. append_other k.slots d j h),
      w,
    )

append_slot-Creates :
    (allocates : Bool) (k : KeyTable) (d : Slot)
    → Inv k
    → Usable d
    → worth_search k ≡ false
    → CreatesFrom allocates k d (append_slot allocates k (key_count k) d)
unfolding CreatesFrom
append_slot-Creates true k d v u w = elim (Bool-cases (k.size == key_count k)) [
  | inr e ↦ rw e (append-Creates true k d k.size v u (ground (arith, v.fits)) (inl refl))
  | inl e ↦ rw e (append-Creates true k d (new_size k.size) v u (ground arith) (inr w))
]
append_slot-Creates false k d v u w = elim (Bool-cases (k.size == key_count k)) [
  | inr e ↦ rw e (append-Creates false k d k.size v u (ground (arith, v.fits)) (inl refl))
  | inl e ↦
      rw e (record { fits = v.fits; counted = v.counted; starts = ground arith }, refl, refl, refl)
]

-- A second search, from the start, finds the invalid element that was counted.
key_create_again :
    (allocates : Bool) (k : KeyTable) (d : Slot)
    → Inv k
    → Usable d
    → worth_search k ≡ true
    → CreatesFrom allocates k d (key_create_from 1 allocates (record k { index = 0 }) d)
unfolding key_create_from
key_create_again allocates k d v u w =
    let found = search_zero k.slots 0 (ground (arith, v.counted)) in
    let f = search_from-Found k.slots 0 (omega arith) in
    let less : ltb (search_from k.slots 0) (key_count k) ≡ true = ground arith in
    rw less (
      reuse_slot-Creates allocates k (search_from k.slots 0) d v u (ground arith)
        (f.2 (ground arith)))

-- The search from the index has found nothing.
key_create_full :
    (allocates : Bool) (k : KeyTable) (d : Slot)
    → search_from k.slots k.index ≡ key_count k
    → key_create allocates k d ≡ (
        if worth_search k
        then key_create_from 1 allocates (record k { index = 0 }) d
        else append_slot allocates k (key_count k) d)
unfolding key_create_from
key_create_full allocates k d e =
    let less : ltb (search_from k.slots k.index) (key_count k) ≡ false = ground arith in
    let same : (search_from k.slots k.index == key_count k) ≡ true = ground arith in
    rw (less, same, e) refl

key_create_found :
    (allocates : Bool) (k : KeyTable) (d : Slot)
    → search_from k.slots k.index < key_count k
    → key_create allocates k d ≡ reuse_slot k (search_from k.slots k.index) d
unfolding key_create_from
key_create_found allocates k d l =
    let less : ltb (search_from k.slots k.index) (key_count k) ≡ true = ground arith in rw less refl

-- `pthread_key_create` with a destructor that is not PTHREAD_KEY_INVALID, from a well-formed table:
-- it ends, at no assertion, with a well-formed table. It returns a key whose element was free or
-- past the end and is now the destructor, or, only if the memory is exhausted, ENOMEM; all other
-- elements are as they were, and the array does not grow while the rule on its number of invalid
-- elements finds it worth searching.
pub key_create-Creates :
    (allocates : Bool) (k : KeyTable) (d : Slot)
    → Inv k
    → Usable d
    → CreatesFrom allocates k d (key_create allocates k d)
key_create-Creates allocates k d v u =
    let f = search_from-Found k.slots k.index v.starts in
    elim (Bool-cases (ltb (search_from k.slots k.index) (key_count k))) [
      | inl less ↦
          let l : search_from k.slots k.index < key_count k = ground arith in
          rw (key_create_found allocates k d l)
            (reuse_slot-Creates allocates k (search_from k.slots k.index) d v u l (f.2 l))
      | inr full ↦
          rw (key_create_full allocates k d (ground arith)) (elim (Bool-cases (worth_search k)) [
            | inl w ↦ rw w (key_create_again allocates k d v u w)
            | inr w ↦ rw w (append_slot-Creates allocates k d v u w)
          ])
    ]

get-cases :
    (o : Option Slot) → (o ≡ none) ⊎ ((o ≡ some invalid) ⊎ ((s : Slot) × (o ≡ some s) × Usable s))
get-cases none = inl refl
get-cases (some invalid) = inr (inl refl)
get-cases (some absent) = inr (inr (absent, refl, refl))
get-cases (some (destructor f)) = inr (inr (destructor f, refl, refl))

Usable-invalid : (s : Slot) → Usable s → is_invalid (some s) ≡ false
Usable-invalid invalid u = ground arith
Usable-invalid absent u = refl
Usable-invalid (destructor f) u = refl

get-Bounded : (ss : List Slot) (i : ℕ) (s : Slot) → get_elem? ss i ≡ some s → i < length ss
get-Bounded [] i s h = ground arith
get-Bounded (x ∷ ss) zero s h = ground arith
get-Bounded (x ∷ ss) (suc i) s h = let r = get-Bounded ss i s h in omega arith

get_none-Past : (ss : List Slot) (i : ℕ) → get_elem? ss i ≡ none → length ss ≤ i
get_none-Past [] i h = ground arith
get_none-Past (x ∷ xs) zero h = ground arith
get_none-Past (x ∷ xs) (suc i) h = let r = get_none-Past xs i h in omega arith

-- Deleting a key of the table.
key_delete-Used :
    (k : KeyTable) (key : ℕ) (s : Slot)
    → Inv k
    → get_elem? k.slots key ≡ some s
    → Usable s
    → (k' : KeyTable) × (key_delete k key ≡ (success, k'))
      × Inv k'
      × (get_elem? k'.slots key ≡ some invalid)
      × ((j : ℕ) → (key == j) ≡ false → get_elem? k'.slots j ≡ get_elem? k.slots j)
      × (key_delete k' key ≡ (einval, k'))
key_delete-Used k key s v g u =
    let b = get-Bounded k.slots key s g in
    let c = count_invalid-set_slot k.slots key invalid s g in
    let len = length-set_slot k.slots key invalid in
    let used = Usable-invalid s u in
    let same = set_slot_same k.slots key invalid b in
    (
      record k { slots = set_slot k.slots key invalid; invalid_count = k.invalid_count + 1 },
      ground arith,
      record {
        fits = ground (arith, v.fits);
        counted = ground (arith, v.counted);
        starts = ground (arith, v.starts);
      },
      same,
      (λ j h. set_slot_other k.slots key j invalid h),
      ground arith,
    )

-- `pthread_key_delete` on a well-formed table: EINVAL, with the table unchanged, if the key is out
-- of range or its element is invalid; or else the table stays well formed, the element is invalid,
-- the others are as they were, and `pthread_key_delete` of the same key now fails.
pub key_delete-Inv :
    (k : KeyTable) (key : ℕ)
    → Inv k
    → ((key_delete k key ≡ (einval, k))
        × ((get_elem? k.slots key ≡ none) ⊎ (get_elem? k.slots key ≡ some invalid)))
      ⊎ ((k' : KeyTable) × (key_delete k key ≡ (success, k'))
          × Inv k'
          × (get_elem? k'.slots key ≡ some invalid)
          × ((j : ℕ) → (key == j) ≡ false → get_elem? k'.slots j ≡ get_elem? k.slots j)
          × (key_delete k' key ≡ (einval, k')))
key_delete-Inv k key v = elim (get-cases (get_elem? k.slots key)) [
  | inl e ↦ let past = get_none-Past k.slots key e in inl (ground arith, inl e)
  | inr (inl e) ↦ inl (ground arith, inr e)
  | inr (inr (s, e, u)) ↦ inr (key_delete-Used k key s v e u)
]
