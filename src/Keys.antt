-- ===== src/Keys.antt =====
-- Thread-specific keys: sysdeps/hurd/pt-key.h, pt-key-create.c and pt-key-delete.c, each call as it
-- runs under the key lock; what a thread keeps under a key is in Keys/Values.
pub mod Slots
pub mod Table
pub mod Values
pub mod Fresh
pub mod Clean
pub mod Runs
pub mod Destroy
mod Tests
use libpthread.Base.{
  ℕ, zero, suc, ◌+◌, ◌-◌, ◌*◌, ◌/◌, Bool, true, false, ltb, leb, ◌==◌, ◌&&◌, ◌||◌, if◌then◌else◌,
  Option, none, some, List, [], ◌∷◌, ◌++◌, Errno, success, einval, enomem, length, get_elem?,
}

-- An element of the array of destructors: PTHREAD_KEY_INVALID, null, or a function.
pub data Slot : Type 0 where
  invalid absent : Slot
  destructor : ℕ → Slot

-- The variables of pt-key-create.c, with the static `index` of `pthread_key_create`. `slots` are the
-- elements of the array up to `__pthread_key_count`, which is their number.
pub record KeyTable : Type 0 where
  pub slots : List Slot
  pub size : ℕ
  pub invalid_count : ℕ
  pub index : ℕ

abbrev pub key_count : KeyTable → ℕ
key_count k = length k.slots

abbrev pub no_keys : KeyTable
no_keys = record { slots = []; size = 0; invalid_count = 0; index = 0 }

abbrev pub is_invalid : Option Slot → Bool
is_invalid (some invalid) = true
is_invalid _ = false

abbrev pub set_slot : List Slot → ℕ → Slot → List Slot
set_slot [] i d = []
set_slot (s ∷ ss) zero d = d ∷ ss
set_slot (s ∷ ss) (suc i) d = s ∷ set_slot ss i d

-- The first invalid element of a list whose first index is `i`, or the index past its end.
abbrev pub first_invalid : List Slot → ℕ → ℕ
first_invalid [] i = i
first_invalid (invalid ∷ ss) i = i
first_invalid (s ∷ ss) i = first_invalid ss (suc i)

abbrev pub rest_of : List Slot → ℕ → List Slot
rest_of ss zero = ss
rest_of [] (suc i) = []
rest_of (s ∷ ss) (suc i) = rest_of ss i

-- The loop of `do_search`: from `index` to a free element or to the end of the array.
abbrev pub search_from : List Slot → ℕ → ℕ
search_from ss i = if ltb i (length ss) then first_invalid (rest_of ss i) i else i

-- How `pthread_key_create` ends: with a key, with an error, at an assertion, or searching still.
pub data Created : Type 0 where
  created : ℕ → KeyTable → Created
  fails : Errno → KeyTable → Created
  aborts searches : Created

-- A free element has been found at the index.
abbrev pub reuse_slot : KeyTable → ℕ → Slot → Created
reuse_slot k i d =
    if is_invalid (get_elem? k.slots i) && ltb 0 k.invalid_count
    then created i (record {
      slots = set_slot k.slots i d;
      size = k.size;
      invalid_count = k.invalid_count - 1;
      index = i + 1;
    })
    else aborts

abbrev pub new_size : ℕ → ℕ
new_size n = if n == 0 then 8 else n * 2

-- The array has a new element at its end, after it is resized if it is full; `allocates` tells
-- whether `realloc` succeeds.
abbrev pub append_slot : Bool → KeyTable → ℕ → Slot → Created
append_slot allocates k i d =
    if k.size == key_count k
    then (if allocates
        then created i (record {
          slots = k.slots ++ d ∷ [];
          size = new_size k.size;
          invalid_count = k.invalid_count;
          index = i + 1;
        })
        else fails enomem (record k { index = i }))
    else created i (record {
      slots = k.slots ++ d ∷ [];
      size = k.size;
      invalid_count = k.invalid_count;
      index = i + 1;
    })

-- It is worth looking for a free element from the start again.
abbrev pub worth_search : KeyTable → Bool
worth_search k = k.size == key_count k && ltb 4 k.invalid_count && ltb (k.size / 8) k.invalid_count

-- `pthread_key_create` from `do_search` on. The fuel bounds the number of searches.
unfoldable pub key_create_from : ℕ → Bool → KeyTable → Slot → Created
key_create_from zero allocates k d = searches
key_create_from (suc fuel) allocates k d =
    let i = search_from k.slots k.index in
    let again = key_create_from fuel allocates (record k { index = 0 }) d in
    if ltb i (key_count k)
    then reuse_slot k i d
    else if i == key_count k
    then (if worth_search k then again else append_slot allocates k i d)
    else aborts

abbrev pub key_create : Bool → KeyTable → Slot → Created
key_create allocates k d = key_create_from 2 allocates k d

-- `pthread_key_delete`, what it does to the array; a negative key, which is EINVAL, is left out.
abbrev pub key_delete : KeyTable → ℕ → Errno × KeyTable
key_delete k key =
    if leb (key_count k) key || is_invalid (get_elem? k.slots key) then (einval, k) else (
      success,
      record k { slots = set_slot k.slots key invalid; invalid_count = k.invalid_count + 1 },
    )
