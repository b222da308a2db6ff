-- ===== src/Keys/Values.antt =====
-- The values that threads keep under keys: sysdeps/hurd/pt-getspecific.c, pt-setspecific.c,
-- pt-init-specific.c and the loop of pt-key-delete.c, over the hash tables of libihash.
use libpthread.Base.{
  ℕ, ◌≡◌, Bool, false, leb, ◌==◌, ◌||◌, if◌then◌else◌, Option, none, some, List, [], ◌∷◌, Errno,
  success, einval, enomem, get_elem?, update,
}
use libpthread.Keys.{KeyTable, key_count, is_invalid, key_delete}

-- The tables of libihash, as its header documents them: `find` gives 0, the null pointer, for a key
-- that is not there; `add` replaces the value of a key, and fails if the memory is exhausted.
pub record Ihash (H : Type 0) : Type 0 where
  pub empty : H
  pub find : H → ℕ → ℕ
  pub add : H → ℕ → ℕ → Option H
  pub remove : H → ℕ → H
  pub find-empty : (j : ℕ) → find empty j ≡ 0
  pub find-add : (h h' : H) (i v : ℕ) → add h i v ≡ some h' → find h' i ≡ v
  pub find-add_other :
      (h h' : H) (i v j : ℕ) → add h i v ≡ some h' → (i == j) ≡ false → find h' j ≡ find h j
  pub find-remove : (h : H) (i : ℕ) → find (remove h i) i ≡ 0
  pub find-remove_other : (h : H) (i j : ℕ) → (i == j) ≡ false → find (remove h i) j ≡ find h j

-- The keys, the table of threads (none: a null entry) and the field `thread_specifics` of each.
pub record Values (H : Type 0) : Type 0 where
  pub keys : KeyTable
  pub threads : List (Option ℕ)
  pub specifics : ℕ → Option H

-- The test of the key in `pthread_getspecific` and `pthread_setspecific`
abbrev pub key_unused : KeyTable → ℕ → Bool
key_unused k key = leb (key_count k) key || is_invalid (get_elem? k.slots key)

module _ (H : Type 0) (hash : Ihash H) where
  abbrev pub find_in : Option H → ℕ → ℕ
  find_in none key = 0
  find_in (some h) key = hash.find h key

  abbrev pub init_specific : Values H → ℕ → Values H
  init_specific v self = record v { specifics = update v.specifics self none }

  abbrev pub getspecific : Values H → ℕ → ℕ → ℕ
  getspecific v self key = if key_unused v.keys key then 0 else find_in (v.specifics self) key

  abbrev pub stored : Values H → ℕ → Option H → Errno × Values H
  stored v self none = (enomem, v)
  stored v self (some h) = (success, record v { specifics = update v.specifics self (some h) })

  -- The thread has a table: its own, or a new one, which is kept if the value cannot be added.
  abbrev pub add_value : Values H → ℕ → H → ℕ → ℕ → Errno × Values H
  add_value v self h key value = stored v self (hash.add h key value)

  -- `pthread_setspecific`; `allocates` tells whether `hurd_ihash_create` succeeds.
  abbrev pub setspecific : Bool → Values H → ℕ → ℕ → ℕ → Errno × Values H
  setspecific allocates v self key value =
      if key_unused v.keys key then (einval, v) else elim (v.specifics self) [
        | some h ↦ add_value v self h key value
        | none ↦
            if allocates
            then add_value (record v { specifics = update v.specifics self (some hash.empty) }) self
                hash.empty key value
            else (enomem, v)
      ]

  abbrev pub remove_in : Option H → ℕ → Option H
  remove_in none key = none
  remove_in (some h) key = some (hash.remove h key)

  -- The loop of `pthread_key_delete` over the table of threads.
  abbrev pub remove_all : List (Option ℕ) → ℕ → (ℕ → Option H) → ℕ → Option H
  remove_all [] key f = f
  remove_all (none ∷ ts) key f = remove_all ts key f
  remove_all (some t ∷ ts) key f = remove_all ts key (update f t (remove_in (f t) key))

  abbrev pub deleted : Values H → ℕ → Errno × KeyTable → Errno × Values H
  deleted v key (success, k) =
      (success, record v { keys = k; specifics = remove_all v.threads key v.specifics })
  deleted v key (e, k) = (e, v)

  -- The whole of `pthread_key_delete`
  abbrev pub delete_key : Values H → ℕ → Errno × Values H
  delete_key v key = deleted v key (key_delete v.keys key)
