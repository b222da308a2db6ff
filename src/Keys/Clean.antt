-- ===== src/Keys/Clean.antt =====
-- Under a key that is not in use, no thread of the table keeps a value: every call keeps it so.
use libpthread.Base.{
  ℕ, zero, suc, ◌≡◌, refl, subst, inl, inr, Bool-cases, Option-cases, Bool, true, false, ◌==◌, leb,
  ◌||◌, Option, none, some, List, [], ◌∷◌, get_elem?, length, update, arith,
}
use libpthread.Keys.{Slot, invalid, absent, destructor, KeyTable, key_create, created, is_invalid}
use libpthread.Keys.Table.{Inv, Usable, CreatesFrom, key_create-Creates, key_delete-Inv}
use libpthread.Keys.Values.{
  Ihash, Values, find_in, key_unused, getspecific, setspecific, delete_key, add_value, remove_all,
}
use libpthread.Keys.Fresh.{listed, Clean, Clean-update, remove_all-listed, remove_all_other}

abbrev slot_unused : Option Slot → Bool
slot_unused none = true
slot_unused (some s) = is_invalid (some s)

-- Whether a key is in use can be read off its element.
unused_slot :
    (ss : List Slot) (j : ℕ)
    → leb (length ss) j || is_invalid (get_elem? ss j) ≡ slot_unused (get_elem? ss j)
unused_slot [] zero = ground arith
unused_slot [] (suc j) = ground arith
unused_slot (s ∷ ss) zero = ground arith
unused_slot (s ∷ ss) (suc j) = let r = unused_slot ss j in ground (arith, r)

key_unused_same :
    (k k' : KeyTable) (j : ℕ)
    → get_elem? k'.slots j ≡ get_elem? k.slots j
    → key_unused k j ≡ key_unused k' j
key_unused_same k k' j e = rw (unused_slot k.slots j, unused_slot k'.slots j, e) refl

Usable-used : (d : Slot) → Usable d → slot_unused (some d) ≡ false
Usable-used invalid u = ground arith
Usable-used absent u = refl
Usable-used (destructor f) u = refl

used :
    (k : KeyTable) (key : ℕ) (d : Slot)
    → get_elem? k.slots key ≡ some d
    → Usable d
    → key_unused k key ≡ false
used k key d g u = rw (unused_slot k.slots key, g) (Usable-used d u)

module _ (H : Type 0) (hash : Ihash H) where
  add_value-Clean :
      (v : Values H) (self : ℕ) (h : H) (key value : ℕ)
      → Clean H hash v
      → key_unused v.keys key ≡ false
      → ((j : ℕ) → key_unused v.keys j ≡ true → hash.find h j ≡ 0)
      → Clean H hash (add_value H hash v self h key value).1
  add_value-Clean v self h key value c u z = elim (Option-cases (hash.add h key value)) [
    | inl n ↦ rw n c
    | inr (h', s) ↦ rw s (
        Clean-update H hash v self (some h') c (λ j w. elim (Bool-cases (key == j)) [
          | inl e ↦ ground arith
          | inr e ↦ rw (hash.find-add_other h h' key value j s e) (z j w)
        ]))
  ]

  -- If no thread of the table keeps a value under a key that is not in use, then none does after a
  -- thread of the table has stored a value, or has failed to.
  pub setspecific-Clean :
      (allocates : Bool) (v : Values H) (self key value : ℕ)
      → listed self v.threads ≡ true
      → Clean H hash v
      → Clean H hash (setspecific H hash allocates v self key value).1
  unfolding Clean
  setspecific-Clean allocates v self key value l c = elim (Bool-cases (key_unused v.keys key)) [
    | inl u ↦ rw u c
    | inr u ↦ elim (Option-cases (v.specifics self)) [
      | inl n ↦ elim (Bool-cases allocates) [
        | inl a ↦
            let w = record v { specifics = update v.specifics self (some hash.empty) } in
            let cw = Clean-update H hash v self (some hash.empty) c (λ j _. hash.find-empty j) in
            rw (u, n, a)
              (add_value-Clean w self hash.empty key value cw u (λ j _. hash.find-empty j))
        | inr a ↦ rw (u, n, a) c
      ]
      | inr (h, s) ↦
          rw (u, s)
            (add_value-Clean v self h key value c u
              (λ j w. subst (λ o. find_in H hash o j ≡ 0) s (c self j l w)))
    ]
  ]

  -- If no thread of the table keeps a value under a key that is not in use, and the table of keys
  -- is well formed, then none does after a key has been deleted, the deleted key among those not in
  -- use, or could not be deleted.
  pub delete_key-Clean :
      (v : Values H) (key : ℕ)
      → Inv v.keys
      → Clean H hash v
      → Clean H hash (delete_key H hash v key).1
  unfolding Clean
  delete_key-Clean v key i c = elim (key_delete-Inv v.keys key i) [
    | inl (e, _) ↦ rw e c
    | inr (k, e, _, gone, others, _) ↦ rw e (λ t j l u. elim (Bool-cases (key == j)) [
      | inl s ↦
          let q : key ≡ j = ground arith in
          subst (λ x. find_in H hash (remove_all H hash v.threads key v.specifics t) x ≡ 0) q
            (remove_all-listed H hash v.threads key t v.specifics l)
      | inr n ↦
          rw (remove_all_other H hash v.threads key j t v.specifics n)
            (c t j l (rw (key_unused_same v.keys k j (others j n)) u))
    ])
  ]

  -- If no thread of the table keeps a value under a key that is not in use, and the table of keys
  -- is well formed: under a key that is then created, with a destructor that is not
  -- PTHREAD_KEY_INVALID, every thread of the table reads null, and still none keeps a value under a
  -- key that is not in use.
  pub key_create-Clean :
      (allocates : Bool) (v : Values H) (d : Slot) (key : ℕ) (k : KeyTable)
      → Inv v.keys
      → Usable d
      → Clean H hash v
      → key_create allocates v.keys d ≡ created key k
      → Inv k
        × Clean H hash (record v { keys = k })
        × ((t : ℕ)
            → listed t v.threads ≡ true
            → getspecific H hash (record v { keys = k }) t key ≡ 0)
  unfolding Clean CreatesFrom
  key_create-Clean allocates v d key k i u c e =
      let r : CreatesFrom allocates v.keys d (created key k) =
        subst (λ o. CreatesFrom allocates v.keys d o) e
          (key_create-Creates allocates v.keys d i u) in
      let others = r.3 in
      let free : key_unused v.keys key ≡ true = elim r.2 [
        | inl g ↦ rw (unused_slot v.keys.slots key, g) refl
        | inr g ↦ rw (unused_slot v.keys.slots key, g) refl
      ] in
      (
        r.0,
        (λ t j l w. elim (Bool-cases (key == j)) [
          | inl s ↦ ground (arith, used k key d r.1 u)
          | inr n ↦ c t j l (rw (key_unused_same v.keys k j (others j n)) w)
        ]),
        (λ t l. elim (Bool-cases (key_unused k key)) [
          | inl x ↦ rw x refl
          | inr x ↦ rw x (c t key l free)
        ]),
      )
