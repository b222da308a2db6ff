-- ===== src/Keys/Fresh.antt =====
-- What a thread reads under a key: the value that it stored last, and null under a key that has
-- just been created.
use libpthread.Base.{
  ℕ, ◌≡◌, refl, inl, inr, Bool-cases, Bool, true, false, ◌==◌, ◌||◌, Option, none, some, List, [],
  ◌∷◌, update, arith,
}
use libpthread.Keys.Values.{Ihash, Values, find_in, key_unused, remove_in, remove_all}

-- A thread stands in the table of threads.
abbrev pub listed : ℕ → List (Option ℕ) → Bool
listed t [] = false
listed t (none ∷ ts) = listed t ts
listed t (some u ∷ ts) = u == t || listed t ts

module _ (H : Type 0) (hash : Ihash H) where
  remove_in_same : (o : Option H) (key : ℕ) → find_in H hash (remove_in H hash o key) key ≡ 0
  remove_in_same none key = refl
  remove_in_same (some h) key = hash.find-remove h key

  remove_in_other :
      (o : Option H) (key j : ℕ)
      → (key == j) ≡ false
      → find_in H hash (remove_in H hash o key) j ≡ find_in H hash o j
  remove_in_other none key j n = refl
  remove_in_other (some h) key j n = hash.find-remove_other h key j n

  pub remove_all_other :
      (ts : List (Option ℕ)) (key j t : ℕ) (f : ℕ → Option H)
      → (key == j) ≡ false
      → find_in H hash (remove_all H hash ts key f t) j ≡ find_in H hash (f t) j
  remove_all_other [] key j t f n = refl
  remove_all_other (none ∷ ts) key j t f n = remove_all_other ts key j t f n
  remove_all_other (some u ∷ ts) key j t f n =
      let g = update f u (remove_in H hash (f u) key) in
      let r = remove_all_other ts key j t g n in
      let s = remove_in_other (f u) key j n in
      elim (Bool-cases (u == t)) [ inl e ↦ ground (arith, r, s) | inr e ↦ ground (arith, r) ]

  remove_all_kept :
      (ts : List (Option ℕ)) (key t : ℕ) (f : ℕ → Option H)
      → find_in H hash (f t) key ≡ 0
      → find_in H hash (remove_all H hash ts key f t) key ≡ 0
  remove_all_kept [] key t f z = z
  remove_all_kept (none ∷ ts) key t f z = remove_all_kept ts key t f z
  remove_all_kept (some u ∷ ts) key t f z =
      let g = update f u (remove_in H hash (f u) key) in
      remove_all_kept ts key t g
        (elim (Bool-cases (u == t)) [ inl e ↦ rw e (remove_in_same (f u) key) | inr e ↦ rw e z ])

  pub remove_all-listed :
      (ts : List (Option ℕ)) (key t : ℕ) (f : ℕ → Option H)
      → listed t ts ≡ true
      → find_in H hash (remove_all H hash ts key f t) key ≡ 0
  remove_all-listed [] key t f l = ground arith
  remove_all-listed (none ∷ ts) key t f l = remove_all-listed ts key t f l
  remove_all-listed (some u ∷ ts) key t f l =
      let g = update f u (remove_in H hash (f u) key) in
      elim (Bool-cases (u == t)) [
        | inl e ↦ remove_all_kept ts key t g (rw e (remove_in_same (f u) key))
        | inr e ↦ remove_all-listed ts key t g (ground arith)
      ]

  -- No thread of the table has a value under a key that is not in use.
  unfoldable pub Clean : Values H → Type 0
  Clean v =
      (t key : ℕ)
      → listed t v.threads ≡ true
      → key_unused v.keys key ≡ true
      → find_in H hash (v.specifics t) key ≡ 0

  -- The table with the value, and the one before it that reads as the thread's does.
  Stores : Values H → Values H → ℕ → ℕ → ℕ → Type 0
  Stores v v' self key value =
      (h h' : H) × (key_unused v.keys key ≡ false)
      × ((j : ℕ) → hash.find h j ≡ find_in H hash (v.specifics self) j)
      × (hash.add h key value ≡ some h')
      × (v'.keys ≡ v.keys)
      × (v'.threads ≡ v.threads)
      × (v'.specifics self ≡ some h')
      × ((t : ℕ) → (self == t) ≡ false → v'.specifics t ≡ v.specifics t)

  pub Clean-update :
      (v : Values H) (self : ℕ) (o : Option H)
      → Clean v
      → ((j : ℕ) → key_unused v.keys j ≡ true → find_in H hash o j ≡ 0)
      → Clean (record v { specifics = update v.specifics self o })
  unfolding Clean
  Clean-update v self o c z t j l u = elim (Bool-cases (self == t)) [
    | inl e ↦ rw e (z j u)
    | inr e ↦ rw e (c t j l u)
  ]
