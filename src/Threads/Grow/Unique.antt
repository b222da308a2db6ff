-- ===== src/Threads/Grow/Unique.antt =====
-- Identifiers are not given twice, and lie in the table, however many calls enlarge it at once.
use libpthread.Base.{
  ℕ, ◌≡◌, ◌≢◌, ◌≤◌, ◌<◌, refl, subst, Bool, true, false, ltb, ◌==◌, Option, none, some, arith,
  Bool-cases, inl, inr, ==→eq,
}
use libpthread.Threads.{larger}
use libpthread.Threads.Grow.{
  Pc, looks, failed, enlarges, has, Slots, goes_to, next_slot, look, enlarge, alloc_act, Reach,
  start, later,
}

-- The identifier of a thread, or 0
abbrev pub id_of : Pc → ℕ
id_of (has n) = n
id_of p = 0

-- The size that a thread has seen
abbrev seen : Pc → ℕ
seen (enlarges n) = n
seen p = 0

-- The thread has found the table full.
abbrev is_enlarging : Pc → Bool
is_enlarging (enlarges n) = true
is_enlarging p = false

pub record Inv (s : Slots) : Type 0 where
  pub fits : s.num_threads ≤ s.max_threads
  pub within : (i : ℕ) → id_of (s.pc i) ≤ s.num_threads
  pub distinct : (i j : ℕ) → (i == j) ≡ false → 0 < id_of (s.pc i) → id_of (s.pc i) ≢ id_of (s.pc j)
  pub saw : (i : ℕ) → seen (s.pc i) ≤ s.max_threads
  pub full : (i : ℕ) → is_enlarging (s.pc i) ≡ true → seen (s.pc i) ≤ s.num_threads

goes-Inv :
    (s : Slots) (i : ℕ) (p : Pc)
    → Inv s
    → id_of p ≡ 0
    → seen p ≤ s.max_threads
    → (is_enlarging p ≡ true → seen p ≤ s.num_threads)
    → Inv (goes_to s i p)
goes-Inv s i p v a b c = record {
  fits = v.fits;
  within = λ j. ground (arith, v.within j);
  distinct = λ j k n h. ground (arith, v.distinct j k);
  saw = λ j. ground (arith, v.saw j);
  full = λ j h. ground (arith, v.full j);
}

next-Inv :
    (s : Slots) (i m : ℕ)
    → Inv s
    → s.max_threads ≤ m
    → s.num_threads < m
    → Inv (record (next_slot s i) { max_threads = m })
next-Inv s i m v l h = record {
  fits = omega (arith, h);
  within = λ j. ground (arith, v.within j);
  distinct = λ j k n g. ground (arith, v.distinct j k, v.within j, v.within k);
  saw = λ j. ground (arith, v.saw j);
  full = λ j g. ground (arith, v.full j);
}

look-Inv : (s : Slots) (i : ℕ) → Inv s → s.pc i ≡ looks → Inv (look s i)
look-Inv s i v h = elim (Bool-cases (ltb s.num_threads s.max_threads)) [
  | inl e ↦ rw e (next-Inv s i s.max_threads v (omega arith) (ground arith))
  | inr e ↦ rw e (goes-Inv s i (enlarges s.max_threads) v refl (omega arith) (λ q. ground arith))
]

larger-lt : (n : ℕ) → n < larger n
larger-lt n = ground arith

enlarge-Inv :
    (s : Slots) (i : ℕ) (memory : Bool) (n : ℕ)
    → Inv s
    → s.pc i ≡ enlarges n
    → Inv (enlarge s i memory n)
enlarge-Inv s i false n v h = goes-Inv s i failed v refl (omega arith) (λ q. ground arith)
enlarge-Inv s i true n v h = elim (Bool-cases (n == s.max_threads)) [
  | inl e ↦
      let k : n ≡ s.max_threads = ==→eq n s.max_threads e in
      let f = v.fits in
      let m : s.num_threads < larger n = omega (arith, larger-lt n, k, f) in
      let l : s.max_threads ≤ larger n = omega (arith, larger-lt n, k) in
      rw e (next-Inv s i (larger n) v l m)
  | inr e ↦ rw e (goes-Inv s i looks v refl (omega arith) (λ q. ground arith))
]

AllInv : Option Slots → Type 0
AllInv none = Unit {0}
AllInv (some s) = Inv s

act-Inv :
    (s : Slots) (i : ℕ) (memory : Bool) (p : Pc)
    → Inv s
    → s.pc i ≡ p
    → AllInv (alloc_act s i memory p)
unfolding alloc_act AllInv
act-Inv s i memory looks v h = look-Inv s i v h
act-Inv s i memory (enlarges n) v h = enlarge-Inv s i memory n v h
act-Inv s i memory failed v h = tt
act-Inv s i memory (has n) v h = tt

pub Reach-Inv : {s : Slots} → Reach s → Inv s
unfolding AllInv
Reach-Inv start = record {
  fits = omega arith;
  within = λ i. omega arith;
  distinct = λ i j n h. absurd (omega (arith, h));
  saw = λ i. omega arith;
  full = λ i h. omega arith;
}
Reach-Inv (later {s} i m r h) = subst AllInv h (act-Inv s i m (s.pc i) (Reach-Inv r) refl)

retry_grown :
    (s : Slots) (i n : ℕ)
    → n ≤ s.max_threads
    → (enlarge s i true n).pc i ≡ looks
    → n < s.max_threads
retry_grown s i n l h = elim (Bool-cases (n == s.max_threads)) [
  | inl e ↦ absurd (ground arith)
  | inr e ↦ ground arith
]

-- In every state that the calls reach, with their sections in any order: no more slots are used than the
-- table has; each identifier that was given lies in the table, and no two calls have the same one; and a
-- call that has to start again, with memory for its larger table, does so only because another call has
-- enlarged the table in the meantime.
pub alloc_ids_unique :
    {s : Slots}
    → Reach s
    → (s.num_threads ≤ s.max_threads)
      × ((i : ℕ) → id_of (s.pc i) ≤ s.num_threads)
      × ((i j : ℕ) → (i == j) ≡ false → 0 < id_of (s.pc i) → id_of (s.pc i) ≢ id_of (s.pc j))
      × ((i n : ℕ) → s.pc i ≡ enlarges n → (enlarge s i true n).pc i ≡ looks → n < s.max_threads)
alloc_ids_unique {s} r =
    let v = Reach-Inv r in
    (v.fits, v.within, v.distinct, λ i n h l. retry_grown s i n (ground (arith, v.saw i)) l)
