-- ===== src/Keys/Destroy/Passes.antt =====
-- What a pass over the keys does, where the destructors leave the keys and the values of the thread
-- alone.
use libpthread.Base.{
  ℕ, zero, suc, ◌+◌, ◌≡◌, ◌≤◌, ◌<◌, refl, ap, ◌∙◌, subst, Bool, true, false, ltb, ◌==◌,
  if◌then◌else◌, Option, none, some, List, [], ◌∷◌, ◌++◌, get_elem?, arith, ==→eq, Bool-cases, inl,
  inr,
}
use libpthread.Keys.{Slot, invalid, absent, destructor, key_count}
use libpthread.Keys.Slots.{get_past}
use libpthread.Keys.Values.{Ihash, Values}
use libpthread.Keys.Destroy.{Call, remove_value, visit_slot, visit, with_call, destroy_pass}

below : (i n : ℕ) → i < n → ltb i n ≡ true
below i n h = ground arith

not_below : (i n : ℕ) → n ≤ i → ltb i n ≡ false
not_below i n h = ground arith

-- The call for an element of the array and a value, if there is one.
abbrev pub call_for : Option Slot → ℕ → ℕ → List Call
call_for (some (destructor f)) i value =
    if value == 0 then [] else record { key = i; function = f; value = value } ∷ []
call_for s i value = []

abbrev pub has_destructor : Option Slot → Bool
has_destructor (some (destructor f)) = true
has_destructor s = false

abbrev list_of : Option Call → List Call
list_of none = []
list_of (some c) = c ∷ []

module _ (H : Type 0) (hash : Ihash H) where
  -- The calls for `n` keys from an index on, in the order of the keys.
  unfoldable pub due_calls : ℕ → List Slot → H → ℕ → List Call
  due_calls zero slots h i = []
  due_calls (suc n) slots h i =
      call_for (get_elem? slots i) i (hash.find h i) ++ due_calls n slots h (suc i)

  pub due_calls-nil :
      (n : ℕ) (slots : List Slot) (h : H) (i : ℕ)
      → ((j : ℕ) → i ≤ j → has_destructor (get_elem? slots j) ≡ true → hash.find h j ≡ 0)
      → due_calls n slots h i ≡ []
  unfolding due_calls
  due_calls-nil zero slots h i z = refl
  due_calls-nil (suc n) slots h i z =
      let rest = due_calls-nil n slots h (suc i) (λ j l. z j (omega (arith, l))) in
      ground (arith, rest, z i)

  due_calls-agree :
      (n : ℕ) (slots : List Slot) (h h' : H) (i : ℕ)
      → ((j : ℕ) → i ≤ j → hash.find h' j ≡ hash.find h j)
      → due_calls n slots h' i ≡ due_calls n slots h i
  unfolding due_calls
  due_calls-agree zero slots h h' i e = refl
  due_calls-agree (suc n) slots h h' i e =
      rw (e i (omega arith), due_calls-agree n slots h h' (suc i) (λ j l. e j (omega (arith, l))))
        refl

  with_call-some :
      (o : Option Call) (cs : List Call) (w : Values H)
      → with_call o (some (cs, w)) ≡ some (list_of o ++ cs, w)
  with_call-some none cs w = refl
  with_call-some (some c) cs w = refl

  module _ (run : Call → Values H → Values H) (self : ℕ)
      (quiet : (c : Call) (v : Values H)
        → ((run c v).keys ≡ v.keys) × ((run c v).specifics self ≡ v.specifics self)) where
    -- What a round does to a thread with a table.
    record Visited (v : Values H) (i : ℕ) (h : H) (s : Option Slot) (r : Option Call × Values H)
        : Type 0 where
      h' : H
      calls : list_of r.0 ≡ call_for s i (hash.find h i)
      keys : r.1.keys ≡ v.keys
      specifics : r.1.specifics self ≡ some h'
      others : (j : ℕ) → (i == j) ≡ false → hash.find h' j ≡ hash.find h j
      gone : has_destructor s ≡ true → hash.find h' i ≡ 0

    visit_slot-Visited :
        (v : Values H) (i : ℕ) (h : H) (s : Option Slot)
        → v.specifics self ≡ some h
        → Visited v i h s (visit_slot H hash run self v i s (hash.find h i))
    visit_slot-Visited v i h none e = record {
      h' = h;
      calls = refl;
      keys = refl;
      specifics = e;
      others = λ j n. refl;
      gone = λ d. cc;
    }
    visit_slot-Visited v i h (some invalid) e = record {
      h' = h;
      calls = refl;
      keys = refl;
      specifics = e;
      others = λ j n. refl;
      gone = λ d. cc;
    }
    visit_slot-Visited v i h (some absent) e = elim (Bool-cases (hash.find h i == 0)) [
      | inl z ↦ rw z (record {
        h' = h;
        calls = refl;
        keys = refl;
        specifics = e;
        others = λ j n. refl;
        gone = λ d. cc;
      })
      | inr z ↦ rw z (record {
        h' = hash.remove h i;
        calls = refl;
        keys = refl;
        specifics = ground arith;
        others = λ j n. hash.find-remove_other h i j n;
        gone = λ d. cc;
      })
    ]
    visit_slot-Visited v i h (some (destructor f)) e = elim (Bool-cases (hash.find h i == 0)) [
      | inl z ↦ record {
        h' = h;
        calls = rw z refl;
        keys = rw z refl;
        specifics = rw z e;
        others = λ j n. refl;
        gone = λ d. ground arith;
      }
      | inr z ↦
          let q =
            quiet (record { key = i; function = f; value = hash.find h i })
              (remove_value H hash run self v i) in
          record {
            h' = hash.remove h i;
            calls = rw z refl;
            keys = rw z q.0;
            specifics = rw z (q.1 ∙ ground arith);
            others = λ j n. hash.find-remove_other h i j n;
            gone = λ d. hash.find-remove h i;
          }
    ]

    visit-Visited :
        (v : Values H) (i : ℕ) (h : H)
        → v.specifics self ≡ some h
        → Visited v i h (get_elem? v.keys.slots i) (visit H hash run self v i)
    visit-Visited v i h e = rw e (visit_slot-Visited v i h (get_elem? v.keys.slots i) e)

    -- What the loop over the keys does from an index on.
    pub record Passed (v : Values H) (i n : ℕ) (h : H) (r : Option (List Call × Values H))
        : Type 0 where
      pub w : Values H
      pub h' : H
      pub result : r ≡ some (due_calls n v.keys.slots h i, w)
      pub keys : w.keys ≡ v.keys
      pub specifics : w.specifics self ≡ some h'
      pub others : (j : ℕ) → j < i → hash.find h' j ≡ hash.find h j
      pub gone :
          (j : ℕ) → i ≤ j → has_destructor (get_elem? v.keys.slots j) ≡ true → hash.find h' j ≡ 0

    joined :
        (v : Values H) (i n : ℕ) (h : H) (r : Option Call × Values H) {w : Values H}
        (s : Visited v i h (get_elem? v.keys.slots i) r)
        → with_call r.0 (some (due_calls n r.1.keys.slots s.h' (suc i), w))
          ≡ some (due_calls (suc n) v.keys.slots h i, w)
    unfolding due_calls
    joined v i n h r {w} s =
        with_call-some r.0 (due_calls n r.1.keys.slots s.h' (suc i)) w
        ∙ ap (λ (cs : List Call). some (cs, w))
            (rw
              (
                s.calls,
                s.keys,
                due_calls-agree n v.keys.slots h s.h' (suc i) (λ j b. s.others j (ground arith)),
              )
              refl)

    pub pass-Passed :
        (n : ℕ) (v : Values H) (i : ℕ) (h : H)
        → v.specifics self ≡ some h
        → i + n ≡ key_count v.keys
        → Passed v i n h (destroy_pass H hash run self n v i)
    unfolding destroy_pass due_calls
    pass-Passed zero v i h e l = record {
      w = v;
      h' = h;
      result = rw (not_below i (key_count v.keys) (ground arith)) refl;
      keys = refl;
      specifics = e;
      others = λ j b. refl;
      gone = λ j b d. let past = get_past v.keys.slots j (omega (arith, l, b)) in ground arith;
    }
    pass-Passed (suc n) v i h e l =
        let s = visit-Visited v i h e in
        let r = visit H hash run self v i in
        let p = pass-Passed n r.1 (suc i) s.h' s.specifics (rw s.keys (omega (arith, l))) in
        record {
          w = p.w;
          h' = p.h';
          result =
              rw (below i (key_count v.keys) (omega (arith, l)), p.result) (joined v i n h r s);
          keys = p.keys ∙ s.keys;
          specifics = p.specifics;
          others = λ j b. p.others j (omega (arith, b)) ∙ s.others j (ground arith);
          gone = λ j b d. elim (Bool-cases (i == j)) [
            | inl q ↦
                let k : i ≡ j = ==→eq i j q in
                p.others j (omega (arith, k))
                ∙ subst (λ x. hash.find s.h' x ≡ 0) k (s.gone (rw k d))
            | inr q ↦ p.gone j (ground arith) (rw s.keys d)
          ];
        }
