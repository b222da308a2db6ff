-- ===== src/Keys/Destroy/Each.antt =====
-- Where the destructors leave the keys and the values of the thread alone, each value under a key with
-- a destructor is passed to it once.
use libpthread.Base.{
  ℕ, suc, ◌≡◌, refl, ap, ◌∙◌, subst, true, Option, none, some, List, [], ◌∷◌, ◌++◌, get_elem?,
  arith,
}
use libpthread.Keys.{KeyTable, key_count}
use libpthread.Keys.Values.{Ihash, Values}
use libpthread.Keys.Destroy.{Call, freed, after_pass, destroy_loop, destroy_specific}
use libpthread.Keys.Destroy.Passes.{due_calls, due_calls-nil, has_destructor, pass-Passed}

append_none : (cs : List Call) → cs ++ [] ≡ cs
append_none [] = refl
append_none (c ∷ cs) = ap (λ (xs : List Call). c ∷ xs) (append_none cs)

module _ (H : Type 0) (hash : Ihash H) where
  module _ (run : Call → Values H → Values H) (self : ℕ)
      (quiet : (c : Call) (v : Values H)
        → ((run c v).keys ≡ v.keys) × ((run c v).specifics self ≡ v.specifics self)) where
    -- What the call comes to.
    record Destroyed (v : Values H) (cs : List Call) (r : Option (List Call × Values H))
        : Type 0 where
      w : Values H
      result : r ≡ some (cs, w)
      specifics : w.specifics self ≡ none
      keys : w.keys ≡ v.keys

    -- A pass over a table that has no value under a key with a destructor is the last one.
    last_pass :
        (passes : ℕ) (v : Values H) (h : H)
        → v.specifics self ≡ some h
        → ((j : ℕ) → has_destructor (get_elem? v.keys.slots j) ≡ true → hash.find h j ≡ 0)
        → Destroyed v [] (destroy_loop H hash run self (suc passes) (key_count v.keys) v)
    unfolding destroy_loop
    last_pass passes v h e z =
        let p = pass-Passed H hash run self quiet (key_count v.keys) v 0 h e (omega arith) in
        let d = due_calls-nil H hash (key_count v.keys) v.keys.slots h 0 (λ j _. z j) in
        record {
          w = freed H hash run self p.w;
          result = rw (p.result, d) refl;
          specifics = ground arith;
          keys = p.keys;
        }

    after-Destroyed :
        (v : Values H) (cs : List Call) (p : Values H)
        (again : Values H → Option (List Call × Values H))
        → p.keys ≡ v.keys
        → Destroyed p [] (again p)
        → Destroyed v cs (after_pass H hash run self (some (cs, p)) again)
    after-Destroyed v [] p again k d = record {
      w = freed H hash run self p;
      result = refl;
      specifics = ground arith;
      keys = k;
    }
    after-Destroyed v (c ∷ cs) p again k d = record {
      w = d.w;
      result =
          rw (after_pass, d.result)
            (ap (λ (xs : List Call). some (xs, d.w)) (append_none (c ∷ cs)));
      specifics = d.specifics;
      keys = d.keys ∙ k;
    }

    loop-Destroyed :
        (v : Values H) (h : H)
        → v.specifics self ≡ some h
        → Destroyed v
            (due_calls H hash (key_count v.keys) v.keys.slots h 0)
            (destroy_loop H hash run self 2 (key_count v.keys) v)
    unfolding destroy_loop
    loop-Destroyed v h e =
        let p = pass-Passed H hash run self quiet (key_count v.keys) v 0 h e (omega arith) in
        let k : key_count p.w.keys ≡ key_count v.keys = ap (λ (t : KeyTable). key_count t) p.keys in
        let last = last_pass 0 p.w p.h' p.specifics (λ j d.
          p.gone j (omega arith)
            (subst (λ (t : KeyTable). has_destructor (get_elem? t.slots j) ≡ true) p.keys d)) in
        rw p.result (
          after-Destroyed v (due_calls H hash (key_count v.keys) v.keys.slots h 0) p.w
            (λ w. destroy_loop H hash run self 1 (key_count v.keys) w) p.keys
            (subst (λ n. Destroyed p.w [] (destroy_loop H hash run self 1 n p.w)) k last))

    -- For a thread with a table, where the destructors leave the keys and the values of the thread alone:
    -- the call ends within two passes. Each value under a key with a destructor is passed to that
    -- destructor once, in the order of the keys; then the table is freed, and the keys are as before.
    pub destroy_specific-due_calls :
        (v : Values H) (h : H)
        → v.specifics self ≡ some h
        → (w : Values H) × (destroy_specific H hash run self 2 (key_count v.keys) v
            ≡ some (due_calls H hash (key_count v.keys) v.keys.slots h 0, w))
          × (w.specifics self ≡ none)
          × (w.keys ≡ v.keys)
    unfolding destroy_specific
    destroy_specific-due_calls v h e =
        let d = loop-Destroyed v h e in (d.w, rw e d.result, d.specifics, d.keys)
