-- ===== src/Keys/Destroy.antt =====
-- The destructors of thread-specific data: sysdeps/hurd/pt-destroy-specific.c. What a destructor does
-- to the keys and the values of threads is an argument.
pub mod Passes
pub mod Each
use libpthread.Base.{
  ℕ, zero, suc, ◌+◌, Bool, true, false, not, ltb, ◌==◌, if◌then◌else◌, Option, none, some, List, [],
  ◌∷◌, ◌++◌, get_elem?, update,
}
use libpthread.Keys.{Slot, invalid, absent, destructor, KeyTable, key_count}
use libpthread.Keys.Values.{Ihash, Values, find_in}

-- A destructor that is called for a key, with the value that the thread has kept.
pub record Call : Type 0 where
  pub key : ℕ
  pub function : ℕ
  pub value : ℕ

abbrev pub with_call :
    {H : Type 0} → Option Call → Option (List Call × Values H) → Option (List Call × Values H)
with_call (some c) (some (cs, v)) = some (c ∷ cs, v)
with_call o r = r

module _ (H : Type 0) (hash : Ihash H) (run : Call → Values H → Values H) (self : ℕ) where
  abbrev pub removed : ℕ → Option H → Option H
  removed i none = none
  removed i (some h) = some (hash.remove h i)

  abbrev pub remove_value : Values H → ℕ → Values H
  remove_value v i = record v { specifics = update v.specifics self (removed i (v.specifics self)) }

  -- The body of the loop over the keys, by the element of the array: the call, if any, and the values.
  abbrev pub visit_slot : Values H → ℕ → Option Slot → ℕ → Option Call × Values H
  visit_slot v i none value = (none, v)
  visit_slot v i (some invalid) value = (none, v)
  visit_slot v i (some absent) value = if value == 0 then (none, v) else (none, remove_value v i)
  visit_slot v i (some (destructor f)) value =
      let c : Call = record { key = i; function = f; value = value } in
      if value == 0 then (none, v) else (some c, run c (remove_value v i))

  abbrev pub visit : Values H → ℕ → Option Call × Values H
  visit v i = visit_slot v i (get_elem? v.keys.slots i) (find_in H hash (v.specifics self) i)

  -- The loop over the keys, from an index on: the calls in order, and the values. The fuel bounds its
  -- rounds; none is a loop that has not ended by then.
  unfoldable pub destroy_pass : ℕ → Values H → ℕ → Option (List Call × Values H)
  destroy_pass zero v i = if ltb i (key_count v.keys) then none else some ([], v)
  destroy_pass (suc fuel) v i =
      let rest = destroy_pass fuel (visit v i).1 (suc i) in
      if ltb i (key_count v.keys) then with_call (visit v i).0 rest else some ([], v)

  -- The table of the thread is freed.
  abbrev pub freed : Values H → Values H
  freed v = record v { specifics = update v.specifics self none }

  -- What follows a pass: the end, if it has called no destructor, or else more passes.
  abbrev pub after_pass :
      Option (List Call × Values H)
      → (Values H → Option (List Call × Values H))
      → Option (List Call × Values H)
  after_pass none again = none
  after_pass (some ([], v)) again = some ([], freed v)
  after_pass (some (c ∷ cs, v)) again = elim (again v) [
    | none ↦ none
    | some (ds, w) ↦ some (c ∷ cs ++ ds, w)
  ]

  -- The outer loop. The fuels bound the passes, and the rounds of each.
  unfoldable pub destroy_loop : ℕ → ℕ → Values H → Option (List Call × Values H)
  unfolding destroy_pass
  destroy_loop zero rounds v = none
  destroy_loop (suc passes) rounds v =
      after_pass (destroy_pass rounds v 0) (λ w. destroy_loop passes rounds w)

  -- `__pthread_destroy_specific`
  abbrev pub has_table : Option H → Bool
  has_table none = false
  has_table (some h) = true

  unfoldable pub destroy_specific : ℕ → ℕ → Values H → Option (List Call × Values H)
  unfolding destroy_loop
  destroy_specific passes rounds v =
      if has_table (v.specifics self) then destroy_loop passes rounds v else some ([], v)
