-- ===== src/Keys/Tests.antt =====
-- The theorems on keys at concrete tables, with functions as the hash tables.
use libpthread.Base.{
  ℕ, ◌+◌, ◌≡◌, refl, true, false, ◌==◌, some, none, some_inj, [], ◌∷◌, enomem, subst, update, arith,
}
use libpthread.Keys.{
  invalid, absent, destructor, KeyTable, no_keys, created, fails, key_create, key_create_from,
}
use libpthread.Keys.Table.{Inv, CreatesFrom, key_create-Creates}
use libpthread.Keys.Values.{Ihash, Values, setspecific, delete_key}
use libpthread.Keys.Fresh.{Clean}
use libpthread.Keys.Destroy.{destroy_specific}
use libpthread.Keys.Destroy.Passes.{due_calls}
use libpthread.Keys.Destroy.Each.{destroy_specific-due_calls}

abbrev table : KeyTable
table = record {
  slots = destructor 7 ∷ invalid ∷ absent ∷ [];
  size = 8;
  invalid_count = 1;
  index = 2;
}

abbrev table-Inv : Inv table
table-Inv = record { fits = omega arith; counted = refl; starts = omega arith }

at_same : (h : ℕ → ℕ) (i v : ℕ) → update h i v i ≡ v
at_same h i v = ground arith

at_other : (h : ℕ → ℕ) (i j v : ℕ) → (i == j) ≡ false → update h i v j ≡ h j
at_other h i j v n = rw n refl

abbrev functions : Ihash (ℕ → ℕ)
functions = record {
  empty = λ _. 0;
  find = λ h i. h i;
  add = λ h i v. some (update h i v);
  remove = λ h i. update h i 0;
  find-empty = λ j. refl;
  find-add = λ h h' i v e. subst (λ f. f i ≡ v) (some_inj e) (at_same h i v);
  find-add_other = λ h h' i v j e n. subst (λ f. f j ≡ h j) (some_inj e) (at_other h i j v n);
  find-remove = λ h i. at_same h i 0;
  find-remove_other = λ h i j n. at_other h i j 0 n;
}

abbrev values : Values (ℕ → ℕ)
values = record { keys = table; threads = some 1 ∷ none ∷ some 2 ∷ []; specifics = λ _. none }

abbrev values-Clean : Clean (ℕ → ℕ) functions values
unfolding Clean
values-Clean t key l u = refl

key_create-Creates_example :
    CreatesFrom true table (destructor 9) (key_create true table (destructor 9))
key_create-Creates_example = key_create-Creates true table (destructor 9) table-Inv refl

abbrev after_set : Values (ℕ → ℕ)
after_set = record values {
  specifics = update (update values.specifics 1 (some (λ _. 0))) 1 (some (update (λ _. 0) 2 42));
}

abbrev next_table : KeyTable
next_table = record {
  slots = destructor 7 ∷ invalid ∷ absent ∷ destructor 9 ∷ [];
  size = 8;
  invalid_count = 1;
  index = 4;
}

create_3 : key_create true table (destructor 9) ≡ created 3 next_table
unfolding key_create_from
create_3 = refl

-- Thread 1 stores a value under key 0, which is deleted.
abbrev one_key : KeyTable
one_key = record { slots = absent ∷ []; size = 8; invalid_count = 0; index = 1 }

abbrev empty_values : Values (ℕ → ℕ)
empty_values = record { keys = no_keys; threads = some 1 ∷ []; specifics = λ _. none }

abbrev stored_values : Values (ℕ → ℕ)
stored_values =
    (setspecific (ℕ → ℕ) functions true (record empty_values { keys = one_key }) 1 0 42).1

abbrev deleted_values : Values (ℕ → ℕ)
deleted_values = (delete_key (ℕ → ℕ) functions stored_values 0).1

abbrev again_table : KeyTable
again_table = record { slots = invalid ∷ destructor 9 ∷ []; size = 8; invalid_count = 1; index = 2 }

create_no_memory : key_create false no_keys absent ≡ fails enomem no_keys
unfolding key_create_from
create_no_memory = refl

-- Thread 1 has values under the keys 0 and 2, of which the first one has a destructor.
abbrev kept : Values (ℕ → ℕ)
kept = record values { specifics = λ t. some (λ j. j + 5) }

due_calls-kept :
    due_calls (ℕ → ℕ) functions 3 table.slots (λ j. j + 5) 0
    ≡ record { key = 0; function = 7; value = 5 } ∷ []
unfolding due_calls
due_calls-kept = refl

destroy_specific-due_calls_example :
    (w : Values (ℕ → ℕ)) × (destroy_specific (ℕ → ℕ) functions (λ c v. v) 1 2 3 kept
      ≡ some (due_calls (ℕ → ℕ) functions 3 table.slots (λ j. j + 5) 0, w))
    × (w.specifics 1 ≡ none)
    × (w.keys ≡ table)
destroy_specific-due_calls_example =
    destroy_specific-due_calls (ℕ → ℕ) functions (λ c v. v) 1 (λ c v. (refl, refl)) kept
      (λ j. j + 5) refl
