-- ===== src/Keys/Runs.antt =====
-- Threads that create keys, delete them, store values, come and go, in any order: the calls of
-- pt-key-create.c, pt-key-delete.c, pt-setspecific.c and pt-init-specific.c.
use libpthread.Base.{ℕ, ◌≡◌, Bool, true, ◌==◌, if◌then◌else◌, Option, none, some, List, [], ◌∷◌}
use libpthread.Keys.{Slot, KeyTable, no_keys, key_create, created}
use libpthread.Keys.Table.{Usable}
use libpthread.Keys.Values.{Ihash, Values, setspecific, delete_key, init_specific}
use libpthread.Keys.Fresh.{listed, Clean}

-- The table of threads when one has given up its entry.
abbrev pub vacate : ℕ → List (Option ℕ) → List (Option ℕ)
vacate t [] = []
vacate t (none ∷ ts) = none ∷ vacate t ts
vacate t (some u ∷ ts) = (if u == t then none else some u) ∷ vacate t ts

module _ (H : Type 0) (hash : Ihash H) where
  abbrev pub entered : Values H → ℕ → Values H
  entered v t = record (init_specific H hash v t) { threads = some t ∷ v.threads }

  -- The states that the calls lead to, from one with no keys: a key is created, or deleted, or that
  -- fails; a thread of the table stores a value, or fails to; a thread comes into the table, with its
  -- specific data initialized; or one leaves it.
  pub data Reach : Values H → Type 0 where
    start :
        (ts : List (Option ℕ))
        → Reach (record { keys = no_keys; threads = ts; specifics = λ _. none })
    creates :
        (v : Values H) (allocates : Bool) (d : Slot) (key : ℕ) (k : KeyTable)
        → Reach v
        → Usable d
        → key_create allocates v.keys d ≡ created key k
        → Reach (record v { keys = k })
    deletes : (v : Values H) (key : ℕ) → Reach v → Reach (delete_key H hash v key).1
    stores :
        (v : Values H) (allocates : Bool) (self key value : ℕ)
        → Reach v
        → listed self v.threads ≡ true
        → Reach (setspecific H hash allocates v self key value).1
    enters : (v : Values H) (t : ℕ) → Reach v → Reach (entered v t)
    leaves : (v : Values H) (t : ℕ) → Reach v → Reach (record v { threads = vacate t v.threads })
