-- ===== src/Mutex/Init.antt =====
-- `pthread_mutex_init` and `pthread_mutex_destroy`: pt-mutex-init.c, pt-mutex-destroy.c.
use libpthread.Base.{
  ℕ, zero, suc, ◌≡◌, Bool, true, false, Option, none, some, [], Errno, success, enomem,
  if◌then◌else◌, arith,
}
use libpthread.Mutex.{
  Mutex, MutexAttr, MutexType, null, errorcheck_mark, recursive_mark, allocated, initializer,
  mutex_type, settype, attr_init, type_code,
}

-- `memcmp` of so many bytes of two objects, given whether the objects differ as a whole: of no
-- bytes it finds no difference.
abbrev pub memcmp_differs : ℕ → Bool → Bool
memcmp_differs zero differ = false
memcmp_differs (suc n) differ = differ

-- `sizeof (*attr) == 0` as an `int`
abbrev pub size_is_zero : ℕ
size_is_zero = 0

-- `*mutex->attr = *attr` after an allocation
abbrev pub copy_attr : MutexAttr → Bool → Mutex → Mutex × Errno
copy_attr a allocates m =
    if allocates then (record m { attr = allocated a }, success) else (m, enomem)

-- `differs`: the attributes are not the default ones. `allocates`: `malloc` succeeds.
pub mutex_init : Option MutexAttr → Bool → Bool → Mutex × Errno
mutex_init none differs allocates = (initializer null, success)
mutex_init (some a) differs allocates =
    if memcmp_differs size_is_zero differs
    then (initializer null, success)
    else copy_attr a allocates (initializer null)

-- Whether the attributes are freed: those of the static initializers are not.
pub frees_attr : Mutex → Bool
frees_attr m = elim m.attr [ errorcheck_mark ↦ false | recursive_mark ↦ false | _ ↦ true ]

-- The code of a type is accepted by the setter of initialized attributes; the type is then that of
-- a mutex made with them, and the mutex is free. With no memory for the copy the call says so.
pub settype-mutex_init :
    (code : ℕ) (differs : Bool) (k : MutexType)
    → type_code code ≡ some k
    → let made = mutex_init (some (settype attr_init code).0) differs true in
      ((settype attr_init code).1 ≡ success)
      × (made.1 ≡ success)
      × (mutex_type made.0 ≡ k)
      × (made.0.held ≡ false)
      × (made.0.queue ≡ [])
      × ((mutex_init (some (settype attr_init code).0) differs false).1 ≡ enomem)
unfolding mutex_init settype attr_init
settype-mutex_init code differs k c = ground arith
