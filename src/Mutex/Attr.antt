-- ===== src/Mutex/Attr.antt =====
-- Mutex attributes: sysdeps/generic/pt-mutexattr*.c and bits/mutex-attr.h.
use libpthread.Base.{ℕ, zero, suc, Option, none, some, Errno, success, einval, enotsup, enosys}

-- `enum __pthread_mutex_type`; `timed` is PTHREAD_MUTEX_NORMAL and the default.
pub data MutexType : Type 0 where
  timed errorcheck recursive : MutexType

-- `enum __pthread_mutex_protocol`
pub data Protocol : Type 0 where
  prio_none prio_inherit prio_protect : Protocol

-- `enum __pthread_process_shared`
pub data ProcessShared : Type 0 where
  private shared : ProcessShared

pub record MutexAttr : Type 0 where
  pub prioceiling : ℕ
  pub protocol : Protocol
  pub pshared : ProcessShared
  pub mutex_type : MutexType

-- The three constant attributes of pt-mutexattr.c.
abbrev pub constant_attr : MutexType → MutexAttr
constant_attr k = record {
  prioceiling = 0;
  protocol = prio_none;
  pshared = private;
  mutex_type = k;
}

-- The `attr` pointer of a mutex: null, one of the two marks of the static initializers, or
-- attributes that `pthread_mutex_init` has copied.
pub data AttrRef : Type 0 where
  null errorcheck_mark recursive_mark : AttrRef
  allocated : MutexAttr → AttrRef

-- What each operation reads the pointer as.
abbrev pub resolve : AttrRef → Option MutexAttr
resolve null = none
resolve errorcheck_mark = some (constant_attr errorcheck)
resolve recursive_mark = some (constant_attr recursive)
resolve (allocated a) = some a

-- What `switch` of the setters reads an `int` argument as.
abbrev pub protocol_code : ℕ → Option Protocol
protocol_code zero = some prio_none
protocol_code (suc zero) = some prio_inherit
protocol_code (suc (suc zero)) = some prio_protect
protocol_code _ = none

abbrev pub pshared_code : ℕ → Option ProcessShared
pshared_code zero = some private
pshared_code (suc zero) = some shared
pshared_code _ = none

abbrev pub type_code : ℕ → Option MutexType
type_code zero = some timed
type_code (suc zero) = some errorcheck
type_code (suc (suc zero)) = some recursive
type_code _ = none

-- `pthread_mutexattr_init`; the default type is the normal one.
unfoldable pub attr_init : MutexAttr
attr_init = constant_attr timed

unfoldable pub setprotocol : MutexAttr → ℕ → MutexAttr × Errno
setprotocol a code = elim (protocol_code code) [
  | some prio_none ↦ (record a { protocol = prio_none }, success)
  | some prio_inherit ↦ (a, enotsup)
  | some prio_protect ↦ (a, enotsup)
  | none ↦ (a, einval)
]

unfoldable pub setpshared : MutexAttr → ℕ → MutexAttr × Errno
setpshared a code = elim (pshared_code code) [
  | some private ↦ (record a { pshared = private }, success)
  | some shared ↦ (a, enotsup)
  | none ↦ (a, einval)
]

unfoldable pub settype : MutexAttr → ℕ → MutexAttr × Errno
settype a code = elim (type_code code) [
  | some k ↦ (record a { mutex_type = k }, success)
  | none ↦ (a, einval)
]

-- The getters' results.
unfoldable pub getprotocol : MutexAttr → Protocol × Errno
getprotocol a = (a.protocol, success)

unfoldable pub getpshared : MutexAttr → ProcessShared × Errno
getpshared a = (a.pshared, success)

unfoldable pub gettype : MutexAttr → MutexType × Errno
gettype a = (a.mutex_type, success)

-- Priority ceilings are not supported.
unfoldable pub setprioceiling : MutexAttr → ℕ → MutexAttr × Errno
setprioceiling a n = (a, enosys)
