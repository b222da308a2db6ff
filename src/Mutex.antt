-- ===== src/Mutex.antt =====
-- Mutexes: sysdeps/generic/pt-mutex-*.c and bits/mutex.h, one function for each section of code
-- that runs under the mutex's spin lock, and one for what follows a wait.
mod Attr
unfoldable pub use Attr.*
pub mod Sections
pub mod System
pub mod Cases
pub mod Invariant
pub mod Safety
pub mod Lost
pub mod Progress
pub mod Init
mod Tests
use libpthread.Base.{
  ℕ, ◌+◌, ◌-◌, ◌%◌, ◌^◌, ◌&&◌, Bool, true, false, Option, none, some, List, [], ◌∷◌, Errno, Outcome,
  returns, waits, spins, aborts, success, eperm, esrch, einval, ebusy, edeadlk, etimedout, Timespec,
  abstime_valid, uint_mod, owner_is, elem, remove, if◌then◌else◌, ltb, ◌==◌, not,
}
use Attr.{MutexAttr, AttrRef, null, MutexType, timed, errorcheck, recursive, resolve}

-- `struct __pthread_mutex`. `held` and `lock` are its spin locks; the queue is the list that its
-- pointers stand for, the thread that is woken next first.
pub record Mutex : Type 0 where
  pub held : Bool
  pub lock : Bool
  pub queue : List ℕ
  pub attr : AttrRef
  pub owner : Option ℕ
  pub locks : ℕ

-- `__PTHREAD_MUTEX_INITIALIZER`, and the two with other attributes
abbrev pub initializer : AttrRef → Mutex
initializer a = record { held = false; lock = false; queue = []; attr = a; owner = none; locks = 0 }

abbrev pub is_none : Option ℕ → Bool
is_none none = true
is_none (some t) = false

-- The type that an operation acts on: no attributes are those of a normal mutex.
abbrev pub type_of : Option MutexAttr → MutexType
type_of none = timed
type_of (some a) = a.mutex_type

abbrev pub mutex_type : Mutex → MutexType
mutex_type m = type_of (resolve m.attr)

-- The calling thread has the lock: note the owner.
pub own : MutexType → ℕ → Mutex → Mutex
own timed self m = m
own errorcheck self m = record m { owner = some self }
own recursive self m = record m { owner = some self; locks = 1 }

-- The lock is busy, and the caller is to wait. An `abstime` out of range returns with the spin
-- lock still taken.
pub queue_up : Mutex → ℕ → Option Timespec → Outcome Mutex
queue_up m self abstime =
    if not (abstime_valid abstime)
    then returns einval [] m
    else if elem self m.queue
    then aborts
    else waits (record m { queue = self ∷ m.queue; lock = false })

-- The lock is busy.
pub busy : MutexType → Mutex → ℕ → Option Timespec → Outcome Mutex
unfolding queue_up
busy timed m self abstime = queue_up m self abstime
busy errorcheck m self abstime =
    if owner_is m.owner self
    then returns edeadlk [] (record m { lock = false })
    else if is_none m.owner
    then aborts
    else queue_up m self abstime
busy recursive m self abstime =
    if owner_is m.owner self
    then returns success [] (record m { locks = (m.locks + 1) % uint_mod; lock = false })
    else if is_none m.owner
    then aborts
    else queue_up m self abstime

-- `__pthread_mutex_timedlock_internal` up to the point where the thread blocks; a call with no
-- `abstime` is `pthread_mutex_lock`.
pub timedlock : Mutex → ℕ → Option Timespec → Outcome Mutex
unfolding own busy
timedlock m self abstime =
    if m.lock
    then spins
    else if m.held
    then busy (mutex_type m) (record m { lock = true }) self abstime
    else returns success [] (own (mutex_type m) self (record m { held = true }))

-- After the wait, under the spin lock: leave the queue if nobody has taken the thread out, else
-- say whether a wakeup is still to be received. `none`: the spin lock is taken.
pub settle : Mutex → ℕ → Bool → Option (Mutex × Bool)
settle m self timed_out =
    if m.lock
    then none
    else if elem self m.queue
    then some (record m { queue = remove self m.queue }, false)
    else some (m, timed_out)

-- The end of a call that has waited: a time-out is returned; otherwise the lock has been handed
-- over, and the owner is noted.
pub finish : Mutex → ℕ → Bool → Outcome Mutex
unfolding own
finish m self true = returns etimedout [] m
finish m self false = elim (mutex_type m) [
  | timed ↦ returns success [] m
  | errorcheck ↦
      if owner_is m.owner self then returns success [] (own errorcheck self m) else aborts
  | recursive ↦
      if owner_is m.owner self && m.locks == 0
      then returns success [] (own recursive self m)
      else aborts
]

-- `__pthread_mutex_trylock`
pub trylock : Mutex → ℕ → Outcome Mutex
unfolding own
trylock m self =
    if m.lock
    then spins
    else if not m.held
    then returns success [] (own (mutex_type m) self (record m { held = true }))
    else elim (mutex_type m) [
      | recursive ↦
          if owner_is m.owner self
          then returns success [] (record m { locks = (m.locks + 1) % uint_mod })
          else returns ebusy [] m
      | _ ↦ returns ebusy [] m
    ]

-- Hand the lock to the first thread of the queue, or drop it.
pub pass_on : MutexType → Mutex → List ℕ → Outcome Mutex
pass_on k m [] = returns success [] (record m { held = false })
pass_on timed m (t ∷ ts) = returns success (t ∷ []) (record m { queue = ts })
pass_on _ m (t ∷ ts) = returns success (t ∷ []) (record m { queue = ts; owner = some t })

-- `__pthread_mutex_unlock`
pub unlock : Mutex → ℕ → Outcome Mutex
unfolding pass_on
unlock m self = if m.lock then spins else elim (mutex_type m) [
  | timed ↦ pass_on timed m m.queue
  | errorcheck ↦
      if not (owner_is m.owner self)
      then returns eperm [] m
      else pass_on errorcheck (record m { owner = none }) m.queue
  | recursive ↦
      let locks = (m.locks + uint_mod - 1) % uint_mod in
      if not (owner_is m.owner self)
      then returns eperm [] m
      else if ltb 0 locks
      then returns success [] (record m { locks = locks })
      else pass_on recursive (record m { locks = locks; owner = none }) m.queue
]

-- `__pthread_mutex_transfer_np`, for a thread that is looked up by its identifier in a table; it
-- takes no spin lock.
pub transfer_np : Mutex → ℕ → Option ℕ → Outcome Mutex
transfer_np m self thread = if not (owner_is m.owner self) then aborts else elim thread [
  | none ↦ returns esrch [] m
  | some t ↦ if t == self then returns success [] m else elim (mutex_type m) [
    | timed ↦ returns success [] m
    | _ ↦ returns success [] (record m { owner = some t })
  ]
]
