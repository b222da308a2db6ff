-- ===== src/Lib.antt =====
-- A model of libpthread, the POSIX threads library of the Hurd, and what it keeps to.
--
-- The program. Each synchronisation object of the library is a record with a spin lock and a queue
-- of thread structures. A call takes the spin lock, tests and changes the object and either returns
-- or puts its thread on the queue, lets go of the spin lock and blocks until a message arrives
-- (pthread/pt-internal.h, sysdeps/mach/pt-block.c). The thread that releases the object takes
-- another one out of the queue and sends it a message. A call with a time-out blocks in
-- __pthread_timedblock and looks afterwards, under the spin lock, whether it is still queued.
-- Condition waits also stand under the cancel lock of their thread, since pthread_cancel may wake
-- them. Thread-specific keys are a table under a recursive mutex and one hash table per thread.
--
-- The files.
--   Base        names of the libraries, tests, lists of threads, error codes, section outcomes.
--   Queue       __pthread_enqueue, __pthread_dequeue and __pthread_dequeuing_iterate of
--               pthread/pt-internal.h on a heap of links; Represents relates it to a list.
--   Mutex       sysdeps/generic/pt-mutex-*.c, pt-mutexattr-*.c, bits/mutex.h, bits/mutex-attr.h.
--   Rwlock      sysdeps/generic/pt-rwlock-*.c, bits/rwlock.h.
--   Semaphore   sysdeps/generic/sem-*.c, bits/semaphore.h.
--   Condition   sysdeps/generic/pt-cond-*.c, bits/condition.h, and pthread/pt-cancel.c,
--               pt-setcancelstate.c, pt-setcanceltype.c, pt-testcancel.c.
--   Threads     pthread/pt-alloc.c, pt-dealloc.c, pt-create.c, pt-exit.c, pt-join.c, pt-detach.c, and
--               __pthread_getid of pthread/pt-internal.h.
--   Barrier     sysdeps/generic/pt-barrier-*.c, bits/barrier.h.
--   Timedblock  sysdeps/mach/pt-timedblock.c, the computation of the relative time.
--   Keys        sysdeps/hurd/pt-key.h, pt-key-create.c, pt-key-delete.c, pt-getspecific.c,
--               pt-setspecific.c, pt-init-specific.c, pt-destroy-specific.c.
--   Signals     signal/*.c and sig-internal.h, and sysdeps/generic/sig*set.c, sigwait.c, siginterrupt.c,
--               signal.c, pt-kill.c, raise.c, killpg.c: Waiters has the list of threads that wait for
--               a signal, Dispatch the delivery to a thread, Process what threads send and wait for,
--               Masks the signal mask on the Hurd (sysdeps/mach/hurd/pt-sigstate.c, pthread/pt-sigmask.c).
--   HurdCond    sysdeps/mach/hurd/pt-hurd-cond-timedwait.c and pt-hurd-cond-wait.c, on the Cond of
--               Condition.
--   Once        sysdeps/generic/pt-once.c.
--   Attributes  sysdeps/generic/pt-attr*.c with sysdeps/mach/hurd/pt-attr-setstack*.c, bits/thread-attr.h,
--               pthread/pt-getattr.c, and the setters of the attributes of the other objects.
--   Stacks      sysdeps/mach/pt-stack-alloc.c.
-- In each, the file of the component has its record and one function per section of code under a
-- lock; System has the threads that use one object as a state with a step function, and Reach, the
-- states that steps lead to; Invariant and the modules below it show what each step keeps; Tests
-- has the theorems at concrete inputs.
--
-- How the code is read.
--   A step is one section under the spin lock, from where it is taken to where it is released: no
--   other thread sees what is between. A call of pt-mutex-timedlock.c is thus up to four steps: to
--   the block (timedlock), back from it by a message or by a time-out, the section after it
--   (settle), and the return (finish). A wake-up counts as sent in the step that takes its thread
--   out of the queue, although the code of mutexes and semaphores sends it after the section: when
--   it arrives is up to the kernel in either case. In a condition wait the section under the cancel
--   lock holds the spin lock within it, and the two are one step.
--   A time-out may happen at any time: the order of clocks and messages is not restricted.
--   Queues are lists in the objects; Queue shows that the linked structure keeps such a list.
--   The build is the one without ALWAYS_TRACK_MUTEX_OWNER and with assertions: a failed assertion is
--   an outcome of its own (aborts, none), and so is a spin lock that is taken (spins).
--   In Mutex/System a thread that has a mutex carries how many of its calls that locked it have not been
--   undone by its calls of unlock: that counts calls and results and reads no field of the mutex. A step
--   that would make it 2 ^ 32 - 1 or more is left out, since the count of the mutex wraps there.
--   The mutex of type normal is unlocked by the thread that has it, as POSIX wants; other types may
--   be unlocked by any thread and answer EPERM. One case is left out: a thread whose call has timed out
--   while a recursive mutex was handed to it is its owner with a count of 0, and if it unlocked the
--   mutex without having locked it again, the count would underflow. Each thread has a read-write lock once at a time.
--   pthread_mutex_transfer_np is a function of the mutex and no step of its system.
--   The mutex of a condition wait is what Mutex shows of it: one thread has it at most.
--   In Threads a call of the library is one step. What two threads do that join or detach the same
--   thread at once is left out, as POSIX leaves it undefined; calls of __pthread_alloc that
--   enlarge the table at the same time have a system of their own, in Threads/Grow. Exiting as the
--   last thread of the process ends it, and is no step.
--   unsigned counters wrap at 2 ^ 32; the signed int counters (readers, value, the key counts) are
--   natural numbers, since their overflow is undefined in C. Keys are natural numbers too: the test that
--   a key is negative, which gives EINVAL, is left out. In Timedblock the seconds times 1000 wrap at
--   2 ^ 32: the code multiplies in a signed long, whose overflow, past 2147483 seconds where it has 32
--   bits, is undefined; the two agree where it wraps around and below that bound.
--   A set of signals is the test of its bits. The functions of the L4 runtime that find its lowest or
--   highest bit are records with their laws, and what a handler does to the signal state is an
--   argument of the dispatcher. The sections under sig_lock and the lock of a signal state are one
--   step. Information about a signal is a number.
--   In HurdCond the lock of the thread's signal state is held from the return from the block to the end
--   of the wait, and a thread that drains a message there cannot be interrupted. hurd_thread_cancel
--   is code of the C library: under that lock it sets the flag and calls the hook.
--   Memory that may be exhausted is a Bool argument: whether it is allocated.
--
-- Fuel. dequeuing_iterate has fuel for its rounds: the length of the queue is enough, as its theorem
-- shows. key_create has fuel for two searches: the second one starts at 0 and finds the invalid
-- element that made it worthwhile, so a third is never begun; its theorem excludes the outcome of
-- fuel that has run out. The dispatcher of signals ends within 32 rounds, and the search of kill within
-- as many as threads wait. The passes of the
-- destructors end after two where the destructors set no values, and a pass has a round for each key;
-- in general they may not end, as in the code. The search for a stack has fuel for every address. All
-- other functions are structural.
--
-- Not modelled. Kernel messages, clocks, malloc and libihash are not code of the repository: they
-- are steps, arguments, or the record Ihash with the laws of its interface. What a signal handler or
-- a destructor of thread-specific data does is an argument, and so is which addresses the kernel can
-- allocate a stack at. Spin locks themselves, named semaphores, the machine context of a new thread,
-- the clean-up of the library and its glue (forward.c, lockfile.c, cthreads-compat.c) are not modelled.
pub mod Base
pub mod Queue
pub mod Mutex
pub mod Rwlock
pub mod Semaphore
pub mod Barrier
pub mod Timedblock
pub mod Keys
pub mod Condition
pub mod Threads
pub mod Signals
pub mod Once
pub mod HurdCond
pub mod Attributes
pub mod Stacks
