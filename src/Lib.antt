-- ===== src/Lib.antt =====
-- libhelp is a C library of helpers for servers: an arena allocator (src/pool.c), a configuration
-- reader (src/config.c), macros on strings and numbers (src/str.h), a logger, timers, a semaphore
-- of threads, a lock on a file, process titles and daemons, and messages between processes.
--
-- The parts modelled and the files that model them:
--
-- * src/str.h, in Str.antt: the macros `atoui`, `itoa` and `itoa64` as functions on bytes, and
--   `strcmp2` to `strcmp11` (Str/Compare) on bytes in memory; `strcatps`, `strcatps2`, `strcatpd`,
--   `strcatpc`, `_tolower` and `_toupper` in Str/Append; and `pstr_new`, `pstr_dup`, `pstr_cpy` and
--   `pstr_ncpy` in Pool/Strings, where the type `str_t`, which the repository does not declare, is
--   a parameter.
-- * src/pool.c and src/pool.h, in Pool.antt: `pool_new`, `pool_alloc`, `pool_calloc`, `pool_cpy`,
--   `pool_free` and `pool_delete`. A pool is its list of blocks, the place of the current one, the
--   sum of the sizes and the list of large allocations. Addresses are numbers below 2^64 and their
--   differences wrap around, as `size_t` does. What C leaves undefined is the result `undefined`.
-- * src/config.c, in Config.antt: `config_load2` and `config_load`, each with its own switch
--   (Config/Switch and Config/FileSwitch), the insertions and the copies of keys (Config/Insert),
--   the getters (Config/Get), `config_test2` (Config/Check), and `config_new`, `config_new2`,
--   `config_delete` and `config_test` (Config/New). A configuration is the Judy array of its
--   words, the heap, and the fields `src`, `conf` and `line_error`; the locals of the loop are a
--   record, one round of it is a function of the state and of two bytes, and the loop is recursion
--   on the text.
-- * src/lockrun.c, in Lockrun.antt: `main`, as the loop over the arguments, the loop that waits
--   for the lock, and the end of the parent and of the child. What is printed is left out.
-- * src/timer.c, in Timer.antt: `timer_start`, `timer_stop`, the loop of `timer_finalize`, and a
--   round of the thread. The list `g_head` is a list of nodes with their addresses.
-- * src/semaphore.c, in Semaphore.antt: `semaphore_post` and `semaphore_wait` as steps of threads
--   that share the count, where a run is a sequence of steps in any order, and `semaphore_create`,
--   `semaphore_open` and `semaphore_close` over the system calls (Semaphore/Files).
-- * src/file.c, in File.antt: `file_copy`, and the functions that ask for sizes (File/Space), as
--   functions of what the system calls return.
-- * src/proc_msg.cpp, src/proc_msg_queue.cpp and src/proc_msg_udp.cpp, in Messages.antt: the class
--   `pm` of src/proc_msg.h over a System V queue (Messages/Queue) and over UDP (Messages/Udp),
--   with the choice between them (Messages/Pm) and the loop of the handler thread
--   (Messages/Handler). An object is a record with the state of the operating system in it.
-- * src/proc_msg_tcp.cpp and src/proc_msg_tcp.h, in Messages/Tcp.antt: the class `ProcMsgTCP`,
--   with the two loops of its thread. The Makefile does not build it, and neither its base class
--   `ProcMsg` nor `PROC_MSG_MESSAGE_SIZE` is in the repository: the fields that the code uses are
--   in the record, and the size is a parameter.
-- * src/logger.c, in Logger.antt: the log, the line that `log_put` builds in its array, and
--   `setproctitle` (Logger/Title). A field that nothing was stored in is `none`.
-- * src/proc.c, in Proc.antt: `proc_init` and `proc_set_title` on strings that stand at
--   addresses, with the bytes of the process that the copies of `proc_init` are made in, and
--   `proc_daemonize` on a table of descriptors (Proc/Daemon).
--
-- Base.antt has the shared notation and the lemmas on lists, options and numbers.
--
-- How the parts interact: the configuration keeps its values in a pool, which the model takes as
-- the interface `Memory`, and its keys in a Judy array of strings, which it takes as the
-- interface `Judy`. Config/InPool is the instance of `Memory` by the operations of Pool.antt, in
-- which a load and the pool share one heap, and calls of the pool that do not return are counted;
-- Config/Sound has the laws that a load needs, and Config/Backing proves them of the instance.
-- The bytes of the two buffers of a load and those of the `config_t` are values of the model, and
-- only the copies that `pool_cpy` and `pool_calloc` make are bytes of the heap. Config/Erase
-- relates a load over any heap to one over no heap, and Config/Whole puts the text, the array and
-- the pool together. The getters read numbers with the macros of src/str.h. `setproctitle_init`
-- of the logger has the loops of `proc_init` of src/proc.c.
--
-- Code that is not in the repository is a parameter. `Malloc` is the heap of the C library, with
-- the hypothesis `IsFresh`: a block that it returns overlaps no block in use. Where bytes matter,
-- its laws are `IsAllocator` (Pool/Memory): what `malloc` returns is aligned and apart from all
-- that it returned before and that was not freed, `malloc` and `free` change no byte of that, and
-- a store changes the bytes that it names. `Judy` is the Judy library, with the laws `IsMap` of a
-- map from strings and `IsOrdered` of walks in the order of `strcmp`. `IsPlentiful` says that no
-- allocation and no insertion fails. A record named `System`, `Network`, `Kernel`, `Events` or
-- `Calls` is what a file calls of the operating system and the C library. `IsFresh` of Timer says
-- that a new node and a new descriptor are not in use, and `IsQueue` of Messages that one message
-- queue is a first-in-first-out list from which `msgrcv` takes the first of a type. `IsListener`
-- of Messages/Tcp says which connections a listening socket gives and what is read from each, and
-- `IsPipe` that a message that is sent is read whole. `HasDescriptors` of Semaphore says which
-- calls open and close a descriptor. Each has a concrete instance in a module of tests.
--
-- Bounds and fuel: the digits of a number have a buffer of 22 bytes, which is fuel enough for 64
-- bits. `pool_alloc` asks itself for the node of a large allocation, and its fuel bounds the calls
-- that wait for one another: two are enough in a pool of 72 bytes or more. The fuel of
-- `config_load2` bounds only the rounds of the loop that copies keys (`key @prefix;`); the texts
-- without such a line need none, and a copy needs one more than there are keys with the prefix.
-- The fuel of `main` in src/lockrun.c bounds the tries to lock.
--
-- Not modelled: the thread of src/timer.c and its races with the callers, who take no lock; the
-- races of the handler thread with a sender that uses the same `pm`; src/proc_msg_zmq.cpp, which
-- is commented out.
mod Base
pub mod Str
pub mod Pool
pub mod Config
pub mod Lockrun
pub mod Timer
pub mod Semaphore
pub mod File
pub mod Messages
pub mod Logger
pub mod Proc
