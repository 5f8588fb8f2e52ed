-- ===== src/Lib.antt =====
-- A verification library for AlgorithmCollection: concurrent queues, lists and hash tables in C.
--
-- The program. Each C file of hash/, list/ and queue/ is one data structure with its own `main`; the
-- drivers hash/stub.c, list/stub.c and queue/stub.c run threads over any of them. The structures do
-- not call each other. Keys and values are `intptr_t`, here integers.
--
-- The parts, and the files that model them:
--   * queue/CASLockFreeQueue.c is CasQueue: the nodes in memory, `cas`, `create_node`, `init_queue`
--     and `show_queue`. CasQueue/Threads has `enq` and `deq` (`enq_step`, `deq_step`), one access to
--     shared memory a step, with the local variables that are live as the state; CasQueue/System
--     interleaves any number of threads, one for each number. CasQueue/Links and its children say
--     how the nodes are linked and what a write does, CasQueue/Facts what each thread knows,
--     CasQueue/Moves that a step keeps this, CasQueue/Invariant that a system does.
--   * hash/Hash.c is Hash: Hash/Chain has the list of one bucket (`create_node`, `add_node_op`,
--     `add_node`, `delete_node`, `find_node`), Hash/Table the table (`hashCode`, `init_bucket`,
--     `init_hashtable`, `policy`, `resize`, `add`, `delete`, `find`). The abstract view of a table is
--     the map from keys to values, `contents`.
--   * hash/OpenAddressHash.c is OpenAddress: `set_node`, `add_op`, `del_op`, `hashCode`, `add`,
--     `delete`, `find`, `init_bucket`, `init_hashtable`, `policy`, `resize`. The abstract view is the
--     multiset of entries: how many nodes in use have a given property. `add` takes a second
--     entry under a key.
--   * hash/CuckooHash.c is CuckooHash: `hashCode0`, `hashCode1`, `get_node`, `swap_node`, `add` with its
--     `retry` loop (`swap_rounds`, `add_tries`), `find_op`, `find`, `del_op`, `delete`,
--     `init_tables`, `init_hashtable`, `resize`. The abstract view is the multiset of entries again.
--   * hash/StripedHash.c is Striped: its functions on buckets are those of Hash, word for word.
--     Striped/Threads has `add`, `delete`, `find` and `resize` as one machine, `striped_step`, with
--     an access to shared memory or to a lock a step; what runs on a bucket under its lock, and on
--     all buckets under all locks, is one access (`attempt`, `rebuild`). Striped/System interleaves
--     the threads. Striped/Locks, Striped/Fairness and Striped/Exclusion say which thread has which
--     lock, Striped/Failure what a `resize` without memory leaves, Striped/Contents,
--     Striped/Attempts and Striped/Steps what a step does to the contents. Calls, work under a lock
--     and returns are events of their thread; Striped/Answers and its child say which events may
--     follow one another in a thread, Striped/Accounts what they leave in the table.
--   * list/FineGrainedSynchroList.c is FineList: the nodes with their locks in memory, `init_list`;
--     FineList/Threads has `add`, `delete` and `find` as one machine, `fine_step`: a step is one
--     operation on a lock with the accesses up to the next one. FineList/System interleaves the
--     threads. FineList/Paths says how the nodes are linked, FineList/Facts what each thread knows,
--     FineList/Moves that a step keeps this, FineList/Invariant that a system does,
--     FineList/Answers which calls, work and returns may follow one another in a thread,
--     FineList/Locks that no lock is forgotten. The abstract view is a sorted chain, and functions
--     that take effect on it at once.
--   * list/CoarseGrainedSynchroList.c is CoarseList: `add`, `delete`, `find`, `init_list`,
--     `free_list`, over nodes that end in the sentinel `list->tail` or in NULL. The abstract view is
--     the sorted chain of Common/Chains.
--   * list/Skiplist.c is Skiplist: the nodes in memory with their arrays of pointers, `search`, `find`,
--     `create_node`, `add`, `delete`, `init_list`. Skiplist/Levels sees each level as a list with one
--     pointer a node, as FineList/Paths does, with the nodes of a level on the level below;
--     Skiplist/Walk, Skiplist/Places and Skiplist/Search are about `search`, Skiplist/Creation about
--     `init_list`, Skiplist/Links, Skiplist/Insertion, Skiplist/Nodes and Skiplist/Adding about `add`.
--     The abstract view is the sorted chain of the lowest level.
--   * Common has the shared tests, integers, lists, sorted chains, and `Run`: what a run of C code
--     that reads memory may end in, a value or a fault.
-- The tests of a part, and its theorems at concrete inputs, stand in its module Tests.
--
-- Choices. The machine has 64-bit pointers and `long`; `unsigned int` has 32 bits. Counters and sizes
-- wrap around as they do in C. Under the one mutex of a structure an operation is one atomic step,
-- a function of the structure. The answers of `calloc` are parameters: a Boolean for memory or none,
-- or an address that is not in use. `assert`, the messages on stderr and the release of memory are
-- left out. A NULL array is the empty one, so an access to it is an access past the end. Loops over
-- nodes are recursion on the nodes; the loops over probes and swaps have their own bound,
-- `table_size` rounds, and `add` of the cuckoo table resizes at most ten times. Each `while` of the
-- skip list has a number of rounds; more than the nodes of a level are enough. The
-- queue and the fine-grained list free no node, as in the build without `_FREE_`; the memory of the
-- queue is sequentially consistent, and there
-- `pointer_t` is read, compared and written whole, as `cmpxchg16b` does.
-- Signed results that do not fit their type are not defined in C. The products `key * 269` and
-- `key * 271` of the cuckoo table and the shift `0x0001 << size` by 31 or more in `init_hashtable` of
-- the open-addressing table are then a fault, `overflow`. The sum `key + i` of the open-addressing
-- table, which does not fit for keys within table_size of 2 ^ 63 only, is the mathematical value. The
-- keys of the striped table are from 0 on, and its steps go on while it has
-- fewer than 2 ^ 31 buckets.
--
-- Not modelled: hash/RefinableHash.c, hash/ConcurrentCuckooHash.c, the other
-- lists of list/, list/LazySkiplist.c, list/LockFreeSkiplist.c, queue/LLSCLockFreeQueue.c.
-- Nor are the drivers and the `main` functions (options, threads, timing), printing, and the
-- functions that only give memory back, except `free_list`.
pub mod Common
pub mod CasQueue
pub mod CoarseList
pub mod CuckooHash
pub mod FineList
pub mod Hash
pub mod OpenAddress
pub mod Skiplist
pub mod Striped
