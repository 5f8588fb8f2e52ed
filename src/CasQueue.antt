-- ===== src/CasQueue.antt =====
-- queue/CASLockFreeQueue.c and queue/CASLockFreeQueue.h: the lock-free queue of Michael and Scott.
-- This file has the memory and what one access does to it; `Threads` has `enq` and `deq`, one
-- shared access at a time; `System` interleaves any number of threads.
pub mod Threads
pub mod System
pub mod Links
pub mod Facts
pub mod Moves
pub mod Invariant
pub mod Fifo
mod Tests
use algorithm_collection.Common.{
  ℕ, ◌+◌, ◌%◌, ◌^◌, Bool, true, false, ◌&&◌, Option, none, some, List, [], ◌∷◌, ℤ, pos, ◌==◌,
  if◌then◌else◌, Run, ok, fault, null_pointer, out_of_range, ◌>>=◌, ◌≡◌, ◌≢◌,
}

-- `pointer_t`. An address is a number, and 0 is NULL. `count` is 64 bits wide.
pub record Pointer : Type 0 where
  pub count : ℕ
  pub ptr : ℕ

pub record Node : Type 0 where
  pub next : Pointer
  pub val : ℤ

-- `queue_t`, and the nodes in memory. Nothing is freed, since `free_node` is compiled to nothing
-- without `_FREE_`.
pub record Memory : Type 0 where
  pub head : Pointer
  pub tail : Pointer
  pub cell : ℕ → Option Node

abbrev pub update : (ℕ → Option Node) → ℕ → Node → ℕ → Option Node
update cell a n b = if b == a then some n else cell b

-- `cas`: whether the word at hand is the expected one. A `pointer_t` is compared and written whole.
abbrev pub matches : Pointer → Pointer → Bool
matches word old = word.count == old.count && word.ptr == old.ptr

-- The pointer that is written after `p` was read: the count goes up, in 64 bits.
abbrev pub bump : Pointer → ℕ → Pointer
bump p a = record { count = (p.count + 1) % 2 ^ 64; ptr = a }

-- `*p`, for a pointer to a node.
unfoldable pub load : (ℕ → Option Node) → ℕ → Run Node
load cell p =
    if p == 0
    then fault null_pointer
    else elim (cell p) [ none ↦ fault out_of_range | some n ↦ ok n ]

-- `create_node` at the address that `calloc` gave, which is not 0.
abbrev pub create_node : ℤ → Node
create_node val = record { next = record { count = 0; ptr = 0 }; val = val }

-- What `init_queue` ends in: NULL, `abort()`, or a queue with one node that holds no item.
pub data Init : Type 0 where
  no_memory aborted : Init
  ready : Memory → Init

unfoldable pub init_queue : Bool → ℕ → Init
init_queue there dummy =
    if there
    then (if dummy == 0
        then aborted
        else ready (record {
          head = record { count = 0; ptr = dummy };
          tail = record { count = 0; ptr = dummy };
          cell = update (λ a. none) dummy (create_node (pos 0));
        }))
    else no_memory

-- The walk of `show_queue` from a node on, and the values that it prints.
pub data Shows (cell : ℕ → Option Node) : ℕ → List ℤ → Type 0 where
  end : {a : ℕ} {n : Node} → load cell a ≡ ok n → n.next.ptr ≡ 0 → Shows cell a []
  more :
      {a : ℕ} {n next : Node} {vals : List ℤ}
      → load cell a ≡ ok n
      → n.next.ptr ≢ 0
      → load cell n.next.ptr ≡ ok next
      → Shows cell n.next.ptr vals
      → Shows cell a (next.val ∷ vals)
