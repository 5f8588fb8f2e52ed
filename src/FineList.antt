-- ===== src/FineList.antt =====
-- list/FineGrainedSynchroList.c and list/FineGrainedSynchroList.h: the sorted list with one lock for
-- each node. This file has the memory and what one access does to it; `Threads` has `add`,
-- `delete` and `find`, from one lock operation to the next; `System` interleaves any number of threads.
pub mod Threads
pub mod System
pub mod Paths
pub mod Facts
pub mod Moves
pub mod Answers
pub mod Invariant
pub mod Linear
pub mod Locks
pub mod Deadlock
mod Tests
use algorithm_collection.Common.{
  ℕ, Bool, true, false, ◌&&◌, Option, none, some, ℤ, pos, ◌==◌, if◌then◌else◌, Run, ok, fault,
  null_pointer, out_of_range,
}

-- `node_t`. An address is a number, and 0 is NULL. The lock of a node is in `Memory`.
pub record Node : Type 0 where
  pub key : ℤ
  pub val : ℤ
  pub next : ℕ

-- `list_t`: two addresses that never change.
pub record Ends : Type 0 where
  pub head : ℕ
  pub tail : ℕ

-- The nodes, and for the lock of each the thread that has it. Nothing is freed while threads run,
-- since `free_node` is compiled to nothing without `_FREE_`.
pub record Memory : Type 0 where
  pub cell : ℕ → Option Node
  pub owner : ℕ → Option ℕ

abbrev pub update {ℓ} : {A : Type ℓ} → (ℕ → A) → ℕ → A → ℕ → A
update f a x b = if b == a then x else f b

-- `*p`.
unfoldable pub load : (ℕ → Option Node) → ℕ → Run Node
load cell p =
    if p == 0
    then fault null_pointer
    else elim (cell p) [ none ↦ fault out_of_range | some n ↦ ok n ]

-- `create_node` at the address that `calloc` gave, which is not 0.
abbrev pub create_node : ℤ → ℤ → Node
create_node key val = record { key = key; val = val; next = 0 }

-- `p->next = q`, where `n` is what `p` points to.
abbrev pub link : (ℕ → Option Node) → ℕ → Node → ℕ → ℕ → Option Node
link cell p n q = update cell p (some (record n { next = q }))

-- `init_list` where `calloc` answers: two nodes filled with zeros, linked, with free locks.
unfoldable pub init_list : Bool → ℕ → ℕ → Option (Ends × Memory)
init_list list_there head tail =
    if list_there && (if head == 0 then false else if tail == 0 then false else true)
    then some (
      record { head = head; tail = tail },
      record {
        cell =
            update (update (λ a. none) tail (some (create_node (pos 0) (pos 0)))) head
              (some (record { key = pos 0; val = pos 0; next = tail }));
        owner = λ a. none;
      },
    )
    else none
