-- ===== src/Striped.antt =====
-- hash/StripedHash.c and hash/StripedHash.h: the chained hash table with an array of locks. The functions
-- on one bucket and on the array of buckets are word for word those of hash/Hash.c. This file has
-- them, the shared memory and the parts that run under locks; `Threads` has `add`, `delete`, `find` and
-- `resize` as state machines; `System` interleaves any number of threads.
pub mod Threads
pub mod System
pub mod Locks
pub mod Fairness
pub mod Exclusion
pub mod Failure
pub mod Contents
pub mod Attempts
pub mod Steps
pub mod Answers
pub mod Accounts
pub mod Refinement
mod Tests
use algorithm_collection.Common.{
  ℕ, ◌+◌, ◌*◌, ◌/◌, ◌%◌, ◌^◌, Bool, true, false, ◌&&◌, Option, none, some, List, [], ◌∷◌, ℤ, ltb,
  ◌==◌, if◌then◌else◌, Run, ok, fault, division_by_zero, ◌>>=◌,
}
use algorithm_collection.Common.Chains.{Chain, Node}
use algorithm_collection.Hash.Chain
use algorithm_collection.Hash.Table
use algorithm_collection.Hash.Table.{Buckets}

abbrev pub create_node : Bool → ℤ → ℤ → Option Node
create_node = Chain.create_node

abbrev pub add_node_op : Chain → Node → Chain × Bool
add_node_op = Chain.add_node_op

abbrev pub add_node : Bool → Chain → ℤ → ℤ → Chain × Bool
add_node = Chain.add_node

abbrev pub delete_node : Chain → ℤ → Run (Chain × Option ℤ)
delete_node = Chain.delete_node

abbrev pub find_node : Chain → ℤ → Bool
find_node = Chain.find_node

abbrev pub hash_code : ℤ → ℕ → Run ℕ
hash_code = Table.hash_code

-- `list_init` in the loop of `init_bucket`.
abbrev pub list_init : (ℕ → Bool) → ℕ → Buckets × Bool
list_init = Table.init_lists

abbrev pub init_bucket : (ℕ → Bool) → ℕ → Buckets × Bool
init_bucket = Table.init_bucket

-- `hashtable_t`, and for each lock the thread that has it.
pub record Memory : Type 0 where
  pub set_size : ℕ  -- unsigned long int
  pub bucket : Buckets
  pub table_size : ℕ  -- unsigned int
  pub old_bucket : Buckets
  pub old_table_size : ℕ
  pub lock_size : ℕ  -- unsigned int
  pub owner : ℕ → Option ℕ

-- `lockKey`.
abbrev pub lock_key : ℕ → ℕ → Run ℕ
lock_key size hash = if size == 0 then fault division_by_zero else ok (hash % size)

-- `policy`, of the two values that it reads.
abbrev pub policy : ℕ → ℕ → Run Bool
policy set_size table_size =
    if table_size == 0
    then fault division_by_zero
    else ok
        (ltb 4 (set_size / table_size % 2 ^ 32) && ltb (set_size / table_size % 2 ^ 32) (2 ^ 31))

-- What the moves leave of the old array: heads with no nodes.
abbrev pub emptied : Buckets → Buckets
emptied [] = []
emptied (b ∷ bs) = some [] ∷ emptied bs

-- `resize` from the test of `table_size` on, up to where it frees the locks; false if `init_bucket` fails.
unfoldable pub rebuild : (ℕ → Bool) → Memory → Run (Memory × Bool)
rebuild calloc m =
    let n = m.table_size * 2 % 2 ^ 32 in
    let (bs, there) = init_bucket calloc n in
    let kept = record m { old_table_size = m.table_size; old_bucket = m.bucket; bucket = bs } in
    if there
    then (Table.move_buckets n m.table_size m.bucket bs >>= λ moved.
        ok (record kept { table_size = n; bucket = moved; old_bucket = emptied m.bucket }, true))
    else ok (kept, false)

-- `init_hashtable`: the answers of `calloc` are for the table, the buckets, and the locks.
unfoldable pub init_hashtable : Bool → (ℕ → Bool) → Bool → ℕ → Option Memory
init_hashtable table_there calloc locks_there n =
    let (bs, ret) = init_bucket calloc n in
    if table_there && ret && locks_there
    then some (record {
      set_size = 0;
      bucket = bs;
      table_size = n;
      old_bucket = [];
      old_table_size = 0;
      lock_size = n;
      owner = λ k. none;
    })
    else none
