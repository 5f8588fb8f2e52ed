-- ===== src/Hash/Table.antt =====
-- hash/Hash.c and hash/Hash.h: the table and its operations. Each operation runs between `lock` and
-- `unlock` of the one mutex, so it is one atomic step, a function of the table. `calloc` is a
-- parameter: its answers, in the order of the calls that the operation makes.
pub mod Buckets
pub mod Moves
pub mod Resize
pub mod Doubling
pub mod Operations
pub mod Faults
use algorithm_collection.Common.{
  ℕ, zero, suc, ◌+◌, ◌-◌, ◌*◌, ◌/◌, ◌%◌, ◌^◌, Bool, true, false, not, ◌&&◌, Option, none, some,
  List, [], ◌∷◌, ℤ, mod_ℤ, to_unsigned, ltb, ◌==◌, if◌then◌else◌, is_some, set, replicate, Run, ok,
  fault, null_pointer, out_of_range, division_by_zero, ◌>>=◌,
}
use algorithm_collection.Common.Chains.{Chain, Node}
use algorithm_collection.Hash.Chain.{add_node_op, add_node, delete_node, find_node}

-- An array of `list_t`; its entry is `none` where `head` is NULL. A NULL array is the empty one.
abbrev pub Buckets : Type 0
Buckets = List (Option Chain)

pub record HashTable : Type 0 where
  pub set_size : ℕ  -- unsigned long long int
  pub bucket : Buckets
  pub table_size : ℕ  -- unsigned int
  pub old_bucket : Buckets
  pub old_table_size : ℕ

-- `hashCode` on a 64-bit machine: `key` is signed and `table_size` is converted to its type.
unfoldable pub hash_code : ℤ → ℕ → Run ℕ
hash_code key zero = fault division_by_zero
hash_code key (suc n) = ok (to_unsigned (mod_ℤ key (suc n)))

-- `ht->bucket[i]`, and its `head->next`.
unfoldable pub bucket_at : Buckets → ℕ → Run Chain
bucket_at [] i = fault out_of_range
bucket_at (none ∷ bs) zero = fault null_pointer
bucket_at (some c ∷ bs) zero = ok c
bucket_at (b ∷ bs) (suc i) = bucket_at bs i

-- The `for` loop of `init_bucket`, with `init_list`: it stops at the first head that is not there.
unfoldable pub init_lists : (ℕ → Bool) → ℕ → Buckets × Bool
init_lists calloc zero = ([], true)
init_lists calloc (suc n) =
    let (bs, ret) = init_lists (λ j. calloc (suc j)) n in
    if calloc 0 then (some [] ∷ bs, ret) else (none ∷ replicate n none, false)

unfoldable pub init_bucket : (ℕ → Bool) → ℕ → Buckets × Bool
init_bucket calloc n = if calloc 0 then init_lists (λ j. calloc (suc j)) n else ([], false)

unfoldable pub init_hashtable : (ℕ → Bool) → ℕ → Option HashTable
init_hashtable calloc n =
    let (bs, ret) = init_bucket (λ j. calloc (suc j)) n in
    if calloc 0 && ret
    then some
        (record { set_size = 0; bucket = bs; table_size = n; old_bucket = []; old_table_size = 0 })
    else none

-- `(int)(setSize / table_size) > 4`: the quotient is cut to 32 bits, and negative from 2^31 on.
unfoldable pub policy : HashTable → Run Bool
policy ht =
    let quotient = ht.set_size / ht.table_size % 2 ^ 32 in
    if ht.table_size == 0
    then fault division_by_zero
    else ok (ltb 4 quotient && ltb quotient (2 ^ 31))

-- The `while` of `resize` over one old chain: each node goes into its bucket of the new array.
unfoldable pub move_chain : ℕ → Chain → Buckets → Run Buckets
move_chain n [] bs = ok bs
move_chain n (curr ∷ rest) bs = do
  i ← hash_code curr.key n
  c ← bucket_at bs i
  move_chain n rest (set bs i (some (add_node_op c curr).0))

-- The `for` of `resize` over the first entries of the old array.
unfoldable pub move_buckets : ℕ → ℕ → Buckets → Buckets → Run Buckets
move_buckets n zero old bs = ok bs
move_buckets n (suc rounds) [] bs = fault out_of_range
move_buckets n (suc rounds) (none ∷ old) bs = fault null_pointer
move_buckets n (suc rounds) (some c ∷ old) bs = do
  bs' ← move_chain n c bs
  move_buckets n rounds old bs'

-- `resize`. If `init_bucket` fails it returns with `ht->bucket` as that left it. At the end the old
-- array is freed, and `old_bucket` points to nothing.
unfoldable pub resize : (ℕ → Bool) → HashTable → Run HashTable
resize calloc ht =
    let n = ht.table_size * 2 % 2 ^ 32 in
    let (bs, ret) = init_bucket calloc n in
    let kept = record ht { old_table_size = ht.table_size; old_bucket = ht.bucket; bucket = bs } in
    if ret
    then (do
      moved ← move_buckets n ht.table_size ht.bucket bs
      ok (record kept { table_size = n; bucket = moved; old_bucket = [] }))
    else ok kept

-- The end of `add`: the test of the load, and `resize`.
unfoldable pub grow : (ℕ → Bool) → HashTable → Run HashTable
grow calloc ht = do full ← policy ht; if full then resize calloc ht else ok ht

-- `add_node` on `ht->bucket[i]`, and the counter. Only `add_node_op` reads the bucket, when
-- `create_node` has its memory.
unfoldable pub add_at : Bool → HashTable → ℕ → ℤ → ℤ → Run (HashTable × Bool)
add_at answers ht i key val =
    if answers
    then (do
      c ← bucket_at ht.bucket i
      let (c', added) = add_node answers c key val
      ok (
        record ht {
          bucket = set ht.bucket i (some c');
          set_size = if added then (ht.set_size + 1) % 2 ^ 64 else ht.set_size;
        },
        added,
      ))
    else ok (ht, false)

unfoldable pub add : (ℕ → Bool) → HashTable → ℤ → ℤ → Run (HashTable × Bool)
add calloc ht key val = do
  i ← hash_code key ht.table_size
  (ht', added) ← add_at (calloc 0) ht i key val
  grown ← grow (λ j. calloc (suc j)) ht'
  ok (grown, added)

-- The value that `delete` writes to `*getval` stands for its return value `true`.
unfoldable pub delete : HashTable → ℤ → Run (HashTable × Option ℤ)
delete ht key = do
  i ← hash_code key ht.table_size
  c ← bucket_at ht.bucket i
  (c', found) ← delete_node c key
  ok (
    record ht {
      bucket = set ht.bucket i (some c');
      set_size = if is_some found then (ht.set_size + (2 ^ 64 - 1)) % 2 ^ 64 else ht.set_size;
    },
    found,
  )

unfoldable pub find : HashTable → ℤ → Run Bool
find ht key = do i ← hash_code key ht.table_size; c ← bucket_at ht.bucket i; ok (find_node c key)
