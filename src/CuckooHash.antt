-- ===== src/CuckooHash.antt =====
-- hash/CuckooHash.c and hash/CuckooHash.h: the hash table with two arrays. Each operation runs between
-- `lock` and `unlock`, so it is one atomic step, a function of the table. The nodes are those of
-- hash/OpenAddressHash.h.
pub mod Rounds
pub mod Moves
pub mod Resize
pub mod Operations
pub mod Removal
pub mod Collisions
mod Tests
use algorithm_collection.Common.{
  ℕ, zero, suc, ◌+◌, ◌-◌, ◌*◌, ◌%◌, ◌^◌, Bool, true, false, not, ◌&&◌, Option, none, some, List, [],
  ◌∷◌, ℤ, pos, negsuc, mod_ℤ, neg, to_unsigned, leb, ltb, ◌==◌, eqb_ℤ, if◌then◌else◌, set,
  replicate, Run, ok, fault, out_of_range, overflow, division_by_zero, ◌>>=◌,
}
use algorithm_collection.OpenAddress.{Stat, emp, del, occ, Slot, set_node, slot_at}

-- A NULL array is the empty one.
pub record HashTable : Type 0 where
  pub set_size : ℕ  -- unsigned long int
  pub table0 : List Slot
  pub table1 : List Slot
  pub table_size : ℕ  -- unsigned int
  pub old_table0 : List Slot
  pub old_table1 : List Slot
  pub old_table_size : ℕ

-- `key * factor`, of a signed 64-bit type.
unfoldable pub scale : ℤ → ℕ → Run ℤ
scale (pos a) factor = if ltb (a * factor) (2 ^ 63) then ok (pos (a * factor)) else fault overflow
scale (negsuc a) factor =
    if ltb (2 ^ 63) (suc a * factor) then fault overflow else ok (neg (suc a * factor))

-- `% ht->table_size`, and the conversion of the result.
unfoldable pub remainder : ℤ → ℕ → Run ℕ
remainder product zero = fault division_by_zero
remainder product (suc n) = ok (to_unsigned (mod_ℤ product (suc n)))

unfoldable pub hash_code0 : ℤ → ℕ → Run ℕ
hash_code0 key n = scale key 269 >>= λ product. remainder product n

unfoldable pub hash_code1 : ℤ → ℕ → Run ℕ
hash_code1 key n = scale key 271 >>= λ product. remainder product n

-- `get_node`: the number of the node in its array, and what it holds. Every number but 0 is array 1.
unfoldable pub get_node : HashTable → ℕ → ℤ → Run (ℕ × Slot)
get_node ht zero key = hash_code0 key ht.table_size >>= λ b. slot_at ht.table0 b >>= λ s. ok (b, s)
get_node ht (suc which) key =
    hash_code1 key ht.table_size >>= λ b. slot_at ht.table1 b >>= λ s. ok (b, s)

-- A write to the node that `get_node` gives.
abbrev pub put_node : HashTable → ℕ → ℕ → Slot → HashTable
put_node ht zero b s = record ht { table0 = set ht.table0 b s }
put_node ht (suc which) b s = record ht { table1 = set ht.table1 b s }

abbrev pub is_used : Slot → Bool
is_used s = elim s.stat [ emp ↦ false | del ↦ false | occ ↦ true ]

-- `swap_node`: the table, what `*next` is then, and the return value.
unfoldable pub swap_node : HashTable → ℕ → Slot → Run (HashTable × Slot × Bool)
swap_node ht which node = get_node ht which node.key >>= λ found.
    ok
      (put_node ht which found.0 (set_node node.key node.value occ), found.1, not (is_used found.1))

-- `ht->setSize++`.
abbrev pub count_up : HashTable → HashTable
count_up ht = record ht { set_size = (ht.set_size + 1) % 2 ^ 64 }

-- The loop that `add` and `resize` have, with the rounds that are left: the table, the variable
-- `node`, and whether there was room.
unfoldable pub swap_rounds : ℕ → HashTable → Slot → Run (HashTable × Slot × Bool)
swap_rounds zero ht node = ok (ht, node, false)
swap_rounds (suc rounds) ht node = swap_node ht 1 node >>= λ first. elim first.2 [
  | true ↦ ok (count_up first.0, node, true)
  | false ↦ swap_node first.0 2 first.1 >>= λ second. elim second.2 [
    | true ↦ ok (count_up second.0, second.1, true)
    | false ↦ swap_rounds rounds second.0 second.1
  ]
]

-- `find_op`.
unfoldable pub find_op : HashTable → ℤ → Run Bool
find_op ht key = get_node ht 0 key >>= λ a.
    if is_used a.1 && eqb_ℤ a.1.key key
    then ok true
    else get_node ht 1 key >>= λ b. ok (is_used b.1 && eqb_ℤ b.1.key key)

unfoldable pub find : HashTable → ℤ → Run Bool
find ht key = find_op ht key

abbrev pub del_op : HashTable → ℕ → ℕ → HashTable
del_op ht which b = record (put_node ht which b (set_node (pos 0) (pos 0) del)) {
  set_size = (ht.set_size + (2 ^ 64 - 1)) % 2 ^ 64;
}

-- `delete`: the value is what is written to `*getval`, and stands for `true`.
unfoldable pub delete : HashTable → ℤ → Run (HashTable × Option ℤ)
delete ht key = get_node ht 0 key >>= λ a.
    if eqb_ℤ a.1.key key && is_used a.1
    then ok (del_op ht 0 a.0, some a.1.value)
    else get_node ht 1 key >>= λ b.
        if eqb_ℤ b.1.key key && is_used b.1
        then ok (del_op ht 1 b.0, some b.1.value)
        else ok (ht, none)

abbrev pub empty_nodes : ℕ → List Slot
empty_nodes n = replicate n (set_node (pos 0) (pos 0) emp)

-- `init_tables`, with the answers of the two calls of `calloc`. Where only the second fails, the
-- first array is freed.
unfoldable pub init_tables : Bool × Bool → HashTable → ℕ → HashTable × Bool
init_tables (false, second) ht n = (record ht { table0 = [] }, false)
init_tables (true, false) ht n = (record ht { table0 = []; table1 = [] }, false)
init_tables (true, true) ht n =
    (record ht { table0 = empty_nodes n; table1 = empty_nodes n; set_size = 0 }, true)

-- The loop of `resize` over the first entries of one old array.
unfoldable pub move_slots : ℕ → List Slot → HashTable → Run HashTable
move_slots zero old ht = ok ht
move_slots (suc rounds) [] ht = fault out_of_range
move_slots (suc rounds) (s ∷ old) ht = elim s.stat [
  | emp ↦ move_slots rounds old ht
  | del ↦ move_slots rounds old ht
  | occ ↦
      swap_rounds ht.table_size ht (set_node s.key s.value occ) >>= λ r. move_slots rounds old r.0
]

-- `resize`: the old arrays are freed at the end.
unfoldable pub resize : Bool × Bool → HashTable → Run HashTable
resize calloc ht =
    let n = ht.table_size * 2 % 2 ^ 32 in
    let kept = record ht {
      old_table_size = ht.table_size;
      old_table0 = ht.table0;
      old_table1 = ht.table1;
    } in
    let (fresh, there) = init_tables calloc kept n in
    if there
    then (do
      half ← move_slots ht.table_size ht.table0 (record fresh { table_size = n })
      moved ← move_slots ht.table_size ht.table1 half
      ok (record moved { old_table0 = []; old_table1 = [] }))
    else ok fresh

-- `add` from `retry` on, with what is left of `try`. Each `resize` has its own answers of `calloc`.
unfoldable pub add_tries : (ℕ → Bool × Bool) → ℕ → HashTable → Slot → Run (HashTable × Bool)
add_tries calloc zero ht node = swap_rounds ht.table_size ht node >>= λ r. ok (r.0, r.2)
add_tries calloc (suc tries) ht node = swap_rounds ht.table_size ht node >>= λ r. elim r.2 [
  | true ↦ ok (r.0, true)
  | false ↦ resize (calloc 0) r.0 >>= λ grown. add_tries (λ j. calloc (suc j)) tries grown r.1
]

unfoldable pub add : (ℕ → Bool × Bool) → HashTable → ℤ → ℤ → Run (HashTable × Bool)
add calloc ht key val = find_op ht key >>= λ there.
    if there then ok (ht, false) else add_tries calloc 10 ht (set_node key val occ)

-- `init_hashtable`: 2 ^ size nodes, at most `CH_DEFAULT_MAX_SIZE` being 10; the table and its arrays
-- are three answers of `calloc`.
unfoldable pub init_hashtable : Bool → Bool × Bool → ℕ → Option HashTable
init_hashtable table_there calloc size =
    let n = 2 ^ (if leb 10 size then 10 else size) in
    let (ht, ret) =
      init_tables calloc
        (record {
          set_size = 0;
          table0 = [];
          table1 = [];
          table_size = n;
          old_table0 = [];
          old_table1 = [];
          old_table_size = 0;
        })
        n in
    if table_there && ret then some ht else none
