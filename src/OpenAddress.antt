-- ===== src/OpenAddress.antt =====
-- hash/OpenAddressHash.c and hash/OpenAddressHash.h: the hash table with linear probing. Each
-- operation runs between `lock` and `unlock`, so it is one atomic step, a function of the table.
pub mod Slots
pub mod Probes
pub mod Loops
pub mod Moves
pub mod Resize
pub mod Operations
mod Tests
use algorithm_collection.Common.{
  ℕ, zero, suc, ◌+◌, ◌-◌, ◌*◌, ◌/◌, ◌%◌, ◌^◌, Bool, true, false, ◌&&◌, Option, none, some, List, [],
  ◌∷◌, ℤ, pos, negsuc, mod_ℤ, neg, to_unsigned, ltb, leb, ◌==◌, eqb_ℤ, if◌then◌else◌, set,
  replicate, Run, ok, fault, out_of_range, overflow, division_by_zero, ◌>>=◌, is_some,
}

-- `node_stat`.
pub data Stat : Type 0 where
  emp del occ : Stat

-- `node_t`.
pub record Slot : Type 0 where
  pub key : ℤ
  pub value : ℤ
  pub stat : Stat

-- A NULL array is the empty one.
pub record HashTable : Type 0 where
  pub set_size : ℕ  -- unsigned long int
  pub bucket : List Slot
  pub table_size : ℕ  -- unsigned int
  pub old_bucket : List Slot
  pub old_table_size : ℕ

abbrev pub set_node : ℤ → ℤ → Stat → Slot
set_node key val stat = record { key = key; value = val; stat = stat }

-- `ht->bucket[i]`.
unfoldable pub slot_at : List Slot → ℕ → Run Slot
slot_at [] i = fault out_of_range
slot_at (s ∷ bs) zero = ok s
slot_at (s ∷ bs) (suc i) = slot_at bs i

-- `add_op`, on the node of number `i`.
abbrev pub add_op : HashTable → ℕ → ℤ → ℤ → HashTable
add_op ht i key val = record ht {
  bucket = set ht.bucket i (set_node key val occ);
  set_size = (ht.set_size + 1) % 2 ^ 64;
}

abbrev pub del_op : HashTable → ℕ → HashTable
del_op ht i = record ht {
  bucket = set ht.bucket i (set_node (pos 0) (pos 0) del);
  set_size = (ht.set_size + (2 ^ 64 - 1)) % 2 ^ 64;
}

-- `key + i`, for a signed key.
abbrev pub add_offset : ℤ → ℕ → ℤ
add_offset (pos a) i = pos (a + i)
add_offset (negsuc a) i = if leb (suc a) i then pos (i - suc a) else neg (suc a - i)

-- `hashCode` on a 64-bit machine, where `key + i` is signed.
unfoldable pub hash_code : ℤ → ℕ → ℕ → Run ℕ
hash_code key i zero = fault division_by_zero
hash_code key i (suc n) = ok (to_unsigned (mod_ℤ (add_offset key i) (suc n)))

-- The loop of `add` from probe `i` on, with the rounds that are left. `resize` has it once more.
unfoldable pub add_probe : ℕ → ℕ → HashTable → ℤ → ℤ → Run (HashTable × Bool)
add_probe zero i ht key val = ok (ht, false)
add_probe (suc rounds) i ht key val = hash_code key i ht.table_size >>= λ b.
    slot_at ht.bucket b >>= λ s. elim s.stat [
      | emp ↦ ok (add_op ht b key val, true)
      | del ↦ ok (add_op ht b key val, true)
      | occ ↦ add_probe rounds (suc i) ht key val
    ]

-- The loop of `delete`: the value is what is written to `*getval`, and stands for `true`.
unfoldable pub delete_probe : ℕ → ℕ → HashTable → ℤ → Run (HashTable × Option ℤ)
delete_probe zero i ht key = ok (ht, none)
delete_probe (suc rounds) i ht key = hash_code key i ht.table_size >>= λ b.
    slot_at ht.bucket b >>= λ s.
    let later = delete_probe rounds (suc i) ht key in
    elim s.stat [
      | emp ↦ ok (ht, none)
      | del ↦ later
      | occ ↦ if eqb_ℤ s.key key then ok (del_op ht b, some s.value) else later
    ]

-- The loop of `find`.
unfoldable pub find_probe : ℕ → ℕ → HashTable → ℤ → Run Bool
find_probe zero i ht key = ok false
find_probe (suc rounds) i ht key = hash_code key i ht.table_size >>= λ b.
    slot_at ht.bucket b >>= λ s.
    let later = find_probe rounds (suc i) ht key in
    elim s.stat [ emp ↦ ok false | del ↦ later | occ ↦ if eqb_ℤ s.key key then ok true else later ]

unfoldable pub find : HashTable → ℤ → Run Bool
find ht key = find_probe ht.table_size 0 ht key

unfoldable pub delete : HashTable → ℤ → Run (HashTable × Option ℤ)
delete ht key = delete_probe ht.table_size 0 ht key

-- `(table_size * 4 / 5) < setSize`; the product is cut to 32 bits.
abbrev pub policy : HashTable → Bool
policy ht = ltb (ht.table_size * 4 % 2 ^ 32 / 5) ht.set_size

-- `init_bucket`, where `calloc` answers: an array of empty nodes.
abbrev pub init_bucket : ℕ → List Slot
init_bucket n = replicate n (set_node (pos 0) (pos 0) emp)

-- The loop of `resize` over the first entries of the old array.
unfoldable pub move_slots : ℕ → List Slot → HashTable → Run HashTable
move_slots zero old ht = ok ht
move_slots (suc rounds) [] ht = fault out_of_range
move_slots (suc rounds) (s ∷ old) ht = elim s.stat [
  | emp ↦ move_slots rounds old ht
  | del ↦ move_slots rounds old ht
  | occ ↦ add_probe ht.table_size 0 ht s.key s.value >>= λ r. move_slots rounds old r.0
]

-- `resize`; `answers` says whether `calloc` gives the new array. If not, `ht->bucket` is NULL. At the
-- end the old array is freed.
unfoldable pub resize : Bool → HashTable → Run HashTable
resize answers ht =
    let n = ht.table_size * 2 % 2 ^ 32 in
    if answers
    then (do
      moved ← move_slots ht.table_size ht.bucket (record ht {
        set_size = 0;
        bucket = init_bucket n;
        table_size = n;
        old_bucket = ht.bucket;
        old_table_size = ht.table_size;
      })
      ok (record moved { old_bucket = [] }))
    else ok (record ht { old_table_size = ht.table_size; old_bucket = ht.bucket; bucket = [] })

unfoldable pub add : Bool → HashTable → ℤ → ℤ → Run (HashTable × Bool)
add answers ht key val = do
  (ht', ret) ← add_probe ht.table_size 0 ht key val
  grown ← if policy ht' then resize answers ht' else ok ht'
  ok (grown, ret)

-- `init_hashtable`: 2 ^ size nodes; the table and its array are two answers of `calloc`. The shift of
-- the `int` 0x0001 is defined in C for a size of at most 30.
unfoldable pub init_hashtable : Bool → Bool → ℕ → Run (Option HashTable)
init_hashtable table_there array_there size =
    let n = 2 ^ size in
    if leb 31 size
    then fault overflow
    else ok (
        if table_there && array_there
        then some (record {
          set_size = 0;
          bucket = init_bucket n;
          table_size = n;
          old_bucket = [];
          old_table_size = 0;
        })
        else none)
