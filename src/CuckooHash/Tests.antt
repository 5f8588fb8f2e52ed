-- ===== src/CuckooHash/Tests.antt =====
-- hash/CuckooHash.c: runs, and the theorems at a table of four nodes in each array.
use algorithm_collection.Common.{
  ℕ, zero, suc, ◌<◌, ◌≡◌, ◌⊎◌, refl, Bool, true, false, some, [], ◌∷◌, arith, pos, ok, Returns,
  replicate,
}
use algorithm_collection.OpenAddress.{Slot, slot_at}
use algorithm_collection.OpenAddress.Slots.{empty, slot, count, is_occ, hit}
use algorithm_collection.OpenAddress.Moves.{OfEntries, entry}
use algorithm_collection.CuckooHash.{
  HashTable, scale, remainder, hash_code0, hash_code1, get_node, swap_node, swap_rounds, find_op,
  find, delete, init_tables, move_slots, resize, add_tries, add, init_hashtable,
}
use algorithm_collection.CuckooHash.Rounds.{IsHome}
use algorithm_collection.CuckooHash.Moves.{IsValid}
use algorithm_collection.CuckooHash.Resize.{Kept, resize_keeps_entries}
use algorithm_collection.CuckooHash.Operations.{Tried, find-entries, add-Tried}
use algorithm_collection.CuckooHash.Collisions.{add-collision_false}
use algorithm_collection.CuckooHash.Removal.{Removed, delete-Removed, init_hashtable-nodes}

program : Unit {0}
unfolding slot_at scale remainder hash_code0 hash_code1 get_node swap_node swap_rounds find_op find
    delete init_tables move_slots resize add_tries add init_hashtable
program = tt

-- 1 * 271 % 4 is 3.
abbrev sample : HashTable
sample = record {
  set_size = 1;
  table0 = empty ∷ empty ∷ empty ∷ empty ∷ [];
  table1 = empty ∷ empty ∷ empty ∷ entry 1 (pos 10) ∷ [];
  table_size = 4;
  old_table0 = [];
  old_table1 = [];
  old_table_size = 0;
}

abbrev answering : ℕ → Bool × Bool
answering j = (true, true)

-- 5 has the node of 1 in array 1; array 0 is not tried, and the table is doubled.
add_doubles :
    add answering sample (pos 5) (pos 50)
    ≡ ok (
      record {
        set_size = 2;
        table0 = replicate 8 empty;
        table1 =
            empty
            ∷ empty
            ∷ empty
            ∷ entry 5 (pos 50)
            ∷ empty
            ∷ empty
            ∷ empty
            ∷ entry 1 (pos 10)
            ∷ [];
        table_size = 8;
        old_table0 = [];
        old_table1 = [];
        old_table_size = 4;
      },
      true,
    )
unfolding program
add_doubles = refl

sample-IsHome : (p : ℕ) → p < 4 → is_occ (slot sample.table1 p) ≡ true → IsHome 4 sample.table1 p
sample-IsHome zero h used = cc used
sample-IsHome (suc zero) h used = cc used
sample-IsHome (suc (suc zero)) h used = cc used
sample-IsHome (suc (suc (suc zero))) h used = (1, refl, refl, omega arith)
sample-IsHome (suc (suc (suc (suc p)))) h used = absurd (omega arith)

sample_unused : (p : ℕ) → p < 4 → is_occ (slot sample.table0 p) ≡ false
sample_unused zero h = refl
sample_unused (suc zero) h = refl
sample_unused (suc (suc zero)) h = refl
sample_unused (suc (suc (suc zero))) h = refl
sample_unused (suc (suc (suc (suc p)))) h = absurd (omega arith)

sample-IsValid : IsValid sample
sample-IsValid = record {
  table = record {
    width = refl;
    positive = omega arith;
    narrow = omega arith;
    at_home = sample-IsHome;
  };
  width0 = refl;
  unused0 = sample_unused;
  counted = refl;
}

resize_keeps_entries_example : Returns (resize (true, true) sample) (Kept sample)
resize_keeps_entries_example = resize_keeps_entries sample sample-IsValid (omega arith)

find-entries_example : find sample (pos 1) ≡ ok true
find-entries_example = find-entries sample 1 sample-IsValid (omega arith)

add-Tried_example : Returns (add answering sample (pos 5) (pos 50)) λ r.
    ((0 < count (hit (pos 5)) sample.table1) × (r ≡ (sample, false)))
    ⊎ ((count (hit (pos 5)) sample.table1 ≡ 0) × Tried sample 5 (pos 50) r)
add-Tried_example =
    add-Tried answering sample 5 (pos 50) (λ j. refl) sample-IsValid (omega arith) (omega arith)

delete-Removed_example : Returns (delete sample (pos 1)) (Removed sample (pos 1))
delete-Removed_example = delete-Removed sample 1 sample-IsValid (omega arith)

init_hashtable-nodes_example :
    (ht : HashTable) × (init_hashtable true (true, true) 2 ≡ some ht)
    × IsValid ht
    × (ht.table_size ≡ 4)
    × ((holds : Slot → Bool) → OfEntries holds → count holds ht.table1 ≡ 0)
init_hashtable-nodes_example = init_hashtable-nodes 2

-- 4097 is 1 + 4 * 1024.
add-collision_false_example : Returns (add answering sample (pos 4097) (pos 50)) λ r. r.1 ≡ false
add-collision_false_example =
    add-collision_false answering sample 4097 1 1 (pos 50) (λ j. refl) sample-IsValid (omega arith)
      (omega arith) refl (omega arith)
