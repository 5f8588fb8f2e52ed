-- ===== src/Hash/Tests.antt =====
-- hash/Hash.c: runs of the chained hash table, and its theorems at a table of two buckets.
use algorithm_collection.Common.{
  ◌>>=◌, ℕ, ◌≡◌, refl, Bool, true, false, none, some, [], ◌∷◌, arith, ℤ, pos, negsuc, ok, fault,
  null_pointer, out_of_range, Returns, is_some, replicate,
}
use algorithm_collection.Common.Chains.{Node}
use algorithm_collection.Hash.Chain.{add_node_op, add_node, delete_node, find_node}
use algorithm_collection.Hash.Table.{
  HashTable, hash_code, bucket_at, init_lists, init_bucket, init_hashtable, policy, move_chain,
  move_buckets, resize, grow, add, add_at, delete, find,
}
use algorithm_collection.Hash.Table.Doubling.{
  IsValid, contents, Doubled, init_hashtable-IsValid, resize-Doubled,
}
use algorithm_collection.Hash.Table.Operations.{
  Added, Deleted, add-Added, find-contents, delete-null_pointer, delete-Deleted,
}
use algorithm_collection.Hash.Table.Faults.{resize-find-out_of_range, negative_key-out_of_range}

abbrev answering : ℕ → Bool
answering j = true

abbrev entry : ℕ → ℕ → Node
entry k v = record { key = pos k; value = pos v }

abbrev sample : HashTable
sample = record {
  set_size = 3;
  bucket = some (entry 2 20 ∷ []) ∷ some (entry 1 10 ∷ entry 5 50 ∷ []) ∷ [];
  table_size = 2;
  old_bucket = [];
  old_table_size = 0;
}

sample-IsValid : IsValid sample
sample-IsValid = record {
  table = record {
    width = refl;
    positive = omega arith;
    narrow = omega arith;
    placed = omega arith;
  };
  counted = refl;
}

program : Unit {0}
unfolding hash_code bucket_at init_lists init_bucket init_hashtable policy move_chain move_buckets
    resize grow add_at add delete find add_node_op add_node delete_node find_node
program = tt

-- A duplicate is refused and changes nothing.
add_duplicate : add answering sample (pos 5) (pos 7) ≡ ok (sample, false)
unfolding program
add_duplicate = refl

-- The search for 3 stops at 5; the search for 7 runs off the chain.
delete_absent : delete sample (pos 3) ≡ ok (sample, none)
unfolding program
delete_absent = refl

delete_past_end : delete sample (pos 7) ≡ fault null_pointer
unfolding program
delete_past_end = refl

-- -3 % 2 is -1, which becomes 2 ^ 32 - 1.
find_negative : find sample (negsuc 2) ≡ fault out_of_range
unfolding program
find_negative = refl

-- Five keys in a table of one bucket make it grow.
crowded : HashTable
crowded = record {
  set_size = 4;
  bucket = some (entry 0 0 ∷ entry 1 1 ∷ entry 2 2 ∷ entry 3 3 ∷ []) ∷ [];
  table_size = 1;
  old_bucket = [];
  old_table_size = 0;
}

add_grows :
    add answering crowded (pos 4) (pos 4)
    ≡ ok (
      record {
        set_size = 5;
        bucket =
            some (entry 0 0 ∷ entry 2 2 ∷ entry 4 4 ∷ []) ∷ some (entry 1 1 ∷ entry 3 3 ∷ []) ∷ [];
        table_size = 2;
        old_bucket = [];
        old_table_size = 1;
      },
      true,
    )
unfolding program crowded
add_grows = refl

add-Added_example : Returns (add answering sample (pos 4) (pos 40)) (Added sample (pos 4) (pos 40))
add-Added_example =
    add-Added answering sample 4 (pos 40) sample-IsValid (λ j. refl) (omega arith) (omega arith)

find-contents_example : find sample (pos 5) ≡ ok (is_some (contents sample (pos 5)))
find-contents_example = find-contents sample 5 sample-IsValid

delete-null_pointer_example : delete sample (pos 7) ≡ fault null_pointer
delete-null_pointer_example = delete-null_pointer sample 7 sample-IsValid refl

delete-Deleted_example : Returns (delete sample (pos 5)) (Deleted sample (pos 5))
delete-Deleted_example = delete-Deleted sample 5 sample-IsValid refl (omega arith)

resize-Doubled_example : Returns (resize answering sample) (Doubled sample)
unfolding init_bucket init_lists
resize-Doubled_example = resize-Doubled answering sample sample-IsValid (omega arith) refl

resize-find-out_of_range_example :
    resize (λ j. false) sample >>= (λ ht'. find ht' (pos 5)) ≡ fault out_of_range
resize-find-out_of_range_example =
    resize-find-out_of_range (λ j. false) sample (pos 5) sample-IsValid refl

abbrev fresh : HashTable
fresh = record {
  set_size = 0;
  bucket = replicate 4 (some []);
  table_size = 4;
  old_bucket = [];
  old_table_size = 0;
}

init_hashtable-IsValid_example : IsValid fresh × ((q : ℤ) → contents fresh q ≡ none)
unfolding program
init_hashtable-IsValid_example = init_hashtable-IsValid answering 4 (omega arith) (omega arith) refl

negative_key-out_of_range_example :
    (find sample (negsuc 2) ≡ fault out_of_range)
    × (delete sample (negsuc 2) ≡ fault out_of_range)
    × (add answering sample (negsuc 2) (pos 0) ≡ fault out_of_range)
negative_key-out_of_range_example =
    negative_key-out_of_range answering sample 2 (pos 0) sample-IsValid (omega arith) (omega arith)
      refl
