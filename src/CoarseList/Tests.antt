-- ===== src/CoarseList/Tests.antt =====
-- list/CoarseGrainedSynchroList.c: runs of the list, and its theorems at lists of two nodes.
use algorithm_collection.Common.{
  ◌≡◌, refl, true, some, [], ◌∷◌, arith, pos, negsuc, ok, fault, null_pointer, ◌>>=◌,
}
use algorithm_collection.Common.Chains.{lookup, Chain, insert, erase, lookup}
use algorithm_collection.CoarseList.{null, tail, node, add_loop, add, delete_loop, delete, find}
use algorithm_collection.CoarseList.Laws.{add-find, delete-find}
use algorithm_collection.CoarseList.Laws.{
  closed_by, add-insert, find-lookup, delete-erase, delete-find-null_pointer,
}

abbrev pair : Chain
pair = record { key = pos 2; value = pos 20 } ∷ record { key = pos 5; value = pos 50 } ∷ []

abbrev below_zero : Chain
below_zero =
    record { key = negsuc 8; value = pos 1 } ∷ record { key = negsuc 0; value = pos 2 } ∷ []

-- -9 and -1 are in the list and 0 is not; `delete` of 0 returns a value, and removes the sentinel.
delete_sentinel :
    delete (closed_by tail below_zero) (pos 0) ≡ ok (closed_by null below_zero, some (pos 0))
unfolding delete delete_loop
delete_sentinel = refl

add_middle :
    add true (closed_by tail pair) (pos 3) (pos 30)
    ≡ ok (node (pos 2) (pos 20) (node (pos 3) (pos 30) (node (pos 5) (pos 50) tail)), true)
unfolding add add_loop
add_middle = refl

add-insert_example :
    add true (closed_by tail pair) (pos 3) (pos 30)
    ≡ ok (closed_by tail (insert pair (record { key = pos 3; value = pos 30 })), true)
unfolding lookup
add-insert_example = add-insert pair (pos 3) (pos 30) (omega arith)

find-lookup_example : find (closed_by tail pair) (pos 5) ≡ ok (lookup (pos 5) pair)
find-lookup_example = find-lookup pair (pos 5) (omega arith)

delete-erase_example :
    delete (closed_by tail pair) (pos 2)
    ≡ ok (closed_by tail (erase (pos 2) pair), lookup (pos 2) pair)
delete-erase_example = delete-erase pair (pos 2) (omega arith)

delete-find-null_pointer_example :
    delete (closed_by tail below_zero) (pos 0) >>= (λ r. find r.0 (pos 3)) ≡ fault null_pointer
delete-find-null_pointer_example = delete-find-null_pointer below_zero 3 (omega arith) refl

add-find_example :
    add true (closed_by tail pair) (pos 3) (pos 30) >>= (λ r. find r.0 (pos 3)) ≡ ok (some (pos 30))
unfolding lookup
add-find_example = add-find pair (pos 3) (pos 30) (pos 3) (omega arith)

delete-find_example :
    delete (closed_by tail pair) (pos 2) >>= (λ r. find r.0 (pos 5)) ≡ ok (some (pos 50))
unfolding lookup
delete-find_example = delete-find pair (pos 2) (pos 5) (omega arith) refl
