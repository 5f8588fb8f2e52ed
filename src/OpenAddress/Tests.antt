-- ===== src/OpenAddress/Tests.antt =====
-- hash/OpenAddressHash.c: runs, and the theorems at a table of five nodes.
use algorithm_collection.Common.{
  ℕ, zero, suc, ◌+◌, ◌%◌, ◌<◌, ◌≡◌, ◌≢◌, subst, refl, Bool, true, some, [], ◌∷◌, arith, pos, negsuc,
  ok, fault, out_of_range, ◌>>=◌, Returns,
}
use algorithm_collection.OpenAddress.{
  emp, Slot, HashTable, slot_at, hash_code, add_probe, delete_probe, find_probe, find, delete,
  move_slots, resize, add, init_hashtable,
}
use algorithm_collection.OpenAddress.Slots.{empty, slot, count, is_occ}
use algorithm_collection.OpenAddress.Probes.{IsReached}
use algorithm_collection.OpenAddress.Moves.{OfEntries, entry, IsValid}
use algorithm_collection.OpenAddress.Resize.{Kept, resize-Kept}
use algorithm_collection.OpenAddress.Operations.{
  Entered, Taken, IsLoaded, add-Entered, find-count, delete-Taken, init_hashtable-IsLoaded,
}

-- 8 was met by 3, which keeps its place in the middle of the probes for 13.
abbrev sample : HashTable
sample = record {
  set_size = 2;
  bucket = empty ∷ empty ∷ empty ∷ entry 3 (pos 30) ∷ entry 8 (pos 80) ∷ [];
  table_size = 5;
  old_bucket = [];
  old_table_size = 0;
}

program : Unit {0}
unfolding slot_at hash_code add_probe delete_probe find_probe find delete move_slots resize add
    init_hashtable
program = tt

-- A second entry under the same key is taken.
add_twice :
    add true sample (pos 3) (pos 7)
    ≡ ok (
      record sample {
        set_size = 3;
        bucket = entry 3 (pos 7) ∷ empty ∷ empty ∷ entry 3 (pos 30) ∷ entry 8 (pos 80) ∷ [];
      },
      true,
    )
unfolding program
add_twice = refl

-- A deleted node does not end the search.
find_past_deleted : (delete sample (pos 3) >>= λ r. find r.0 (pos 8)) ≡ ok true
unfolding program
find_past_deleted = refl

find_negative : find sample (negsuc 2) ≡ fault out_of_range
unfolding program
find_negative = refl

sample-IsReached :
    (p : ℕ) → p < 5 → is_occ (slot sample.bucket p) ≡ true → IsReached 5 sample.bucket p
sample-IsReached zero h used = cc used
sample-IsReached (suc zero) h used = cc used
sample-IsReached (suc (suc zero)) h used = cc used
sample-IsReached (suc (suc (suc zero))) h used =
    (3, 0, refl, omega arith, refl, λ j q. absurd (omega arith))
sample-IsReached (suc (suc (suc (suc zero)))) h used = (
  8,
  1,
  refl,
  omega arith,
  refl,
  λ j q.
      let e : 0 ≡ j = omega arith in
      subst (λ (k : ℕ). (slot sample.bucket ((8 + k) % 5)).stat ≢ emp) e (λ r. cc r),
)
sample-IsReached (suc (suc (suc (suc (suc p))))) h used = absurd (omega arith)

sample-IsValid : IsValid sample
sample-IsValid = record {
  table = record {
    width = refl;
    positive = omega arith;
    narrow = omega arith;
    reached = sample-IsReached;
  };
  counted = refl;
}

resize-Kept_example : Returns (resize true sample) λ ht'. (ht'.table_size ≡ 10) × Kept sample ht'
resize-Kept_example = resize-Kept sample sample-IsValid (omega arith) (omega arith)

add-Entered_example :
    Returns
      (add true sample (pos 13) (pos 130))
      λ r. (r.1 ≡ true) × Entered sample (entry 13 (pos 130)) r.0
add-Entered_example = add-Entered sample 13 (pos 130) sample-IsValid (omega arith) (omega arith)

find-count_example : find sample (pos 8) ≡ ok true
find-count_example = find-count sample 8 sample-IsValid

delete-Taken_example : Returns (delete sample (pos 8)) λ r. Taken sample (pos 8) r.0 r.1
delete-Taken_example = delete-Taken sample 8 sample-IsValid

init_hashtable-IsLoaded_example :
    (ht : HashTable) × (init_hashtable true true 10 ≡ ok (some ht))
    × IsValid ht
    × IsLoaded ht
    × (ht.table_size ≡ 1024)
    × ((holds : Slot → Bool) → OfEntries holds → count holds ht.bucket ≡ 0)
init_hashtable-IsLoaded_example = init_hashtable-IsLoaded 10 (omega arith)
