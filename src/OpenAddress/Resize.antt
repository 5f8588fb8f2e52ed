-- ===== src/OpenAddress/Resize.antt =====
-- hash/OpenAddressHash.c: `resize` keeps the entries.
use algorithm_collection.Common.{
  ◌*◌, ◌%◌, ◌^◌, ◌<◌, ◌≡◌, refl, Bool, true, [], ok, arith, sym, Returns,
}
use algorithm_collection.OpenAddress.{Slot, HashTable, init_bucket, move_slots, resize}
use algorithm_collection.OpenAddress.Slots.{empty, count, is_occ, count-init_bucket}
use algorithm_collection.OpenAddress.Moves.{
  OfEntries, IsValid, IsTable-AreKeyed, move_slots-Moved, init_bucket-IsTable,
}

-- The same entries, as many, in a table that is well formed.
pub record Kept (ht ht' : HashTable) : Type 0 where
  pub valid : IsValid ht'
  pub entries :
      (holds : Slot → Bool) → OfEntries holds → count holds ht'.bucket ≡ count holds ht.bucket

-- `resize` before its loop, when the memory is there.
abbrev pub fresh : HashTable → HashTable
fresh ht = record {
  set_size = 0;
  bucket = init_bucket (ht.table_size * 2);
  table_size = ht.table_size * 2;
  old_bucket = ht.bucket;
  old_table_size = ht.table_size;
}

resize-run :
    (ht moved : HashTable)
    → ht.table_size * 2 < 2 ^ 32
    → move_slots ht.table_size ht.bucket (fresh ht) ≡ ok moved
    → resize true ht ≡ ok (record moved { old_bucket = [] })
unfolding resize
resize-run ht moved w run =
    let small : ht.table_size * 2 % 2 ^ 32 ≡ ht.table_size * 2 = omega arith in rw (small, run)

fresh-IsValid : (ht : HashTable) → IsValid ht → ht.table_size * 2 < 2 ^ 32 → IsValid (fresh ht)
fresh-IsValid ht v w = record {
  table = init_bucket-IsTable (ht.table_size * 2) (omega (arith, v.table.positive)) w;
  counted = sym (count-init_bucket is_occ (ht.table_size * 2) refl);
}

-- `resize` with memory for the new array, on a well-formed table of fewer than 2 ^ 31 nodes with fewer
-- entries than twice its size, doubles the size and keeps the entries, each as often as before, in
-- a well-formed table.
pub resize-Kept :
    (ht : HashTable)
    → IsValid ht
    → ht.table_size * 2 < 2 ^ 32
    → count is_occ ht.bucket < ht.table_size * 2
    → Returns (resize true ht) λ ht'. (ht'.table_size ≡ ht.table_size * 2) × Kept ht ht'
resize-Kept ht v w room =
    let (moved, run, m) =
      move_slots-Moved ht.bucket (fresh ht) (fresh-IsValid ht v w)
        (IsTable-AreKeyed ht.table_size ht.bucket v.table)
        (omega (arith, count-init_bucket is_occ (ht.table_size * 2) refl)) in
    let run' : move_slots ht.table_size ht.bucket (fresh ht) ≡ ok moved = rw v.table.width at run in
    (
      record moved { old_bucket = [] },
      resize-run ht moved w run',
      (
        m.size,
        record {
          valid = record { table = m.valid.table; counted = m.valid.counted };
          entries = λ holds h. omega (
            arith,
            m.entries holds h,
            count-init_bucket holds (ht.table_size * 2) (h empty refl),
          );
        },
      ),
    )
