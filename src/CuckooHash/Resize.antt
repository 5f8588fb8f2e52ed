-- ===== src/CuckooHash/Resize.antt =====
-- hash/CuckooHash.c: `resize` keeps the entries.
use algorithm_collection.Common.{
  ℕ, suc, ◌+◌, ◌*◌, ◌%◌, ◌^◌, ◌<◌, ◌≡◌, refl, Bool, true, false, List, [], ◌∷◌, pos, length, ok,
  arith, ap, sym, ◌∙◌, Returns, length-replicate,
}
use mathlib.Core.Bool.{false≢true}
use algorithm_collection.OpenAddress.{Slot}
use algorithm_collection.OpenAddress.Slots.{
  empty, slot, count, is_occ, count-init_bucket, slot-init_bucket,
}
use algorithm_collection.OpenAddress.Moves.{OfEntries}
use algorithm_collection.CuckooHash.{HashTable, move_slots, resize, init_tables, empty_nodes}
use algorithm_collection.CuckooHash.Rounds.{home, IsScalable, IsTable}
use algorithm_collection.CuckooHash.Moves.{IsValid, StandsFrom, move_slots-Moved, move_slots_unused}

-- The same entries, each as often, in a well-formed table.
pub record Kept (ht ht' : HashTable) : Type 0 where
  pub valid : IsValid ht'
  pub size : ht'.table_size ≡ ht.table_size * 2
  pub entries :
      (holds : Slot → Bool) → OfEntries holds → count holds ht'.table1 ≡ count holds ht.table1

-- `resize` before its loops, when the memory is there.
abbrev fresh : HashTable → HashTable
fresh ht = record {
  set_size = 0;
  table0 = empty_nodes (ht.table_size * 2);
  table1 = empty_nodes (ht.table_size * 2);
  table_size = ht.table_size * 2;
  old_table0 = ht.table0;
  old_table1 = ht.table1;
  old_table_size = ht.table_size;
}

resize-run :
    (ht moved : HashTable)
    → ht.table_size * 2 < 2 ^ 32
    → move_slots ht.table_size ht.table0 (fresh ht) ≡ ok (fresh ht)
    → move_slots ht.table_size ht.table1 (fresh ht) ≡ ok moved
    → resize (true, true) ht ≡ ok (record moved { old_table0 = []; old_table1 = [] })
unfolding resize init_tables
resize-run ht moved w run0 run1 =
    let small : ht.table_size * 2 % 2 ^ 32 ≡ ht.table_size * 2 = omega arith in
    rw (small, run0, run1)

pub empty_unused : (n p : ℕ) → is_occ (slot (empty_nodes n) p) ≡ false
empty_unused n p = ap is_occ (slot-init_bucket n p)

pub empty_nodes-IsTable : (n : ℕ) → 0 < n → n < 2 ^ 32 → IsTable n (empty_nodes n)
empty_nodes-IsTable n h w = record {
  width = length-replicate n empty;
  positive = h;
  narrow = w;
  at_home = λ p q used. absurd (false≢true (sym (empty_unused n p) ∙ used));
}

fresh-IsValid : (ht : HashTable) → IsValid ht → ht.table_size * 2 < 2 ^ 32 → IsValid (fresh ht)
fresh-IsValid ht v w = record {
  table = empty_nodes-IsTable (ht.table_size * 2) (omega (arith, v.table.positive)) w;
  width0 = length-replicate (ht.table_size * 2) empty;
  unused0 = λ p h. empty_unused (ht.table_size * 2) p;
  counted = sym (count-init_bucket is_occ (ht.table_size * 2) refl);
}

IsTable-StandsFrom : (n : ℕ) (bs : List Slot) → IsTable n bs → StandsFrom n 0 bs
IsTable-StandsFrom n bs t = go 0 bs (λ p h used.
    let (a, key, at_p, fits) = t.at_home p (rw t.width at h) used in
    (a, key, at_p ∙ omega arith, fits))
  where
    go :
        (i : ℕ) (old : List Slot)
        → ((p : ℕ)
            → p < length old
            → is_occ (slot old p) ≡ true
            → (a : ℕ) × ((slot old p).key ≡ pos a) × (home n a ≡ i + p) × IsScalable a)
        → StandsFrom n i old
    go i [] h = tt
    go i (s ∷ old) h = (
      λ used.
          let (a, key, at_i, fits) = h 0 (omega arith) used in (a, key, at_i ∙ omega arith, fits),
      go (suc i) old (λ p q used.
          let (a, key, at_p, fits) = h (suc p) (omega arith) used in
          (a, key, at_p ∙ omega arith, fits)),
    )

-- `resize` of a well-formed table with memory for both arrays and fewer than 2 ^ 31 nodes in each
-- ends with no fault in a well-formed table of twice the size with the same entries, each as
-- often: no entry is lost, since every one finds its node free.
pub resize_keeps_entries :
    (ht : HashTable)
    → IsValid ht
    → ht.table_size * 2 < 2 ^ 32
    → Returns (resize (true, true) ht) (Kept ht)
resize_keeps_entries ht v w =
    let n : ℕ = ht.table_size in
    let (moved, run, m) =
      move_slots-Moved n 0 ht.table1 (fresh ht) (fresh-IsValid ht v w) refl v.table.positive
        (IsTable-StandsFrom n ht.table1 v.table)
        (λ p h used. absurd (false≢true (sym (empty_unused (n * 2) p) ∙ used))) in
    let none0 = move_slots_unused ht.table0 (fresh ht) (λ p h. v.unused0 p (rw v.width0 at h)) in
    let run0 : move_slots n ht.table0 (fresh ht) ≡ ok (fresh ht) = rw v.width0 at none0 in
    let run1 : move_slots n ht.table1 (fresh ht) ≡ ok moved = rw v.table.width at run in
    (
      record moved { old_table0 = []; old_table1 = [] },
      resize-run ht moved w run0 run1,
      record {
        valid = record {
          table = m.valid.table;
          width0 = m.valid.width0;
          unused0 = m.valid.unused0;
          counted = m.valid.counted;
        };
        size = m.size;
        entries = λ holds of_entries. omega (
          arith,
          m.entries holds of_entries,
          count-init_bucket holds (n * 2) (of_entries empty refl),
        );
      },
    )
