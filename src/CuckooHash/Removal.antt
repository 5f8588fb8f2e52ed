-- ===== src/CuckooHash/Removal.antt =====
-- hash/CuckooHash.c: `delete` and `init_hashtable`.
use algorithm_collection.Common.{
  ℕ, ◌+◌, ◌*◌, ◌^◌, ◌≤◌, ◌<◌, ◌≡◌, refl, Bool, true, List, [], ℤ, pos, ltb, leb, if◌then◌else◌, set,
  length, to_nat, arith, ap, sym, ◌∙◌, Returns, Bool-cases, inl, inr, Option, none, some, is_some,
  length-set, length-replicate,
}
use native.Mathlib.Decide.{ℕ_discrete}
use native.Mathlib.Nat.{mod-lt, pow-le-pow_right, one-le-pow}
use mathlib.Core.Bool.{false≢true}
use algorithm_collection.OpenAddress.{del, occ, Slot, set_node}
use algorithm_collection.OpenAddress.Slots.{
  empty, slot, count, is_occ, hit, slot-set, count-set, count-le, count-init_bucket,
}
use algorithm_collection.OpenAddress.Probes.{hit-occ}
use algorithm_collection.OpenAddress.Moves.{OfEntries, entry}
use algorithm_collection.CuckooHash.{
  HashTable, init_tables, empty_nodes, delete, del_op, init_hashtable,
}
use algorithm_collection.CuckooHash.Rounds.{home, IsScalable, IsTable, used-entry}
use algorithm_collection.CuckooHash.Moves.{IsValid}
use algorithm_collection.CuckooHash.Resize.{empty_nodes-IsTable, empty_unused}
use algorithm_collection.CuckooHash.Operations.{get_node0, get_node1, count-home}

abbrev gone : Slot
gone = set_node (pos 0) (pos 0) del

delete-IsTable : (n p : ℕ) (bs : List Slot) → p < n → IsTable n bs → IsTable n (set bs p gone)
delete-IsTable n p bs h t =
    let inside : p < length bs = rw t.width h in
    record {
      width = length-set bs p gone ∙ t.width;
      positive = t.positive;
      narrow = t.narrow;
      at_home = λ q below used. elim (ℕ_discrete q p) [
        | yes e ↦
            let here : slot (set bs p gone) q ≡ gone = slot-set bs p q gone inside ∙ ground arith in
            absurd (false≢true (sym (ap is_occ here) ∙ used))
        | no e ↦
            let other : slot (set bs p gone) q ≡ slot bs q =
              slot-set bs p q gone inside ∙ ground arith in
            let (b, key, at_q, fits) = t.at_home q below (ap is_occ (sym other) ∙ used) in
            (b, ap (λ (s : Slot). s.key) other ∙ key, at_q, fits)
      ];
    }

-- One entry less under the key, whose value is returned; or none was there.
pub record Removed (ht : HashTable) (key : ℤ) (r : HashTable × Option ℤ) : Type 0 where
  pub valid : IsValid r.0
  pub found : is_some r.1 ≡ ltb 0 (count (hit key) ht.table1)
  pub entries :
      (holds : Slot → Bool)
      → OfEntries holds
      → count holds r.0.table1
          + elim r.1 [ none ↦ 0 | some x ↦ to_nat (holds (set_node key x occ)) ]
        ≡ count holds ht.table1

-- What `del_op` does at the node of the key in array 1.
del_op-Removed :
    (ht : HashTable) (a : ℕ)
    → IsValid ht
    → hit (pos a) (slot ht.table1 (home ht.table_size a)) ≡ true
    → Removed ht
        (pos a)
        (del_op ht 1 (home ht.table_size a), some (slot ht.table1 (home ht.table_size a)).value)
del_op-Removed ht a v there =
    let p : ℕ = home ht.table_size a in
    let s : Slot = slot ht.table1 p in
    let below : p < ht.table_size = mod-lt (a * 271) v.table.positive in
    let inside : p < length ht.table1 = rw v.table.width below in
    let (used, key) = hit-occ (pos a) s there in
    let whole = used-entry s a used key in
    let change : (holds : Slot → Bool)
        → OfEntries holds
        → count holds (set ht.table1 p gone) + to_nat (holds (entry a s.value))
          ≡ count holds ht.table1 =
      λ holds of_entries. omega (
        arith,
        count-set holds ht.table1 p gone inside,
        ap to_nat (of_entries gone refl),
        ap (λ (t : Slot). to_nat (holds t)) whole,
      ) in
    record {
      valid = record {
        table = delete-IsTable ht.table_size p ht.table1 below v.table;
        width0 = v.width0;
        unused0 = v.unused0;
        counted = omega (
          arith,
          v.counted,
          v.table.width,
          v.table.narrow,
          count-le is_occ ht.table1,
          change is_occ (λ t h. h),
        );
      };
      found = sym there ∙ count-home ht a v;
      entries = change;
    }

-- `delete` of a key from 0 on, whose product with 271 is less than 2 ^ 63, from a well-formed table ends with no fault. It returns true exactly
-- when a node in use has the key; then the new table lacks one entry with the key and the value
-- it wrote to `*getval`. All other entries are kept, each as often as before, and the new table is
-- well formed.
pub delete-Removed :
    (ht : HashTable) (a : ℕ)
    → IsValid ht
    → IsScalable a
    → Returns (delete ht (pos a)) (Removed ht (pos a))
unfolding delete
delete-Removed ht a v fits =
    let (b, s, run0, unused) = get_node0 ht a v fits in
    let p : ℕ = home ht.table_size a in
    elim (Bool-cases (hit (pos a) (slot ht.table1 p))) [
      | inl there ↦ (
        (del_op ht 1 p, some (slot ht.table1 p).value),
        rw (run0, get_node1 ht a v fits) (ground (arith, unused)),
        del_op-Removed ht a v there,
      )
      | inr absent ↦ (
        (ht, none),
        rw (run0, get_node1 ht a v fits) (ground (arith, unused)),
        record {
          valid = v;
          found = sym absent ∙ count-home ht a v;
          entries = λ holds of_entries. omega arith;
        },
      )
    ]

-- With memory for the table and its arrays, `init_hashtable` gives a well-formed table with arrays of
-- 2 ^ size nodes, of 1024 for a size above 10, in which no entry has any property.
pub init_hashtable-nodes :
    (size : ℕ)
    → (ht : HashTable) × (init_hashtable true (true, true) size ≡ some ht)
      × IsValid ht
      × (ht.table_size ≡ 2 ^ (if leb 10 size then 10 else size))
      × ((holds : Slot → Bool) → OfEntries holds → count holds ht.table1 ≡ 0)
unfolding init_hashtable init_tables
init_hashtable-nodes size =
    let e : ℕ = if leb 10 size then 10 else size in
    let n : ℕ = 2 ^ e in
    let small : e ≤ 10 = ground arith in
    let narrow : n ≤ 2 ^ 10 = pow-le-pow_right (omega arith) small in
    let positive : 1 ≤ n = one-le-pow e 2 (omega arith) in
    (
      record {
        set_size = 0;
        table0 = empty_nodes n;
        table1 = empty_nodes n;
        table_size = n;
        old_table0 = [];
        old_table1 = [];
        old_table_size = 0;
      },
      refl,
      record {
        table = empty_nodes-IsTable n positive (omega (arith, narrow));
        width0 = length-replicate n empty;
        unused0 = λ p h. empty_unused n p;
        counted = sym (count-init_bucket is_occ n refl);
      },
      refl,
      λ holds of_entries. count-init_bucket holds n (of_entries empty refl),
    )
