-- ===== src/OpenAddress/Operations.antt =====
-- hash/OpenAddressHash.c: `add`, `delete`, `find` and `resize`, seen as changes of a multiset of
-- entries: how many nodes in use have any given property.
use algorithm_collection.Common.{
  ℕ, suc, ◌+◌, ◌-◌, ◌*◌, ◌/◌, ◌%◌, ◌^◌, ◌≤◌, ◌<◌, ◌≡◌, inl, inr, refl, Bool, true, [], ℤ, pos, ltb,
  leb, false, if◌then◌else◌, set, length, to_nat, ok, arith, ap, sym, ◌∙◌, Returns, ◌>>=◌,
  Bool-cases, Option, none, some, is_some, subst,
}
use native.Mathlib.Nat.{one-le-pow, two-pow-succ, pow-le-pow_right}
use algorithm_collection.OpenAddress.{
  del, occ, Slot, HashTable, set_node, del_op, add_probe, find, delete, add, policy, init_bucket,
  init_hashtable, resize,
}
use algorithm_collection.OpenAddress.Slots.{
  empty, slot, count, is_occ, hit, count-set, count-pos, count-le, count-init_bucket,
}
use algorithm_collection.OpenAddress.Probes.{hit-occ, write_del-IsTable}
use algorithm_collection.OpenAddress.Loops
use algorithm_collection.OpenAddress.Resize.{resize-Kept}
use algorithm_collection.OpenAddress.Moves.{
  OfEntries, entry, IsValid, add_probe-Inserted, init_bucket-IsTable,
}

-- At most four fifths of the nodes are in use.
abbrev pub IsLoaded : HashTable → Type 0
IsLoaded ht = ht.set_size ≤ ht.table_size * 4 / 5

-- One more entry, and the rest as it was, in a table that is not full.
pub record Entered (ht : HashTable) (new : Slot) (ht' : HashTable) : Type 0 where
  pub valid : IsValid ht'
  pub loaded : IsLoaded ht'
  pub entries :
      (holds : Slot → Bool)
      → OfEntries holds
      → count holds ht'.bucket ≡ count holds ht.bucket + to_nat (holds new)

add-run :
    (ht ht' : HashTable) (key val : ℤ) (ret : Bool)
    → add_probe ht.table_size 0 ht key val ≡ ok (ht', ret)
    → add true ht key val ≡ ((if policy ht' then resize true ht' else ok ht') >>= λ g. ok (g, ret))
unfolding add
add-run ht ht' key val ret h = rw h

-- `add` of a key from 0 on to a well-formed table of fewer than 2 ^ 30 nodes, at most four fifths of
-- them in use, with memory for `resize`, ends with no fault and returns true. The new table is well
-- formed, again has at most four fifths of its nodes in use, and has the entries of the old one and
-- the new entry, each as often as that.
pub add-Entered :
    (ht : HashTable) (a : ℕ) (val : ℤ)
    → IsValid ht
    → IsLoaded ht
    → ht.table_size * 4 < 2 ^ 32
    → Returns (add true ht (pos a) val) λ r. (r.1 ≡ true) × Entered ht (entry a val) r.0
add-Entered ht a val v loaded w =
    let ((ht', ret), run, (done, ins)) =
      add_probe-Inserted ht a val v (omega (arith, v.counted, v.table.positive)) in
    let whole = add-run ht ht' (pos a) val ret run in
    let bound : ht'.set_size ≤ ht.table_size * 4 / 5 + 1 =
      omega (arith, v.counted, ins.valid.counted, ins.entries is_occ (λ s h. h)) in
    elim (Bool-cases (policy ht')) [
      | inl full ↦
          let (ht'', run', (doubled, k)) =
            resize-Kept ht' ins.valid (omega (arith, ins.size))
              (omega (arith, ins.size, ins.valid.counted, v.table.positive)) in
          (
            (ht'', ret),
            whole ∙ rw (full, run'),
            (
              done,
              record {
                valid = k.valid;
                loaded = omega (
                  arith,
                  ins.size,
                  doubled,
                  k.valid.counted,
                  ins.valid.counted,
                  k.entries is_occ (λ s h. h),
                  v.table.positive,
                );
                entries = λ holds h. omega (arith, k.entries holds h, ins.entries holds h);
              },
            ),
          )
      | inr room ↦ (
        (ht', ret),
        whole ∙ rw room,
        (
          done,
          record { valid = ins.valid; loaded = ground (arith, ins.size); entries = ins.entries },
        ),
      )
    ]

-- `find` of a key from 0 on in a well-formed table ends with no fault, and returns true exactly when
-- a node in use has the key.
pub find-count :
    (ht : HashTable) (a : ℕ)
    → IsValid ht
    → find ht (pos a) ≡ ok (ltb 0 (count (hit (pos a)) ht.bucket))
unfolding find
find-count ht a v =
    Loops.find_probe-count ht v.table a ht.table_size 0 (omega arith) (λ j q. absurd (omega arith))

-- One entry less under the key, whose value is returned; or none was there.
pub record Taken (ht : HashTable) (key : ℤ) (ht' : HashTable) (got : Option ℤ) : Type 0 where
  pub valid : IsValid ht'
  pub size : ht'.table_size ≡ ht.table_size
  pub found : is_some got ≡ ltb 0 (count (hit key) ht.bucket)
  pub entries :
      (holds : Slot → Bool)
      → OfEntries holds
      → count holds ht'.bucket
          + elim got [ none ↦ 0 | some x ↦ to_nat (holds (set_node key x occ)) ]
        ≡ count holds ht.bucket

shrink-size :
    (ht : HashTable)
    → IsValid ht
    → (p : ℕ) → p < length ht.bucket
    → is_occ (slot ht.bucket p) ≡ true
    → (ht.set_size + (2 ^ 64 - 1)) % 2 ^ 64
      ≡ count is_occ (set ht.bucket p (set_node (pos 0) (pos 0) del))
shrink-size ht v p inside used =
    let fits = count-le is_occ ht.bucket in
    let change : count is_occ (set ht.bucket p (set_node (pos 0) (pos 0) del)) + 1
        ≡ count is_occ ht.bucket + 0 =
      subst
        (λ (b : Bool).
          count is_occ (set ht.bucket p (set_node (pos 0) (pos 0) del)) + to_nat b
          ≡ count is_occ ht.bucket + 0)
        used (count-set is_occ ht.bucket p (set_node (pos 0) (pos 0) del) inside) in
    omega (arith, v.counted, v.table.width, v.table.narrow)

-- What `del_op` does at a node in use under the key.
del_op-Taken :
    (ht : HashTable) (a : ℕ)
    → IsValid ht
    → (p : ℕ) → p < ht.table_size
    → hit (pos a) (slot ht.bucket p) ≡ true
    → Taken ht (pos a) (del_op ht p) (some (slot ht.bucket p).value)
del_op-Taken ht a v p below there =
    let s : Slot = slot ht.bucket p in
    let gone : Slot = set_node (pos 0) (pos 0) del in
    let inside : p < length ht.bucket = rw v.table.width below in
    let (used, key) = hit-occ (pos a) s there in
    let in_use : s.stat ≡ occ = ground arith in
    let whole : s ≡ entry a s.value =
      λ j. record { key = key j; value = s.value; stat = in_use j } in
    record {
      valid = record {
        table = write_del-IsTable ht.table_size ht.bucket v.table p below;
        counted = shrink-size ht v p inside used;
      };
      size = refl;
      found = ground (arith, count-pos (hit (pos a)) ht.bucket p inside there);
      entries = λ holds of_entries. omega (
        arith,
        count-set holds ht.bucket p gone inside,
        ap to_nat (of_entries gone refl),
        ap (λ (t : Slot). to_nat (holds t)) whole,
      );
    }

-- `delete` of a key from 0 on from a well-formed table ends with no fault. It returns true exactly
-- when a node in use has the key; then the new table lacks one entry with the key and the value
-- it wrote to `*getval`. All other entries are kept, each as often as before, and the new table is
-- well formed, of the same size.
pub delete-Taken :
    (ht : HashTable) (a : ℕ)
    → IsValid ht
    → Returns (delete ht (pos a)) λ r. Taken ht (pos a) r.0 r.1
unfolding delete
delete-Taken ht a v =
    elim (Loops.delete_probe-finds ht v.table a ht.table_size 0 (omega arith)
      (λ j q. absurd (omega arith))) [
        | inl (run, absent) ↦ (
          (ht, none),
          run,
          record {
            valid = v;
            size = refl;
            found = ground (arith, absent);
            entries = λ holds h. omega arith;
          },
        )
        | inr (p, below, there, run) ↦
            ((del_op ht p, some (slot ht.bucket p).value), run, del_op-Taken ht a v p below there)
      ]

-- With memory for the table and the array, and a size of at most 30, `init_hashtable` gives a
-- well-formed table of 2 ^ size nodes with at most four fifths in use, in which no entry has any property.
pub init_hashtable-IsLoaded :
    (size : ℕ)
    → size < 31
    → (ht : HashTable) × (init_hashtable true true size ≡ ok (some ht))
      × IsValid ht
      × IsLoaded ht
      × (ht.table_size ≡ 2 ^ size)
      × ((holds : Slot → Bool) → OfEntries holds → count holds ht.bucket ≡ 0)
unfolding init_hashtable
init_hashtable-IsLoaded size h =
    let n : ℕ = 2 ^ size in
    let positive : 1 ≤ n = one-le-pow size 2 (omega arith) in
    let below : 2 ^ suc size ≤ 2 ^ 31 = pow-le-pow_right (omega arith) h in
    let narrow : n < 2 ^ 32 = omega (arith, two-pow-succ size, positive, below) in
    let fits : leb 31 size ≡ false = ground (arith, h) in
    let none_used = count-init_bucket is_occ n refl in
    (
      record {
        set_size = 0;
        bucket = init_bucket n;
        table_size = n;
        old_bucket = [];
        old_table_size = 0;
      },
      rw fits,
      record { table = init_bucket-IsTable n positive narrow; counted = sym none_used },
      omega arith,
      refl,
      λ holds of_entries. count-init_bucket holds n (of_entries empty refl),
    )
