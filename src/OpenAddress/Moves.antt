-- ===== src/OpenAddress/Moves.antt =====
-- hash/OpenAddressHash.c: how the loops of `add` and `resize` change how many nodes in use have a
-- given property.
use algorithm_collection.Common.{
  ℕ, suc, ◌+◌, ◌^◌, ◌<◌, ◌≡◌, inl, inr, refl, Bool, true, false, List, [], ◌∷◌, ℤ, pos, length,
  to_nat, arith, ap, sym, ◌∙◌, Returns, Bool-cases, length-replicate, subst,
}
use algorithm_collection.OpenAddress.{
  occ, Slot, HashTable, set_node, add_op, add_probe, init_bucket, move_slots,
}
use algorithm_collection.OpenAddress.Slots.{
  empty, slot, count, is_occ, count-set, slot-init_bucket, probe,
}
use algorithm_collection.OpenAddress.Probes.{IsTable, probe_lt, write_occ-IsTable}
use algorithm_collection.OpenAddress.Loops

-- A property of entries: no node that is not in use has it.
abbrev pub OfEntries : (Slot → Bool) → Type 0
OfEntries holds = (s : Slot) → is_occ s ≡ false → holds s ≡ false

abbrev pub entry : ℕ → ℤ → Slot
entry a val = set_node (pos a) val occ

pub record IsValid (ht : HashTable) : Type 0 where
  pub table : IsTable ht.table_size ht.bucket
  pub counted : ht.set_size ≡ count is_occ ht.bucket

-- One more entry, and the rest as it was.
pub record Inserted (ht : HashTable) (new : Slot) (ht' : HashTable) : Type 0 where
  pub valid : IsValid ht'
  pub size : ht'.table_size ≡ ht.table_size
  pub entries :
      (holds : Slot → Bool)
      → OfEntries holds
      → count holds ht'.bucket ≡ count holds ht.bucket + to_nat (holds new)

pub add_probe-Inserted :
    (ht : HashTable) (a : ℕ) (val : ℤ)
    → IsValid ht
    → count is_occ ht.bucket < ht.table_size
    → Returns
        (add_probe ht.table_size 0 ht (pos a) val)
        λ r. (r.1 ≡ true) × Inserted ht (entry a val) r.0
add_probe-Inserted ht a val v room =
    let n : ℕ = ht.table_size in
    let (i, below, used, free, run) =
      Loops.add_probe-finds ht v.table a val n 0 room (omega arith) (λ j q. absurd (omega arith)) in
    let p : ℕ = probe n a i in
    let inside = probe_lt n ht.bucket v.table a i in
    let small : count is_occ ht.bucket < 2 ^ 32 = omega (arith, v.table.narrow) in
    let changed = count-set is_occ ht.bucket p (entry a val) inside in
    (
      (add_op ht p (pos a) val, true),
      run,
      (
        refl,
        record {
          valid = record {
            table = write_occ-IsTable n ht.bucket v.table a i val below used;
            counted = ground (arith, changed, v.counted);
          };
          size = refl;
          entries = λ holds of_entries. ground (
            arith,
            count-set holds ht.bucket p (entry a val) inside,
            of_entries (slot ht.bucket p) free,
          );
        },
      ),
    )

-- What a key in a list of nodes is: a number from 0 on.
abbrev pub AreKeyed : List Slot → Type 0
AreKeyed [] = Unit
AreKeyed (s ∷ bs) = (is_occ s ≡ true → (a : ℕ) × (s.key ≡ pos a)) × AreKeyed bs

pub IsTable-AreKeyed : (n : ℕ) (bs : List Slot) → IsTable n bs → AreKeyed bs
IsTable-AreKeyed n bs t = go bs (λ p h used.
    let (a, i, key, below, at_p, path) = t.reached p (rw t.width at h) used in (a, key))
  where
    go :
        (bs : List Slot)
        → ((p : ℕ)
            → p < length bs
            → is_occ (slot bs p) ≡ true
            → (a : ℕ) × ((slot bs p).key ≡ pos a))
        → AreKeyed bs
    go [] h = tt
    go (s ∷ bs) h = (h 0 (omega arith), go bs (λ p q. h (suc p) (omega arith)))

-- The nodes in use of `old` have come to those of `ht`.
pub record Moved (old : List Slot) (ht ht' : HashTable) : Type 0 where
  pub valid : IsValid ht'
  pub size : ht'.table_size ≡ ht.table_size
  pub entries :
      (holds : Slot → Bool)
      → OfEntries holds
      → count holds ht'.bucket ≡ count holds ht.bucket + count holds old

move_none :
    (s : Slot) (old : List Slot) (ht : HashTable)
    → is_occ s ≡ false
    → move_slots (suc (length old)) (s ∷ old) ht ≡ move_slots (length old) old ht
unfolding move_slots
move_none s old ht h = ground arith

-- One node in use, before the rest of the old array.
move_entry :
    (a : ℕ) (val : ℤ) (old : List Slot) (ht : HashTable)
    → IsValid ht
    → count is_occ ht.bucket + suc (count is_occ old) < ht.table_size
    → ((ht' : HashTable)
        → IsValid ht'
        → count is_occ ht'.bucket + count is_occ old < ht'.table_size
        → Returns (move_slots (length old) old ht') (Moved old ht'))
    → Returns (move_slots (suc (length old)) (entry a val ∷ old) ht) (Moved (entry a val ∷ old) ht)
unfolding move_slots
move_entry a val old ht v room rest =
    let (r, run, (_, ins)) = add_probe-Inserted ht a val v (omega arith) in
    let grown : count is_occ r.0.bucket ≡ count is_occ ht.bucket + 1 =
      ins.entries is_occ (λ s' h. h) in
    let (ht', run', m) = rest r.0 ins.valid (omega (arith, grown, ins.size)) in
    (
      ht',
      rw run run',
      record {
        valid = m.valid;
        size = m.size ∙ ins.size;
        entries = λ holds h. omega (arith, m.entries holds h, ins.entries holds h);
      },
    )

pub move_slots-Moved :
    (old : List Slot) (ht : HashTable)
    → IsValid ht
    → AreKeyed old
    → count is_occ ht.bucket + count is_occ old < ht.table_size
    → Returns (move_slots (length old) old ht) (Moved old ht)
unfolding move_slots
move_slots-Moved [] ht v keyed room =
    (ht, refl, record { valid = v; size = refl; entries = λ holds h. omega arith })
move_slots-Moved (s ∷ old) ht v keyed room = elim (Bool-cases (is_occ s)) [
  | inr unused ↦
      let (ht', run, m) = move_slots-Moved old ht v keyed.1 (omega arith) in
      (
        ht',
        move_none s old ht unused ∙ run,
        record {
          valid = m.valid;
          size = m.size;
          entries = λ holds h. ground (arith, m.entries holds h, h s unused);
        },
      )
  | inl used ↦
      let (a, key) = keyed.0 used in
      let in_use : s.stat ≡ occ = ground arith in
      let same : entry a s.value ≡ s =
        λ j. record { key = sym key j; value = s.value; stat = sym in_use j } in
      subst
        (λ (s' : Slot). Returns (move_slots (suc (length old)) (s' ∷ old) ht) (Moved (s' ∷ old) ht))
        same
        (move_entry a s.value old ht v (ground arith)
          (λ ht' v' room'. move_slots-Moved old ht' v' keyed.1 room'))
]

-- An array from `init_bucket`.
pub init_bucket-IsTable : (n : ℕ) → 0 < n → n < 2 ^ 32 → IsTable n (init_bucket n)
init_bucket-IsTable n h w = record {
  width = length-replicate n empty;
  positive = h;
  narrow = w;
  reached = λ p q used. cc (sym (ap is_occ (slot-init_bucket n p)) ∙ used);
}
