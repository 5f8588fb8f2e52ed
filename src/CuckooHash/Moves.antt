-- ===== src/CuckooHash/Moves.antt =====
-- hash/CuckooHash.c: the loop of `resize` finds a free node for every entry.
use algorithm_collection.Common.{
  ℕ, suc, ◌+◌, ◌*◌, ◌%◌, ◌<◌, ◌≡◌, refl, Bool, true, false, List, [], ◌∷◌, ℤ, pos, set, length,
  to_nat, ok, arith, ap, sym, ◌∙◌, Returns, Bool-cases, inl, inr, subst,
}
use native.Mathlib.Decide.{ℕ_discrete}
use native.Mathlib.Nat.{mod-lt, mod-mod_of_dvd, dvd-mul_right}
use algorithm_collection.OpenAddress.{Slot}
use algorithm_collection.OpenAddress.Slots.{slot, count, is_occ, slot-set, count-set, count-le}
use algorithm_collection.OpenAddress.Moves.{OfEntries, entry}
use algorithm_collection.CuckooHash.{HashTable, count_up, move_slots}
use algorithm_collection.CuckooHash.Rounds.{
  home, IsScalable, IsTable, written, used-entry, swap_rounds_room, write-IsTable,
}

-- Well formed: the first array is not used, every entry is where array 1 wants it, and counted.
pub record IsValid (ht : HashTable) : Type 0 where
  pub table : IsTable ht.table_size ht.table1
  pub width0 : length ht.table0 ≡ ht.table_size
  pub unused0 : (p : ℕ) → p < ht.table_size → is_occ (slot ht.table0 p) ≡ false
  pub counted : ht.set_size ≡ count is_occ ht.table1

-- The nodes in use of `old` have come to those of `ht`.
pub record Moved (old : List Slot) (ht ht' : HashTable) : Type 0 where
  pub valid : IsValid ht'
  pub size : ht'.table_size ≡ ht.table_size
  pub entries :
      (holds : Slot → Bool)
      → OfEntries holds
      → count holds ht'.table1 ≡ count holds ht.table1 + count holds old

-- The table after an entry was written to a free node.
abbrev pub entered : HashTable → ℕ → ℤ → HashTable
entered ht a val = count_up (written ht (home ht.table_size a) (entry a val))

module _ (ht : HashTable) (a : ℕ) (val : ℤ) (v : IsValid ht) (fits : IsScalable a)
    (free : is_occ (slot ht.table1 (home ht.table_size a)) ≡ false) where
  inside : home ht.table_size a < length ht.table1
  inside = rw v.table.width (mod-lt (a * 271) v.table.positive)

  pub entered-count :
      (holds : Slot → Bool)
      → OfEntries holds
      → count holds (entered ht a val).table1 ≡ count holds ht.table1 + to_nat (holds (entry a val))
  entered-count holds of_entries = omega (
    arith,
    count-set holds ht.table1 (home ht.table_size a) (entry a val) inside,
    ap to_nat (of_entries (slot ht.table1 (home ht.table_size a)) free),
  )

  pub entered-IsValid : IsValid (entered ht a val)
  entered-IsValid = record {
    table = write-IsTable ht.table_size ht.table1 a val v.table fits;
    width0 = v.width0;
    unused0 = v.unused0;
    counted = omega (
      arith,
      v.counted,
      v.table.width,
      v.table.narrow,
      count-le is_occ ht.table1,
      entered-count is_occ (λ s h. h),
    );
  }

-- The nodes of array 1 that are in use come from the first `i` nodes of an array of `m`.
abbrev pub ComesFrom : ℕ → ℕ → HashTable → Type 0
ComesFrom m i ht = (p : ℕ) → p < m * 2 → is_occ (slot ht.table1 p) ≡ true → p % m < i

-- The nodes of `old` stand from number `i` on in an array of `m`.
abbrev pub StandsFrom : ℕ → ℕ → List Slot → Type 0
StandsFrom m i [] = Unit
StandsFrom m i (s ∷ old) =
    (is_occ s ≡ true → (a : ℕ) × (s.key ≡ pos a) × (home m a ≡ i) × IsScalable a)
    × StandsFrom m (suc i) old

home_half : (m a : ℕ) → 0 < m → home (m * 2) a % m ≡ home m a
home_half m a h = mod-mod_of_dvd m (a * 271) (dvd-mul_right m 2)

entered-ComesFrom :
    (m i a : ℕ) (val : ℤ) (ht : HashTable)
    → IsValid ht
    → ht.table_size ≡ m * 2
    → 0 < m
    → home m a ≡ i
    → ComesFrom m i ht
    → ComesFrom m (suc i) (entered ht a val)
entered-ComesFrom m i a val ht v size h at_i from p below used =
    let q : ℕ = home ht.table_size a in
    let inside : q < length ht.table1 = rw v.table.width (mod-lt (a * 271) v.table.positive) in
    elim (ℕ_discrete p q) [
      | yes e ↦
          let halved : p % m ≡ i =
            same_mod m p q e
            ∙ subst (λ (n : ℕ). home n a % m ≡ home m a) (sym size) (home_half m a h)
            ∙ at_i in
          omega (arith, halved)
      | no e ↦
          let other : slot (set ht.table1 q (entry a val)) p ≡ slot ht.table1 p =
            slot-set ht.table1 q p (entry a val) inside ∙ ground arith in
          omega (arith, from p below (ap is_occ (sym other) ∙ used))
    ]
  where
    same_mod : (m p q : ℕ) → p ≡ q → p % m ≡ q % m
    same_mod m p q e = ap (λ (x : ℕ). x % m) e

-- The node for an entry of the old array is free.
free_home :
    (m i a : ℕ) (ht : HashTable)
    → IsValid ht
    → ht.table_size ≡ m * 2
    → 0 < m
    → home m a ≡ i
    → ComesFrom m i ht
    → is_occ (slot ht.table1 (home ht.table_size a)) ≡ false
free_home m i a ht v size h at_i from =
    elim (Bool-cases (is_occ (slot ht.table1 (home ht.table_size a)))) [
      | inr free ↦ free
      | inl used ↦
          let halved : home ht.table_size a % m ≡ i =
            subst (λ (n : ℕ). home n a % m ≡ home m a) (sym size) (home_half m a h) ∙ at_i in
          let below =
            from (home ht.table_size a)
              (subst (λ (n : ℕ). home ht.table_size a < n) size (mod-lt (a * 271) v.table.positive))
              used in
          absurd (omega (arith, halved, below))
    ]

move_none :
    (s : Slot) (old : List Slot) (ht : HashTable)
    → is_occ s ≡ false
    → move_slots (suc (length old)) (s ∷ old) ht ≡ move_slots (length old) old ht
unfolding move_slots
move_none s old ht h = ground arith

-- One node in use, before the rest of the old array.
move_entry :
    (a : ℕ) (val : ℤ) (old : List Slot) (ht : HashTable)
    → IsTable ht.table_size ht.table1
    → IsScalable a
    → is_occ (slot ht.table1 (home ht.table_size a)) ≡ false
    → move_slots (suc (length old)) (entry a val ∷ old) ht
      ≡ move_slots (length old) old (entered ht a val)
unfolding move_slots
move_entry a val old ht t fits free =
    rw (swap_rounds_room ht ht.table_size a val t.positive t fits free)

pub move_slots-Moved :
    (m i : ℕ) (old : List Slot) (ht : HashTable)
    → IsValid ht
    → ht.table_size ≡ m * 2
    → 0 < m
    → StandsFrom m i old
    → ComesFrom m i ht
    → Returns (move_slots (length old) old ht) (Moved old ht)
unfolding move_slots
move_slots-Moved m i [] ht v size h stands from =
    (ht, refl, record { valid = v; size = refl; entries = λ holds of_entries. omega arith })
move_slots-Moved m i (s ∷ old) ht v size h stands from = elim (Bool-cases (is_occ s)) [
  | inr unused ↦
      let (ht', run, moved) =
        move_slots-Moved m (suc i) old ht v size h stands.1
          (λ p below used. omega (arith, from p below used)) in
      (
        ht',
        move_none s old ht unused ∙ run,
        record {
          valid = moved.valid;
          size = moved.size;
          entries = λ holds of_entries.
              ground (arith, moved.entries holds of_entries, of_entries s unused);
        },
      )
  | inl used ↦
      let (a, key, at_i, fits) = stands.0 used in
      let free = free_home m i a ht v size h at_i from in
      let (ht', run, moved) =
        move_slots-Moved m (suc i) old (entered ht a s.value)
          (entered-IsValid ht a s.value v fits free) size h stands.1
          (entered-ComesFrom m i a s.value ht v size h at_i from) in
      (
        ht',
        subst (λ (s' : Slot). move_slots (suc (length old)) (s' ∷ old) ht ≡ ok ht')
            (used-entry s a used key) (move_entry a s.value old ht v.table fits free ∙ run),
        record {
          valid = moved.valid;
          size = moved.size;
          entries = λ holds of_entries. omega (
            arith,
            moved.entries holds of_entries,
            entered-count ht a s.value v fits free holds of_entries,
            ap (λ (s' : Slot). to_nat (holds s')) (used-entry s a used key),
          );
        },
      )
]

-- An array with no node in use moves nothing.
pub move_slots_unused :
    (old : List Slot) (ht : HashTable)
    → ((p : ℕ) → p < length old → is_occ (slot old p) ≡ false)
    → move_slots (length old) old ht ≡ ok ht
unfolding move_slots
move_slots_unused [] ht unused = refl
move_slots_unused (s ∷ old) ht unused =
    move_none s old ht (unused 0 (omega arith))
    ∙ move_slots_unused old ht (λ p h. unused (suc p) (omega arith))
