-- ===== src/CuckooHash/Rounds.antt =====
-- hash/CuckooHash.c: what the loop of swaps does, in a table whose first array is not used.
use algorithm_collection.Common.{
  ℕ, zero, suc, ◌*◌, ◌%◌, ◌^◌, ◌<◌, ◌≡◌, refl, ltb, true, false, not, List, [], ◌∷◌, ℤ, pos, set,
  length, ok, arith, ap, sym, ◌∙◌, length-set, subst,
}
use native.Mathlib.Decide.{ℕ_discrete}
use native.Mathlib.Nat.{mod-lt}
use algorithm_collection.OpenAddress.{occ, Slot}
use algorithm_collection.OpenAddress.Slots.{slot, is_occ, slot_at-slot, slot-set}
use algorithm_collection.OpenAddress.Moves.{entry}
use algorithm_collection.CuckooHash.{
  HashTable, hash_code1, scale, remainder, get_node, swap_node, count_up, swap_rounds,
}

-- The node of array 1 for a key from 0 on.
abbrev pub home : ℕ → ℕ → ℕ
home n a = a * 271 % n

-- The products of `hashCode0` and `hashCode1` for the key fit their type.
abbrev pub IsScalable : ℕ → Type 0
IsScalable a = a * 271 < 2 ^ 63

-- The node number `p` of array 1 holds a key that belongs there.
abbrev pub IsHome : ℕ → List Slot → ℕ → Type 0
IsHome n bs p = (a : ℕ) × ((slot bs p).key ≡ pos a) × (home n a ≡ p) × IsScalable a

pub record IsTable (n : ℕ) (bs : List Slot) : Type 0 where
  pub width : length bs ≡ n
  pub positive : 0 < n
  pub narrow : n < 2 ^ 32
  pub at_home : (p : ℕ) → p < n → is_occ (slot bs p) ≡ true → IsHome n bs p

pub remainder-mod : (b n : ℕ) → 0 < n → n < 2 ^ 32 → remainder (pos b) n ≡ ok (b % n)
unfolding remainder
remainder-mod b zero h w = absurd (omega arith)
remainder-mod b (suc n) h w = ap ok (omega arith)

pub scale-fits : (a factor : ℕ) → a * factor < 2 ^ 63 → scale (pos a) factor ≡ ok (pos (a * factor))
unfolding scale
scale-fits a factor h = let fits : ltb (a * factor) (2 ^ 63) ≡ true = ground arith in rw fits

pub hash_code1-home :
    (a n : ℕ) → 0 < n → n < 2 ^ 32 → IsScalable a → hash_code1 (pos a) n ≡ ok (home n a)
unfolding hash_code1
hash_code1-home a n h w fits = rw (scale-fits a 271 fits, remainder-mod (a * 271) n h w)

set-set : (bs : List Slot) (i : ℕ) (s t : Slot) → set (set bs i s) i t ≡ set bs i t
set-set [] i s t = refl
set-set (b ∷ bs) zero s t = refl
set-set (b ∷ bs) (suc i) s t = ap (λ (c : List Slot). b ∷ c) (set-set bs i s t)

set-slot : (bs : List Slot) (i : ℕ) → set bs i (slot bs i) ≡ bs
set-slot [] i = refl
set-slot (b ∷ bs) zero = refl
set-slot (b ∷ bs) (suc i) = ap (λ (c : List Slot). b ∷ c) (set-slot bs i)

-- A node in use is the entry for its key and value.
pub used-entry : (s : Slot) (a : ℕ) → is_occ s ≡ true → s.key ≡ pos a → entry a s.value ≡ s
used-entry s a used key =
    let in_use : s.stat ≡ occ = ground arith in
    λ j. record { key = sym key j; value = s.value; stat = sym in_use j }

abbrev pub written : HashTable → ℕ → Slot → HashTable
written ht p s = record ht { table1 = set ht.table1 p s }

-- `swap_node` with a table number that is not 0.
swap_node-eq :
    (ht : HashTable) (which a : ℕ) (val : ℤ)
    → length ht.table1 ≡ ht.table_size
    → 0 < ht.table_size
    → ht.table_size < 2 ^ 32
    → IsScalable a
    → swap_node ht (suc which) (entry a val)
      ≡ ok (
        written ht (home ht.table_size a) (entry a val),
        slot ht.table1 (home ht.table_size a),
        not (is_occ (slot ht.table1 (home ht.table_size a))),
      )
unfolding swap_node get_node
swap_node-eq ht which a val l h w fits =
    let inside : home ht.table_size a < length ht.table1 = rw l (mod-lt (a * 271) h) in
    rw (
      hash_code1-home a ht.table_size h w fits,
      slot_at-slot ht.table1 (home ht.table_size a) inside,
    )

-- A round with a free node writes the entry.
swap_rounds_free :
    (ht : HashTable) (rounds a : ℕ) (val : ℤ)
    → IsTable ht.table_size ht.table1
    → IsScalable a
    → is_occ (slot ht.table1 (home ht.table_size a)) ≡ false
    → swap_rounds (suc rounds) ht (entry a val)
      ≡ ok (count_up (written ht (home ht.table_size a) (entry a val)), entry a val, true)
unfolding swap_rounds
swap_rounds_free ht rounds a val t fits free =
    rw (swap_node-eq ht 0 a val t.width t.positive t.narrow fits, free)

pub swap_rounds_room :
    (ht : HashTable) (rounds a : ℕ) (val : ℤ)
    → 0 < rounds
    → IsTable ht.table_size ht.table1
    → IsScalable a
    → is_occ (slot ht.table1 (home ht.table_size a)) ≡ false
    → swap_rounds rounds ht (entry a val)
      ≡ ok (count_up (written ht (home ht.table_size a) (entry a val)), entry a val, true)
swap_rounds_room ht zero a val h t fits free = absurd (omega arith)
swap_rounds_room ht (suc rounds) a val h t fits free = swap_rounds_free ht rounds a val t fits free

-- Putting a node back over what replaced it gives the table of before.
restore :
    (ht : HashTable) (p : ℕ) (e : Slot)
    → p < length ht.table1
    → written (written ht p e) p (slot ht.table1 p) ≡ ht
restore ht p e h =
    ap (λ (bs : List Slot). record ht { table1 = bs })
      (set-set ht.table1 p e (slot ht.table1 p) ∙ set-slot ht.table1 p)

pub slot-set_self : (bs : List Slot) (p : ℕ) (s : Slot) → p < length bs → slot (set bs p s) p ≡ s
slot-set_self bs p s h = slot-set bs p p s h ∙ ground arith

-- What a swap takes out of a node in use for its own key, the second swap of the round puts back.
swap_back :
    (ht : HashTable) (a : ℕ) (val : ℤ) (p : ℕ)
    → IsTable ht.table_size ht.table1
    → p < ht.table_size
    → is_occ (slot ht.table1 p) ≡ true
    → swap_node (written ht p (entry a val)) 2 (slot ht.table1 p) ≡ ok (ht, entry a val, false)
swap_back ht a val p t h used =
    let n : ℕ = ht.table_size in
    let e : Slot = entry a val in
    let s : Slot = slot ht.table1 p in
    let (b, key, at_p, b_fits) = t.at_home p h used in
    let inside : p < length ht.table1 = rw t.width h in
    let run =
      swap_node-eq (written ht p e) 1 b s.value (length-set ht.table1 p e ∙ t.width) t.positive
        t.narrow b_fits in
    let placed =
      subst
        (λ (q : ℕ).
          swap_node (written ht p e) 2 (entry b s.value)
          ≡ ok (
            written (written ht p e) q (entry b s.value),
            slot (set ht.table1 p e) q,
            not (is_occ (slot (set ht.table1 p e) q)),
          ))
        at_p run in
    let back =
      subst
        (λ (s' : Slot).
          swap_node (written ht p e) 2 s'
          ≡ ok (
            written (written ht p e) p s',
            slot (set ht.table1 p e) p,
            not (is_occ (slot (set ht.table1 p e) p)),
          ))
        (used-entry s b used key) placed in
    back
    ∙ ap
        (λ (ht' : HashTable).
          ok (ht', slot (set ht.table1 p e) p, not (is_occ (slot (set ht.table1 p e) p))))
        (restore ht p e inside)
    ∙ ap (λ (e' : Slot). ok (ht, e', not (is_occ e'))) (slot-set_self ht.table1 p e inside)

-- With the node of the key in use, all rounds end where they began, with no room found.
pub swap_rounds_taken :
    (ht : HashTable) (rounds a : ℕ) (val : ℤ)
    → IsTable ht.table_size ht.table1
    → IsScalable a
    → is_occ (slot ht.table1 (home ht.table_size a)) ≡ true
    → swap_rounds rounds ht (entry a val) ≡ ok (ht, entry a val, false)
unfolding swap_rounds
swap_rounds_taken ht zero a val t fits taken = refl
swap_rounds_taken ht (suc rounds) a val t fits taken =
    rw
      (
        swap_node-eq ht 0 a val t.width t.positive t.narrow fits,
        taken,
        swap_back ht a val (home ht.table_size a) t (mod-lt (a * 271) t.positive) taken,
      )
      (swap_rounds_taken ht rounds a val t fits taken)

-- The table with an entry more is one.
pub write-IsTable :
    (n : ℕ) (bs : List Slot) (a : ℕ) (val : ℤ)
    → IsTable n bs
    → IsScalable a
    → IsTable n (set bs (home n a) (entry a val))
write-IsTable n bs a val t fits =
    let inside : home n a < length bs = rw t.width (mod-lt (a * 271) t.positive) in
    record {
      width = length-set bs _ _ ∙ t.width;
      positive = t.positive;
      narrow = t.narrow;
      at_home = λ p h used. elim (ℕ_discrete p (home n a)) [
        | yes e ↦
            (a, rw (slot-set bs (home n a) p (entry a val) inside) (ground arith), sym e, fits)
        | no e ↦
            let other : slot (set bs (home n a) (entry a val)) p ≡ slot bs p =
              slot-set bs (home n a) p (entry a val) inside ∙ ground arith in
            let (b, key, at_p, b_fits) = t.at_home p h (ap is_occ (sym other) ∙ used) in
            (b, ap (λ (s : Slot). s.key) other ∙ key, at_p, b_fits)
      ];
    }
