-- ===== src/CuckooHash/Operations.antt =====
-- hash/CuckooHash.c: `add` with its retries, `find` and `delete`, seen as changes of a multiset of
-- entries: how many nodes in use have a given property.
use algorithm_collection.Common.{
  ℕ, zero, suc, ◌+◌, ◌*◌, ◌%◌, ◌^◌, ◌≤◌, ◌<◌, ◌≡◌, refl, Bool, true, false, ℤ, pos, ltb,
  if◌then◌else◌, length, to_nat, ok, arith, ap, sym, ◌∙◌, Returns, Bool-cases, inl, inr, ◌⊎◌, subst,
}
use native.Mathlib.Nat.{mod-lt, pow-succ', mul_assoc, mul-le-mul_left, one-le-pow}
use mathlib.Core.Bool.{false≢true}
use algorithm_collection.OpenAddress.{Slot}
use algorithm_collection.OpenAddress.Slots.{
  slot, count, is_occ, hit, slot_at-slot, count-eq-zero, count-pos,
}
use algorithm_collection.OpenAddress.Probes.{hit-occ}
use algorithm_collection.OpenAddress.Moves.{OfEntries, entry}
use algorithm_collection.CuckooHash.{HashTable, hash_code0, get_node, add_tries, add, find, find_op}
use algorithm_collection.CuckooHash.Rounds.{
  home, IsScalable, scale-fits, remainder-mod, swap_rounds_room, swap_rounds_taken, hash_code1-home,
}
use algorithm_collection.CuckooHash.Moves.{IsValid, entered, entered-count, entered-IsValid}
use algorithm_collection.CuckooHash.Resize.{resize_keeps_entries}

-- The size can be doubled so many times.
abbrev pub CanGrow : ℕ → ℕ → Type 0
CanGrow zero n = Unit
CanGrow (suc times) n = (n * 2 < 2 ^ 32) × CanGrow times (n * 2)

pub CanGrow-below : (times n : ℕ) → n * 2 ^ times < 2 ^ 32 → CanGrow times n
CanGrow-below zero n h = tt
CanGrow-below (suc times) n h =
    let e : n * 2 ^ suc times ≡ n * 2 * 2 ^ times =
      ap (λ (x : ℕ). n * x) (pow-succ' 2 times) ∙ sym (mul_assoc n 2 (2 ^ times)) in
    let rest : n * 2 * 2 ^ times < 2 ^ 32 = rw e at h in
    let first : n * 2 * 1 ≤ n * 2 * 2 ^ times =
      mul-le-mul_left (n * 2) (one-le-pow times 2 (omega arith)) in
    (omega (arith, first, rest), CanGrow-below times (n * 2) rest)

-- One more entry if `add` returns true, and the same entries otherwise; true if the node of the key
-- in array 1 was free.
pub record Tried (ht : HashTable) (a : ℕ) (val : ℤ) (r : HashTable × Bool) : Type 0 where
  pub valid : IsValid r.0
  pub entries :
      (holds : Slot → Bool)
      → OfEntries holds
      → count holds r.0.table1
        ≡ count holds ht.table1 + (if r.1 then to_nat (holds (entry a val)) else 0)
  pub room : is_occ (slot ht.table1 (home ht.table_size a)) ≡ false → r.1 ≡ true

Tried-room :
    (ht : HashTable) (a : ℕ) (val : ℤ)
    → IsValid ht
    → IsScalable a
    → is_occ (slot ht.table1 (home ht.table_size a)) ≡ false
    → Tried ht a val (entered ht a val, true)
Tried-room ht a val v fits free = record {
  valid = entered-IsValid ht a val v fits free;
  entries = λ holds of_entries. entered-count ht a val v fits free holds of_entries;
  room = λ h. refl;
}

pub add_tries-Tried :
    (calloc : ℕ → Bool × Bool) (tries : ℕ) (ht : HashTable) (a : ℕ) (val : ℤ)
    → ((j : ℕ) → calloc j ≡ (true, true))
    → IsValid ht
    → CanGrow tries ht.table_size
    → IsScalable a
    → Returns (add_tries calloc tries ht (entry a val)) (Tried ht a val)
unfolding add_tries
add_tries-Tried calloc zero ht a val answers v grows fits =
    elim (Bool-cases (is_occ (slot ht.table1 (home ht.table_size a)))) [
      | inr free ↦ (
        (entered ht a val, true),
        rw (swap_rounds_room ht ht.table_size a val v.table.positive v.table fits free),
        Tried-room ht a val v fits free,
      )
      | inl taken ↦ (
        (ht, false),
        rw (swap_rounds_taken ht ht.table_size a val v.table fits taken),
        record {
          valid = v;
          entries = λ holds of_entries. omega arith;
          room = λ free. absurd (false≢true (sym free ∙ taken));
        },
      )
    ]
add_tries-Tried calloc (suc tries) ht a val answers v grows fits =
    elim (Bool-cases (is_occ (slot ht.table1 (home ht.table_size a)))) [
      | inr free ↦ (
        (entered ht a val, true),
        rw (swap_rounds_room ht ht.table_size a val v.table.positive v.table fits free),
        Tried-room ht a val v fits free,
      )
      | inl taken ↦
          let (grown, run, k) = resize_keeps_entries ht v grows.0 in
          let (r, run', t) =
            add_tries-Tried (λ j. calloc (suc j)) tries grown a val (λ j. answers (suc j)) k.valid
              (subst (CanGrow tries) (sym k.size) grows.1) fits in
          (
            r,
            rw (swap_rounds_taken ht ht.table_size a val v.table fits taken, answers 0, run) run',
            record {
              valid = t.valid;
              entries = λ holds of_entries.
                  omega (arith, t.entries holds of_entries, k.entries holds of_entries);
              room = λ free. absurd (false≢true (sym free ∙ taken));
            },
          )
    ]

hash_code0-below :
    (a n : ℕ) → 0 < n → n < 2 ^ 32 → IsScalable a → hash_code0 (pos a) n ≡ ok (a * 269 % n)
unfolding hash_code0
hash_code0-below a n h w fits = rw (scale-fits a 269 (omega arith), remainder-mod (a * 269) n h w)

-- In array 0 no node holds a key.
pub get_node0 :
    (ht : HashTable) (a : ℕ)
    → IsValid ht
    → IsScalable a
    → (b : ℕ) × (s : Slot) × (get_node ht 0 (pos a) ≡ ok (b, s)) × (is_occ s ≡ false)
unfolding get_node
get_node0 ht a v fits =
    let n : ℕ = ht.table_size in
    let below : a * 269 % n < n = mod-lt (a * 269) v.table.positive in
    (
      a * 269 % n,
      slot ht.table0 (a * 269 % n),
      rw (
        hash_code0-below a n v.table.positive v.table.narrow fits,
        slot_at-slot ht.table0 (a * 269 % n) (rw v.width0 below),
      ),
      v.unused0 (a * 269 % n) below,
    )

pub get_node1 :
    (ht : HashTable) (a : ℕ)
    → IsValid ht
    → IsScalable a
    → get_node ht 1 (pos a) ≡ ok (home ht.table_size a, slot ht.table1 (home ht.table_size a))
unfolding get_node
get_node1 ht a v fits = rw (
  hash_code1-home a ht.table_size v.table.positive v.table.narrow fits,
  slot_at-slot ht.table1 (home ht.table_size a)
      (rw v.table.width (mod-lt (a * 271) v.table.positive)),
)

-- A key is in the table exactly when its node of array 1 has it.
pub count-home :
    (ht : HashTable) (a : ℕ)
    → IsValid ht
    → hit (pos a) (slot ht.table1 (home ht.table_size a)) ≡ ltb 0 (count (hit (pos a)) ht.table1)
count-home ht a v =
    let n : ℕ = ht.table_size in
    let inside : home n a < length ht.table1 =
      rw v.table.width (mod-lt (a * 271) v.table.positive) in
    elim (Bool-cases (hit (pos a) (slot ht.table1 (home n a)))) [
      | inl there ↦ ground (arith, count-pos (hit (pos a)) ht.table1 (home n a) inside there)
      | inr absent ↦
          let nowhere : count (hit (pos a)) ht.table1 ≡ 0 =
            count-eq-zero (hit (pos a)) ht.table1 λ p h.
              elim (Bool-cases (hit (pos a) (slot ht.table1 p))) [
                | inr no_hit ↦ no_hit
                | inl is_hit ↦
                    let (used, key) = hit-occ (pos a) (slot ht.table1 p) is_hit in
                    let (b, key', at_p, b_fits) = v.table.at_home p (rw v.table.width at h) used in
                    let same : b ≡ a = cc (sym key' ∙ key) in
                    let at_home : home n a ≡ p = subst (λ (c : ℕ). home n c ≡ p) same at_p in
                    absurd (
                      false≢true (
                        sym absent
                        ∙ subst (λ (q : ℕ). hit (pos a) (slot ht.table1 q) ≡ true) (sym at_home)
                            is_hit))
              ] in
          ground (arith, nowhere)
    ]

pub find_op-count :
    (ht : HashTable) (a : ℕ)
    → IsValid ht
    → IsScalable a
    → find_op ht (pos a) ≡ ok (ltb 0 (count (hit (pos a)) ht.table1))
unfolding find_op
find_op-count ht a v fits =
    let (b, s, run0, unused) = get_node0 ht a v fits in
    rw (run0, get_node1 ht a v fits, sym (count-home ht a v)) (ground (arith, unused))

-- `find` of a key from 0 on, whose product with 271 is less than 2 ^ 63, in a well-formed table ends with no fault, and returns true exactly when
-- a node in use has the key.
pub find-entries :
    (ht : HashTable) (a : ℕ)
    → IsValid ht
    → IsScalable a
    → find ht (pos a) ≡ ok (ltb 0 (count (hit (pos a)) ht.table1))
unfolding find
find-entries ht a v fits = find_op-count ht a v fits

-- `add` of a key from 0 on, whose product with 271 is less than 2 ^ 63, to a well-formed table of fewer than 2 ^ 22 nodes in each array, with
-- memory for every `resize`, ends with no fault in a well-formed table. A key that is there is
-- refused, and nothing changes. Otherwise the new table has one more entry, the new one, if the
-- result is true, and the same entries if it is false; all others are as often there as before.
-- The result is true when the node of the key in array 1 was free.
pub add-Tried :
    (calloc : ℕ → Bool × Bool) (ht : HashTable) (a : ℕ) (val : ℤ)
    → ((j : ℕ) → calloc j ≡ (true, true))
    → IsValid ht
    → ht.table_size < 2 ^ 22
    → IsScalable a
    → Returns (add calloc ht (pos a) val) λ r.
      ((0 < count (hit (pos a)) ht.table1) × (r ≡ (ht, false)))
      ⊎ ((count (hit (pos a)) ht.table1 ≡ 0) × Tried ht a val r)
unfolding add
add-Tried calloc ht a val answers v w fits =
    let grows = CanGrow-below 10 ht.table_size (omega arith) in
    elim (Bool-cases (ltb 0 (count (hit (pos a)) ht.table1))) [
      | inl there ↦ ((ht, false), rw (find_op-count ht a v fits, there), inl (ground arith, refl))
      | inr absent ↦
          let (r, run, t) = add_tries-Tried calloc 10 ht a val answers v grows fits in
          (r, rw (find_op-count ht a v fits, absent) run, inr (ground arith, t))
    ]
