-- ===== src/CuckooHash/Collisions.antt =====
-- hash/CuckooHash.c: keys whose nodes of array 1 coincide.
use algorithm_collection.Common.{
  ℕ, zero, suc, ◌+◌, ◌*◌, ◌%◌, ◌^◌, ◌<◌, ◌≡◌, refl, Bool, true, false, ℤ, pos, ltb, arith, ap, sym,
  ◌∙◌, Returns, Bool-cases, inl, inr, subst,
}
use native.Mathlib.Nat.{add-mul-mod_self_left, mul_assoc, pow-succ', add-mul}
use algorithm_collection.OpenAddress.Slots.{slot, count, is_occ, hit}
use algorithm_collection.OpenAddress.Probes.{hit-occ}
use algorithm_collection.OpenAddress.Moves.{OfEntries, entry}
use algorithm_collection.CuckooHash.{HashTable, add_tries, add}
use algorithm_collection.CuckooHash.Rounds.{home, IsScalable, swap_rounds_taken}
use algorithm_collection.CuckooHash.Moves.{IsValid}
use algorithm_collection.CuckooHash.Resize.{resize_keeps_entries}
use algorithm_collection.CuckooHash.Operations.{CanGrow, CanGrow-below, find_op-count, count-home}

home_shift : (n b k : ℕ) → home n (b + n * k) ≡ home n b
home_shift n b k =
    let e : (b + n * k) * 271 ≡ b * 271 + n * (k * 271) =
      add-mul b (n * k) 271 ∙ ap (λ (x : ℕ). b * 271 + x) (mul_assoc n k 271) in
    ap (λ (x : ℕ). x % n) e ∙ add-mul-mod_self_left (b * 271) n (k * 271)

-- The node of array 1 is in use by `b`.
home_taken :
    (ht : HashTable) (a b k : ℕ)
    → IsValid ht
    → 0 < count (hit (pos b)) ht.table1
    → a ≡ b + ht.table_size * k
    → is_occ (slot ht.table1 (home ht.table_size a)) ≡ true
home_taken ht a b k v there e =
    let n : ℕ = ht.table_size in
    let is_hit : hit (pos b) (slot ht.table1 (home n b)) ≡ true =
      count-home ht b v ∙ ground (arith, there) in
    subst (λ (p : ℕ). is_occ (slot ht.table1 p) ≡ true) (sym (ap (home n) e ∙ home_shift n b k))
      (hit-occ (pos b) (slot ht.table1 (home n b)) is_hit).0

hit-OfEntries : (key : ℤ) → OfEntries (hit key)
hit-OfEntries key s unused = ground (arith, unused)

add_tries-false :
    (calloc : ℕ → Bool × Bool) (tries : ℕ) (ht : HashTable) (a b k : ℕ) (val : ℤ)
    → ((j : ℕ) → calloc j ≡ (true, true))
    → IsValid ht
    → CanGrow tries ht.table_size
    → 0 < count (hit (pos b)) ht.table1
    → a ≡ b + ht.table_size * (2 ^ tries * k)
    → IsScalable a
    → Returns (add_tries calloc tries ht (entry a val)) λ r. r.1 ≡ false
unfolding add_tries
add_tries-false calloc zero ht a b k val answers v grows there e fits =
    let taken = home_taken ht a b (2 ^ 0 * k) v there e in
    ((ht, false), rw (swap_rounds_taken ht ht.table_size a val v.table fits taken), refl)
add_tries-false calloc (suc tries) ht a b k val answers v grows there e fits =
    let n : ℕ = ht.table_size in
    let taken = home_taken ht a b (2 ^ suc tries * k) v there e in
    let (grown, run, kept) = resize_keeps_entries ht v grows.0 in
    let shift : n * (2 ^ suc tries * k) ≡ grown.table_size * (2 ^ tries * k) =
      ap (λ (x : ℕ). n * (x * k)) (pow-succ' 2 tries)
      ∙ ap (λ (x : ℕ). n * x) (mul_assoc 2 (2 ^ tries) k)
      ∙ sym (mul_assoc n 2 (2 ^ tries * k))
      ∙ ap (λ (x : ℕ). x * (2 ^ tries * k)) (sym kept.size) in
    let still : 0 < count (hit (pos b)) grown.table1 =
      omega (arith, kept.entries (hit (pos b)) (hit-OfEntries (pos b)), there) in
    let (r, run', refused) =
      add_tries-false (λ j. calloc (suc j)) tries grown a b k val (λ j. answers (suc j)) kept.valid
        (subst (CanGrow tries) (sym kept.size) grows.1) still (e ∙ ap (λ (x : ℕ). b + x) shift)
        fits in
    (
      r,
      rw (swap_rounds_taken ht ht.table_size a val v.table fits taken, answers 0, run) run',
      refused,
    )

-- `add` to a well-formed table of fewer than 2 ^ 22 nodes in each array, with memory for every
-- `resize`, returns false for a key whose product with 271 is less than 2 ^ 63 and that exceeds a
-- key from 0 on in the table by a multiple of 1024 times the size: after ten times `resize` they
-- still share their node of array 1, and array 0 is not tried although it is empty.
pub add-collision_false :
    (calloc : ℕ → Bool × Bool) (ht : HashTable) (a b k : ℕ) (val : ℤ)
    → ((j : ℕ) → calloc j ≡ (true, true))
    → IsValid ht
    → ht.table_size < 2 ^ 22
    → 0 < count (hit (pos b)) ht.table1
    → a ≡ b + ht.table_size * (2 ^ 10 * k)
    → IsScalable a
    → Returns (add calloc ht (pos a) val) λ r. r.1 ≡ false
unfolding add
add-collision_false calloc ht a b k val answers v w there e fits =
    elim (Bool-cases (ltb 0 (count (hit (pos a)) ht.table1))) [
      | inl present ↦ ((ht, false), rw (find_op-count ht a v fits, present), refl)
      | inr absent ↦
          let (r, run, refused) =
            add_tries-false calloc 10 ht a b k val answers v
              (CanGrow-below 10 ht.table_size (omega arith)) there e fits in
          (r, rw (find_op-count ht a v fits, absent) run, refused)
    ]
