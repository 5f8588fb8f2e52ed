-- ===== src/OpenAddress/Slots.antt =====
-- hash/OpenAddressHash.c: arrays of nodes, and how many of them have a property.
use algorithm_collection.Common.{
  ℕ, zero, suc, ◌+◌, ◌-◌, ◌%◌, ◌^◌, ◌≤◌, ◌<◌, ◌≡◌, refl, Bool, true, false, ◌&&◌, List, [], ◌∷◌, ℤ,
  pos, ◌==◌, eqb_ℤ, if◌then◌else◌, set, length, get_or, to_nat, ok, arith, ap, sym, ◌∙◌, Bool-cases,
  inl, inr,
}
use native.Mathlib.Decide.{dec_le}
use native.Mathlib.Nat.{mod-add-mod, mod-eq_of_lt, add-mod_right}
use algorithm_collection.OpenAddress.{
  emp, del, occ, Slot, set_node, slot_at, hash_code, init_bucket,
}

abbrev pub empty : Slot
empty = set_node (pos 0) (pos 0) emp

abbrev pub slot : List Slot → ℕ → Slot
slot bs i = get_or bs i empty

abbrev pub count : (Slot → Bool) → List Slot → ℕ
count holds [] = 0
count holds (s ∷ bs) = to_nat (holds s) + count holds bs

abbrev pub is_occ : Slot → Bool
is_occ s = elim s.stat [ emp ↦ false | del ↦ false | occ ↦ true ]

-- A node in use under the key `q`.
abbrev pub hit : ℤ → Slot → Bool
hit q s = is_occ s && eqb_ℤ s.key q

pub slot_at-slot : (bs : List Slot) (i : ℕ) → i < length bs → slot_at bs i ≡ ok (slot bs i)
unfolding slot_at
slot_at-slot [] i h = absurd (omega arith)
slot_at-slot (s ∷ bs) zero h = refl
slot_at-slot (s ∷ bs) (suc i) h = slot_at-slot bs i (omega arith)

pub slot-set :
    (bs : List Slot) (i j : ℕ) (s : Slot)
    → i < length bs
    → slot (set bs i s) j ≡ (if j == i then s else slot bs j)
slot-set [] i j s h = absurd (omega arith)
slot-set (t ∷ bs) zero zero s h = ground arith
slot-set (t ∷ bs) zero (suc j) s h = ground arith
slot-set (t ∷ bs) (suc i) zero s h = ground arith
slot-set (t ∷ bs) (suc i) (suc j) s h = ground (arith, slot-set bs i j s)

pub count-set :
    (holds : Slot → Bool) (bs : List Slot) (i : ℕ) (s : Slot)
    → i < length bs
    → count holds (set bs i s) + to_nat (holds (slot bs i)) ≡ count holds bs + to_nat (holds s)
count-set holds [] i s h = absurd (omega arith)
count-set holds (t ∷ bs) zero s h = omega arith
count-set holds (t ∷ bs) (suc i) s h = omega (arith, count-set holds bs i s (omega arith))

pub count-eq-zero :
    (holds : Slot → Bool) (bs : List Slot)
    → ((i : ℕ) → i < length bs → holds (slot bs i) ≡ false)
    → count holds bs ≡ 0
count-eq-zero holds [] h = refl
count-eq-zero holds (s ∷ bs) h =
    ground (arith, h 0, count-eq-zero holds bs (λ i q. h (suc i) (omega arith)))

pub count-pos :
    (holds : Slot → Bool) (bs : List Slot) (i : ℕ)
    → i < length bs
    → holds (slot bs i) ≡ true
    → 0 < count holds bs
count-pos holds [] i h e = absurd (omega arith)
count-pos holds (s ∷ bs) zero h e = ground arith
count-pos holds (s ∷ bs) (suc i) h e = ground (arith, count-pos holds bs i)

pub count-le : (holds : Slot → Bool) (bs : List Slot) → count holds bs ≤ length bs
count-le holds [] = omega arith
count-le holds (s ∷ bs) = elim (Bool-cases (holds s)) [
  | inl yes_holds ↦ ground (arith, count-le holds bs)
  | inr none_holds ↦ ground (arith, count-le holds bs)
]

pub count-full :
    (holds : Slot → Bool) (bs : List Slot)
    → ((i : ℕ) → i < length bs → holds (slot bs i) ≡ true)
    → count holds bs ≡ length bs
count-full holds [] h = refl
count-full holds (s ∷ bs) h =
    ground (arith, h 0, count-full holds bs (λ i q. h (suc i) (omega arith)))

pub count-init_bucket :
    (holds : Slot → Bool) (n : ℕ) → holds empty ≡ false → count holds (init_bucket n) ≡ 0
count-init_bucket holds zero h = refl
count-init_bucket holds (suc n) h = ground (arith, count-init_bucket holds n h)

pub slot-init_bucket : (n i : ℕ) → slot (init_bucket n) i ≡ empty
slot-init_bucket zero i = refl
slot-init_bucket (suc n) zero = refl
slot-init_bucket (suc n) (suc i) = slot-init_bucket n i

-- Probe `i` of a key from 0 on.
abbrev pub probe : ℕ → ℕ → ℕ → ℕ
probe n a i = (a + i) % n

pub hash_code-probe : (a i n : ℕ) → 0 < n → n < 2 ^ 32 → hash_code (pos a) i n ≡ ok (probe n a i)
unfolding hash_code
hash_code-probe a i zero h w = absurd (omega arith)
hash_code-probe a i (suc n) h w = ap ok (omega arith)

-- The probes reach every node.
pub probe_onto : (n a p : ℕ) → p < n → (i : ℕ) × (i < n) × (probe n a i ≡ p)
probe_onto n a p h = elim (dec_le (a % n) p) [
  | yes after ↦ (
    p - a % n,
    omega arith,
    sym (mod-add-mod a n (p - a % n)) ∙ ap (λ (t : ℕ). t % n) (omega arith) ∙ mod-eq_of_lt h,
  )
  | no before ↦
      let total : a % n + (p + n - a % n) ≡ p + n = omega arith in
      (
        p + n - a % n,
        omega arith,
        sym (mod-add-mod a n (p + n - a % n))
            ∙ ap (λ (t : ℕ). t % n) total
            ∙ add-mod_right p n
            ∙ mod-eq_of_lt h,
      )
]
