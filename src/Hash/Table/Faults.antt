-- ===== src/Hash/Table/Faults.antt =====
-- hash/Hash.c: the operations on negative keys, and after a `resize` that gets no memory.
use algorithm_collection.Common.{
  ℕ, zero, suc, ◌%◌, ◌^◌, ◌≤◌, ◌<◌, ◌≡◌, refl, Bool, true, none, some, [], ◌∷◌, ℤ, negsuc, length,
  ok, fault, out_of_range, arith,
}
use algorithm_collection.Hash.Table.{
  Buckets, HashTable, hash_code, bucket_at, add, add_at, delete, find, resize, init_bucket,
}
use native.Mathlib.Nat.{mod-lt}
use algorithm_collection.Common.{false, mod_ℤ, ◌>>=◌, neg, to_unsigned, negsuc}
use algorithm_collection.Hash.Table.Doubling.{IsValid}

bucket_at_past : (bs : Buckets) (i : ℕ) → length bs ≤ i → bucket_at bs i ≡ fault out_of_range
unfolding bucket_at
bucket_at_past [] i h = refl
bucket_at_past (none ∷ bs) zero h = absurd (omega arith)
bucket_at_past (some c ∷ bs) zero h = absurd (omega arith)
bucket_at_past (none ∷ bs) (suc i) h = bucket_at_past bs i (omega arith)
bucket_at_past (some c ∷ bs) (suc i) h = bucket_at_past bs i (omega arith)

-- The bucket number of a negative key that the number of buckets does not divide.
hash_code_negative :
    (a n : ℕ)
    → 0 < n
    → n ≤ 2 ^ 31
    → 0 < suc a % n
    → (b : ℕ) × (hash_code (negsuc a) n ≡ ok b) × (n ≤ b)
unfolding hash_code
hash_code_negative a zero h w r = absurd (omega arith)
hash_code_negative a (suc n) h w r =
    let below : suc a % suc n < suc n = mod-lt (suc a) (omega arith) in
    (to_unsigned (neg (suc a % suc n)), refl, unsigned_neg (suc a % suc n) (suc n) r below w)
  where
    unsigned_neg : (r m : ℕ) → 0 < r → r < m → m ≤ 2 ^ 31 → m ≤ to_unsigned (neg r)
    unsigned_neg zero m p q w = absurd (omega arith)
    unsigned_neg (suc r) m p q w = omega arith

-- With at most 2 ^ 31 buckets, for a negative key that their number does not divide, `find`,
-- `delete`, and `add` with memory for its node, access the array of buckets past its end.
pub negative_key-out_of_range :
    (calloc : ℕ → Bool) (ht : HashTable) (a : ℕ) (val : ℤ)
    → IsValid ht
    → ht.table_size ≤ 2 ^ 31
    → 0 < suc a % ht.table_size
    → calloc 0 ≡ true
    → (find ht (negsuc a) ≡ fault out_of_range)
      × (delete ht (negsuc a) ≡ fault out_of_range)
      × (add calloc ht (negsuc a) val ≡ fault out_of_range)
unfolding find delete add add_at
negative_key-out_of_range calloc ht a val v w r answers =
    let (b, hash, past) = hash_code_negative a ht.table_size v.table.positive w r in
    let read = bucket_at_past ht.bucket b (omega (arith, v.table.width)) in
    (rw (hash, read), rw (hash, read), rw (hash, answers, read))

resize_without_memory :
    (calloc : ℕ → Bool) (ht : HashTable)
    → calloc 0 ≡ false
    → resize calloc ht
      ≡ ok (record ht { bucket = []; old_bucket = ht.bucket; old_table_size = ht.table_size })
unfolding resize init_bucket
resize_without_memory calloc ht h = rw h

hash_code_total : (key : ℤ) (n : ℕ) → 0 < n → (b : ℕ) × (hash_code key n ≡ ok b)
unfolding hash_code
hash_code_total key zero h = absurd (omega arith)
hash_code_total key (suc n) h = (to_unsigned (mod_ℤ key (suc n)), refl)

find_no_bucket :
    (ht : HashTable) (key : ℤ)
    → 0 < ht.table_size
    → ht.bucket ≡ []
    → find ht key ≡ fault out_of_range
unfolding find bucket_at
find_no_bucket ht key h e = let (b, hash) = hash_code_total key ht.table_size h in rw (hash, e)

-- After a `resize` of a well-formed table whose first `calloc` fails, the next `find`, for any key,
-- accesses the array of buckets, which is not there.
pub resize-find-out_of_range :
    (calloc : ℕ → Bool) (ht : HashTable) (key : ℤ)
    → IsValid ht
    → calloc 0 ≡ false
    → resize calloc ht >>= (λ ht'. find ht' key) ≡ fault out_of_range
resize-find-out_of_range calloc ht key v h =
    rw (resize_without_memory calloc ht h) (find_no_bucket _ key v.table.positive refl)
