-- ===== src/Hash/Table/Buckets.antt =====
-- hash/Hash.c: what the array of buckets stands for, and one write to it.
use algorithm_collection.Common.{
  ℕ, zero, suc, ◌+◌, ◌%◌, ◌^◌, ◌<◌, ◌≡◌, refl, Option, none, some, [], ◌∷◌, ℤ, pos, negsuc, ◌==◌,
  if◌then◌else◌, set, length, ok, arith, ap,
}
use algorithm_collection.Common.Chains.{Chain}
use algorithm_collection.Common.Chains.{lookup, IsSorted}
use algorithm_collection.Hash.Table.{Buckets, hash_code, bucket_at}

-- The bucket where a key belongs, in a table of `n` buckets. Only keys from 0 on have one.
abbrev pub home : ℤ → ℕ → ℕ
home (pos a) n = a % n
home (negsuc a) n = 0

abbrev pub BelongsTo : ℕ → ℕ → ℤ → Type 0
BelongsTo n i (pos a) = a % n ≡ i
BelongsTo n i (negsuc a) = ⊥

abbrev pub AllBelong : ℕ → ℕ → Chain → Type 0
AllBelong n i [] = Unit
AllBelong n i (m ∷ c) = BelongsTo n i m.key × AllBelong n i c

-- The buckets from number `i` on, of a table of `n`: each is there, sorted, with its own keys.
abbrev pub ArePlaced : ℕ → ℕ → Buckets → Type 0
ArePlaced n i [] = Unit
ArePlaced n i (none ∷ bs) = ⊥
ArePlaced n i (some c ∷ bs) = IsSorted c × AllBelong n i c × ArePlaced n (suc i) bs

abbrev pub chain_at : Buckets → ℕ → Chain
chain_at [] i = []
chain_at (none ∷ bs) zero = []
chain_at (some c ∷ bs) zero = c
chain_at (b ∷ bs) (suc i) = chain_at bs i

-- The value under a key in the table.
abbrev pub view : ℕ → Buckets → ℤ → Option ℤ
view n bs q = lookup q (chain_at bs (home q n))

-- All nodes.
abbrev pub total : Buckets → ℕ
total [] = 0
total (none ∷ bs) = total bs
total (some c ∷ bs) = length c + total bs

pub bucket_at-chain_at :
    (n i j : ℕ) (bs : Buckets)
    → ArePlaced n i bs
    → j < length bs
    → bucket_at bs j ≡ ok (chain_at bs j)
unfolding bucket_at
bucket_at-chain_at n i j [] p h = absurd (omega arith)
bucket_at-chain_at n i j (none ∷ bs) p h = absurd p
bucket_at-chain_at n i zero (some c ∷ bs) p h = refl
bucket_at-chain_at n i (suc j) (some c ∷ bs) p h =
    bucket_at-chain_at n (suc i) j bs p.2 (omega arith)

pub chain_at-IsSorted : (n i j : ℕ) (bs : Buckets) → ArePlaced n i bs → IsSorted (chain_at bs j)
chain_at-IsSorted n i j [] p = tt
chain_at-IsSorted n i j (none ∷ bs) p = absurd p
chain_at-IsSorted n i zero (some c ∷ bs) p = p.0
chain_at-IsSorted n i (suc j) (some c ∷ bs) p = chain_at-IsSorted n (suc i) j bs p.2

pub chain_at-AllBelong :
    (n i j k : ℕ) (bs : Buckets) → ArePlaced n i bs → i + j ≡ k → AllBelong n k (chain_at bs j)
chain_at-AllBelong n i j k [] p e = tt
chain_at-AllBelong n i j k (none ∷ bs) p e = absurd p
chain_at-AllBelong n i zero k (some c ∷ bs) p e = let e' : i ≡ k = omega arith in rw (← e') p.1
chain_at-AllBelong n i (suc j) k (some c ∷ bs) p e =
    chain_at-AllBelong n (suc i) j k bs p.2 (omega arith)

-- A key with no business in a chain is not there.
pub lookup_stranger :
    (n i : ℕ) (q : ℤ) (c : Chain) → AllBelong n i c → ¬ BelongsTo n i q → lookup q c ≡ none
unfolding lookup
lookup_stranger n i q [] b no_match = refl
lookup_stranger n i (pos a) (m ∷ c) b no_match =
    ground (arith, lookup_stranger n i (pos a) c b.1 no_match)
lookup_stranger n i (negsuc a) (m ∷ c) b no_match =
    ground (arith, lookup_stranger n i (negsuc a) c b.1 no_match)

pub set-ArePlaced :
    (n i j k : ℕ) (bs : Buckets) (c : Chain)
    → ArePlaced n i bs
    → i + j ≡ k
    → IsSorted c
    → AllBelong n k c
    → ArePlaced n i (set bs j (some c))
set-ArePlaced n i j k [] c p e s b = tt
set-ArePlaced n i j k (none ∷ bs) c p e s b = absurd p
set-ArePlaced n i zero k (some d ∷ bs) c p e s b =
    let e' : k ≡ i = omega arith in (s, rw (← e') b, p.2)
set-ArePlaced n i (suc j) k (some d ∷ bs) c p e s b =
    (p.0, p.1, set-ArePlaced n (suc i) j k bs c p.2 (omega arith) s b)

pub chain_at-set :
    (bs : Buckets) (i j : ℕ) (c : Chain)
    → i < length bs
    → chain_at (set bs i (some c)) j ≡ (if j == i then c else chain_at bs j)
chain_at-set [] i j c h = absurd (omega arith)
chain_at-set (b ∷ bs) zero zero c h = ground arith
chain_at-set (none ∷ bs) zero (suc j) c h = ground arith
chain_at-set (some d ∷ bs) zero (suc j) c h = ground arith
chain_at-set (none ∷ bs) (suc i) zero c h = ground arith
chain_at-set (some d ∷ bs) (suc i) zero c h = ground arith
chain_at-set (none ∷ bs) (suc i) (suc j) c h = ground (arith, chain_at-set bs i j c)
chain_at-set (some d ∷ bs) (suc i) (suc j) c h = ground (arith, chain_at-set bs i j c)

pub total-set :
    (bs : Buckets) (i : ℕ) (c : Chain)
    → i < length bs
    → total (set bs i (some c)) + length (chain_at bs i) ≡ total bs + length c
total-set [] i c h = absurd (omega arith)
total-set (none ∷ bs) zero c h = omega arith
total-set (some d ∷ bs) zero c h = omega arith
total-set (none ∷ bs) (suc i) c h = omega (arith, total-set bs i c (omega arith))
total-set (some d ∷ bs) (suc i) c h = omega (arith, total-set bs i c (omega arith))

-- `hashCode` of a key from 0 on is its home.
pub hash_code-home : (a n : ℕ) → 0 < n → n < 2 ^ 32 → hash_code (pos a) n ≡ ok (home (pos a) n)
unfolding hash_code
hash_code-home a zero h w = absurd (omega arith)
hash_code-home a (suc n) h w = ap ok (omega arith)

pub home-lt : (q : ℤ) (n : ℕ) → 0 < n → home q n < n
home-lt (pos a) n h = omega arith
home-lt (negsuc a) n h = h
