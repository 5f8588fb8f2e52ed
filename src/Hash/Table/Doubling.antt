-- ===== src/Hash/Table/Doubling.antt =====
-- hash/Hash.c: a new table is empty, and `resize` doubles the array and keeps the contents.
use mathlib.Core.Path.{subst}
use algorithm_collection.Hash.Table.{move_buckets}
use algorithm_collection.Common.{
  some_if-inv, ℕ, zero, suc, ◌*◌, ◌/◌, ◌%◌, ◌^◌, ◌<◌, ◌≡◌, refl, Bool, true, false, ◌&&◌, Option,
  none, some, [], ℤ, ltb, ◌==◌, replicate, length-replicate, ok, arith, Returns, Bool-cases, inl,
  inr, ◌∙◌, sym,
}
use algorithm_collection.Common.Chains.{lookup}
use algorithm_collection.Hash.Table.{
  Buckets, HashTable, init_lists, init_bucket, init_hashtable, policy, resize, grow,
}
use algorithm_collection.Hash.Table.Buckets.{home, ArePlaced, chain_at, view, total}
use algorithm_collection.Hash.Table.Moves.{IsTable}
use algorithm_collection.Hash.Table.Resize.{lookup_all-view, move_buckets-Carried}

-- `init_bucket` returns true only with every list there and empty.
init_lists-eq :
    (calloc : ℕ → Bool) (n : ℕ)
    → (init_lists calloc n).1 ≡ true
    → (init_lists calloc n).0 ≡ replicate n (some [])
unfolding init_lists
init_lists-eq calloc zero h = refl
init_lists-eq calloc (suc n) h = ground (arith, init_lists-eq (λ j. calloc (suc j)) n)

pub init_bucket-eq :
    (calloc : ℕ → Bool) (n : ℕ)
    → (init_bucket calloc n).1 ≡ true
    → (init_bucket calloc n).0 ≡ replicate n (some [])
unfolding init_bucket
init_bucket-eq calloc n h = ground (arith, init_lists-eq (λ j. calloc (suc j)) n)

init_lists-answered :
    (calloc : ℕ → Bool) (n : ℕ) → ((j : ℕ) → calloc j ≡ true) → (init_lists calloc n).1 ≡ true
unfolding init_lists
init_lists-answered calloc zero h = refl
init_lists-answered calloc (suc n) h =
    ground (arith, h 0, init_lists-answered (λ j. calloc (suc j)) n (λ j. h (suc j)))

pub init_bucket-answered :
    (calloc : ℕ → Bool) (n : ℕ) → ((j : ℕ) → calloc j ≡ true) → (init_bucket calloc n).1 ≡ true
unfolding init_bucket
init_bucket-answered calloc n h =
    ground (arith, h 0, init_lists-answered (λ j. calloc (suc j)) n (λ j. h (suc j)))

replicate-ArePlaced : (n i k : ℕ) → ArePlaced n i (replicate k (some []))
replicate-ArePlaced n i zero = tt
replicate-ArePlaced n i (suc k) = (tt, tt, replicate-ArePlaced n (suc i) k)

total-replicate : (k : ℕ) → total (replicate k (some [])) ≡ 0
total-replicate zero = refl
total-replicate (suc k) = omega (arith, total-replicate k)

chain_at-replicate : (k i : ℕ) → chain_at (replicate k (some [])) i ≡ []
chain_at-replicate zero i = refl
chain_at-replicate (suc k) zero = refl
chain_at-replicate (suc k) (suc i) = chain_at-replicate k i

pub view-replicate : (n k : ℕ) (q : ℤ) → view n (replicate k (some [])) q ≡ none
unfolding lookup
view-replicate n k q = rw (chain_at-replicate k (home q n))

pub replicate-IsTable : (n : ℕ) → 0 < n → n < 2 ^ 32 → IsTable n (replicate n (some []))
replicate-IsTable n h w = record {
  width = length-replicate n (some []);
  positive = h;
  narrow = w;
  placed = replicate-ArePlaced n 0 n;
}

-- The table is well formed, and counts its nodes.
pub record IsValid (ht : HashTable) : Type 0 where
  pub table : IsTable ht.table_size ht.bucket
  pub counted : ht.set_size ≡ total ht.bucket

abbrev pub contents : HashTable → ℤ → Option ℤ
contents ht q = view ht.table_size ht.bucket q

-- A table that `init_hashtable` makes, with at least one bucket and fewer than 2 ^ 32, is well
-- formed, and no key has a value in it.
pub init_hashtable-IsValid :
    (calloc : ℕ → Bool) (n : ℕ) {ht : HashTable}
    → 0 < n
    → n < 2 ^ 32
    → init_hashtable calloc n ≡ some ht
    → IsValid ht × ((q : ℤ) → contents ht q ≡ none)
unfolding init_hashtable
init_hashtable-IsValid calloc n {ht} h w e =
    let b : ℕ → Bool = λ j. calloc (suc j) in
    let (made, e') = some_if-inv (calloc 0 && (init_bucket b n).1) _ e in
    let done : (init_bucket b n).1 ≡ true = ground arith in
    let full = init_bucket-eq b n done in
    subst (λ ht'. IsValid ht' × ((q : ℤ) → contents ht' q ≡ none)) e'
      (rw full (
        record { table = replicate-IsTable n h w; counted = sym (total-replicate n) },
        λ q. view-replicate n n q,
      ))

-- A table with the same contents, as many.
pub record Kept (ht ht' : HashTable) : Type 0 where
  pub valid : IsValid ht'
  pub same : (q : ℤ) → contents ht' q ≡ contents ht q
  pub count : ht'.set_size ≡ ht.set_size

-- What a `resize` that gets its memory leaves.
pub record Doubled (ht ht' : HashTable) : Type 0 where
  pub kept : Kept ht ht'
  pub size : ht'.table_size ≡ ht.table_size * 2

-- `resize` once its memory is there and the nodes have moved.
resize-run :
    (calloc : ℕ → Bool) (ht : HashTable) (bs : Buckets)
    → ht.table_size * 2 < 2 ^ 32
    → (init_bucket calloc (ht.table_size * 2)).1 ≡ true
    → move_buckets
        (ht.table_size * 2)
        ht.table_size
        ht.bucket
        (replicate (ht.table_size * 2) (some []))
      ≡ ok bs
    → resize calloc ht
      ≡ ok (record ht {
        bucket = bs;
        table_size = ht.table_size * 2;
        old_bucket = [];
        old_table_size = ht.table_size;
      })
unfolding resize
resize-run calloc ht bs w h run =
    let small : ht.table_size * 2 % 2 ^ 32 ≡ ht.table_size * 2 = omega arith in
    rw (small, h, init_bucket-eq calloc (ht.table_size * 2) h, run)

-- `resize` of a well-formed table of fewer than 2 ^ 31 buckets, when `init_bucket` gets its memory,
-- ends with no fault in a well-formed table of twice as many buckets, with the same value or none
-- for every key and the same counter.
pub resize-Doubled :
    (calloc : ℕ → Bool) (ht : HashTable)
    → IsValid ht
    → ht.table_size * 2 < 2 ^ 32
    → (init_bucket calloc (ht.table_size * 2)).1 ≡ true
    → Returns (resize calloc ht) (Doubled ht)
resize-Doubled calloc ht v w h =
    let m : ℕ = ht.table_size in
    let start = replicate-IsTable (m * 2) (omega (arith, v.table.positive)) w in
    let (bs, run, r) =
      move_buckets-Carried (m * 2) m 0 ht.bucket (replicate (m * 2) (some [])) start v.table.placed
        (λ q. rw (view-replicate (m * 2) (m * 2) q)) in
    let run' : move_buckets (m * 2) m ht.bucket (replicate (m * 2) (some [])) ≡ ok bs =
      rw v.table.width at run in
    (
      record ht { bucket = bs; table_size = m * 2; old_bucket = []; old_table_size = m },
      resize-run calloc ht bs w h run',
      record {
        kept = record {
          valid = record {
            table = r.table;
            counted = omega (arith, r.entries, v.counted, total-replicate (m * 2));
          };
          same = λ q.
              r.reads q
              ∙ rw (view-replicate (m * 2) (m * 2) q)
                  (lookup_all-view m q ht.bucket v.table.placed);
          count = refl;
        };
        size = refl;
      },
    )

-- The load test at the end of `add` changes nothing that a reader of the table sees.
pub grow-Kept :
    (calloc : ℕ → Bool) (ht : HashTable)
    → IsValid ht
    → ht.table_size * 2 < 2 ^ 32
    → (init_bucket calloc (ht.table_size * 2)).1 ≡ true
    → Returns (grow calloc ht) (Kept ht)
unfolding grow policy
grow-Kept calloc ht v w h =
    let (doubled, run, d) = resize-Doubled calloc ht v w h in
    let quotient : ℕ = ht.set_size / ht.table_size % 2 ^ 32 in
    let some_buckets : (ht.table_size == 0) ≡ false = ground (arith, v.table.positive) in
    elim (Bool-cases (ltb 4 quotient && ltb quotient (2 ^ 31))) [
      | inl full ↦ (doubled, rw (some_buckets, full) run, d.kept)
      | inr room ↦
          (ht, rw (some_buckets, room), record { valid = v; same = λ q. refl; count = refl })
    ]
