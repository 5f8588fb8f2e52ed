-- ===== src/Hash/Table/Operations.antt =====
-- hash/Hash.c: `add`, `delete` and `find` on a table, seen as a map from keys to values.
use algorithm_collection.Common.{
  ℕ, suc, ◌+◌, ◌-◌, ◌*◌, ◌%◌, ◌^◌, ◌<◌, ◌≡◌, refl, Bool, true, false, not, ◌&&◌, Option, none, some,
  [], ◌∷◌, ℤ, pos, eqb_ℤ, eqb_ℤ→eq, if◌then◌else◌, is_some, is_none, is_empty, or_else, to_nat, set,
  ok, fault, null_pointer, arith, Returns, ◌∙◌,
}
use algorithm_collection.Common.Chains.{Chain}
use algorithm_collection.Hash.Chain.{add_node}
use algorithm_collection.Common.Chains.{
  lookup, all_below, erase, erase-IsSorted, lookup-erase, length-erase,
}
use algorithm_collection.Hash.Chain.Laws.{delete_node-eq, find_node-lookup}
use algorithm_collection.Hash.Table.{HashTable, add_at, add, delete, find}
use algorithm_collection.Hash.Table.Buckets.{AllBelong, chain_at, total-set, hash_code-home}
use algorithm_collection.Hash.Table.Moves
use algorithm_collection.Hash.Table.Moves.{IsTable}
use algorithm_collection.Hash.Table.Doubling.{IsValid, contents, grow-Kept, init_bucket-answered}

-- What `add` leaves and returns: a new key gets its value, a key that is there keeps its own.
pub record Added (ht : HashTable) (key val : ℤ) (r : HashTable × Bool) : Type 0 where
  pub returns : r.1 ≡ is_none (contents ht key)
  pub valid : IsValid r.0
  pub reads :
      (q : ℤ) → contents r.0 q ≡ or_else (contents ht q) (if eqb_ℤ q key then some val else none)
  pub count : r.0.set_size ≡ ht.set_size + to_nat r.1

-- `add` of a key from 0 on to a well-formed table, with memory at every `calloc`, fewer than 2 ^ 31
-- buckets and room in the counter, ends with no fault. It returns true exactly when the key was
-- absent; then the key has the value, and otherwise its old one. All other keys read as before, the
-- counter grows by the node that is new, and the table, resized or not, is well formed.
pub add-Added :
    (calloc : ℕ → Bool) (ht : HashTable) (a : ℕ) (val : ℤ)
    → IsValid ht
    → ((j : ℕ) → calloc j ≡ true)
    → ht.table_size * 2 < 2 ^ 32
    → ht.set_size + 1 < 2 ^ 64
    → Returns (add calloc ht (pos a) val) (Added ht (pos a) val)
unfolding add add_at add_node
add-Added calloc ht a val v answers w few =
    let n : ℕ = ht.table_size in
    let out : Chain × Bool = Moves.inserted n ht.bucket v.table a val in
    let ht₁ : HashTable = record ht {
      bucket = set ht.bucket (a % n) (some out.0);
      set_size = if out.1 then (ht.set_size + 1) % 2 ^ 64 else ht.set_size;
    } in
    let counted : ht₁.set_size ≡ ht.set_size + to_nat out.1 = ground arith in
    let v₁ : IsValid ht₁ = record {
      table = Moves.insert-IsTable n ht.bucket v.table a val;
      counted = omega (arith, counted, v.counted, Moves.total-insert n ht.bucket v.table a val);
    } in
    let (ht₂, run, k) =
      grow-Kept (λ j. calloc (suc j)) ht₁ v₁ w
        (init_bucket-answered _ (n * 2) (λ j. answers (suc j))) in
    (
      (ht₂, out.1),
      rw (
        hash_code-home a n v.table.positive v.table.narrow,
        Moves.locate n ht.bucket v.table a,
        answers 0,
        run,
      ),
      record {
        returns = Moves.insert-returns n ht.bucket v.table a val;
        valid = k.valid;
        reads = λ q. k.same q ∙ Moves.view-insert n ht.bucket v.table a val q;
        count = k.count ∙ counted;
      },
    )

-- `find` of a key from 0 on in a well-formed table ends with no fault, and returns whether the key
-- has a value.
pub find-contents :
    (ht : HashTable) (a : ℕ) → IsValid ht → find ht (pos a) ≡ ok (is_some (contents ht (pos a)))
unfolding find
find-contents ht a v =
    let n : ℕ = ht.table_size in
    rw (
      hash_code-home a n v.table.positive v.table.narrow,
      Moves.locate n ht.bucket v.table a,
      find_node-lookup (chain_at ht.bucket (a % n)) (pos a)
          (Moves.home_chain-IsSorted n ht.bucket v.table a),
    )

-- The bucket of the key has nodes, and all their keys are smaller.
abbrev pub overruns : HashTable → ℕ → Bool
overruns ht a =
    let c = chain_at ht.bucket (a % ht.table_size) in not (is_empty c) && all_below (pos a) c

-- What `delete` leaves and returns.
pub record Deleted (ht : HashTable) (key : ℤ) (r : HashTable × Option ℤ) : Type 0 where
  pub returns : r.1 ≡ contents ht key
  pub valid : IsValid r.0
  pub reads : (q : ℤ) → contents r.0 q ≡ (if eqb_ℤ q key then none else contents ht q)
  pub count : r.0.set_size + to_nat (is_some r.1) ≡ ht.set_size

-- `delete` of a key from 0 on from a well-formed table reads through NULL when the bucket of the key
-- has nodes and all their keys are smaller.
pub delete-null_pointer :
    (ht : HashTable) (a : ℕ)
    → IsValid ht
    → overruns ht a ≡ true
    → delete ht (pos a) ≡ fault null_pointer
unfolding delete
delete-null_pointer ht a v over =
    let n : ℕ = ht.table_size in
    rw (
      hash_code-home a n v.table.positive v.table.narrow,
      Moves.locate n ht.bucket v.table a,
      delete_node-eq (chain_at ht.bucket (a % n)) (pos a)
          (Moves.home_chain-IsSorted n ht.bucket v.table a),
      over,
    )

pub AllBelong-erase : (n i : ℕ) (k : ℤ) (c : Chain) → AllBelong n i c → AllBelong n i (erase k c)
unfolding erase
AllBelong-erase n i k [] b = tt
AllBelong-erase n i k (m ∷ c) b = ground (arith, AllBelong-erase n i k c b.1)

-- `delete` of a key from 0 on from a well-formed table with a counter of 64 bits, unless the bucket
-- of the key has nodes and all their keys are smaller, ends with no fault: it returns the value of the key,
-- or none; the key is absent afterwards and all others read as before; the counter falls by the
-- node that is gone, and the table is well formed.
pub delete-Deleted :
    (ht : HashTable) (a : ℕ)
    → IsValid ht
    → overruns ht a ≡ false
    → ht.set_size < 2 ^ 64
    → Returns (delete ht (pos a)) (Deleted ht (pos a))
unfolding delete
delete-Deleted ht a v within few =
    let n : ℕ = ht.table_size in
    let c : Chain = chain_at ht.bucket (a % n) in
    let s = Moves.home_chain-IsSorted n ht.bucket v.table a in
    let found : Option ℤ = lookup (pos a) c in
    let moved =
      total-set ht.bucket (a % n) (erase (pos a) c) (Moves.home-in n ht.bucket v.table (pos a)) in
    let shorter = length-erase (pos a) c in
    let ht₁ : HashTable = record ht {
      bucket = set ht.bucket (a % n) (some (erase (pos a) c));
      set_size = if is_some found then (ht.set_size + (2 ^ 64 - 1)) % 2 ^ 64 else ht.set_size;
    } in
    let counted : ht₁.set_size + to_nat (is_some found) ≡ ht.set_size =
      ground (arith, moved, shorter, v.counted) in
    (
      (ht₁, found),
      rw (
        hash_code-home a n v.table.positive v.table.narrow,
        Moves.locate n ht.bucket v.table a,
        delete_node-eq c (pos a) s,
        within,
      ),
      record {
        returns = refl;
        valid = record {
          table = Moves.write-IsTable n ht.bucket v.table a _ (erase-IsSorted (pos a) c s) (
              AllBelong-erase n (a % n) (pos a) c
                (Moves.home_chain-AllBelong n ht.bucket v.table a));
          counted = omega (arith, counted, moved, shorter, v.counted);
        };
        reads = λ q. ground (
          arith,
          Moves.view-write n ht.bucket v.table a (erase (pos a) c) q,
          lookup-erase q (pos a) c s,
          eqb_ℤ→eq q (pos a),
        );
        count = counted;
      },
    )
