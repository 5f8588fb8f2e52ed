-- ===== src/Hash/Table/Moves.antt =====
-- hash/Hash.c: `resize` carries every entry over to the new array.
use algorithm_collection.Common.{
  ℕ, ◌+◌, ◌%◌, ◌^◌, ◌<◌, ◌≡◌, refl, Bool, none, some, [], ◌∷◌, ℤ, pos, ◌==◌, eqb_ℤ, eqb_ℤ→eq,
  if◌then◌else◌, is_none, or_else, to_nat, set, length, length-set, ok, arith, ap, ◌∙◌,
}
use algorithm_collection.Common.Chains.{Chain, Node}
use algorithm_collection.Hash.Chain.{add_node_op}
use algorithm_collection.Common.Chains.{lookup, IsSorted}
use algorithm_collection.Common.Chains.{insert, insert-IsSorted, lookup-insert, length-insert}
use algorithm_collection.Hash.Chain.Laws.{add_node_op-eq}
use algorithm_collection.Hash.Table.{Buckets, bucket_at}
use algorithm_collection.Hash.Table.Buckets.{
  home, BelongsTo, AllBelong, ArePlaced, chain_at, view, total, bucket_at-chain_at,
  chain_at-IsSorted, chain_at-AllBelong, set-ArePlaced, chain_at-set, total-set, home-lt,
}

-- An array of `n` buckets, each with its own sorted chain.
pub record IsTable (n : ℕ) (bs : Buckets) : Type 0 where
  pub width : length bs ≡ n
  pub positive : 0 < n
  pub narrow : n < 2 ^ 32
  pub placed : ArePlaced n 0 bs

pub AllBelong-insert :
    (n i : ℕ) (c : Chain) (m : Node)
    → AllBelong n i c
    → BelongsTo n i m.key
    → AllBelong n i (insert c m)
unfolding insert
AllBelong-insert n i [] m b h = (h, tt)
AllBelong-insert n i (d ∷ c) m b h = ground (arith, AllBelong-insert n i c m b.1 h)

module _ (n : ℕ) (bs : Buckets) (t : IsTable n bs) where
  -- The chain `c` takes the place of the one where the key `a` belongs.
  pub write-IsTable :
      (a : ℕ) (c : Chain) → IsSorted c → AllBelong n (a % n) c → IsTable n (set bs (a % n) (some c))
  write-IsTable a c s b = record {
    width = length-set bs _ _ ∙ t.width;
    positive = t.positive;
    narrow = t.narrow;
    placed = set-ArePlaced n 0 (a % n) (a % n) bs c t.placed (omega arith) s b;
  }

  pub home-in : (q : ℤ) → home q n < length bs
  home-in q = rw t.width (home-lt q n t.positive)

  pub home_chain-IsSorted : (a : ℕ) → IsSorted (chain_at bs (a % n))
  home_chain-IsSorted a = chain_at-IsSorted n 0 _ bs t.placed

  pub home_chain-AllBelong : (a : ℕ) → AllBelong n (a % n) (chain_at bs (a % n))
  home_chain-AllBelong a = chain_at-AllBelong n 0 _ _ bs t.placed (omega arith)

  -- The bucket that the code reaches for a key from 0 on.
  pub locate : (a : ℕ) → bucket_at bs (a % n) ≡ ok (chain_at bs (a % n))
  locate a = bucket_at-chain_at n 0 _ bs t.placed (home-in (pos a))

  pub view-write :
      (a : ℕ) (c : Chain) (q : ℤ)
      → view n (set bs (a % n) (some c)) q ≡ (if home q n == a % n then lookup q c else view n bs q)
  view-write a c q = rw (chain_at-set bs (a % n) (home q n) c (home-in (pos a))) (ground arith)

  module _ (a : ℕ) (v : ℤ) where
    abbrev pub entry : Node
    entry = record { key = pos a; value = v }

    abbrev pub inserted : Chain × Bool
    inserted = add_node_op (chain_at bs (a % n)) entry

    -- `add_node_op` on the chain where the key belongs.
    inserted-eq : inserted ≡ (insert (chain_at bs (a % n)) entry, is_none (view n bs (pos a)))
    inserted-eq = add_node_op-eq _ entry (home_chain-IsSorted a)

    pub insert-IsTable : IsTable n (set bs (a % n) (some inserted.0))
    insert-IsTable = rw inserted-eq (
        write-IsTable a (insert (chain_at bs (a % n)) entry)
          (insert-IsSorted _ entry (home_chain-IsSorted a))
          (AllBelong-insert n (a % n) _ entry (home_chain-AllBelong a) refl))

    pub insert-returns : inserted.1 ≡ is_none (view n bs (pos a))
    insert-returns = ap (λ (r : Chain × Bool). r.1) inserted-eq

    pub view-insert :
        (q : ℤ)
        → view n (set bs (a % n) (some inserted.0)) q
          ≡ or_else (view n bs q) (if eqb_ℤ q (pos a) then some v else none)
    view-insert q = rw inserted-eq (
        ground (
          arith,
          view-write a (insert (chain_at bs (a % n)) entry) q,
          lookup-insert q (chain_at bs (a % n)) entry (home_chain-IsSorted a),
          eqb_ℤ→eq q (pos a),
        ))

    pub total-insert : total (set bs (a % n) (some inserted.0)) ≡ total bs + to_nat inserted.1
    total-insert = rw inserted-eq (
        omega (
          arith,
          total-set bs (a % n) (insert (chain_at bs (a % n)) entry) (home-in (pos a)),
          length-insert (chain_at bs (a % n)) entry (home_chain-IsSorted a),
        ))
