-- ===== src/Hash/Table/Resize.antt =====
-- hash/Hash.c: `resize` carries every entry over to an array of twice the size.
use algorithm_collection.Common.{
  ℕ, zero, suc, ◌+◌, ◌%◌, ◌<◌, ◌≡◌, refl, Bool, false, ◌&&◌, Option, none, some, [], ◌∷◌, ℤ, pos,
  negsuc, eqb_ℤ→eq, is_some, or_else, set, length, arith, Returns, ◌∙◌, sym, eqb_ℤ_refl,
}
use mathlib.Core.Path.{subst}
use native.Mathlib.Decide.{ℕ_discrete}
use algorithm_collection.Common.Chains.{Chain, Node}
use algorithm_collection.Common.Chains.{lookup, IsSorted, Above, lookup-below}
use algorithm_collection.Hash.Table.{Buckets, move_chain, move_buckets}
use algorithm_collection.Hash.Table.Buckets.{
  BelongsTo, AllBelong, ArePlaced, chain_at, chain_at-AllBelong, view, total, lookup_stranger,
  hash_code-home,
}
use algorithm_collection.Hash.Table.Moves

BelongsTo-pos : (n i : ℕ) (k : ℤ) → BelongsTo n i k → (a : ℕ) × (k ≡ pos a)
BelongsTo-pos n i (pos a) b = (a, refl)
BelongsTo-pos n i (negsuc a) b = absurd b

-- No key has an entry both in the table and in `f`.
abbrev pub AreNew : ℕ → Buckets → (ℤ → Option ℤ) → Type 0
AreNew n bs f = (q : ℤ) → is_some (view n bs q) && is_some (f q) ≡ false

-- The table after the entries `f`, which are `count` many, went into `bs`.
pub record Carried (n : ℕ) (f : ℤ → Option ℤ) (count : ℕ) (bs bs' : Buckets) : Type 0 where
  pub table : Moves.IsTable n bs'
  pub reads : (q : ℤ) → view n bs' q ≡ or_else (view n bs q) (f q)
  pub entries : total bs' ≡ total bs + count

move_node-Carried :
    (n a : ℕ) (v : ℤ) (c : Chain) (bs : Buckets)
    → Moves.IsTable n bs
    → Above (pos a) c
    → AreNew n bs (λ q. lookup q (record { key = pos a; value = v } ∷ c))
    → ((bs' : Buckets)
        → Moves.IsTable n bs'
        → AreNew n bs' (λ q. lookup q c)
        → Returns (move_chain n c bs') (Carried n (λ q. lookup q c) (length c) bs'))
    → Returns
        (move_chain n (record { key = pos a; value = v } ∷ c) bs)
        (Carried n (λ q. lookup q (record { key = pos a; value = v } ∷ c)) (suc (length c)) bs)
unfolding move_chain lookup
move_node-Carried n a v c bs t above fresh rest =
    let out : Chain × Bool = Moves.inserted n bs t a v in
    let bs₁ : Buckets = set bs (a % n) (some out.0) in
    let (bs', run, r) = rest bs₁ (Moves.insert-IsTable n bs t a v) (λ q. ground (
      arith,
      fresh q,
      Moves.view-insert n bs t a v q,
      eqb_ℤ→eq q (pos a),
      lookup-below q (pos a) c,
    )) in
    (
      bs',
      rw (hash_code-home a n t.positive t.narrow, Moves.locate n bs t a) run,
      record {
        table = r.table;
        reads = λ q. ground (arith, r.reads q, fresh q, Moves.view-insert n bs t a v q);
        entries = ground (
          arith,
          r.entries,
          Moves.total-insert n bs t a v,
          Moves.insert-returns n bs t a v,
          fresh (pos a),
          eqb_ℤ_refl (pos a),
        );
      },
    )

-- One old chain: all its keys belong to one bucket of the old table.
pub move_chain-Carried :
    (n m i : ℕ) (c : Chain) (bs : Buckets)
    → Moves.IsTable n bs
    → IsSorted c
    → AllBelong m i c
    → AreNew n bs (λ q. lookup q c)
    → Returns (move_chain n c bs) (Carried n (λ q. lookup q c) (length c) bs)
unfolding move_chain lookup
move_chain-Carried n m i [] bs t s b fresh =
    (bs, refl, record { table = t; reads = λ q. ground arith; entries = omega arith })
move_chain-Carried n m i (node ∷ c) bs t s b fresh =
    let (a, e) = BelongsTo-pos m i node.key b.0 in
    let e' : ◌≡◌ {A = Node} node (record { key = pos a; value = node.value }) =
      λ j. record { key = e j; value = node.value } in
    subst
      (λ (node' : Node).
        AreNew n bs (λ q. lookup q (node' ∷ c))
        → Above node'.key c
        → Returns (move_chain n (node' ∷ c) bs)
            (Carried n (λ q. lookup q (node' ∷ c)) (suc (length c)) bs))
      (sym e')
      (λ fresh' above.
        move_node-Carried n a node.value c bs t above fresh'
          (λ bs' t' f'. move_chain-Carried n m i c bs' t' s.1 b.1 f'))
      fresh s.0

-- The entries of all buckets, one after another.
pub lookup_all : ℤ → Buckets → Option ℤ
lookup_all q [] = none
lookup_all q (none ∷ bs) = lookup_all q bs
lookup_all q (some c ∷ bs) = or_else (lookup q c) (lookup_all q bs)

-- A key whose bucket comes before those listed is in none of them.
lookup_all-before :
    (m i a : ℕ) (bs : Buckets) → ArePlaced m i bs → a % m < i → lookup_all (pos a) bs ≡ none
unfolding lookup_all
lookup_all-before m i a [] p h = refl
lookup_all-before m i a (none ∷ bs) p h = absurd p
lookup_all-before m i a (some c ∷ bs) p h = ground (
  arith,
  lookup_all-before m (suc i) a bs p.2,
  lookup_stranger m i (pos a) c p.1 (λ e. omega arith),
)

lookup_all-negsuc : (m i a : ℕ) (bs : Buckets) → ArePlaced m i bs → lookup_all (negsuc a) bs ≡ none
unfolding lookup_all
lookup_all-negsuc m i a [] p = refl
lookup_all-negsuc m i a (none ∷ bs) p = absurd p
lookup_all-negsuc m i a (some c ∷ bs) p =
    ground
      (arith, lookup_all-negsuc m (suc i) a bs p.2, lookup_stranger m i (negsuc a) c p.1 (λ e. e))

lookup_all-chain_at :
    (m i j a : ℕ) (bs : Buckets)
    → ArePlaced m i bs
    → i + j ≡ a % m
    → lookup_all (pos a) bs ≡ lookup (pos a) (chain_at bs j)
unfolding lookup_all lookup
lookup_all-chain_at m i j a [] p h = refl
lookup_all-chain_at m i j a (none ∷ bs) p h = absurd p
lookup_all-chain_at m i zero a (some c ∷ bs) p h =
    ground (arith, lookup_all-before m (suc i) a bs p.2 (omega arith))
lookup_all-chain_at m i (suc j) a (some c ∷ bs) p h = ground (
  arith,
  lookup_all-chain_at m (suc i) j a bs p.2 (omega arith),
  lookup_stranger m i (pos a) c p.1 (λ e. omega arith),
)

view-negsuc : (m a : ℕ) (bs : Buckets) → ArePlaced m 0 bs → view m bs (negsuc a) ≡ none
view-negsuc m a bs p =
    lookup_stranger m 0 (negsuc a) (chain_at bs 0) (chain_at-AllBelong m 0 0 0 bs p (omega arith))
      (λ e. e)

pub lookup_all-view :
    (m : ℕ) (q : ℤ) (bs : Buckets) → ArePlaced m 0 bs → lookup_all q bs ≡ view m bs q
lookup_all-view m (pos a) bs p = lookup_all-chain_at m 0 (a % m) a bs p (omega arith)
lookup_all-view m (negsuc a) bs p = lookup_all-negsuc m 0 a bs p ∙ sym (view-negsuc m a bs p)

-- A bucket shares no key with those behind it.
buckets_apart :
    (m i : ℕ) (q : ℤ) (c : Chain) (bs : Buckets)
    → AllBelong m i c
    → ArePlaced m (suc i) bs
    → is_some (lookup q c) && is_some (lookup_all q bs) ≡ false
buckets_apart m i (negsuc a) c bs b p = rw (lookup_stranger m i (negsuc a) c b (λ e. e))
buckets_apart m i (pos a) c bs b p = elim (ℕ_discrete (a % m) i) [
  | yes e ↦ rw (lookup_all-before m (suc i) a bs p (omega arith)) (ground arith)
  | no e ↦ rw (lookup_stranger m i (pos a) c b e)
]

pub move_buckets-Carried :
    (n m i : ℕ) (old bs : Buckets)
    → Moves.IsTable n bs
    → ArePlaced m i old
    → AreNew n bs (λ q. lookup_all q old)
    → Returns
        (move_buckets n (length old) old bs)
        (Carried n (λ q. lookup_all q old) (total old) bs)
unfolding move_buckets lookup_all
move_buckets-Carried n m i [] bs t p fresh =
    (bs, refl, record { table = t; reads = λ q. ground arith; entries = omega arith })
move_buckets-Carried n m i (none ∷ old) bs t p fresh = absurd p
move_buckets-Carried n m i (some c ∷ old) bs t p fresh =
    let (bs₁, run₁, r₁) = move_chain-Carried n m i c bs t p.0 p.1 (λ q. ground (arith, fresh q)) in
    let (bs₂, run₂, r₂) =
      move_buckets-Carried n m (suc i) old bs₁ r₁.table p.2
        (λ q. ground (arith, fresh q, r₁.reads q, buckets_apart m i q c old p.1 p.2)) in
    (
      bs₂,
      rw run₁ run₂,
      record {
        table = r₂.table;
        reads = λ q. ground (arith, r₁.reads q, r₂.reads q);
        entries = omega (arith, r₁.entries, r₂.entries);
      },
    )
