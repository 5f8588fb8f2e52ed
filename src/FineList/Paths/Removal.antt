-- ===== src/FineList/Paths/Removal.antt =====
-- list/FineGrainedSynchroList.c: the write of `delete` takes a node out of the path and the chain;
-- and what stands at the place of a key.
use algorithm_collection.Common.{
  ℕ, ◌≡◌, ◌≢◌, inl, inr, refl, true, false, not, ◌&&◌, Option, none, some, List, [], ◌∷◌, arith, ℤ,
  ltb_ℤ, eqb_ℤ, ◌<ℤ◌, ◌==◌, if◌then◌else◌, ap, sym, ◌∙◌, Bool-cases, subst,
}
use native.Mathlib.Decide.{ℕ_discrete}
use algorithm_collection.Common.Chains.{lookup, IsSorted, erase, lookup-below}
use algorithm_collection.FineList.{Node, load}
use algorithm_collection.FineList.Paths.{
  has, node_or, node_of, IsNode, Trail, chain_of, Trail-frame, chain_of-frame, remove_at,
  has-remove_at, has-ne, first_below,
}

-- In `cell'` the node behind `p` is left out.
pub record Removed (cell cell' : ℕ → Option Node) (p : ℕ) : Type 0 where
  pub others : (b : ℕ) → b ≢ p → cell' b ≡ cell b
  pub at_p : IsNode cell' p × ((node_of cell' p).next ≡ (node_of cell (node_of cell p).next).next)
  pub same_p :
      ((node_of cell' p).key ≡ (node_of cell p).key)
      × ((node_of cell' p).val ≡ (node_of cell p).val)

module _ (cell cell' : ℕ → Option Node) (tail p : ℕ) (w : Removed cell cell' p) where
  behind_same : (xs : List ℕ) → has p xs ≡ false → (b : ℕ) → has b xs ≡ true → cell' b ≡ cell b
  behind_same xs not_p b h = w.others b (has-ne p b xs not_p h)

  over_next :
      (x : ℕ) (xs : List ℕ)
      → (node_of cell p).next ≡ x
      → p ≢ tail
      → has p (x ∷ xs) ≡ false
      → Trail cell tail x xs
      → Trail cell' tail p xs
  over_next x [] at_x ne not_p path =
      (w.at_p.0, w.at_p.1 ∙ ap (λ (c : ℕ). (node_of cell c).next) at_x ∙ path.1, ne)
  over_next x (y ∷ ys) at_x ne not_p path = (
    w.at_p.0,
    w.at_p.1 ∙ ap (λ (c : ℕ). (node_of cell c).next) at_x ∙ path.1,
    ne,
    ground arith,
    Trail-frame cell cell' tail y ys (behind_same (y ∷ ys) (ground arith)) path.4,
  )

  pub remove-Trail :
      (a : ℕ) (xs : List ℕ)
      → Trail cell tail a xs
      → has p (a ∷ xs) ≡ true
      → (node_of cell p).next ≢ tail
      → Trail cell' tail a (remove_at a p xs)
  unfolding load
  remove-Trail a [] path h inside =
      let e : a ≡ p = ground arith in
      absurd (inside (subst (λ (c : ℕ). (node_of cell c).next ≡ tail) e path.1))
  remove-Trail a (x ∷ xs) path h inside = elim (Bool-cases (a == p)) [
    | inl here ↦
        let e : a ≡ p = ground arith in
        rw here (
          subst (λ (c : ℕ). Trail cell' tail c xs) (sym e)
            (over_next x xs (subst (λ (c : ℕ). (node_of cell c).next ≡ x) e path.1)
              (λ q. path.2 (e ∙ q)) (subst (λ (c : ℕ). has c (x ∷ xs) ≡ false) e path.3) path.4))
    | inr later ↦
        let same = w.others a (ground arith) in
        let rest = remove-Trail x xs path.4 (ground arith) inside in
        rw later
          (more a x xs (rw same path.0) (rw same path.1) path.2 path.3 path.4 (ground arith) rest)
  ]
    where
      more :
          (a x : ℕ) (xs : List ℕ)
          → IsNode cell' a
          → (node_of cell' a).next ≡ x
          → a ≢ tail
          → has a (x ∷ xs) ≡ false
          → Trail cell tail x xs
          → has p (x ∷ xs) ≡ true
          → Trail cell' tail x (remove_at x p xs)
          → Trail cell' tail a (x ∷ remove_at x p xs)
      more a x xs is_node at_x ne out path h rest =
          (is_node, at_x, ne, ground (arith, has-remove_at a x p xs), rest)

  -- `p` keeps its key and value, and so do the others.
  same_node :
      (b : ℕ)
      → ((node_of cell' b).key ≡ (node_of cell b).key)
        × ((node_of cell' b).val ≡ (node_of cell b).val)
  same_node b = elim (ℕ_discrete b p) [
    | yes e ↦
        subst
          (λ (c : ℕ).
            ((node_of cell' c).key ≡ (node_of cell c).key)
            × ((node_of cell' c).val ≡ (node_of cell c).val))
          (sym e) w.same_p
    | no e ↦
        let f = w.others b e in
        (ap (λ (o : Option Node). (node_or o).key) f, ap (λ (o : Option Node). (node_or o).val) f)
  ]

  -- The chain of the new path has lost the key of the node behind `p`.
  pub remove-chain :
      (a : ℕ) (k : ℤ) (xs : List ℕ)
      → Trail cell tail a xs
      → IsSorted (chain_of cell xs)
      → has p (a ∷ xs) ≡ true
      → (has p xs ≡ true → (node_of cell p).key <ℤ k)
      → (node_of cell p).next ≢ tail
      → eqb_ℤ k (node_of cell (node_of cell p).next).key ≡ true
      → chain_of cell' (remove_at a p xs) ≡ erase k (chain_of cell xs)
  unfolding erase
  remove-chain a k [] path sorted h before inside found = refl
  remove-chain a k (x ∷ xs) path sorted h before inside found = elim (Bool-cases (a == p)) [
    | inl here ↦
        let e : a ≡ p = ground arith in
        let at_x : (node_of cell p).next ≡ x =
          subst (λ (c : ℕ). (node_of cell c).next ≡ x) e path.1 in
        let found_x : eqb_ℤ k (node_of cell x).key ≡ true =
          subst (λ (c : ℕ). eqb_ℤ k (node_of cell c).key ≡ true) at_x found in
        rw (here, found_x) (chain_of-frame cell cell' xs (λ b q. same_node b))
    | inr later ↦
        let below : (node_of cell x).key <ℤ k =
          first_below cell k p x xs sorted (ground arith) (before (ground arith)) in
        let (sk, sv) = same_node x in
        let rest =
          remove-chain x k xs path.4 sorted.1 (ground arith) (λ q. before (ground arith)) inside
            found in
        rw (later, rest) (ground (arith, sk, sv, below))
  ]

-- The node behind `p` tells whether the key is in the chain, and its value.
pub chain-lookup :
    (cell : ℕ → Option Node) (tail p a : ℕ) (k : ℤ) (xs : List ℕ)
    → Trail cell tail a xs
    → IsSorted (chain_of cell xs)
    → has p (a ∷ xs) ≡ true
    → (has p xs ≡ true → (node_of cell p).key <ℤ k)
    → has tail xs ≡ false
    → (not ((node_of cell p).next == tail) && ltb_ℤ (node_of cell (node_of cell p).next).key k)
      ≡ false
    → lookup k (chain_of cell xs) ≡ (
        if not ((node_of cell p).next == tail) && eqb_ℤ k (node_of cell (node_of cell p).next).key
        then some (node_of cell (node_of cell p).next).val
        else none)
unfolding lookup
chain-lookup cell tail p a k [] path sorted h before no_tail stop =
    let e : a ≡ p = ground arith in
    let at_tail : (node_of cell p).next ≡ tail =
      subst (λ (c : ℕ). (node_of cell c).next ≡ tail) e path.1 in
    ground (arith, at_tail)
chain-lookup cell tail p a k (x ∷ xs) path sorted h before no_tail stop =
    elim (Bool-cases (a == p)) [
      | inl here ↦
          let e : a ≡ p = ground arith in
          let at_x : (node_of cell p).next ≡ x =
            subst (λ (c : ℕ). (node_of cell c).next ≡ x) e path.1 in
          rw at_x (at_first at_x)
      | inr later ↦
          let below : (node_of cell x).key <ℤ k =
            first_below cell k p x xs sorted (ground arith) (before (ground arith)) in
          let rest =
            chain-lookup cell tail p x k xs path.4 sorted.1 (ground arith)
              (λ q. before (ground arith)) (ground arith) stop in
          ground (arith, below, rest)
    ]
  where
    at_first :
        (node_of cell p).next ≡ x
        → lookup k (chain_of cell (x ∷ xs)) ≡ (
            if not (x == tail) && eqb_ℤ k (node_of cell x).key
            then some (node_of cell x).val
            else none)
    at_first e =
        let stop_x : (not (x == tail) && ltb_ℤ (node_of cell x).key k) ≡ false =
          subst (λ (c : ℕ). (not (c == tail) && ltb_ℤ (node_of cell c).key k) ≡ false) e stop in
        ground (arith, lookup-below k (node_of cell x).key (chain_of cell xs))
