-- ===== src/FineList/Paths/Insertion.antt =====
-- list/FineGrainedSynchroList.c: the two writes of `add` put a node into the path and the chain.
use algorithm_collection.Common.{
  ℕ, ◌≡◌, ◌≢◌, ◌⊎◌, inl, inr, refl, true, false, Option, List, [], ◌∷◌, arith, ℤ, ◌<ℤ◌, ◌==◌,
  if◌then◌else◌, ap, sym, ◌∙◌, Bool-cases, subst, eqb_refl,
}
use native.Mathlib.Decide.{ℕ_discrete}
use algorithm_collection.Common.Chains.{IsSorted, insert}
use algorithm_collection.FineList.{Node, load}
use algorithm_collection.FineList.Paths.{
  has, node_or, node_of, IsNode, Trail, chain_of, Trail-frame, chain_of-frame, insert_at,
  has-insert_at, has-ne, first_below,
}

-- `cell'` has `new` linked behind `p`.
pub record Inserted (cell cell' : ℕ → Option Node) (p new : ℕ) : Type 0 where
  pub others : (b : ℕ) → b ≢ p → b ≢ new → cell' b ≡ cell b
  pub at_p : IsNode cell' p × ((node_of cell' p).next ≡ new)
  pub same_p :
      ((node_of cell' p).key ≡ (node_of cell p).key)
      × ((node_of cell' p).val ≡ (node_of cell p).val)
  pub at_new : IsNode cell' new × ((node_of cell' new).next ≡ (node_of cell p).next)

module _ (cell cell' : ℕ → Option Node) (tail p new : ℕ) (w : Inserted cell cell' p new) where
  -- The nodes behind `p` stay as they are.
  behind_same :
      (xs : List ℕ)
      → has p xs ≡ false
      → has new xs ≡ false
      → (b : ℕ) → has b xs ≡ true
      → cell' b ≡ cell b
  behind_same xs not_p not_new b h = w.others b (has-ne p b xs not_p h) (has-ne new b xs not_new h)

  behind_new :
      (xs : List ℕ)
      → Trail cell tail p xs
      → has new (p ∷ xs) ≡ false
      → new ≢ tail
      → Trail cell' tail new xs
  behind_new [] path out ne = (w.at_new.0, w.at_new.1 ∙ path.1, ne)
  behind_new (x ∷ xs) path out ne = (
    w.at_new.0,
    w.at_new.1 ∙ path.1,
    ne,
    ground arith,
    Trail-frame cell cell' tail x xs (behind_same (x ∷ xs) path.3 (ground arith)) path.4,
  )

  not_behind : (xs : List ℕ) → Trail cell tail p xs → has p xs ≡ false
  not_behind [] path = refl
  not_behind (x ∷ xs) path = path.3

  at_p-Trail :
      (xs : List ℕ)
      → Trail cell tail p xs
      → has new (p ∷ xs) ≡ false
      → new ≢ tail
      → Trail cell' tail p (new ∷ xs)
  at_p-Trail xs path out ne = (
    w.at_p.0,
    w.at_p.1,
    start_ne xs path,
    ground (arith, not_behind xs path),
    behind_new xs path out ne,
  )
    where
      start_ne : (xs : List ℕ) → Trail cell tail p xs → p ≢ tail
      start_ne [] path = path.2
      start_ne (x ∷ xs) path = path.2

  pub insert-Trail :
      (a : ℕ) (xs : List ℕ)
      → Trail cell tail a xs
      → has p (a ∷ xs) ≡ true
      → has new (a ∷ xs) ≡ false
      → new ≢ tail
      → Trail cell' tail a (insert_at a p new xs)
  unfolding load
  insert-Trail a [] path h out ne =
      let e : p ≡ a = ground arith in
      subst (λ (c : ℕ). Trail cell' tail c (if c == p then new ∷ [] else [])) e
        (rw (eqb_refl p)
          (at_p-Trail [] (subst (λ (c : ℕ). Trail cell tail c []) (sym e) path) (ground arith) ne))
  insert-Trail a (x ∷ xs) path h out ne = elim (Bool-cases (a == p)) [
    | inl here ↦
        let e : p ≡ a = ground arith in
        rw here (
          subst (λ (c : ℕ). Trail cell' tail c (new ∷ x ∷ xs)) e
            (at_p-Trail (x ∷ xs) (subst (λ (c : ℕ). Trail cell tail c (x ∷ xs)) (sym e) path)
              (ground arith) ne))
    | inr later ↦
        let same = w.others a (ground arith) (ground arith) in
        rw later (
          rw same path.0,
          rw same path.1,
          path.2,
          ground (arith, path.3, has-insert_at a x p new xs (ground arith)),
          insert-Trail x xs path.4 (ground arith) (ground arith) ne,
        )
  ]

  -- `p` keeps its key and value, and so do the others.
  same_node :
      (b : ℕ)
      → b ≢ new
      → ((node_of cell' b).key ≡ (node_of cell b).key)
        × ((node_of cell' b).val ≡ (node_of cell b).val)
  same_node b ne = elim (ℕ_discrete b p) [
    | yes e ↦
        subst
          (λ (c : ℕ).
            ((node_of cell' c).key ≡ (node_of cell c).key)
            × ((node_of cell' c).val ≡ (node_of cell c).val))
          (sym e) w.same_p
    | no e ↦
        let f = w.others b e ne in
        (ap (λ (o : Option Node). (node_or o).key) f, ap (λ (o : Option Node). (node_or o).val) f)
  ]

  behind_key :
      (k : ℤ) (x : ℕ) (xs : List ℕ)
      → (node_of cell p).next ≡ x
      → ((node_of cell p).next ≡ tail) ⊎ (k <ℤ (node_of cell (node_of cell p).next).key)
      → has tail (x ∷ xs) ≡ false
      → k <ℤ (node_of cell x).key
  behind_key k x xs at_x (inl at_tail) no_tail = absurd (ground arith)
  behind_key k x xs at_x (inr above) no_tail =
      subst (λ (c : ℕ). k <ℤ (node_of cell c).key) at_x above

  -- The chain of the new path has the new node in the place of its key, when `p` is before that
  -- place and the node behind `p`, if there is one, after it.
  pub insert-chain :
      (a : ℕ) (k v : ℤ) (xs : List ℕ)
      → Trail cell tail a xs
      → IsSorted (chain_of cell xs)
      → has p (a ∷ xs) ≡ true
      → has new (a ∷ xs) ≡ false
      → (has p xs ≡ true → (node_of cell p).key <ℤ k)
      → ((node_of cell p).next ≡ tail) ⊎ (k <ℤ (node_of cell (node_of cell p).next).key)
      → ((node_of cell' new).key ≡ k) × ((node_of cell' new).val ≡ v)
      → has tail xs ≡ false
      → chain_of cell' (insert_at a p new xs)
        ≡ insert (chain_of cell xs) (record { key = k; value = v })
  unfolding insert
  insert-chain a k v [] path sorted h out before after (ek, ev) no_tail = ground arith
  insert-chain a k v (x ∷ xs) path sorted h out before after (ek, ev) no_tail =
      elim (Bool-cases (a == p)) [
        | inl here ↦
            let e : a ≡ p = ground arith in
            let at_x : (node_of cell p).next ≡ x =
              subst (λ (c : ℕ). (node_of cell c).next ≡ x) e path.1 in
            let not_p : has p (x ∷ xs) ≡ false =
              subst (λ (c : ℕ). has c (x ∷ xs) ≡ false) e path.3 in
            let above : k <ℤ (node_of cell x).key = behind_key k x xs at_x after no_tail in
            let same = chain_of-frame cell cell' (x ∷ xs) (λ b q.
              let f = behind_same (x ∷ xs) not_p (ground arith) b q in
              (
                ap (λ (o : Option Node). (node_or o).key) f,
                ap (λ (o : Option Node). (node_or o).val) f,
              )) in
            rw (here, same) (ground (arith, ek, ev, above))
        | inr later ↦
            let below : (node_of cell x).key <ℤ k =
              first_below cell k p x xs sorted (ground arith) (before (ground arith)) in
            let (sk, sv) = same_node x (ground arith) in
            let rest =
              insert-chain x k v xs path.4 sorted.1 (ground arith) (ground arith)
                (λ q. before (ground arith)) after (ek, ev) (ground arith) in
            rw (later, rest) (ground (arith, sk, sv, below))
      ]
