-- ===== src/FineList/Paths.antt =====
-- list/FineGrainedSynchroList.c: the nodes from `head` to `tail`, the chain that they stand for, and
-- what the writes of `add` and `delete` do to both.
pub mod Insertion
pub mod Removal
use algorithm_collection.Common.{
  ℕ, zero, suc, ◌+◌, ◌≡◌, ◌≢◌, ◌⊎◌, inl, inr, refl, Bool, true, false, not, ◌&&◌, ◌||◌, Option,
  none, some, List, [], ◌∷◌, arith, ℤ, pos, ltb_ℤ, eqb_ℤ, ◌<ℤ◌, ◌==◌, if◌then◌else◌, Run, ok, ap,
  sym, ◌∙◌, Bool-cases, subst, eqb_refl,
}
use algorithm_collection.Common.Chains.{Chain, lookup, Above, IsSorted, insert, erase}
use algorithm_collection.FineList.{Node, Ends, Memory, update, load, create_node, link}

abbrev pub has : ℕ → List ℕ → Bool
has a [] = false
has a (x ∷ xs) = (a == x) || has a xs

abbrev pub node_or : Option Node → Node
node_or none = create_node (pos 0) (pos 0)
node_or (some n) = n

abbrev pub node_of : (ℕ → Option Node) → ℕ → Node
node_of cell a = node_or (cell a)

-- There is a node at the address.
abbrev pub IsNode : (ℕ → Option Node) → ℕ → Type 0
IsNode cell a = load cell a ≡ ok (node_of cell a)

-- From the node at `a` the `next` pointers lead through the nodes `xs`, each other than those before
-- it, to `tail`.
abbrev pub Trail : (ℕ → Option Node) → ℕ → ℕ → List ℕ → Type 0
Trail cell tail a [] = IsNode cell a × ((node_of cell a).next ≡ tail) × (a ≢ tail)
Trail cell tail a (x ∷ xs) =
    IsNode cell a
    × ((node_of cell a).next ≡ x)
    × (a ≢ tail)
    × (has a (x ∷ xs) ≡ false)
    × Trail cell tail x xs

-- Keys and values of the nodes.
abbrev pub chain_of : (ℕ → Option Node) → List ℕ → Chain
chain_of cell [] = []
chain_of cell (x ∷ xs) =
    record { key = (node_of cell x).key; value = (node_of cell x).val } ∷ chain_of cell xs

-- The same nodes under another memory that agrees on them.
pub Trail-frame :
    (cell cell' : ℕ → Option Node) (tail a : ℕ) (xs : List ℕ)
    → ((b : ℕ) → has b (a ∷ xs) ≡ true → cell' b ≡ cell b)
    → Trail cell tail a xs
    → Trail cell' tail a xs
unfolding load
Trail-frame cell cell' tail a [] same p = let e = same a (ground arith) in (rw e p.0, rw e p.1, p.2)
Trail-frame cell cell' tail a (x ∷ xs) same p =
    let e = same a (ground arith) in
    (
      rw e p.0,
      rw e p.1,
      p.2,
      p.3,
      Trail-frame cell cell' tail x xs (λ b h. same b (ground arith)) p.4,
    )

pub chain_of-frame :
    (cell cell' : ℕ → Option Node) (xs : List ℕ)
    → ((b : ℕ)
        → has b xs ≡ true
        → ((node_of cell' b).key ≡ (node_of cell b).key)
          × ((node_of cell' b).val ≡ (node_of cell b).val))
    → chain_of cell' xs ≡ chain_of cell xs
chain_of-frame cell cell' [] same = refl
chain_of-frame cell cell' (x ∷ xs) same =
    let (k, v) = same x (ground arith) in
    ground (arith, k, v, chain_of-frame cell cell' xs (λ b h. same b (ground arith)))

-- The nodes with `new` behind `p`, and without the node behind `p`; `a` is the node before `xs`.
abbrev pub insert_at : (a p new : ℕ) → List ℕ → List ℕ
insert_at a p new [] = if a == p then new ∷ [] else []
insert_at a p new (x ∷ xs) = if a == p then new ∷ x ∷ xs else x ∷ insert_at x p new xs

abbrev pub remove_at : (a p : ℕ) → List ℕ → List ℕ
remove_at a p [] = []
remove_at a p (x ∷ xs) = if a == p then xs else x ∷ remove_at x p xs

pub has-insert_at :
    (b a p new : ℕ) (xs : List ℕ)
    → has p (a ∷ xs) ≡ true
    → has b (insert_at a p new xs) ≡ (has b xs || (b == new))
has-insert_at b a p new [] h = ground arith
has-insert_at b a p new (x ∷ xs) h = ground (arith, has-insert_at b x p new xs)

-- What is left after a removal was there before; and all but the node behind `p` is left.
pub has-remove_at : (b a p : ℕ) (xs : List ℕ) → has b xs ≡ false → has b (remove_at a p xs) ≡ false
has-remove_at b a p [] h = refl
has-remove_at b a p (x ∷ xs) h = ground (arith, has-remove_at b x p xs)

pub has-remove_at_kept :
    (cell : ℕ → Option Node) (tail b a p : ℕ) (xs : List ℕ)
    → Trail cell tail a xs
    → b ≢ (node_of cell p).next
    → has b xs ≡ true
    → has b (remove_at a p xs) ≡ true
has-remove_at_kept cell tail b a p [] path ne h = h
has-remove_at_kept cell tail b a p (x ∷ xs) path ne h = elim (Bool-cases (a == p)) [
  | inl here ↦
      let e : a ≡ p = ground arith in
      let at_x : (node_of cell p).next ≡ x =
        subst (λ (c : ℕ). (node_of cell c).next ≡ x) e path.1 in
      ground (arith, at_x)
  | inr later ↦ ground (arith, has-remove_at_kept cell tail b x p xs path.4 ne)
]

pub has-ne : (a b : ℕ) (xs : List ℕ) → has a xs ≡ false → has b xs ≡ true → b ≢ a
has-ne a b xs out inside e = cc (sym (subst (λ (c : ℕ). has c xs ≡ true) e inside) ∙ out)

-- A key of the chain lies above what all of it does.
pub has-Above :
    (cell : ℕ → Option Node) (k : ℤ) (b : ℕ) (xs : List ℕ)
    → Above k (chain_of cell xs)
    → has b xs ≡ true
    → k <ℤ (node_of cell b).key
has-Above cell k b [] above h = cc h
has-Above cell k b (x ∷ xs) above h = elim (Bool-cases (b == x)) [
  | inl here ↦
      let e : x ≡ b = ground arith in subst (λ (c : ℕ). k <ℤ (node_of cell c).key) e above.0
  | inr later ↦ has-Above cell k b xs above.1 (ground arith)
]

-- The node at `p` is before the place of `k`: so is the first of a sorted chain that `p` stands in.
pub first_below :
    (cell : ℕ → Option Node) (k : ℤ) (p x : ℕ) (xs : List ℕ)
    → IsSorted (chain_of cell (x ∷ xs))
    → has p (x ∷ xs) ≡ true
    → (node_of cell p).key <ℤ k
    → (node_of cell x).key <ℤ k
first_below cell k p x xs sorted h below = elim (Bool-cases (p == x)) [
  | inl here ↦ let e : p ≡ x = ground arith in subst (λ (c : ℕ). (node_of cell c).key <ℤ k) e below
  | inr later ↦
      let above = has-Above cell (node_of cell x).key p xs sorted.0 (ground arith) in
      omega (arith, above, below)
]

pub Trail-IsNode :
    (cell : ℕ → Option Node) (tail a b : ℕ) (xs : List ℕ)
    → Trail cell tail a xs
    → has b (a ∷ xs) ≡ true
    → IsNode cell b
Trail-IsNode cell tail a b [] path h = let e : a ≡ b = ground arith in subst (IsNode cell) e path.0
Trail-IsNode cell tail a b (x ∷ xs) path h = elim (Bool-cases (b == a)) [
  | inl here ↦ let e : a ≡ b = ground arith in subst (IsNode cell) e path.0
  | inr later ↦ Trail-IsNode cell tail x b xs path.4 (ground arith)
]

-- What a node of the path points to: the end, or a node of the path, and never itself.
pub Trail-next :
    (cell : ℕ → Option Node) (tail a b : ℕ) (xs : List ℕ)
    → Trail cell tail a xs
    → has b (a ∷ xs) ≡ true
    → (((node_of cell b).next ≡ tail) ⊎ (has (node_of cell b).next xs ≡ true))
      × ((node_of cell b).next ≢ b)
Trail-next cell tail a b [] path h =
    let e : a ≡ b = ground arith in
    let at_tail = subst (λ (c : ℕ). (node_of cell c).next ≡ tail) e path.1 in
    (inl at_tail, λ q. path.2 (e ∙ sym q ∙ at_tail))
Trail-next cell tail a b (x ∷ xs) path h = elim (Bool-cases (b == a)) [
  | inl here ↦
      let e : a ≡ b = ground arith in
      let at_x : (node_of cell b).next ≡ x =
        subst (λ (c : ℕ). (node_of cell c).next ≡ x) e path.1 in
      (inr (ground (arith, at_x)), λ q. ground (arith, at_x, q, e, path.3))
  | inr later ↦
      let (next, other) = Trail-next cell tail x b xs path.4 (ground arith) in
      (elim next [ inl at_tail ↦ inl at_tail | inr inside ↦ inr (ground (arith, inside)) ], other)
]
