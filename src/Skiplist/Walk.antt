-- ===== src/Skiplist/Walk.antt =====
-- list/Skiplist.c: the `while` of `search` at one level.
use algorithm_collection.Common.{
  ℕ, zero, suc, ◌<◌, ◌≤◌, ◌≡◌, ◌≢◌, inl, inr, refl, true, false, Option, some, List, [], ◌∷◌, ℤ,
  arith, ltb_ℤ, eqb_ℤ_refl, ◌<ℤ◌, ◌==◌, get_or, length, ok, Returns, Bool-cases, sym, subst,
  is_some,
}
use algorithm_collection.Common.Chains.{lookup}
use algorithm_collection.FineList
use algorithm_collection.FineList.Paths.{has, node_of, Trail, chain_of}
use algorithm_collection.Skiplist.{Node, Cells, Skiplist, load, walk}
use algorithm_collection.Skiplist.Levels.{at_level, IsTall, load-some}

-- What a thread of `next` pointers at one level makes of the node at `a`.
pub tall-node :
    (cell : Cells) (level a : ℕ) (t : IsTall cell level a)
    → node_of (at_level cell level) a
      ≡ record { key = t.node.key; val = t.node.val; next = get_or t.node.next level 0 }
tall-node cell level a t = rw t.there refl

module _ (sl : Skiplist) (max k : ℤ) (level : ℕ) (last : Node)
    (tail_there : sl.cell sl.tail ≡ some last) (nonzero : sl.tail ≢ 0) (tail_key : last.key ≡ max)
    (below : k <ℤ max) where
  abbrev pub cell' : ℕ → Option FineList.Node
  cell' = at_level sl.cell level

  -- `p` and `c` stand next to each other, with the place of the key between them.
  pub record Stopped (a : ℕ) (ys : List ℕ) (r : ℕ × ℕ) : Type 0 where
    pub inside : has r.0 (a ∷ ys) ≡ true
    pub next : (node_of cell' r.0).next ≡ r.1
    pub before : has r.0 ys ≡ true → (node_of cell' r.0).key <ℤ k
    pub after : ltb_ℤ (node_of cell' r.1).key k ≡ false
    pub node : Node
    pub there : load sl.cell r.1 ≡ ok node
    pub same_node : ((node_of cell' r.1).key ≡ node.key) × ((node_of cell' r.1).val ≡ node.val)

  pub walk-Stopped :
      (ys : List ℕ) (a rounds : ℕ)
      → Trail cell' sl.tail a ys
      → ((b : ℕ) → has b ys ≡ true → IsTall sl.cell level b)
      → length ys < rounds
      → Returns (walk rounds sl.cell k level a (node_of cell' a).next) (Stopped a ys)
  unfolding walk
  walk-Stopped ys a zero t tall h = absurd (omega arith)
  walk-Stopped [] a (suc rounds) t tall h =
      let high : ltb_ℤ last.key k ≡ false = ground (arith, below, tail_key) in
      let ran = load-some sl.cell sl.tail last nonzero tail_there in
      (
        (a, sl.tail),
        rw (t.1, ran, high) refl,
        record {
          inside = ground arith;
          next = t.1;
          before = λ h. absurd (ground arith);
          after = rw tail_there high;
          node = last;
          there = ran;
          same_node = rw tail_there (refl, refl);
        },
      )
  walk-Stopped (x ∷ ys) a (suc rounds) t tall h =
      let tx = tall x (ground arith) in
      let ran = load-some sl.cell x tx.node tx.nonzero tx.there in
      let at_x = tall-node sl.cell level x tx in
      elim (Bool-cases (ltb_ℤ tx.node.key k)) [
        | inl on ↦
            let (r, ran', s) =
              walk-Stopped ys x rounds t.4 (λ b q. tall b (ground arith)) (omega arith) in
            let ran'' : walk rounds sl.cell k level x (get_or tx.node.next level 0) ≡ ok r =
              rw at_x at ran' in
            (
              r,
              rw (t.1, ran, on, tx.reads) ran'',
              record {
                inside = ground (arith, s.inside);
                next = s.next;
                before = λ q. elim (Bool-cases (has r.0 ys)) [
                  | inl deep ↦ s.before deep
                  | inr top ↦
                      let e : x ≡ r.0 = ground (arith, s.inside) in
                      let low : tx.node.key <ℤ k = ground (arith, on) in
                      subst (λ (c : ℕ). (node_of cell' c).key <ℤ k) e (rw at_x low)
                ];
                after = s.after;
                node = s.node;
                there = s.there;
                same_node = s.same_node;
              },
            )
        | inr stop ↦ (
          (a, x),
          rw (t.1, ran, stop) refl,
          record {
            inside = ground arith;
            next = t.1;
            before = λ q. absurd (ground (arith, t.3));
            after = rw at_x stop;
            node = tx.node;
            there = ran;
            same_node = rw at_x (refl, refl);
          },
        )
      ]

-- The nodes from one of the path on.
pub suffix :
    (cell : ℕ → Option FineList.Node) (tail : ℕ) (ys : List ℕ) (a b : ℕ)
    → Trail cell tail a ys
    → has b (a ∷ ys) ≡ true
    → (zs : List ℕ) × Trail cell tail b zs
      × (length zs ≤ length ys)
      × ((c : ℕ) → has c zs ≡ true → has c ys ≡ true)
suffix cell tail [] a b t h =
    let e : a ≡ b = ground arith in
    ([], subst (λ (c : ℕ). Trail cell tail c []) e t, omega arith, λ c q. q)
suffix cell tail (x ∷ ys) a b t h = elim (Bool-cases (b == a)) [
  | inl here ↦
      let e : a ≡ b = ground arith in
      (x ∷ ys, subst (λ (c : ℕ). Trail cell tail c (x ∷ ys)) e t, omega arith, λ c q. q)
  | inr there ↦
      let (zs, t', short, sub) = suffix cell tail ys x b t.4 (ground arith) in
      (zs, t', omega (arith, short), λ c q. ground (arith, sub c q))
]

pub head_out :
    (cell : ℕ → Option FineList.Node) (tail a : ℕ) (ys : List ℕ)
    → Trail cell tail a ys
    → has a ys ≡ false
head_out cell tail a [] t = refl
head_out cell tail a (x ∷ ys) t = t.3

-- A node of a sorted chain has its key there.
pub has-lookup :
    (cell : ℕ → Option FineList.Node) (a : ℕ) (ys : List ℕ)
    → has a ys ≡ true
    → is_some (lookup (node_of cell a).key (chain_of cell ys)) ≡ true
unfolding lookup
has-lookup cell a [] h = absurd (ground arith)
has-lookup cell a (x ∷ ys) h = elim (Bool-cases (a == x)) [
  | inl here ↦
      let e : x ≡ a = ground arith in
      subst (λ (c : ℕ). is_some (lookup (node_of cell a).key (chain_of cell (c ∷ ys))) ≡ true)
        (sym e) (rw (eqb_ℤ_refl (node_of cell a).key) refl)
  | inr there ↦ ground (arith, has-lookup cell a ys (ground arith))
]
