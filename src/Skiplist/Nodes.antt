-- ===== src/Skiplist/Nodes.antt =====
-- list/Skiplist.c: the nodes of each level when `add` has linked a new one.
use algorithm_collection.Common.{
  ℕ, suc, ◌<◌, ◌≤◌, ◌≡◌, ◌≢◌, inl, inr, refl, true, false, none, List, ◌∷◌, ℤ, arith, ◌<ℤ◌, ltb,
  eqb_ℤ, if◌then◌else◌, get_or, ok, sym, ◌∙◌, ap, subst, Bool-cases, is_some, length,
}
use native.Mathlib.Decide.{ℕ_discrete}
use algorithm_collection.Common.Chains.{lookup, IsSorted, insert, insert-IsSorted}
use algorithm_collection.FineList.Paths.{
  has, node_of, chain_of, Trail-frame, chain_of-frame, insert_at, has-insert_at,
}
use algorithm_collection.FineList.Paths.Insertion.{insert-Trail, insert-chain}
use algorithm_collection.Skiplist.{Cells, Skiplist, entry}
use algorithm_collection.Skiplist.Levels.{at_level, IsTall, IsLevel, IsValid, chain_at}
use algorithm_collection.Skiplist.Places.{Placed, hit-lookup}
use algorithm_collection.Skiplist.Insertion.{Partial, inside-ne, tail-ne}

module _ (sl : Skiplist) (max k val : ℤ) (xs : ℕ → List ℕ) (v : IsValid sl max xs)
    (below : k <ℤ max) (rounds : ℕ)
    (enough : (level : ℕ) → level < sl.max_level → length (xs level) < rounds) (new top : ℕ)
    (preds succs : List ℕ) (fits : suc top ≤ sl.max_level) (unused : sl.cell new ≡ none)
    (nonzero : new ≢ 0)
    (placed : (at : ℕ)
      → at < sl.max_level
      → (c : ℕ) × (entry preds at ≡ ok (get_or preds at 0))
        × (entry succs at ≡ ok c)
        × Placed sl max k xs v below rounds enough at (get_or preds at 0) c)
    (absent : lookup k (chain_at sl (xs 0)) ≡ none) (cell : Cells)
    (u : Partial sl max k val xs v below rounds enough new top preds succs fits unused nonzero
      placed
      (suc top)
      cell) where
  -- The nodes of each level afterwards.
  abbrev pub nodes : ℕ → List ℕ
  nodes level =
      if ltb level (suc top)
      then insert_at sl.head (get_or preds level 0) new (xs level)
      else xs level

  abbrev pub after : Skiplist
  after = record sl { cell = cell }

  outside : (level : ℕ) → level < sl.max_level → has new (sl.head ∷ xs level) ≡ false
  outside level h = elim (Bool-cases (has new (sl.head ∷ xs level))) [
    | inl inside ↦ absurd (
        inside-ne sl max k val xs v below rounds enough new top preds succs fits unused nonzero
          placed level new h inside refl)
    | inr out ↦ out
  ]

  -- The node behind the new one has a greater key.
  above :
      (level c : ℕ)
      → level < sl.max_level
      → Placed sl max k xs v below rounds enough level (get_or preds level 0) c
      → k <ℤ (node_of (at_level sl.cell level) c).key
  above level c h w = elim (Bool-cases (eqb_ℤ k w.node.key)) [
    | inl hit ↦ cc (
        sym (hit-lookup sl max k xs v below rounds enough level (get_or preds level 0) c h w hit)
        ∙ ap is_some absent)
    | inr miss ↦ ground (arith, w.after, w.same, miss)
  ]

  inserted_chain :
      (level : ℕ)
      → level < sl.max_level
      → level ≤ top
      → chain_of (at_level cell level) (insert_at sl.head (get_or preds level 0) new (xs level))
        ≡ insert (chain_of (at_level sl.cell level) (xs level)) (record { key = k; value = val })
  inserted_chain level h low =
      let w = v.levels level h in
      let (c, first, second, place) = placed level h in
      insert-chain (at_level sl.cell level) (at_level cell level) sl.tail (get_or preds level 0) new
        (u.done level (omega arith)) sl.head k val (xs level) w.trail w.sorted place.before.inside
        (outside level h) place.before.low (inr (rw place.next (above level c h place)))
        (u.new_node level) (ground (arith, w.no_tail))

  low-IsLevel :
      (level : ℕ)
      → level < sl.max_level
      → level ≤ top
      → IsLevel after level (insert_at sl.head (get_or preds level 0) new (xs level))
  low-IsLevel level h low =
      let w = v.levels level h in
      let (c, first, second, place) = placed level h in
      let ne =
        tail-ne sl max k val xs v below rounds enough new top preds succs fits unused nonzero
          placed in
      let has_nodes = λ (b : ℕ).
        has-insert_at b sl.head (get_or preds level 0) new (xs level) place.before.inside in
      record {
        trail =
            insert-Trail (at_level sl.cell level) (at_level cell level) sl.tail
              (get_or preds level 0) new (u.done level (omega arith)) sl.head (xs level) w.trail
              place.before.inside (outside level h) (λ e. ne (sym e));
        sorted =
            subst IsSorted (sym (inserted_chain level h low))
              (insert-IsSorted _ (record { key = k; value = val }) w.sorted);
        no_tail = ground (arith, w.no_tail, has_nodes sl.tail, ne);
        tall = λ a q. elim (ℕ_discrete a new) [
          | yes e ↦ subst (IsTall cell level) (sym e) (u.new_tall level low)
          | no e ↦ u.tall level a h (ground (arith, has_nodes a))
        ];
      }

  high-IsLevel :
      (level : ℕ) → level < sl.max_level → suc top ≤ level → IsLevel after level (xs level)
  high-IsLevel level h high =
      let w = v.levels level h in
      let same : (b : ℕ)
          → has b (sl.head ∷ xs level) ≡ true
          → at_level cell level b ≡ at_level sl.cell level b =
        λ b q. u.rest level b high (
          inside-ne sl max k val xs v below rounds enough new top preds succs fits unused nonzero
            placed level b h q) in
      let chains =
        chain_of-frame (at_level sl.cell level) (at_level cell level) (xs level)
          (λ b q. let e = same b (ground arith) in (rw e refl, rw e refl)) in
      record {
        trail =
            Trail-frame (at_level sl.cell level) (at_level cell level) sl.tail sl.head (xs level)
              same w.trail;
        sorted = subst IsSorted (sym chains) w.sorted;
        no_tail = w.no_tail;
        tall = λ a q. u.tall level a h q;
      }

  nodes-IsLevel : (level : ℕ) → level < sl.max_level → IsLevel after level (nodes level)
  nodes-IsLevel level h = elim (Bool-cases (ltb level (suc top))) [
    | inl low ↦ rw low (low-IsLevel level h (ground (arith, low)))
    | inr high ↦ rw high (high-IsLevel level h (ground (arith, high)))
  ]

  pub nodes-chain :
      chain_at after (nodes 0) ≡ insert (chain_at sl (xs 0)) (record { key = k; value = val })
  nodes-chain =
      let low : ltb 0 (suc top) ≡ true = ground arith in
      rw low (inserted_chain 0 v.some_level (omega arith))

  nodes-nested :
      (level a : ℕ)
      → suc level < sl.max_level
      → has a (nodes (suc level)) ≡ true
      → has a (nodes level) ≡ true
  nodes-nested level a h q =
      let (c, first, second, place) = placed level (omega arith) in
      let (c', first', second', place') = placed (suc level) h in
      ground (
        arith,
        q,
        v.nested level a h,
        has-insert_at a sl.head (get_or preds level 0) new (xs level) place.before.inside,
        has-insert_at a sl.head (get_or preds (suc level) 0) new (xs (suc level))
            place'.before.inside,
      )

  pub nodes-IsValid : IsValid after max nodes
  nodes-IsValid = record {
    some_level = v.some_level;
    levels = nodes-IsLevel;
    nested = nodes-nested;
    last = v.last;
    tail_there = u.tail_same ∙ v.tail_there;
    tail_nonzero = v.tail_nonzero;
    tail_key = v.tail_key;
  }
