-- ===== src/Skiplist/Places.antt =====
-- list/Skiplist.c: the place of a key at each level, from the top down.
use algorithm_collection.Common.{
  ℕ, zero, suc, ◌<◌, ◌≡◌, inl, inr, refl, true, false, not, ◌&&◌, Option, none, some, List, ◌∷◌, ℤ,
  arith, ltb_ℤ, eqb_ℤ, eqb_ℤ→eq, ◌<ℤ◌, ◌==◌, length, ok, Returns, Bool-cases, Option-cases, sym,
  ◌∙◌, subst, is_some, if◌then◌else◌,
}
use algorithm_collection.Common.Chains.{lookup}
use algorithm_collection.FineList
use algorithm_collection.FineList.Paths.{has, node_of, chain_of, Trail-next}
use algorithm_collection.FineList.Paths.Removal.{chain-lookup}
use algorithm_collection.Skiplist.{Node, Skiplist, load, walk}
use algorithm_collection.Skiplist.Levels.{at_level, IsValid, chain_at}
use algorithm_collection.Skiplist.Walk.{Stopped, walk-Stopped, suffix, head_out, has-lookup}

module _ (sl : Skiplist) (max k : ℤ) (xs : ℕ → List ℕ) (v : IsValid sl max xs) (below : k <ℤ max)
    (rounds : ℕ) (enough : (level : ℕ) → level < sl.max_level → length (xs level) < rounds) where
  -- Where a walk may start.
  pub record IsBefore (level a : ℕ) : Type 0 where
    pub inside : has a (sl.head ∷ xs level) ≡ true
    pub low : has a (xs level) ≡ true → (node_of (at_level sl.cell level) a).key <ℤ k

  -- Two nodes next to each other at a level, with the place of the key between them.
  pub record Placed (level p c : ℕ) : Type 0 where
    pub before : IsBefore level p
    pub next : (node_of (at_level sl.cell level) p).next ≡ c
    pub node : Node
    pub there : load sl.cell c ≡ ok node
    pub reads :
        lookup k (chain_of (at_level sl.cell level) (xs level))
        ≡ (if eqb_ℤ k node.key then some node.val else none)
    pub after : ltb_ℤ (node_of (at_level sl.cell level) c).key k ≡ false
    pub same : (node_of (at_level sl.cell level) c).key ≡ node.key
    pub kept :
        eqb_ℤ k node.key ≡ true
        → (has c (xs level) ≡ true) × ((node_of (at_level sl.cell level) c).key ≡ k)

  -- The end has a greater key.
  tail-above :
      (level : ℕ) (c : ℕ) → c ≡ sl.tail → eqb_ℤ k (node_of (at_level sl.cell level) c).key ≡ false
  tail-above level c e =
      subst (λ (a : ℕ). eqb_ℤ k (node_of (at_level sl.cell level) a).key ≡ false) (sym e)
        (rw v.tail_there (ground (arith, below, v.tail_key)))

  module _ (level : ℕ) (h : level < sl.max_level) (a : ℕ) (b : IsBefore level a) (ys : List ℕ)
      (sub : (c : ℕ) → has c ys ≡ true → has c (xs level) ≡ true) (r : ℕ × ℕ)
      (s : Stopped sl max k level v.last v.tail_there v.tail_nonzero v.tail_key below a ys r) where
    pred-IsBefore : IsBefore level r.0
    pred-IsBefore = elim (Bool-cases (has r.0 ys)) [
      | inl deep ↦ record { inside = ground (arith, sub r.0 deep); low = λ q. s.before deep }
      | inr top ↦
          let e : a ≡ r.0 = ground (arith, s.inside) in subst (λ (c : ℕ). IsBefore level c) e b
    ]

    lookup_next : lookup k (chain_of (at_level sl.cell level) (xs level)) ≡ (
        if not (r.1 == sl.tail) && eqb_ℤ k (node_of (at_level sl.cell level) r.1).key
        then some (node_of (at_level sl.cell level) r.1).val
        else none)
    lookup_next =
        let w = v.levels level h in
        subst
          (λ (c : ℕ). lookup k (chain_of (at_level sl.cell level) (xs level)) ≡ (
            if not (c == sl.tail) && eqb_ℤ k (node_of (at_level sl.cell level) c).key
            then some (node_of (at_level sl.cell level) c).val
            else none))
          s.next
          (chain-lookup (at_level sl.cell level) sl.tail r.0 sl.head k (xs level) w.trail w.sorted
            pred-IsBefore.inside pred-IsBefore.low (ground (arith, w.no_tail))
            (subst
              (λ (c : ℕ).
                (not (c == sl.tail) && ltb_ℤ (node_of (at_level sl.cell level) c).key k) ≡ false)
              (sym s.next) (ground (arith, s.after))))

    stopped-Placed : Placed level r.0 r.1
    stopped-Placed =
        let w = v.levels level h in
        let (same_key, same_val) = s.same_node in
        record {
          before = pred-IsBefore;
          next = s.next;
          node = s.node;
          there = s.there;
          after = s.after;
          same = same_key;
          reads = elim (Bool-cases (r.1 == sl.tail)) [
            | inl end ↦
                let no = tail-above level r.1 (ground arith) in
                lookup_next ∙ rw (end, ← same_key, no) refl
            | inr inside ↦ lookup_next ∙ rw (inside, same_key, same_val) refl
          ];
          kept = λ hit.
              elim (Trail-next (at_level sl.cell level) sl.tail sl.head r.0 (xs level) w.trail
                pred-IsBefore.inside).0 [
                  | inl end ↦
                      absurd (ground (arith, tail-above level r.1 (sym s.next ∙ end), same_key))
                  | inr inside ↦ (rw s.next at inside, same_key ∙ sym (eqb_ℤ→eq k s.node.key hit))
                ];
        }

  pub level-Placed :
      (level a : ℕ)
      → level < sl.max_level
      → IsBefore level a
      → Returns
          (walk rounds sl.cell k level a (node_of (at_level sl.cell level) a).next)
          (λ (r : ℕ × ℕ). Placed level r.0 r.1)
  level-Placed level a h b =
      let w = v.levels level h in
      let cell' : ℕ → Option FineList.Node = at_level sl.cell level in
      let (ys, t, short, sub) = suffix cell' sl.tail (xs level) sl.head a w.trail b.inside in
      let (r, ran, s) =
        walk-Stopped sl max k level v.last v.tail_there v.tail_nonzero v.tail_key below ys a rounds
          t (λ c q. w.tall c (ground (arith, sub c q))) (omega (arith, short, enough level h)) in
      (r, ran, stopped-Placed level h a b ys sub r s)

  same_key :
      (level level' a : ℕ)
      → (node_of (at_level sl.cell level) a).key ≡ (node_of (at_level sl.cell level') a).key
  same_key level level' a = elim (Option-cases (sl.cell a)) [
    | inl gone ↦ rw gone refl
    | inr (n, there) ↦ rw there refl
  ]

  -- On the next level down, the walk goes on from the same node.
  pub lower-IsBefore :
      (level p : ℕ) → suc level < sl.max_level → IsBefore (suc level) p → IsBefore level p
  lower-IsBefore level p h b = record {
    inside = ground (arith, b.inside, v.nested level p h);
    low = λ q. elim (Bool-cases (has p (xs (suc level)))) [
      | inl deep ↦ rw (same_key level (suc level) p) (b.low deep)
      | inr top ↦
          let e : p ≡ sl.head = ground (arith, b.inside) in
          let out =
            head_out (at_level sl.cell level) sl.tail sl.head (xs level)
              (v.levels level (omega arith)).trail in
          absurd (ground (arith, subst (λ (c : ℕ). has c (xs level) ≡ true) e q))
    ];
  }

  -- A node of any level is on the lowest.
  lowest : (level c : ℕ) → level < sl.max_level → has c (xs level) ≡ true → has c (xs 0) ≡ true
  lowest zero c h q = q
  lowest (suc level) c h q = lowest level c (omega arith) (v.nested level c h q)

  pub hit-lookup :
      (level p c : ℕ)
      → level < sl.max_level
      → (w : Placed level p c) → eqb_ℤ k w.node.key ≡ true
      → is_some (lookup k (chain_at sl (xs 0))) ≡ true
  hit-lookup level p c h w hit =
      let (inside, key) = w.kept hit in
      subst (λ (q : ℤ). is_some (lookup q (chain_at sl (xs 0))) ≡ true) (same_key 0 level c ∙ key)
        (has-lookup (at_level sl.cell 0) c (xs 0) (lowest level c h inside))
