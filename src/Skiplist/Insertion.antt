-- ===== src/Skiplist/Insertion.antt =====
-- list/Skiplist.c: the loop of `add` links a new node at each of its levels.
use algorithm_collection.Common.{
  ℕ, zero, suc, ◌+◌, ◌<◌, ◌≤◌, ◌≡◌, ◌≢◌, refl, true, Option, none, some, List, [], ◌∷◌, ℤ, arith,
  ◌<ℤ◌, get_or, replicate, ok, sym, ◌∙◌, ap, subst, eqb_refl, Returns,
}
use native.Mathlib.Decide.{ℕ_discrete}
use algorithm_collection.FineList
use algorithm_collection.FineList.Paths.{has, node_or, node_of}
use algorithm_collection.FineList.Paths.Insertion.{Inserted}
use algorithm_collection.Skiplist.{Cells, Skiplist, entry, update, link_levels, create_node}
use algorithm_collection.Skiplist.Levels.{at_level, one_level, IsTall, IsValid}
use algorithm_collection.Skiplist.Places.{Placed}
use algorithm_collection.Skiplist.Creation.{tall-IsNode}
use algorithm_collection.Skiplist.Links.{Linked, link-Linked}

pub entry-get_or : (xs : List ℕ) (i a : ℕ) → entry xs i ≡ ok a → get_or xs i 0 ≡ a
unfolding entry
entry-get_or [] i a h = absurd (cc h)
entry-get_or (x ∷ xs) zero a h = cc h
entry-get_or (x ∷ xs) (suc i) a h = entry-get_or xs i a h

entry-replicate : (n i : ℕ) → i < n → entry (replicate n 0) i ≡ ok (get_or (replicate n 0) i 0)
unfolding entry
entry-replicate zero i h = absurd (omega arith)
entry-replicate (suc n) zero h = refl
entry-replicate (suc n) (suc i) h = entry-replicate n i (omega arith)

Inserted-same :
    (cell cell' cell'' : ℕ → Option FineList.Node) (p new : ℕ)
    → ((b : ℕ) → cell'' b ≡ cell' b)
    → Inserted cell cell' p new
    → Inserted cell cell'' p new
Inserted-same cell cell' cell'' p new same w =
    subst (λ (f : ℕ → Option FineList.Node). Inserted cell f p new) (λ i b. sym (same b) i) w

module _ (sl : Skiplist) (max k val : ℤ) (xs : ℕ → List ℕ) (v : IsValid sl max xs)
    (below : k <ℤ max) (rounds : ℕ) (enough : _) (new top : ℕ) (preds succs : List ℕ)
    (fits : suc top ≤ sl.max_level) (unused : sl.cell new ≡ none) (nonzero : new ≢ 0)
    (placed : (at : ℕ)
      → at < sl.max_level
      → (c : ℕ) × (entry preds at ≡ ok (get_or preds at 0))
        × (entry succs at ≡ ok c)
        × Placed sl max k xs v below rounds enough at (get_or preds at 0) c) where
  -- The memory when the node is linked at the levels below `level`.
  pub record Partial (level : ℕ) (cell : Cells) : Type 0 where
    pub done :
        (at : ℕ)
        → at < level
        → Inserted (at_level sl.cell at) (at_level cell at) (get_or preds at 0) new
    pub rest : (at b : ℕ) → level ≤ at → b ≢ new → at_level cell at b ≡ at_level sl.cell at b
    pub tall : (at b : ℕ) → at < sl.max_level → has b (sl.head ∷ xs at) ≡ true → IsTall cell at b
    pub new_tall : (at : ℕ) → at ≤ top → IsTall cell at new
    pub new_node :
        (at : ℕ)
        → ((node_of (at_level cell at) new).key ≡ k) × ((node_of (at_level cell at) new).val ≡ val)
    pub tail_same : cell sl.tail ≡ sl.cell sl.tail

  pub inside-ne : (at b : ℕ) → at < sl.max_level → has b (sl.head ∷ xs at) ≡ true → b ≢ new
  inside-ne at b h q e =
      let t = (v.levels at h).tall b q in cc (sym t.there ∙ ap sl.cell e ∙ unused)

  pub tail-ne : sl.tail ≢ new
  tail-ne e = cc (sym v.tail_there ∙ ap sl.cell e ∙ unused)

  pub start-Partial : Partial 0 (update sl.cell new (create_node top k val))
  start-Partial =
      let cell : Cells = update sl.cell new (create_node top k val) in
      let others : (b : ℕ) → b ≢ new → cell b ≡ sl.cell b = λ b e. ground arith in
      let at_new : cell new ≡ some (create_node top k val) = rw (eqb_refl new) refl in
      record {
        done = λ at h. absurd (omega arith);
        rest = λ at b h e. ap (one_level at) (others b e);
        tall = λ at b h q.
            let t = (v.levels at h).tall b q in
            record {
              node = t.node;
              there = others b (inside-ne at b h q) ∙ t.there;
              nonzero = t.nonzero;
              reads = t.reads;
            };
        new_tall = λ at h. record {
          node = create_node top k val;
          there = at_new;
          nonzero = nonzero;
          reads = entry-replicate (suc top) at (omega arith);
        };
        new_node = λ at. rw at_new (refl, refl);
        tail_same = others sl.tail tail-ne;
      }

  module _ (level : ℕ) (h : level ≤ top) (cell cell₁ cell₂ : Cells) (c : ℕ) (u : Partial level cell)
      (w₁ : Linked cell new level c cell₁)
      (w₂ : Linked cell₁ (get_or preds level 0) level new cell₂)
      (place : Placed sl max k xs v below rounds enough level (get_or preds level 0) c) where
    abbrev p : ℕ
    p = get_or preds level 0

    p-ne : p ≢ new
    p-ne = inside-ne level p (omega (arith, fits)) place.before.inside

    tail-ne-p : sl.tail ≢ p
    tail-ne-p e =
        let w = v.levels level (omega (arith, fits)) in
        cc (
          sym (subst (λ (a : ℕ). has a (sl.head ∷ xs level) ≡ true) (sym e) place.before.inside)
          ∙ w.no_tail)

    new_here : Inserted (at_level sl.cell level) (at_level cell₂ level) p new
    new_here =
        let first : at_level cell₁ level p ≡ at_level sl.cell level p =
          ap (one_level level) (w₁.others p p-ne) ∙ u.rest level p (omega arith) p-ne in
        let second : at_level cell₂ level new ≡ at_level cell₁ level new =
          ap (one_level level) (w₂.others new (λ e. p-ne (sym e))) in
        record {
          others = λ b e e'.
              ap (one_level level) (w₂.others b e ∙ w₁.others b e')
              ∙ u.rest level b (omega arith) e';
          at_p = (
            tall-IsNode cell₂ level p (
                w₂.tall level p
                  (w₁.tall level p (u.tall level p (omega (arith, fits)) place.before.inside))),
            w₂.here.0,
          );
          same_p = (
            w₂.here.1 ∙ ap (λ o. (node_or o).key) first,
            w₂.here.2 ∙ ap (λ o. (node_or o).val) first,
          );
          at_new = (
            tall-IsNode cell₂ level new
                (w₂.tall level new (w₁.tall level new (u.new_tall level h))),
            ap (λ o. (node_or o).next) second ∙ w₁.here.0 ∙ sym place.next,
          );
        }

    next-Partial : Partial (suc level) cell₂
    next-Partial = record {
      done = λ at q. elim (ℕ_discrete at level) [
        | yes e ↦
            subst
              (λ (n : ℕ). Inserted (at_level sl.cell n) (at_level cell₂ n) (get_or preds n 0) new)
              (sym e) new_here
        | no e ↦
            Inserted-same _ (at_level cell at) _ _ new (λ b. w₂.levels at b e ∙ w₁.levels at b e)
              (u.done at (omega arith))
      ];
      rest = λ at b q e.
          let ne : at ≢ level = omega arith in
          w₂.levels at b ne ∙ w₁.levels at b ne ∙ u.rest at b (omega arith) e;
      tall = λ at b q i. w₂.tall at b (w₁.tall at b (u.tall at b q i));
      new_tall = λ at q. w₂.tall at new (w₁.tall at new (u.new_tall at q));
      new_node = λ at. elim (ℕ_discrete at level) [
        | yes e ↦
            let second : at_level cell₂ level new ≡ at_level cell₁ level new =
              ap (one_level level) (w₂.others new (λ f. p-ne (sym f))) in
            let (key, value) = u.new_node level in
            subst
              (λ (n : ℕ).
                ((node_of (at_level cell₂ n) new).key ≡ k)
                × ((node_of (at_level cell₂ n) new).val ≡ val))
              (sym e)
              (
                ap (λ o. (node_or o).key) second ∙ w₁.here.1 ∙ key,
                ap (λ o. (node_or o).val) second ∙ w₁.here.2 ∙ value,
              )
        | no e ↦
            let (key, value) = u.new_node at in
            let same : at_level cell₂ at new ≡ at_level cell at new =
              w₂.levels at new e ∙ w₁.levels at new e in
            (ap (λ o. (node_or o).key) same ∙ key, ap (λ o. (node_or o).val) same ∙ value)
      ];
      tail_same = w₂.others sl.tail tail-ne-p ∙ w₁.others sl.tail tail-ne ∙ u.tail_same;
    }

  pub link_levels-Partial :
      (count level : ℕ) (cell : Cells)
      → level + count ≡ suc top
      → Partial level cell
      → Returns (link_levels count cell new level preds succs) (Partial (suc top))
  unfolding link_levels
  link_levels-Partial zero level cell e u =
      (cell, refl, subst (λ (n : ℕ). Partial n cell) (omega (arith, e)) u)
  link_levels-Partial (suc count) level cell e u =
      let h : level ≤ top = omega arith in
      let (c, first, second, place) = placed level (omega (arith, fits)) in
      let (cell₁, ran₁, w₁) = link-Linked cell new level c (u.new_tall level h) in
      let (cell₂, ran₂, w₂) = link-Linked cell₁ (get_or preds level 0) level new (
        w₁.tall level (get_or preds level 0)
          (u.tall level (get_or preds level 0) (omega (arith, fits)) place.before.inside)) in
      let (out, ran, u') =
        link_levels-Partial count (suc level) cell₂ (omega arith)
          (next-Partial level h cell cell₁ cell₂ c u w₁ w₂ place) in
      (out, rw (second, ran₁, first, ran₂) ran, u')
