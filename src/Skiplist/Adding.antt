-- ===== src/Skiplist/Adding.antt =====
-- list/Skiplist.c: `add` keeps the list well formed and puts the key into it.
use algorithm_collection.Common.{
  ℕ, suc, ◌%◌, ◌<◌, ◌≤◌, ◌≡◌, ◌≢◌, refl, Bool, true, false, Option, none, some, List, [], ℤ, arith,
  ◌<ℤ◌, ◌==◌, get_or, ok, sym, ◌∙◌, ap, subst, Returns, is_some, is_none, length,
}
use algorithm_collection.Common.Chains.{lookup, insert, insert_present}
use algorithm_collection.Skiplist.{Skiplist, Found, entry, update, create_node, search, add}
use algorithm_collection.Skiplist.Levels.{IsValid, chain_at}
use algorithm_collection.Skiplist.Search.{Searched, search-Searched}
use algorithm_collection.Skiplist.Places.{Placed}
use algorithm_collection.Skiplist.Insertion.{entry-get_or, start-Partial, link_levels-Partial}
use algorithm_collection.Skiplist.Nodes.{nodes, nodes-IsValid, nodes-chain}

-- What `add` leaves and returns.
pub record Added (sl : Skiplist) (max k val : ℤ) (xs : ℕ → List ℕ) (r : Skiplist × Bool)
    : Type 0 where
  pub returns : r.1 ≡ is_none (lookup k (chain_at sl (xs 0)))
  pub nodes' : ℕ → List ℕ
  pub valid : IsValid r.0 max nodes'
  pub chain :
      chain_at r.0 (nodes' 0) ≡ insert (chain_at sl (xs 0)) (record { key = k; value = val })

module _ (sl : Skiplist) (max k val : ℤ) (xs : ℕ → List ℕ) (v : IsValid sl max xs)
    (below : k <ℤ max) (rounds : ℕ)
    (enough : (level : ℕ) → level < sl.max_level → length (xs level) < rounds) (r new : ℕ)
    (unused : sl.cell new ≡ none) (nonzero : new ≢ 0) where
  -- After a search that has found nothing.
  add_absent :
      (g : Found)
      → search rounds sl k ≡ ok g
      → Searched sl max k xs v below rounds enough sl.max_level
          (record { level = none; preds = []; succs = [] })
          g
      → g.level ≡ none
      → lookup k (chain_at sl (xs 0)) ≡ none
      → Returns (add rounds r new sl k val) (Added sl max k val xs)
  unfolding add
  add_absent g ran s no_level absent =
      let top : ℕ = r % sl.max_level in
      let fits : suc top ≤ sl.max_level = omega (arith, v.some_level) in
      let positive : (sl.max_level == 0) ≡ false = ground (arith, v.some_level) in
      let there : (new == 0) ≡ false = ground (arith, nonzero) in
      let placed : (at : ℕ)
          → at < sl.max_level
          → (c : ℕ) × (entry g.preds at ≡ ok (get_or g.preds at 0))
            × (entry g.succs at ≡ ok c)
            × Placed sl max k xs v below rounds enough at (get_or g.preds at 0) c =
        λ at h.
          let (p, c, first, second, w) = s.placed at h in
          let e = entry-get_or g.preds at p first in
          (
            c,
            first ∙ ap ok (sym e),
            second,
            subst (λ (a : ℕ). Placed sl max k xs v below rounds enough at a c) (sym e) w,
          ) in
      let (cell, linked, u) =
        link_levels-Partial sl max k val xs v below rounds enough new top g.preds g.succs fits
          unused nonzero placed (suc top) 0 (update sl.cell new (create_node top k val))
          (omega arith)
          (start-Partial sl max k val xs v below rounds enough new top g.preds g.succs fits unused
            nonzero placed) in
      (
        (record sl { cell = cell }, true),
        rw (ran, no_level, positive, there, linked) refl,
        record {
          returns = rw absent refl;
          nodes' =
              nodes sl max k val xs v below rounds enough new top g.preds g.succs fits unused
                nonzero placed absent cell u;
          valid =
              nodes-IsValid sl max k val xs v below rounds enough new top g.preds g.succs fits
                unused nonzero placed absent cell u;
          chain =
              nodes-chain sl max k val xs v below rounds enough new top g.preds g.succs fits unused
                nonzero placed absent cell u;
        },
      )

  add_present :
      (g : Found) (l : ℕ) (x : ℤ)
      → search rounds sl k ≡ ok g
      → g.level ≡ some l
      → lookup k (chain_at sl (xs 0)) ≡ some x
      → Returns (add rounds r new sl k val) (Added sl max k val xs)
  unfolding add
  add_present g l x ran level there = (
    (sl, false),
    rw (ran, level) refl,
    record {
      returns = rw there refl;
      nodes' = xs;
      valid = v;
      chain = sym (
          insert_present (chain_at sl (xs 0)) (record { key = k; value = val }) x there
            (v.levels 0 v.some_level).sorted);
    },
  )

  -- `add` of a key below that of the end to a well-formed list, with an unused address from `calloc`,
  -- any number from `rand` and more rounds than the nodes of any level, ends with no fault. It
  -- returns true exactly when the key was absent; the list is well formed, and its keys and values
  -- are those of a sorted chain after an insertion.
  pub add-chain_at : Returns (add rounds r new sl k val) (Added sl max k val xs)
  add-chain_at =
      let (g, ran, s) = search-Searched sl max k xs v below rounds enough in
      let positive : (sl.max_level == 0) ≡ false = ground (arith, v.some_level) in
      let found : is_some g.level ≡ is_some (lookup k (chain_at sl (xs 0))) =
        rw positive at s.found in
      by_cases g ran s found (g.level) refl (lookup k (chain_at sl (xs 0))) refl
    where
      by_cases :
          (g : Found)
          → search rounds sl k ≡ ok g
          → Searched sl max k xs v below rounds enough sl.max_level
              (record { level = none; preds = []; succs = [] })
              g
          → is_some g.level ≡ is_some (lookup k (chain_at sl (xs 0)))
          → (o : Option ℕ) → g.level ≡ o
          → (q : Option ℤ) → lookup k (chain_at sl (xs 0)) ≡ q
          → Returns (add rounds r new sl k val) (Added sl max k val xs)
      by_cases g ran s found none e none f = add_absent g ran s e f
      by_cases g ran s found (some l) e (some x) f = add_present g l x ran e f
      by_cases g ran s found none e (some x) f = cc (sym (ap is_some e) ∙ found ∙ ap is_some f)
      by_cases g ran s found (some l) e none f = cc (sym (ap is_some e) ∙ found ∙ ap is_some f)
