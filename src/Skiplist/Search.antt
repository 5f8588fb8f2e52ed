-- ===== src/Skiplist/Search.antt =====
-- list/Skiplist.c: `search` finds the place of a key at every level.
use algorithm_collection.Common.{
  ℕ, zero, suc, ◌+◌, ◌<◌, ◌≤◌, ◌≡◌, inl, inr, refl, false, not, ◌&&◌, ◌||◌, none, some, List, [],
  ◌∷◌, ℤ, arith, eqb_ℤ, ◌<ℤ◌, ◌==◌, get_or, length, ok, Returns, Bool-cases, Option-cases, sym, ◌∙◌,
  ap, subst, is_some, is_none, if◌then◌else◌, pos,
}
use native.Mathlib.Decide.{ℕ_discrete}
use algorithm_collection.Common.Chains.{lookup}
use algorithm_collection.FineList.Paths.{chain_of}
use algorithm_collection.Skiplist.{Skiplist, Found, entry, walk, search_levels, search, find}
use algorithm_collection.Skiplist.Levels.{at_level, load-some, IsValid, chain_at}
use algorithm_collection.Skiplist.Walk.{tall-node, head_out}
use algorithm_collection.Skiplist.Places.{
  IsBefore, Placed, level-Placed, lower-IsBefore, hit-lookup,
}

module _ (sl : Skiplist) (max k : ℤ) (xs : ℕ → List ℕ) (v : IsValid sl max xs) (below : k <ℤ max)
    (rounds : ℕ) (enough : (level : ℕ) → level < sl.max_level → length (xs level) < rounds) where
  -- What `search_levels` makes of `f`: the places at the levels below `level`, and whether the key
  -- has been found.
  pub record Searched (level : ℕ) (f g : Found) : Type 0 where
    pub placed :
        (at : ℕ)
        → at < level
        → (p : ℕ) × (c : ℕ) × (entry g.preds at ≡ ok p)
          × (entry g.succs at ≡ ok c)
          × Placed sl max k xs v below rounds enough at p c
    pub older :
        (j : ℕ)
        → (entry g.preds (level + j) ≡ entry f.preds j)
          × (entry g.succs (level + j) ≡ entry f.succs j)
    pub found :
        is_some g.level
        ≡ (is_some f.level || (not (level == 0) && is_some (lookup k (chain_at sl (xs 0)))))

  -- The entries of the arrays after one more level.
  unfoldable one_more :
      (level p c : ℕ) (w : Placed sl max k xs v below rounds enough level p c) → Found → Found
  one_more level p c w f = record {
    level = if is_none f.level && eqb_ℤ k w.node.key then some level else f.level;
    preds = p ∷ f.preds;
    succs = c ∷ f.succs;
  }

  searched-found :
      (level : ℕ) (f : Found) (p c : ℕ)
      → level < sl.max_level
      → (w : Placed sl max k xs v below rounds enough level p c) (g : Found)
      → is_some g.level ≡ (
          is_some (one_more level p c w f).level
          || (not (level == 0) && is_some (lookup k (chain_at sl (xs 0)))))
      → is_some g.level
        ≡ (is_some f.level || (not (suc level == 0) && is_some (lookup k (chain_at sl (xs 0)))))
  unfolding one_more
  searched-found level f p c h w g e = elim (Bool-cases (eqb_ℤ k w.node.key)) [
    | inl hit ↦
        let there = hit-lookup sl max k xs v below rounds enough level p c h w hit in
        elim (Option-cases f.level) [
          | inl first ↦ ground (arith, rw (first, hit) at e)
          | inr (l, again) ↦ ground (arith, rw again at e)
        ]
    | inr miss ↦ elim (ℕ_discrete level 0) [
      | yes low ↦
          let none_there : is_some (lookup k (chain_at sl (xs 0))) ≡ false =
            subst (λ (n : ℕ). is_some (lookup k (chain_of (at_level sl.cell n) (xs n))) ≡ false) low
              (rw (w.reads, miss) refl) in
          elim (Option-cases f.level) [
            | inl first ↦ ground (arith, rw (first, miss) at e)
            | inr (l, again) ↦ ground (arith, rw again at e)
          ]
      | no high ↦ elim (Option-cases f.level) [
        | inl first ↦ ground (arith, rw (first, miss) at e)
        | inr (l, again) ↦ ground (arith, rw again at e)
      ]
    ]
  ]

  searched :
      (level : ℕ) (f : Found) (p c : ℕ)
      → level < sl.max_level
      → (w : Placed sl max k xs v below rounds enough level p c) (g : Found)
      → Searched level (one_more level p c w f) g
      → Searched (suc level) f g
  unfolding one_more entry
  searched level f p c h w g s = record {
    placed = λ at q. elim (ℕ_discrete at level) [
      | yes e ↦
          let here : level + 0 ≡ level = omega arith in
          let (first, second) = s.older 0 in
          subst
            (λ (n : ℕ).
              (p' : ℕ) × (c' : ℕ) × (entry g.preds n ≡ ok p')
              × (entry g.succs n ≡ ok c')
              × Placed sl max k xs v below rounds enough n p' c')
            (sym e) (p, c, rw here at first, rw here at second, w)
      | no e ↦ s.placed at (omega arith)
    ];
    older = λ j.
        let next : suc level + j ≡ level + suc j = omega arith in
        let (first, second) = s.older (suc j) in
        (ap (entry g.preds) next ∙ first, ap (entry g.succs) next ∙ second);
    found = searched-found level f p c h w g s.found;
  }

  search_levels-Searched :
      (level a : ℕ) (f : Found)
      → level ≤ sl.max_level
      → ((at : ℕ) → level ≡ suc at → IsBefore sl max k xs v below rounds enough at a)
      → Returns (search_levels rounds sl.cell k level a f) (Searched level f)
  unfolding search_levels one_more
  search_levels-Searched zero a f h b = (
    f,
    refl,
    record {
      placed = λ at q. absurd (omega arith);
      older = λ j. let e : 0 + j ≡ j = omega arith in (ap (entry f.preds) e, ap (entry f.succs) e);
      found = ground arith;
    },
  )
  search_levels-Searched (suc level) a f h b =
      let start = b level refl in
      let t = (v.levels level h).tall a start.inside in
      let node = tall-node sl.cell level a t in
      let (r, ran, w) = level-Placed sl max k xs v below rounds enough level a h start in
      let f' : Found = one_more level r.0 r.1 w f in
      let (g, ran', s) = search_levels-Searched level r.0 f' (omega arith) (λ at e.
        lower-IsBefore sl max k xs v below rounds enough at r.0 (omega arith)
          (subst (λ (n : ℕ). IsBefore sl max k xs v below rounds enough n r.0) e w.before)) in
      let walked : walk rounds sl.cell k level a (get_or t.node.next level 0) ≡ ok r =
        rw node at ran in
      (
        g,
        rw (load-some sl.cell a t.node t.nonzero t.there, t.reads, walked, w.there) ran',
        searched level f r.0 r.1 h w g s,
      )

  -- In a well-formed list, `search` of a key below that of the end stops, with no fault, for rounds
  -- that are more than the nodes of any level: at every level it has found the place of the key, the
  -- last node before it and the node that this one points to, which has the key or a higher one;
  -- and it reports a level exactly when the key is in the list.
  pub search-Searched :
      Returns
        (search rounds sl k)
        (Searched sl.max_level (record { level = none; preds = []; succs = [] }))
  unfolding search
  search-Searched =
      search_levels-Searched sl.max_level sl.head (record { level = none; preds = []; succs = [] })
        (omega arith)
        (λ at e. record {
          inside = ground arith;
          low = λ q.
              let out =
                head_out (at_level sl.cell at) sl.tail sl.head (xs at)
                  (v.levels at (omega (arith, e))).trail in
              absurd (ground (arith, out));
        })

  find-after :
      (g : Found)
      → search rounds sl k ≡ ok g
      → Searched sl.max_level (record { level = none; preds = []; succs = [] }) g
      → find rounds sl k ≡ ok (elim (lookup k (chain_at sl (xs 0))) [ none ↦ pos 0 | some x ↦ x ])
  unfolding find
  find-after g ran s =
      let (p, c, first, second, w) = s.placed 0 v.some_level in
      let t = (v.levels 0 v.some_level).tall p w.before.inside in
      let node = tall-node sl.cell 0 p t in
      let positive : (sl.max_level == 0) ≡ false = ground (arith, v.some_level) in
      let found : is_some g.level ≡ is_some (lookup k (chain_at sl (xs 0))) =
        rw positive at s.found in
      let to_c : get_or t.node.next 0 0 ≡ c = rw node at w.next in
      elim (Bool-cases (eqb_ℤ k w.node.key)) [
        | inl hit ↦ elim (Option-cases g.level) [
          | inl none_found ↦ absurd (
              ground (
                arith,
                found,
                hit-lookup sl max k xs v below rounds enough 0 p c v.some_level w hit,
              ))
          | inr (l, at_l) ↦
              rw
                (
                  ran,
                  at_l,
                  first,
                  load-some sl.cell p t.node t.nonzero t.there,
                  t.reads,
                  to_c,
                  w.there,
                  w.reads,
                  hit,
                )
                refl
        ]
        | inr miss ↦
            let gone : lookup k (chain_at sl (xs 0)) ≡ none = rw (w.reads, miss) refl in
            elim (Option-cases g.level) [
              | inl none_found ↦ rw (ran, none_found, gone) refl
              | inr (l, at_l) ↦ absurd (ground (arith, rw (at_l, gone) at found))
            ]
      ]

  -- In a well-formed list, `find` of a key below that of the end returns, for rounds that are more
  -- than the nodes of any level, the value of the key, or 0 when the list has no such key.
  pub find-chain_at :
      find rounds sl k ≡ ok (elim (lookup k (chain_at sl (xs 0))) [ none ↦ pos 0 | some x ↦ x ])
  unfolding find
  find-chain_at = let (g, ran, s) = search-Searched in find-after g ran s
