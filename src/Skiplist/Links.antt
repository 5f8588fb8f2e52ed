-- ===== src/Skiplist/Links.antt =====
-- list/Skiplist.c: one write to a `next` pointer, seen at every level.
use algorithm_collection.Common.{
  ℕ, zero, suc, ◌≡◌, ◌≢◌, refl, some, List, [], ◌∷◌, arith, get_or, set, ok, sym, ◌∙◌, ap, subst,
  eqb_refl, Returns,
}
use native.Mathlib.Decide.{ℕ_discrete}
use algorithm_collection.FineList.Paths.{node_of}
use algorithm_collection.Skiplist.{Node, Cells, entry, link, update}
use algorithm_collection.Skiplist.Levels.{at_level, one_level, IsTall, load-some}

get_or-set-ne : (xs : List ℕ) (i j q : ℕ) → i ≢ j → get_or (set xs j q) i 0 ≡ get_or xs i 0
get_or-set-ne [] i j q ne = refl
get_or-set-ne (x ∷ xs) zero zero q ne = absurd (ne refl)
get_or-set-ne (x ∷ xs) zero (suc j) q ne = refl
get_or-set-ne (x ∷ xs) (suc i) zero q ne = refl
get_or-set-ne (x ∷ xs) (suc i) (suc j) q ne = get_or-set-ne xs i j q (λ e. ne (ap suc e))

get_or-set : (xs : List ℕ) (i q : ℕ) → entry xs i ≡ ok (get_or xs i 0) → get_or (set xs i q) i 0 ≡ q
unfolding entry
get_or-set [] i q h = absurd (cc h)
get_or-set (x ∷ xs) zero q h = refl
get_or-set (x ∷ xs) (suc i) q h = get_or-set xs i q h

entry-set :
    (xs : List ℕ) (i j q : ℕ)
    → entry xs i ≡ ok (get_or xs i 0)
    → entry (set xs j q) i ≡ ok (get_or (set xs j q) i 0)
unfolding entry
entry-set [] i j q h = h
entry-set (x ∷ xs) zero zero q h = refl
entry-set (x ∷ xs) zero (suc j) q h = refl
entry-set (x ∷ xs) (suc i) zero q h = h
entry-set (x ∷ xs) (suc i) (suc j) q h = entry-set xs i j q h

-- What the write `p->next[level] = q` leaves.
pub record Linked (cell : Cells) (p level q : ℕ) (cell' : Cells) : Type 0 where
  pub others : (b : ℕ) → b ≢ p → cell' b ≡ cell b
  pub levels : (at b : ℕ) → at ≢ level → at_level cell' at b ≡ at_level cell at b
  pub here :
      ((node_of (at_level cell' level) p).next ≡ q)
      × ((node_of (at_level cell' level) p).key ≡ (node_of (at_level cell level) p).key)
      × ((node_of (at_level cell' level) p).val ≡ (node_of (at_level cell level) p).val)
  pub tall : (at b : ℕ) → IsTall cell at b → IsTall cell' at b

tall_reads :
    (cell : Cells) (level a : ℕ) (n : Node)
    → cell a ≡ some n
    → IsTall cell level a
    → entry n.next level ≡ ok (get_or n.next level 0)
tall_reads cell level a n there t =
    let same : t.node ≡ n = cc (sym t.there ∙ there) in
    subst (λ (m : Node). entry m.next level ≡ ok (get_or m.next level 0)) same t.reads

pub link-Linked :
    (cell : Cells) (p level q : ℕ)
    → IsTall cell level p
    → Returns (link cell p level q) (Linked cell p level q)
unfolding link
link-Linked cell p level q t =
    let n' : Node = record t.node { next = set t.node.next level q } in
    let cell' : Cells = update cell p n' in
    let at_p : cell' p ≡ some n' = rw (eqb_refl p) refl in
    let others : (b : ℕ) → b ≢ p → cell' b ≡ cell b = λ b e. ground arith in
    (
      cell',
      rw (load-some cell p t.node t.nonzero t.there, t.reads) refl,
      record {
        others = others;
        levels = λ at b e. elim (ℕ_discrete b p) [
          | yes same ↦ rw same (
              rw (at_p, t.there)
                (ap (λ (x : ℕ). some (record { key = t.node.key; val = t.node.val; next = x }))
                  (get_or-set-ne t.node.next at level q e)))
          | no other ↦ ap (one_level at) (others b other)
        ];
        here = rw (at_p, t.there) (get_or-set t.node.next level q t.reads, refl, refl);
        tall = λ at b u. elim (ℕ_discrete b p) [
          | yes same ↦
              subst (λ (c : ℕ). IsTall cell' at c) (sym same)
                (record {
                  node = n';
                  there = at_p;
                  nonzero = t.nonzero;
                  reads = entry-set t.node.next at level q (
                      tall_reads cell at p t.node t.there
                        (subst (λ (c : ℕ). IsTall cell at c) same u));
                })
          | no other ↦ record {
            node = u.node;
            there = others b other ∙ u.there;
            nonzero = u.nonzero;
            reads = u.reads;
          }
        ];
      },
    )
