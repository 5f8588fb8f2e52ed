-- ===== src/CasQueue/Links/Append.antt =====
-- queue/CASLockFreeQueue.c: the write of `enq` that links a node behind the last one.
use algorithm_collection.Common.{
  ℕ, suc, ◌-◌, ◌≤◌, ◌<◌, ◌≡◌, ◌≢◌, List, [], ◌∷◌, ◌++◌, arith, ℤ, ◌==◌, if◌then◌else◌, ok, ap, ap₂,
  sym, ◌∙◌,
}
use native.Mathlib.Decide.{dec_lt, dec_le}
use mathlib.Core.Path.{subst}
use algorithm_collection.CasQueue.{Pointer, Node, Memory, update, create_node, load}
use algorithm_collection.CasQueue.Links.{
  Order, node_of, Linked, Grows, items, contents, items_congr, items-suc,
}
use algorithm_collection.CasQueue.Links.Writes.{
  load-update_ne, node_of-update_ne, load-update_self, node_of-update_self, load-node_of,
}

-- A new node goes behind the last one.
module _ (g : Order) (m : Memory) (l : Linked g m) (p : Pointer) (val : ℤ)
    (there : load m.cell p.ptr ≡ ok (create_node val))
    (apart : (i : ℕ) → i ≤ g.last → g.at i ≢ p.ptr) where
  abbrev pub linked_order : Order
  linked_order = record g { at = λ i. if i == suc g.last then p.ptr else g.at i; last = suc g.last }

  abbrev pub linked : Memory
  linked = record m {
    cell = update m.cell (g.at g.last) (record (node_of m.cell (g.at g.last)) { next = p });
  }

  pub old_at : (i : ℕ) → i ≤ g.last → linked_order.at i ≡ g.at i
  old_at i h = ground arith

  pub new_at : linked_order.at (suc g.last) ≡ p.ptr
  new_at = ground arith

  new_nonzero : p.ptr ≢ 0
  unfolding load
  new_nonzero e = ground arith

  other_node : (b : ℕ) → b ≢ g.at g.last → node_of linked.cell b ≡ node_of m.cell b
  other_node b h = node_of-update_ne m.cell (g.at g.last) b _ h

  last_node : node_of linked.cell (g.at g.last) ≡ record (node_of m.cell (g.at g.last)) { next = p }
  last_node = node_of-update_self m.cell (g.at g.last) _

  inner-ne : (i : ℕ) → i < g.last → g.at i ≢ g.at g.last
  inner-ne i h e = omega (arith, l.distinct i g.last (omega arith) (omega arith) e)

  loads_old : (i : ℕ) → i ≤ g.last → load linked.cell (g.at i) ≡ ok (node_of linked.cell (g.at i))
  loads_old i h = elim (dec_lt i g.last) [
    | yes below ↦
        rw
          (
            load-update_ne m.cell (g.at g.last) (g.at i) _ (inner-ne i below),
            other_node (g.at i) (inner-ne i below),
          )
          (l.loads i h)
    | no top ↦
        let e : i ≡ g.last = omega arith in
        subst (λ (k : ℕ). load linked.cell (g.at k) ≡ ok (node_of linked.cell (g.at k))) (sym e)
          (load-update_self m.cell (g.at g.last) _ (l.nonzero g.last (omega arith))
            ∙ ap ok (sym last_node))
  ]

  new_load : load linked.cell p.ptr ≡ ok (create_node val)
  new_load =
      load-update_ne m.cell (g.at g.last) p.ptr _ (λ e. apart g.last (omega arith) (sym e)) ∙ there

  new_node : node_of linked.cell p.ptr ≡ create_node val
  new_node = load-node_of linked.cell p.ptr _ new_load

  loads_all :
      (i : ℕ)
      → i ≤ suc g.last
      → load linked.cell (linked_order.at i) ≡ ok (node_of linked.cell (linked_order.at i))
  loads_all i h = elim (dec_le i g.last) [
    | yes old ↦ rw (old_at i old) (loads_old i old)
    | no top ↦
        let e : i ≡ suc g.last = omega arith in
        subst
          (λ (k : ℕ).
            load linked.cell (linked_order.at k) ≡ ok (node_of linked.cell (linked_order.at k)))
          (sym e) (rw (new_at, new_node) new_load)
  ]

  nexts_all :
      (i : ℕ)
      → i < suc g.last
      → (node_of linked.cell (linked_order.at i)).next.ptr ≡ linked_order.at (suc i)
  nexts_all i h = elim (dec_lt i g.last) [
    | yes below ↦
        rw (old_at i (omega arith), old_at (suc i) below, other_node (g.at i) (inner-ne i below))
          (l.nexts i below)
    | no top ↦
        let e : i ≡ g.last = omega arith in
        subst
          (λ (k : ℕ). (node_of linked.cell (linked_order.at k)).next.ptr ≡ linked_order.at (suc k))
          (sym e) (rw (old_at g.last (omega arith), new_at, last_node))
  ]

  distinct_all :
      (i j : ℕ) → i ≤ suc g.last → j ≤ suc g.last → linked_order.at i ≡ linked_order.at j → i ≡ j
  distinct_all i j hi hj e = ground (arith, l.distinct i j, apart i, apart j)

  pub link-Linked : Linked linked_order linked
  link-Linked = record {
    head_there =
        l.head_there ∙ sym (old_at g.head_at (omega (arith, l.head-le-tail, l.tail-le-last)));
    tail_there = l.tail_there ∙ sym (old_at g.tail_at l.tail-le-last);
    head-le-tail = l.head-le-tail;
    tail-le-last = omega (arith, l.tail-le-last);
    nonzero = λ i h. ground (arith, l.nonzero i, new_nonzero);
    loads = loads_all;
    nexts = nexts_all;
    final = rw (new_at, new_node);
    distinct = distinct_all;
  }

  vals_old :
      (i : ℕ) → i ≤ g.last → (node_of linked.cell (g.at i)).val ≡ (node_of m.cell (g.at i)).val
  vals_old i h = elim (dec_lt i g.last) [
    | yes below ↦ rw (other_node (g.at i) (inner-ne i below))
    | no top ↦
        let e : i ≡ g.last = omega arith in
        subst (λ (k : ℕ). (node_of linked.cell (g.at k)).val ≡ (node_of m.cell (g.at k)).val)
          (sym e) (rw last_node)
  ]

  pub link-Grows : Grows g m linked_order linked
  link-Grows = record {
    head_on = omega arith;
    tail_on = omega arith;
    last_on = omega arith;
    same = old_at;
    vals = vals_old;
  }

  -- What other threads have not linked yet stays theirs.
  pub link_apart :
      (other : ℕ) (n : Node)
      → other ≢ p.ptr
      → load m.cell other ≡ ok n
      → ((i : ℕ) → i ≤ g.last → g.at i ≢ other)
      → (load linked.cell other ≡ ok n) × ((i : ℕ) → i ≤ suc g.last → linked_order.at i ≢ other)
  link_apart other n h loaded far = (
    load-update_ne m.cell (g.at g.last) other _ (λ e. far g.last (omega arith) (sym e)) ∙ loaded,
    λ i q e. ground (arith, far i),
  )

  -- The new item is the last one.
  pub contents-link : contents linked_order linked ≡ contents g m ++ val ∷ []
  contents-link =
      let f : ℕ → ℤ = λ i. (node_of linked.cell (linked_order.at i)).val in
      let h : g.head_at ≤ g.last = omega (arith, l.head-le-tail, l.tail-le-last) in
      let count : suc g.last - g.head_at ≡ suc (g.last - g.head_at) = omega arith in
      ap (items f (suc g.head_at)) count
      ∙ items-suc f (suc g.head_at) (g.last - g.head_at) (suc g.last) (omega arith)
      ∙ ap₂ (λ (xs : List ℤ) (x : ℤ). xs ++ x ∷ [])
          (items_congr f _ (suc g.head_at) (g.last - g.head_at) (λ j p' q.
            ap (λ (b : ℕ). (node_of linked.cell b).val) (old_at j (omega arith))
            ∙ vals_old j (omega arith)))
          (ap (λ (b : ℕ). (node_of linked.cell b).val) new_at ∙ ap (λ (n : Node). n.val) new_node)
