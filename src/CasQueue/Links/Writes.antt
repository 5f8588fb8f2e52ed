-- ===== src/CasQueue/Links/Writes.antt =====
-- queue/CASLockFreeQueue.c: what an allocation and the three successful `cas` calls do to the nodes.
use algorithm_collection.Common.{
  ℕ, suc, ◌-◌, ◌≤◌, ◌<◌, ◌≡◌, ◌≢◌, refl, Option, none, some, ◌∷◌, arith, ok, ap,
}
use algorithm_collection.CasQueue.{Pointer, Node, Memory, update, load}
use algorithm_collection.CasQueue.Links.{
  Order, node_or, node_of, Linked, Grows, items, contents, items_congr,
}

module _ (cell : ℕ → Option Node) (a b : ℕ) (n : Node) where
  update_ne : b ≢ a → update cell a n b ≡ cell b
  update_ne h = ground arith

  pub load-update_ne : b ≢ a → load (update cell a n) b ≡ load cell b
  unfolding load
  load-update_ne h = ground arith

  pub node_of-update_ne : b ≢ a → node_of (update cell a n) b ≡ node_of cell b
  node_of-update_ne h = ap node_or (update_ne h)

-- What can be loaded is not an address that was not in use.
pub load-update_unused :
    (cell : ℕ → Option Node) (a b : ℕ) (n : Node)
    → cell a ≡ none
    → (o : Node) → load cell b ≡ ok o
    → load (update cell a n) b ≡ ok o
unfolding load
load-update_unused cell a b n unused o h = ground arith

module _ (cell : ℕ → Option Node) (a : ℕ) (n : Node) where
  update_self : update cell a n a ≡ some n
  update_self = ground arith

  pub load-update_self : a ≢ 0 → load (update cell a n) a ≡ ok n
  unfolding load
  load-update_self h = ground arith

  pub node_of-update_self : node_of (update cell a n) a ≡ n
  node_of-update_self = ap node_or update_self

pub load-node_of :
    (cell : ℕ → Option Node) (a : ℕ) (n : Node) → load cell a ≡ ok n → node_of cell a ≡ n
unfolding load
load-node_of cell a n h = ground arith

-- `tail` moves on to the node number `j`.
module _ (g : Order) (m : Memory) (l : Linked g m) (p : Pointer) (j : ℕ)
    (there : p.ptr ≡ g.at j) where
  abbrev pub tail_to : Order
  tail_to = record g { tail_at = j }

  pub write_tail-Linked : g.tail_at ≤ j → j ≤ g.last → Linked tail_to (record m { tail = p })
  write_tail-Linked on in_range = record {
    head_there = l.head_there;
    tail_there = there;
    head-le-tail = omega (arith, l.head-le-tail);
    tail-le-last = in_range;
    nonzero = l.nonzero;
    loads = l.loads;
    nexts = l.nexts;
    final = l.final;
    distinct = l.distinct;
  }

  pub write_tail-Grows : g.tail_at ≤ j → Grows g m tail_to (record m { tail = p })
  write_tail-Grows on = record {
    head_on = omega arith;
    tail_on = on;
    last_on = omega arith;
    same = λ i h. refl;
    vals = λ i h. refl;
  }

-- `head` moves on by one node.
module _ (g : Order) (m : Memory) (l : Linked g m) (p : Pointer)
    (there : p.ptr ≡ g.at (suc g.head_at)) (room : g.head_at < g.tail_at) where
  abbrev pub head_on : Order
  head_on = record g { head_at = suc g.head_at }

  pub write_head-Linked : Linked head_on (record m { head = p })
  write_head-Linked = record {
    head_there = there;
    tail_there = l.tail_there;
    head-le-tail = room;
    tail-le-last = l.tail-le-last;
    nonzero = l.nonzero;
    loads = l.loads;
    nexts = l.nexts;
    final = l.final;
    distinct = l.distinct;
  }

  pub write_head-Grows : Grows g m head_on (record m { head = p })
  write_head-Grows = record {
    head_on = omega arith;
    tail_on = omega arith;
    last_on = omega arith;
    same = λ i h. refl;
    vals = λ i h. refl;
  }

  -- The first item goes.
  pub contents-write_head :
      contents g m
      ≡ (node_of m.cell (g.at (suc g.head_at))).val ∷ contents head_on (record m { head = p })
  unfolding items
  contents-write_head =
      let count : g.last - g.head_at ≡ suc (g.last - suc g.head_at) =
        omega (arith, l.tail-le-last) in
      rw count

-- A node at an address that was not in use.
module _ (g : Order) (m : Memory) (l : Linked g m) (a : ℕ) (n : Node)
    (unused : m.cell a ≡ none) where
  abbrev pub allocated : Memory
  allocated = record m { cell = update m.cell a n }

  pub at-ne : (i : ℕ) → i ≤ g.last → g.at i ≢ a
  unfolding load
  at-ne i h e = ground (arith, l.loads i h, l.nonzero i h)

  pub allocate-Linked : Linked g allocated
  allocate-Linked = record {
    head_there = l.head_there;
    tail_there = l.tail_there;
    head-le-tail = l.head-le-tail;
    tail-le-last = l.tail-le-last;
    nonzero = l.nonzero;
    loads = λ i h.
        rw
          (
            load-update_ne m.cell a (g.at i) n (at-ne i h),
            node_of-update_ne m.cell a (g.at i) n (at-ne i h),
          )
          (l.loads i h);
    nexts = λ i h. rw (node_of-update_ne m.cell a (g.at i) n (at-ne i (omega arith))) (l.nexts i h);
    final = rw (node_of-update_ne m.cell a (g.at g.last) n (at-ne g.last (omega arith))) l.final;
    distinct = l.distinct;
  }

  pub allocate-Grows : Grows g m g allocated
  allocate-Grows = record {
    head_on = omega arith;
    tail_on = omega arith;
    last_on = omega arith;
    same = λ i h. refl;
    vals = λ i h. rw (node_of-update_ne m.cell a (g.at i) n (at-ne i h));
  }

  pub contents-allocate : contents g allocated ≡ contents g m
  contents-allocate =
      items_congr _ _ (suc g.head_at) (g.last - g.head_at)
        (λ j p q. allocate-Grows.vals j (omega arith))
