-- ===== src/CasQueue/Facts.antt =====
-- queue/CASLockFreeQueue.c: what the local variables of a thread say about the linked nodes, and
-- what one step of it has to establish.
use algorithm_collection.Common.{
  ℕ, suc, ◌≤◌, ◌<◌, ◌≡◌, ◌≢◌, ◌⊎◌, List, [], ◌∷◌, ◌++◌, arith, ℤ, ok, refl, none, ◌∙◌, ap, sym,
}
use algorithm_collection.CasQueue.{Memory, create_node, load}
use algorithm_collection.CasQueue.Threads.{
  EnqState, DeqState, Thread, idle, in_enq, in_deq, Event, silent, enqueued, dequeued, saw_empty,
  answer_false, Outcome,
}
use algorithm_collection.CasQueue.Links.{Order, node_of, Linked, Grows, contents}

-- A node that only its thread knows: still as `create_node` made it, and not linked.
abbrev pub Private : Order → Memory → ℤ → ℕ → Type 0
Private g m val new =
    (load m.cell new ≡ ok (create_node val)) × ((i : ℕ) → i ≤ g.last → g.at i ≢ new)

-- The address of that node, in the states that have one.
abbrev pub owned : Thread → ℕ
owned (in_enq (EnqState.load_tail val new)) = new
owned (in_enq (EnqState.load_next val new tail)) = new
owned (in_enq (EnqState.check val new tail next)) = new
owned (in_enq (EnqState.link val new tail next)) = new
owned (in_enq (EnqState.help val new tail next)) = new
owned _ = 0

abbrev pub Owns : Order → Memory → Thread → Type 0
Owns g m (in_enq (EnqState.load_tail val new)) = Private g m val new
Owns g m (in_enq (EnqState.load_next val new tail)) = Private g m val new
Owns g m (in_enq (EnqState.check val new tail next)) = Private g m val new
Owns g m (in_enq (EnqState.link val new tail next)) = Private g m val new
Owns g m (in_enq (EnqState.help val new tail next)) = Private g m val new
Owns g m _ = Unit

-- Where the pointers that a thread has read stand in the order: `k` is the number of the node at
-- the local `tail` of `enq`, or at the local `head` of `deq`, and `j` that at its `tail`.
abbrev pub Place : Order → Memory → Thread → Type 0
Place g m (in_enq (EnqState.load_next val new tail)) =
    (k : ℕ) × (k ≤ g.tail_at) × (tail.ptr ≡ g.at k)
Place g m (in_enq (EnqState.check val new tail next)) =
    (k : ℕ) × (k ≤ g.tail_at)
    × (tail.ptr ≡ g.at k)
    × ((next.ptr ≡ 0) ⊎ ((k < g.last) × (next.ptr ≡ g.at (suc k))))
Place g m (in_enq (EnqState.link val new tail next)) =
    (k : ℕ) × (k ≤ g.tail_at) × (tail.ptr ≡ g.at k) × (next.ptr ≡ 0)
Place g m (in_enq (EnqState.help val new tail next)) =
    (k : ℕ) × (k ≤ g.tail_at) × (tail.ptr ≡ g.at k) × (k < g.last) × (next.ptr ≡ g.at (suc k))
Place g m (in_enq (EnqState.swing val new tail)) =
    (k : ℕ) × (k ≤ g.tail_at) × (tail.ptr ≡ g.at k) × (k < g.last) × (new ≡ g.at (suc k))
Place g m (in_deq (DeqState.load_tail head)) = (k : ℕ) × (k ≤ g.head_at) × (head.ptr ≡ g.at k)
Place g m (in_deq (DeqState.load_next head tail)) =
    (k j : ℕ) × (k ≤ g.head_at)
    × (head.ptr ≡ g.at k)
    × (k ≤ j)
    × (j ≤ g.tail_at)
    × (tail.ptr ≡ g.at j)
Place g m (in_deq (DeqState.check head tail next)) =
    (k j : ℕ) × (k ≤ g.head_at)
    × (head.ptr ≡ g.at k)
    × (k ≤ j)
    × (j ≤ g.tail_at)
    × (tail.ptr ≡ g.at j)
    × (((next.ptr ≡ 0) × (j ≡ k)) ⊎ ((k < g.last) × (next.ptr ≡ g.at (suc k))))
Place g m (in_deq (DeqState.help head tail next)) =
    (k : ℕ) × (k ≤ g.head_at)
    × (head.ptr ≡ g.at k)
    × (tail.ptr ≡ g.at k)
    × (k < g.last)
    × (next.ptr ≡ g.at (suc k))
Place g m (in_deq (DeqState.load_val head next)) =
    (k : ℕ) × (k ≤ g.head_at) × (head.ptr ≡ g.at k) × (k < g.tail_at) × (next.ptr ≡ g.at (suc k))
Place g m (in_deq (DeqState.swing head next val)) =
    (k : ℕ) × (k ≤ g.head_at)
    × (head.ptr ≡ g.at k)
    × (k < g.tail_at)
    × (next.ptr ≡ g.at (suc k))
    × (val ≡ (node_of m.cell (g.at (suc k))).val)
Place g m _ = Unit

-- The effect of an event on the items, as a first-in first-out queue has it.
abbrev pub Effect : Event → List ℤ → List ℤ → Type 0
Effect silent q q' = q' ≡ q
Effect (enqueued val) q q' = q' ≡ q ++ val ∷ []
Effect (dequeued val) q q' = q ≡ val ∷ q'
Effect saw_empty q q' = (q ≡ []) × (q' ≡ q)
Effect answer_false q q' = q' ≡ q

-- A step of a thread in state `th`.
pub record Progress (g : Order) (m : Memory) (th : Thread) (out : Outcome) : Type 0 where
  pub order : Order
  pub linked : Linked order out.mem
  pub grows : Grows g m order out.mem
  pub place : Place order out.mem out.thread
  pub owns : Owns order out.mem out.thread
  pub others :
      (val : ℤ) (new : ℕ) → new ≢ owned th → Private g m val new → Private order out.mem val new
  pub claim :
      (owned out.thread ≡ 0) ⊎ (owned out.thread ≡ owned th) ⊎ (m.cell (owned out.thread) ≡ none)
  pub effect : Effect out.event (contents g m) (contents order out.mem)

module _ (g : Order) (m : Memory) (l : Linked g m) where
  pub Grows-refl : Grows g m g m
  Grows-refl = record {
    head_on = omega arith;
    tail_on = omega arith;
    last_on = omega arith;
    same = λ i h. refl;
    vals = λ i h. refl;
  }

  -- A step that writes nothing.
  pub stay :
      (th th' : Thread) (e : Event)
      → Place g m th'
      → Owns g m th'
      → (owned th' ≡ 0) ⊎ (owned th' ≡ owned th) ⊎ (m.cell (owned th') ≡ none)
      → Effect e (contents g m) (contents g m)
      → Progress g m th (record { mem = m; thread = th'; event = e })
  stay th th' e p o c f = record {
    order = g;
    linked = l;
    grows = Grows-refl;
    place = p;
    owns = o;
    others = λ val new h priv. priv;
    claim = c;
    effect = f;
  }

  -- What a thread knows stays true while the order grows.
  pub Place-Grows :
      (g' : Order) (m' : Memory) → Grows g m g' m' → (th : Thread) → Place g m th → Place g' m' th
  Place-Grows g' m' w idle p = tt
  Place-Grows g' m' w (in_enq (EnqState.create val)) p = tt
  Place-Grows g' m' w (in_enq (EnqState.load_tail val new)) p = tt
  Place-Grows g' m' w (in_enq (EnqState.load_next val new tail)) (k, a, b) =
      (k, ground (arith, w.tail_on), ground (arith, l.tail-le-last, w.same k))
  Place-Grows g' m' w (in_enq (EnqState.check val new tail next)) (k, a, b, c) = (
    k,
    ground (arith, w.tail_on),
    ground (arith, l.tail-le-last, w.same k),
    ground (arith, w.last_on, w.same (suc k)),
  )
  Place-Grows g' m' w (in_enq (EnqState.link val new tail next)) (k, a, b, c) =
      (k, ground (arith, w.tail_on), ground (arith, l.tail-le-last, w.same k), c)
  Place-Grows g' m' w (in_enq (EnqState.help val new tail next)) (k, a, b, c, d) = (
    k,
    ground (arith, w.tail_on),
    ground (arith, l.tail-le-last, w.same k),
    ground (arith, w.last_on),
    ground (arith, w.same (suc k)),
  )
  Place-Grows g' m' w (in_enq (EnqState.swing val new tail)) (k, a, b, c, d) = (
    k,
    ground (arith, w.tail_on),
    ground (arith, l.tail-le-last, w.same k),
    ground (arith, w.last_on),
    ground (arith, w.same (suc k)),
  )
  Place-Grows g' m' w (in_deq DeqState.load_head) p = tt
  Place-Grows g' m' w (in_deq (DeqState.load_tail head)) (k, a, b) =
      (k, ground (arith, w.head_on), ground (arith, l.head-le-tail, l.tail-le-last, w.same k))
  Place-Grows g' m' w (in_deq (DeqState.load_next head tail)) (k, j, a, b, c, d, e) = (
    k,
    j,
    ground (arith, w.head_on),
    ground (arith, l.head-le-tail, l.tail-le-last, w.same k),
    c,
    ground (arith, w.tail_on),
    ground (arith, l.tail-le-last, w.same j),
  )
  Place-Grows g' m' w (in_deq (DeqState.check head tail next)) (k, j, a, b, c, d, e, f) = (
    k,
    j,
    ground (arith, w.head_on),
    ground (arith, l.head-le-tail, l.tail-le-last, w.same k),
    c,
    ground (arith, w.tail_on),
    ground (arith, l.tail-le-last, w.same j),
    ground (arith, w.last_on, w.same (suc k)),
  )
  Place-Grows g' m' w (in_deq (DeqState.help head tail next)) (k, a, b, c, d, e) = (
    k,
    ground (arith, w.head_on),
    ground (arith, w.same k),
    ground (arith, w.same k),
    ground (arith, w.last_on),
    ground (arith, w.same (suc k)),
  )
  Place-Grows g' m' w (in_deq (DeqState.load_val head next)) (k, a, b, c, d) = (
    k,
    ground (arith, w.head_on),
    ground (arith, l.tail-le-last, w.same k),
    ground (arith, w.tail_on),
    ground (arith, l.tail-le-last, w.same (suc k)),
  )
  Place-Grows g' m' w (in_deq (DeqState.swing head next val)) (k, a, b, c, d, e) =
      let inside : suc k ≤ g.last = omega (arith, l.tail-le-last) in
      (
        k,
        ground (arith, w.head_on),
        ground (arith, w.same k),
        ground (arith, w.tail_on),
        ground (arith, w.same (suc k)),
        e
            ∙ sym (w.vals (suc k) inside)
            ∙ ap (λ (b' : ℕ). (node_of m'.cell b').val) (sym (w.same (suc k) inside)),
      )
