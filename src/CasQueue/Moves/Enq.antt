-- ===== src/CasQueue/Moves/Enq.antt =====
-- queue/CASLockFreeQueue.c: every step of `enq` keeps the order of the nodes, has the effect that
-- its event names, and reads no pointer that leads nowhere.
use algorithm_collection.Common.{
  ℕ, ◌≤◌, ◌≡◌, ◌≢◌, arith, ℤ, ok, refl, inl, inr, none, ◌∙◌, ap, ap₂, sym, ◌==◌, Bool-cases,
  Returns, Run,
}
use algorithm_collection.CasQueue.{Pointer, Node, Memory, create_node, load, matches, bump, update}
use algorithm_collection.CasQueue.Threads.{
  EnqState, idle, in_enq, silent, enqueued, Outcome, enq_step,
}
use algorithm_collection.CasQueue.System.{IsAvailable}
use algorithm_collection.CasQueue.Links.{Order, node_of, Linked, next_null-last}
use algorithm_collection.CasQueue.Links.Writes
use algorithm_collection.CasQueue.Links.Append
use algorithm_collection.CasQueue.Facts.{Private, Owns, Place, Progress, stay}
use algorithm_collection.CasQueue.Moves.{outcome, matches-ptr, load_at, next_at, swing_tail, swung}

module _ (g : Order) (m : Memory) (l : Linked g m) where
  create-Progress :
      (address : ℕ) (val : ℤ)
      → IsAvailable m address
      → Returns
          (enq_step address m (EnqState.create val))
          (Progress g m (in_enq (EnqState.create val)))
  unfolding enq_step
  create-Progress address val free = elim (Bool-cases (address == 0)) [
    | inl null ↦ (outcome m idle silent, rw null, stay g m l _ idle silent tt tt (inl refl) refl)
    | inr there ↦
        let nonzero : address ≢ 0 = λ e. ground arith in
        let unused : m.cell address ≡ none = ground arith in
        let n : Node = create_node val in
        (
          outcome (Writes.allocated g m l address n unused)
              (in_enq (EnqState.load_tail val address)) silent,
          rw there,
          record {
            order = g;
            linked = Writes.allocate-Linked g m l address n unused;
            grows = Writes.allocate-Grows g m l address n unused;
            place = tt;
            owns = (
              Writes.load-update_self m.cell address n nonzero,
              Writes.at-ne g m l address n unused,
            );
            others = λ v new h priv. (
              Writes.load-update_unused m.cell address new n unused (create_node v) priv.0,
              priv.1,
            );
            claim = inr (inr unused);
            effect = Writes.contents-allocate g m l address n unused;
          },
        )
  ]

  -- The `cas` on the `next` of the last node: the item is in the queue from here on.
  link-Progress :
      (address : ℕ) (val : ℤ) (new : ℕ) (tail next : Pointer) (k : ℕ)
      → k ≤ g.tail_at
      → tail.ptr ≡ g.at k
      → next.ptr ≡ 0
      → Private g m val new
      → Returns
          (enq_step address m (EnqState.link val new tail next))
          (Progress g m (in_enq (EnqState.link val new tail next)))
  unfolding enq_step
  link-Progress address val new tail next k a b c priv =
      let n : Node = node_of m.cell (g.at k) in
      let inside : k ≤ g.last = omega (arith, l.tail-le-last) in
      let loaded : load m.cell tail.ptr ≡ ok n = load_at g m l k tail.ptr inside b in
      elim (Bool-cases (matches n.next next)) [
        | inr lost ↦ (
          outcome m (in_enq (EnqState.load_tail val new)) silent,
          rw (loaded, lost),
          stay g m l _ (in_enq (EnqState.load_tail val new)) silent tt priv (inr (inl refl)) refl,
        )
        | inl won ↦
            let top : k ≡ g.last =
              next_null-last g m k l inside (matches-ptr n.next next won ∙ c) in
            let p : Pointer = bump next new in
            let at_tail : tail.ptr ≡ g.at g.last = b ∙ ap g.at top in
            let mem : Memory = Append.linked g m l p val priv.0 priv.1 in
            let stored : ℕ → Node → Run Outcome = λ a n'. ok (
              outcome (record m { cell = update m.cell a (record n' { next = p }) })
                (in_enq (EnqState.swing val new tail)) (enqueued val)) in
            let ran : enq_step address m (EnqState.link val new tail next) ≡ stored tail.ptr n =
              rw (loaded, won) in
            let stepped : enq_step address m (EnqState.link val new tail next)
                ≡ ok (outcome mem (in_enq (EnqState.swing val new tail)) (enqueued val)) =
              ran ∙ ap₂ stored at_tail (ap (λ (j : ℕ). node_of m.cell (g.at j)) top) in
            (
              outcome mem (in_enq (EnqState.swing val new tail)) (enqueued val),
              stepped,
              record {
                order = Append.linked_order g m l p val priv.0 priv.1;
                linked = Append.link-Linked g m l p val priv.0 priv.1;
                grows = Append.link-Grows g m l p val priv.0 priv.1;
                place = (
                  g.last,
                  omega arith,
                  at_tail ∙ sym (Append.old_at g m l p val priv.0 priv.1 g.last (omega arith)),
                  omega arith,
                  sym (Append.new_at g m l p val priv.0 priv.1),
                );
                owns = tt;
                others = λ v other h pr.
                    Append.link_apart g m l p val priv.0 priv.1 other (create_node v) h pr.0 pr.1;
                claim = inl refl;
                effect = Append.contents-link g m l p val priv.0 priv.1;
              },
            )
      ]

  pub enq_step-Progress :
      (address : ℕ) (st : EnqState)
      → IsAvailable m address
      → Place g m (in_enq st)
      → Owns g m (in_enq st)
      → Returns (enq_step address m st) (Progress g m (in_enq st))
  unfolding enq_step
  enq_step-Progress address (EnqState.create val) free p o = create-Progress address val free
  enq_step-Progress address (EnqState.load_tail val new) free p o = (
    outcome m (in_enq (EnqState.load_next val new m.tail)) silent,
    refl,
    stay g m l _ (in_enq (EnqState.load_next val new m.tail)) silent
        (g.tail_at, omega arith, l.tail_there) o (inr (inl refl)) refl,
  )
  enq_step-Progress address (EnqState.load_next val new tail) free (k, a, b) o =
      let inside : k ≤ g.last = omega (arith, l.tail-le-last) in
      let next : Pointer = (node_of m.cell (g.at k)).next in
      (
        outcome m (in_enq (EnqState.check val new tail next)) silent,
        rw (load_at g m l k tail.ptr inside b),
        stay g m l _ (in_enq (EnqState.check val new tail next)) silent
            (k, a, b, elim (next_at g m l k inside) [ inl e ↦ inl e.0 | inr e ↦ inr e ]) o
            (inr (inl refl)) refl,
      )
  enq_step-Progress address (EnqState.check val new tail next) free (k, a, b, c) o =
      elim (Bool-cases (matches m.tail tail)) [
        | inr moved ↦ (
          outcome m (in_enq (EnqState.load_tail val new)) silent,
          rw moved,
          stay g m l _ (in_enq (EnqState.load_tail val new)) silent tt o (inr (inl refl)) refl,
        )
        | inl same ↦ elim (Bool-cases (next.ptr == 0)) [
          | inl null ↦ (
            outcome m (in_enq (EnqState.link val new tail next)) silent,
            rw (same, null),
            stay g m l _ (in_enq (EnqState.link val new tail next)) silent (k, a, b, ground arith) o
                (inr (inl refl)) refl,
          )
          | inr there ↦ (
            outcome m (in_enq (EnqState.help val new tail next)) silent,
            rw (same, there),
            stay g m l _ (in_enq (EnqState.help val new tail next)) silent
                (k, a, b, ground arith, ground arith) o (inr (inl refl)) refl,
          )
        ]
      ]
  enq_step-Progress address (EnqState.link val new tail next) free (k, a, b, c) o =
      link-Progress address val new tail next k a b c o
  enq_step-Progress address (EnqState.help val new tail next) free (k, a, b, c, d) o = (
    outcome
        (swung g m l (in_enq (EnqState.help val new tail next))
          (in_enq (EnqState.load_tail val new)) tail (bump tail next.ptr) k)
        (in_enq (EnqState.load_tail val new)) silent,
    refl,
    swing_tail g m l _ (in_enq (EnqState.load_tail val new)) tail (bump tail next.ptr) k a b c d
        (inr refl) tt o tt o,
  )
  enq_step-Progress address (EnqState.swing val new tail) free (k, a, b, c, d) o = (
    outcome (swung g m l (in_enq (EnqState.swing val new tail)) idle tail (bump tail new) k) idle
        silent,
    refl,
    swing_tail g m l _ idle tail (bump tail new) k a b c d (inl refl) tt tt tt tt,
  )
