-- ===== src/CasQueue/Moves/Deq.antt =====
-- queue/CASLockFreeQueue.c: every step of `deq` keeps the order of the nodes, has the effect that
-- its event names, and reads no pointer that leads nowhere.
use algorithm_collection.Common.{
  ℕ, suc, ◌-◌, ◌≤◌, ◌<◌, ◌≡◌, ◌≢◌, ◌⊎◌, [], ◌∷◌, arith, ℤ, refl, inl, inr, true, false, ◌∙◌, ap,
  sym, ◌==◌, Bool-cases, Returns,
}
use algorithm_collection.CasQueue.{Pointer, Memory, matches, bump}
use algorithm_collection.CasQueue.Threads.{
  DeqState, Thread, idle, in_deq, silent, dequeued, saw_empty, answer_false, deq_step,
}
use algorithm_collection.CasQueue.Links.{Order, node_of, Linked, contents, items}
use algorithm_collection.CasQueue.Links.Writes
use algorithm_collection.CasQueue.Facts.{Place, Progress, stay}
use algorithm_collection.CasQueue.Moves.{outcome, matches-ptr, load_at, next_at, swing_tail, swung}

module _ (g : Order) (m : Memory) (l : Linked g m) where
  contents_at_end : g.head_at ≡ g.last → contents g m ≡ []
  unfolding items
  contents_at_end h =
      let none_left : g.last - g.head_at ≡ 0 = omega arith in
      ap (items (λ i. (node_of m.cell (g.at i)).val) (suc g.head_at)) none_left

  -- The read of `head.ptr->next`: if that is NULL, the queue has no item at this moment.
  load_next-Progress :
      (head tail : Pointer) (k j : ℕ)
      → k ≤ g.head_at
      → head.ptr ≡ g.at k
      → k ≤ j
      → j ≤ g.tail_at
      → tail.ptr ≡ g.at j
      → Returns
          (deq_step m (DeqState.load_next head tail))
          (Progress g m (in_deq (DeqState.load_next head tail)))
  unfolding deq_step
  load_next-Progress head tail k j a b c d e =
      let inside : k ≤ g.last = omega (arith, l.head-le-tail, l.tail-le-last) in
      let next : Pointer = (node_of m.cell (g.at k)).next in
      let th : Thread = in_deq (DeqState.check head tail next) in
      let loaded = load_at g m l k head.ptr inside b in
      elim (next_at g m l k inside) [
        | inl (null, top) ↦
            let is_null : (next.ptr == 0) ≡ true = ground arith in
            (
              outcome m th saw_empty,
              rw (loaded, is_null),
              stay g m l _ th saw_empty
                  (k, j, a, b, c, d, e, inl (null, omega (arith, l.tail-le-last))) tt (inl refl)
                  (contents_at_end (omega (arith, l.head-le-tail, l.tail-le-last)), refl),
            )
        | inr (below, there) ↦
            let not_null : (next.ptr == 0) ≡ false = ground (arith, l.nonzero (suc k)) in
            (
              outcome m th silent,
              rw (loaded, not_null),
              stay g m l _ th silent (k, j, a, b, c, d, e, inr (below, there)) tt (inl refl) refl,
            )
      ]

  check-Progress :
      (head tail next : Pointer) (k j : ℕ)
      → k ≤ g.head_at
      → head.ptr ≡ g.at k
      → k ≤ j
      → j ≤ g.tail_at
      → tail.ptr ≡ g.at j
      → ((next.ptr ≡ 0) × (j ≡ k)) ⊎ ((k < g.last) × (next.ptr ≡ g.at (suc k)))
      → Returns
          (deq_step m (DeqState.check head tail next))
          (Progress g m (in_deq (DeqState.check head tail next)))
  unfolding deq_step
  check-Progress head tail next k j a b c d e f =
      let help : Thread = in_deq (DeqState.help head tail next) in
      let read : Thread = in_deq (DeqState.load_val head next) in
      elim (Bool-cases (matches m.head head)) [
        | inr moved ↦ (
          outcome m (in_deq DeqState.load_head) silent,
          rw moved,
          stay g m l _ (in_deq DeqState.load_head) silent tt tt (inl refl) refl,
        )
        | inl same ↦ elim (Bool-cases (head.ptr == tail.ptr)) [
          | inl alone ↦ elim (Bool-cases (next.ptr == 0)) [
            | inl null ↦ (
              outcome m idle answer_false,
              rw (same, alone, null),
              stay g m l _ idle answer_false tt tt (inl refl) refl,
            )
            | inr there ↦ (
              outcome m help silent,
              rw (same, alone, there),
              stay g m l _ help silent (k, a, b, ground arith, ground arith, ground arith) tt
                  (inl refl) refl,
            )
          ]
          | inr apart ↦
              let before : j ≢ k = λ q. ground (arith, ap g.at q) in
              (
                outcome m read silent,
                rw (same, apart),
                stay g m l _ read silent (k, a, b, omega arith, ground arith) tt (inl refl) refl,
              )
        ]
      ]

  -- The `cas` on `head`: the first item leaves the queue.
  swing-Progress :
      (head next : Pointer) (val : ℤ) (k : ℕ)
      → k ≤ g.head_at
      → head.ptr ≡ g.at k
      → k < g.tail_at
      → next.ptr ≡ g.at (suc k)
      → val ≡ (node_of m.cell (g.at (suc k))).val
      → Returns
          (deq_step m (DeqState.swing head next val))
          (Progress g m (in_deq (DeqState.swing head next val)))
  unfolding deq_step
  swing-Progress head next val k a b c d e = elim (Bool-cases (matches m.head head)) [
    | inr moved ↦ (
      outcome m (in_deq DeqState.load_head) silent,
      rw moved,
      stay g m l _ (in_deq DeqState.load_head) silent tt tt (inl refl) refl,
    )
    | inl same ↦
        let p : Pointer = bump head next.ptr in
        let at_head : k ≡ g.head_at =
          l.distinct k g.head_at (omega (arith, l.tail-le-last))
            (omega (arith, l.head-le-tail, l.tail-le-last))
            (sym b ∙ sym (matches-ptr m.head head same) ∙ l.head_there) in
        let there : p.ptr ≡ g.at (suc g.head_at) = d ∙ ap (λ (i : ℕ). g.at (suc i)) at_head in
        let room : g.head_at < g.tail_at = omega arith in
        let first : val ≡ (node_of m.cell (g.at (suc g.head_at))).val =
          e ∙ ap (λ (i : ℕ). (node_of m.cell (g.at (suc i))).val) at_head in
        (
          outcome (record m { head = p }) idle (dequeued val),
          rw same,
          record {
            order = Writes.head_on g m l p there room;
            linked = Writes.write_head-Linked g m l p there room;
            grows = Writes.write_head-Grows g m l p there room;
            place = tt;
            owns = tt;
            others = λ v new h priv. priv;
            claim = inl refl;
            effect =
                Writes.contents-write_head g m l p there room
                ∙ ap
                    (λ (x : ℤ).
                      x ∷ contents (Writes.head_on g m l p there room) (record m { head = p }))
                    (sym first);
          },
        )
  ]

  pub deq_step-Progress :
      (st : DeqState) → Place g m (in_deq st) → Returns (deq_step m st) (Progress g m (in_deq st))
  unfolding deq_step
  deq_step-Progress DeqState.load_head p =
      let th : Thread = in_deq (DeqState.load_tail m.head) in
      (
        outcome m th silent,
        refl,
        stay g m l _ th silent (g.head_at, omega arith, l.head_there) tt (inl refl) refl,
      )
  deq_step-Progress (DeqState.load_tail head) (k, a, b) =
      let th : Thread = in_deq (DeqState.load_next head m.tail) in
      (
        outcome m th silent,
        refl,
        stay g m l _ th silent
            (k, g.tail_at, a, b, omega (arith, l.head-le-tail), omega arith, l.tail_there) tt
            (inl refl) refl,
      )
  deq_step-Progress (DeqState.load_next head tail) (k, j, a, b, c, d, e) =
      load_next-Progress head tail k j a b c d e
  deq_step-Progress (DeqState.check head tail next) (k, j, a, b, c, d, e, f) =
      check-Progress head tail next k j a b c d e f
  deq_step-Progress (DeqState.help head tail next) (k, a, b, c, d, e) =
      let th : Thread = in_deq (DeqState.help head tail next) in
      (
        outcome (swung g m l th (in_deq DeqState.load_head) tail (bump head next.ptr) k)
            (in_deq DeqState.load_head) silent,
        refl,
        swing_tail g m l th (in_deq DeqState.load_head) tail (bump head next.ptr) k
            (omega (arith, l.head-le-tail)) c d e (inl refl) tt tt tt tt,
      )
  deq_step-Progress (DeqState.load_val head next) (k, a, b, c, d) =
      let inside : suc k ≤ g.last = omega (arith, l.tail-le-last) in
      let val : ℤ = (node_of m.cell (g.at (suc k))).val in
      let th : Thread = in_deq (DeqState.swing head next val) in
      (
        outcome m th silent,
        rw (load_at g m l (suc k) next.ptr inside d),
        stay g m l _ th silent (k, a, b, c, d, refl) tt (inl refl) refl,
      )
  deq_step-Progress (DeqState.swing head next val) (k, a, b, c, d, e) =
      swing-Progress head next val k a b c d e
