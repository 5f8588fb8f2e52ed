-- ===== src/CasQueue/Moves.antt =====
-- queue/CASLockFreeQueue.c: the steps that `enq` and `deq` share: one that writes nothing, and the
-- `cas` on `tail`.
pub mod Enq
pub mod Deq
use algorithm_collection.Common.{
  ℕ, zero, suc, ◌+◌, ◌-◌, ◌≤◌, ◌<◌, ◌≡◌, ◌≢◌, ◌⊎◌, ◌&&◌, List, [], ◌∷◌, ◌++◌, arith, ℤ, ok, refl,
  inl, inr, none, some, true, false, ◌∙◌, ap, sym, ◌==◌, if◌then◌else◌, Bool-cases, Returns, ◌>>=◌,
  Bool, subst, Run,
}
use native.Mathlib.Decide.{dec_lt}
use algorithm_collection.CasQueue.{Pointer, Node, Memory, create_node, load, matches, bump, update}
use algorithm_collection.CasQueue.Threads.{
  EnqState, DeqState, Thread, idle, in_enq, in_deq, Event, silent, enqueued, dequeued, saw_empty,
  answer_false, Outcome, enq_step, deq_step,
}
use algorithm_collection.CasQueue.System.{IsAvailable}
use algorithm_collection.CasQueue.Links.{
  Order, node_of, Linked, Grows, contents, next_null-last, items,
}
use algorithm_collection.CasQueue.Links.Writes
use algorithm_collection.CasQueue.Facts.{Private, owned, Owns, Place, Effect, Progress, stay}

abbrev pub outcome : Memory → Thread → Event → Outcome
outcome m th e = record { mem = m; thread = th; event = e }

pub matches-ptr : (word old : Pointer) → matches word old ≡ true → word.ptr ≡ old.ptr
matches-ptr word old h = ground arith

module _ (g : Order) (m : Memory) (l : Linked g m) where
  -- The node at `p`, if that is node number `i`.
  pub load_at : (i p : ℕ) → i ≤ g.last → p ≡ g.at i → load m.cell p ≡ ok (node_of m.cell (g.at i))
  load_at i p h e = rw e (l.loads i h)

  -- What a `next` field holds: NULL at the last node, the following node elsewhere.
  pub next_at :
      (i : ℕ)
      → i ≤ g.last
      → (((node_of m.cell (g.at i)).next.ptr ≡ 0) × (i ≡ g.last))
        ⊎ ((i < g.last) × ((node_of m.cell (g.at i)).next.ptr ≡ g.at (suc i)))
  next_at i h = elim (dec_lt i g.last) [
    | yes below ↦ inr (below, l.nexts i below)
    | no top ↦
        let e : i ≡ g.last = omega arith in
        inl (subst (λ (k : ℕ). (node_of m.cell (g.at k)).next.ptr ≡ 0) (sym e) l.final, e)
  ]

  -- The `cas` on `tail` that takes it from node number `k` to the next, and the one that fails.
  module _ (th th' : Thread) (tail p : Pointer) (k : ℕ) where
    abbrev pub swung : Memory
    swung = if matches m.tail tail then record m { tail = p } else m

    pub swing_tail :
        k ≤ g.tail_at
        → tail.ptr ≡ g.at k
        → k < g.last
        → p.ptr ≡ g.at (suc k)
        → (owned th' ≡ 0) ⊎ (owned th' ≡ owned th)
        → Place g m th'
        → Owns g m th'
        → Place (record g { tail_at = suc k }) (record m { tail = p }) th'
        → Owns (record g { tail_at = suc k }) (record m { tail = p }) th'
        → Progress g m th (outcome swung th' silent)
    swing_tail a b c d own place owns place' owns' =
        let claimed : (owned th' ≡ 0) ⊎ (owned th' ≡ owned th) ⊎ (m.cell (owned th') ≡ none) =
          elim own [ inl e ↦ inl e | inr e ↦ inr (inl e) ] in
        elim (Bool-cases (matches m.tail tail)) [
          | inr moved ↦ rw moved (stay g m l th th' silent place owns claimed refl)
          | inl same ↦
              let at_tail : g.tail_at ≡ k =
                l.distinct g.tail_at k l.tail-le-last (omega arith)
                  (sym l.tail_there ∙ matches-ptr m.tail tail same ∙ b) in
              rw same (record {
                order = Writes.tail_to g m l p (suc k) d;
                linked = Writes.write_tail-Linked g m l p (suc k) d (omega arith) c;
                grows = Writes.write_tail-Grows g m l p (suc k) d (omega arith);
                place = place';
                owns = owns';
                others = λ val new h priv. priv;
                claim = claimed;
                effect = refl;
              })
        ]
