-- ===== src/CasQueue/Fifo.antt =====
-- queue/CASLockFreeQueue.c: what the callers of the queue can rely on, whatever the threads do.
use algorithm_collection.Common.{
  ℕ, zero, suc, ◌+◌, ◌-◌, ◌≡◌, ◌≢◌, List, [], ◌∷◌, ◌++◌, arith, ℤ, pos, ok, refl, none, true, false,
  ◌∙◌, ap, sym, ◌==◌, subst,
}
use mathlib.Core.List.{append_assoc, append-nil}
use algorithm_collection.CasQueue.{
  Node, Memory, Shows, create_node, load, ready, init_queue, update,
}
use algorithm_collection.CasQueue.Threads.{
  EnqState, DeqState, idle, in_enq, in_deq, Event, silent, enqueued, dequeued, saw_empty,
  answer_false, Outcome, enq_step, deq_step,
}
use algorithm_collection.CasQueue.System.{System, IsAvailable, Step, Reach, start, later}
use algorithm_collection.CasQueue.Links.{Order, node_of, Linked, contents, items}
use algorithm_collection.CasQueue.Links.Writes
use algorithm_collection.CasQueue.Facts.{Owns, Place, Effect}
use algorithm_collection.CasQueue.Invariant.{Inv, Step-Inv}
use algorithm_collection.CasQueue.Moves.Enq
use algorithm_collection.CasQueue.Moves.Deq

-- The items put in, and those taken out, in order; the events come latest first.
abbrev pub items_in : List Event → List ℤ
items_in [] = []
items_in (enqueued val ∷ es) = items_in es ++ val ∷ []
items_in (e ∷ es) = items_in es

abbrev pub items_out : List Event → List ℤ
items_out [] = []
items_out (dequeued val ∷ es) = items_out es ++ val ∷ []
items_out (e ∷ es) = items_out es

-- `show_queue` prints the items behind node number `i`, `count` many.
Linked-Shows :
    (g : Order) (m : Memory) (i count : ℕ)
    → Linked g m
    → i + count ≡ g.last
    → Shows m.cell (g.at i) (items (λ j. (node_of m.cell (g.at j)).val) (suc i) count)
unfolding items
Linked-Shows g m i zero l e =
    let e' : i ≡ g.last = omega arith in
    Shows.end (l.loads i (omega arith))
      (subst (λ (k : ℕ). (node_of m.cell (g.at k)).next.ptr ≡ 0) (sym e') l.final)
Linked-Shows g m i (suc count) l e =
    let next = l.nexts i (omega arith) in
    let rest = Linked-Shows g m (suc i) count l (omega arith) in
    Shows.more {next = node_of m.cell (g.at (suc i))} (l.loads i (omega arith))
      (λ z. l.nonzero (suc i) (omega arith) (sym next ∙ z))
      (rw next (l.loads (suc i) (omega arith))) (rw next rest)

-- The queue that `init_queue` makes around its first node.
abbrev first_memory : ℕ → Memory
first_memory dummy = record {
  head = record { count = 0; ptr = dummy };
  tail = record { count = 0; ptr = dummy };
  cell = update (λ a. none) dummy (create_node (pos 0));
}

abbrev first_order : ℕ → Order
first_order dummy = record { at = λ i. dummy; head_at = 0; tail_at = 0; last = 0 }

first-Linked : (dummy : ℕ) → dummy ≢ 0 → Linked (first_order dummy) (first_memory dummy)
first-Linked dummy h = record {
  head_there = refl;
  tail_there = refl;
  head-le-tail = omega arith;
  tail-le-last = omega arith;
  nonzero = λ i q. h;
  loads = λ i q. loaded ∙ ap ok (sym there);
  nexts = λ i q. absurd (omega arith);
  final = ap (λ (n : Node). n.next.ptr) there;
  distinct = λ i j p q e. omega arith;
}
  where
    loaded : load (first_memory dummy).cell dummy ≡ ok (create_node (pos 0))
    loaded = Writes.load-update_self (λ a. none) dummy (create_node (pos 0)) h

    there : node_of (first_memory dummy).cell dummy ≡ create_node (pos 0)
    there = Writes.node_of-update_self (λ a. none) dummy (create_node (pos 0))

init_queue-Inv :
    (dummy : ℕ) (m : Memory)
    → dummy ≢ 0
    → init_queue true dummy ≡ ready m
    → (v : Inv (record { mem = m; thread = λ i. idle })) × (contents v.order m ≡ [])
unfolding init_queue items
init_queue-Inv dummy m h e =
    let not_null : (dummy == 0) ≡ false = ground arith in
    let made : init_queue true dummy ≡ ready (first_memory dummy) = rw not_null in
    let same : first_memory dummy ≡ m = cc (sym made ∙ e) in
    subst
      (λ (m' : Memory).
        (v : Inv (record { mem = m'; thread = λ i. idle })) × (contents v.order m' ≡ []))
      same
      (
        record {
          order = first_order dummy;
          linked = first-Linked dummy h;
          places = λ i. tt;
          owns = λ i. tt;
          apart = λ i j p q. absurd (p refl);
        },
        refl,
      )

-- The invariant, with the account of what went in and out.
Reach-account :
    (dummy : ℕ) (m₀ : Memory) {es : List Event} {s : System}
    → dummy ≢ 0
    → init_queue true dummy ≡ ready m₀
    → Reach m₀ es s
    → (v : Inv s) × (items_in es ≡ items_out es ++ contents v.order s.mem)
Reach-account dummy m₀ h e start = let (v, empty) = init_queue-Inv dummy m₀ h e in (v, sym empty)
Reach-account dummy m₀ h e (later {e = ev} r st) =
    let (v, account) = Reach-account dummy m₀ h e r in
    let (w, effect) = Step-Inv st v in (w, account_step ev _ _ _ account effect)
  where
    account_step :
        (ev : Event) (es : List Event) (q q' : List ℤ)
        → items_in es ≡ items_out es ++ q
        → Effect ev q q'
        → items_in (ev ∷ es) ≡ items_out (ev ∷ es) ++ q'
    account_step silent es q q' a f = rw f a
    account_step (enqueued val) es q q' a f = rw (f, a) (append_assoc (items_out es) q (val ∷ []))
    account_step (dequeued val) es q q' a f =
        a
        ∙ ap (λ (x : List ℤ). items_out es ++ x) f
        ∙ sym (append_assoc (items_out es) (val ∷ []) q')
    account_step saw_empty es q q' a f = rw f.1 a
    account_step answer_false es q q' a f = rw f a

-- From a queue that `init_queue` made, in every state that the threads reach, the list from `head`
-- on shows some items, ended by NULL, and the items enqueued so far are, in order, the items
-- dequeued so far followed by these: first in, first out, none lost and none twice.
pub fifo :
    (dummy : ℕ) (m₀ : Memory) {es : List Event} {s : System}
    → dummy ≢ 0
    → init_queue true dummy ≡ ready m₀
    → Reach m₀ es s
    → (vals : List ℤ) × Shows s.mem.cell s.mem.head.ptr vals × (items_in es ≡ items_out es ++ vals)
fifo dummy m₀ {es} {s} h e r =
    let (v, account) = Reach-account dummy m₀ h e r in
    let g : Order = v.order in
    (
      contents g s.mem,
      subst (λ (a : ℕ). Shows s.mem.cell a (contents g s.mem)) (sym v.linked.head_there)
          (Linked-Shows g s.mem g.head_at (g.last - g.head_at) v.linked
            (omega (arith, v.linked.head-le-tail, v.linked.tail-le-last))),
      account,
    )

-- In a reachable state, when a `deq` reads the NULL `next` for which it may answer false, every item
-- enqueued so far has been dequeued.
pub saw_empty-exact :
    (dummy : ℕ) (m₀ : Memory) {es : List Event} {s t : System}
    → dummy ≢ 0
    → init_queue true dummy ≡ ready m₀
    → Reach m₀ es s
    → Step s saw_empty t
    → items_in es ≡ items_out es
saw_empty-exact dummy m₀ {es} h e r st =
    let (v, account) = Reach-account dummy m₀ h e r in
    let (w, effect) = Step-Inv st v in
    account ∙ ap (λ (x : List ℤ). items_out es ++ x) effect.0 ∙ append-nil (items_out es)

-- In a reachable state, the next access of a thread in `enq` ends with no fault, whatever unused
-- address, or NULL, `calloc` answers.
pub enq_step-safe :
    (dummy : ℕ) (m₀ : Memory) {es : List Event} {s : System} (i address : ℕ) (st : EnqState)
    → dummy ≢ 0
    → init_queue true dummy ≡ ready m₀
    → Reach m₀ es s
    → s.thread i ≡ in_enq st
    → IsAvailable s.mem address
    → (out : Outcome) × (enq_step address s.mem st ≡ ok out)
enq_step-safe dummy m₀ {s = s} i address st h e r at_state free =
    let (v, account) = Reach-account dummy m₀ h e r in
    let (out, ran, p) =
      Enq.enq_step-Progress v.order s.mem v.linked address st free
        (subst (Place v.order s.mem) at_state (v.places i))
        (subst (Owns v.order s.mem) at_state (v.owns i)) in
    (out, ran)

-- In a reachable state, the next access of a thread in `deq` ends with no fault.
pub deq_step-safe :
    (dummy : ℕ) (m₀ : Memory) {es : List Event} {s : System} (i : ℕ) (st : DeqState)
    → dummy ≢ 0
    → init_queue true dummy ≡ ready m₀
    → Reach m₀ es s
    → s.thread i ≡ in_deq st
    → (out : Outcome) × (deq_step s.mem st ≡ ok out)
deq_step-safe dummy m₀ {s = s} i st h e r at_state =
    let (v, account) = Reach-account dummy m₀ h e r in
    let (out, ran, p) =
      Deq.deq_step-Progress v.order s.mem v.linked st
        (subst (Place v.order s.mem) at_state (v.places i)) in
    (out, ran)
