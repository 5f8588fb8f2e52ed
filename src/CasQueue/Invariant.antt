-- ===== src/CasQueue/Invariant.antt =====
-- queue/CASLockFreeQueue.c: what holds in every state of the system, and that every step keeps it.
use algorithm_collection.Common.{
  ℕ, ◌≡◌, ◌≢◌, arith, ℤ, ok, refl, inl, inr, none, ◌∙◌, ap, sym, Returns, subst, Run,
}
use native.Mathlib.Decide.{ℕ_discrete}
use algorithm_collection.CasQueue.{Memory, load}
use algorithm_collection.CasQueue.Threads.{
  EnqState, DeqState, Thread, in_enq, in_deq, Event, silent, Outcome,
}
use algorithm_collection.CasQueue.System.{
  System, with_thread, Step, call_enq, call_deq, run_enq, run_deq,
}
use algorithm_collection.CasQueue.Links.{Order, Linked, contents}
use algorithm_collection.CasQueue.Facts.{
  Private, owned, Owns, Place, Effect, Progress, stay, Place-Grows,
}
use algorithm_collection.CasQueue.Moves.Enq
use algorithm_collection.CasQueue.Moves.Deq

pub record Inv (s : System) : Type 0 where
  pub order : Order
  pub linked : Linked order s.mem
  pub places : (i : ℕ) → Place order s.mem (s.thread i)
  pub owns : (i : ℕ) → Owns order s.mem (s.thread i)
  pub apart : (i j : ℕ) → owned (s.thread i) ≢ 0 → owned (s.thread i) ≡ owned (s.thread j) → i ≡ j

Private-nonzero : (g : Order) (m : Memory) (val : ℤ) (new : ℕ) → Private g m val new → new ≢ 0
unfolding load
Private-nonzero g m val new (loaded, _) e = ground arith

Private-live :
    (g : Order) (m : Memory) (val : ℤ) (new : ℕ) → Private g m val new → m.cell new ≢ none
unfolding load
Private-live g m val new (loaded, _) e = ground arith

Owns-live :
    (g : Order) (m : Memory) (th : Thread) → Owns g m th → owned th ≢ 0 → m.cell (owned th) ≢ none
Owns-live g m (in_enq (EnqState.load_tail val new)) o h = Private-live g m val new o
Owns-live g m (in_enq (EnqState.load_next val new tail)) o h = Private-live g m val new o
Owns-live g m (in_enq (EnqState.check val new tail next)) o h = Private-live g m val new o
Owns-live g m (in_enq (EnqState.link val new tail next)) o h = Private-live g m val new o
Owns-live g m (in_enq (EnqState.help val new tail next)) o h = Private-live g m val new o
Owns-live g m _ o h = absurd (h refl)

-- What a thread owns stays as it is while another thread moves.
Owns-others :
    (g g' : Order) (m m' : Memory) (other th : Thread)
    → ((val : ℤ) (new : ℕ) → new ≢ owned other → Private g m val new → Private g' m' val new)
    → (owned th ≢ 0 → owned th ≢ owned other)
    → Owns g m th
    → Owns g' m' th
Owns-others g g' m m' other (in_enq (EnqState.load_tail val new)) keep h o =
    keep val new (h (Private-nonzero g m val new o)) o
Owns-others g g' m m' other (in_enq (EnqState.load_next val new tail)) keep h o =
    keep val new (h (Private-nonzero g m val new o)) o
Owns-others g g' m m' other (in_enq (EnqState.check val new tail next)) keep h o =
    keep val new (h (Private-nonzero g m val new o)) o
Owns-others g g' m m' other (in_enq (EnqState.link val new tail next)) keep h o =
    keep val new (h (Private-nonzero g m val new o)) o
Owns-others g g' m m' other (in_enq (EnqState.help val new tail next)) keep h o =
    keep val new (h (Private-nonzero g m val new o)) o
Owns-others g g' m m' other _ keep h o = tt

with_thread_self : (f : ℕ → Thread) (i j : ℕ) (th : Thread) → j ≡ i → with_thread f i th j ≡ th
with_thread_self f i j th e = ground arith

with_thread-ne : (f : ℕ → Thread) (i j : ℕ) (th : Thread) → j ≢ i → with_thread f i th j ≡ f j
with_thread-ne f i j th e = ground arith

module _ (s : System) (v : Inv s) (i : ℕ) (out : Outcome)
    (p : Progress v.order s.mem (s.thread i) out) where
  abbrev moved : System
  moved = record { mem = out.mem; thread = with_thread s.thread i out.thread }

  moved-Place : (j : ℕ) → Place p.order out.mem (moved.thread j)
  moved-Place j = elim (ℕ_discrete j i) [
    | yes e ↦ rw (with_thread_self s.thread i j out.thread e) p.place
    | no e ↦
        rw (with_thread-ne s.thread i j out.thread e)
          (Place-Grows v.order s.mem v.linked p.order out.mem p.grows (s.thread j) (v.places j))
  ]

  moved-Owns : (j : ℕ) → Owns p.order out.mem (moved.thread j)
  moved-Owns j = elim (ℕ_discrete j i) [
    | yes e ↦ rw (with_thread_self s.thread i j out.thread e) p.owns
    | no e ↦ rw (with_thread-ne s.thread i j out.thread e) (
        Owns-others v.order p.order s.mem out.mem (s.thread i) (s.thread j) p.others
          (λ h q. e (v.apart j i h q)) (v.owns j))
  ]

  -- The moved thread owns what it owned, or what nobody did.
  new_apart : (j : ℕ) → j ≢ i → owned out.thread ≢ 0 → owned out.thread ≢ owned (s.thread j)
  new_apart j e h q = elim p.claim [
    | inl nothing ↦ h nothing
    | inr (inl kept) ↦ e (sym (v.apart i j (λ z. h (kept ∙ z)) (sym kept ∙ q)))
    | inr (inr unused) ↦
        Owns-live v.order s.mem (s.thread j) (v.owns j) (λ z. h (q ∙ z))
          (ap s.mem.cell (sym q) ∙ unused)
  ]

  moved_apart :
      (a b : ℕ)
      → owned (moved.thread a) ≢ 0
      → owned (moved.thread a) ≡ owned (moved.thread b)
      → a ≡ b
  moved_apart a b = elim (ℕ_discrete a i) [
    | yes e ↦ elim (ℕ_discrete b i) [
      | yes f ↦ λ h q. omega arith
      | no f ↦
          rw (with_thread_self s.thread i a out.thread e, with_thread-ne s.thread i b out.thread f)
            (λ h q. absurd (new_apart b f h q))
    ]
    | no e ↦ elim (ℕ_discrete b i) [
      | yes f ↦
          rw (with_thread-ne s.thread i a out.thread e, with_thread_self s.thread i b out.thread f)
            (λ h q. absurd (new_apart a e (λ z. h (q ∙ z)) (sym q)))
      | no f ↦
          rw (with_thread-ne s.thread i a out.thread e, with_thread-ne s.thread i b out.thread f)
            (v.apart a b)
    ]
  ]

  moved-Inv : Inv moved
  moved-Inv = record {
    order = p.order;
    linked = p.linked;
    places = moved-Place;
    owns = moved-Owns;
    apart = moved_apart;
  }

-- A step keeps the invariant, and the items change as its event says.
abbrev pub Simulates : (s t : System) → Event → Inv s → Type 0
Simulates s t e v = (w : Inv t) × Effect e (contents v.order s.mem) (contents w.order t.mem)

-- The outcome that a step has is the one that its progress is about.
came_out :
    (s : System) (v : Inv s) (i : ℕ) (th : Thread) (out : Outcome) {run : Run Outcome}
    → s.thread i ≡ th
    → run ≡ ok out
    → Returns run (Progress v.order s.mem th)
    → Progress v.order s.mem (s.thread i) out
came_out s v i th out at_state ran (made, ran', p) =
    let same : made ≡ out = cc (sym ran' ∙ ran) in
    subst (λ (th' : Thread). Progress v.order s.mem th' out) (sym at_state)
      (subst (λ (o : Outcome). Progress v.order s.mem th o) same p)

pub Step-Inv : {s t : System} {e : Event} → Step s e t → (v : Inv s) → Simulates s t e v
unfolding moved-Inv
Step-Inv {s} (call_enq i val is_idle) v =
    let p =
      stay v.order s.mem v.linked (s.thread i) (in_enq (EnqState.create val)) silent tt tt
        (inl refl) refl in
    (moved-Inv s v i _ p, p.effect)
Step-Inv {s} (call_deq i is_idle) v =
    let p =
      stay v.order s.mem v.linked (s.thread i) (in_deq DeqState.load_head) silent tt tt (inl refl)
        refl in
    (moved-Inv s v i _ p, p.effect)
Step-Inv {s} (run_enq i address st out at_state free ran) v =
    let p = came_out s v i (in_enq st) out at_state ran (
      Enq.enq_step-Progress v.order s.mem v.linked address st free
        (subst (Place v.order s.mem) at_state (v.places i))
        (subst (Owns v.order s.mem) at_state (v.owns i))) in
    (moved-Inv s v i out p, p.effect)
Step-Inv {s} (run_deq i st out at_state ran) v =
    let p = came_out s v i (in_deq st) out at_state ran (
      Deq.deq_step-Progress v.order s.mem v.linked st
        (subst (Place v.order s.mem) at_state (v.places i))) in
    (moved-Inv s v i out p, p.effect)
