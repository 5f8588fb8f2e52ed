-- ===== src/FineList/Invariant.antt =====
-- list/FineGrainedSynchroList.c: what holds in every state of the system, and that every step keeps it.
use algorithm_collection.Common.{
  ℕ, ◌≡◌, ◌≢◌, inl, inr, refl, none, List, arith, Run, ok, ap, sym, ◌∙◌, subst, Returns,
}
use native.Mathlib.Decide.{ℕ_discrete}
use algorithm_collection.FineList.{Ends, Memory, update}
use algorithm_collection.FineList.Paths.{chain_of}
use algorithm_collection.FineList.Threads.{
  Op, adding, deleting, finding, Thread, create, lock_head, lock_curr, holding, Event, called,
  Outcome,
}
use algorithm_collection.FineList.Facts.{Shape, Mine, new_of, owned, Place, Effect, Progress}
use algorithm_collection.FineList.System.{System, Step, call_add, call_delete, call_find, run}
use algorithm_collection.FineList.Facts.{Place-Quiet}
use algorithm_collection.FineList.Moves.{outcome, stay}
use algorithm_collection.FineList.Moves.Steps.{fine_step-Progress}

pub record Inv (l : Ends) (s : System) : Type 0 where
  pub nodes : List ℕ
  pub shape : Shape l s.mem nodes
  pub places : (i : ℕ) → Place l s.mem nodes i (s.thread i)
  pub apart : (i j : ℕ) → owned (s.thread i) ≢ 0 → owned (s.thread i) ≡ owned (s.thread j) → i ≡ j

pub update_self : (f : ℕ → Thread) (i j : ℕ) (th : Thread) → j ≡ i → update f i th j ≡ th
update_self f i j th e = ground arith

pub update-ne : (f : ℕ → Thread) (i j : ℕ) (th : Thread) → j ≢ i → update f i th j ≡ f j
update-ne f i j th e = ground arith

Mine-live :
    (l : Ends) (m : Memory) (xs : List ℕ) (op : Op)
    → Mine l m xs op
    → new_of op ≢ 0
    → m.cell (new_of op) ≢ none
Mine-live l m xs (adding key val new) f h e = cc (sym e ∙ f.there)
Mine-live l m xs (deleting key) f h e = h refl
Mine-live l m xs (finding key) f h e = h refl

-- What a thread owns is in use.
owned-live :
    (l : Ends) (m : Memory) (xs : List ℕ) (i : ℕ) (th : Thread)
    → Place l m xs i th
    → owned th ≢ 0
    → m.cell (owned th) ≢ none
owned-live l m xs i (lock_head op) p h = Mine-live l m xs op p h
owned-live l m xs i (lock_curr op pred curr) p h = Mine-live l m xs op p.2 h
owned-live l m xs i (holding op pred curr) p h = Mine-live l m xs op p.3 h
owned-live l m xs i _ p h = absurd (h refl)

module _ (l : Ends) (s : System) (v : Inv l s) (i : ℕ) (out : Outcome)
    (p : Progress l s.mem v.nodes i (s.thread i) out) where
  abbrev moved : System
  moved = record { mem = out.mem; thread = update s.thread i out.thread }

  moved-Place : (j : ℕ) → Place l out.mem p.nodes j (moved.thread j)
  moved-Place j = elim (ℕ_discrete j i) [
    | yes e ↦
        rw (update_self s.thread i j out.thread e)
          (subst (λ (k : ℕ). Place l out.mem p.nodes k out.thread) (sym e) p.place)
    | no e ↦ rw (update-ne s.thread i j out.thread e) (
        Place-Quiet l i (owned (s.thread i)) s.mem v.nodes out.mem p.nodes p.quiet j (s.thread j) e
          (λ h q. e (v.apart j i h q)) (v.places j))
  ]

  -- The moved thread owns what it owned, or what nobody did.
  new_apart : (j : ℕ) → j ≢ i → owned out.thread ≢ 0 → owned out.thread ≢ owned (s.thread j)
  new_apart j e h q = elim p.claim [
    | inl nothing ↦ h nothing
    | inr (inl kept) ↦ e (sym (v.apart i j (λ z. h (kept ∙ z)) (sym kept ∙ q)))
    | inr (inr unused) ↦
        owned-live l s.mem v.nodes j (s.thread j) (v.places j) (λ z. h (q ∙ z))
          (ap s.mem.cell (sym q) ∙ unused)
  ]

  moved_apart :
      (a b : ℕ)
      → owned (moved.thread a) ≢ 0
      → owned (moved.thread a) ≡ owned (moved.thread b)
      → a ≡ b
  moved_apart a b = elim (ℕ_discrete a i) [
    | yes e ↦ elim (ℕ_discrete b i) [
      | yes f ↦ λ h q. e ∙ sym f
      | no f ↦
          rw (update_self s.thread i a out.thread e, update-ne s.thread i b out.thread f)
            (λ h q. absurd (new_apart b f h q))
    ]
    | no e ↦ elim (ℕ_discrete b i) [
      | yes f ↦
          rw (update-ne s.thread i a out.thread e, update_self s.thread i b out.thread f)
            (λ h q. absurd (new_apart a e (λ z. h (q ∙ z)) (sym q)))
      | no f ↦
          rw (update-ne s.thread i a out.thread e, update-ne s.thread i b out.thread f)
            (v.apart a b)
    ]
  ]

  moved-Inv : Inv l moved
  moved-Inv = record { nodes = p.nodes; shape = p.shape; places = moved-Place; apart = moved_apart }

-- A step keeps the invariant, and the chain changes as its event says.
abbrev pub Simulates : (l : Ends) (s t : System) → ℕ × Event → Inv l s → Type 0
Simulates l s t e v =
    (w : Inv l t) × Effect e.1 (chain_of s.mem.cell v.nodes) (chain_of t.mem.cell w.nodes)

-- The outcome that a step has is the one that its progress is about.
came_out :
    (l : Ends) (s : System) (v : Inv l s) (i : ℕ) (th : Thread) (out : Outcome) {ran : Run Outcome}
    → s.thread i ≡ th
    → ran ≡ ok out
    → Returns ran (Progress l s.mem v.nodes i th)
    → Progress l s.mem v.nodes i (s.thread i) out
came_out l s v i th out at_state run_out (made, run_made, p) =
    let same : made ≡ out = cc (sym run_made ∙ run_out) in
    subst (λ (th' : Thread). Progress l s.mem v.nodes i th' out) (sym at_state)
      (subst (λ (o : Outcome). Progress l s.mem v.nodes i th o) same p)

-- The step of an idle thread into a function.
call :
    (l : Ends) (s : System) (v : Inv l s) (i : ℕ) (th : Thread) (op : Op)
    → Place l s.mem v.nodes i th
    → owned th ≡ 0
    → Progress l s.mem v.nodes i (s.thread i) (outcome s.mem th (called op))
call l s v i th op place none_owned =
    stay l s.mem v.nodes v.shape i (s.thread i) th (called op) s.mem.owner (λ a j ne lock. lock)
      place (inl none_owned) refl

pub Step-Inv :
    (l : Ends) {s t : System} {e : ℕ × Event} → Step l s e t → (v : Inv l s) → Simulates l s t e v
unfolding moved-Inv
Step-Inv l {s} (call_add i key val is_idle) v =
    let p = call l s v i (create key val) (adding key val 0) tt refl in
    (moved-Inv l s v i _ p, p.effect)
Step-Inv l {s} (call_delete i key is_idle) v =
    let p = call l s v i (lock_head (deleting key)) (deleting key) tt refl in
    (moved-Inv l s v i _ p, p.effect)
Step-Inv l {s} (call_find i key is_idle) v =
    let p = call l s v i (lock_head (finding key)) (finding key) tt refl in
    (moved-Inv l s v i _ p, p.effect)
Step-Inv l {s} (run i address th out at_state free ran) v =
    let p = came_out l s v i th out at_state ran (
      fine_step-Progress l s.mem v.nodes v.shape i address th free
        (subst (Place l s.mem v.nodes i) at_state (v.places i))) in
    (moved-Inv l s v i out p, p.effect)
