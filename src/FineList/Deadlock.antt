-- ===== src/FineList/Deadlock.antt =====
-- list/FineGrainedSynchroList.c: threads that wait for a lock do not wait for each other in a circle.
use algorithm_collection.Common.{
  some_if-inv, ℕ, ◌≡◌, ◌≢◌, ◌⊎◌, inl, inr, refl, true, not, ◌&&◌, none, some, List, [], ◌∷◌, arith,
  ltb_ℤ, eqb_ℤ, ◌==◌, ok, ap, sym, Bool-cases, Option-cases, subst, Yields, Run-cases,
}
use algorithm_collection.FineList.{Node, Ends, Memory, load, init_list}
use algorithm_collection.FineList.Paths.{has, node_of, Trail}
use algorithm_collection.FineList.Threads.{
  Op, adding, deleting, finding, Thread, idle, create, lock_head, lock_curr, holding, unlock_both,
  unlock_last, Outcome, key_of, work, fine_step,
}
use algorithm_collection.FineList.Facts.{Place}
use algorithm_collection.FineList.System.{System, IsAvailable, Reach}
use algorithm_collection.FineList.Invariant.{Inv}
use algorithm_collection.FineList.Moves.Steps.{fine_step-Progress}
use algorithm_collection.FineList.Linear.{Reach-account, init_list-Inv}
use algorithm_collection.FineList.Locks.{holds, IsHeld, Reach-IsHeld}

-- The next step of the thread does not wait.
abbrev IsReady : Ends → Memory → Thread → Type 0
IsReady l m idle = ⊥
IsReady l m (lock_head op) = m.owner l.head ≡ none
IsReady l m (lock_curr op pred curr) = m.owner curr ≡ none
IsReady l m _ = Unit

work-leaves :
    (l : Ends) (m : Memory) (op : Op) (pred curr : ℕ) (n : Node)
    → Yields (work l m op pred curr n) (λ out. out.thread ≢ holding op pred curr)
unfolding work
work-leaves l m (adding key val new) pred curr n =
    elim (Bool-cases (not (curr == l.tail) && eqb_ℤ key n.key)) [
      | inl hit ↦ rw hit (λ e. cc e)
      | inr miss ↦ elim (Run-cases (load m.cell new)) [
        | inl (w, broken) ↦ rw (miss, broken) tt
        | inr (made, ran) ↦ elim (Run-cases (load m.cell pred)) [
          | inl (w, broken) ↦ rw (miss, ran, broken) tt
          | inr (before, ran') ↦ rw (miss, ran, ran') (λ e. cc e)
        ]
      ]
    ]
work-leaves l m (deleting key) pred curr n =
    elim (Bool-cases (not (curr == l.tail) && eqb_ℤ key n.key)) [
      | inl hit ↦ elim (Run-cases (load m.cell pred)) [
        | inl (w, broken) ↦ rw (hit, broken) tt
        | inr (before, ran) ↦ rw (hit, ran) (λ e. cc e)
      ]
      | inr miss ↦ rw miss (λ e. cc e)
    ]
work-leaves l m (finding key) pred curr n = λ e. cc e

step-leaves :
    (l : Ends) (i address : ℕ) (m : Memory) (th : Thread)
    → IsReady l m th
    → Yields (fine_step l i address m th) (λ out. out.thread ≢ th)
unfolding fine_step
step-leaves l i address m idle ready = absurd ready
step-leaves l i address m (create key val) ready = elim (Bool-cases (address == 0)) [
  | inl e ↦ rw e (λ q. cc q)
  | inr e ↦ rw e (λ q. cc q)
]
step-leaves l i address m (lock_head op) ready = elim (Run-cases (load m.cell l.head)) [
  | inl (w, broken) ↦ rw broken tt
  | inr (n, ran) ↦ rw (ran, ready) (λ q. cc q)
]
step-leaves l i address m (lock_curr op pred curr) ready = elim (Run-cases (load m.cell curr)) [
  | inl (w, broken) ↦ rw broken tt
  | inr (n, ran) ↦ rw (ran, ready) (λ q. cc q)
]
step-leaves l i address m (holding op pred curr) ready = elim (Run-cases (load m.cell curr)) [
  | inl (w, broken) ↦ rw broken tt
  | inr (n, ran) ↦ elim (Bool-cases (not (curr == l.tail) && ltb_ℤ n.key (key_of op))) [
    | inl on ↦ rw (ran, on) (λ q. cc q)
    | inr stop ↦ rw (ran, stop) (work-leaves l m op pred curr n)
  ]
]
step-leaves l i address m (unlock_both first second answer) ready = λ q. cc q
step-leaves l i address m (unlock_last last answer) ready = λ q. cc q

-- Some thread whose next step does not wait.
abbrev Ready : Ends → System → Type 0
Ready l s = (j : ℕ) × IsReady l s.mem (s.thread j)

module _ (l : Ends) (s : System) (v : Inv l s) (held : IsHeld s) where
  -- A thread that has the lock of the end waits for nothing.
  tail_holder-IsReady :
      (th : Thread) (j : ℕ)
      → Place l s.mem v.nodes j th
      → holds th l.tail ≡ true
      → IsReady l s.mem th
  tail_holder-IsReady (lock_curr op pred curr) j p h =
      let e : pred ≡ l.tail = ground arith in
      absurd (
        ground
          (arith, v.shape.no_tail, subst (λ (a : ℕ). has a (l.head ∷ v.nodes) ≡ true) e p.1.inside))
  tail_holder-IsReady (holding op pred curr) j p h = tt
  tail_holder-IsReady (unlock_both first second answer) j p h = tt
  tail_holder-IsReady (unlock_last last answer) j p h = tt
  tail_holder-IsReady idle j p h = absurd (ground arith)
  tail_holder-IsReady (create key val) j p h = absurd (ground arith)
  tail_holder-IsReady (lock_head op) j p h = absurd (ground arith)

  -- Whoever has the lock at `a` is ready, or waits for the node behind `a`.
  holder-cases :
      (a j : ℕ) (th : Thread)
      → Place l s.mem v.nodes j th
      → holds th a ≡ true
      → IsReady l s.mem th ⊎ ((k : ℕ) × (s.mem.owner (node_of s.mem.cell a).next ≡ some k))
  holder-cases a j (lock_curr op pred curr) p h =
      let e : a ≡ pred = ground arith in
      elim (Option-cases (s.mem.owner curr)) [
        | inl free ↦ inl free
        | inr (k, lock) ↦ inr (k, rw (e, p.1.next) lock)
      ]
  holder-cases a j (holding op pred curr) p h = inl tt
  holder-cases a j (unlock_both first second answer) p h = inl tt
  holder-cases a j (unlock_last last answer) p h = inl tt
  holder-cases a j idle p h = absurd (ground arith)
  holder-cases a j (create key val) p h = absurd (ground arith)
  holder-cases a j (lock_head op) p h = absurd (ground arith)

  -- From one waiting thread to the next, each farther along the list.
  chase :
      (ys : List ℕ) (a j : ℕ) → Trail s.mem.cell l.tail a ys → s.mem.owner a ≡ some j → Ready l s
  chase [] a j t lock = elim (holder-cases a j (s.thread j) (v.places j) (held a j lock)) [
    | inl ready ↦ (j, ready)
    | inr (k, lock') ↦
        (k, tail_holder-IsReady (s.thread k) k (v.places k) (held l.tail k (rw t.1 at lock')))
  ]
  chase (x ∷ ys) a j t lock = elim (holder-cases a j (s.thread j) (v.places j) (held a j lock)) [
    | inl ready ↦ (j, ready)
    | inr (k, lock') ↦ chase ys x k t.4 (rw t.1 at lock')
  ]

  Trail-from :
      (ys : List ℕ) (a b : ℕ)
      → Trail s.mem.cell l.tail a ys
      → has b (a ∷ ys) ≡ true
      → (zs : List ℕ) × Trail s.mem.cell l.tail b zs
  Trail-from [] a b t h =
      let e : a ≡ b = ground arith in ([], subst (λ (c : ℕ). Trail s.mem.cell l.tail c []) e t)
  Trail-from (x ∷ ys) a b t h = elim (Bool-cases (b == a)) [
    | inl here ↦
        let e : a ≡ b = ground arith in
        (x ∷ ys, subst (λ (c : ℕ). Trail s.mem.cell l.tail c (x ∷ ys)) e t)
    | inr there ↦ Trail-from ys x b t.4 (ground arith)
  ]

  waiting :
      (i : ℕ) (th : Thread) → s.thread i ≡ th → th ≢ idle → Place l s.mem v.nodes i th → Ready l s
  waiting i idle at busy p = absurd (busy refl)
  waiting i (create key val) at busy p = (i, rw at tt)
  waiting i (holding op pred curr) at busy p = (i, rw at tt)
  waiting i (unlock_both first second answer) at busy p = (i, rw at tt)
  waiting i (unlock_last last answer) at busy p = (i, rw at tt)
  waiting i (lock_head op) at busy p = elim (Option-cases (s.mem.owner l.head)) [
    | inl free ↦ (i, rw at free)
    | inr (j, lock) ↦ chase v.nodes l.head j v.shape.path lock
  ]
  waiting i (lock_curr op pred curr) at busy p =
      let (ys, t) = Trail-from v.nodes l.head pred v.shape.path p.1.inside in chase ys pred i t p.0

unlocked :
    (head tail : ℕ) (l : Ends) (m : Memory)
    → init_list true head tail ≡ some (l, m)
    → (a : ℕ) → m.owner a ≡ none
unfolding init_list
unlocked head tail l m e a =
    let (made, same) = some_if-inv _ _ e in ap (λ (p : Ends × Memory). p.1.owner a) (sym same)

-- There is no deadlock: in a reachable state with a thread that is in a function, there is a thread
-- whose next step, whatever unused address, or NULL, `calloc` answers, ends with no fault and takes
-- it to another point of its function, or out of it.
pub deadlock_free :
    (head tail : ℕ) (l : Ends) (m₀ : Memory) {es : _} {s : System} (i : ℕ)
    → head ≢ 0
    → tail ≢ 0
    → head ≢ tail
    → init_list true head tail ≡ some (l, m₀)
    → Reach l m₀ es s
    → s.thread i ≢ idle
    → (j : ℕ) × ((address : ℕ)
        → IsAvailable s.mem address
        → (out : Outcome) × (fine_step l j address s.mem (s.thread j) ≡ ok out)
          × (out.thread ≢ s.thread j))
deadlock_free head tail l m₀ {s = s} i h t ne e r busy =
    let (v, chain, answers) = Reach-account l m₀ (init_list-Inv head tail l m₀ h t ne e) r in
    let held = Reach-IsHeld l m₀ (unlocked head tail l m₀ e) r in
    let (j, ready) = waiting l s v held i (s.thread i) refl busy (v.places i) in
    (
      j,
      λ address free.
          let (out, ran, p) =
            fine_step-Progress l s.mem v.nodes v.shape j address (s.thread j) free (v.places j) in
          (
            out,
            ran,
            subst (λ x. Yields x (λ (o : Outcome). o.thread ≢ s.thread j)) ran
                (step-leaves l j address s.mem (s.thread j) ready),
          ),
    )
