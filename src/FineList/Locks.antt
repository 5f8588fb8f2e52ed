-- ===== src/FineList/Locks.antt =====
-- list/FineGrainedSynchroList.c: a lock that is taken is one that its thread knows of.
use algorithm_collection.Common.{
  ℕ, ◌≡◌, ◌⊎◌, inl, inr, refl, Bool, true, false, not, ◌&&◌, ◌||◌, none, some, arith, ltb_ℤ, eqb_ℤ,
  ◌==◌, ap, sym, ◌∙◌, Bool-cases, Option-cases, subst, Yields, Run-cases,
}
use native.Mathlib.Decide.{ℕ_discrete}
use algorithm_collection.FineList.{Node, Ends, Memory, update, load}
use algorithm_collection.FineList.Threads.{
  Op, adding, deleting, finding, Thread, idle, create, lock_head, lock_curr, holding, unlock_both,
  unlock_last, Outcome, key_of, freed, work, fine_step,
}
use algorithm_collection.FineList.System.{
  System, Step, call_add, call_delete, call_find, run, Reach, start, later,
}
use algorithm_collection.FineList.Invariant.{update_self, update-ne}

-- The locks that a thread has.
abbrev pub holds : Thread → ℕ → Bool
holds (lock_curr op pred curr) a = a == pred
holds (holding op pred curr) a = (a == pred) || (a == curr)
holds (unlock_both first second answer) a = (a == first) || (a == second)
holds (unlock_last last answer) a = a == last
holds _ a = false

-- A step of thread `i` gives the lock at `a` to nobody else, and forgets no lock.
abbrev IsKept : ℕ → Memory → Thread → Outcome → Type 0
IsKept i m th out =
    (a : ℕ)
    → ((out.mem.owner a ≡ m.owner a) × (holds th a ≡ true → holds out.thread a ≡ true))
      ⊎ (((out.mem.owner a ≡ some i) × (holds out.thread a ≡ true)) ⊎ (out.mem.owner a ≡ none))

work-IsKept :
    (l : Ends) (i : ℕ) (m : Memory) (op : Op) (pred curr : ℕ) (n : Node)
    → Yields (work l m op pred curr n) (IsKept i m (holding op pred curr))
unfolding work
work-IsKept l i m (adding key val new) pred curr n =
    elim (Bool-cases (not (curr == l.tail) && eqb_ℤ key n.key)) [
      | inl hit ↦ rw hit (λ a. inl (refl, λ h. h))
      | inr miss ↦ elim (Run-cases (load m.cell new)) [
        | inl (w, broken) ↦ rw (miss, broken) tt
        | inr (made, ran) ↦ elim (Run-cases (load m.cell pred)) [
          | inl (w, broken) ↦ rw (miss, ran, broken) tt
          | inr (before, ran') ↦ rw (miss, ran, ran') (λ a. inl (refl, λ h. h))
        ]
      ]
    ]
work-IsKept l i m (deleting key) pred curr n =
    elim (Bool-cases (not (curr == l.tail) && eqb_ℤ key n.key)) [
      | inl hit ↦ elim (Run-cases (load m.cell pred)) [
        | inl (w, broken) ↦ rw (hit, broken) tt
        | inr (before, ran) ↦ rw (hit, ran) (λ a. inl (refl, λ h. ground arith))
      ]
      | inr miss ↦ rw miss (λ a. inl (refl, λ h. h))
    ]
work-IsKept l i m (finding key) pred curr n = λ a. inl (refl, λ h. h)

-- A thread that may wait for the lock at `p`, and has it afterwards.
fine_step-IsKept :
    (l : Ends) (i address : ℕ) (m : Memory) (th : Thread)
    → Yields (fine_step l i address m th) (IsKept i m th)
unfolding fine_step
fine_step-IsKept l i address m idle = λ a. inl (refl, λ h. h)
fine_step-IsKept l i address m (create key val) = elim (Bool-cases (address == 0)) [
  | inl e ↦ rw e (λ a. inl (refl, λ h. h))
  | inr e ↦ rw e (λ a. inl (refl, λ h. h))
]
fine_step-IsKept l i address m (lock_head op) = elim (Run-cases (load m.cell l.head)) [
  | inl (w, broken) ↦ rw broken tt
  | inr (n, ran) ↦ elim (Option-cases (m.owner l.head)) [
    | inl free ↦
        rw (ran, free)
          (λ a. elim (ℕ_discrete a l.head) [
            | yes e ↦ inr (inl (ground arith, ground arith))
            | no e ↦ inl (ground arith, λ h. absurd (ground arith))
          ])
    | inr (j, locked) ↦ rw (ran, locked) (λ a. inl (refl, λ h. h))
  ]
]
fine_step-IsKept l i address m (lock_curr op pred curr) = elim (Run-cases (load m.cell curr)) [
  | inl (w, broken) ↦ rw broken tt
  | inr (n, ran) ↦ elim (Option-cases (m.owner curr)) [
    | inl free ↦
        rw (ran, free)
          (λ a. elim (ℕ_discrete a curr) [
            | yes e ↦ inr (inl (ground arith, ground arith))
            | no e ↦ inl (ground arith, λ h. ground arith)
          ])
    | inr (j, locked) ↦ rw (ran, locked) (λ a. inl (refl, λ h. h))
  ]
]
fine_step-IsKept l i address m (holding op pred curr) = elim (Run-cases (load m.cell curr)) [
  | inl (w, broken) ↦ rw broken tt
  | inr (n, ran) ↦ elim (Bool-cases (not (curr == l.tail) && ltb_ℤ n.key (key_of op))) [
    | inl on ↦
        rw (ran, on)
          (λ a. elim (ℕ_discrete a pred) [
            | yes e ↦ inr (inr (ground arith))
            | no e ↦ inl (ground arith, λ h. ground arith)
          ])
    | inr stop ↦ rw (ran, stop) (work-IsKept l i m op pred curr n)
  ]
]
fine_step-IsKept l i address m (unlock_both first second answer) = λ a. elim (ℕ_discrete a first) [
  | yes e ↦ inr (inr (ground arith))
  | no e ↦ inl (ground arith, λ h. ground arith)
]
fine_step-IsKept l i address m (unlock_last last answer) = λ a. elim (ℕ_discrete a last) [
  | yes e ↦ inr (inr (ground arith))
  | no e ↦ inl (ground arith, λ h. absurd (ground arith))
]

-- Every lock that is taken is in the hands of a thread that gives it back later.
abbrev pub IsHeld : System → Type 0
IsHeld s = (a j : ℕ) → s.mem.owner a ≡ some j → holds (s.thread j) a ≡ true

moved-IsHeld :
    (s : System) (i : ℕ) (out : Outcome)
    → IsHeld s
    → IsKept i s.mem (s.thread i) out
    → IsHeld (record { mem = out.mem; thread = update s.thread i out.thread })
moved-IsHeld s i out held kept a j lock = elim (ℕ_discrete j i) [
  | yes e ↦ rw (update_self s.thread i j out.thread e) (elim (kept a) [
    | inl (same, keeps) ↦ keeps (held a i (sym same ∙ lock ∙ ap some e))
    | inr (inl (taken, has_it)) ↦ has_it
    | inr (inr freed) ↦ absurd (ground (arith, lock, freed))
  ])
  | no e ↦ rw (update-ne s.thread i j out.thread e) (elim (kept a) [
    | inl (same, keeps) ↦ held a j (sym same ∙ lock)
    | inr (inl (taken, has_it)) ↦ absurd (e (cc (sym lock ∙ taken)))
    | inr (inr freed) ↦ absurd (ground (arith, lock, freed))
  ])
]

called-IsHeld :
    (s : System) (i : ℕ) (th : Thread)
    → IsHeld s
    → s.thread i ≡ idle
    → IsHeld (record s { thread = update s.thread i th })
called-IsHeld s i th held is_idle a j lock = elim (ℕ_discrete j i) [
  | yes e ↦ absurd (
      let mine : holds (s.thread i) a ≡ true =
        subst (λ (k : ℕ). holds (s.thread k) a ≡ true) e (held a j lock) in
      let idles : holds idle a ≡ true = subst (λ (t : Thread). holds t a ≡ true) is_idle mine in
      ground arith)
  | no e ↦ rw (update-ne s.thread i j th e) (held a j lock)
]

Step-IsHeld : (l : Ends) {s t : System} {e : _} → IsHeld s → Step l s e t → IsHeld t
Step-IsHeld l {s} held (call_add i key val is_idle) = called-IsHeld s i _ held is_idle
Step-IsHeld l {s} held (call_delete i key is_idle) = called-IsHeld s i _ held is_idle
Step-IsHeld l {s} held (call_find i key is_idle) = called-IsHeld s i _ held is_idle
Step-IsHeld l {s} held (run i address th out at free ran) =
    moved-IsHeld s i out held (
      rw at (subst (λ r. Yields r (IsKept i s.mem th)) ran (fine_step-IsKept l i address s.mem th)))

pub Reach-IsHeld :
    (l : Ends) (m₀ : Memory) {es : _} {s : System}
    → ((a : ℕ) → m₀.owner a ≡ none)
    → Reach l m₀ es s
    → IsHeld s
Reach-IsHeld l m₀ h start = λ a j lock. cc (sym (h a) ∙ lock)
Reach-IsHeld l m₀ h (later r st) = Step-IsHeld l (Reach-IsHeld l m₀ h r) st
