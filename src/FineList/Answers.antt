-- ===== src/FineList/Answers.antt =====
-- list/FineGrainedSynchroList.c: what each thread was asked to do, what it did, and what it returns.
use algorithm_collection.Common.{
  ℕ, ◌≡◌, inl, inr, refl, true, false, not, ◌&&◌, List, [], ◌∷◌, arith, ltb_ℤ, eqb_ℤ, ◌==◌,
  if◌then◌else◌, ap, sym, ◌∙◌, Bool-cases, Option-cases, subst, Yields, Run-cases,
}
use native.Mathlib.Decide.{ℕ_discrete}
use algorithm_collection.FineList.{Node, Ends, Memory, update, load}
use algorithm_collection.FineList.Threads.{
  Op, adding, deleting, finding, Answer, added, Thread, idle, create, lock_head, lock_curr, holding,
  unlock_both, unlock_last, Event, silent, called, done, returned, refused, Outcome, key_of, work,
  fine_step,
}
use algorithm_collection.FineList.System.{
  System, Step, call_add, call_delete, call_find, run, Reach, start, later,
}
use algorithm_collection.FineList.Invariant.{update_self, update-ne}

-- What the events of a thread say of it: no function was called, or one was called, or its work was
-- done with an answer.
pub data Stage : Type 0 where
  free : Stage
  wanted : (op : Op) → Stage
  did : (answer : Answer) → Stage

-- The call, without the node that the function made for it.
abbrev pub asked : Op → Op
asked (adding key val new) = adding key val 0
asked (deleting key) = deleting key
asked (finding key) = finding key

abbrev pub next_stage : Stage → Event → Stage
next_stage stage silent = stage
next_stage stage (called op) = wanted op
next_stage stage (done op answer) = did answer
next_stage stage (returned answer) = free
next_stage stage (refused address answer) = free

abbrev pub stage_after : ℕ → List (ℕ × Event) → Stage
stage_after i [] = free
stage_after i ((j, e) ∷ es) = if i == j then next_stage (stage_after i es) e else stage_after i es

-- The answer of an `add` without memory.
abbrev pub IsRefusal : Stage → Answer → Type 0
IsRefusal (wanted (adding key val new)) answer = answer ≡ added false
IsRefusal _ answer = ⊥

abbrev pub IsNext : Stage → Event → Type 0
IsNext stage silent = Unit
IsNext stage (called op) = stage ≡ free
IsNext stage (done op answer) = stage ≡ wanted (asked op)
IsNext stage (returned answer) = stage ≡ did answer
IsNext stage (refused address answer) = (address ≡ 0) × IsRefusal stage answer

-- Each thread calls one function at a time, does its work once, and returns its answer; or it
-- refuses an `add` without memory.
abbrev pub Matched : List (ℕ × Event) → Type 0
Matched [] = Unit
Matched ((i, e) ∷ es) = IsNext (stage_after i es) e × Matched es

abbrev stage_of : Thread → Stage
stage_of idle = free
stage_of (create key val) = wanted (adding key val 0)
stage_of (lock_head op) = wanted (asked op)
stage_of (lock_curr op pred curr) = wanted (asked op)
stage_of (holding op pred curr) = wanted (asked op)
stage_of (unlock_both first second answer) = did answer
stage_of (unlock_last last answer) = did answer

abbrev Follows : Thread → Outcome → Type 0
Follows th out =
    IsNext (stage_of th) out.event × (stage_of out.thread ≡ next_stage (stage_of th) out.event)

work-Follows :
    (l : Ends) (m : Memory) (op : Op) (pred curr : ℕ) (n : Node)
    → Yields (work l m op pred curr n) (Follows (holding op pred curr))
unfolding work
work-Follows l m (adding key val new) pred curr n =
    elim (Bool-cases (not (curr == l.tail) && eqb_ℤ key n.key)) [
      | inl hit ↦ rw hit (refl, refl)
      | inr miss ↦ elim (Run-cases (load m.cell new)) [
        | inl (w, broken) ↦ rw (miss, broken) tt
        | inr (made, ran) ↦ elim (Run-cases (load m.cell pred)) [
          | inl (w, broken) ↦ rw (miss, ran, broken) tt
          | inr (before, ran') ↦ rw (miss, ran, ran') (refl, refl)
        ]
      ]
    ]
work-Follows l m (deleting key) pred curr n =
    elim (Bool-cases (not (curr == l.tail) && eqb_ℤ key n.key)) [
      | inl hit ↦ elim (Run-cases (load m.cell pred)) [
        | inl (w, broken) ↦ rw (hit, broken) tt
        | inr (before, ran) ↦ rw (hit, ran) (refl, refl)
      ]
      | inr miss ↦ rw miss (refl, refl)
    ]
work-Follows l m (finding key) pred curr n = (refl, refl)

fine_step-Follows :
    (l : Ends) (i address : ℕ) (m : Memory) (th : Thread)
    → Yields (fine_step l i address m th) (Follows th)
unfolding fine_step
fine_step-Follows l i address m idle = (tt, refl)
fine_step-Follows l i address m (create key val) = elim (Bool-cases (address == 0)) [
  | inl e ↦ rw e ((ground arith, refl), refl)
  | inr e ↦ rw e (tt, refl)
]
fine_step-Follows l i address m (lock_head op) = elim (Run-cases (load m.cell l.head)) [
  | inl (w, broken) ↦ rw broken tt
  | inr (n, ran) ↦ elim (Option-cases (m.owner l.head)) [
    | inl unlocked ↦ rw (ran, unlocked) (tt, refl)
    | inr (j, locked) ↦ rw (ran, locked) (tt, refl)
  ]
]
fine_step-Follows l i address m (lock_curr op pred curr) = elim (Run-cases (load m.cell curr)) [
  | inl (w, broken) ↦ rw broken tt
  | inr (n, ran) ↦ elim (Option-cases (m.owner curr)) [
    | inl unlocked ↦ rw (ran, unlocked) (tt, refl)
    | inr (j, locked) ↦ rw (ran, locked) (tt, refl)
  ]
]
fine_step-Follows l i address m (holding op pred curr) = elim (Run-cases (load m.cell curr)) [
  | inl (w, broken) ↦ rw broken tt
  | inr (n, ran) ↦ elim (Bool-cases (not (curr == l.tail) && ltb_ℤ n.key (key_of op))) [
    | inl on ↦ rw (ran, on) (tt, refl)
    | inr stop ↦ rw (ran, stop) (work-Follows l m op pred curr n)
  ]
]
fine_step-Follows l i address m (unlock_both first second answer) = (tt, refl)
fine_step-Follows l i address m (unlock_last last answer) = (refl, refl)

-- Every thread stands where its events say.
abbrev IsStaged : List (ℕ × Event) → System → Type 0
IsStaged es s = Matched es × ((i : ℕ) → stage_after i es ≡ stage_of (s.thread i))

moved-IsStaged :
    (es : List (ℕ × Event)) (s : System) (m : Memory) (i : ℕ) (th : Thread) (e : Event)
    → IsStaged es s
    → IsNext (stage_of (s.thread i)) e
    → stage_of th ≡ next_stage (stage_of (s.thread i)) e
    → IsStaged ((i, e) ∷ es) (record { mem = m; thread = update s.thread i th })
moved-IsStaged es s m i th e (matched, staged) right stage = (
  (subst (λ (x : Stage). IsNext x e) (sym (staged i)) right, matched),
  λ j. elim (ℕ_discrete j i) [
    | yes q ↦
        let here : (j == i) ≡ true = ground arith in
        let same : stage_after j es ≡ stage_of (s.thread i) =
          staged j ∙ ap (λ k. stage_of (s.thread k)) q in
        rw (update_self s.thread i j th q, here, same, stage) refl
    | no q ↦
        let other : (j == i) ≡ false = ground arith in
        rw (update-ne s.thread i j th q, other) (staged j)
  ],
)

call-IsStaged :
    (es : List (ℕ × Event)) (s : System) (i : ℕ) (th : Thread) (op : Op)
    → IsStaged es s
    → s.thread i ≡ idle
    → stage_of th ≡ wanted op
    → IsStaged ((i, called op) ∷ es) (record s { thread = update s.thread i th })
call-IsStaged es s i th op v is_idle stage =
    moved-IsStaged es s s.mem i th (called op) v (ap stage_of is_idle) stage

Step-IsStaged :
    (l : Ends) (es : List (ℕ × Event)) {s t : System} {e : ℕ × Event}
    → IsStaged es s
    → Step l s e t
    → IsStaged (e ∷ es) t
Step-IsStaged l es {s} v (call_add i key val is_idle) = call-IsStaged es s i _ _ v is_idle refl
Step-IsStaged l es {s} v (call_delete i key is_idle) = call-IsStaged es s i _ _ v is_idle refl
Step-IsStaged l es {s} v (call_find i key is_idle) = call-IsStaged es s i _ _ v is_idle refl
Step-IsStaged l es {s} v (run i address th out at available ran) =
    let follows : Follows th out =
      subst (λ x. Yields x (Follows th)) ran (fine_step-Follows l i address s.mem th) in
    let (right, stage) = subst (λ (x : Thread). Follows x out) (sym at) follows in
    moved-IsStaged es s out.mem i out.thread out.event v right stage

Reach-IsStaged :
    {l : Ends} {m₀ : Memory} {es : List (ℕ × Event)} {s : System} → Reach l m₀ es s → IsStaged es s
Reach-IsStaged start = (tt, λ i. refl)
Reach-IsStaged {l} (later {events} r st) = Step-IsStaged l events (Reach-IsStaged r) st

-- In every reachable state, what each thread did and returned fits its calls.
pub Reach-Matched :
    {l : Ends} {m₀ : Memory} {es : List (ℕ × Event)} {s : System} → Reach l m₀ es s → Matched es
Reach-Matched r = (Reach-IsStaged r).0
