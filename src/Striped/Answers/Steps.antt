-- ===== src/Striped/Answers/Steps.antt =====
-- hash/StripedHash.c: in every reachable state, what each thread did and returned fits its calls.
use algorithm_collection.Common.{
  ℕ, zero, suc, ◌≡◌, inl, inr, refl, Bool, true, false, List, ◌∷◌, arith, ltb, ◌==◌, sym,
  Bool-cases, Option-cases, subst, Yields, Run-cases, pos,
}
use native.Mathlib.Decide.{ℕ_discrete}
use algorithm_collection.Hash.Chain
use algorithm_collection.Hash.Table
use algorithm_collection.Striped.{Memory, lock_key, rebuild, hash_code, policy}
use algorithm_collection.Striped.Threads.{
  key_of, Op, adding, deleting, finding, Answer, Thread, idle, read_size, read_hash, lock_bucket,
  work, read_count, write_count, unlock_done, unlock_missed, policy_count, policy_size, resize_size,
  resize_lock, resize_work, resize_unlock, resize_free, Event, called, Outcome, outcome, again,
  finish, attempt, striped_step,
}
use algorithm_collection.Striped.System.{
  System, with_thread, Step, call_add, call_delete, call_find, run, Reach, start, later,
}
use algorithm_collection.Striped.Answers.{
  Stage, wanted, next_stage, stage_after, IsDue, Matched, IsMissed, IsAsked, Stands, Follows,
}

finish-Follows :
    (m : Memory) (op : Op) (answer : Answer) (stage : Stage)
    → IsDue stage answer
    → Follows stage (outcome m (finish op answer).0 (finish op answer).1)
finish-Follows m (adding key val) answer stage due = (tt, due)
finish-Follows m (deleting key) answer stage due = (due, refl)
finish-Follows m (finding key) answer stage due = (due, refl)

again-Follows :
    (m : Memory) (op : Op) (retry : ℕ) (stage : Stage)
    → IsMissed op stage
    → Follows stage (outcome m (again op retry).0 (again op retry).1)
again-Follows m (adding key val) zero stage in_vain = (tt, rw in_vain refl)
again-Follows m (deleting key) zero stage in_vain = (rw in_vain refl, refl)
again-Follows m (finding key) zero stage in_vain = absurd in_vain
again-Follows m (adding key val) (suc retry) stage in_vain = (tt, rw in_vain refl)
again-Follows m (deleting key) (suc retry) stage in_vain = (tt, rw in_vain refl)
again-Follows m (finding key) (suc retry) stage in_vain = absurd in_vain

attempt-Follows :
    (answers : Bool) (m : Memory) (op : Op) (retry size hash : ℕ) (stage : Stage)
    → IsAsked op stage
    → Yields (attempt answers m op retry size hash) (Follows stage)
unfolding attempt
attempt-Follows answers m (adding key val) retry size hash stage asked =
    elim (Bool-cases (size == m.table_size)) [
      | inl e ↦ elim (Bool-cases answers) [
        | inr no_node ↦ rw (e, no_node) (asked, refl)
        | inl node ↦ elim (Run-cases (Table.bucket_at m.bucket hash)) [
          | inl (w, broken) ↦ rw (e, node, broken) tt
          | inr (c, read) ↦ elim (Bool-cases (Chain.add_node true c (pos key) val).1) [
            | inl new ↦ rw (e, node, read, new) (asked, refl)
            | inr old ↦ rw (e, node, read, old) (asked, refl)
          ]
        ]
      ]
      | inr e ↦ rw e (asked, refl)
    ]
attempt-Follows answers m (deleting key) retry size hash stage asked =
    elim (Bool-cases (size == m.table_size)) [
      | inl e ↦ elim (Run-cases (Table.bucket_at m.bucket hash)) [
        | inl (w, broken) ↦ rw (e, broken) tt
        | inr (c, read) ↦ elim (Run-cases (Chain.delete_node c (pos key))) [
          | inl (w, broken) ↦ rw (e, read, broken) tt
          | inr (r, cut) ↦ elim (Option-cases r.1) [
            | inl miss ↦ rw (e, read, cut, miss) (asked, refl)
            | inr (v, hit) ↦ rw (e, read, cut, hit) (asked, refl)
          ]
        ]
      ]
      | inr e ↦ rw e (asked, refl)
    ]
attempt-Follows answers m (finding key) retry size hash stage asked =
    elim (Run-cases (Table.bucket_at m.bucket hash)) [
      | inl (w, broken) ↦ rw broken tt
      | inr (c, read) ↦ rw read (asked, refl)
    ]

striped_step-Follows :
    (i : ℕ) (calloc : ℕ → Bool) (m : Memory) (th : Thread) (stage : Stage)
    → Stands th stage
    → Yields (striped_step i calloc m th) (Follows stage)
unfolding striped_step
striped_step-Follows i calloc m idle stage p = (tt, p)
striped_step-Follows i calloc m (read_size op retry) stage p = (tt, p)
striped_step-Follows i calloc m (read_hash op retry size) stage p =
    elim (Run-cases (hash_code (pos (key_of op)) m.table_size)) [
      | inl (w, broken) ↦ rw broken tt
      | inr (hash, ran) ↦ rw ran (tt, p)
    ]
striped_step-Follows i calloc m (lock_bucket op retry size hash) stage p =
    elim (Run-cases (lock_key m.lock_size hash)) [
      | inl (w, broken) ↦ rw broken tt
      | inr (k, ran) ↦ elim (Option-cases (m.owner k)) [
        | inl unlocked ↦ rw (ran, unlocked) (tt, p)
        | inr (j, locked) ↦ rw (ran, locked) (tt, p)
      ]
    ]
striped_step-Follows i calloc m (work op retry size hash) stage p =
    attempt-Follows (calloc 0) m op retry size hash stage p
striped_step-Follows i calloc m (read_count op hash answer) stage p = (tt, p)
striped_step-Follows i calloc m (write_count op hash count answer) stage p = (tt, p)
striped_step-Follows i calloc m (unlock_done op hash answer) stage p =
    elim (Run-cases (lock_key m.lock_size hash)) [
      | inl (w, broken) ↦ rw broken tt
      | inr (k, ran) ↦ rw ran (finish-Follows m op answer stage p)
    ]
striped_step-Follows i calloc m (unlock_missed op retry hash) stage p =
    elim (Run-cases (lock_key m.lock_size hash)) [
      | inl (w, broken) ↦ rw broken tt
      | inr (k, ran) ↦ rw ran (again-Follows m op retry stage p)
    ]
striped_step-Follows i calloc m (policy_count answer) stage p = (tt, p)
striped_step-Follows i calloc m (policy_size answer count) stage p =
    elim (Run-cases (policy count m.table_size)) [
      | inl (w, broken) ↦ rw broken tt
      | inr (true, ran) ↦ rw ran (tt, p)
      | inr (false, ran) ↦ rw ran (p, refl)
    ]
striped_step-Follows i calloc m (resize_size answer) stage p = (tt, p)
striped_step-Follows i calloc m (resize_lock answer size next) stage p =
    elim (Bool-cases (ltb next m.lock_size)) [
      | inl e ↦ elim (Option-cases (m.owner next)) [
        | inl unlocked ↦ rw (e, unlocked) (tt, p)
        | inr (j, locked) ↦ rw (e, locked) (tt, p)
      ]
      | inr e ↦ rw e (tt, p)
    ]
striped_step-Follows i calloc m (resize_work answer size) stage p =
    elim (Bool-cases (size == m.table_size)) [
      | inr e ↦ rw e (tt, p)
      | inl e ↦ elim (Run-cases (rebuild calloc m)) [
        | inl (w, broken) ↦ rw (e, broken) tt
        | inr ((m', true), ran) ↦ rw (e, ran) (tt, p)
        | inr ((m', false), ran) ↦ rw (e, ran) (p, refl)
      ]
    ]
striped_step-Follows i calloc m (resize_unlock answer next moved) stage p =
    elim (Bool-cases (ltb next m.lock_size)) [
      | inl e ↦ rw e (tt, p)
      | inr e ↦ elim (Bool-cases moved) [ inl f ↦ rw (e, f) (tt, p) | inr f ↦ rw (e, f) (p, refl) ]
    ]
striped_step-Follows i calloc m (resize_free answer) stage p = (p, refl)

-- Every thread stands where its events say.
abbrev IsStaged : List (ℕ × Event) → System → Type 0
IsStaged es s = Matched es × ((i : ℕ) → Stands (s.thread i) (stage_after i es))

moved-IsStaged :
    (es : List (ℕ × Event)) (s : System) (i : ℕ) (out : Outcome)
    → IsStaged es s
    → Follows (stage_after i es) out
    → IsStaged
        ((i, out.event) ∷ es)
        (record { mem = out.mem; thread = with_thread s.thread i out.thread })
moved-IsStaged es s i out (matched, stands) (right, place) = (
  (right, matched),
  λ j. elim (ℕ_discrete j i) [
    | yes q ↦
        let here : (j == i) ≡ true = ground arith in
        rw here (
          subst (λ (k : ℕ). Stands out.thread (next_stage (stage_after k es) out.event)) (sym q)
            place)
    | no q ↦ let other : (j == i) ≡ false = ground arith in rw other (stands j)
  ],
)

-- A call of an idle thread.
call-IsStaged :
    (es : List (ℕ × Event)) (s : System) (i : ℕ) (th : Thread) (op : Op)
    → IsStaged es s
    → s.thread i ≡ idle
    → Stands th (wanted op)
    → IsStaged ((i, called op) ∷ es) (record s { thread = with_thread s.thread i th })
call-IsStaged es s i th op v is_idle place =
    moved-IsStaged es s i (outcome s.mem th (called op)) v
      (subst (λ (x : Thread). Stands x (stage_after i es)) is_idle (v.1 i), place)

Step-IsStaged :
    (es : List (ℕ × Event)) {s t : System} {e : ℕ × Event}
    → IsStaged es s
    → Step s e t
    → IsStaged (e ∷ es) t
Step-IsStaged es {s} v (call_add i key val is_idle) = call-IsStaged es s i _ _ v is_idle refl
Step-IsStaged es {s} v (call_delete i key is_idle) = call-IsStaged es s i _ _ v is_idle refl
Step-IsStaged es {s} v (call_find i key is_idle) = call-IsStaged es s i _ _ v is_idle refl
Step-IsStaged es {s} v (run i calloc th out small at ran) =
    let stage : Stage = stage_after i es in
    let stands : Stands th stage = subst (λ (x : Thread). Stands x stage) at (v.1 i) in
    moved-IsStaged es s i out v (
      subst (λ x. Yields x (Follows stage)) ran
        (striped_step-Follows i calloc s.mem th stage stands))

Reach-IsStaged : {m₀ : Memory} {es : List (ℕ × Event)} {s : System} → Reach m₀ es s → IsStaged es s
Reach-IsStaged start = (tt, λ i. refl)
Reach-IsStaged (later {events} r st) = Step-IsStaged events (Reach-IsStaged r) st

-- What each thread returns is due.
pub Reach-Matched : {m₀ : Memory} {es : List (ℕ × Event)} {s : System} → Reach m₀ es s → Matched es
Reach-Matched r = (Reach-IsStaged r).0
