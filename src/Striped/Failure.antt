-- ===== src/Striped/Failure.antt =====
-- hash/StripedHash.c: what a `resize` without memory leaves.
use algorithm_collection.Common.{
  ℕ, ◌*◌, ◌%◌, ◌^◌, ◌<◌, ◌≡◌, inl, inr, refl, Bool, true, false, arith, ◌==◌, Run, ok, fault,
  is_some, sym, ◌∙◌, ap, subst, List, Bool-cases,
}
use native.Mathlib.Decide.{ℕ_discrete}
use algorithm_collection.Striped.{Memory, init_bucket, rebuild}
use algorithm_collection.Striped.Threads.{idle, Answer, resize_work, Outcome, Event, striped_step}
use algorithm_collection.Striped.Locks.{holds, IsFair}
use algorithm_collection.Striped.System.{System, Step, Reach}
use algorithm_collection.Striped.Exclusion.{
  IsOwned, moved, moved_self, moved_other, some-inj, out_stripe, moved-IsOwned, run-IsFair,
  Step-fair, Step-IsOwned, Reach-IsOwned,
}

-- Every lock is taken, and no thread is on its way to give one back.
abbrev pub IsStuck : ℕ → System → Type 0
IsStuck n s =
    (k : ℕ) → k < n → (is_some (s.mem.owner k) ≡ true) × ((j : ℕ) → holds n (s.thread j) k ≡ false)

-- The states from one on.
pub data Later (s : System) : System → Type 0 where
  now : Later s s
  next : {t u : System} {e : ℕ × Event} → Later s t → Step t e u → Later s u

module _ (n : ℕ) (s : System) (v : IsOwned n s) where
  -- A thread with all locks that goes idle and keeps them.
  pub held-IsStuck :
      (i : ℕ) (out : Outcome)
      → ((k : ℕ) → holds n (s.thread i) k ≡ true)
      → out.mem.owner ≡ s.mem.owner
      → out.thread ≡ idle
      → IsStuck n (moved s i out)
  held-IsStuck i out all owners to_idle k w =
      let mine = v.owned i k w (all k) in
      (
        rw (owners, mine) refl,
        λ j. elim (ℕ_discrete j i) [
          | yes e ↦ rw (moved_self s.thread i j out.thread e, to_idle) refl
          | no e ↦
              rw (moved_other s.thread i j out.thread e)
                (elim (Bool-cases (holds n (s.thread j) k)) [
                  | inl has ↦ absurd (e (some-inj (sym (v.owned j k w has) ∙ mine)))
                  | inr hasnt ↦ hasnt
                ])
        ],
      )

  moved-IsStuck :
      (i : ℕ) (out : Outcome)
      → IsFair i s.mem (s.thread i) out
      → IsStuck n s
      → IsStuck n (moved s i out)
  moved-IsStuck i out fair stuck k w =
      let (owned, none_holds) = stuck k w in
      elim (out_stripe n s v i out fair k w) [
        | inl (same, had) ↦ (
          rw same owned,
          λ j. elim (ℕ_discrete j i) [
            | yes e ↦
                rw (moved_self s.thread i j out.thread e)
                  (elim (Bool-cases (holds n out.thread k)) [
                    | inl has ↦ absurd (ground (arith, none_holds i, had has))
                    | inr hasnt ↦ hasnt
                  ])
            | no e ↦ rw (moved_other s.thread i j out.thread e) (none_holds j)
          ],
        )
        | inr (inl (free, took)) ↦ absurd (ground arith)
        | inr (inr (had, gave, hasnt)) ↦ absurd (ground (arith, none_holds i))
      ]

  pub Step-IsStuck : {e : ℕ × Event} {t : System} → Step s e t → IsStuck n s → IsStuck n t
  Step-IsStuck {t = t} st stuck =
      let (i, out, same, fair) = Step-fair n s v st in
      subst (IsStuck n) (sym same) (moved-IsStuck i out fair stuck)

Later-IsStuck :
    (n : ℕ) {s t : System} → IsOwned n s → IsStuck n s → Later s t → IsOwned n t × IsStuck n t
Later-IsStuck n v stuck now = (v, stuck)
Later-IsStuck n v stuck (next {t} l st) =
    let (v', stuck') = Later-IsStuck n v stuck l in
    (Step-IsOwned n t v' st, Step-IsStuck n t v' st stuck')

-- What such a `resize` leaves of the locks and of its thread.
failed_outcome :
    (i : ℕ) (calloc : ℕ → Bool) (m : Memory) (answer : Answer) (out : Outcome)
    → (init_bucket calloc (m.table_size * 2 % 2 ^ 32)).1 ≡ false
    → striped_step i calloc m (resize_work answer m.table_size) ≡ ok out
    → (out.mem.owner ≡ m.owner) × (out.thread ≡ idle)
unfolding striped_step rebuild
failed_outcome i calloc m answer out no_memory ran =
    let test : (m.table_size == m.table_size) ≡ true = ground arith in
    let same = sym (rw (test, no_memory) at ran) in
    (
      ap (λ (r : Run Outcome). elim r [ fault w ↦ m.owner | ok o ↦ o.mem.owner ]) same,
      ap (λ (r : Run Outcome). elim r [ fault w ↦ idle | ok o ↦ o.thread ]) same,
    )

-- Once a `resize` has found no memory for its array, it has returned with all locks taken: in every
-- later state each of them is still taken, and no thread is on its way to give one back.
pub resize_failed-IsStuck :
    (m₀ : Memory) {es : List (ℕ × Event)} {s u : System} (i : ℕ) (calloc : ℕ → Bool)
    (answer : Answer) (out : Outcome)
    → 0 < m₀.lock_size
    → Reach m₀ es s
    → s.thread i ≡ resize_work answer s.mem.table_size
    → (init_bucket calloc (s.mem.table_size * 2 % 2 ^ 32)).1 ≡ false
    → striped_step i calloc s.mem (resize_work answer s.mem.table_size) ≡ ok out
    → Later (moved s i out) u
    → IsStuck m₀.lock_size u
resize_failed-IsStuck m₀ {s = s} i calloc answer out h r at no_memory ran l =
    let n : ℕ = m₀.lock_size in
    let v = Reach-IsOwned m₀ h r in
    let fair = run-IsFair n s v i calloc _ out at ran in
    (Later-IsStuck n (moved-IsOwned n s v i out fair) stuck l).1
  where
    stuck : IsStuck m₀.lock_size (moved s i out)
    stuck =
        let (owners, to_idle) = failed_outcome i calloc s.mem answer out no_memory ran in
        held-IsStuck m₀.lock_size s (Reach-IsOwned m₀ h r) i out (λ k. rw at refl) owners to_idle
