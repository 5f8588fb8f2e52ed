-- ===== src/Striped/Exclusion.antt =====
-- hash/StripedHash.c: no two threads have the same lock.
use algorithm_collection.Common.{
  ℕ, ◌<◌, ◌≡◌, ◌≢◌, inl, inr, refl, Bool, true, false, some, arith, ◌==◌, ok, Yields, sym, ◌∙◌, ap,
  subst, List,
}
use native.Mathlib.Decide.{ℕ_discrete}
use algorithm_collection.Striped.{Memory}
use algorithm_collection.Striped.Threads.{
  Thread, idle, read_size, read_hash, adding, deleting, finding, Op, Outcome, outcome, called,
  Event, striped_step,
}
use algorithm_collection.Striped.Locks.{holds, Fair, IsFair}
use algorithm_collection.Striped.Fairness.{still, striped_step-IsFair}
use algorithm_collection.Striped.System.{
  System, with_thread, Step, call_add, call_delete, call_find, run, Reach, start, later,
}

-- The lock `k` belongs to each thread that is between its `lock` and its `unlock`.
pub record IsOwned (n : ℕ) (s : System) : Type 0 where
  pub positive : 0 < n
  pub locks : s.mem.lock_size ≡ n
  pub owned : (j k : ℕ) → k < n → holds n (s.thread j) k ≡ true → s.mem.owner k ≡ some j

-- The system after a step of thread `i`.
abbrev pub moved : System → ℕ → Outcome → System
moved s i out = record { mem = out.mem; thread = with_thread s.thread i out.thread }

pub moved_self : (f : ℕ → Thread) (i j : ℕ) (th : Thread) → j ≡ i → with_thread f i th j ≡ th
moved_self f i j th e = let test : (j == i) ≡ true = ground arith in rw test

pub moved_other : (f : ℕ → Thread) (i j : ℕ) (th : Thread) → j ≢ i → with_thread f i th j ≡ f j
moved_other f i j th e = let test : (j == i) ≡ false = ground arith in rw test

pub some-inj : {a b : ℕ} → some a ≡ some b → a ≡ b
some-inj e = cc e

module _ (n : ℕ) (s : System) (v : IsOwned n s) where
  pub out_stripe :
      (i : ℕ) (out : Outcome)
      → IsFair i s.mem (s.thread i) out
      → (k : ℕ) → k < n
      → Fair i (s.mem.owner k) (holds n (s.thread i) k) (out.mem.owner k) (holds n out.thread k)
  out_stripe i out fair k w =
      subst
        (λ n'.
          Fair i (s.mem.owner k) (holds n' (s.thread i) k) (out.mem.owner k)
            (holds n' out.thread k))
        v.locks (fair.stripe k (omega (arith, v.locks)))

  pub moved-IsOwned :
      (i : ℕ) (out : Outcome) → IsFair i s.mem (s.thread i) out → IsOwned n (moved s i out)
  moved-IsOwned i out fair = record {
    positive = v.positive;
    locks = fair.locks ∙ v.locks;
    owned = λ j k w. elim (ℕ_discrete j i) [
      | yes e ↦ rw (moved_self s.thread i j out.thread e) (λ has. elim (out_stripe i out fair k w) [
        | inl (same, had) ↦ same ∙ v.owned i k w (had has) ∙ ap some (sym e)
        | inr (inl (free, took)) ↦ took ∙ ap some (sym e)
        | inr (inr (had, gave, hasnt)) ↦ absurd (ground arith)
      ])
      | no e ↦ rw (moved_other s.thread i j out.thread e) (λ has. elim (out_stripe i out fair k w) [
        | inl (same, had) ↦ same ∙ v.owned j k w has
        | inr (inl (free, took)) ↦ absurd (ground (arith, v.owned j k w has))
        | inr (inr (had, gave, hasnt)) ↦
            absurd (e (some-inj (sym (v.owned j k w has) ∙ v.owned i k w had)))
      ])
    ];
  }

  call-IsFair :
      (i : ℕ) (th : Thread) (op : Op)
      → s.thread i ≡ idle
      → ((k : ℕ) → holds s.mem.lock_size th k ≡ false)
      → IsFair i s.mem (s.thread i) (outcome s.mem th (called op))
  call-IsFair i th op is_idle h =
      rw is_idle (
        still i s.mem idle th s.mem (called op) refl refl (λ k w has. absurd (ground (arith, h k))))

  pub run-IsFair :
      (i : ℕ) (calloc : ℕ → Bool) (th : Thread) (out : Outcome)
      → s.thread i ≡ th
      → striped_step i calloc s.mem th ≡ ok out
      → IsFair i s.mem (s.thread i) out
  run-IsFair i calloc th out at ran = rw at (
      subst (λ r. Yields r (IsFair i s.mem th)) ran
        (striped_step-IsFair i s.mem calloc th (omega (arith, v.positive, v.locks))))

  pub Step-fair :
      {e : ℕ × Event} {t : System}
      → Step s e t
      → (i : ℕ) × (out : Outcome) × (t ≡ moved s i out) × IsFair i s.mem (s.thread i) out
  Step-fair (call_add i key val is_idle) = (
    i,
    outcome s.mem (read_size (adding key val) 2) (called (adding key val)),
    refl,
    call-IsFair i _ _ is_idle (λ k. refl),
  )
  Step-fair (call_delete i key is_idle) = (
    i,
    outcome s.mem (read_size (deleting key) 2) (called (deleting key)),
    refl,
    call-IsFair i _ _ is_idle (λ k. refl),
  )
  Step-fair (call_find i key is_idle) = (
    i,
    outcome s.mem (read_hash (finding key) 0 0) (called (finding key)),
    refl,
    call-IsFair i _ _ is_idle (λ k. refl),
  )
  Step-fair (run i calloc th out small at ran) = (i, out, refl, run-IsFair i calloc th out at ran)

  pub Step-IsOwned : {e : ℕ × Event} {t : System} → Step s e t → IsOwned n t
  Step-IsOwned {t = t} st =
      let (i, out, same, fair) = Step-fair st in
      subst (IsOwned n) (sym same) (moved-IsOwned i out fair)

pub Reach-IsOwned :
    (m₀ : Memory) {es : List (ℕ × Event)} {s : System}
    → 0 < m₀.lock_size
    → Reach m₀ es s
    → IsOwned m₀.lock_size s
Reach-IsOwned m₀ h start = record {
  positive = h;
  locks = refl;
  owned = λ j k w has. absurd (ground arith);
}
Reach-IsOwned m₀ h (later {s = s} r st) = Step-IsOwned m₀.lock_size s (Reach-IsOwned m₀ h r) st

-- In every state that threads reach from a table with at least one lock, a lock is between the
-- `lock` and the `unlock` of one thread at most. So no two threads work on buckets of one lock at
-- once, and while a thread moves the nodes in `resize`, no other is at work on any bucket.
pub lock_exclusive :
    (m₀ : Memory) {es : List (ℕ × Event)} {s : System} (i j k : ℕ)
    → 0 < m₀.lock_size
    → Reach m₀ es s
    → k < m₀.lock_size
    → holds m₀.lock_size (s.thread i) k ≡ true
    → holds m₀.lock_size (s.thread j) k ≡ true
    → i ≡ j
lock_exclusive m₀ i j k h r w has has' =
    let v = Reach-IsOwned m₀ h r in some-inj (sym (v.owned i k w has) ∙ v.owned j k w has')
