-- ===== src/Striped/Refinement.antt =====
-- hash/StripedHash.c: any number of threads, seen as one map from keys to values.
use algorithm_collection.Common.{
  some_if-inv, ℕ, ◌^◌, ◌≤◌, ◌<◌, ◌≡◌, ◌⊎◌, inl, inr, refl, Bool, true, ◌&&◌, some, arith, Yields,
  sym, subst, List, [], ◌∷◌, ℤ,
}
use native.Mathlib.Decide.{ℕ_discrete}
use algorithm_collection.Hash.Table.Moves.{IsTable}
use algorithm_collection.Hash.Table.Doubling.{init_bucket-eq, replicate-IsTable, view-replicate}
use algorithm_collection.Striped.{Memory, init_bucket, init_hashtable}
use algorithm_collection.Striped.Locks.{holds}
use algorithm_collection.Striped.Contents.{IsHashed, Place, contents, Effect}
use algorithm_collection.Striped.Steps.{Result, striped_step-Result}
use algorithm_collection.Striped.Exclusion.{
  IsOwned, moved, moved_self, moved_other, Step-IsOwned, Reach-IsOwned,
}
use algorithm_collection.Striped.Failure.{IsStuck, Step-IsStuck, held-IsStuck}
use algorithm_collection.Striped.Accounts.{value_after, IsTruthful, account}
use algorithm_collection.Striped.Answers.{Matched}
use algorithm_collection.Striped.Answers.Steps.{Reach-Matched}
use algorithm_collection.Striped.System.{
  System, Step, call_add, call_delete, call_find, run, Reach, start, later,
}
use algorithm_collection.Striped.Threads.{
  Thread, idle, read_size, read_hash, lock_bucket, work, read_count, write_count, unlock_done,
  unlock_missed, policy_count, policy_size, resize_size, resize_lock, resize_work, resize_unlock,
  resize_free, Op, Event, called, Outcome, outcome,
}

-- The table is well formed, and its contents are what the events leave.
pub record IsSound (es : List (ℕ × Event)) (s : System) : Type 0 where
  pub table : IsTable s.mem.table_size s.mem.bucket
  pub reads : (q : ℤ) → contents s.mem q ≡ value_after es q
  pub places : (i : ℕ) → Place s.mem (s.thread i)
  pub truthful : IsTruthful es

-- Sizes only grow.
IsHashed-grown :
    (n n' : ℕ) (op : _) (size hash : ℕ)
    → n ≤ n'
    → IsHashed n op size hash
    → IsHashed n' op size hash
IsHashed-grown n n' op size hash h p = record {
  n = p.n;
  hashed = p.hashed;
  some_buckets = p.some_buckets;
  after = p.after;
  before = omega (arith, h, p.before);
}

Place-grown :
    (m m' : Memory) (th : Thread) → m.table_size ≤ m'.table_size → Place m th → Place m' th
Place-grown m m' idle h p = tt
Place-grown m m' (read_size op retry) h p = tt
Place-grown m m' (read_hash op retry size) h p = omega arith
Place-grown m m' (lock_bucket op retry size hash) h p = IsHashed-grown _ _ op size hash h p
Place-grown m m' (work op retry size hash) h p = IsHashed-grown _ _ op size hash h p
Place-grown m m' (read_count op hash answer) h p = tt
Place-grown m m' (write_count op hash count answer) h p = tt
Place-grown m m' (unlock_done op hash answer) h p = tt
Place-grown m m' (unlock_missed op retry hash) h p = tt
Place-grown m m' (policy_count answer) h p = tt
Place-grown m m' (policy_size answer count) h p = tt
Place-grown m m' (resize_size answer) h p = tt
Place-grown m m' (resize_lock answer size next) h p = tt
Place-grown m m' (resize_work answer size) h p = tt
Place-grown m m' (resize_unlock answer next moved) h p = tt
Place-grown m m' (resize_free answer) h p = tt

moved-IsSound :
    (es : List (ℕ × Event)) (s : System) (i : ℕ) (out : Outcome)
    → IsSound es s
    → Effect s.mem out
    → IsSound ((i, out.event) ∷ es) (moved s i out)
moved-IsSound es s i out v f =
    let (reads, truthful) =
      account (i, out.event) es (contents s.mem) (contents out.mem) f.change v.reads v.truthful in
    record {
      table = f.table;
      reads = reads;
      truthful = truthful;
      places = λ j. elim (ℕ_discrete j i) [
        | yes e ↦ rw (moved_self s.thread i j out.thread e) f.place
        | no e ↦
            rw (moved_other s.thread i j out.thread e)
              (Place-grown s.mem out.mem (s.thread j) f.grown (v.places j))
      ];
    }

call-IsSound :
    (es : List (ℕ × Event)) (s : System) (i : ℕ) (th : Thread) (op : Op)
    → IsSound es s
    → Place s.mem th
    → IsSound ((i, called op) ∷ es) (moved s i (outcome s.mem th (called op)))
call-IsSound es s i th op v p =
    moved-IsSound es s i (outcome s.mem th (called op)) v
      (record { table = v.table; grown = omega arith; place = p; change = λ q. refl })

Step-account :
    (n : ℕ) (es : List (ℕ × Event)) {s t : System} {e : ℕ × Event}
    → IsOwned n s
    → IsSound es s
    → Step s e t
    → IsStuck n t ⊎ IsSound (e ∷ es) t
Step-account n es {s} o v (call_add i key val is_idle) = inr (call-IsSound es s i _ _ v tt)
Step-account n es {s} o v (call_delete i key is_idle) = inr (call-IsSound es s i _ _ v tt)
Step-account n es {s} o v (call_find i key is_idle) = inr (call-IsSound es s i _ _ v (omega arith))
Step-account n es {s} o v (run i calloc th out small at ran) =
    elim (subst (λ r. Yields r (Result i calloc s.mem v.table small th)) ran
      (striped_step-Result i calloc s.mem v.table small th (subst (Place s.mem) at (v.places i)))) [
        | inl effect ↦ inr (moved-IsSound es s i out v effect)
        | inr broke ↦ inl (
            held-IsStuck n s o i out
              (λ k.
                subst (λ (th' : Thread). holds n th' k ≡ true) (sym at)
                  (subst (λ n'. holds n' th k ≡ true) o.locks (broke.all k)))
              broke.owners broke.to_idle)
      ]

Reach-account :
    (m₀ : Memory) {es : List (ℕ × Event)} {s : System}
    → 0 < m₀.lock_size
    → IsSound [] (record { mem = m₀; thread = λ i. idle })
    → Reach m₀ es s
    → IsOwned m₀.lock_size s × (IsStuck m₀.lock_size s ⊎ IsSound es s)
Reach-account m₀ h v start = (Reach-IsOwned m₀ h start, inr v)
Reach-account m₀ h v (later {events} {s} r st) =
    let (o, either) = Reach-account m₀ h v r in
    (
      Step-IsOwned m₀.lock_size s o st,
      elim either [
        | inl stuck ↦ inl (Step-IsStuck m₀.lock_size s o st stuck)
        | inr sound ↦ Step-account m₀.lock_size events o sound st
      ],
    )

first-IsSound :
    (calloc : ℕ → Bool) (n : ℕ) (m₀ : Memory)
    → 0 < n
    → n < 2 ^ 32
    → init_hashtable true calloc true n ≡ some m₀
    → (m₀.lock_size ≡ n) × IsSound [] (record { mem = m₀; thread = λ i. idle })
unfolding init_hashtable
first-IsSound calloc n m₀ h w e =
    let (made, same) = some_if-inv (true && (init_bucket calloc n).1 && true) _ e in
    let there : (init_bucket calloc n).1 ≡ true = ground arith in
    subst (λ (m : Memory). (m.lock_size ≡ n) × IsSound [] (record { mem = m; thread = λ i. idle }))
      same
      (
        refl,
        record {
          table = rw (init_bucket-eq calloc n there) (replicate-IsTable n h w);
          reads = λ q. rw (init_bucket-eq calloc n there) (view-replicate n n q);
          places = λ i. tt;
          truthful = tt;
        },
      )

-- From a new table of at least one bucket and fewer than 2 ^ 32, in every state that threads reach
-- with no fault and fewer than 2 ^ 31 buckets, each thread, between a call and its return, inserts,
-- removes or looks up the key that it was called with, once, and returns what came of it, or false
-- after attempts of `add` or `delete` that did nothing. Unless all locks are taken for good, the
-- table is well formed; each key has the value that the insertions and removals leave, in the order
-- in which threads made them under their locks; only absent keys were inserted, each key was
-- removed with its value, `find` found a key exactly when it was there and its bucket number was
-- that of the key for the size of the table then; and in each attempt that did nothing, the size
-- had changed, or `add` had no memory or found the key there, or `delete` found no such key.
pub contents-value_after :
    (calloc : ℕ → Bool) (n : ℕ) (m₀ : Memory) {es : List (ℕ × Event)} {s : System}
    → 0 < n
    → n < 2 ^ 32
    → init_hashtable true calloc true n ≡ some m₀
    → Reach m₀ es s
    → Matched es
      × (IsStuck n s
          ⊎ (IsTable s.mem.table_size s.mem.bucket
              × ((q : ℤ) → contents s.mem q ≡ value_after es q)
              × IsTruthful es))
contents-value_after calloc n m₀ {s = s} h w e r =
    let (locks, first) = first-IsSound calloc n m₀ h w e in
    (
      Reach-Matched r,
      elim (Reach-account m₀ (omega (arith, locks)) first r).1 [
        | inl stuck ↦ inl (subst (λ k. IsStuck k s) locks stuck)
        | inr v ↦ inr (v.table, v.reads, v.truthful)
      ],
    )
