-- ===== src/Striped/Steps.antt =====
-- hash/StripedHash.c: the effect of each step of a thread on the contents, `resize` included.
use algorithm_collection.Common.{
  ℕ, zero, suc, ◌*◌, ◌%◌, ◌^◌, ◌<◌, ◌≡◌, ◌⊎◌, inl, inr, refl, Bool, true, false, Option, none, some,
  arith, ltb, ◌==◌, Run, ok, fault, Yields, Run-cases, ◌∙◌, [], ℤ, Bool-cases, Option-cases,
  replicate,
}
use algorithm_collection.Hash.Table
use algorithm_collection.Hash.Table.{Buckets}
use algorithm_collection.Hash.Table.Buckets.{hash_code-home}
use algorithm_collection.Hash.Table.Moves.{IsTable}
use algorithm_collection.Hash.Table.Resize.{lookup_all-view, move_buckets-Carried}
use algorithm_collection.Hash.Table.Doubling.{init_bucket-eq, replicate-IsTable, view-replicate}
use algorithm_collection.Striped.{Memory, init_bucket, rebuild, lock_key, policy}
use algorithm_collection.Striped.Locks.{holds}
use algorithm_collection.Striped.Contents.{IsHashed, Place, Change, contents, Effect}
use algorithm_collection.Striped.Attempts.{add-Effect, delete-Effect, find-Effect}
use algorithm_collection.Striped.Threads.{
  give, key_of, Op, adding, deleting, finding, Answer, Thread, idle, read_size, read_hash,
  lock_bucket, work, read_count, write_count, unlock_done, unlock_missed, policy_count, policy_size,
  resize_size, resize_lock, resize_work, resize_unlock, resize_free, Event, silent, Outcome,
  outcome, attempt, again, finish, striped_step,
}

-- A `resize` that has found no memory: its thread had all locks, and returns with them.
pub record Broke (m : Memory) (th : Thread) (out : Outcome) : Type 0 where
  pub all : (k : ℕ) → holds m.lock_size th k ≡ true
  pub owners : out.mem.owner ≡ m.owner
  pub locks : out.mem.lock_size ≡ m.lock_size
  pub to_idle : out.thread ≡ idle

abbrev Calm : Event → Type 0
Calm e = (f : ℤ → Option ℤ) → Change e f f

finish-Calm :
    (op : Op) (answer : Answer) (m : Memory)
    → Place m (finish op answer).0 × Calm (finish op answer).1
finish-Calm (adding key val) answer m = (tt, λ f q. refl)
finish-Calm (deleting key) answer m = (tt, λ f q. refl)
finish-Calm (finding key) answer m = (tt, λ f q. refl)

again-Calm :
    (op : Op) (retry : ℕ) (m : Memory) → Place m (again op retry).0 × Calm (again op retry).1
again-Calm (adding key val) zero m = (tt, λ f q. refl)
again-Calm (deleting key) zero m = (tt, λ f q. refl)
again-Calm (finding key) zero m = (tt, λ f q. refl)
again-Calm (adding key val) (suc retry) m = (tt, λ f q. refl)
again-Calm (deleting key) (suc retry) m = (tt, λ f q. refl)
again-Calm (finding key) (suc retry) m = (tt, λ f q. refl)

module _ (i : ℕ) (calloc : ℕ → Bool) (m : Memory) (t : IsTable m.table_size m.bucket)
    (small : m.table_size * 2 < 2 ^ 32) where
  -- What a step comes to.
  abbrev pub Result : Thread → Outcome → Type 0
  Result th out = Effect m out ⊎ Broke m th out

  -- A step that leaves the buckets alone.
  calm :
      (th th' : Thread) (m' : Memory) (e : Event)
      → m'.bucket ≡ m.bucket
      → m'.table_size ≡ m.table_size
      → Place m' th'
      → Calm e
      → Result th (outcome m' th' e)
  calm th th' m' e b n place quiet = inl (record {
    table = rw (b, n) t;
    grown = omega (arith, n);
    place = place;
    change = rw (b, n) (quiet (contents m));
  })

  -- A step that shows nothing.
  hush :
      (th th' : Thread) (m' : Memory)
      → m'.bucket ≡ m.bucket
      → m'.table_size ≡ m.table_size
      → Place m' th'
      → Result th (outcome m' th' silent)
  hush th th' m' b n place = calm th th' m' silent b n place (λ f q. refl)

  -- `resize`, as far as the memory that it gets goes.
  rebuild-Result :
      (answer : Answer)
      → Yields (rebuild calloc m) (λ r.
        (r.1 ≡ true → Effect m (outcome r.0 (resize_unlock answer 0 true) silent))
        × (r.0.owner ≡ m.owner)
        × (r.0.lock_size ≡ m.lock_size))
  unfolding rebuild
  rebuild-Result answer =
      let n : ℕ = m.table_size * 2 in
      let fits : n % 2 ^ 32 ≡ n = omega arith in
      elim (Bool-cases (init_bucket calloc n).1) [
        | inr no_memory ↦ rw (fits, no_memory) (λ yes. absurd (ground arith), refl, refl)
        | inl there ↦
            let fresh = replicate-IsTable n (omega (arith, t.positive)) small in
            let (bs, ran, r) =
              move_buckets-Carried n m.table_size 0 m.bucket (replicate n (some [])) fresh t.placed
                (λ q. rw (view-replicate n n q)) in
            let ran' : Table.move_buckets n m.table_size m.bucket (replicate n (some [])) ≡ ok bs =
              rw t.width at ran in
            rw (fits, there, init_bucket-eq calloc n there, ran')
              (
                λ yes. record {
                  table = r.table;
                  grown = omega arith;
                  place = tt;
                  change = λ q.
                      r.reads q
                      ∙ rw (view-replicate n n q)
                          (lookup_all-view m.table_size q m.bucket t.placed);
                },
                refl,
                refl,
              )
      ]

  work-Result :
      (op : Op) (retry size hash : ℕ)
      → IsHashed m.table_size op size hash
      → Yields (attempt (calloc 0) m op retry size hash) (Effect m)
  work-Result (adding key val) retry size hash h =
      add-Effect m t (calloc 0) key val retry size hash h
  work-Result (deleting key) retry size hash h = delete-Effect m t (calloc 0) key retry size hash h
  work-Result (finding key) retry size hash h = find-Effect m t (calloc 0) key retry size hash h

  inl-Yields : (th : Thread) (r : Run Outcome) → Yields r (Effect m) → Yields r (Result th)
  inl-Yields th (fault w) y = tt
  inl-Yields th (ok out) y = inl y

  pub striped_step-Result :
      (th : Thread) → Place m th → Yields (striped_step i calloc m th) (Result th)
  unfolding striped_step
  striped_step-Result idle p = hush _ _ _ refl refl tt
  striped_step-Result (read_size op retry) p = hush _ _ _ refl refl (omega arith)
  striped_step-Result (read_hash op retry size) p =
      rw (hash_code-home (key_of op) m.table_size t.positive t.narrow) (
        hush _ _ _ refl refl (record {
          n = m.table_size;
          hashed = refl;
          some_buckets = t.positive;
          after = p;
          before = omega arith;
        }))
  striped_step-Result (lock_bucket op retry size hash) p =
      elim (Run-cases (lock_key m.lock_size hash)) [
        | inl (w, broken) ↦ rw broken tt
        | inr (k, ran) ↦ elim (Option-cases (m.owner k)) [
          | inl free ↦ rw (ran, free) (hush _ _ _ refl refl p)
          | inr (j, locked) ↦ rw (ran, locked) (hush _ _ _ refl refl p)
        ]
      ]
  striped_step-Result (work op retry size hash) p =
      inl-Yields _ _ (work-Result op retry size hash p)
  striped_step-Result (read_count op hash answer) p = hush _ _ _ refl refl tt
  striped_step-Result (write_count op hash count answer) p = hush _ _ _ refl refl tt
  striped_step-Result (unlock_done op hash answer) p =
      elim (Run-cases (lock_key m.lock_size hash)) [
        | inl (w, broken) ↦ rw broken tt
        | inr (k, ran) ↦ rw ran (
            calm _ _ _ _ refl refl (finish-Calm op answer (give m k none)).0
              (finish-Calm op answer m).1)
      ]
  striped_step-Result (unlock_missed op retry hash) p =
      elim (Run-cases (lock_key m.lock_size hash)) [
        | inl (w, broken) ↦ rw broken tt
        | inr (k, ran) ↦ rw ran (
            calm _ _ _ _ refl refl (again-Calm op retry (give m k none)).0
              (again-Calm op retry m).1)
      ]
  striped_step-Result (policy_count answer) p = hush _ _ _ refl refl tt
  striped_step-Result (policy_size answer count) p = elim (Run-cases (policy count m.table_size)) [
    | inl (w, broken) ↦ rw broken tt
    | inr (true, ran) ↦ rw ran (hush _ _ _ refl refl tt)
    | inr (false, ran) ↦ rw ran (calm _ _ _ _ refl refl tt (λ f q. refl))
  ]
  striped_step-Result (resize_size answer) p = hush _ _ _ refl refl tt
  striped_step-Result (resize_lock answer size next) p = elim (Bool-cases (ltb next m.lock_size)) [
    | inl e ↦ elim (Option-cases (m.owner next)) [
      | inl free ↦ rw (e, free) (hush _ _ _ refl refl tt)
      | inr (j, locked) ↦ rw (e, locked) (hush _ _ _ refl refl tt)
    ]
    | inr e ↦ rw e (hush _ _ _ refl refl tt)
  ]
  striped_step-Result (resize_work answer size) p = elim (Bool-cases (size == m.table_size)) [
    | inr e ↦ rw e (hush _ _ _ refl refl tt)
    | inl e ↦ elim (Run-cases (rebuild calloc m)) [
      | inl (w, broken) ↦ rw (e, broken) tt
      | inr ((m', true), ran) ↦ rw (e, ran) (inl ((rw ran at rebuild-Result answer).0 refl))
      | inr ((m', false), ran) ↦
          let (none_moved, owners, locks) = rw ran at rebuild-Result answer in
          rw (e, ran)
            (inr (record { all = λ k. refl; owners = owners; locks = locks; to_idle = refl }))
    ]
  ]
  striped_step-Result (resize_unlock answer next moved) p =
      elim (Bool-cases (ltb next m.lock_size)) [
        | inl e ↦ rw e (hush _ _ _ refl refl tt)
        | inr e ↦ elim (Bool-cases moved) [
          | inl f ↦ rw (e, f) (hush _ _ _ refl refl tt)
          | inr f ↦ rw (e, f) (calm _ _ _ _ refl refl tt (λ f q. refl))
        ]
      ]
  striped_step-Result (resize_free answer) p = calm _ _ _ _ refl refl tt (λ f q. refl)
