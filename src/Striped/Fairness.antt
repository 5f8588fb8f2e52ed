-- ===== src/Striped/Fairness.antt =====
-- hash/StripedHash.c: a step of a thread leaves the locks of the others alone.
use algorithm_collection.Common.{
  ℕ, ◌%◌, ◌<◌, ◌≡◌, ◌⊎◌, inl, inr, refl, Bool, true, false, Option, none, arith, ltb, ◌==◌, Run, ok,
  ◌>>=◌, Yields, Run-cases, ap, subst, Bool-cases, Option-cases,
}
use native.Mathlib.Decide.{ℕ_discrete}
use algorithm_collection.Common.{◌*◌, ◌^◌, pos}
use algorithm_collection.Hash.Chain
use algorithm_collection.Hash.Table
use algorithm_collection.Striped.{Memory, lock_key, rebuild, hash_code, policy}
use algorithm_collection.Striped.Threads.{
  key_of, Op, adding, deleting, finding, Thread, idle, read_size, read_hash, lock_bucket, work,
  read_count, write_count, unlock_done, unlock_missed, policy_count, policy_size, resize_size,
  resize_lock, resize_work, resize_unlock, resize_free, Outcome, outcome, silent, acquire, attempt,
  striped_step, give,
}
use algorithm_collection.Striped.Locks.{holds, IsFair, finish-Frees, again-Frees, lock_key-eq}

module _ (i : ℕ) (m : Memory) where
  -- The locks stay with their threads.
  pub still :
      (th th' : Thread) (m' : Memory) (e : _)
      → m'.lock_size ≡ m.lock_size
      → m'.owner ≡ m.owner
      → ((k : ℕ) → k < m.lock_size → holds m.lock_size th' k ≡ true → holds m.lock_size th k ≡ true)
      → IsFair i m th (outcome m' th' e)
  still th th' m' e n o h = record {
    locks = n;
    stripe = λ k w. inl (ap (λ (f : ℕ → Option ℕ). f k) o, h k w);
  }

  taken :
      (k : ℕ) (stays goes : Thread)
      → ((j : ℕ) → holds m.lock_size goes j ≡ true → (j ≡ k) ⊎ (holds m.lock_size stays j ≡ true))
      → IsFair i m stays (acquire i m k stays goes)
  taken k stays goes h = elim (Option-cases (m.owner k)) [
    | inl free ↦ rw free (record {
      locks = refl;
      stripe = λ j w. elim (ℕ_discrete j k) [
        | yes e ↦ inr (inl (rw e free, ground arith))
        | no e ↦ inl (ground arith, λ has. elim (h j has) [ inl f ↦ absurd (e f) | inr p ↦ p ])
      ];
    })
    | inr (j, locked) ↦ rw locked (still stays stays m silent refl refl (λ k w x. x))
  ]

  given :
      (k : ℕ) (th th' : Thread) (e : _)
      → ((j : ℕ) → j < m.lock_size → holds m.lock_size th' j ≡ true → holds m.lock_size th j ≡ true)
      → holds m.lock_size th k ≡ true
      → holds m.lock_size th' k ≡ false
      → IsFair i m th (outcome (give m k none) th' e)
  given k th th' e h had hasnt = record {
    locks = refl;
    stripe = λ j w. elim (ℕ_discrete j k) [
      | yes f ↦ inr (inr (rw f had, ground arith, rw f hasnt))
      | no f ↦ inl (ground arith, h j w)
    ];
  }

  -- Lock by lock of `lockKey`.
  keyed :
      (hash : ℕ) (rest : ℕ → Run Outcome) (th : Thread)
      → 0 < m.lock_size
      → Yields (rest (hash % m.lock_size)) (IsFair i m th)
      → Yields (lock_key m.lock_size hash >>= rest) (IsFair i m th)
  keyed hash rest th h y = rw (lock_key-eq m.lock_size hash h) y

  attempt-IsFair :
      (answers : Bool) (op : Op) (retry size hash : ℕ)
      → Yields (attempt answers m op retry size hash) (IsFair i m (work op retry size hash))
  unfolding attempt
  attempt-IsFair answers (adding key val) retry size hash =
      elim (Bool-cases (size == m.table_size)) [
        | inl e ↦ elim (Bool-cases answers) [
          | inr no_node ↦ rw (e, no_node) (still _ _ _ _ refl refl (λ k w h. h))
          | inl node ↦ elim (Run-cases (Table.bucket_at m.bucket hash)) [
            | inl (w, broken) ↦ rw (e, node, broken) tt
            | inr (c, read) ↦ elim (Bool-cases (Chain.add_node true c (pos key) val).1) [
              | inl new ↦ rw (e, node, read, new) (still _ _ _ _ refl refl (λ k w h. h))
              | inr old ↦ rw (e, node, read, old) (still _ _ _ _ refl refl (λ k w h. h))
            ]
          ]
        ]
        | inr e ↦ rw e (still _ _ _ _ refl refl (λ k w h. h))
      ]
  attempt-IsFair answers (deleting key) retry size hash = elim (Bool-cases (size == m.table_size)) [
    | inl e ↦ elim (Run-cases (Table.bucket_at m.bucket hash)) [
      | inl (w, broken) ↦ rw (e, broken) tt
      | inr (c, read) ↦ elim (Run-cases (Chain.delete_node c (pos key))) [
        | inl (w, broken) ↦ rw (e, read, broken) tt
        | inr (r, cut) ↦ elim (Option-cases r.1) [
          | inl miss ↦ rw (e, read, cut, miss) (still _ _ _ _ refl refl (λ k w h. h))
          | inr (v, hit) ↦ rw (e, read, cut, hit) (still _ _ _ _ refl refl (λ k w h. h))
        ]
      ]
    ]
    | inr e ↦ rw e (still _ _ _ _ refl refl (λ k w h. h))
  ]
  attempt-IsFair answers (finding key) retry size hash =
      elim (Run-cases (Table.bucket_at m.bucket hash)) [
        | inl (w, broken) ↦ rw broken tt
        | inr (c, read) ↦ rw read (still _ _ _ _ refl refl (λ k w h. h))
      ]

  abbrev SameLocks : Memory × Bool → Type 0
  SameLocks r = (r.0.lock_size ≡ m.lock_size) × (r.0.owner ≡ m.owner)

  rebuild-locks : (calloc : ℕ → Bool) → Yields (rebuild calloc m) SameLocks
  unfolding rebuild
  rebuild-locks calloc =
      let n : ℕ = m.table_size * 2 % 2 ^ 32 in
      elim (Bool-cases (Table.init_bucket calloc n).1) [
        | inl there ↦
            elim (Run-cases
              (Table.move_buckets n m.table_size m.bucket (Table.init_bucket calloc n).0)) [
                | inl (w, broken) ↦ rw (there, broken) tt
                | inr (bs, moved) ↦ rw (there, moved) (refl, refl)
              ]
        | inr failed ↦ rw failed (refl, refl)
      ]

  pub striped_step-IsFair :
      (calloc : ℕ → Bool) (th : Thread)
      → 0 < m.lock_size
      → Yields (striped_step i calloc m th) (IsFair i m th)
  unfolding striped_step
  striped_step-IsFair calloc idle n = still _ _ _ _ refl refl (λ k w h. h)
  striped_step-IsFair calloc (read_size op retry) n = still _ _ _ _ refl refl (λ k w h. h)
  striped_step-IsFair calloc (read_hash op retry size) n =
      elim (Run-cases (hash_code (pos (key_of op)) m.table_size)) [
        | inl (w, broken) ↦ rw broken tt
        | inr (hash, ran) ↦ rw ran (still _ _ _ _ refl refl (λ k w h. h))
      ]
  striped_step-IsFair calloc (lock_bucket op retry size hash) n =
      keyed hash _ _ n (taken _ _ _ (λ j h. inl (ground arith)))
  striped_step-IsFair calloc (work op retry size hash) n =
      attempt-IsFair (calloc 0) op retry size hash
  striped_step-IsFair calloc (read_count op hash answer) n = still _ _ _ _ refl refl (λ k w h. h)
  striped_step-IsFair calloc (write_count op hash count answer) n =
      still _ _ _ _ refl refl (λ k w h. h)
  striped_step-IsFair calloc (unlock_done op hash answer) n = keyed hash _ _ n (
      given _ _ _ _ (λ j w h. absurd (ground (arith, finish-Frees m.lock_size op answer j)))
        (ground arith) (finish-Frees m.lock_size op answer _))
  striped_step-IsFair calloc (unlock_missed op retry hash) n = keyed hash _ _ n (
      given _ _ _ _ (λ j w h. absurd (ground (arith, again-Frees m.lock_size op retry j)))
        (ground arith) (again-Frees m.lock_size op retry _))
  striped_step-IsFair calloc (policy_count answer) n = still _ _ _ _ refl refl (λ k w h. h)
  striped_step-IsFair calloc (policy_size answer count) n =
      elim (Run-cases (policy count m.table_size)) [
        | inl (w, broken) ↦ rw broken tt
        | inr (true, ran) ↦ rw ran (still _ _ _ _ refl refl (λ k w h. h))
        | inr (false, ran) ↦ rw ran (still _ _ _ _ refl refl (λ k w h. h))
      ]
  striped_step-IsFair calloc (resize_size answer) n =
      still _ _ _ _ refl refl (λ k w h. absurd (ground arith))
  striped_step-IsFair calloc (resize_lock answer size next) n =
      elim (Bool-cases (ltb next m.lock_size)) [
        | inl e ↦ rw e (
            taken _ _ _
              (λ j h. elim (ℕ_discrete j next) [ yes f ↦ inl f | no f ↦ inr (ground arith) ]))
        | inr e ↦ rw e (still _ _ _ _ refl refl (λ k w h. ground arith))
      ]
  striped_step-IsFair calloc (resize_work answer size) n =
      elim (Bool-cases (size == m.table_size)) [
        | inl e ↦ elim (Run-cases (rebuild calloc m)) [
          | inl (w, broken) ↦ rw (e, broken) tt
          | inr ((m', true), ran) ↦
              let (locks, owners) = after (m', true) ran in
              rw (e, ran) (still _ _ _ _ locks owners (λ k w h. refl))
          | inr ((m', false), ran) ↦
              let (locks, owners) = after (m', false) ran in
              rw (e, ran) (still _ _ _ _ locks owners (λ k w h. refl))
        ]
        | inr e ↦ rw e (still _ _ _ _ refl refl (λ k w h. refl))
      ]
    where
      after : (r : Memory × Bool) → rebuild calloc m ≡ ok r → SameLocks r
      after r ran = subst (λ x. Yields x SameLocks) ran (rebuild-locks calloc)
  striped_step-IsFair calloc (resize_unlock answer next moved) n =
      elim (Bool-cases (ltb next m.lock_size)) [
        | inl e ↦ rw e (given _ _ _ _ (λ j w h. ground arith) (ground arith) (ground arith))
        | inr e ↦ rw e (elim (Bool-cases moved) [
          | inl f ↦ rw f (still _ _ _ _ refl refl (λ k w h. absurd (ground arith)))
          | inr f ↦ rw f (still _ _ _ _ refl refl (λ k w h. absurd (ground arith)))
        ])
      ]
  striped_step-IsFair calloc (resize_free answer) n = still _ _ _ _ refl refl (λ k w h. h)
