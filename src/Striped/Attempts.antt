-- ===== src/Striped/Attempts.antt =====
-- hash/StripedHash.c: the effect of an attempt on a bucket, under its lock.
use algorithm_collection.Common.{
  ℕ, ◌%◌, ◌<◌, ◌≡◌, ◌≢◌, inl, inr, refl, Bool, true, false, not, ◌&&◌, arith, ◌==◌, ok, is_some,
  Yields, sym, ◌∙◌, ap, ℤ, pos, Bool-cases, Option-cases, eqb_ℤ→eq, is_empty,
}
use native.Mathlib.Decide.{ℕ_discrete}
use algorithm_collection.Common.Chains.{
  Chain, lookup, erase, erase-IsSorted, lookup-erase, all_below,
}
use algorithm_collection.Hash.Chain
use algorithm_collection.Hash.Chain.Laws.{find_node-lookup, delete_node-eq}
use algorithm_collection.Hash.Table.Buckets.{
  chain_at, bucket_at-chain_at, chain_at-AllBelong, chain_at-IsSorted, lookup_stranger,
}
use algorithm_collection.Hash.Table.Moves
use algorithm_collection.Hash.Table.Moves.{IsTable}
use algorithm_collection.Hash.Table.Operations.{AllBelong-erase}
use algorithm_collection.Striped.{Memory}
use algorithm_collection.Striped.Threads.{
  key_of, Op, adding, deleting, finding, said, unlock_done, unlock_missed, missed, looked, outcome,
  attempt,
}
use algorithm_collection.Striped.Contents.{IsHashed, Reason, contents, Effect}

module _ (m : Memory) (t : IsTable m.table_size m.bucket) where
  -- A chain has only keys of its own bucket.
  pub find_node-stranger :
      (a b : ℕ) → b ≢ a % m.table_size → Chain.find_node (chain_at m.bucket b) (pos a) ≡ false
  find_node-stranger a b ne =
      let s = chain_at-IsSorted m.table_size 0 b m.bucket t.placed in
      rw
        (
          find_node-lookup (chain_at m.bucket b) (pos a) s,
          lookup_stranger m.table_size b (pos a) (chain_at m.bucket b)
              (chain_at-AllBelong m.table_size 0 b b m.bucket t.placed (omega arith))
              (λ e. ne (sym e)),
        )
        refl

  at_home :
      (op : Op) (size hash : ℕ)
      → IsHashed m.table_size op size hash
      → size ≡ m.table_size
      → hash ≡ key_of op % m.table_size
  at_home op size hash h e =
      let same : h.n ≡ m.table_size = omega (arith, h.after, h.before) in
      h.hashed ∙ ap (λ n. key_of op % n) same

  -- An attempt that changes nothing.
  nothing :
      (answers : Bool) (op : Op) (retry size hash : ℕ)
      → (size ≡ m.table_size → Reason op answers (contents m))
      → Effect m (outcome m (unlock_missed op retry hash) (missed op size m.table_size answers))
  nothing answers op retry size hash why = record {
    table = t;
    grown = omega arith;
    place = tt;
    change = (why, λ q. refl);
  }

  pub add-Effect :
      (answers : Bool) (key : ℕ) (val : ℤ) (retry size hash : ℕ)
      → IsHashed m.table_size (adding key val) size hash
      → Yields (attempt answers m (adding key val) retry size hash) (Effect m)
  unfolding attempt Chain.add_node
  add-Effect answers key val retry size hash h = elim (Bool-cases (size == m.table_size)) [
    | inr e ↦ rw e (nothing _ _ _ _ _ (λ same. absurd (ground arith)))
    | inl e ↦
        let at : hash ≡ key % m.table_size = at_home (adding key val) size hash h (ground arith) in
        elim (Bool-cases answers) [
          | inr no_node ↦ rw (e, no_node) (nothing _ _ _ _ _ (λ same yes. absurd (ground arith)))
          | inl node ↦ elim (Bool-cases (Moves.inserted m.table_size m.bucket t key val).1) [
            | inr old ↦
                rw (e, at, Moves.locate m.table_size m.bucket t key, node, old)
                  (nothing _ _ _ _ _ (λ same yes.
                    ground (arith, Moves.insert-returns m.table_size m.bucket t key val, old)))
            | inl new ↦
                rw (e, at, Moves.locate m.table_size m.bucket t key, node, new)
                  (record {
                    table = Moves.insert-IsTable m.table_size m.bucket t key val;
                    grown = omega arith;
                    place = tt;
                    change = (
                      ground (arith, Moves.insert-returns m.table_size m.bucket t key val),
                      λ q. ground (
                        arith,
                        Moves.view-insert m.table_size m.bucket t key val q,
                        Moves.insert-returns m.table_size m.bucket t key val,
                        eqb_ℤ→eq q (pos key),
                      ),
                    );
                  })
          ]
        ]
  ]

  pub delete-Effect :
      (answers : Bool) (key : ℕ) (retry size hash : ℕ)
      → IsHashed m.table_size (deleting key) size hash
      → Yields (attempt answers m (deleting key) retry size hash) (Effect m)
  unfolding attempt
  delete-Effect answers key retry size hash h = elim (Bool-cases (size == m.table_size)) [
    | inr e ↦ rw e (nothing _ _ _ _ _ (λ same. absurd (ground arith)))
    | inl e ↦
        let at : hash ≡ key % m.table_size = at_home (deleting key) size hash h (ground arith) in
        let c : Chain = chain_at m.bucket (key % m.table_size) in
        let s = Moves.home_chain-IsSorted m.table_size m.bucket t key in
        elim (Bool-cases (not (is_empty c) && all_below (pos key) c)) [
          | inl over ↦
              rw
                (
                  e,
                  at,
                  Moves.locate m.table_size m.bucket t key,
                  delete_node-eq c (pos key) s,
                  over,
                )
                tt
          | inr within ↦ elim (Option-cases (lookup (pos key) c)) [
            | inl miss ↦
                rw
                  (
                    e,
                    at,
                    Moves.locate m.table_size m.bucket t key,
                    delete_node-eq c (pos key) s,
                    within,
                    miss,
                  )
                  (nothing _ _ _ _ _ (λ same. miss))
            | inr (v, hit) ↦
                rw
                  (
                    e,
                    at,
                    Moves.locate m.table_size m.bucket t key,
                    delete_node-eq c (pos key) s,
                    within,
                    hit,
                  )
                  (record {
                    table = rw at (
                        Moves.write-IsTable m.table_size m.bucket t key (erase (pos key) c)
                          (erase-IsSorted (pos key) c s)
                          (AllBelong-erase m.table_size (key % m.table_size) (pos key) c
                            (Moves.home_chain-AllBelong m.table_size m.bucket t key)));
                    grown = omega arith;
                    place = tt;
                    change = (
                      hit,
                      λ q. ground (
                        arith,
                        Moves.view-write m.table_size m.bucket t key (erase (pos key) c) q,
                        lookup-erase q (pos key) c s,
                        eqb_ℤ→eq q (pos key),
                      ),
                    );
                  })
          ]
        ]
  ]

  pub find-Effect :
      (answers : Bool) (key : ℕ) (retry size hash : ℕ)
      → IsHashed m.table_size (finding key) size hash
      → Yields (attempt answers m (finding key) retry size hash) (Effect m)
  unfolding attempt
  find-Effect answers key retry size hash h =
      let inside : hash < m.table_size = ground (arith, h.hashed, h.some_buckets, h.before) in
      rw (bucket_at-chain_at m.table_size 0 hash m.bucket t.placed (omega (arith, inside, t.width)))
        (record { table = t; grown = omega arith; place = tt; change = (there, λ q. refl) })
    where
      there :
          Chain.find_node (chain_at m.bucket hash) (pos key)
          ≡ (hash == key % m.table_size) && is_some (contents m (pos key))
      there = elim (ℕ_discrete hash (key % m.table_size)) [
        | yes e ↦
            let same : (hash == key % m.table_size) ≡ true = ground arith in
            rw
              (
                find_node-lookup _ (pos key)
                    (chain_at-IsSorted m.table_size 0 hash m.bucket t.placed),
                same,
                e,
              )
              refl
        | no e ↦
            let other : (hash == key % m.table_size) ≡ false = ground arith in
            rw (find_node-stranger key hash e, other) refl
      ]

-- A `find` whose bucket number is not that of its key any more, since a `resize` came between its
-- `hashCode` and its `lock`, looks into a chain of other keys: it answers false, also when the table
-- has the key.
pub stale_find-misses :
    (m : Memory) (answers : Bool) (key retry size hash : ℕ)
    → IsTable m.table_size m.bucket
    → hash < m.table_size
    → hash ≢ key % m.table_size
    → attempt answers m (finding key) retry size hash
      ≡ ok (
          outcome m
            (unlock_done (finding key) hash (said false))
            (looked key hash m.table_size false))
unfolding attempt
stale_find-misses m answers key retry size hash t inside ne =
    rw
      (
        bucket_at-chain_at m.table_size 0 hash m.bucket t.placed (omega (arith, inside, t.width)),
        find_node-stranger m t key hash ne,
      )
      refl
