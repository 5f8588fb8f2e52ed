-- ===== src/OpenAddress/Loops.antt =====
-- hash/OpenAddressHash.c: what the three probe loops find.
use algorithm_collection.Common.{
  ℕ, zero, suc, ◌+◌, ◌<◌, ◌≡◌, ◌⊎◌, inl, inr, refl, Bool, true, false, ℤ, pos, ltb, eqb_ℤ, length,
  Run, ok, arith, ◌>>=◌, Bool-cases, Option, none, some, subst,
}
use native.Mathlib.Decide.{dec_lt}
use native.Mathlib.Nat.{mod-lt}
use algorithm_collection.OpenAddress.{
  Stat, emp, del, occ, Slot, HashTable, slot_at, hash_code, add_op, del_op, add_probe, delete_probe,
  find_probe,
}
use algorithm_collection.OpenAddress.Slots.{
  slot, count, is_occ, hit, count-pos, count-full, probe, hash_code-probe, probe_onto,
}
use algorithm_collection.OpenAddress.Probes.{IsTable, probe_lt, probe_read, not_met}

Stat-cases : (x : Stat) → (x ≡ emp) ⊎ (x ≡ del) ⊎ (x ≡ occ)
Stat-cases emp = inl refl
Stat-cases del = inr (inl refl)
Stat-cases occ = inr (inr refl)

module _ (ht : HashTable) (t : IsTable ht.table_size ht.bucket) (a : ℕ) where
  abbrev met : ℕ → Slot
  met i = slot ht.bucket (probe ht.table_size a i)

  -- The hash and the read at the head of each round.
  hashed : (i : ℕ) → hash_code (pos a) i ht.table_size ≡ ok (probe ht.table_size a i)
  hashed i = hash_code-probe a i ht.table_size t.positive t.narrow

  read : (i : ℕ) → slot_at ht.bucket (probe ht.table_size a i) ≡ ok (met i)
  read i = probe_read ht.table_size ht.bucket t a i

  extend {κ} : (P : ℕ → Type κ) (i : ℕ) → ((j : ℕ) → j < i → P j) → P i → (j : ℕ) → j < suc i → P j
  extend P i h p j q = elim (dec_lt j i) [
    | yes before ↦ h j before
    | no last ↦ let e : i ≡ j = omega arith in subst P e p
  ]

  abbrev Missed : ℕ → Type 0
  Missed i = (j : ℕ) → j < i → hit (pos a) (met j) ≡ false

  pub find_probe-count :
      (rounds i : ℕ)
      → i + rounds ≡ ht.table_size
      → Missed i
      → find_probe rounds i ht (pos a) ≡ ok (ltb 0 (count (hit (pos a)) ht.bucket))
  unfolding find_probe
  find_probe-count zero i e missed =
      rw (not_met ht.table_size ht.bucket t a i missed (inl (omega arith)))
  find_probe-count (suc rounds) i e missed =
      let later = λ (m : hit (pos a) (met i) ≡ false).
        find_probe-count rounds (suc i) (omega arith)
          (extend (λ j. hit (pos a) (met j) ≡ false) i missed m) in
      rw (hashed i, read i, ◌>>=◌)
        (elim (Stat-cases (met i).stat) [
          | inl never ↦ ground (arith, not_met ht.table_size ht.bucket t a i missed (inr never))
          | inr (inl gone) ↦ ground (arith, later (ground arith))
          | inr (inr used) ↦ elim (Bool-cases (eqb_ℤ (met i).key (pos a))) [
            | inl same ↦ ground (
              arith,
              count-pos (hit (pos a)) ht.bucket (probe ht.table_size a i)
                  (probe_lt ht.table_size ht.bucket t a i) (ground arith),
            )
            | inr other ↦ ground (arith, later (ground arith))
          ]
        ])

  -- `delete` finds a node in use under the key, or there is none.
  abbrev pub Deletion : Run (HashTable × Option ℤ) → Type 0
  Deletion run =
      ((run ≡ ok (ht, none)) × (count (hit (pos a)) ht.bucket ≡ 0))
      ⊎ ((p : ℕ) × (p < ht.table_size)
          × (hit (pos a) (slot ht.bucket p) ≡ true)
          × (run ≡ ok (del_op ht p, some (slot ht.bucket p).value)))

  pub delete_probe-finds :
      (rounds i : ℕ)
      → i + rounds ≡ ht.table_size
      → Missed i
      → Deletion (delete_probe rounds i ht (pos a))
  unfolding delete_probe
  delete_probe-finds zero i e missed =
      inl (refl, not_met ht.table_size ht.bucket t a i missed (inl (omega arith)))
  delete_probe-finds (suc rounds) i e missed =
      let later = λ (m : hit (pos a) (met i) ≡ false).
        delete_probe-finds rounds (suc i) (omega arith)
          (extend (λ j. hit (pos a) (met j) ≡ false) i missed m) in
      rw (hashed i, read i, ◌>>=◌)
        (elim (Stat-cases (met i).stat) [
          | inl never ↦ inl (ground arith, not_met ht.table_size ht.bucket t a i missed (inr never))
          | inr (inl gone) ↦ subst Deletion (ground arith) (later (ground arith))
          | inr (inr used) ↦ elim (Bool-cases (eqb_ℤ (met i).key (pos a))) [
            | inl same ↦
                inr (probe ht.table_size a i, mod-lt (a + i) t.positive, ground arith, ground arith)
            | inr other ↦ subst Deletion (ground arith) (later (ground arith))
          ]
        ])

  abbrev AllUsed : ℕ → Type 0
  AllUsed i = (j : ℕ) → j < i → is_occ (met j) ≡ true

  -- With a node that is not in use, not all probes meet nodes in use.
  not_full : count is_occ ht.bucket < ht.table_size → ¬ AllUsed ht.table_size
  not_full room all =
      let full : count is_occ ht.bucket ≡ length ht.bucket = count-full is_occ ht.bucket (λ p h.
        let (i, below, at_p) = probe_onto ht.table_size a p (rw t.width at h) in
        subst (λ (c : ℕ). is_occ (slot ht.bucket c) ≡ true) at_p (all i below)) in
      omega (arith, t.width)

  -- `add` writes the first node on its way that is not in use.
  abbrev pub Addition : ℤ → Run (HashTable × Bool) → Type 0
  Addition val run =
      (i : ℕ) × (i < ht.table_size)
      × AllUsed i
      × (is_occ (met i) ≡ false)
      × (run ≡ ok (add_op ht (probe ht.table_size a i) (pos a) val, true))

  pub add_probe-finds :
      (val : ℤ) (rounds i : ℕ)
      → count is_occ ht.bucket < ht.table_size
      → i + rounds ≡ ht.table_size
      → AllUsed i
      → Addition val (add_probe rounds i ht (pos a) val)
  unfolding add_probe
  add_probe-finds val zero i room e used =
      let e' : i ≡ ht.table_size = omega arith in absurd (not_full room (subst AllUsed e' used))
  add_probe-finds val (suc rounds) i room e used =
      rw (hashed i, read i, ◌>>=◌)
        (elim (Stat-cases (met i).stat) [
          | inl never ↦ (i, omega arith, used, ground arith, ground arith)
          | inr (inl gone) ↦ (i, omega arith, used, ground arith, ground arith)
          | inr (inr taken) ↦ subst (Addition val) (ground arith) (
              add_probe-finds val rounds (suc i) room (omega arith)
                (extend (λ j. is_occ (met j) ≡ true) i used (ground arith)))
        ])
