-- ===== src/OpenAddress/Probes.antt =====
-- hash/OpenAddressHash.c: the probe loops on a table whose nodes can all be reached by probing.
use algorithm_collection.Common.{
  ℕ, ◌+◌, ◌^◌, ◌<◌, ◌≡◌, ◌≢◌, ◌⊎◌, inl, inr, true, false, List, ℤ, pos, eqb_ℤ→eq, set, length, ok,
  arith, ap, sym, ◌∙◌, Bool-cases, length-set, subst,
}
use native.Mathlib.Decide.{dec_lt, ℕ_discrete}
use native.Mathlib.Nat.{mod-lt}
use mathlib.Core.Bool.{false≢true}
use algorithm_collection.OpenAddress.{emp, del, occ, Slot, set_node, slot_at}
use algorithm_collection.OpenAddress.Slots.{
  slot, count, is_occ, hit, slot_at-slot, slot-set, count-eq-zero, probe,
}

-- The node number `p` holds a key from 0 on, and no probe for that key before it meets a node that
-- was never in use.
abbrev pub IsReached : ℕ → List Slot → ℕ → Type 0
IsReached n bs p =
    (a i : ℕ) × ((slot bs p).key ≡ pos a)
    × (i < n)
    × (probe n a i ≡ p)
    × ((j : ℕ) → j < i → (slot bs (probe n a j)).stat ≢ emp)

pub record IsTable (n : ℕ) (bs : List Slot) : Type 0 where
  pub width : length bs ≡ n
  pub positive : 0 < n
  pub narrow : n < 2 ^ 32
  pub reached : (p : ℕ) → p < n → is_occ (slot bs p) ≡ true → IsReached n bs p

pub hit-occ : (q : ℤ) (s : Slot) → hit q s ≡ true → (is_occ s ≡ true) × (s.key ≡ q)
hit-occ q s h = (ground arith, ground (arith, eqb_ℤ→eq s.key q))

pub occ-ne-emp : (s : Slot) → is_occ s ≡ true → s.stat ≢ emp
occ-ne-emp s h e = ground arith

module _ (n : ℕ) (bs : List Slot) (t : IsTable n bs) where
  pub probe_lt : (a i : ℕ) → probe n a i < length bs
  probe_lt a i = rw t.width (mod-lt (a + i) t.positive)

  pub probe_read : (a i : ℕ) → slot_at bs (probe n a i) ≡ ok (slot bs (probe n a i))
  probe_read a i = slot_at-slot bs (probe n a i) (probe_lt a i)

  -- A node in use under `a` is met by a probe for `a`.
  pub hit_reached :
      (a p : ℕ)
      → p < n
      → hit (pos a) (slot bs p) ≡ true
      → (k : ℕ) × (k < n)
        × (probe n a k ≡ p)
        × ((j : ℕ) → j < k → (slot bs (probe n a j)).stat ≢ emp)
  hit_reached a p h is_hit =
      let (b, k, key, below, at_p, path) = t.reached p h (hit-occ (pos a) (slot bs p) is_hit).0 in
      let same : b ≡ a = cc (sym key ∙ (hit-occ (pos a) (slot bs p) is_hit).1) in
      subst
        (λ (c : ℕ).
          (k : ℕ) × (k < n)
          × (probe n c k ≡ p)
          × ((j : ℕ) → j < k → (slot bs (probe n c j)).stat ≢ emp))
        same (k, below, at_p, path)

  -- A key that no probe meets, up to the end or to a node that was never in use, is not there.
  meets :
      (a i p : ℕ)
      → ((j : ℕ) → j < i → hit (pos a) (slot bs (probe n a j)) ≡ false)
      → (i ≡ n) ⊎ ((slot bs (probe n a i)).stat ≡ emp)
      → p < n
      → hit (pos a) (slot bs p) ≢ true
  meets a i p missed stop h is_hit =
      let (k, below, at_p, path) = hit_reached a p h is_hit in
      let hit_k : hit (pos a) (slot bs (probe n a k)) ≡ true =
        subst (λ (c : ℕ). hit (pos a) (slot bs c) ≡ true) (sym at_p) is_hit in
      elim (dec_lt k i) [
        | yes before ↦ absurd (false≢true (sym (missed k before) ∙ hit_k))
        | no late ↦ elim stop [
          | inl over ↦ absurd (omega arith)
          | inr never ↦ elim (dec_lt i k) [
            | yes passed ↦ path i passed never
            | no here ↦
                let e : i ≡ k = omega arith in
                occ-ne-emp (slot bs (probe n a k)) (hit-occ (pos a) (slot bs (probe n a k)) hit_k).0
                  (subst (λ (c : ℕ). (slot bs (probe n a c)).stat ≡ emp) e never)
          ]
        ]
      ]

  pub not_met :
      (a i : ℕ)
      → ((j : ℕ) → j < i → hit (pos a) (slot bs (probe n a j)) ≡ false)
      → (i ≡ n) ⊎ ((slot bs (probe n a i)).stat ≡ emp)
      → count (hit (pos a)) bs ≡ 0
  not_met a i missed stop = count-eq-zero (hit (pos a)) bs λ p h.
      elim (Bool-cases (hit (pos a) (slot bs p))) [
        | inr no_hit ↦ no_hit
        | inl is_hit ↦ absurd (meets a i p missed stop (rw t.width at h) is_hit)
      ]

  -- A write over a node leaves the others reached, as long as it does not empty it.
  kept-IsReached :
      (b p : ℕ) (s : Slot)
      → b < n
      → s.stat ≢ emp
      → p < n
      → p ≢ b
      → IsReached n bs p
      → IsReached n (set bs b s) p
  kept-IsReached b p s hb not_emp hp apart (a, i, key, below, at_p, path) = (
    a,
    i,
    rw (slot-set bs b p s (rw t.width hb)) (ground arith),
    below,
    at_p,
    λ j h. rw (slot-set bs b (probe n a j) s (rw t.width hb)) (ground (arith, path j h)),
  )

  slot_other : (b p : ℕ) (s : Slot) → b < length bs → p ≢ b → slot (set bs b s) p ≡ slot bs p
  slot_other b p s h e = slot-set bs b p s h ∙ ground arith

  slot_self : (b p : ℕ) (s : Slot) → b < length bs → p ≡ b → slot (set bs b s) p ≡ s
  slot_self b p s h e = slot-set bs b p s h ∙ ground arith

  others_used :
      (b p : ℕ) (s : Slot)
      → b < length bs
      → p ≢ b
      → is_occ (slot (set bs b s) p) ≡ true
      → is_occ (slot bs p) ≡ true
  others_used b p s h e used = ap is_occ (sym (slot_other b p s h e)) ∙ used

  deleted_unused :
      (b p : ℕ)
      → b < length bs
      → p ≡ b
      → is_occ (slot (set bs b (set_node (pos 0) (pos 0) del)) p) ≢ true
  deleted_unused b p h e used =
      cc (sym (ap is_occ (slot_self b p (set_node (pos 0) (pos 0) del) h e)) ∙ used)

  -- A key goes into the first node that is not in use on its way.
  pub write_occ-IsTable :
      (a i : ℕ) (val : ℤ)
      → i < n
      → ((j : ℕ) → j < i → is_occ (slot bs (probe n a j)) ≡ true)
      → IsTable n (set bs (probe n a i) (set_node (pos a) val occ))
  write_occ-IsTable a i val h before = record {
    width = length-set bs _ _ ∙ t.width;
    positive = t.positive;
    narrow = t.narrow;
    reached = λ p hp used. elim (ℕ_discrete p (probe n a i)) [
      | yes e ↦ (
        a,
        i,
        rw (slot-set bs (probe n a i) p _ (probe_lt a i)) (ground arith),
        h,
        sym e,
        λ j hj.
            rw (slot-set bs (probe n a i) (probe n a j) _ (probe_lt a i))
              (ground (arith, occ-ne-emp (slot bs (probe n a j)) (before j hj))),
      )
      | no e ↦
          kept-IsReached (probe n a i) p _ (rw t.width at probe_lt a i) (λ q. cc q) hp e
            (t.reached p hp (others_used (probe n a i) p _ (probe_lt a i) e used))
    ];
  }

  pub write_del-IsTable : (b : ℕ) → b < n → IsTable n (set bs b (set_node (pos 0) (pos 0) del))
  write_del-IsTable b h = record {
    width = length-set bs _ _ ∙ t.width;
    positive = t.positive;
    narrow = t.narrow;
    reached = λ p hp used. elim (ℕ_discrete p b) [
      | yes e ↦ absurd (deleted_unused b p (rw t.width h) e used)
      | no e ↦
          kept-IsReached b p _ h (λ q. cc q) hp e
            (t.reached p hp (others_used b p _ (rw t.width h) e used))
    ];
  }
