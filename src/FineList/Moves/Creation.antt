-- ===== src/FineList/Moves/Creation.antt =====
-- list/FineGrainedSynchroList.c: the step of `add` that creates a node.
use algorithm_collection.Common.{
  ℕ, ◌≡◌, ◌≢◌, inl, inr, refl, true, false, Option, none, some, List, ◌∷◌, arith, ℤ, ◌==◌, ap, sym,
  ◌∙◌, Bool-cases, eqb_refl, Returns,
}
use native.Mathlib.Decide.{ℕ_discrete}
use algorithm_collection.FineList.{Node, Ends, Memory, update, load, create_node}
use algorithm_collection.FineList.Paths.{
  has, node_or, IsNode, chain_of, Trail-frame, Trail-IsNode, chain_of-frame, has-ne,
}
use algorithm_collection.FineList.Threads.{
  adding, added, idle, create, lock_head, silent, refused, fine_step,
}
use algorithm_collection.FineList.Facts.{Shape, Progress}
use algorithm_collection.FineList.System.{IsAvailable}
use algorithm_collection.FineList.Moves.{outcome, stay}

pub update-ne {ℓ} : {A : Type ℓ} (f : ℕ → A) (a b : ℕ) (x : A) → b ≢ a → update f a x b ≡ f b
update-ne f a b x ne = ground arith

pub update_self {ℓ} : {A : Type ℓ} (f : ℕ → A) (a : ℕ) (x : A) → update f a x a ≡ x
update_self f a x = rw (eqb_refl a)

pub IsNode-same :
    (cell cell' : ℕ → Option Node) (a : ℕ) → cell' a ≡ cell a → IsNode cell a → IsNode cell' a
unfolding load
IsNode-same cell cell' a e there = rw e there

pub IsNode-some :
    (cell : ℕ → Option Node) (a : ℕ) (n : Node) → a ≢ 0 → cell a ≡ some n → IsNode cell a
unfolding load
IsNode-some cell a n h e = let test : (a == 0) ≡ false = ground arith in rw (test, e)

module _ (l : Ends) (m : Memory) (xs : List ℕ) (s : Shape l m xs) where
  live : (a : ℕ) → IsNode m.cell a → m.cell a ≢ none
  unfolding load
  live a there e = ground arith

  pub IsNode-nonzero : (a : ℕ) → IsNode m.cell a → a ≢ 0
  unfolding load
  IsNode-nonzero a there e = ground arith

  -- A node at an unused address.
  made :
      (i address : ℕ) (key val : ℤ)
      → m.cell address ≡ none
      → address ≢ 0
      → has address (l.head ∷ xs) ≡ false
      → address ≢ l.tail
      → Progress l m xs i (create key val) (
          outcome
            (record m { cell = update m.cell address (some (create_node key val)) })
            (lock_head (adding key val address))
            silent)
  made i address key val unused there out ne_tail =
      let cell' : ℕ → Option Node = update m.cell address (some (create_node key val)) in
      let same : (b : ℕ) → has b (l.head ∷ xs) ≡ true → cell' b ≡ m.cell b = λ b h.
        update-ne m.cell address b (some (create_node key val))
          (has-ne address b (l.head ∷ xs) out h) in
      let chain : chain_of cell' xs ≡ chain_of m.cell xs = chain_of-frame m.cell cell' xs (λ b h.
        let f = same b (ground (arith, h)) in
        (
          ap (λ (o : Option Node). (node_or o).key) f,
          ap (λ (o : Option Node). (node_or o).val) f,
        )) in
      record {
        nodes = xs;
        shape = record {
          path = Trail-frame m.cell cell' l.tail l.head xs same s.path;
          sorted = rw chain s.sorted;
          tail_node =
              IsNode-same m.cell cell' l.tail
                (update-ne m.cell address l.tail (some (create_node key val))
                  (λ e. ne_tail (sym e)))
                s.tail_node;
          no_tail = s.no_tail;
        };
        quiet = record {
          locks = λ a j ne lock. lock;
          nodes = λ a h other. (h, same a h, λ back. back);
          fresh = λ a there' ne outside. (
            outside,
            update-ne m.cell address a (some (create_node key val))
                (λ e. there' (ap m.cell e ∙ unused)),
          );
        };
        place = record {
          there = update_self m.cell address (some (create_node key val));
          nonzero = there;
          outside = out;
          ne_tail = ne_tail;
        };
        claim = inr (inr unused);
        effect = chain;
      }

  pub create-Progress :
      (i address : ℕ) (key val : ℤ)
      → IsAvailable m address
      → Returns (fine_step l i address m (create key val)) (Progress l m xs i (create key val))
  unfolding fine_step
  create-Progress i address key val available = elim (ℕ_discrete address 0) [
    | yes null ↦
        let test : (address == 0) ≡ true = ground arith in
        (
          outcome m idle (refused address (added false)),
          rw test,
          stay l m xs s i (create key val) idle (refused address (added false)) m.owner
              (λ a j ne lock. lock) tt (inl refl) refl,
        )
    | no there ↦
        let test : (address == 0) ≡ false = ground arith in
        let unused : m.cell address ≡ none = elim available [
          | inl null ↦ absurd (there null)
          | inr free ↦ free
        ] in
        let out : has address (l.head ∷ xs) ≡ false =
          elim (Bool-cases (has address (l.head ∷ xs))) [
            | inl inside ↦
                absurd
                  (live address (Trail-IsNode m.cell l.tail l.head address xs s.path inside) unused)
            | inr outside ↦ outside
          ] in
        let ne_tail : address ≢ l.tail =
          λ e. live l.tail s.tail_node (ap m.cell (sym e) ∙ unused) in
        (
          outcome (record m { cell = update m.cell address (some (create_node key val)) })
              (lock_head (adding key val address)) silent,
          rw test,
          made i address key val unused there out ne_tail,
        )
  ]
