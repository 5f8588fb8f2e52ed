-- ===== src/FineList/Moves/Work.antt =====
-- list/FineGrainedSynchroList.c: the work of `add` and `delete` between two locked nodes.
use algorithm_collection.Common.{
  ℕ, ◌≡◌, ◌≢◌, ◌⊎◌, inl, inr, refl, true, false, not, ◌&&◌, Option, none, some, List, ◌∷◌, arith, ℤ,
  ltb_ℤ, eqb_ℤ, ◌<ℤ◌, ◌==◌, if◌then◌else◌, ap, sym, ◌∙◌, Bool-cases, subst, eqb_refl, is_none,
}
use native.Mathlib.Decide.{ℕ_discrete}
use algorithm_collection.Common.Chains.{lookup, insert, erase, insert-IsSorted, erase-IsSorted}
use algorithm_collection.FineList.{Node, Ends, Memory, create_node, link}
use algorithm_collection.FineList.Paths.{
  has, node_or, node_of, IsNode, chain_of, Trail-IsNode, insert_at, remove_at, has-insert_at,
  has-remove_at, has-remove_at_kept, has-ne,
}
use algorithm_collection.FineList.Paths.Insertion.{Inserted, insert-Trail, insert-chain}
use algorithm_collection.FineList.Paths.Removal.{Removed, remove-Trail, remove-chain, chain-lookup}
use algorithm_collection.FineList.Threads.{
  Op, adding, deleting, Answer, added, got, holding, unlock_both, done,
}
use algorithm_collection.FineList.Facts.{Shape, At, Fresh, Effect, Progress}
use algorithm_collection.FineList.Moves.{outcome, stay, pred-ne-curr}
use algorithm_collection.FineList.Moves.Creation.{IsNode-same, IsNode-some, IsNode-nonzero}

-- What `add` and `delete` meet between two nodes that are locked.
module _ (l : Ends) (m : Memory) (xs : List ℕ) (s : Shape l m xs) (i : ℕ) (k : ℤ) (pred curr : ℕ)
    (lock : m.owner pred ≡ some i) (lock' : m.owner curr ≡ some i) (at : At l m xs k pred curr)
    (stop : (not (curr == l.tail) && ltb_ℤ (node_of m.cell curr).key k) ≡ false) where
  -- The key is in the chain if `curr` has it.
  pub found : lookup k (chain_of m.cell xs) ≡ (
      if not (curr == l.tail) && eqb_ℤ k (node_of m.cell curr).key
      then some (node_of m.cell curr).val
      else none)
  found =
      subst
        (λ (c : ℕ). lookup k (chain_of m.cell xs) ≡ (
          if not (c == l.tail) && eqb_ℤ k (node_of m.cell c).key
          then some (node_of m.cell c).val
          else none))
        at.next
        (chain-lookup m.cell l.tail pred l.head k xs s.path s.sorted at.inside at.before
          (ground (arith, s.no_tail))
          (subst (λ (c : ℕ). (not (c == l.tail) && ltb_ℤ (node_of m.cell c).key k) ≡ false)
            (sym at.next) stop))

  pub pred-IsNode : IsNode m.cell pred
  pred-IsNode = Trail-IsNode m.cell l.tail l.head pred xs s.path at.inside

  pred-ne-tail : pred ≢ l.tail
  pred-ne-tail e = cc (sym (subst (λ (c : ℕ). has c (l.head ∷ xs) ≡ true) e at.inside) ∙ s.no_tail)

  not_mine : (a : ℕ) → m.owner a ≢ some i → a ≢ pred
  not_mine a other e = other (ap m.owner e ∙ lock)

  -- Nothing is written.
  pub seen-Progress :
      (op : Op) (answer : Answer)
      → Effect (done op answer) (chain_of m.cell xs) (chain_of m.cell xs)
      → Progress l m xs i
          (holding op pred curr)
          (outcome m (unlock_both pred curr answer) (done op answer))
  seen-Progress op answer effect =
      stay l m xs s i (holding op pred curr) (unlock_both pred curr answer) (done op answer) m.owner
        (λ a j ne held. held) (lock, lock', pred-ne-curr l m xs s k pred curr at) (inl refl) effect

  module _ (val : ℤ) (new : ℕ) (f : Fresh l m xs k val new)
      (miss : (not (curr == l.tail) && eqb_ℤ k (node_of m.cell curr).key) ≡ false) where
    abbrev pub linked : ℕ → Option Node
    linked = link (link m.cell new (create_node k val) curr) pred (node_of m.cell pred) new

    new-ne-pred : new ≢ pred
    new-ne-pred e =
        cc (sym (subst (λ (c : ℕ). has c (l.head ∷ xs) ≡ true) (sym e) at.inside) ∙ f.outside)

    linked-others : (b : ℕ) → b ≢ pred → b ≢ new → linked b ≡ m.cell b
    linked-others b not_pred not_new = ground arith

    linked_pred : linked pred ≡ some (record (node_of m.cell pred) { next = new })
    linked_pred = rw (eqb_refl pred)

    linked_new : linked new ≡ some (record (create_node k val) { next = curr })
    linked_new = ground (arith, new-ne-pred)

    linked-Inserted : Inserted m.cell linked pred new
    linked-Inserted = record {
      others = linked-others;
      at_p = (
        IsNode-some linked pred (record (node_of m.cell pred) { next = new })
            (IsNode-nonzero l m xs s pred pred-IsNode) linked_pred,
        ap (λ (o : Option Node). (node_or o).next) linked_pred,
      );
      same_p = (
        ap (λ (o : Option Node). (node_or o).key) linked_pred,
        ap (λ (o : Option Node). (node_or o).val) linked_pred,
      );
      at_new = (
        IsNode-some linked new (record (create_node k val) { next = curr }) f.nonzero linked_new,
        ap (λ (o : Option Node). (node_or o).next) linked_new ∙ sym at.next,
      );
    }

    after :
        ((node_of m.cell pred).next ≡ l.tail)
        ⊎ (k <ℤ (node_of m.cell (node_of m.cell pred).next).key)
    after = elim (ℕ_discrete curr l.tail) [
      | yes e ↦ inl (at.next ∙ e)
      | no e ↦
          let above : k <ℤ (node_of m.cell curr).key = ground arith in
          inr (subst (λ (c : ℕ). k <ℤ (node_of m.cell c).key) (sym at.next) above)
    ]

    linked-chain :
        chain_of linked (insert_at l.head pred new xs)
        ≡ insert (chain_of m.cell xs) (record { key = k; value = val })
    linked-chain =
        insert-chain m.cell linked l.tail pred new linked-Inserted l.head k val xs s.path s.sorted
          at.inside f.outside at.before after
          (
            ap (λ (o : Option Node). (node_or o).key) linked_new,
            ap (λ (o : Option Node). (node_or o).val) linked_new,
          )
          (ground (arith, s.no_tail))

    absent : lookup k (chain_of m.cell xs) ≡ none
    absent = rw miss at found

    pub add-Progress : Progress l m xs i (holding (adding k val new) pred curr) (
        outcome
          (record m { cell = linked })
          (unlock_both pred curr (added true))
          (done (adding k val new) (added true)))
    add-Progress = record {
      nodes = insert_at l.head pred new xs;
      shape = record {
        path =
            insert-Trail m.cell linked l.tail pred new linked-Inserted l.head xs s.path at.inside
              f.outside f.ne_tail;
        sorted =
            rw linked-chain
              (insert-IsSorted (chain_of m.cell xs) (record { key = k; value = val }) s.sorted);
        tail_node =
            IsNode-same m.cell linked l.tail
              (linked-others l.tail (λ e. pred-ne-tail (sym e)) (λ e. f.ne_tail (sym e)))
              s.tail_node;
        no_tail =
            ground (arith, s.no_tail, has-insert_at l.tail l.head pred new xs at.inside, f.ne_tail);
      };
      quiet = record {
        locks = λ a j ne held. held;
        nodes = λ a h other.
            let not_new : a ≢ new = has-ne new a (l.head ∷ xs) f.outside h in
            (
              ground (arith, h, has-insert_at a l.head pred new xs at.inside),
              linked-others a (not_mine a other) not_new,
              λ back. ground (arith, back, has-insert_at a l.head pred new xs at.inside, not_new),
            );
        fresh = λ a there ne out. (
          ground (arith, out, has-insert_at a l.head pred new xs at.inside, ne),
          linked-others a
              (λ e.
                cc (sym (subst (λ (c : ℕ). has c (l.head ∷ xs) ≡ true) (sym e) at.inside) ∙ out))
              ne,
        );
      };
      place = (lock, lock', pred-ne-curr l m xs s k pred curr at);
      claim = inl refl;
      effect = (linked-chain, ap added (sym (ap is_none absent)));
    }

  module _ (hit : (not (curr == l.tail) && eqb_ℤ k (node_of m.cell curr).key) ≡ true) where
    abbrev pub cut : ℕ → Option Node
    cut = link m.cell pred (node_of m.cell pred) (node_of m.cell curr).next

    curr-ne-tail : curr ≢ l.tail
    curr-ne-tail e = ground (arith, hit)

    cut-others : (b : ℕ) → b ≢ pred → cut b ≡ m.cell b
    cut-others b not_pred = ground arith

    cut_pred : cut pred ≡ some (record (node_of m.cell pred) { next = (node_of m.cell curr).next })
    cut_pred = rw (eqb_refl pred)

    cut-Removed : Removed m.cell cut pred
    cut-Removed = record {
      others = cut-others;
      at_p = (
        IsNode-some cut pred (record (node_of m.cell pred) { next = (node_of m.cell curr).next })
            (IsNode-nonzero l m xs s pred pred-IsNode) cut_pred,
        ap (λ (o : Option Node). (node_or o).next) cut_pred
            ∙ ap (λ (c : ℕ). (node_of m.cell c).next) (sym at.next),
      );
      same_p = (
        ap (λ (o : Option Node). (node_or o).key) cut_pred,
        ap (λ (o : Option Node). (node_or o).val) cut_pred,
      );
    }

    cut-chain : chain_of cut (remove_at l.head pred xs) ≡ erase k (chain_of m.cell xs)
    cut-chain =
        remove-chain m.cell cut l.tail pred cut-Removed l.head k xs s.path s.sorted at.inside
          at.before (λ e. curr-ne-tail (sym at.next ∙ e))
          (subst (λ (c : ℕ). eqb_ℤ k (node_of m.cell c).key ≡ true) (sym at.next)
            (ground (arith, hit)))

    kept :
        (a : ℕ)
        → has a (l.head ∷ xs) ≡ true
        → a ≢ curr
        → has a (l.head ∷ remove_at l.head pred xs) ≡ true
    kept a h ne = elim (Bool-cases (a == l.head)) [
      | inl here ↦ rw here
      | inr later ↦
          let inside =
            has-remove_at_kept m.cell l.tail a l.head pred xs s.path (λ e. ne (e ∙ at.next))
              (ground arith) in
          ground (arith, inside)
    ]

    back : (a : ℕ) → has a (remove_at l.head pred xs) ≡ true → has a xs ≡ true
    back a h = elim (Bool-cases (has a xs)) [
      | inl inside ↦ inside
      | inr out ↦ cc (sym h ∙ has-remove_at a l.head pred xs out)
    ]

    pub delete-Progress : Progress l m xs i (holding (deleting k) pred curr) (
        outcome
          (record m { cell = cut })
          (unlock_both curr pred (got (some (node_of m.cell curr).val)))
          (done (deleting k) (got (some (node_of m.cell curr).val))))
    delete-Progress = record {
      nodes = remove_at l.head pred xs;
      shape = record {
        path =
            remove-Trail m.cell cut l.tail pred cut-Removed l.head xs s.path at.inside
              (λ e. curr-ne-tail (sym at.next ∙ e));
        sorted = rw cut-chain (erase-IsSorted k (chain_of m.cell xs) s.sorted);
        tail_node =
            IsNode-same m.cell cut l.tail (cut-others l.tail (λ e. pred-ne-tail (sym e)))
              s.tail_node;
        no_tail = ground (arith, s.no_tail, has-remove_at l.tail l.head pred xs);
      };
      quiet = record {
        locks = λ a j ne held. held;
        nodes = λ a h other.
            (kept a h (λ e. other (ap m.owner e ∙ lock')), cut-others a (not_mine a other), back a);
        fresh = λ a there ne out. (
          ground (arith, out, has-remove_at a l.head pred xs),
          cut-others a (λ e.
              cc (sym (subst (λ (c : ℕ). has c (l.head ∷ xs) ≡ true) (sym e) at.inside) ∙ out)),
        );
      };
      place = (lock', lock, λ e. pred-ne-curr l m xs s k pred curr at (sym e));
      claim = inl refl;
      effect = (cut-chain, ap got (sym (found ∙ rw hit)));
    }
