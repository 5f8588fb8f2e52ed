-- ===== src/FineList/Moves.antt =====
-- list/FineGrainedSynchroList.c: the steps that only take and free locks, and those before them.
pub mod Creation
pub mod Work
pub mod Steps
use algorithm_collection.Common.{
  ℕ, zero, suc, ◌+◌, ◌≡◌, ◌≢◌, ◌⊎◌, inl, inr, refl, Bool, true, false, not, ◌&&◌, ◌||◌, Option,
  none, some, List, [], ◌∷◌, arith, ℤ, pos, ltb_ℤ, eqb_ℤ, ◌<ℤ◌, ◌==◌, if◌then◌else◌, Run, ok, ap,
  sym, ◌∙◌, Bool-cases, Option-cases, subst, eqb_refl, is_none, Returns, ◌>>=◌,
}
use native.Mathlib.Decide.{ℕ_discrete}
use algorithm_collection.Common.Chains.{Chain, lookup, Above, IsSorted, insert, erase, lookup-below}
use algorithm_collection.FineList.{Node, Ends, Memory, update, load, create_node, link}
use algorithm_collection.FineList.Paths.{
  has, node_or, node_of, IsNode, Trail, chain_of, Trail-frame, Trail-IsNode, Trail-next,
  chain_of-frame, insert_at, remove_at, has-insert_at, has-remove_at, has-ne, has-Above,
  first_below,
}
use algorithm_collection.FineList.Paths.Insertion.{Inserted, insert-Trail, insert-chain}
use algorithm_collection.FineList.Paths.Removal.{Removed, remove-Trail, remove-chain, chain-lookup}
use algorithm_collection.FineList.Threads.{
  Op, adding, deleting, finding, Answer, added, got, Thread, idle, create, lock_head, lock_curr,
  holding, unlock_both, unlock_last, Event, silent, done, returned, Outcome, key_of, acquire, taken,
  freed, work, fine_step,
}
use algorithm_collection.FineList.Facts.{
  Shape, At, Fresh, Mine, new_of, owned, Place, Quiet, Effect, Progress,
}
use algorithm_collection.FineList.System.{IsAvailable}

abbrev pub outcome : Memory → Thread → Event → Outcome
outcome m th e = record { mem = m; thread = th; event = e }

module _ (l : Ends) (m : Memory) (xs : List ℕ) (s : Shape l m xs) where
  -- A step that changes no node.
  lock_step :
      (i mine : ℕ) (o : ℕ → Option ℕ)
      → ((a j : ℕ) → j ≢ i → m.owner a ≡ some j → o a ≡ some j)
      → Quiet l i mine m xs (record m { owner = o }) xs
  lock_step i mine o locks = record {
    locks = locks;
    nodes = λ a h other. (h, refl, λ back. back);
    fresh = λ a there ne out. (out, refl);
  }

  taken-locks :
      (i p a j : ℕ) → m.owner p ≡ none → m.owner a ≡ some j → (taken i m p).owner a ≡ some j
  taken-locks i p a j free lock = elim (ℕ_discrete a p) [
    | yes e ↦ cc (sym free ∙ ap m.owner (sym e) ∙ lock)
    | no e ↦ ground arith
  ]

  taken_self : (i p : ℕ) → (taken i m p).owner p ≡ some i
  taken_self i p = rw (eqb_refl p)

  freed-locks :
      (i p a j : ℕ) → m.owner p ≡ some i → j ≢ i → m.owner a ≡ some j → (freed m p).owner a ≡ some j
  freed-locks i p a j mine ne lock = elim (ℕ_discrete a p) [
    | yes e ↦
        let both : some i ≡ some j = sym mine ∙ ap m.owner (sym e) ∙ lock in
        absurd (ne (ground (arith, both)))
    | no e ↦ ground arith
  ]

  freed-ne : (p a : ℕ) → a ≢ p → (freed m p).owner a ≡ m.owner a
  freed-ne p a ne = ground arith

  -- A step that changes nothing but locks.
  pub stay :
      (i : ℕ) (th th' : Thread) (e : Event) (o : ℕ → Option ℕ)
      → ((a j : ℕ) → j ≢ i → m.owner a ≡ some j → o a ≡ some j)
      → Place l (record m { owner = o }) xs i th'
      → (owned th' ≡ 0) ⊎ (owned th' ≡ owned th) ⊎ (m.cell (owned th') ≡ none)
      → Effect e (chain_of m.cell xs) (chain_of m.cell xs)
      → Progress l m xs i th (outcome (record m { owner = o }) th' e)
  stay i th th' e o locks place claim effect = record {
    nodes = xs;
    shape = record {
      path = s.path;
      sorted = s.sorted;
      tail_node = s.tail_node;
      no_tail = s.no_tail;
    };
    quiet = lock_step i (owned th) o locks;
    place = place;
    claim = claim;
    effect = effect;
  }

  -- The thread has to wait.
  wait : (i : ℕ) (th : Thread) → Place l m xs i th → Progress l m xs i th (outcome m th silent)
  wait i th place = stay i th th silent m.owner (λ a j ne lock. lock) place (inr (inl refl)) refl

  pub curr-IsNode :
      (k : ℤ) (pred curr : ℕ) → At l m xs k pred curr → load m.cell curr ≡ ok (node_of m.cell curr)
  curr-IsNode k pred curr at = elim (Trail-next m.cell l.tail l.head pred xs s.path at.inside).0 [
    | inl at_tail ↦ subst (IsNode m.cell) (sym at_tail ∙ at.next) s.tail_node
    | inr inside ↦
        Trail-IsNode m.cell l.tail l.head curr xs s.path (ground (arith, at.next, inside))
  ]

  pub pred-ne-curr : (k : ℤ) (pred curr : ℕ) → At l m xs k pred curr → pred ≢ curr
  pred-ne-curr k pred curr at e =
      (Trail-next m.cell l.tail l.head pred xs s.path at.inside).1 (at.next ∙ sym e)

  Mine-locks : (op : Op) (o : ℕ → Option ℕ) → Mine l m xs op → Mine l (record m { owner = o }) xs op
  Mine-locks (adding key val new) o f = record {
    there = f.there;
    nonzero = f.nonzero;
    outside = f.outside;
    ne_tail = f.ne_tail;
  }
  Mine-locks (deleting key) o f = tt
  Mine-locks (finding key) o f = tt

  head_out : has l.head xs ≡ false
  head_out = go xs s.path
    where
      go : (ys : List ℕ) → Trail m.cell l.tail l.head ys → has l.head ys ≡ false
      go [] path = refl
      go (y ∷ ys) path = path.3

  pub lock_head-Progress :
      (i address : ℕ) (op : Op)
      → Place l m xs i (lock_head op)
      → Returns (fine_step l i address m (lock_head op)) (Progress l m xs i (lock_head op))
  unfolding fine_step
  lock_head-Progress i address op place =
      let start : load m.cell l.head ≡ ok (node_of m.cell l.head) =
        Trail-IsNode m.cell l.tail l.head l.head xs s.path (ground (arith, eqb_refl l.head)) in
      elim (Option-cases (m.owner l.head)) [
        | inl free ↦ (
          outcome (taken i m l.head) (lock_curr op l.head (node_of m.cell l.head).next) silent,
          rw (start, free),
          stay i (lock_head op) (lock_curr op l.head (node_of m.cell l.head).next) silent
              (taken i m l.head).owner (λ a j ne lock. taken-locks i l.head a j free lock)
              (
                taken_self i l.head,
                record {
                  inside = ground (arith, eqb_refl l.head);
                  next = refl;
                  before = λ h. cc (sym head_out ∙ h);
                },
                Mine-locks op (taken i m l.head).owner place,
              )
              (inr (inl refl)) refl,
        )
        | inr (j, busy) ↦
            (outcome m (lock_head op) silent, rw (start, busy), wait i (lock_head op) place)
      ]

  pub lock_curr-Progress :
      (i address : ℕ) (op : Op) (pred curr : ℕ)
      → Place l m xs i (lock_curr op pred curr)
      → Returns
          (fine_step l i address m (lock_curr op pred curr))
          (Progress l m xs i (lock_curr op pred curr))
  unfolding fine_step
  lock_curr-Progress i address op pred curr (lock, at, f) =
      let there = curr-IsNode (key_of op) pred curr at in
      elim (Option-cases (m.owner curr)) [
        | inl free ↦ (
          outcome (taken i m curr) (holding op pred curr) silent,
          rw (there, free),
          stay i (lock_curr op pred curr) (holding op pred curr) silent (taken i m curr).owner
              (λ a j ne held. taken-locks i curr a j free held)
              (
                taken-locks i curr pred i free lock,
                taken_self i curr,
                record { inside = at.inside; next = at.next; before = at.before },
                Mine-locks op (taken i m curr).owner f,
              )
              (inr (inl refl)) refl,
        )
        | inr (j, busy) ↦ (
          outcome m (lock_curr op pred curr) silent,
          rw (there, busy),
          wait i (lock_curr op pred curr) (lock, at, f),
        )
      ]

  -- The walk goes one node on.
  pub walk-Progress :
      (i : ℕ) (op : Op) (pred curr : ℕ)
      → Place l m xs i (holding op pred curr)
      → not (curr == l.tail) && ltb_ℤ (node_of m.cell curr).key (key_of op) ≡ true
      → Progress l m xs i
          (holding op pred curr)
          (outcome (freed m pred) (lock_curr op curr (node_of m.cell curr).next) silent)
  walk-Progress i op pred curr (lock, lock', at, f) on =
      let inside : has curr (l.head ∷ xs) ≡ true =
        elim (Trail-next m.cell l.tail l.head pred xs s.path at.inside).0 [
          | inl at_tail ↦ ground (arith, at_tail, at.next)
          | inr there ↦ ground (arith, there, at.next)
        ] in
      stay i (holding op pred curr) (lock_curr op curr (node_of m.cell curr).next) silent
        (freed m pred).owner (λ a j ne held. freed-locks i pred a j lock ne held)
        (
          freed-ne pred curr (λ e. pred-ne-curr (key_of op) pred curr at (sym e)) ∙ lock',
          record { inside = inside; next = refl; before = λ h. ground arith },
          Mine-locks op (freed m pred).owner f,
        )
        (inr (inl refl)) refl

  pub unlock_both-Progress :
      (i : ℕ) (first second : ℕ) (answer : Answer)
      → Place l m xs i (unlock_both first second answer)
      → Progress l m xs i
          (unlock_both first second answer)
          (outcome (freed m first) (unlock_last second answer) silent)
  unlock_both-Progress i first second answer (lock, lock', ne) =
      stay i (unlock_both first second answer) (unlock_last second answer) silent
        (freed m first).owner (λ a j other held. freed-locks i first a j lock other held)
        (freed-ne first second (λ e. ne (sym e)) ∙ lock') (inl refl) refl

  pub unlock_last-Progress :
      (i last : ℕ) (answer : Answer)
      → Place l m xs i (unlock_last last answer)
      → Progress l m xs i (unlock_last last answer) (outcome (freed m last) idle (returned answer))
  unlock_last-Progress i last answer lock =
      stay i (unlock_last last answer) idle (returned answer) (freed m last).owner
        (λ a j other held. freed-locks i last a j lock other held) tt (inl refl) refl
