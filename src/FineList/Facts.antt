-- ===== src/FineList/Facts.antt =====
-- list/FineGrainedSynchroList.c: what each thread knows while it runs, and what a step of another
-- may not change.
use algorithm_collection.Common.{
  ℕ, ◌≡◌, ◌≢◌, ◌⊎◌, true, false, none, some, List, ◌∷◌, arith, ℤ, ◌<ℤ◌, ap, sym, ◌∙◌, is_none,
}
use algorithm_collection.Common.Chains.{Chain, lookup, IsSorted, insert, erase}
use algorithm_collection.FineList.{Node, Ends, Memory, create_node}
use algorithm_collection.FineList.Paths.{has, node_or, node_of, IsNode, Trail, chain_of}
use algorithm_collection.FineList.Threads.{
  Op, adding, deleting, finding, added, got, Thread, idle, create, lock_head, lock_curr, holding,
  unlock_both, unlock_last, Event, silent, called, done, returned, refused, Outcome, key_of,
}

-- The nodes of the list, in order: linked from `head` to `tail`, with rising keys.
pub record Shape (l : Ends) (m : Memory) (xs : List ℕ) : Type 0 where
  pub path : Trail m.cell l.tail l.head xs
  pub sorted : IsSorted (chain_of m.cell xs)
  pub tail_node : IsNode m.cell l.tail
  pub no_tail : has l.tail (l.head ∷ xs) ≡ false

-- `pred` and `curr` stand next to each other, `pred` before the place of the key.
pub record At (l : Ends) (m : Memory) (xs : List ℕ) (k : ℤ) (pred curr : ℕ) : Type 0 where
  pub inside : has pred (l.head ∷ xs) ≡ true
  pub next : (node_of m.cell pred).next ≡ curr
  pub before : has pred xs ≡ true → (node_of m.cell pred).key <ℤ k

-- The new node is the thread's own.
pub record Fresh (l : Ends) (m : Memory) (xs : List ℕ) (key val : ℤ) (new : ℕ) : Type 0 where
  pub there : m.cell new ≡ some (create_node key val)
  pub nonzero : new ≢ 0
  pub outside : has new (l.head ∷ xs) ≡ false
  pub ne_tail : new ≢ l.tail

abbrev pub Mine : Ends → Memory → List ℕ → Op → Type 0
Mine l m xs (adding key val new) = Fresh l m xs key val new
Mine l m xs (deleting key) = Unit
Mine l m xs (finding key) = Unit

abbrev pub new_of : Op → ℕ
new_of (adding key val new) = new
new_of (deleting key) = 0
new_of (finding key) = 0

abbrev pub owned : Thread → ℕ
owned (lock_head op) = new_of op
owned (lock_curr op pred curr) = new_of op
owned (holding op pred curr) = new_of op
owned _ = 0

-- What thread `i` knows.
abbrev pub Place : Ends → Memory → List ℕ → ℕ → Thread → Type 0
Place l m xs i idle = Unit
Place l m xs i (create key val) = Unit
Place l m xs i (lock_head op) = Mine l m xs op
Place l m xs i (lock_curr op pred curr) =
    (m.owner pred ≡ some i) × At l m xs (key_of op) pred curr × Mine l m xs op
Place l m xs i (holding op pred curr) =
    (m.owner pred ≡ some i)
    × (m.owner curr ≡ some i)
    × At l m xs (key_of op) pred curr
    × Mine l m xs op
Place l m xs i (unlock_both first second answer) =
    (m.owner first ≡ some i) × (m.owner second ≡ some i) × (first ≢ second)
Place l m xs i (unlock_last last answer) = m.owner last ≡ some i

-- What a step of thread `i`, with the new node `mine`, leaves alone: the locks of others, the nodes
-- that it has not locked, and the new nodes of others.
pub record Quiet (l : Ends) (i mine : ℕ) (m : Memory) (xs : List ℕ) (m' : Memory) (xs' : List ℕ)
    : Type 0 where
  pub locks : (a j : ℕ) → j ≢ i → m.owner a ≡ some j → m'.owner a ≡ some j
  pub nodes :
      (a : ℕ)
      → has a (l.head ∷ xs) ≡ true
      → m.owner a ≢ some i
      → (has a (l.head ∷ xs') ≡ true)
        × (m'.cell a ≡ m.cell a)
        × (has a xs' ≡ true → has a xs ≡ true)
  pub fresh :
      (a : ℕ)
      → m.cell a ≢ none
      → a ≢ mine
      → has a (l.head ∷ xs) ≡ false
      → (has a (l.head ∷ xs') ≡ false) × (m'.cell a ≡ m.cell a)

module _ (l : Ends) (i mine : ℕ) (m : Memory) (xs : List ℕ) (m' : Memory) (xs' : List ℕ)
    (q : Quiet l i mine m xs m' xs') where
  At-Quiet :
      (k : ℤ) (j pred curr : ℕ)
      → j ≢ i
      → m.owner pred ≡ some j
      → At l m xs k pred curr
      → At l m' xs' k pred curr
  At-Quiet k j pred curr ne lock at =
      let (inside, same, back) = q.nodes pred at.inside (λ e. ne (ground (arith, lock, e))) in
      let node : node_of m'.cell pred ≡ node_of m.cell pred = ap node_or same in
      record {
        inside = inside;
        next = ap (λ (n : Node). n.next) node ∙ at.next;
        before = λ h. ground (arith, node, at.before (back h));
      }

  Fresh-Quiet :
      (key val : ℤ) (new : ℕ) → new ≢ mine → Fresh l m xs key val new → Fresh l m' xs' key val new
  Fresh-Quiet key val new ne f =
      let (outside, same) = q.fresh new (λ e. cc (sym e ∙ f.there)) ne f.outside in
      record { there = same ∙ f.there; nonzero = f.nonzero; outside = outside; ne_tail = f.ne_tail }

  Mine-Quiet : (op : Op) → (new_of op ≢ 0 → new_of op ≢ mine) → Mine l m xs op → Mine l m' xs' op
  Mine-Quiet (adding key val new) ne f = Fresh-Quiet key val new (ne f.nonzero) f
  Mine-Quiet (deleting key) ne f = tt
  Mine-Quiet (finding key) ne f = tt

  -- What another thread knows stays true.
  pub Place-Quiet :
      (j : ℕ) (th : Thread)
      → j ≢ i
      → (owned th ≢ 0 → owned th ≢ mine)
      → Place l m xs j th
      → Place l m' xs' j th
  Place-Quiet j idle ne apart p = tt
  Place-Quiet j (create key val) ne apart p = tt
  Place-Quiet j (lock_head op) ne apart p = Mine-Quiet op apart p
  Place-Quiet j (lock_curr op pred curr) ne apart (lock, at, f) =
      (q.locks pred j ne lock, At-Quiet (key_of op) j pred curr ne lock at, Mine-Quiet op apart f)
  Place-Quiet j (holding op pred curr) ne apart (lock, lock', at, f) = (
    q.locks pred j ne lock,
    q.locks curr j ne lock',
    At-Quiet (key_of op) j pred curr ne lock at,
    Mine-Quiet op apart f,
  )
  Place-Quiet j (unlock_both first second answer) ne apart (lock, lock', other) =
      (q.locks first j ne lock, q.locks second j ne lock', other)
  Place-Quiet j (unlock_last last answer) ne apart lock = q.locks last j ne lock

-- What the work of a function is to the chain, and what it answers.
abbrev pub Effect : Event → Chain → Chain → Type 0
Effect silent c c' = c' ≡ c
Effect (called op) c c' = c' ≡ c
Effect (done (adding key val new) answer) c c' =
    (c' ≡ insert c (record { key = key; value = val })) × (answer ≡ added (is_none (lookup key c)))
Effect (done (deleting key) answer) c c' = (c' ≡ erase key c) × (answer ≡ got (lookup key c))
Effect (done (finding key) answer) c c' = (c' ≡ c) × (answer ≡ got (lookup key c))
Effect (returned answer) c c' = c' ≡ c
Effect (refused address answer) c c' = c' ≡ c

-- A step of thread `i` in state `th`.
pub record Progress (l : Ends) (m : Memory) (xs : List ℕ) (i : ℕ) (th : Thread) (out : Outcome)
    : Type 0 where
  pub nodes : List ℕ
  pub shape : Shape l out.mem nodes
  pub quiet : Quiet l i (owned th) m xs out.mem nodes
  pub place : Place l out.mem nodes i out.thread
  pub claim :
      (owned out.thread ≡ 0) ⊎ (owned out.thread ≡ owned th) ⊎ (m.cell (owned out.thread) ≡ none)
  pub effect : Effect out.event (chain_of m.cell xs) (chain_of out.mem.cell nodes)
