-- ===== src/CasQueue/Links.antt =====
-- queue/CASLockFreeQueue.c: the nodes in the order in which they were linked, where `head` and
-- `tail` stand in it, and what the three writes to shared pointers do to that order.
pub mod Writes
pub mod Append
use algorithm_collection.Common.{
  ℕ, zero, suc, ◌+◌, ◌-◌, ◌≤◌, ◌<◌, ◌≡◌, ◌≢◌, refl, Option, none, some, List, [], ◌∷◌, ◌++◌, arith,
  ℤ, pos, ◌==◌, if◌then◌else◌, Run, ok, ap, ap₂, sym, ◌∙◌,
}
use native.Mathlib.Decide.{dec_lt}
use algorithm_collection.CasQueue.{Pointer, Node, Memory, create_node, load}

-- `at i` is the address of the node that was linked as number `i`, up to number `last`. The numbers
-- of the nodes at `head` and `tail` follow.
pub record Order : Type 0 where
  pub at : ℕ → ℕ
  pub head_at : ℕ
  pub tail_at : ℕ
  pub last : ℕ

abbrev pub node_or : Option Node → Node
node_or none = create_node (pos 0)
node_or (some n) = n

abbrev pub node_of : (ℕ → Option Node) → ℕ → Node
node_of cell a = node_or (cell a)

-- Memory holds the nodes in this order: each points to the one after it, and the last one to NULL.
-- `head` is not past `tail`.
pub record Linked (g : Order) (m : Memory) : Type 0 where
  pub head_there : m.head.ptr ≡ g.at g.head_at
  pub tail_there : m.tail.ptr ≡ g.at g.tail_at
  pub head-le-tail : g.head_at ≤ g.tail_at
  pub tail-le-last : g.tail_at ≤ g.last
  pub nonzero : (i : ℕ) → i ≤ g.last → g.at i ≢ 0
  pub loads : (i : ℕ) → i ≤ g.last → load m.cell (g.at i) ≡ ok (node_of m.cell (g.at i))
  pub nexts : (i : ℕ) → i < g.last → (node_of m.cell (g.at i)).next.ptr ≡ g.at (suc i)
  pub final : (node_of m.cell (g.at g.last)).next.ptr ≡ 0
  pub distinct : (i j : ℕ) → i ≤ g.last → j ≤ g.last → g.at i ≡ g.at j → i ≡ j

-- The order only grows, and values stay.
pub record Grows (g : Order) (m : Memory) (g' : Order) (m' : Memory) : Type 0 where
  pub head_on : g.head_at ≤ g'.head_at
  pub tail_on : g.tail_at ≤ g'.tail_at
  pub last_on : g.last ≤ g'.last
  pub same : (i : ℕ) → i ≤ g.last → g'.at i ≡ g.at i
  pub vals : (i : ℕ) → i ≤ g.last → (node_of m'.cell (g.at i)).val ≡ (node_of m.cell (g.at i)).val

-- `count` values of `f` from `i` on.
unfoldable pub items : (ℕ → ℤ) → ℕ → ℕ → List ℤ
items f i zero = []
items f i (suc count) = f i ∷ items f (suc i) count

-- The items in the queue: the values behind the node at `head`.
abbrev pub contents : Order → Memory → List ℤ
contents g m = items (λ i. (node_of m.cell (g.at i)).val) (suc g.head_at) (g.last - g.head_at)

pub items_congr :
    (f h : ℕ → ℤ) (i count : ℕ)
    → ((j : ℕ) → i ≤ j → j < i + count → f j ≡ h j)
    → items f i count ≡ items h i count
unfolding items
items_congr f h i zero e = refl
items_congr f h i (suc count) e =
    ap₂ ◌∷◌ (e i (omega arith) (omega arith))
      (items_congr f h (suc i) count (λ j p q. e j (omega arith) (omega arith)))

pub items-suc :
    (f : ℕ → ℤ) (i count j : ℕ)
    → i + count ≡ j
    → items f i (suc count) ≡ items f i count ++ f j ∷ []
unfolding items
items-suc f i zero j e = let e' : i ≡ j = omega arith in rw e'
items-suc f i (suc count) j e =
    ap (λ (l : List ℤ). f i ∷ l) (items-suc f (suc i) count j (omega arith))

-- Only the last node points to NULL.
pub next_null-last :
    (g : Order) (m : Memory) (i : ℕ)
    → Linked g m
    → i ≤ g.last
    → (node_of m.cell (g.at i)).next.ptr ≡ 0
    → i ≡ g.last
next_null-last g m i l h e = elim (dec_lt i g.last) [
  | yes below ↦ absurd (l.nonzero (suc i) below (sym (l.nexts i below) ∙ e))
  | no top ↦ omega arith
]
