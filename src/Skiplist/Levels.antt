-- ===== src/Skiplist/Levels.antt =====
-- list/Skiplist.c: one level of the skip list, seen as a list linked through one pointer, and all
-- levels together.
use algorithm_collection.Common.{
  ℕ, suc, ◌<◌, ◌≡◌, ◌≢◌, true, false, Option, none, some, List, ◌∷◌, ℤ, arith, ◌==◌, get_or, ok,
}
use algorithm_collection.Common.Chains.{Chain, IsSorted}
use algorithm_collection.FineList
use algorithm_collection.FineList.Paths.{has, Trail, chain_of}
use algorithm_collection.Skiplist.{Node, Cells, Skiplist, load, entry}

-- The node as it is linked at one level.
abbrev pub one_level : ℕ → Option Node → Option FineList.Node
one_level level none = none
one_level level (some n) = some (record { key = n.key; val = n.val; next = get_or n.next level 0 })

abbrev pub at_level : Cells → ℕ → ℕ → Option FineList.Node
at_level cell level a = one_level level (cell a)

-- There is a node, and it has a pointer at the level.
pub record IsTall (cell : Cells) (level a : ℕ) : Type 0 where
  pub node : Node
  pub there : cell a ≡ some node
  pub nonzero : a ≢ 0
  pub reads : entry node.next level ≡ ok (get_or node.next level 0)

pub load-some : (cell : Cells) (a : ℕ) (n : Node) → a ≢ 0 → cell a ≡ some n → load cell a ≡ ok n
unfolding load
load-some cell a n h e = let test : (a == 0) ≡ false = ground arith in rw (test, e)

-- The nodes of a level, in order: linked from `head` to `tail`, with rising keys.
pub record IsLevel (sl : Skiplist) (level : ℕ) (xs : List ℕ) : Type 0 where
  pub trail : Trail (at_level sl.cell level) sl.tail sl.head xs
  pub sorted : IsSorted (chain_of (at_level sl.cell level) xs)
  pub no_tail : has sl.tail (sl.head ∷ xs) ≡ false
  pub tall : (a : ℕ) → has a (sl.head ∷ xs) ≡ true → IsTall sl.cell level a

-- Each level is well formed, and its nodes are on the level below.
pub record IsValid (sl : Skiplist) (max : ℤ) (xs : ℕ → List ℕ) : Type 0 where
  pub some_level : 0 < sl.max_level
  pub levels : (level : ℕ) → level < sl.max_level → IsLevel sl level (xs level)
  pub nested :
      (level a : ℕ)
      → suc level < sl.max_level
      → has a (xs (suc level)) ≡ true
      → has a (xs level) ≡ true
  pub last : Node
  pub tail_there : sl.cell sl.tail ≡ some last
  pub tail_nonzero : sl.tail ≢ 0
  pub tail_key : last.key ≡ max

-- The keys and values of the skip list: those of its lowest level.
abbrev pub chain_at : Skiplist → List ℕ → Chain
chain_at sl xs = chain_of (at_level sl.cell 0) xs
