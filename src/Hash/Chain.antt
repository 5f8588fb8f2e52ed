-- ===== src/Hash/Chain.antt =====
-- hash/Hash.c and hash/Hash.h: one bucket, the sorted chain of nodes behind its head. The list
-- holds the nodes from `head->next` on; each function walks it as the code's `while` does, with the
-- cell whose `next` is written as the list's constructor.
pub mod Laws
use algorithm_collection.Common.{
  ℕ, zero, suc, ◌+◌, ◌≡◌, refl, Bool, true, false, Option, none, some, List, [], ◌∷◌, arith, ℤ,
  ltb_ℤ, eqb_ℤ, ◌<ℤ◌, if◌then◌else◌, Run, ok, fault, Fault, null_pointer, ◌>>=◌,
}
use algorithm_collection.Common.Chains.{Node, Chain}

-- `calloc` answers or not; the node is zeroed, then filled.
abbrev pub create_node : Bool → ℤ → ℤ → Option Node
create_node answers key val = if answers then some (record { key = key; value = val }) else none

-- The loop of `add_node_op` from `curr` on: the chain after the call, and `ret`.
unfoldable pub add_node_op : Chain → Node → Chain × Bool
add_node_op [] new = (new ∷ [], true)
add_node_op (curr ∷ rest) new =
    let (rest', ret) = add_node_op rest new in
    if ltb_ℤ curr.key new.key
    then (curr ∷ rest', ret)
    else (if eqb_ℤ new.key curr.key then (curr ∷ rest, false) else (new ∷ curr ∷ rest, true))

-- `add_node`: a node that is not linked is freed.
unfoldable pub add_node : Bool → Chain → ℤ → ℤ → Chain × Bool
add_node answers c key val = elim (create_node answers key val) [
  | none ↦ (c, false)
  | some new ↦ add_node_op c new
]

-- The loop of `delete_node` and the test behind it. The test reads `curr->key` before it compares
-- `curr` with NULL. The value of the node is what is written to `*getval`.
unfoldable pub delete_loop : Chain → ℤ → Run (Chain × Option ℤ)
delete_loop [] key = fault null_pointer
delete_loop (curr ∷ rest) key =
    let later = delete_loop rest key >>= λ r. ok (curr ∷ r.0, r.1) in
    if ltb_ℤ curr.key key
    then later
    else (if eqb_ℤ key curr.key then ok (rest, some curr.value) else ok (curr ∷ rest, none))

-- `delete_node`: an empty chain returns before the loop.
unfoldable pub delete_node : Chain → ℤ → Run (Chain × Option ℤ)
unfolding delete_loop
delete_node [] key = ok ([], none)
delete_node (curr ∷ rest) key = delete_loop (curr ∷ rest) key

-- `find_node`, from `curr` on.
unfoldable pub find_node : Chain → ℤ → Bool
find_node [] key = false
find_node (curr ∷ rest) key = if ltb_ℤ curr.key key then find_node rest key else eqb_ℤ key curr.key
