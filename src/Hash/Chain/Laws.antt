-- ===== src/Hash/Chain/Laws.antt =====
-- hash/Hash.c: the walks over one sorted chain do what the reference operations on chains say.
use algorithm_collection.Common.{
  not, ◌&&◌, is_empty, ◌≡◌, refl, [], ◌∷◌, arith, ℤ, if◌then◌else◌, ok, fault, null_pointer,
  is_none, is_some,
}
use algorithm_collection.Common.Chains.{
  Node, Chain, lookup, IsSorted, insert, lookup-below, all_below, erase, erase_absent,
}
use algorithm_collection.Hash.Chain.{add_node_op, delete_loop, delete_node, find_node}

-- A node is linked, in its place, exactly when its key is absent.
pub add_node_op-eq :
    (c : Chain) (n : Node) → IsSorted c → add_node_op c n ≡ (insert c n, is_none (lookup n.key c))
unfolding add_node_op insert lookup
add_node_op-eq [] n s = refl
add_node_op-eq (m ∷ c) n s = ground (arith, add_node_op-eq c n s.1, lookup-below n.key m.key c)

pub find_node-lookup : (c : Chain) (q : ℤ) → IsSorted c → find_node c q ≡ is_some (lookup q c)
unfolding find_node lookup
find_node-lookup [] q s = refl
find_node-lookup (m ∷ c) q s = ground (arith, find_node-lookup c q s.1, lookup-below q m.key c)

delete_loop-eq :
    (c : Chain) (k : ℤ)
    → IsSorted c
    → delete_loop c k ≡ (if all_below k c then fault null_pointer else ok (erase k c, lookup k c))
unfolding delete_loop erase lookup
delete_loop-eq [] k s = refl
delete_loop-eq (n ∷ c) k s =
    ground (arith, delete_loop-eq c k s.1, lookup-below k n.key c, erase_absent k c)

-- The test of `curr->key` before `curr != NULL`: a search that runs off the end of a chain with
-- nodes reads through NULL, and every other search removes the node under the key.
pub delete_node-eq :
    (c : Chain) (k : ℤ)
    → IsSorted c
    → delete_node c k ≡ (
        if not (is_empty c) && all_below k c
        then fault null_pointer
        else ok (erase k c, lookup k c))
unfolding delete_node erase lookup
delete_node-eq [] k s = refl
delete_node-eq (n ∷ c) k s = delete_loop-eq (n ∷ c) k s
