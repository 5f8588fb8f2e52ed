-- ===== src/CoarseList/Laws.antt =====
-- list/CoarseGrainedSynchroList.c: on a list that ends in its sentinel the operations are those of
-- a sorted chain; and how `delete` cuts the sentinel off.
use algorithm_collection.Common.{
  ℕ, ◌≡◌, refl, Bool, true, false, not, ◌&&◌, none, some, [], ◌∷◌, arith, ℤ, pos, eqb_ℤ,
  if◌then◌else◌, ok, fault, null_pointer, ◌>>=◌, is_none, or_else, ap, ◌∙◌, is_empty,
}
use algorithm_collection.Common.Chains.{
  Node, Chain, lookup, IsSorted, insert, insert-IsSorted, lookup-insert, erase-IsSorted,
  lookup-erase, lookup-below, all_below, erase, erase_absent,
}
use algorithm_collection.CoarseList.{
  Cells, null, tail, node, add_loop, add, delete_loop, delete, find, free_list,
}

-- The list whose nodes are a chain, closed by the sentinel; and by NULL.
abbrev pub closed_by : Cells → Chain → Cells
closed_by end [] = end
closed_by end (n ∷ c) = node n.key n.value (closed_by end c)

add_loop-eq :
    (c : Chain) (key val : ℤ)
    → IsSorted c
    → add_loop (closed_by tail c) key val
      ≡ ok (closed_by tail (insert c (record { key = key; value = val })), is_none (lookup key c))
unfolding add_loop insert lookup
add_loop-eq [] key val s = refl
add_loop-eq (n ∷ c) key val s = ground (arith, add_loop-eq c key val s.1, lookup-below key n.key c)

-- `add` to a sorted list that ends in its sentinel, with memory at hand, ends with no fault: it
-- inserts the node in its place, and returns whether the key was absent.
pub add-insert :
    (c : Chain) (key val : ℤ)
    → IsSorted c
    → add true (closed_by tail c) key val
      ≡ ok (closed_by tail (insert c (record { key = key; value = val })), is_none (lookup key c))
unfolding add
add-insert c key val s = add_loop-eq c key val s

-- `find` in a sorted list that ends in its sentinel ends with no fault, and gives the value of the
-- key, or none.
pub find-lookup :
    (c : Chain) (key : ℤ) → IsSorted c → find (closed_by tail c) key ≡ ok (lookup key c)
unfolding find lookup
find-lookup [] key s = refl
find-lookup (n ∷ c) key s = ground (arith, find-lookup c key s.1, lookup-below key n.key c)

-- The search for `key` runs off the nodes, and the sentinel's key 0 is taken for it.
abbrev pub cuts_tail : ℤ → Chain → Bool
cuts_tail key c = eqb_ℤ key (pos 0) && all_below key c && not (is_empty c)

delete_loop-eq :
    (c : Chain) (key : ℤ)
    → IsSorted c
    → delete_loop (closed_by tail c) key ≡ (
        if eqb_ℤ key (pos 0) && all_below key c
        then ok (closed_by null c, some (pos 0))
        else ok (closed_by tail (erase key c), lookup key c))
unfolding delete_loop erase lookup
delete_loop-eq [] key s = ground arith
delete_loop-eq (n ∷ c) key s =
    ground (arith, delete_loop-eq c key s.1, lookup-below key n.key c, erase_absent key c)

-- `delete` from a sorted list that ends in its sentinel ends with no fault: the node under the key
-- goes and its value is returned, or none; except for key 0 and a list of negative keys, at least
-- one, where it returns the sentinel's value and the list loses its sentinel.
pub delete-erase :
    (c : Chain) (key : ℤ)
    → IsSorted c
    → delete (closed_by tail c) key ≡ (
        if cuts_tail key c
        then ok (closed_by null c, some (pos 0))
        else ok (closed_by tail (erase key c), lookup key c))
unfolding delete erase lookup
delete-erase [] key s = ground arith
delete-erase (n ∷ c) key s = ground (arith, delete_loop-eq (n ∷ c) key s)

-- Once the sentinel is gone, a search past the last node reads through NULL.
find_cut :
    (c : Chain) (key : ℤ)
    → all_below key c ≡ true
    → find (closed_by null c) key ≡ fault null_pointer
unfolding find
find_cut [] key h = refl
find_cut (n ∷ c) key h = ground (arith, find_cut c key)

all_below-pos : (c : Chain) (a : ℕ) → all_below (pos 0) c ≡ true → all_below (pos a) c ≡ true
all_below-pos [] a h = refl
all_below-pos (n ∷ c) a h = ground (arith, all_below-pos c a)

-- After `add` of a key to a sorted list that ends in its sentinel, with memory at hand, `find` of any
-- key gives what it gave before, and the new value for the new key where it gave none.
pub add-find :
    (c : Chain) (key val q : ℤ)
    → IsSorted c
    → add true (closed_by tail c) key val >>= (λ r. find r.0 q)
      ≡ ok (or_else (lookup q c) (if eqb_ℤ q key then some val else none))
add-find c key val q s =
    let new : Node = record { key = key; value = val } in
    rw (add-insert c key val s)
      (find-lookup (insert c new) q (insert-IsSorted c new s) ∙ ap ok (lookup-insert q c new s))

-- After `delete` of a key from a sorted list that ends in its sentinel, unless the key is 0 and the
-- list has negative keys only, at least one, `find` gives none for the key, and what it gave before
-- for any other.
pub delete-find :
    (c : Chain) (key q : ℤ)
    → IsSorted c
    → cuts_tail key c ≡ false
    → delete (closed_by tail c) key >>= (λ r. find r.0 q)
      ≡ ok (if eqb_ℤ q key then none else lookup q c)
delete-find c key q s safe =
    rw (delete-erase c key s, safe)
      (find-lookup (erase key c) q (erase-IsSorted key c s) ∙ ap ok (lookup-erase q key c s))

-- After a `delete` of 0 from a sorted list of negative keys, at least one, the next `find` of a key
-- from 0 on reads through NULL.
pub delete-find-null_pointer :
    (c : Chain) (a : ℕ)
    → IsSorted c
    → cuts_tail (pos 0) c ≡ true
    → delete (closed_by tail c) (pos 0) >>= (λ r. find r.0 (pos a)) ≡ fault null_pointer
delete-find-null_pointer c a s cut =
    rw (delete-erase c (pos 0) s, cut) (find_cut c (pos a) (all_below-pos c a (ground arith)))

-- `free_list` reaches the sentinel.
pub free_list-closed_by : (c : Chain) → free_list (closed_by tail c) ≡ ok tt
unfolding free_list
free_list-closed_by [] = refl
free_list-closed_by (n ∷ c) = free_list-closed_by c
