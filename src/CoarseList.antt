-- ===== src/CoarseList.antt =====
-- list/CoarseGrainedSynchroList.c: the linked list under one mutex. Each operation runs between
-- `lock` and `unlock`, so it is one atomic step, a function of the list.
pub mod Laws
mod Tests
use algorithm_collection.Common.{
  ℕ, ◌≡◌, Bool, true, false, ◌&&◌, Option, none, some, ℤ, pos, ltb_ℤ, eqb_ℤ, if◌then◌else◌, Run, ok,
  fault, null_pointer, ◌>>=◌,
}

-- What a `next` pointer leads to: NULL, the sentinel `list->tail`, or a node and what follows it.
-- The sentinel is zeroed by `calloc`: its key and value are 0, and its `next` is NULL.
pub data Cells : Type 0 where
  null : Cells
  tail : Cells
  node : (key val : ℤ) → Cells → Cells

-- The loop of `add` from `curr` on, and the write behind it: `pred->next` afterwards, and `ret`.
unfoldable pub add_loop : Cells → ℤ → ℤ → Run (Cells × Bool)
add_loop null key val = fault null_pointer
add_loop tail key val = ok (node key val tail, true)
add_loop (node k v next) key val =
    let later = add_loop next key val >>= λ r. ok (node k v r.0, r.1) in
    if ltb_ℤ k key
    then later
    else (if eqb_ℤ key k
        then ok (node k v next, false)
        else ok (node key val (node k v next), true))

-- `add`, on what `head->next` leads to. `answers` says whether `calloc` gives a node.
unfoldable pub add : Bool → Cells → ℤ → ℤ → Run (Cells × Bool)
add answers list key val = if answers then add_loop list key val else ok (list, false)

-- The loop of `delete` from `curr` on. It ends at the sentinel, whose key is then compared like any
-- other; the value stands for what is written to `*val`, and for the return value.
unfoldable pub delete_loop : Cells → ℤ → Run (Cells × Option ℤ)
delete_loop null key = fault null_pointer
delete_loop tail key = if eqb_ℤ key (pos 0) then ok (null, some (pos 0)) else ok (tail, none)
delete_loop (node k v next) key =
    let later = delete_loop next key >>= λ r. ok (node k v r.0, r.1) in
    if ltb_ℤ k key
    then later
    else (if eqb_ℤ key k then ok (next, some v) else ok (node k v next, none))

-- `delete`: an empty list returns before the loop.
unfoldable pub delete : Cells → ℤ → Run (Cells × Option ℤ)
delete tail key = ok (tail, none)
delete list key = delete_loop list key

-- `find`: the value stands for what is written to `*val`, and for the return value.
unfoldable pub find : Cells → ℤ → Run (Option ℤ)
find null key = fault null_pointer
find tail key = ok none
find (node k v next) key =
    let later = find next key in
    if ltb_ℤ k key then later else (if eqb_ℤ key k then ok (some v) else ok none)

-- `init_list`: the list, its head and its tail are three answers of `calloc`.
unfoldable pub init_list : Bool → Bool → Bool → Option Cells
init_list list_there head_there tail_there =
    if list_there && head_there && tail_there then some tail else none

-- `free_list`: the walk to the sentinel.
unfoldable pub free_list : Cells → Run (Unit {0})
free_list null = fault null_pointer
free_list tail = ok tt
free_list (node k v next) = free_list next
