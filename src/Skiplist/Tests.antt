-- ===== src/Skiplist/Tests.antt =====
-- list/Skiplist.c: runs of the operations.
use algorithm_collection.Common.{
  ℕ, zero, suc, true, List, ◌∷◌, ◌≡◌, refl, none, pos, Run, ok, ◌>>=◌,
}
use algorithm_collection.Common.{◌<◌, ◌<ℤ◌, length, arith, Returns, []}
use algorithm_collection.Common.Chains.{lookup}
use native.Mathlib.Decide.{ℕ_discrete}
use algorithm_collection.FineList
use algorithm_collection.FineList.Paths.{has}
use algorithm_collection.Skiplist.Levels.{IsTall, IsLevel, IsValid}
use algorithm_collection.Skiplist.Adding.{Added, add-chain_at}
use algorithm_collection.Skiplist.Creation.{init_list-IsValid}
use algorithm_collection.Skiplist.Search.{Searched, search-Searched, find-chain_at}
use algorithm_collection.Skiplist.{
  Node, Skiplist, update, add, delete, find, init_list, first_entries, search, search_levels, walk,
  entry, load, link, link_levels, unlink_levels,
}

-- Levels 3; the nodes 1, 2 at addresses 11, 12.
two_keys : Run Skiplist
unfolding add init_list first_entries search search_levels walk entry load link link_levels
two_keys = add 5 1 12 (init_list 1 2 3 (pos 0) (pos 100)) (pos 20) (pos 2) >>= λ r.
    add 5 2 11 r.0 (pos 10) (pos 1) >>= λ s. ok s.0

found_ten : (two_keys >>= λ sl. find 5 sl (pos 10)) ≡ ok (pos 1)
unfolding two_keys find search search_levels walk entry load
found_ten = refl

deleted : (two_keys >>= λ sl. delete 5 sl (pos 10) >>= λ r. find 5 r.0 (pos 10)) ≡ ok (pos 0)
unfolding two_keys find delete search search_levels walk entry load link unlink_levels
deleted = refl

-- A new list of three levels.
abbrev new_list : Skiplist
new_list = init_list 1 2 3 (pos 0) (pos 100)

new_list-IsValid : IsValid new_list (pos 100) (λ level. [])
new_list-IsValid =
    init_list-IsValid 1 2 3 (pos 0) (pos 100) (omega arith) (omega arith) (omega arith)
      (omega arith)

low : pos 10 <ℤ pos 100
low = omega arith

few : (level : ℕ) → level < new_list.max_level → length {A = ℕ} [] < 1
few level h = omega arith

abbrev first : Node
first = record { key = pos 0; val = pos 0; top_level = 2; next = 12 ∷ 12 ∷ [] }

abbrev ten : Node
ten = record { key = pos 10; val = pos 7; top_level = 1; next = 2 ∷ 2 ∷ [] }

-- A list of two levels, with the key 10 on both.
abbrev one_key : Skiplist
one_key = record {
  max_level = 2;
  head = 1;
  tail = 2;
  cell =
      update
        (update
          (update (λ a. none) 2
            (record { key = pos 100; val = pos 0; top_level = 2; next = 0 ∷ 0 ∷ [] }))
          12 ten)
        1 first;
}

abbrev nodes : ℕ → List ℕ
nodes level = 12 ∷ []

one_key-IsTall :
    (level a : ℕ) → level < 2 → has a (1 ∷ 12 ∷ []) ≡ true → IsTall one_key.cell level a
unfolding entry
one_key-IsTall (suc (suc level)) a w h = absurd (omega arith)
one_key-IsTall zero a w h = elim (ℕ_discrete a 1) [
  | yes e ↦ record { node = first; there = rw e refl; nonzero = omega arith; reads = refl }
  | no e ↦
      let second : a ≡ 12 = ground arith in
      record { node = ten; there = rw second refl; nonzero = omega arith; reads = refl }
]
one_key-IsTall (suc zero) a w h = elim (ℕ_discrete a 1) [
  | yes e ↦ record { node = first; there = rw e refl; nonzero = omega arith; reads = refl }
  | no e ↦
      let second : a ≡ 12 = ground arith in
      record { node = ten; there = rw second refl; nonzero = omega arith; reads = refl }
]

one_key-IsLevel : (level : ℕ) → level < 2 → IsLevel one_key level (nodes level)
unfolding FineList.load
one_key-IsLevel (suc (suc level)) w = absurd (omega arith)
one_key-IsLevel zero w = record {
  trail = (refl, refl, omega arith, refl, (refl, refl, omega arith));
  sorted = (tt, tt);
  no_tail = refl;
  tall = λ a. one_key-IsTall 0 a w;
}
one_key-IsLevel (suc zero) w = record {
  trail = (refl, refl, omega arith, refl, (refl, refl, omega arith));
  sorted = (tt, tt);
  no_tail = refl;
  tall = λ a. one_key-IsTall 1 a w;
}

one_key-IsValid : IsValid one_key (pos 100) nodes
one_key-IsValid = record {
  some_level = omega arith;
  levels = one_key-IsLevel;
  nested = λ level a w q. q;
  last = _;
  tail_there = refl;
  tail_nonzero = omega arith;
  tail_key = refl;
}

shorter : (level : ℕ) → level < one_key.max_level → length (nodes level) < 2
shorter level h = omega arith

search-Searched_example : Returns (search 2 one_key (pos 10)) (
    Searched one_key
      (pos 100)
      (pos 10)
      nodes
      one_key-IsValid
      low
      2
      shorter
      one_key.max_level
      (record { level = none; preds = []; succs = [] }))
search-Searched_example =
    search-Searched one_key (pos 100) (pos 10) nodes one_key-IsValid low 2 shorter

find-chain_at_example : find 2 one_key (pos 10) ≡ ok (pos 7)
unfolding lookup
find-chain_at_example = find-chain_at one_key (pos 100) (pos 10) nodes one_key-IsValid low 2 shorter

add-chain_at_example :
    Returns
      (add 1 1 12 new_list (pos 10) (pos 7))
      (Added new_list (pos 100) (pos 10) (pos 7) (λ level. []))
unfolding init_list
add-chain_at_example =
    add-chain_at new_list (pos 100) (pos 10) (pos 7) (λ level. []) new_list-IsValid low 1 few 1 12
      refl (omega arith)
