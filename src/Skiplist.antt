-- ===== src/Skiplist.antt =====
-- list/Skiplist.c and list/Skiplist.h: the skip list under one mutex, so each operation is one atomic
-- step, a function of the nodes in memory. `calloc` and `rand` are parameters: an address that is
-- not in use, or 0 for NULL, and a number.
pub mod Levels
pub mod Walk
pub mod Places
pub mod Search
pub mod Creation
pub mod Links
pub mod Insertion
pub mod Nodes
pub mod Adding
mod Tests
use algorithm_collection.Common.{
  ℕ, zero, suc, ◌+◌, ◌-◌, ◌%◌, Bool, true, false, ◌&&◌, Option, none, some, List, [], ◌∷◌, ℤ, pos,
  ltb_ℤ, eqb_ℤ, ◌==◌, if◌then◌else◌, is_none, set, replicate, Run, ok, fault, null_pointer,
  out_of_range, division_by_zero, unfinished, ◌>>=◌,
}

-- `skiplist_node_t`. An address is a number, and 0 is NULL. The array `next` has `topLevel + 1` entries.
pub record Node : Type 0 where
  pub key : ℤ
  pub val : ℤ
  pub top_level : ℕ
  pub next : List ℕ

abbrev pub Cells : Type 0
Cells = ℕ → Option Node

-- `skiplist_t`, without the arrays `preds` and `succs`, of which `search` writes every entry before
-- anything is read.
pub record Skiplist : Type 0 where
  pub max_level : ℕ
  pub head : ℕ
  pub tail : ℕ
  pub cell : Cells

abbrev pub update : Cells → ℕ → Node → Cells
update cell a n b = if b == a then some n else cell b

-- `*p`.
unfoldable pub load : Cells → ℕ → Run Node
load cell p =
    if p == 0
    then fault null_pointer
    else elim (cell p) [ none ↦ fault out_of_range | some n ↦ ok n ]

-- `a[i]`.
unfoldable pub entry : List ℕ → ℕ → Run ℕ
entry [] i = fault out_of_range
entry (x ∷ xs) zero = ok x
entry (x ∷ xs) (suc i) = entry xs i

-- `p->next[level] = q`.
unfoldable pub link : Cells → (p level q : ℕ) → Run Cells
link cell p level q = load cell p >>= λ n.
    entry n.next level >>= λ old. ok (update cell p (record n { next = set n.next level q }))

-- The `while` of `search` at one level: `pred` and `curr` at its end.
unfoldable pub walk : ℕ → Cells → ℤ → (level pred curr : ℕ) → Run (ℕ × ℕ)
walk zero cell key level pred curr = fault unfinished
walk (suc rounds) cell key level pred curr = load cell curr >>= λ n.
    let later = entry n.next level >>= λ next. walk rounds cell key level curr next in
    if ltb_ℤ n.key key then later else ok (pred, curr)

-- What `search` leaves: `lFound`, none for -1, and the arrays from level 0 on.
pub record Found : Type 0 where
  pub level : Option ℕ
  pub preds : List ℕ
  pub succs : List ℕ

-- The `for` of `search` over the levels below `level`, downwards.
unfoldable pub search_levels : ℕ → Cells → ℤ → (level pred : ℕ) → Found → Run Found
search_levels rounds cell key zero pred f = ok f
search_levels rounds cell key (suc level) pred f = do
  before ← load cell pred
  first ← entry before.next level
  (pred', curr) ← walk rounds cell key level pred first
  n ← load cell curr
  search_levels rounds cell key level pred' (record {
    level = if is_none f.level && eqb_ℤ key n.key then some level else f.level;
    preds = pred' ∷ f.preds;
    succs = curr ∷ f.succs;
  })

-- `search`, with a number of rounds for each walk.
unfoldable pub search : ℕ → Skiplist → ℤ → Run Found
search rounds sl key =
    search_levels rounds sl.cell key sl.max_level sl.head
      (record { level = none; preds = []; succs = [] })

-- `find`; 0 stands for `(val_t)NULL`.
unfoldable pub find : ℕ → Skiplist → ℤ → Run ℤ
find rounds sl key = do
  f ← search rounds sl key
  elim f.level [
    | none ↦ ok (pos 0)
    | some level ↦ (do
      p ← entry f.preds 0
      before ← load sl.cell p
      a ← entry before.next 0
      n ← load sl.cell a
      ok n.val)
  ]

-- `create_node`, where `calloc` answers.
abbrev pub create_node : (top_level : ℕ) → (key val : ℤ) → Node
create_node top_level key val = record {
  key = key;
  val = val;
  top_level = top_level;
  next = replicate (suc top_level) 0;
}

-- The `for` of `add`, from `level` on.
unfoldable pub link_levels : ℕ → Cells → (new level : ℕ) → (preds succs : List ℕ) → Run Cells
link_levels zero cell new level preds succs = ok cell
link_levels (suc count) cell new level preds succs = do
  s ← entry succs level
  cell₁ ← link cell new level s
  p ← entry preds level
  cell₂ ← link cell₁ p level new
  link_levels count cell₂ new (suc level) preds succs

-- `add`, with the answers of `rand` and `calloc`. The answer NULL is not tested.
unfoldable pub add : ℕ → (r address : ℕ) → Skiplist → ℤ → ℤ → Run (Skiplist × Bool)
add rounds r address sl key val = do
  f ← search rounds sl key
  elim f.level [
    | some level ↦ ok (sl, false)
    | none ↦
        if sl.max_level == 0
        then fault division_by_zero
        else (let top = r % sl.max_level in
            link_levels (suc top)
              (if address == 0 then sl.cell else update sl.cell address (create_node top key val))
              address 0 f.preds f.succs
            >>= λ cell. ok (record sl { cell = cell }, true))
  ]

-- The `for` of `delete` over the levels below `count`, downwards.
unfoldable pub unlink_levels : ℕ → Cells → (victim : ℕ) → (preds : List ℕ) → Run Cells
unlink_levels zero cell victim preds = ok cell
unlink_levels (suc level) cell victim preds = do
  n ← load cell victim
  s ← entry n.next level
  p ← entry preds level
  cell₁ ← link cell p level s
  unlink_levels level cell₁ victim preds

-- `delete`. The value of the node stands for the return value `true`, with `*val`.
unfoldable pub delete : ℕ → Skiplist → ℤ → Run (Skiplist × Option ℤ)
delete rounds sl key = do
  f ← search rounds sl key
  elim f.level [
    | none ↦ ok (sl, none)
    | some level ↦ (do
      victim ← entry f.succs level
      n ← load sl.cell victim
      cell ← unlink_levels (suc n.top_level) sl.cell victim f.preds
      ok (record sl { cell = cell }, some n.val))
  ]

-- The array of `head` after the loop of `init_list`, which sets the first `maxLevel` entries.
unfoldable pub first_entries : (tail max_level : ℕ) → List ℕ
first_entries tail zero = 0 ∷ []
first_entries tail (suc n) = tail ∷ first_entries tail n

-- `init_list` where every `calloc` answers: `head` and `tail` are addresses.
unfoldable pub init_list : (head tail max_level : ℕ) → (min max : ℤ) → Skiplist
init_list head tail max_level min max = record {
  max_level = max_level;
  head = head;
  tail = tail;
  cell = update (update (λ a. none) tail (create_node max_level max (pos 0))) head (record {
    key = min;
    val = pos 0;
    top_level = max_level;
    next = first_entries tail max_level;
  });
}
