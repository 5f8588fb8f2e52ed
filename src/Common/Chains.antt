-- ===== src/Common/Chains.antt =====
-- Sorted chains of nodes, the reference that the linked lists and the hash buckets are held
-- against: what a chain stores under a key, and its insertion and removal.
use algorithm_collection.Common.Tests.{if◌then◌else◌, is_none, is_some, or_else, to_nat}
use algorithm_collection.Common.Lists.{length}
use algorithm_collection.Common.Ints.{ℤ, ltb_ℤ, eqb_ℤ, ◌<ℤ◌}
use Prim.Native.Nat.{◌+◌}
use mathlib.Core.Path.{◌≡◌, refl}
use mathlib.Core.Bool.{Bool, true, false, ◌&&◌}
use mathlib.Core.Option.{Option, none, some}
use mathlib.Core.List.{List, [], ◌∷◌}
use native.Mathlib.Omega.{arith}

pub record Node : Type 0 where
  pub key : ℤ
  pub value : ℤ

abbrev pub Chain : Type 0
Chain = List Node

-- The value under a key, in any order of the nodes: what the chain stands for.
unfoldable pub lookup : ℤ → Chain → Option ℤ
lookup q [] = none
lookup q (n ∷ c) = if eqb_ℤ q n.key then some n.value else lookup q c

-- Every key lies above `k`.
abbrev pub Above : ℤ → Chain → Type 0
Above k [] = Unit
Above k (n ∷ c) = (k <ℤ n.key) × Above k c

abbrev pub IsSorted : Chain → Type 0
IsSorted [] = Unit
IsSorted (n ∷ c) = Above n.key c × IsSorted c

pub Above-weaken : (j k : ℤ) (c : Chain) → j <ℤ k → Above k c → Above j c
Above-weaken j k [] h a = tt
Above-weaken j k (n ∷ c) h a = (omega arith, Above-weaken j k c h a.1)

-- A key below or at a bound of the chain is not in it.
pub lookup-below : (q k : ℤ) (c : Chain) → ltb_ℤ k q ≡ false → Above k c → lookup q c ≡ none
unfolding lookup
lookup-below q k [] h a = refl
lookup-below q k (n ∷ c) h a = ground (arith, lookup-below q k c h a.1)

-- The chain with one more node, in its place; a key that is there keeps its node.
unfoldable pub insert : Chain → Node → Chain
insert [] n = n ∷ []
insert (m ∷ c) n =
    if ltb_ℤ n.key m.key then n ∷ m ∷ c else (if eqb_ℤ n.key m.key then m ∷ c else m ∷ insert c n)

Above-insert : (k : ℤ) (c : Chain) (n : Node) → k <ℤ n.key → Above k c → Above k (insert c n)
unfolding insert
Above-insert k [] n h a = (h, tt)
Above-insert k (m ∷ c) n h a = ground (arith, Above-insert k c n h a.1)

pub insert-IsSorted : (c : Chain) (n : Node) → IsSorted c → IsSorted (insert c n)
unfolding insert
insert-IsSorted [] n s = (tt, tt)
insert-IsSorted (m ∷ c) n s =
    ground (arith, insert-IsSorted c n s.1, Above-insert m.key c n, Above-weaken n.key m.key c)

pub lookup-insert :
    (q : ℤ) (c : Chain) (n : Node)
    → IsSorted c
    → lookup q (insert c n) ≡ or_else (lookup q c) (if eqb_ℤ q n.key then some n.value else none)
unfolding insert lookup
lookup-insert q [] n s = refl
lookup-insert q (m ∷ c) n s = ground (arith, lookup-insert q c n s.1, lookup-below q m.key c)

pub length-insert :
    (c : Chain) (n : Node)
    → IsSorted c
    → length (insert c n) ≡ length c + to_nat (is_none (lookup n.key c))
unfolding insert lookup
length-insert [] n s = refl
length-insert (m ∷ c) n s = ground (arith, length-insert c n s.1, lookup-below n.key m.key c)

-- A key that is there keeps its node.
pub insert_present :
    (c : Chain) (n : Node) (v : ℤ) → lookup n.key c ≡ some v → IsSorted c → insert c n ≡ c
unfolding insert lookup
insert_present [] n v h s = cc h
insert_present (m ∷ c) n v h s = ground (arith, insert_present c n v, lookup-below n.key m.key c)

-- Every key lies below `k`, so that a walk for `k` runs off the end.
abbrev pub all_below : ℤ → Chain → Bool
all_below k [] = true
all_below k (n ∷ c) = ltb_ℤ n.key k && all_below k c

-- The chain without the first node under `k`.
unfoldable pub erase : ℤ → Chain → Chain
erase k [] = []
erase k (n ∷ c) = if eqb_ℤ k n.key then c else n ∷ erase k c

pub erase_absent : (k : ℤ) (c : Chain) → lookup k c ≡ none → erase k c ≡ c
unfolding erase lookup
erase_absent k [] h = refl
erase_absent k (n ∷ c) h = ground (arith, erase_absent k c)

Above-erase : (j k : ℤ) (c : Chain) → Above j c → Above j (erase k c)
unfolding erase
Above-erase j k [] a = tt
Above-erase j k (n ∷ c) a = ground (arith, Above-erase j k c a.1)

pub erase-IsSorted : (k : ℤ) (c : Chain) → IsSorted c → IsSorted (erase k c)
unfolding erase
erase-IsSorted k [] s = tt
erase-IsSorted k (n ∷ c) s = ground (arith, erase-IsSorted k c s.1, Above-erase n.key k c)

pub lookup-erase :
    (q k : ℤ) (c : Chain)
    → IsSorted c
    → lookup q (erase k c) ≡ (if eqb_ℤ q k then none else lookup q c)
unfolding erase lookup
lookup-erase q k [] s = ground arith
lookup-erase q k (n ∷ c) s = ground (arith, lookup-erase q k c s.1, lookup-below q n.key c)

pub length-erase :
    (k : ℤ) (c : Chain) → length (erase k c) + to_nat (is_some (lookup k c)) ≡ length c
unfolding erase lookup
length-erase k [] = refl
length-erase k (n ∷ c) = ground (arith, length-erase k c)
