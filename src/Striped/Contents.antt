-- ===== src/Striped/Contents.antt =====
-- hash/StripedHash.c: what the local variables of a thread say about the table, and what a step of
-- it does to the contents.
use algorithm_collection.Common.{
  ℕ, ◌%◌, ◌≤◌, ◌<◌, ◌≡◌, Bool, true, ◌&&◌, ◌==◌, Option, none, some, if◌then◌else◌, is_some, ℤ, pos,
  eqb_ℤ,
}
use algorithm_collection.Hash.Table.Buckets.{view}
use algorithm_collection.Hash.Table.Moves.{IsTable}
use algorithm_collection.Striped.{Memory}
use algorithm_collection.Striped.Threads.{
  key_of, Op, Thread, read_hash, lock_bucket, work, Event, inserted, removed, looked, missed,
  adding, deleting, finding, Outcome,
}

-- The bucket number of a thread is that of its key in a table of `n` buckets, since it read `size`.
pub record IsHashed (table_size : ℕ) (op : Op) (size hash : ℕ) : Type 0 where
  pub n : ℕ
  pub hashed : hash ≡ key_of op % n
  pub some_buckets : 0 < n
  pub after : size ≤ n
  pub before : n ≤ table_size

abbrev pub Place : Memory → Thread → Type 0
Place m (read_hash op retry size) = size ≤ m.table_size
Place m (lock_bucket op retry size hash) = IsHashed m.table_size op size hash
Place m (work op retry size hash) = IsHashed m.table_size op size hash
Place m _ = Unit

-- Why an attempt on a table whose size is as before does nothing.
abbrev pub Reason : Op → Bool → (ℤ → Option ℤ) → Type 0
Reason (adding key val) answers f = answers ≡ true → is_some (f (pos key)) ≡ true
Reason (deleting key) answers f = f (pos key) ≡ none
Reason (finding key) answers f = ⊥

-- What an event says of the contents before and after it.
abbrev pub Change : Event → (ℤ → Option ℤ) → (ℤ → Option ℤ) → Type 0
Change (inserted key val) f g =
    (f (pos key) ≡ none) × ((q : ℤ) → g q ≡ (if eqb_ℤ q (pos key) then some val else f q))
Change (removed key val) f g =
    (f (pos key) ≡ some val) × ((q : ℤ) → g q ≡ (if eqb_ℤ q (pos key) then none else f q))
Change (looked key hash now there) f g =
    (there ≡ (hash == key % now) && is_some (f (pos key))) × ((q : ℤ) → g q ≡ f q)
Change (missed op size now answers) f g = (size ≡ now → Reason op answers f) × ((q : ℤ) → g q ≡ f q)
Change _ f g = (q : ℤ) → g q ≡ f q

abbrev pub contents : Memory → ℤ → Option ℤ
contents m q = view m.table_size m.bucket q

pub record Effect (m : Memory) (out : Outcome) : Type 0 where
  pub table : IsTable out.mem.table_size out.mem.bucket
  pub grown : m.table_size ≤ out.mem.table_size
  pub place : Place out.mem out.thread
  pub change : Change out.event (contents m) (contents out.mem)
