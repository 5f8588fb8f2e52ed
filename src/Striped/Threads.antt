-- ===== src/Striped/Threads.antt =====
-- hash/StripedHash.c: `add`, `delete`, `find` and `resize` as state machines. A state is the point
-- before the next access to shared memory, with the local variables that are live there. What runs
-- on a bucket under its lock, or on all buckets under all locks, is one access.
use algorithm_collection.Common.{
  ℕ, zero, suc, ◌+◌, ◌-◌, ◌%◌, ◌^◌, Bool, true, false, Option, none, some, ℤ, pos, ltb, ◌==◌,
  if◌then◌else◌, set, Run, ok, ◌>>=◌, is_none,
}
use mathlib.Core.List.{[]}
use algorithm_collection.Hash.Table.{bucket_at}
use algorithm_collection.Striped.{
  Memory, add_node, delete_node, find_node, hash_code, lock_key, policy, rebuild,
}

-- Which function a thread is in. Keys are from 0 on.
pub data Op : Type 0 where
  adding : (key : ℕ) (val : ℤ) → Op
  deleting : (key : ℕ) → Op
  finding : (key : ℕ) → Op

abbrev pub key_of : Op → ℕ
key_of (adding key val) = key
key_of (deleting key) = key
key_of (finding key) = key

-- Return values; that of `delete` with what is written to `*getval`.
pub data Answer : Type 0 where
  said : Bool → Answer
  got : Option ℤ → Answer

pub data Thread : Type 0 where
  idle : Thread
  -- `table_size = ht->table_size`, at the head of the `do` loop; `retry` is the variable.
  read_size : (op : Op) (retry : ℕ) → Thread
  read_hash : (op : Op) (retry size : ℕ) → Thread
  lock_bucket : (op : Op) (retry size hash : ℕ) → Thread
  work : (op : Op) (retry size hash : ℕ) → Thread
  -- `ht->setSize++` or `ht->setSize--` reads and writes.
  read_count : (op : Op) (hash : ℕ) (answer : Answer) → Thread
  write_count : (op : Op) (hash count : ℕ) (answer : Answer) → Thread
  unlock_done : (op : Op) (hash : ℕ) (answer : Answer) → Thread
  unlock_missed : (op : Op) (retry hash : ℕ) → Thread
  policy_count : (answer : Answer) → Thread
  policy_size : (answer : Answer) (count : ℕ) → Thread
  resize_size : (answer : Answer) → Thread
  resize_lock : (answer : Answer) (size next : ℕ) → Thread
  resize_work : (answer : Answer) (size : ℕ) → Thread
  resize_unlock : (answer : Answer) (next : ℕ) (moved : Bool) → Thread
  resize_free : (answer : Answer) → Thread

-- That a function is called; what a step does to the contents of the table, or has looked up, `now`
-- being the size of the table then; an attempt that did nothing; and what a function returns.
pub data Event : Type 0 where
  silent : Event
  called : (op : Op) → Event
  inserted : (key : ℕ) (val : ℤ) → Event
  removed : (key : ℕ) (val : ℤ) → Event
  looked : (key hash now : ℕ) (there : Bool) → Event
  missed : (op : Op) (size now : ℕ) (answers : Bool) → Event
  returned : (answer : Answer) → Event

pub record Outcome : Type 0 where
  pub mem : Memory
  pub thread : Thread
  pub event : Event

abbrev pub outcome : Memory → Thread → Event → Outcome
outcome m th e = record { mem = m; thread = th; event = e }

abbrev pub give : Memory → ℕ → Option ℕ → Memory
give m k o = record m { owner = λ j. if j == k then o else m.owner j }

-- What a function returns after the last attempt.
abbrev pub failed : Op → Answer
failed (adding key val) = said false
failed (deleting key) = got none
failed (finding key) = said false

-- `while (retry-- > 0)`, after an attempt that did nothing.
abbrev pub again : Op → ℕ → Thread × Event
again (adding key val) zero = (policy_count (said false), silent)
again op zero = (idle, returned (failed op))
again op (suc retry) = (read_size op retry, silent)

-- After an attempt that did its work.
abbrev pub finish : Op → Answer → Thread × Event
finish (adding key val) answer = (policy_count answer, silent)
finish op answer = (idle, returned answer)

-- One attempt on the bucket, under its lock: `find` does not compare the sizes, and `add` reads the
-- bucket once it has its node.
unfoldable pub attempt : Bool → Memory → Op → (retry size hash : ℕ) → Run Outcome
attempt answers m (adding key val) retry size hash =
    if size == m.table_size
    then (if answers
        then (bucket_at m.bucket hash >>= λ c. ok (
            if (add_node answers c (pos key) val).1
            then outcome
                (record m {
                  bucket = set m.bucket hash (some (add_node answers c (pos key) val).0);
                })
                (read_count (adding key val) hash (said true)) (inserted key val)
            else outcome m (unlock_missed (adding key val) retry hash)
                (missed (adding key val) size m.table_size answers)))
        else ok (
            outcome m (unlock_missed (adding key val) retry hash)
              (missed (adding key val) size m.table_size answers)))
    else ok (
        outcome m (unlock_missed (adding key val) retry hash)
          (missed (adding key val) size m.table_size answers))
attempt answers m (deleting key) retry size hash =
    if size == m.table_size
    then (bucket_at m.bucket hash >>= λ c. delete_node c (pos key) >>= λ r. ok (elim r.1 [
      | some v ↦
          outcome (record m { bucket = set m.bucket hash (some r.0) })
            (read_count (deleting key) hash (got (some v))) (removed key v)
      | none ↦
          outcome m (unlock_missed (deleting key) retry hash)
            (missed (deleting key) size m.table_size answers)
    ]))
    else ok (
        outcome m (unlock_missed (deleting key) retry hash)
          (missed (deleting key) size m.table_size answers))
attempt answers m (finding key) retry size hash = bucket_at m.bucket hash >>= λ c. ok (
    outcome m (unlock_done (finding key) hash (said (find_node c (pos key))))
      (looked key hash m.table_size (find_node c (pos key))))

-- `lock`: a thread that does not get it stays where it is.
abbrev pub acquire : ℕ → Memory → ℕ → Thread → Thread → Outcome
acquire i m k stays goes =
    if is_none (m.owner k) then outcome (give m k (some i)) goes silent else outcome m stays silent

abbrev pub counted : Op → ℕ → ℕ
counted (adding key val) count = (count + 1) % 2 ^ 64
counted _ count = (count + (2 ^ 64 - 1)) % 2 ^ 64

-- One step of thread `i`.
unfoldable pub striped_step : (i : ℕ) → (ℕ → Bool) → Memory → Thread → Run Outcome
striped_step i calloc m idle = ok (outcome m idle silent)
striped_step i calloc m (read_size op retry) =
    ok (outcome m (read_hash op retry m.table_size) silent)
striped_step i calloc m (read_hash op retry size) =
    hash_code (pos (key_of op)) m.table_size >>= λ hash.
    ok (outcome m (lock_bucket op retry size hash) silent)
striped_step i calloc m (lock_bucket op retry size hash) = lock_key m.lock_size hash >>= λ k.
    ok (acquire i m k (lock_bucket op retry size hash) (work op retry size hash))
striped_step i calloc m (work op retry size hash) = attempt (calloc 0) m op retry size hash
striped_step i calloc m (read_count op hash answer) =
    ok (outcome m (write_count op hash m.set_size answer) silent)
striped_step i calloc m (write_count op hash count answer) =
    ok (outcome (record m { set_size = counted op count }) (unlock_done op hash answer) silent)
striped_step i calloc m (unlock_done op hash answer) = lock_key m.lock_size hash >>= λ k.
    ok (outcome (give m k none) (finish op answer).0 (finish op answer).1)
striped_step i calloc m (unlock_missed op retry hash) = lock_key m.lock_size hash >>= λ k.
    ok (outcome (give m k none) (again op retry).0 (again op retry).1)
striped_step i calloc m (policy_count answer) =
    ok (outcome m (policy_size answer m.set_size) silent)
striped_step i calloc m (policy_size answer count) = policy count m.table_size >>= λ full.
    ok (if full then outcome m (resize_size answer) silent else outcome m idle (returned answer))
striped_step i calloc m (resize_size answer) =
    ok (outcome m (resize_lock answer m.table_size 0) silent)
striped_step i calloc m (resize_lock answer size next) = ok (
    if ltb next m.lock_size
    then acquire i m next (resize_lock answer size next) (resize_lock answer size (suc next))
    else outcome m (resize_work answer size) silent)
striped_step i calloc m (resize_work answer size) =
    if size == m.table_size
    then (rebuild calloc m >>= λ r. ok (
        if r.1
        then outcome r.0 (resize_unlock answer 0 true) silent
        else outcome r.0 idle (returned answer)))
    else ok (outcome m (resize_unlock answer 0 false) silent)
striped_step i calloc m (resize_unlock answer next moved) = ok (
    if ltb next m.lock_size
    then outcome (give m next none) (resize_unlock answer (suc next) moved) silent
    else (if moved
        then outcome m (resize_free answer) silent
        else outcome m idle (returned answer)))
striped_step i calloc m (resize_free answer) =
    ok (outcome (record m { old_bucket = [] }) idle (returned answer))
