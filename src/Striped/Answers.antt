-- ===== src/Striped/Answers.antt =====
-- hash/StripedHash.c: what each thread was asked to do, what it did, and what it returns.
use algorithm_collection.Common.{
  ℕ, zero, suc, ◌≡◌, inl, inr, refl, Bool, true, false, none, some, List, [], ◌∷◌, arith, ltb, ◌==◌,
  if◌then◌else◌, sym, Bool-cases, Option-cases, subst, Yields, Run-cases, pos,
}
use native.Mathlib.Decide.{ℕ_discrete}
use algorithm_collection.Hash.Chain
use algorithm_collection.Hash.Table
use algorithm_collection.Striped.{Memory, lock_key, rebuild, hash_code, policy}
use algorithm_collection.Striped.Threads.{
  key_of, Op, adding, deleting, finding, Answer, said, got, Thread, idle, read_size, read_hash,
  lock_bucket, work, read_count, write_count, unlock_done, unlock_missed, policy_count, policy_size,
  resize_size, resize_lock, resize_work, resize_unlock, resize_free, Event, silent, called,
  inserted, removed, looked, missed, returned, Outcome, outcome, again, finish, attempt,
  striped_step,
}
use algorithm_collection.Striped.System.{
  System, with_thread, Step, call_add, call_delete, call_find, run, Reach, start, later,
}
pub mod Steps

-- What the events of a thread say of it: no function was called, or one was called, or its attempts
-- so far did nothing, or its work was done with an answer.
pub data Stage : Type 0 where
  free : Stage
  wanted : (op : Op) → Stage
  vain : (op : Op) → Stage
  did : (answer : Answer) → Stage

abbrev pub next_stage : Stage → Event → Stage
next_stage stage silent = stage
next_stage stage (called op) = wanted op
next_stage stage (inserted key val) = did (said true)
next_stage stage (removed key val) = did (got (some val))
next_stage stage (looked key hash now there) = did (said there)
next_stage stage (missed op size now answers) = vain op
next_stage stage (returned answer) = free

abbrev pub stage_after : ℕ → List (ℕ × Event) → Stage
stage_after i [] = free
stage_after i ((j, e) ∷ es) = if i == j then next_stage (stage_after i es) e else stage_after i es

-- The answer of the work that was done, or that of an `add` or `delete` in vain.
abbrev pub IsDue : Stage → Answer → Type 0
IsDue free answer = ⊥
IsDue (wanted op) answer = ⊥
IsDue (vain (adding key val)) answer = answer ≡ said false
IsDue (vain (deleting key)) answer = answer ≡ got none
IsDue (vain (finding key)) answer = ⊥
IsDue (did result) answer = answer ≡ result

-- The function was called, and has not done its work.
abbrev pub IsAsked : Op → Stage → Type 0
IsAsked op free = ⊥
IsAsked op (wanted op') = op' ≡ op
IsAsked op (vain op') = op' ≡ op
IsAsked op (did answer) = ⊥

abbrev pub IsNext : Stage → Event → Type 0
IsNext stage silent = Unit
IsNext stage (called op) = stage ≡ free
IsNext stage (inserted key val) = IsAsked (adding key val) stage
IsNext stage (removed key val) = IsAsked (deleting key) stage
IsNext stage (looked key hash now there) = IsAsked (finding key) stage
IsNext stage (missed op size now answers) = IsAsked op stage
IsNext stage (returned answer) = IsDue stage answer

-- Each thread calls one function at a time, does its work once, and returns what is due.
abbrev pub Matched : List (ℕ × Event) → Type 0
Matched [] = Unit
Matched ((i, e) ∷ es) = IsNext (stage_after i es) e × Matched es

-- `find` makes no attempt in vain.
abbrev pub IsMissed : Op → Stage → Type 0
IsMissed (adding key val) stage = stage ≡ vain (adding key val)
IsMissed (deleting key) stage = stage ≡ vain (deleting key)
IsMissed (finding key) stage = ⊥

-- The stages that a thread may be in.
abbrev pub Stands : Thread → Stage → Type 0
Stands idle stage = stage ≡ free
Stands (read_size op retry) stage = IsAsked op stage
Stands (read_hash op retry size) stage = IsAsked op stage
Stands (lock_bucket op retry size hash) stage = IsAsked op stage
Stands (work op retry size hash) stage = IsAsked op stage
Stands (read_count op hash answer) stage = IsDue stage answer
Stands (write_count op hash count answer) stage = IsDue stage answer
Stands (unlock_done op hash answer) stage = IsDue stage answer
Stands (unlock_missed op retry hash) stage = IsMissed op stage
Stands (policy_count answer) stage = IsDue stage answer
Stands (policy_size answer count) stage = IsDue stage answer
Stands (resize_size answer) stage = IsDue stage answer
Stands (resize_lock answer size next) stage = IsDue stage answer
Stands (resize_work answer size) stage = IsDue stage answer
Stands (resize_unlock answer next moved) stage = IsDue stage answer
Stands (resize_free answer) stage = IsDue stage answer

-- A step from one stage to the next.
abbrev pub Follows : Stage → Outcome → Type 0
Follows stage out = IsNext stage out.event × Stands out.thread (next_stage stage out.event)
