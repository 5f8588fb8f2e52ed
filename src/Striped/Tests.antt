-- ===== src/Striped/Tests.antt =====
-- hash/StripedHash.c: runs of two threads, and the theorems at their states.
use algorithm_collection.Common.{
  ℕ, zero, suc, ◌*◌, ◌^◌, ◌≡◌, ◌⊎◌, refl, Bool, true, false, none, some, List, [], ◌∷◌, arith, ℤ,
  pos, Run, ok, fault, ltb,
}
use algorithm_collection.Common.Chains.{lookup}
use algorithm_collection.Hash.Table
use algorithm_collection.Hash.Chain
use algorithm_collection.Hash.Table.Moves.{IsTable}
use algorithm_collection.Striped.{Memory, init_hashtable, rebuild}
use algorithm_collection.Striped.Threads.{
  finding, said, Thread, unlock_done, looked, resize_work, Event, Outcome, outcome, attempt,
  striped_step,
}
use algorithm_collection.Striped.System.{System, Reach, start, later, call_add, run}
use algorithm_collection.Striped.Exclusion.{moved, lock_exclusive}
use algorithm_collection.Striped.Failure.{IsStuck, now, resize_failed-IsStuck}
use algorithm_collection.Striped.Contents.{contents}
use algorithm_collection.Striped.Attempts.{stale_find-misses}
use algorithm_collection.Striped.Answers.{Matched}
use algorithm_collection.Striped.Accounts.{value_after, IsTruthful}
use algorithm_collection.Striped.Refinement.{contents-value_after}

memory_there : ℕ → Bool
memory_there k = true

-- A table of `n` buckets with as many locks.
abbrev first : ℕ → Memory
first n = record {
  set_size = 0;
  bucket = (Table.init_bucket (λ k. true) n).0;
  table_size = n;
  old_bucket = [];
  old_table_size = 0;
  lock_size = n;
  owner = λ k. none;
}

first_made : init_hashtable true (λ k. true) true 2 ≡ some (first 2)
unfolding init_hashtable Table.init_bucket Table.init_lists
first_made = refl

-- A state with the events that led to it.
record Trace (n : ℕ) : Type 0 where
  events : List (ℕ × Event)
  state : System
  reach : Reach (first n) events state

stepped :
    (n : ℕ) (t : Trace n) (i : ℕ)
    → (b : Bool) → ltb (t.state.mem.table_size * 2) (2 ^ 32) ≡ b
    → (r : Run Outcome) → striped_step i (λ k. true) t.state.mem (t.state.thread i) ≡ r
    → Trace n
stepped n t i true small (ok out) ran = record {
  events = _;
  state = _;
  reach = later t.reach (run i (λ k. true) _ out (ground arith) refl ran);
}
stepped n t i true small (fault f) ran = t
stepped n t i false small r ran = t

-- The next steps of thread `i`.
go_on : (n : ℕ) → ℕ → (i : ℕ) → Trace n → Trace n
unfolding stepped
go_on n zero i t = t
go_on n (suc rounds) i t = go_on n rounds i (stepped n t i _ refl _ refl)

begin : (n : ℕ) → Trace n
begin n = record { events = []; state = _; reach = start }

-- Thread 0 adds 3 and is at the end of it; thread 1 adds 5 and has the lock.
two_threads : Trace 2
unfolding begin go_on striped_step attempt Table.hash_code Table.bucket_at Chain.add_node
    Chain.add_node_op Table.init_bucket Table.init_lists
two_threads =
    let t₀ = begin 2 in
    let t₁ =
      go_on 2 7 0
        (record { events = _; state = _; reach = later t₀.reach (call_add 0 3 (pos 30) refl) }) in
    go_on 2 3 1
      (record { events = _; state = _; reach = later t₁.reach (call_add 1 5 (pos 50) refl) })

two_threads_value : value_after two_threads.events (pos 3) ≡ some (pos 30)
unfolding two_threads
two_threads_value = refl

contents-value_after_example :
    Matched two_threads.events
    × (IsStuck 2 two_threads.state
        ⊎ (IsTable two_threads.state.mem.table_size two_threads.state.mem.bucket
            × ((q : ℤ) → contents two_threads.state.mem q ≡ value_after two_threads.events q)
            × IsTruthful two_threads.events))
contents-value_after_example =
    contents-value_after (λ k. true) 2 (first 2) (omega arith) (omega arith) first_made
      two_threads.reach

lock_exclusive_example : ◌≡◌ {A = ℕ} 1 1
unfolding two_threads
lock_exclusive_example =
    lock_exclusive (first 2) 1 1 1 (omega arith) two_threads.reach (omega arith) refl refl

-- Thread 0 adds a key, from its call up to what it returns.
one_more : ℕ → Trace 1 → Trace 1
unfolding go_on
one_more key t =
    elim (t.state.thread 0) as (λ th. t.state.thread 0 ≡ th → Trace 1) [
      | Thread.idle ↦ λ e.
          go_on 1 9 0
            (record { events = _; state = _; reach = later t.reach (call_add 0 key (pos 0) e) })
      | _ ↦ λ e. t
    ]
      refl

-- Five keys in one bucket: the fifth `add` goes on to `resize`, and has the lock.
full : Trace 1
unfolding begin one_more go_on striped_step attempt Table.hash_code Table.bucket_at Chain.add_node
    Chain.add_node_op Table.init_bucket Table.init_lists
full = go_on 1 3 0 (one_more 5 (one_more 4 (one_more 3 (one_more 2 (one_more 1 (begin 1))))))

full_thread : full.state.thread 0 ≡ resize_work (said true) 1
unfolding full
full_thread = refl

-- What its `resize` leaves when `calloc` answers NULL.
without_memory : Outcome
without_memory =
    outcome
      (record full.state.mem {
        old_table_size = 1;
        old_bucket = full.state.mem.bucket;
        bucket = [];
      })
      Thread.idle (Event.returned (said true))

full_size : full.state.mem.table_size ≡ 1
unfolding full
full_size = refl

without_memory_ran :
    striped_step 0 (λ k. false) full.state.mem (resize_work (said true) full.state.mem.table_size)
    ≡ ok without_memory
unfolding without_memory striped_step rebuild Table.init_bucket
without_memory_ran = rw full_size refl

resize_failed-IsStuck_example : IsStuck 1 (moved full.state 0 without_memory)
unfolding Table.init_bucket
resize_failed-IsStuck_example =
    resize_failed-IsStuck (first 1) 0 (λ k. false) (said true) without_memory (omega arith)
      full.reach (rw full_size full_thread) refl without_memory_ran now

-- The key 1 in a table of two buckets, looked for in the bucket of a table of one.
doubled : Memory
doubled = record (first 2) {
  bucket = some [] ∷ some (record { key = pos 1; value = pos 10 } ∷ []) ∷ [];
}

doubled-IsTable : IsTable 2 doubled.bucket
unfolding doubled
doubled-IsTable = record {
  width = refl;
  positive = omega arith;
  narrow = omega arith;
  placed = (tt, tt, ((tt, tt), (refl, tt), tt));
}

doubled_has : contents doubled (pos 1) ≡ some (pos 10)
unfolding doubled lookup
doubled_has = refl

stale_find-misses_example :
    attempt true doubled (finding 1) 0 0 0
    ≡ ok (outcome doubled (unlock_done (finding 1) 0 (said false)) (looked 1 0 2 false))
unfolding doubled
stale_find-misses_example =
    stale_find-misses doubled true 1 0 0 0 doubled-IsTable (omega arith) (omega arith)
