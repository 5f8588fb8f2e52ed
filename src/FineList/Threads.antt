-- ===== src/FineList/Threads.antt =====
-- list/FineGrainedSynchroList.c: `add`, `delete` and `find` as state machines. A state is the point
-- before the next lock operation, with the local variables that are live there; a step is that
-- operation with the accesses that follow it up to the next one.
use algorithm_collection.Common.{
  ℕ, Bool, true, false, not, ◌&&◌, Option, none, some, ℤ, ltb_ℤ, eqb_ℤ, ◌==◌, if◌then◌else◌, Run,
  ok, ◌>>=◌, is_none,
}
use algorithm_collection.FineList.{Node, Ends, Memory, update, load, create_node, link}

-- Which function a thread is in; `new` is `newNode`.
pub data Op : Type 0 where
  adding : (key val : ℤ) (new : ℕ) → Op
  deleting : (key : ℤ) → Op
  finding : (key : ℤ) → Op

-- The return value of `add`; that of the others, with what is written to `*val`.
pub data Answer : Type 0 where
  added : Bool → Answer
  got : Option ℤ → Answer

pub data Thread : Type 0 where
  idle : Thread
  create : (key val : ℤ) → Thread
  lock_head : (op : Op) → Thread
  lock_curr : (op : Op) (pred curr : ℕ) → Thread
  holding : (op : Op) (pred curr : ℕ) → Thread
  unlock_both : (first second : ℕ) (answer : Answer) → Thread
  unlock_last : (last : ℕ) (answer : Answer) → Thread

-- What the step shows: that a function is called (`new` is 0 then); that the work of the function
-- is done, with its answer; or that it returns, `refused` when it does so at once, `address` being
-- what `calloc` answered.
pub data Event : Type 0 where
  silent : Event
  called : (op : Op) → Event
  done : (op : Op) (answer : Answer) → Event
  returned : (answer : Answer) → Event
  refused : (address : ℕ) (answer : Answer) → Event

pub record Outcome : Type 0 where
  pub mem : Memory
  pub thread : Thread
  pub event : Event

abbrev pub key_of : Op → ℤ
key_of (adding key val new) = key
key_of (deleting key) = key
key_of (finding key) = key

-- `lock` by thread `i`: when another has the lock, or it itself, the thread stays where it is.
abbrev pub acquire : ℕ → Memory → ℕ → Thread → Outcome → Outcome
acquire i m p th out =
    if is_none (m.owner p) then out else record { mem = m; thread = th; event = silent }

abbrev pub taken : ℕ → Memory → ℕ → Memory
taken i m p = record m { owner = update m.owner p (some i) }

-- `unlock`.
abbrev pub freed : Memory → ℕ → Memory
freed m p = record m { owner = update m.owner p none }

-- The work at the place of the key, between `pred` and `curr`, whose node is `n`. `hit` tells whether
-- `curr` is a node under the key. The branch for an empty list in the source has the same
-- effect, its two writes in the other order.
unfoldable pub work : Ends → Memory → Op → (pred curr : ℕ) → Node → Run Outcome
work l m (adding key val new) pred curr n =
    if not (curr == l.tail) && eqb_ℤ key n.key
    then ok (record {
      mem = m;
      thread = unlock_both pred curr (added false);
      event = done (adding key val new) (added false);
    })
    else (load m.cell new >>= λ made. load m.cell pred >>= λ before. ok (record {
      mem = record m { cell = link (link m.cell new made curr) pred before new };
      thread = unlock_both pred curr (added true);
      event = done (adding key val new) (added true);
    }))
work l m (deleting key) pred curr n =
    if not (curr == l.tail) && eqb_ℤ key n.key
    then (load m.cell pred >>= λ before. ok (record {
      mem = record m { cell = link m.cell pred before n.next };
      thread = unlock_both curr pred (got (some n.val));
      event = done (deleting key) (got (some n.val));
    }))
    else ok (record {
      mem = m;
      thread = unlock_both pred curr (got none);
      event = done (deleting key) (got none);
    })
work l m (finding key) pred curr n =
    let answer = if not (curr == l.tail) && eqb_ℤ key n.key then got (some n.val) else got none in
    ok
      (record { mem = m; thread = unlock_both pred curr answer; event = done (finding key) answer })

-- One step of thread `i`; `address` is what `calloc` answers, 0 for NULL.
unfoldable pub fine_step : Ends → (i address : ℕ) → Memory → Thread → Run Outcome
fine_step l i address m idle = ok (record { mem = m; thread = idle; event = silent })
fine_step l i address m (create key val) =
    if address == 0
    then ok (record { mem = m; thread = idle; event = refused address (added false) })
    else ok (record {
      mem = record m { cell = update m.cell address (some (create_node key val)) };
      thread = lock_head (adding key val address);
      event = silent;
    })
fine_step l i address m (lock_head op) = load m.cell l.head >>= λ h. ok (
    acquire i m l.head (lock_head op)
      (record { mem = taken i m l.head; thread = lock_curr op l.head h.next; event = silent }))
fine_step l i address m (lock_curr op pred curr) = load m.cell curr >>= λ n. ok (
    acquire i m curr (lock_curr op pred curr)
      (record { mem = taken i m curr; thread = holding op pred curr; event = silent }))
fine_step l i address m (holding op pred curr) = load m.cell curr >>= λ n.
    if not (curr == l.tail) && ltb_ℤ n.key (key_of op)
    then ok (record { mem = freed m pred; thread = lock_curr op curr n.next; event = silent })
    else work l m op pred curr n
fine_step l i address m (unlock_both first second answer) =
    ok (record { mem = freed m first; thread = unlock_last second answer; event = silent })
fine_step l i address m (unlock_last last answer) =
    ok (record { mem = freed m last; thread = idle; event = returned answer })
