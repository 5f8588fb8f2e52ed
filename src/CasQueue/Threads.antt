-- ===== src/CasQueue/Threads.antt =====
-- queue/CASLockFreeQueue.c: `enq` and `deq` as state machines. A state is the point before the
-- next access to shared memory, with the local variables that are live there. A `pointer_t` is
-- read whole, in one access.
use algorithm_collection.Common.{ℕ, ℤ, ◌==◌, if◌then◌else◌, Run, ok, ◌>>=◌}
use algorithm_collection.CasQueue.{Pointer, Memory, update, matches, bump, load, create_node}

pub data EnqState : Type 0 where
  create : (val : ℤ) → EnqState
  load_tail : (val : ℤ) (new : ℕ) → EnqState
  load_next : (val : ℤ) (new : ℕ) (tail : Pointer) → EnqState
  check : (val : ℤ) (new : ℕ) (tail next : Pointer) → EnqState
  link : (val : ℤ) (new : ℕ) (tail next : Pointer) → EnqState
  help : (val : ℤ) (new : ℕ) (tail next : Pointer) → EnqState
  swing : (val : ℤ) (new : ℕ) (tail : Pointer) → EnqState

pub data DeqState : Type 0 where
  load_head : DeqState
  load_tail : (head : Pointer) → DeqState
  load_next : (head tail : Pointer) → DeqState
  check : (head tail next : Pointer) → DeqState
  help : (head tail next : Pointer) → DeqState
  load_val : (head next : Pointer) → DeqState
  swing : (head next : Pointer) (val : ℤ) → DeqState

pub data Thread : Type 0 where
  idle : Thread
  in_enq : EnqState → Thread
  in_deq : DeqState → Thread

-- What a step does to the queue that the callers see: an item is in it, an item is out of it, or
-- a `deq` has read that there is none. `answer_false` is the return of such a `deq`.
pub data Event : Type 0 where
  silent : Event
  enqueued : ℤ → Event
  dequeued : ℤ → Event
  saw_empty : Event
  answer_false : Event

pub record Outcome : Type 0 where
  pub mem : Memory
  pub thread : Thread
  pub event : Event

-- One step of `enq`; `address` is what `calloc` answers, 0 for NULL.
unfoldable pub enq_step : ℕ → Memory → EnqState → Run Outcome
enq_step address m (create val) =
    if address == 0
    then ok (record { mem = m; thread = idle; event = silent })
    else ok (record {
      mem = record m { cell = update m.cell address (create_node val) };
      thread = in_enq (load_tail val address);
      event = silent;
    })
enq_step address m (load_tail val new) =
    ok (record { mem = m; thread = in_enq (load_next val new m.tail); event = silent })
enq_step address m (load_next val new tail) = load m.cell tail.ptr >>= λ n.
    ok (record { mem = m; thread = in_enq (check val new tail n.next); event = silent })
enq_step address m (check val new tail next) =
    if matches m.tail tail
    then (if next.ptr == 0
        then ok (record { mem = m; thread = in_enq (link val new tail next); event = silent })
        else ok (record { mem = m; thread = in_enq (help val new tail next); event = silent }))
    else ok (record { mem = m; thread = in_enq (load_tail val new); event = silent })
enq_step address m (link val new tail next) = load m.cell tail.ptr >>= λ n.
    if matches n.next next
    then ok (record {
      mem = record m { cell = update m.cell tail.ptr (record n { next = bump next new }) };
      thread = in_enq (swing val new tail);
      event = enqueued val;
    })
    else ok (record { mem = m; thread = in_enq (load_tail val new); event = silent })
enq_step address m (help val new tail next) = ok (record {
  mem = if matches m.tail tail then record m { tail = bump tail next.ptr } else m;
  thread = in_enq (load_tail val new);
  event = silent;
})
enq_step address m (swing val new tail) = ok (record {
  mem = if matches m.tail tail then record m { tail = bump tail new } else m;
  thread = idle;
  event = silent;
})

-- One step of `deq`.
unfoldable pub deq_step : Memory → DeqState → Run Outcome
deq_step m load_head = ok (record { mem = m; thread = in_deq (load_tail m.head); event = silent })
deq_step m (load_tail head) =
    ok (record { mem = m; thread = in_deq (load_next head m.tail); event = silent })
deq_step m (load_next head tail) = load m.cell head.ptr >>= λ n. ok (record {
  mem = m;
  thread = in_deq (check head tail n.next);
  event = if n.next.ptr == 0 then saw_empty else silent;
})
deq_step m (check head tail next) =
    if matches m.head head
    then (if head.ptr == tail.ptr
        then (if next.ptr == 0
            then ok (record { mem = m; thread = idle; event = answer_false })
            else ok (record { mem = m; thread = in_deq (help head tail next); event = silent }))
        else ok (record { mem = m; thread = in_deq (load_val head next); event = silent }))
    else ok (record { mem = m; thread = in_deq load_head; event = silent })
deq_step m (help head tail next) = ok (record {
  mem = if matches m.tail tail then record m { tail = bump head next.ptr } else m;
  thread = in_deq load_head;
  event = silent;
})
deq_step m (load_val head next) = load m.cell next.ptr >>= λ n.
    ok (record { mem = m; thread = in_deq (swing head next n.val); event = silent })
deq_step m (swing head next val) =
    if matches m.head head
    then ok (record {
      mem = record m { head = bump head next.ptr };
      thread = idle;
      event = dequeued val;
    })
    else ok (record { mem = m; thread = in_deq load_head; event = silent })
