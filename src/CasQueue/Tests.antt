-- ===== src/CasQueue/Tests.antt =====
-- queue/CASLockFreeQueue.c: a run of two threads, and the theorems at its states.
use algorithm_collection.Common.{
  ℕ, ◌≡◌, List, [], ◌∷◌, ◌++◌, arith, ℤ, pos, ok, refl, inl, inr, none, some, fault, true, Option,
  Run,
}
use algorithm_collection.CasQueue.{
  Pointer, Node, Memory, Shows, create_node, load, ready, init_queue, update,
}
use algorithm_collection.CasQueue.Threads.{
  EnqState, DeqState, Thread, idle, in_enq, in_deq, Event, silent, enqueued, saw_empty, Outcome,
  enq_step, deq_step,
}
use algorithm_collection.CasQueue.System.{
  System, with_thread, IsAvailable, Step, Reach, start, later, call_enq, call_deq, run_enq, run_deq,
}
use algorithm_collection.CasQueue.Fifo.{
  items_in, items_out, fifo, saw_empty-exact, enq_step-safe, deq_step-safe,
}

abbrev first : Memory
first = record {
  head = record { count = 0; ptr = 9 };
  tail = record { count = 0; ptr = 9 };
  cell = update (λ a. none) 9 (create_node (pos 0));
}

first_made : init_queue true 9 ≡ ready first
unfolding init_queue
first_made = refl

-- A state with the events that led to it.
record Trace : Type 0 where
  events : List Event
  state : System
  reach : Reach first events state

-- The address that `calloc` answers: `a`, unless that is in use.
free_address : (m : Memory) (a : ℕ) (o : Option Node) → m.cell a ≡ o → (b : ℕ) × IsAvailable m b
free_address m a none e = (a, inr e)
free_address m a (some n) e = (0, inl refl)

after_enq :
    (t : Trace) (i address : ℕ) (st : EnqState) (run : Run Outcome)
    → t.state.thread i ≡ in_enq st
    → IsAvailable t.state.mem address
    → enq_step address t.state.mem st ≡ run
    → Trace
after_enq t i address st (ok out) at_state free ran = record {
  events = _;
  state = _;
  reach = later t.reach (run_enq i address st out at_state free ran);
}
after_enq t i address st (fault f) at_state free ran = t

after_deq :
    (t : Trace) (i : ℕ) (st : DeqState) (run : Run Outcome)
    → t.state.thread i ≡ in_deq st
    → deq_step t.state.mem st ≡ run
    → Trace
after_deq t i st (ok out) at_state ran = record {
  events = _;
  state = _;
  reach = later t.reach (run_deq i st out at_state ran);
}
after_deq t i st (fault f) at_state ran = t

after : (t : Trace) (i address : ℕ) (th : Thread) → t.state.thread i ≡ th → Trace
unfolding after_enq after_deq free_address
after t i address idle at_state = t
after t i address (in_enq st) at_state =
    let (b, free) = free_address t.state.mem address (t.state.mem.cell address) refl in
    after_enq t i b st _ at_state free refl
after t i address (in_deq st) at_state = after_deq t i st _ at_state refl

-- The next access of thread `i`, which is in an operation.
go_on : ℕ → Trace → Trace
unfolding after
go_on i t = after t i 5 (t.state.thread i) refl

-- Thread 0 is in `enq` of 7 up to the link, and has not moved `tail` yet; then thread 1 calls `deq`.
linked : Trace
unfolding go_on enq_step deq_step load
linked = go_on 0 (
    go_on 0 (
      go_on 0 (
        go_on 0 (
          go_on 0
            (record { events = _; state = _; reach = later start (call_enq 0 (pos 7) refl) })))))

linked_events : linked.events ≡ enqueued (pos 7) ∷ silent ∷ silent ∷ silent ∷ silent ∷ silent ∷ []
unfolding linked
linked_events = refl

fifo_example :
    (vals : List ℤ) × Shows linked.state.mem.cell linked.state.mem.head.ptr vals
    × (items_in linked.events ≡ items_out linked.events ++ vals)
fifo_example = fifo 9 first (omega arith) first_made linked.reach

enq_step-safe_example :
    (out : Outcome) × (enq_step 0 linked.state.mem
        (EnqState.swing (pos 7) 5 (record { count = 0; ptr = 9 }))
      ≡ ok out)
unfolding linked
enq_step-safe_example =
    enq_step-safe 9 first 0 0 _ (omega arith) first_made linked.reach refl (inl refl)

-- Thread 1 finds `tail` behind, moves it, tries again and takes 7 out.
taken : Trace
unfolding linked go_on enq_step deq_step load
taken = go_on 1 (
    go_on 1 (
      go_on 1 (
        go_on 1 (
          go_on 1 (
            go_on 1 (
              go_on 1 (
                go_on 1 (
                  go_on 1 (
                    go_on 1 (
                      go_on 1 (record {
                        events = _;
                        state = _;
                        reach = later linked.reach (call_deq 1 refl);
                      })))))))))))

taken_items : items_out taken.events ≡ pos 7 ∷ []
unfolding taken
taken_items = refl

-- Then it calls `deq` again, and is before its read of `head.ptr->next`.
about_to_read : Trace
unfolding taken go_on deq_step
about_to_read =
    go_on 1
      (go_on 1 (record { events = _; state = _; reach = later taken.reach (call_deq 1 refl) }))

abbrev at_5 : Pointer
at_5 = record { count = 1; ptr = 5 }

deq_step-safe_example :
    (out : Outcome) × (deq_step about_to_read.state.mem (DeqState.load_next at_5 at_5) ≡ ok out)
unfolding about_to_read
deq_step-safe_example =
    deq_step-safe 9 first 1 (DeqState.load_next at_5 at_5) (omega arith) first_made
      about_to_read.reach refl

abbrev reading : Outcome
reading = record {
  mem = about_to_read.state.mem;
  thread = in_deq (DeqState.check at_5 at_5 (record { count = 0; ptr = 0 }));
  event = saw_empty;
}

read_empty :
    Step about_to_read.state saw_empty (record {
      mem = reading.mem;
      thread = with_thread about_to_read.state.thread 1 reading.thread;
    })
unfolding about_to_read deq_step load
read_empty = run_deq 1 (DeqState.load_next at_5 at_5) reading refl refl

saw_empty-exact_example : items_in about_to_read.events ≡ pos 7 ∷ []
unfolding about_to_read
saw_empty-exact_example =
    saw_empty-exact 9 first (omega arith) first_made about_to_read.reach read_empty
