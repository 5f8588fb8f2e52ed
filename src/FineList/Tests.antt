-- ===== src/FineList/Tests.antt =====
-- list/FineGrainedSynchroList.c: a run of two threads, and the theorems at its states.
use algorithm_collection.Common.{
  sym, ◌∙◌, ℕ, zero, suc, ◌≡◌, ◌≢◌, refl, inl, inr, true, Option, none, some, List, [], ◌∷◌, arith,
  pos, Run, ok, fault,
}
use algorithm_collection.Common.Chains.{IsSorted, insert}
use algorithm_collection.FineList.{Node, Ends, Memory, load, init_list}
use algorithm_collection.FineList.Threads.{adding, finding, Event, Outcome, work, fine_step}
use algorithm_collection.FineList.System.{
  System, IsAvailable, Reach, start, later, call_add, call_find, run,
}
use algorithm_collection.FineList.Paths.{Trail, chain_of}
use algorithm_collection.FineList.Linear.{
  chain_after, Answered, first_memory, linearizable, fine_step-safe, holding_exclusive,
}
use algorithm_collection.FineList.Answers.{Matched}
use algorithm_collection.FineList.Deadlock.{deadlock_free}
use algorithm_collection.FineList.Threads.{holding, idle}

abbrev ends : Ends
ends = record { head = 1; tail = 2 }

first_made : init_list true 1 2 ≡ some (ends, first_memory 1 2)
unfolding init_list
first_made = refl

-- A state with the events that led to it.
record Trace : Type 0 where
  events : List (ℕ × Event)
  state : System
  reach : Reach ends (first_memory 1 2) events state

-- The address that `calloc` answers: `a`, unless that is in use.
free_address : (m : Memory) (a : ℕ) (o : Option Node) → m.cell a ≡ o → (b : ℕ) × IsAvailable m b
free_address m a none e = (a, inr e)
free_address m a (some n) e = (0, inl refl)

after :
    (t : Trace) (i address : ℕ)
    → IsAvailable t.state.mem address
    → (r : Run Outcome) → fine_step ends i address t.state.mem (t.state.thread i) ≡ r
    → Trace
after t i address free (ok out) ran = record {
  events = _;
  state = _;
  reach = later t.reach (run i address _ out refl free ran);
}
after t i address free (fault f) ran = t

-- The next steps of thread `i`.
go_on : ℕ → (i address : ℕ) → Trace → Trace
unfolding after free_address
go_on zero i address t = t
go_on (suc n) i address t =
    let (b, free) = free_address t.state.mem address (t.state.mem.cell address) refl in
    go_on n i address (after t i b free _ refl)

-- Thread 0 adds 3 at the address 5, and 7 at 6.
two_nodes : Trace
unfolding go_on fine_step work load
two_nodes =
    let one =
      go_on 6 0 5 (record {
        events = _;
        state = _;
        reach = later start (call_add 0 (pos 3) (pos 30) refl);
      }) in
    go_on 8 0 6
      (record { events = _; state = _; reach = later one.reach (call_add 0 (pos 7) (pos 70) refl) })

two_nodes_chain :
    chain_after two_nodes.events
    ≡ record { key = pos 3; value = pos 30 } ∷ record { key = pos 7; value = pos 70 } ∷ []
unfolding two_nodes insert
two_nodes_chain = refl

-- Then thread 0 adds 9 and has locked the last node and the end, while thread 1 looks for 2 and has
-- locked the head and the first node.
apart : Trace
unfolding two_nodes go_on fine_step work load
apart =
    let nine = go_on 7 0 8 (record {
      events = _;
      state = _;
      reach = later two_nodes.reach (call_add 0 (pos 9) (pos 90) refl);
    }) in
    go_on 2 1 0
      (record { events = _; state = _; reach = later nine.reach (call_find 1 (pos 2) refl) })

linearizable_example :
    (xs : List ℕ) × Trail two_nodes.state.mem.cell 2 1 xs
    × IsSorted (chain_of two_nodes.state.mem.cell xs)
    × (chain_of two_nodes.state.mem.cell xs ≡ chain_after two_nodes.events)
    × Answered two_nodes.events
    × Matched two_nodes.events
linearizable_example =
    linearizable 1 2 ends (first_memory 1 2) (omega arith) (omega arith) (omega arith) first_made
      two_nodes.reach

fine_step-safe_example :
    (out : Outcome) × (fine_step ends 0 0 apart.state.mem (apart.state.thread 0) ≡ ok out)
fine_step-safe_example =
    fine_step-safe 1 2 ends (first_memory 1 2) 0 0 (omega arith) (omega arith) (omega arith)
      first_made apart.reach (inl refl)

holding_exclusive_example :
    (◌≢◌ {A = ℕ} 6 1) × (◌≢◌ {A = ℕ} 6 5) × (◌≢◌ {A = ℕ} 2 1) × (◌≢◌ {A = ℕ} 2 5)
unfolding apart
holding_exclusive_example =
    holding_exclusive 1 2 ends (first_memory 1 2) 0 1 (adding (pos 9) (pos 90) 8) (finding (pos 2))
      6 2 1 5 (omega arith) (omega arith) (omega arith) first_made apart.reach (omega arith) refl
      refl

apart_thread : apart.state.thread 1 ≡ holding (finding (pos 2)) 1 5
unfolding apart
apart_thread = refl

apart_busy : apart.state.thread 1 ≢ idle
apart_busy e = cc (sym apart_thread ∙ e)

-- Thread 1 is ready, or waits for a thread that is.
deadlock_free_example :
    (j : ℕ) × ((address : ℕ)
      → IsAvailable apart.state.mem address
      → (out : Outcome) × (fine_step ends j address apart.state.mem (apart.state.thread j) ≡ ok out)
        × (out.thread ≢ apart.state.thread j))
deadlock_free_example =
    deadlock_free 1 2 ends (first_memory 1 2) 1 (omega arith) (omega arith) (omega arith) first_made
      apart.reach apart_busy
