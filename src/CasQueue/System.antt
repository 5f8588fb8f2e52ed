-- ===== src/CasQueue/System.antt =====
-- queue/CASLockFreeQueue.c: any number of threads over one queue, interleaved access by access.
use algorithm_collection.Common.{ℕ, ◌≡◌, ◌⊎◌, none, List, [], ◌∷◌, ℤ, ok, ◌==◌, if◌then◌else◌}
use algorithm_collection.CasQueue.{Memory}
use algorithm_collection.CasQueue.Threads.{
  EnqState, DeqState, Thread, idle, in_enq, in_deq, Event, silent, Outcome, enq_step, deq_step,
}

pub record System : Type 0 where
  pub mem : Memory
  pub thread : ℕ → Thread

abbrev pub with_thread : (ℕ → Thread) → ℕ → Thread → ℕ → Thread
with_thread f i th j = if j == i then th else f j

-- What `calloc` may answer: NULL, or memory that is not in use.
abbrev pub IsAvailable : Memory → ℕ → Type 0
IsAvailable m address = (address ≡ 0) ⊎ (m.cell address ≡ none)

-- A step of the system, with what it does to the queue. A thread that is idle may call either
-- operation; a thread in one of them makes its next access.
pub data Step (s : System) : Event → System → Type 0 where
  call_enq :
      (i : ℕ) (val : ℤ)
      → s.thread i ≡ idle
      → Step s silent (record s { thread = with_thread s.thread i (in_enq (EnqState.create val)) })
  call_deq :
      (i : ℕ)
      → s.thread i ≡ idle
      → Step s silent (record s { thread = with_thread s.thread i (in_deq DeqState.load_head) })
  run_enq :
      (i address : ℕ) (st : EnqState) (out : Outcome)
      → s.thread i ≡ in_enq st
      → IsAvailable s.mem address
      → enq_step address s.mem st ≡ ok out
      → Step s out.event (record { mem = out.mem; thread = with_thread s.thread i out.thread })
  run_deq :
      (i : ℕ) (st : DeqState) (out : Outcome)
      → s.thread i ≡ in_deq st
      → deq_step s.mem st ≡ ok out
      → Step s out.event (record { mem = out.mem; thread = with_thread s.thread i out.thread })

-- The states that can be reached from a queue that `init_queue` made, with the events on the way,
-- the latest first.
pub data Reach (m₀ : Memory) : List Event → System → Type 0 where
  start : Reach m₀ [] (record { mem = m₀; thread = λ i. idle })
  later :
      {events : List Event} {s t : System} {e : Event}
      → Reach m₀ events s
      → Step s e t
      → Reach m₀ (e ∷ events) t
