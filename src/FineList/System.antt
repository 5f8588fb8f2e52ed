-- ===== src/FineList/System.antt =====
-- list/FineGrainedSynchroList.c: any number of threads over one list, interleaved.
use algorithm_collection.Common.{ℕ, ◌≡◌, ◌⊎◌, none, List, [], ◌∷◌, ℤ, ok}
use algorithm_collection.FineList.{Ends, Memory, update}
use algorithm_collection.FineList.Threads.{
  Thread, idle, create, lock_head, adding, deleting, finding, Event, called, Outcome, fine_step,
}

pub record System : Type 0 where
  pub mem : Memory
  pub thread : ℕ → Thread

-- What `calloc` may answer: NULL, or memory that is not in use.
abbrev pub IsAvailable : Memory → ℕ → Type 0
IsAvailable m address = (address ≡ 0) ⊎ (m.cell address ≡ none)

-- A step of the system, with its thread and what it shows. A thread that is idle may call any function; a thread in
-- one of them makes its next step.
pub data Step (l : Ends) (s : System) : ℕ × Event → System → Type 0 where
  call_add :
      (i : ℕ) (key val : ℤ)
      → s.thread i ≡ idle
      → Step l s
          (i, called (adding key val 0))
          (record s { thread = update s.thread i (create key val) })
  call_delete :
      (i : ℕ) (key : ℤ)
      → s.thread i ≡ idle
      → Step l s
          (i, called (deleting key))
          (record s { thread = update s.thread i (lock_head (deleting key)) })
  call_find :
      (i : ℕ) (key : ℤ)
      → s.thread i ≡ idle
      → Step l s
          (i, called (finding key))
          (record s { thread = update s.thread i (lock_head (finding key)) })
  run :
      (i address : ℕ) (th : Thread) (out : Outcome)
      → s.thread i ≡ th
      → IsAvailable s.mem address
      → fine_step l i address s.mem th ≡ ok out
      → Step l s (i, out.event) (record { mem = out.mem; thread = update s.thread i out.thread })

-- The states that can be reached from a list that `init_list` made, with the events on the way, the
-- latest first.
pub data Reach (l : Ends) (m₀ : Memory) : List (ℕ × Event) → System → Type 0 where
  start : Reach l m₀ [] (record { mem = m₀; thread = λ i. idle })
  later :
      {events : List (ℕ × Event)} {s t : System} {e : ℕ × Event}
      → Reach l m₀ events s
      → Step l s e t
      → Reach l m₀ (e ∷ events) t
