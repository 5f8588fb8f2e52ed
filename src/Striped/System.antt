-- ===== src/Striped/System.antt =====
-- hash/StripedHash.c: any number of threads over one table, interleaved.
use algorithm_collection.Common.{
  ℕ, ◌*◌, ◌^◌, ◌<◌, ◌≡◌, List, [], ◌∷◌, Bool, ℤ, ok, ◌==◌, if◌then◌else◌,
}
use algorithm_collection.Striped.{Memory}
use algorithm_collection.Striped.Threads.{
  Thread, idle, read_size, read_hash, adding, deleting, finding, Event, called, Outcome,
  striped_step,
}

pub record System : Type 0 where
  pub mem : Memory
  pub thread : ℕ → Thread

abbrev pub with_thread : (ℕ → Thread) → ℕ → Thread → ℕ → Thread
with_thread f i th j = if j == i then th else f j

-- A step of the system, with its thread and what it shows, as long as the table has fewer than 2 ^ 31 buckets. A
-- thread that is idle may call any function; a thread in one of them makes its next step. The
-- variable `retry` starts with 2; `find` has no loop and reads no size.
pub data Step (s : System) : ℕ × Event → System → Type 0 where
  call_add :
      (i key : ℕ) (val : ℤ)
      → s.thread i ≡ idle
      → Step s
          (i, called (adding key val))
          (record s { thread = with_thread s.thread i (read_size (adding key val) 2) })
  call_delete :
      (i key : ℕ)
      → s.thread i ≡ idle
      → Step s
          (i, called (deleting key))
          (record s { thread = with_thread s.thread i (read_size (deleting key) 2) })
  call_find :
      (i key : ℕ)
      → s.thread i ≡ idle
      → Step s
          (i, called (finding key))
          (record s { thread = with_thread s.thread i (read_hash (finding key) 0 0) })
  run :
      (i : ℕ) (calloc : ℕ → Bool) (th : Thread) (out : Outcome)
      → s.mem.table_size * 2 < 2 ^ 32
      → s.thread i ≡ th
      → striped_step i calloc s.mem th ≡ ok out
      → Step s (i, out.event) (record { mem = out.mem; thread = with_thread s.thread i out.thread })

-- The states that can be reached from a new table, with the events on the way, the latest first.
pub data Reach (m₀ : Memory) : List (ℕ × Event) → System → Type 0 where
  start : Reach m₀ [] (record { mem = m₀; thread = λ i. idle })
  later :
      {events : List (ℕ × Event)} {s t : System} {e : ℕ × Event}
      → Reach m₀ events s
      → Step s e t
      → Reach m₀ (e ∷ events) t
