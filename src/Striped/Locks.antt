-- ===== src/Striped/Locks.antt =====
-- hash/StripedHash.c: which thread has which lock.
use algorithm_collection.Common.{
  ℕ, zero, suc, ◌%◌, ◌<◌, ◌≡◌, ◌⊎◌, refl, Bool, true, false, not, Option, none, some, arith, ltb,
  ◌==◌, ok,
}
use algorithm_collection.Striped.{Memory, lock_key}
use algorithm_collection.Striped.Threads.{
  Op, adding, deleting, finding, Answer, Thread, work, read_count, write_count, unlock_done,
  unlock_missed, resize_lock, resize_work, resize_unlock, Outcome, again, finish,
}

-- The locks that a thread has, of `n`.
abbrev pub holds : ℕ → Thread → ℕ → Bool
holds n (work op retry size hash) k = k == hash % n
holds n (read_count op hash answer) k = k == hash % n
holds n (write_count op hash count answer) k = k == hash % n
holds n (unlock_done op hash answer) k = k == hash % n
holds n (unlock_missed op retry hash) k = k == hash % n
holds n (resize_lock answer size next) k = ltb k next
holds n (resize_work answer size) k = true
holds n (resize_unlock answer next moved) k = not (ltb k next)
holds n _ k = false

-- A step of thread `i` leaves the lock as it is, takes it when it is free, or gives it back.
abbrev pub Fair : ℕ → Option ℕ → Bool → Option ℕ → Bool → Type 0
Fair i o had o' has =
    ((o' ≡ o) × (has ≡ true → had ≡ true))
    ⊎ (((o ≡ none) × (o' ≡ some i)) ⊎ ((had ≡ true) × (o' ≡ none) × (has ≡ false)))

pub record IsFair (i : ℕ) (m : Memory) (th : Thread) (out : Outcome) : Type 0 where
  pub locks : out.mem.lock_size ≡ m.lock_size
  pub stripe :
      (k : ℕ)
      → k < m.lock_size
      → Fair i
          (m.owner k)
          (holds m.lock_size th k)
          (out.mem.owner k)
          (holds m.lock_size out.thread k)

abbrev pub Frees : ℕ → Thread → Type 0
Frees n th = (k : ℕ) → holds n th k ≡ false

pub finish-Frees : (n : ℕ) (op : Op) (answer : Answer) → Frees n (finish op answer).0
finish-Frees n (adding key val) answer k = refl
finish-Frees n (deleting key) answer k = refl
finish-Frees n (finding key) answer k = refl

pub again-Frees : (n : ℕ) (op : Op) (retry : ℕ) → Frees n (again op retry).0
again-Frees n (adding key val) zero k = refl
again-Frees n (deleting key) zero k = refl
again-Frees n (finding key) zero k = refl
again-Frees n (adding key val) (suc retry) k = refl
again-Frees n (deleting key) (suc retry) k = refl
again-Frees n (finding key) (suc retry) k = refl

pub lock_key-eq : (n hash : ℕ) → 0 < n → lock_key n hash ≡ ok (hash % n)
lock_key-eq n hash h = let test : (n == 0) ≡ false = ground arith in rw test
