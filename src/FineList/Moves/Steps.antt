-- ===== src/FineList/Moves/Steps.antt =====
-- list/FineGrainedSynchroList.c: every step of a thread keeps the list in shape and does what its
-- event says.
use algorithm_collection.Common.{
  ℕ, ◌≡◌, ◌≢◌, inl, inr, refl, Bool, true, false, not, ◌&&◌, Option, none, some, List, arith, ℤ,
  ltb_ℤ, eqb_ℤ, ◌==◌, if◌then◌else◌, ok, ap, sym, ◌∙◌, Bool-cases, is_none, Returns,
}
use algorithm_collection.Common.Chains.{erase_absent}
use algorithm_collection.FineList.{Node, Ends, Memory, load, create_node}
use algorithm_collection.FineList.Paths.{node_of, chain_of}
use algorithm_collection.FineList.Threads.{
  Op, adding, deleting, finding, Answer, added, got, Thread, idle, create, lock_head, lock_curr,
  holding, unlock_both, unlock_last, silent, done, returned, key_of, freed, work, fine_step,
}
use algorithm_collection.FineList.Facts.{Shape, Place, Progress}
use algorithm_collection.FineList.System.{IsAvailable}
use algorithm_collection.FineList.Moves.{
  outcome, stay, lock_head-Progress, lock_curr-Progress, walk-Progress, unlock_both-Progress,
  unlock_last-Progress, curr-IsNode,
}
use algorithm_collection.Common.Chains.{insert_present}
use algorithm_collection.FineList.Moves.Creation.{create-Progress}
use algorithm_collection.FineList.Moves.Work.{
  found, pred-IsNode, seen-Progress, linked, cut, add-Progress, delete-Progress,
}

load-some :
    (cell : ℕ → Option Node) (a : ℕ) (n : Node) → a ≢ 0 → cell a ≡ some n → load cell a ≡ ok n
unfolding load
load-some cell a n h e = let test : (a == 0) ≡ false = ground arith in rw (test, e)

got_if : (b : Bool) (x : Option ℤ) → (if b then got x else got none) ≡ got (if b then x else none)
got_if true x = refl
got_if false x = refl

-- The work of each function, at the place of its key.
work-Progress :
    (l : Ends) (m : Memory) (xs : List ℕ)
    → Shape l m xs
    → (i : ℕ) (op : Op) (pred curr : ℕ) → Place l m xs i (holding op pred curr)
    → (not (curr == l.tail) && ltb_ℤ (node_of m.cell curr).key (key_of op)) ≡ false
    → Returns
        (work l m op pred curr (node_of m.cell curr))
        (Progress l m xs i (holding op pred curr))
unfolding work
work-Progress l m xs s i (adding key val new) pred curr (lock, lock', at, f) stop =
    let there = found l m xs s i key pred curr lock lock' at stop in
    elim (Bool-cases (not (curr == l.tail) && eqb_ℤ key (node_of m.cell curr).key)) [
      | inl hit ↦ (
        outcome m (unlock_both pred curr (added false)) (done (adding key val new) (added false)),
        rw hit,
        seen-Progress l m xs s i key pred curr lock lock' at stop (adding key val new) (added false)
            (
              sym (
                  insert_present (chain_of m.cell xs) (record { key = key; value = val })
                    (node_of m.cell curr).val (rw hit at there) s.sorted),
              ap added (sym (ap is_none (rw hit at there))),
            ),
      )
      | inr miss ↦ (
        outcome
            (record m { cell = linked l m xs s i key pred curr lock lock' at stop val new f miss })
            (unlock_both pred curr (added true)) (done (adding key val new) (added true)),
        rw (
          miss,
          load-some m.cell new (create_node key val) f.nonzero f.there,
          pred-IsNode l m xs s i key pred curr lock lock' at stop,
        ),
        add-Progress l m xs s i key pred curr lock lock' at stop val new f miss,
      )
    ]
work-Progress l m xs s i (deleting key) pred curr (lock, lock', at, f) stop =
    let there = found l m xs s i key pred curr lock lock' at stop in
    elim (Bool-cases (not (curr == l.tail) && eqb_ℤ key (node_of m.cell curr).key)) [
      | inl hit ↦ (
        outcome (record m { cell = cut l m xs s i key pred curr lock lock' at stop hit })
            (unlock_both curr pred (got (some (node_of m.cell curr).val)))
            (done (deleting key) (got (some (node_of m.cell curr).val))),
        rw (hit, pred-IsNode l m xs s i key pred curr lock lock' at stop),
        delete-Progress l m xs s i key pred curr lock lock' at stop hit,
      )
      | inr miss ↦ (
        outcome m (unlock_both pred curr (got none)) (done (deleting key) (got none)),
        rw miss,
        seen-Progress l m xs s i key pred curr lock lock' at stop (deleting key) (got none) (
          sym (erase_absent key (chain_of m.cell xs) (rw miss at there)),
          ap got (sym (rw miss at there)),
        ),
      )
    ]
work-Progress l m xs s i (finding key) pred curr (lock, lock', at, f) stop =
    let there = found l m xs s i key pred curr lock lock' at stop in
    let answer : Answer =
      if not (curr == l.tail) && eqb_ℤ key (node_of m.cell curr).key
      then got (some (node_of m.cell curr).val)
      else got none in
    (
      outcome m (unlock_both pred curr answer) (done (finding key) answer),
      refl,
      seen-Progress l m xs s i key pred curr lock lock' at stop (finding key) answer (
        refl,
        got_if (not (curr == l.tail) && eqb_ℤ key (node_of m.cell curr).key)
              (some (node_of m.cell curr).val)
            ∙ ap got (sym there),
      ),
    )

pub fine_step-Progress :
    (l : Ends) (m : Memory) (xs : List ℕ)
    → Shape l m xs
    → (i address : ℕ) (th : Thread) → IsAvailable m address
    → Place l m xs i th
    → Returns (fine_step l i address m th) (Progress l m xs i th)
unfolding fine_step
fine_step-Progress l m xs s i address idle free place = (
  outcome m idle silent,
  refl,
  stay l m xs s i idle idle silent m.owner (λ a j ne lock. lock) tt (inl refl) refl,
)
fine_step-Progress l m xs s i address (create key val) free place =
    create-Progress l m xs s i address key val free
fine_step-Progress l m xs s i address (lock_head op) free place =
    lock_head-Progress l m xs s i address op place
fine_step-Progress l m xs s i address (lock_curr op pred curr) free place =
    lock_curr-Progress l m xs s i address op pred curr place
fine_step-Progress l m xs s i address (holding op pred curr) free (lock, lock', at, f) =
    let there = curr-IsNode l m xs s (key_of op) pred curr at in
    elim (Bool-cases (not (curr == l.tail) && ltb_ℤ (node_of m.cell curr).key (key_of op))) [
      | inl on ↦ (
        outcome (freed m pred) (lock_curr op curr (node_of m.cell curr).next) silent,
        rw (there, on),
        walk-Progress l m xs s i op pred curr (lock, lock', at, f) on,
      )
      | inr stop ↦
          let (out, ran, p) = work-Progress l m xs s i op pred curr (lock, lock', at, f) stop in
          (out, rw (there, stop) ran, p)
    ]
fine_step-Progress l m xs s i address (unlock_both first second answer) free place = (
  outcome (freed m first) (unlock_last second answer) silent,
  refl,
  unlock_both-Progress l m xs s i first second answer place,
)
fine_step-Progress l m xs s i address (unlock_last last answer) free place = (
  outcome (freed m last) idle (returned answer),
  refl,
  unlock_last-Progress l m xs s i last answer place,
)
