-- ===== src/Skiplist/Creation.antt =====
-- list/Skiplist.c: `init_list` makes a well-formed list with no keys.
use algorithm_collection.Common.{
  ℕ, zero, suc, ◌<◌, ◌≡◌, ◌≢◌, refl, false, [], ℤ, arith, pos, ◌==◌, get_or, ok, sym, ◌∙◌, ap,
  subst, eqb_refl,
}
use algorithm_collection.FineList
use algorithm_collection.FineList.Paths.{IsNode}
use algorithm_collection.Skiplist.{Cells, entry, init_list, first_entries, create_node}
use algorithm_collection.Skiplist.Levels.{at_level, IsTall, IsValid}

pub tall-IsNode :
    (cell : Cells) (level a : ℕ) → IsTall cell level a → IsNode (at_level cell level) a
unfolding FineList.load
tall-IsNode cell level a t =
    let test : (a == 0) ≡ false = ground (arith, t.nonzero) in rw (test, t.there) refl

first_entries-entry :
    (tail max_level level : ℕ)
    → level < max_level
    → (entry (first_entries tail max_level) level ≡ ok tail)
      × (get_or (first_entries tail max_level) level 0 ≡ tail)
unfolding entry first_entries
first_entries-entry tail zero level h = absurd (omega arith)
first_entries-entry tail (suc n) zero h = (refl, refl)
first_entries-entry tail (suc n) (suc level) h = first_entries-entry tail n level (omega arith)

-- A new list, of two different nodes and at least one level, is well formed and has no key.
pub init_list-IsValid :
    (head tail max_level : ℕ) (min max : ℤ)
    → head ≢ 0
    → tail ≢ 0
    → head ≢ tail
    → 0 < max_level
    → IsValid (init_list head tail max_level min max) max (λ level. [])
unfolding init_list
init_list-IsValid head tail max_level min max h t ne some_level =
    let sl = init_list head tail max_level min max in
    let test : (tail == head) ≡ false = ground arith in
    let tall : (level : ℕ) → level < max_level → IsTall sl.cell level head = λ level w.
      let (reads, gets) = first_entries-entry tail max_level level w in
      record {
        node = record {
          key = min;
          val = pos 0;
          top_level = max_level;
          next = first_entries tail max_level;
        };
        there = rw (eqb_refl head) refl;
        nonzero = h;
        reads = reads ∙ ap ok (sym gets);
      } in
    record {
      some_level = some_level;
      levels = λ level w. record {
        trail = (
          tall-IsNode sl.cell level head (tall level w),
          rw (eqb_refl head) (first_entries-entry tail max_level level w).1,
          ne,
        );
        sorted = tt;
        no_tail = ground arith;
        tall =
            λ a q. let e : head ≡ a = ground arith in subst (IsTall sl.cell level) e (tall level w);
      };
      nested = λ level a w q. q;
      last = create_node max_level max (pos 0);
      tail_there = rw (test, eqb_refl tail) refl;
      tail_nonzero = t;
      tail_key = refl;
    }
