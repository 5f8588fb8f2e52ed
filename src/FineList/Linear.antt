-- ===== src/FineList/Linear.antt =====
-- list/FineGrainedSynchroList.c: the functions behave as if each took effect at once, on a sorted
-- chain, in the order in which their work is done; and no access of theirs is a fault.
use algorithm_collection.Common.{
  ℕ, ◌≡◌, ◌≢◌, refl, true, false, none, some, List, [], ◌∷◌, arith, pos, ◌==◌, ok, ap, sym, ◌∙◌,
  subst, is_none,
}
use algorithm_collection.Common.Chains.{Chain, lookup, IsSorted, insert, erase}
use algorithm_collection.FineList.{Ends, Memory, update, load, create_node}
use algorithm_collection.FineList.Paths.{Trail, chain_of}
use algorithm_collection.FineList.Threads.{
  Op, adding, deleting, finding, Answer, added, got, idle, holding, Event, silent, called, done,
  returned, refused, Outcome, fine_step,
}
use algorithm_collection.FineList.Facts.{Place, Effect}
use algorithm_collection.FineList.Answers.{Matched, Reach-Matched}
use algorithm_collection.FineList.System.{System, IsAvailable, Reach, start, later}
use algorithm_collection.FineList.{init_list}
use algorithm_collection.FineList.Invariant.{Inv, Step-Inv}
use algorithm_collection.FineList.Moves.Steps.{fine_step-Progress}

-- The chain after the functions were called one after the other, the latest first.
abbrev pub chain_after : List (ℕ × Event) → Chain
chain_after [] = []
chain_after ((i, silent) ∷ es) = chain_after es
chain_after ((i, called op) ∷ es) = chain_after es
chain_after ((i, done (adding key val new) answer) ∷ es) =
    insert (chain_after es) (record { key = key; value = val })
chain_after ((i, done (deleting key) answer) ∷ es) = erase key (chain_after es)
chain_after ((i, done (finding key) answer) ∷ es) = chain_after es
chain_after ((i, returned answer) ∷ es) = chain_after es
chain_after ((i, refused address answer) ∷ es) = chain_after es

-- The list that `init_list` makes of two nodes.
abbrev pub first_memory : (head tail : ℕ) → Memory
first_memory head tail = record {
  cell =
      update (update (λ a. none) tail (some (create_node (pos 0) (pos 0)))) head
        (some (record { key = pos 0; val = pos 0; next = tail }));
  owner = λ a. none;
}

-- What a function answers when it is called on a chain.
abbrev pub answer_on : Op → Chain → Answer
answer_on (adding key val new) c = added (is_none (lookup key c))
answer_on (deleting key) c = got (lookup key c)
answer_on (finding key) c = got (lookup key c)

-- Every answer is the one that the calls before it give rise to.
abbrev pub Answered : List (ℕ × Event) → Type 0
Answered [] = Unit
Answered ((i, silent) ∷ es) = Answered es
Answered ((i, called op) ∷ es) = Answered es
Answered ((i, done op answer) ∷ es) = (answer ≡ answer_on op (chain_after es)) × Answered es
Answered ((i, returned answer) ∷ es) = Answered es
Answered ((i, refused address answer) ∷ es) = Answered es

first-Inv :
    (head tail : ℕ)
    → head ≢ 0
    → tail ≢ 0
    → head ≢ tail
    → Inv
        (record { head = head; tail = tail })
        (record { mem = first_memory head tail; thread = λ i. idle })
unfolding load
first-Inv head tail h t ne = record {
  nodes = [];
  shape = record {
    path = (ground arith, ground arith, ne);
    sorted = tt;
    tail_node = ground arith;
    no_tail = ground arith;
  };
  places = λ i. tt;
  apart = λ i j p q. absurd (p refl);
}

pub init_list-Inv :
    (head tail : ℕ) (l : Ends) (m : Memory)
    → head ≢ 0
    → tail ≢ 0
    → head ≢ tail
    → init_list true head tail ≡ some (l, m)
    → (v : Inv l (record { mem = m; thread = λ i. idle })) × (chain_of m.cell v.nodes ≡ [])
unfolding init_list first-Inv
init_list-Inv head tail l m h t ne e =
    let head_there : (head == 0) ≡ false = ground arith in
    let tail_there : (tail == 0) ≡ false = ground arith in
    let made : init_list true head tail
        ≡ some (record { head = head; tail = tail }, first_memory head tail) =
      rw (head_there, tail_there) in
    let both : some (record { head = head; tail = tail }, first_memory head tail) ≡ some (l, m) =
      sym made ∙ e in
    let same : ◌≡◌ {A = Ends × Memory} (record { head = head; tail = tail }, first_memory head tail)
        (l, m) =
      cc both in
    subst
      (λ (p : Ends × Memory).
        (v : Inv p.0 (record { mem = p.1; thread = λ i. idle })) × (chain_of p.1.cell v.nodes ≡ []))
      same (first-Inv head tail h t ne, refl)

pub Reach-account :
    (l : Ends) (m₀ : Memory) {es : List (ℕ × Event)} {s : System}
    → (v : Inv l (record { mem = m₀; thread = λ i. idle })) × (chain_of m₀.cell v.nodes ≡ [])
    → Reach l m₀ es s
    → (v : Inv l s) × (chain_of s.mem.cell v.nodes ≡ chain_after es) × Answered es
Reach-account l m₀ (v, empty) start = (v, empty, tt)
Reach-account l m₀ first (later {events} {e = ev} r st) =
    let (v, chain, answers) = Reach-account l m₀ first r in
    let (w, effect) = Step-Inv l st v in
    let (chain', answers') = account ev events _ _ chain answers effect in (w, chain', answers')
  where
    account :
        (ev : ℕ × Event) (es : List (ℕ × Event)) (c c' : Chain)
        → c ≡ chain_after es
        → Answered es
        → Effect ev.1 c c'
        → (c' ≡ chain_after (ev ∷ es)) × Answered (ev ∷ es)
    account (i, silent) es c c' a h f = (f ∙ a, h)
    account (i, called op) es c c' a h f = (f ∙ a, h)
    account (i, done (adding key val new) answer) es c c' a h f = (
      f.0 ∙ ap (λ (x : Chain). insert x (record { key = key; value = val })) a,
      (f.1 ∙ ap (answer_on (adding key val new)) a, h),
    )
    account (i, done (deleting key) answer) es c c' a h f =
        (f.0 ∙ ap (erase key) a, (f.1 ∙ ap (answer_on (deleting key)) a, h))
    account (i, done (finding key) answer) es c c' a h f =
        (f.0 ∙ a, (f.1 ∙ ap (answer_on (finding key)) a, h))
    account (i, returned answer) es c c' a h f = (f ∙ a, h)
    account (i, refused address answer) es c c' a h f = (f ∙ a, h)

-- From a list that `init_list` made, of two different nodes, in every state that the threads reach:
-- the nodes lead from `head` to `tail` in the order of rising keys; their keys and values are those
-- that the calls whose work is done leave when they run one after the other, in that order; each of
-- these calls answers what it answers then; and each thread, between a call and its return, does
-- that call's work and returns that work's answer, or is an `add` that returns false at once since
-- `calloc` answers NULL.
pub linearizable :
    (head tail : ℕ) (l : Ends) (m₀ : Memory) {es : List (ℕ × Event)} {s : System}
    → head ≢ 0
    → tail ≢ 0
    → head ≢ tail
    → init_list true head tail ≡ some (l, m₀)
    → Reach l m₀ es s
    → (xs : List ℕ) × Trail s.mem.cell l.tail l.head xs
      × IsSorted (chain_of s.mem.cell xs)
      × (chain_of s.mem.cell xs ≡ chain_after es)
      × Answered es
      × Matched es
linearizable head tail l m₀ h t ne e r =
    let (v, chain, answers) = Reach-account l m₀ (init_list-Inv head tail l m₀ h t ne e) r in
    (v.nodes, v.shape.path, v.shape.sorted, chain, answers, Reach-Matched r)

-- In a reachable state, the next step of any thread ends with no fault, whatever unused address, or
-- NULL, `calloc` answers.
pub fine_step-safe :
    (head tail : ℕ) (l : Ends) (m₀ : Memory) {es : List (ℕ × Event)} {s : System} (i address : ℕ)
    → head ≢ 0
    → tail ≢ 0
    → head ≢ tail
    → init_list true head tail ≡ some (l, m₀)
    → Reach l m₀ es s
    → IsAvailable s.mem address
    → (out : Outcome) × (fine_step l i address s.mem (s.thread i) ≡ ok out)
fine_step-safe head tail l m₀ {s = s} i address h t ne e r free =
    let (v, chain, answers) = Reach-account l m₀ (init_list-Inv head tail l m₀ h t ne e) r in
    let (out, ran, p) =
      fine_step-Progress l s.mem v.nodes v.shape i address (s.thread i) free (v.places i) in
    (out, ran)

-- In a reachable state, two threads at their work, each between its two nodes, have no node in common.
pub holding_exclusive :
    (head tail : ℕ) (l : Ends) (m₀ : Memory) {es : List (ℕ × Event)} {s : System} (i j : ℕ)
    (op op' : Op) (p c p' c' : ℕ)
    → head ≢ 0
    → tail ≢ 0
    → head ≢ tail
    → init_list true head tail ≡ some (l, m₀)
    → Reach l m₀ es s
    → i ≢ j
    → s.thread i ≡ holding op p c
    → s.thread j ≡ holding op' p' c'
    → (p ≢ p') × (p ≢ c') × (c ≢ p') × (c ≢ c')
holding_exclusive head tail l m₀ {s = s} i j op op' p c p' c' h t ne e r other at_i at_j =
    let (v, chain, answers) = Reach-account l m₀ (init_list-Inv head tail l m₀ h t ne e) r in
    let a = subst (Place l s.mem v.nodes i) at_i (v.places i) in
    let b = subst (Place l s.mem v.nodes j) at_j (v.places j) in
    (apart p p' a.0 b.0, apart p c' a.0 b.1, apart c p' a.1 b.0, apart c c' a.1 b.1)
  where
    apart : (x y : ℕ) → s.mem.owner x ≡ some i → s.mem.owner y ≡ some j → x ≢ y
    apart x y lock lock' same =
        let both : some i ≡ some j = sym lock ∙ ap s.mem.owner same ∙ lock' in
        other (ground (arith, both))
