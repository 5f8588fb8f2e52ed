-- ===== src/Striped/Accounts.antt =====
-- hash/StripedHash.c: what the events of all threads leave in the table.
use algorithm_collection.Common.{
  ℕ, ◌%◌, ◌==◌, ◌≡◌, refl, Bool, ◌&&◌, Option, none, some, if◌then◌else◌, sym, ◌∙◌, is_some, List,
  [], ◌∷◌, ℤ, pos, eqb_ℤ,
}
use algorithm_collection.Striped.Contents.{Change, Reason}
use algorithm_collection.Striped.Threads.{
  Op, adding, deleting, finding, Event, silent, called, inserted, removed, looked, missed, returned,
}

-- The value of a key after the events, the latest first.
abbrev pub value_after : List (ℕ × Event) → ℤ → Option ℤ
value_after [] q = none
value_after ((i, silent) ∷ es) q = value_after es q
value_after ((i, called op) ∷ es) q = value_after es q
value_after ((i, inserted key val) ∷ es) q =
    if eqb_ℤ q (pos key) then some val else value_after es q
value_after ((i, removed key val) ∷ es) q = if eqb_ℤ q (pos key) then none else value_after es q
value_after ((i, looked key hash now there) ∷ es) q = value_after es q
value_after ((i, missed op size now answers) ∷ es) q = value_after es q
value_after ((i, returned answer) ∷ es) q = value_after es q

-- Only an absent key is inserted, a key is removed with its value, a key is found when it is there
-- and looked for in its bucket, and an attempt that does nothing has a reason.
abbrev pub IsTruthful : List (ℕ × Event) → Type 0
IsTruthful [] = Unit
IsTruthful ((i, silent) ∷ es) = IsTruthful es
IsTruthful ((i, called op) ∷ es) = IsTruthful es
IsTruthful ((i, inserted key val) ∷ es) = (value_after es (pos key) ≡ none) × IsTruthful es
IsTruthful ((i, removed key val) ∷ es) = (value_after es (pos key) ≡ some val) × IsTruthful es
IsTruthful ((i, looked key hash now there) ∷ es) =
    (there ≡ (hash == key % now) && is_some (value_after es (pos key))) × IsTruthful es
IsTruthful ((i, missed op size now answers) ∷ es) =
    (size ≡ now → Reason op answers (value_after es)) × IsTruthful es
IsTruthful ((i, returned answer) ∷ es) = IsTruthful es

Reason-same :
    (op : Op) (answers : Bool) (f g : ℤ → Option ℤ)
    → ((q : ℤ) → f q ≡ g q)
    → Reason op answers f
    → Reason op answers g
Reason-same (adding key val) answers f g h r = λ yes. rw (h (pos key)) at r yes
Reason-same (deleting key) answers f g h r = sym (h (pos key)) ∙ r
Reason-same (finding key) answers f g h r = r

-- The contents after one more event.
pub account :
    (e : ℕ × Event) (es : List (ℕ × Event)) (f g : ℤ → Option ℤ)
    → Change e.1 f g
    → ((q : ℤ) → f q ≡ value_after es q)
    → IsTruthful es
    → ((q : ℤ) → g q ≡ value_after (e ∷ es) q) × IsTruthful (e ∷ es)
account (i, silent) es f g c h t = (λ q. c q ∙ h q, t)
account (i, called op) es f g c h t = (λ q. c q ∙ h q, t)
account (i, returned answer) es f g c h t = (λ q. c q ∙ h q, t)
account (i, inserted key val) es f g c h t =
    (λ q. c.1 q ∙ rw (h q) refl, (sym (h (pos key)) ∙ c.0, t))
account (i, removed key val) es f g c h t =
    (λ q. c.1 q ∙ rw (h q) refl, (sym (h (pos key)) ∙ c.0, t))
account (i, missed op size now answers) es f g c h t =
    (λ q. c.1 q ∙ h q, (λ same. Reason-same op answers f (value_after es) h (c.0 same), t))
account (i, looked key hash now there) es f g c h t =
    (λ q. c.1 q ∙ h q, (rw (h (pos key)) at c.0, t))
