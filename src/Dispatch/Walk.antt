-- ===== src/Dispatch/Walk.antt =====
-- What the walk of `select_and_dispatch` of src/robot_army/dispatch.py over one plan finds.
use robot_army.Base.{
  ◌≡◌, refl, ap, true, false, Option, none, some, List, [], ◌∷◌, ◌++◌, All, Bool-cases, inl, inr,
}
use robot_army.Ordering.Holds.{Entry}
use robot_army.Ordering.Plan.{QueueEntry}
use robot_army.Dispatch.{
  Choice, blocked, selected, nothing_selected, choose, decide, or_first, is_global,
}

-- The entry is held, for a reason that concerns it alone.
abbrev pub IsPassedOver : QueueEntry → Type 0
IsPassedOver e = (held : Entry) × (e.hold ≡ some held) × (is_global held.0 ≡ false)

-- The first entry, if no earlier one was given.
abbrev pub first_of : Option QueueEntry → List QueueEntry → Option QueueEntry
first_of (some e) entries = some e
first_of none [] = none
first_of none (e ∷ _) = some e

-- What each choice says of the plan that it was made from.
abbrev pub Explains : Option QueueEntry → List QueueEntry → Choice → Type 0
Explains first entries (selected e) =
    (before : List QueueEntry) × (after : List QueueEntry) × (entries ≡ before ++ e ∷ after)
    × All IsPassedOver before
    × (e.hold ≡ none)
Explains first entries (blocked e) =
    (before : List QueueEntry) × (after : List QueueEntry) × (held : Entry) × (entries
      ≡ before ++ e ∷ after)
    × All IsPassedOver before
    × (e.hold ≡ some held)
    × (is_global held.0 ≡ true)
Explains first entries (nothing_selected o) =
    All IsPassedOver entries × (o ≡ first_of first entries)

Explains-more :
    (first : Option QueueEntry) (e : QueueEntry) (entries : List QueueEntry) (c : Choice)
    → IsPassedOver e
    → Explains (or_first first e) entries c
    → Explains first (e ∷ entries) c
Explains-more first e entries (selected x) passed (before, after, cut, all', free) =
    (e ∷ before, after, ap (λ rest. e ∷ rest) cut, (passed, all'), free)
Explains-more first e entries (blocked x) passed (before, after, held, cut, all', is, global) =
    (e ∷ before, after, held, ap (λ rest. e ∷ rest) cut, (passed, all'), is, global)
Explains-more none e entries (nothing_selected o) passed (all', is) = ((passed, all'), is)
Explains-more (some f) e entries (nothing_selected o) passed (all', is) = ((passed, all'), is)

chosen-Explains :
    (first : Option QueueEntry) (entries : List QueueEntry)
    → Explains first entries (choose first entries)
unfolding choose
chosen-Explains none [] = (tt, refl)
chosen-Explains (some f) [] = (tt, refl)
chosen-Explains first (e ∷ entries) = go e.hold refl (chosen-Explains (or_first first e) entries)
  where
    go :
        (o : Option Entry)
        → e.hold ≡ o
        → Explains (or_first first e) entries (choose (or_first first e) entries)
        → Explains first (e ∷ entries) (decide e o (choose (or_first first e) entries))
    go none is rest = ([], entries, refl, tt, is)
    go (some held) is rest = elim (Bool-cases (is_global held.0)) [
      | inl global' ↦ rw global' ([], entries, held, refl, tt, is, global')
      | inr own' ↦
          rw own' (
            Explains-more first e entries (choose (or_first first e) entries) (held, is, own') rest)
    ]

-- The walk selects an entry without a hold, or is blocked by one that a condition of the machine
-- holds; every entry before it is held for a reason of its own. Where it finds neither, every entry
-- is held for a reason of its own, and the first of them is kept.
pub choose-Explains : (entries : List QueueEntry) → Explains none entries (choose none entries)
choose-Explains entries = chosen-Explains none entries
