-- ===== src/Transition/Gate.antt =====
-- `transition_work_item` of states.py: every branch, and what it leaves alone.
use mathlib.Core.Option
use robot_army.Base.{
  ℕ, ◌==◌, ==_iff, ◌≡◌, refl, ◌≢◌, Bool, true, false, Option, none, some, List, [], ◌∷◌, arith,
  find, if◌then◌else◌, ap, ◌∙◌,
}
use robot_army.States.{WorkItemState, same_item, is_legal_work_item_transition}
use robot_army.States.Table.{same_item_sound, same_item_refl, ◌⟶◌}
use robot_army.Models.{WorkItem, Reason}
use robot_army.Db.{
  Db, World, ok, err, state_work_item, get_work_item, lookup_error, illegal_transition,
}
use robot_army.Transition.{
  ItemColumn, item_columns, assign_item, update_items, move_work_item, transition_work_item,
}
use robot_army.Transition.Rows.{NamesNoState, find-update_where, id-assign_item, state-assign_item}

-- An update of rows through the lookup by key.
pub get-update_items :
    (wanted : WorkItem → Bool) (cs : List ItemColumn) (w : World) (j : ℕ)
    → get_work_item (update_items wanted cs w).db j
      ≡ Option.map (λ r. if wanted r then assign_item cs r else r) (get_work_item w.db j)
unfolding get_work_item
get-update_items wanted cs w j =
    find-update_where (λ r. r.id == j) wanted (assign_item cs) w.db.work_items
      (λ r. ap (λ (i : ℕ). i == j) (id-assign_item cs r))

pub find_passes {ℓ} :
    {A : Type ℓ} (p : A → Bool) (xs : List A) (a : A) → find p xs ≡ some a → p a ≡ true
find_passes p [] a h = absurd (cc h)
find_passes p (x ∷ xs) a h = ground (arith, find_passes p xs a)

-- The row that a lookup finds has the key that was asked for.
pub id-get_work_item : (d : Db) (j : ℕ) (r : WorkItem) → get_work_item d j ≡ some r → r.id ≡ j
unfolding get_work_item
id-get_work_item d j r h =
    (==_iff _ _).0 (find_passes (λ (r : WorkItem). r.id == j) d.work_items r h)

legal_not_same : (s t : WorkItemState) → s ⟶ t → same_item s t ≡ false
unfolding is_legal_work_item_transition
legal_not_same s t h = ground arith

abbrev pub state_of : Db → ℕ → Option WorkItemState
state_of d j = Option.map (λ (r : WorkItem). r.state) (get_work_item d j)

-- The row that a write takes holds the target afterwards.
pub written_state :
    (wanted : WorkItem → Bool) (now : ℕ) (target : WorkItemState) (extra : List ItemColumn)
    (w : World) (j : ℕ) (row : WorkItem)
    → get_work_item w.db j ≡ some row
    → wanted row ≡ true
    → NamesNoState extra
    → state_of (update_items wanted (item_columns now target extra) w).db j ≡ some target
written_state wanted now target extra w j row h takes free =
    ap (Option.map (λ (r : WorkItem). r.state))
      (get-update_items wanted (item_columns now target extra) w j)
    ∙ rw h (rw takes (ap some (state-assign_item now target extra row free)))

-- What a transition does to the world: one legal move with its record.
abbrev pub moved : ℕ → ℕ → WorkItemState → Reason → List ItemColumn → WorkItem → World → World
moved now i target reason extra row w =
    record (update_items (λ r. r.id == i) (item_columns now target extra) w) {
      log = state_work_item i row.state target reason row.dry_run ∷ w.log;
    }

module _ (now item_id : ℕ) (target : WorkItemState) (reason : Reason) (extra : List ItemColumn)
    (w : World) where
  -- A missing row is an error, and nothing is written.
  pub transition_missing :
      get_work_item w.db item_id ≡ none
      → transition_work_item now item_id target reason extra w ≡ (err lookup_error, w)
  unfolding transition_work_item
  transition_missing h = rw (h, transition_work_item)

  -- Asking for the state that the row holds changes nothing and logs nothing.
  pub transition_same :
      (row : WorkItem)
      → get_work_item w.db item_id ≡ some row
      → row.state ≡ target
      → transition_work_item now item_id target reason extra w ≡ (ok row.state, w)
  unfolding transition_work_item
  transition_same row h e =
      rw (h, transition_work_item)
        (rw (← e, move_work_item) (rw (same_item_refl row.state, move_work_item)))

  -- A transition that is not in the table raises, and nothing is written.
  pub transition_illegal :
      (row : WorkItem)
      → get_work_item w.db item_id ≡ some row
      → row.state ≢ target
      → is_legal_work_item_transition row.state target ≡ false
      → transition_work_item now item_id target reason extra w
        ≡ (err (illegal_transition row.state target), w)
  unfolding transition_work_item
  transition_illegal row h ne bad =
      rw (h, transition_work_item) (ground (arith, same_item_sound row.state target))

  -- A legal transition of an item that has a row, with no extra column that names a state, reports the
  -- state it came from, writes its target to the row, and adds one record, which names both states, to
  -- the log.
  pub transition_moves :
      (row : WorkItem)
      → get_work_item w.db item_id ≡ some row
      → row.state ⟶ target
      → NamesNoState extra
      → ((transition_work_item now item_id target reason extra w).0 ≡ ok row.state)
        × (state_of (transition_work_item now item_id target reason extra w).1.db item_id
            ≡ some target)
        × ((transition_work_item now item_id target reason extra w).1.log
            ≡ state_work_item item_id row.state target reason row.dry_run ∷ w.log)
  unfolding transition_work_item
  transition_moves row h legal free =
      rw (h, transition_work_item)
        (rw (legal_not_same row.state target legal, move_work_item)
          (rw (legal, move_work_item)
            (
              refl,
              written_state (λ r. r.id == item_id) now target extra w item_id row h
                  ((==_iff row.id item_id).1 (id-get_work_item w.db item_id row h)) free,
              refl,
            )))

  -- The world after a legal transition, in full.
  pub transition_effect :
      (row : WorkItem)
      → get_work_item w.db item_id ≡ some row
      → row.state ⟶ target
      → transition_work_item now item_id target reason extra w
        ≡ (ok row.state, moved now item_id target reason extra row w)
  unfolding transition_work_item
  transition_effect row h legal =
      rw (h, transition_work_item)
        (rw (legal_not_same row.state target legal, move_work_item) (rw (legal, move_work_item)))
