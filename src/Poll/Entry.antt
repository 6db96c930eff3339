-- ===== src/Poll/Entry.antt =====
-- What `poll_repo` of src/robot_army/poll.py does with an issue that it has not seen before.
use robot_army.Base.{
  ℕ, ◌==◌, ==_iff, ◌≡◌, refl, sym, ap, ◌∙◌, String, str_eq, eq_refl, Bool, true, false, not, ◌&&◌,
  none, some, List, [], ◌∷◌, ◌++◌, any, find, if◌then◌else◌, Bool-cases, inl, inr, arith,
}
use robot_army.States.{discovered, ready, is_legal_work_item_transition, work_item_transitions}
use robot_army.Models.{WorkItem, text}
use robot_army.Db.{World, ok, transaction, get_work_item, note}
use robot_army.Transition.{
  ItemColumn, item_columns, assign_item, set_item_column, transition_work_item, blocked_column,
}
use robot_army.Transition.Gate.{moved, transition_effect}
use robot_army.Transition.Rows.{find-update_where, state-assign_item}
use robot_army.Poll.{
  Listed, Eligibility, evaluate, source_id, find_work_item, next_id, discovered_row,
  insert_work_item, settle_inserted, settle_verdict, new_issue, take_issue,
}
use robot_army.Poll.Rows.{source_id-assign_item}
use robot_army.Poll.Issues.{fresh_above}
use robot_army.Poll.Boundary.{is_eligible, evaluate-is_eligible}

dry_run-set_item_column :
    (r : WorkItem) (c : ItemColumn) → (set_item_column r c).dry_run ≡ r.dry_run
unfolding set_item_column
dry_run-set_item_column r c = ground arith

dry_run-assign_item : (cs : List ItemColumn) (r : WorkItem) → (assign_item cs r).dry_run ≡ r.dry_run
unfolding assign_item
dry_run-assign_item [] r = refl
dry_run-assign_item (c ∷ cs) r =
    dry_run-assign_item cs (set_item_column r c) ∙ dry_run-set_item_column r c

find-snoc :
    (p : WorkItem → Bool) (new : WorkItem) (rows : List WorkItem)
    → find p rows ≡ none
    → p new ≡ true
    → find p (rows ++ new ∷ []) ≡ some new
find-snoc p new [] h k = rw k refl
find-snoc p new (r ∷ rows) h k = elim (Bool-cases (p r)) [
  | inl yes' ↦ absurd (ground (arith, h, yes'))
  | inr no' ↦
      let shown : find p (r ∷ rows) ≡ find p rows = rw no' refl in
      rw no' (find-snoc p new rows (sym shown ∙ h) k)
]

absent_id :
    (id : ℕ) (rows : List WorkItem)
    → any (λ (q : WorkItem). q.id == id) rows ≡ false
    → find (λ (q : WorkItem). q.id == id) rows ≡ none
absent_id id [] h = refl
absent_id id (r ∷ rows) h = elim (Bool-cases (r.id == id)) [
  | inl yes' ↦ absurd (ground (arith, h, yes'))
  | inr no' ↦ rw no' (absent_id id rows (ground (arith, h, no')))
]

module _ (now : ℕ) (repo : String) (dry_run : Bool) (issue : Listed) (w : World) where
  abbrev new_row : WorkItem
  new_row = discovered_row now repo dry_run issue (next_id w.db.work_items)

  abbrev inserted : World
  inserted = record w {
    db = record w.db { work_items = w.db.work_items ++ new_row ∷ [] };
    log = note "poll.discovered" none ∷ w.log;
  }

  abbrev entered : World
  entered =
      moved now (next_id w.db.work_items) ready (text "all eligibility conditions passed")
        (blocked_column none ∷ []) new_row inserted

  settled_effect :
      transition_work_item now
        (next_id w.db.work_items)
        ready
        (text "all eligibility conditions passed")
        (blocked_column none ∷ [])
        inserted
      ≡ (ok discovered, entered)
  unfolding get_work_item is_legal_work_item_transition work_item_transitions
  settled_effect =
      transition_effect now (next_id w.db.work_items) ready
        (text "all eligibility conditions passed") (blocked_column none ∷ []) inserted new_row
        (find-snoc (λ q. q.id == next_id w.db.work_items) new_row w.db.work_items
          (absent_id (next_id w.db.work_items) w.db.work_items
            (fresh_above w.db.work_items (next_id w.db.work_items) (omega arith)))
          ((==_iff (next_id w.db.work_items) (next_id w.db.work_items)).1 refl))
        refl

  new_issue_effect :
      (v : Eligibility)
      → v.eligible ≡ true
      → find_work_item w.db (source_id repo issue.number) dry_run ≡ none
      → new_issue now repo dry_run v issue w ≡ (ok (1, 0), entered)
  unfolding new_issue insert_work_item settle_inserted settle_verdict transaction
  new_issue_effect v fits absent =
      rw (fits, absent, new_issue, insert_work_item) (rw settled_effect refl)

  entered_found :
      find_work_item w.db (source_id repo issue.number) dry_run ≡ none
      → (row : WorkItem) × (find_work_item entered.db (source_id repo issue.number) dry_run
          ≡ some row)
        × (row.state ≡ ready)
  unfolding find_work_item
  entered_found absent =
      let cs = item_columns now ready (blocked_column none ∷ []) in
      let test : WorkItem → Bool = λ r.
        str_eq r.source_id (source_id repo issue.number)
        && (if dry_run then r.dry_run else not r.dry_run) in
      (
        assign_item cs new_row,
        find-update_where test (λ r. r.id == next_id w.db.work_items) (assign_item cs)
              (w.db.work_items ++ new_row ∷ [])
              (λ r. rw (source_id-assign_item cs r, dry_run-assign_item cs r) refl)
            ∙ rw (find-snoc test new_row w.db.work_items absent (new_passes dry_run))
                (rw ((==_iff (next_id w.db.work_items) (next_id w.db.work_items)).1 refl) refl),
        state-assign_item now ready (blocked_column none ∷ []) new_row tt,
      )
    where
      new_passes :
          (b : Bool)
          → (str_eq (source_id repo issue.number) (source_id repo issue.number)
              && (if b then b else not b))
            ≡ true
      new_passes true = rw (eq_refl (source_id repo issue.number)) refl
      new_passes false = rw (eq_refl (source_id repo issue.number)) refl

-- An eligible issue that has no row yet is counted as created and has a row afterwards, which is ready.
pub eligible_issue_enters :
    (now : ℕ) (label author repo : String) (onboarded dry_run : Bool) (issue : Listed) (w : World)
    → find_work_item w.db (source_id repo issue.number) dry_run ≡ none
    → is_eligible label author onboarded issue ≡ true
    → ((take_issue now label author repo onboarded dry_run issue w).0 ≡ ok (1, 0))
      × (row : WorkItem) × (find_work_item
            (take_issue now label author repo onboarded dry_run issue w).1.db
            (source_id repo issue.number)
            dry_run
          ≡ some row)
      × (row.state ≡ ready)
unfolding take_issue
eligible_issue_enters now label author repo onboarded dry_run issue w absent fits =
    let v = evaluate label author repo onboarded issue in
    let shown : take_issue now label author repo onboarded dry_run issue w
        ≡ (ok (1, 0), entered now repo dry_run issue w) =
      rw (absent, take_issue)
        (new_issue_effect now repo dry_run issue w v
          (evaluate-is_eligible label author repo onboarded issue ∙ fits) absent) in
    let (row, found, at) = entered_found now repo dry_run issue w absent in
    (
      ap (λ r. r.0) shown,
      row,
      ap (λ r. find_work_item r.1.db (source_id repo issue.number) dry_run) shown ∙ found,
      at,
    )
