-- ===== src/Intake/Evaluate/Held.antt =====
-- `_hold_for_info` of src/robot_army/intake.py keeps the invariant.
use robot_army.Base.{
  ℕ, ◌≡◌, sym, subst, String, if◌then◌else◌, Bool, true, false, not, ◌&&◌, Option, none, some, List,
  [], ◌∷◌, inl, inr, Bool-cases,
}
use robot_army.Models.{Card, needs_info, Reason}
use robot_army.Cards.{transition_card, reason_column, commented_column, activity_column}
use robot_army.Intake.{
  Body, filed_from, plain, Issue, Comment, marker, Hub, Site, continue, ◌>>=◌, ◌>>◌, pure, raise,
  effect, commit, attempt, audit, reread, link_card,
}
use robot_army.Intake.Filing.{update_card_columns, record_write, send_comment}
use robot_army.Intake.Evaluate.Seams.{Faithful, Keeps, audit-Keeps}
use robot_army.Intake.Evaluate.Filed.{
  update-Kept, record_write-Kept, send_comment-Kept, then-Kept, audit_then-Kept,
}
use robot_army.Intake.Evaluate.{
  hold_row, hold_said, hold_silent, hold_for_info, same_reason, same_stamp, non_empty,
  is_needs_info, held_for, held, held_and_commented,
}
use robot_army.Intake.Evaluate.Moves.{needs_info-RowKeeps, RowKeeps, commit-Keeps}

module _ {S : Type 0} (hub : Hub S) (issues : S → List Issue) (author u : String)
    (laws : Faithful hub issues author) (j now : ℕ) where
  hold_row-Kept :
      (c : Card) (reason : Reason)
      → c.id ≡ j
      → Keeps issues author u j now (hold_row hub now c reason)
  unfolding hold_row
  hold_row-Kept c reason same = elim (Bool-cases (is_needs_info c.state)) [
    | inl held' ↦
        rw (held', hold_row)
          (update-Kept hub issues author u laws j now c (reason_column (some reason) ∷ []) same
            (tt, tt))
    | inr other' ↦
        rw (other', hold_row)
          (then-Kept hub issues author u laws j now
            (commit (transition_card now c.id needs_info reason (reason_column (some reason) ∷ [])))
            (λ _. audit "notifications.needs_info" c)
            (commit-Keeps author u j now issues _ (
              subst
                (λ i.
                  RowKeeps author u j now
                    (transition_card now i needs_info reason (reason_column (some reason) ∷ [])))
                (sym same)
                (needs_info-RowKeeps author u j now reason (reason_column (some reason) ∷ [])
                  (tt, tt))))
            (λ _. audit-Keeps issues author u j now "notifications.needs_info" c))
  ]

  hold_said-Kept :
      (c : Card) (reason : Reason) (sent : Option (Option String))
      → c.id ≡ j
      → Keeps issues author u j now (hold_said hub now c reason sent)
  unfolding hold_said audit
  hold_said-Kept c reason none same = λ s h. h
  hold_said-Kept c reason (some activity) same =
      then-Kept hub issues author u laws j now
        (commit (record_write hub now c activity (commented_column (some reason) ∷ [])))
        (λ _. pure (held_for c reason held_and_commented))
        (record_write-Kept hub issues author u laws j now c activity
          (commented_column (some reason) ∷ []) same (tt, tt))
        (λ _ s h. h)

  hold_silent-Kept :
      (c : Card) (reason : Reason) (activity : Option String)
      → c.id ≡ j
      → Keeps issues author u j now (hold_silent hub now c reason activity)
  unfolding hold_silent
  hold_silent-Kept c reason activity same =
      elim (Bool-cases (non_empty activity && not (same_stamp activity c.last_activity))) [
        | inl newer' ↦
            rw (newer', hold_silent)
              (then-Kept hub issues author u laws j now
                (commit (update_card_columns now c (activity_column activity ∷ [])))
                (λ _. pure (held_for c reason held))
                (update-Kept hub issues author u laws j now c (activity_column activity ∷ []) same
                  (tt, tt))
                (λ _ s h. h))
        | inr same_activity' ↦ rw (same_activity', hold_silent) (λ s h. h)
      ]

  pub hold_for_info-Kept :
      (c : Card) (reason : Reason) (activity : Option String)
      → c.id ≡ j
      → Keeps issues author u j now (hold_for_info hub now c reason activity)
  unfolding hold_for_info
  hold_for_info-Kept c reason activity same =
      then-Kept hub issues author u laws j now (hold_row hub now c reason) _
        (hold_row-Kept c reason same)
        (λ _.
          audit_then-Kept hub issues author u laws j now "trello.needs_info" c _
            (commented (same_reason c.commented_reason reason)))
    where
      commented :
          (b : Bool)
          → Keeps issues author u j now (
              if b
              then hold_silent hub now c reason activity
              else (send_comment hub c (robot_army.Intake.remark reason)
                  >>= hold_said hub now c reason))
      commented true = hold_silent-Kept c reason activity same
      commented false =
          then-Kept hub issues author u laws j now
            (send_comment hub c (robot_army.Intake.remark reason)) (hold_said hub now c reason)
            (send_comment-Kept hub issues author u laws j now c (robot_army.Intake.remark reason))
            (λ sent. hold_said-Kept c reason sent same)
