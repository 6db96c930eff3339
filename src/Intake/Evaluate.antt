-- ===== src/Intake/Evaluate.antt =====
-- `evaluate_card` and `_hold_for_info` of src/robot_army/intake.py, in the order of the checks that
-- the code insists on.
pub mod Seams
pub mod Moves
pub mod Filed
pub mod Listed
pub mod Created
pub mod Entered
pub mod Held
pub mod OneIssue
pub mod Conflict
use robot_army.Base.{
  ℕ, ◌==◌, String, str_eq, Bool, true, false, not, ◌&&◌, ◌||◌, Option, none, some, List, [], ◌∷◌,
  any, find, if◌then◌else◌,
}
use robot_army.Models.{
  Card, CardState, card_discovered, needs_info, creating, linked, card_dropped, Reason, text,
  nothing_onboarded, same_text,
}
use robot_army.Db.{World, Result, ok, err, Error, get_card_by_id, lookup_error}
use robot_army.Cards.{transition_card, reason_column, commented_column, activity_column}
use robot_army.Capacity.{member}
use robot_army.Intake.{Hub, Site, remark, ◌>>=◌, ◌>>◌, pure, raise, commit, audit}
use robot_army.Intake.Resolve.{Resolution}
use robot_army.Intake.Filing.{
  Verdict, Action, said, already_linked, dropped, ignored, unchanged, held, held_and_commented,
  update_card_columns, record_write, send_comment, post_marker_comment, create_issue_for_card,
  resume_creation, restore_from_marker,
}

-- What an evaluation is given beside the card: the excluded columns, the card as the board shows it
-- (its column and its activity stamp), whether a rescan was asked for, the configured author, what
-- the text of a card resolves to, and whether any repository is onboarded.
pub record View : Type 0 where
  pub ignored_lists : List String
  pub on_board : Option (Option String × Option String)
  pub forced : Bool
  pub author : String
  pub resolve : String → String → Resolution
  pub any_onboarded : Bool

unfoldable pub is_ignored : Option String → List String → Bool
is_ignored none ignored_lists = false
is_ignored (some id) ignored_lists = not (str_eq id "") && member id ignored_lists

abbrev pub non_empty : Option String → Bool
non_empty none = false
non_empty (some t) = not (str_eq t "")

-- `getattr(board_card, "list_id", None) or card.current_list_id`.
abbrev pub current_list : Option (Option String × Option String) → Card → Option String
current_list none card = card.current_list_id
current_list (some (list_id, _)) card = if non_empty list_id then list_id else card.current_list_id

abbrev pub same_stamp : Option String → Option String → Bool
same_stamp none none = true
same_stamp (some a) (some b) = str_eq a b
same_stamp _ _ = false

abbrev pub same_reason : Option Reason → Reason → Bool
same_reason none r = false
same_reason (some q) r = same_text q r

-- `_onboarding_arrived`.
unfoldable pub onboarding_arrived : View → Card → Bool
onboarding_arrived v card = same_reason card.reason nothing_onboarded && v.any_onboarded

unfoldable pub is_untouched : View → Card → Bool
unfolding onboarding_arrived
is_untouched v card = elim v.on_board [
  | none ↦ false
  | some (_, activity) ↦
      not v.forced && (same_stamp activity card.last_activity && not (onboarding_arrived v card))
]

abbrev pub activity_of : Option (Option String × Option String) → Option String
activity_of none = none
activity_of (some (_, activity)) = activity

abbrev pub held_for : Card → Reason → Action → Verdict
held_for card reason action = record (said card action) {
  repo_key = none;
  issue_number = none;
  reason = some reason;
}

abbrev pub is_needs_info : CardState → Bool
is_needs_info needs_info = true
is_needs_info _ = false

module _ {S : Type 0} (hub : Hub S) where
  -- The row's state and reason; a card that enters the state is announced.
  unfoldable pub hold_row : ℕ → Card → Reason → Site S → Result (Unit {0}) × Site S
  hold_row now card reason =
      if is_needs_info card.state
      then commit (update_card_columns now card (reason_column (some reason) ∷ []))
      else (do
        commit (transition_card now card.id needs_info reason (reason_column (some reason) ∷ []))
        audit "notifications.needs_info" card)

  unfoldable pub hold_said :
      ℕ → Card → Reason → Option (Option String) → Site S → Result Verdict × Site S
  hold_said now card reason none = do
    audit "trello.card.comment" card
    pure (held_for card reason held)
  hold_said now card reason (some activity) = do
    commit (record_write hub now card activity (commented_column (some reason) ∷ []))
    pure (held_for card reason held_and_commented)

  -- The reason was commented before: at most the activity baseline moves.
  unfoldable pub hold_silent : ℕ → Card → Reason → Option String → Site S → Result Verdict × Site S
  hold_silent now card reason activity =
      if non_empty activity && not (same_stamp activity card.last_activity)
      then (do
        commit (update_card_columns now card (activity_column activity ∷ []))
        pure (held_for card reason held))
      else pure (held_for card reason held)

  unfoldable pub hold_for_info :
      ℕ → Card → Reason → Option String → Site S → Result Verdict × Site S
  unfolding hold_row hold_said hold_silent
  hold_for_info now card reason activity = do
    hold_row now card reason
    audit "trello.needs_info" card
    if same_reason card.commented_reason reason
        then hold_silent now card reason activity
        else (do sent ← send_comment hub card (remark reason); hold_said now card reason sent)

  abbrev pub reason_or : Option Reason → Reason
  reason_or none = text "unresolvable"
  reason_or (some r) = r

  unfoldable pub file_or_hold : ℕ → View → Card → Resolution → Site S → Result Verdict × Site S
  unfolding hold_for_info
  file_or_hold now v card r = do
    audit "trello.evaluated" card
    elim r.repo_key [
      | none ↦ hold_for_info now card (reason_or r.reason) (activity_of v.on_board)
      | some repo ↦ create_issue_for_card hub now card repo
    ]

  unfoldable pub evaluate_restored :
      ℕ → View → Card → Option Verdict → Site S → Result Verdict × Site S
  unfolding file_or_hold
  evaluate_restored now v card (some verdict) = pure verdict
  evaluate_restored now v card none =
      if is_needs_info card.state && is_untouched v card
      then pure (record (held_for card (text "") unchanged) { reason = card.reason })
      else file_or_hold now v card (v.resolve card.title card.body)

  -- A card that is not yet being filed.
  unfoldable pub evaluate_fresh : ℕ → View → Card → Site S → Result Verdict × Site S
  unfolding evaluate_restored
  evaluate_fresh now v card =
      if is_ignored (current_list v.on_board card) v.ignored_lists
      then pure (held_for card (text "parked") ignored)
      else (do restored ← restore_from_marker hub now card; evaluate_restored now v card restored)

  unfoldable pub evaluate_in : ℕ → View → Card → CardState → Site S → Result Verdict × Site S
  unfolding evaluate_fresh
  evaluate_in now v card linked = post_marker_comment hub now card
  evaluate_in now v card card_dropped = pure (said card dropped)
  evaluate_in now v card creating = resume_creation hub now v.author card
  evaluate_in now v card _ = evaluate_fresh now v card

  unfoldable pub evaluate_card : ℕ → View → ℕ → Site S → Result Verdict × Site S
  unfolding evaluate_in
  evaluate_card now v j s = elim (get_card_by_id s.world.db j) [
    | none ↦ (err lookup_error, s)
    | some card ↦ evaluate_in now v card card.state s
  ]
