-- ===== src/Cards.antt =====
-- src/robot_army/cardstates.py: the table of a card's states, and the gate through which its state
-- column is written.
pub mod Gate
use mathlib.Core.List.{foldl}
use robot_army.Base.{
  ℕ, ◌==◌, String, Bool, true, false, not, ◌&&◌, Option, none, some, List, [], ◌∷◌, ◌++◌, any,
  update_where, if◌then◌else◌,
}
use robot_army.Models.{
  Card, CardState, card_discovered, needs_info, creating, linked, card_dropped, Reason,
}
use robot_army.Db.{
  Db, World, Error, Result, Exec, record_audit, ◌>>=◌, ◌>>◌, pure, get_card_by_id, state_card,
  lookup_error, illegal_card,
}

abbrev pub same_card : CardState → CardState → Bool
same_card card_discovered card_discovered = true
same_card needs_info needs_info = true
same_card creating creating = true
same_card linked linked = true
same_card card_dropped card_dropped = true
same_card _ _ = false

unfoldable pub card_transitions : List (CardState × CardState)
card_transitions =
    (card_discovered, needs_info)
    ∷ (card_discovered, creating)
    ∷ (card_discovered, card_dropped)
    ∷ (needs_info, creating)
    ∷ (needs_info, card_dropped)
    ∷ (creating, linked)
    ∷ []

unfoldable pub terminal_card_states : List CardState
terminal_card_states = linked ∷ card_dropped ∷ []

unfoldable pub is_legal_card_transition : CardState → CardState → Bool
unfolding card_transitions
is_legal_card_transition source target =
    any (λ e. same_card e.0 source && same_card e.1 target) card_transitions

-- An entry of the `columns` dictionary.
pub data CardColumn : Type 0 where
  card_state_column : CardState → CardColumn
  card_updated_column : ℕ → CardColumn
  intent_column : Option ℕ → CardColumn
  reason_column : Option Reason → CardColumn
  repo_column : Option String → CardColumn
  issue_column : Option ℕ → CardColumn
  failures_column : ℕ → CardColumn
  archived_column : Option ℕ → CardColumn
  posted_column : Option ℕ → CardColumn
  issue_url_column : Option String → CardColumn
  commented_column : Option Reason → CardColumn
  activity_column : Option String → CardColumn

unfoldable pub set_card_column : Card → CardColumn → Card
set_card_column r (card_state_column s) = record r { state = s }
set_card_column r (card_updated_column n) = record r { updated_at = n }
set_card_column r (intent_column n) = record r { intent_at = n }
set_card_column r (reason_column x) = record r { reason = x }
set_card_column r (repo_column x) = record r { repo_key = x }
set_card_column r (issue_column x) = record r { issue_number = x }
set_card_column r (failures_column n) = record r { create_failures = n }
set_card_column r (archived_column x) = record r { archived_at = x }
set_card_column r (posted_column x) = record r { comment_posted_at = x }
set_card_column r (issue_url_column x) = record r { issue_url = x }
set_card_column r (commented_column x) = record r { commented_reason = x }
set_card_column r (activity_column x) = record r { last_activity = x }

-- Entering `creating` stamps the intent.
unfoldable pub card_stamp_entry : ℕ → CardState → List CardColumn
card_stamp_entry now creating = intent_column (some now) ∷ []
card_stamp_entry now _ = []

unfoldable pub card_columns : ℕ → CardState → List CardColumn → List CardColumn
unfolding card_stamp_entry
card_columns now target extra =
    card_state_column target ∷ card_updated_column now ∷ (card_stamp_entry now target ++ extra)

unfoldable pub assign_card : List CardColumn → Card → Card
unfolding set_card_column
assign_card columns r = foldl set_card_column r columns

abbrev pub update_cards : ℕ → List CardColumn → World → World
update_cards row_id columns w = record w {
  db = record w.db { cards = update_where (λ r. r.id == row_id) (assign_card columns) w.db.cards };
}

unfoldable pub move_card : ℕ → ℕ → CardState → Reason → List CardColumn → Card → Exec CardState
unfolding card_columns
move_card now row_id target reason extra row w =
    if same_card row.state target
    then (Result.ok row.state, w)
    else if not (is_legal_card_transition row.state target)
    then (Result.err (illegal_card row.state target), w)
    else (do
      record_audit (state_card row.card_id row.state target reason row.dry_run)
      pure row.state)
        (update_cards row_id (card_columns now target extra) w)

unfoldable pub transition_card : ℕ → ℕ → CardState → Reason → List CardColumn → Exec CardState
unfolding move_card
transition_card now row_id target reason extra w = elim (get_card_by_id w.db row_id) [
  | none ↦ (Result.err lookup_error, w)
  | some row ↦ move_card now row_id target reason extra row w
]
