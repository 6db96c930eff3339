-- ===== src/Examples/Board.antt =====
-- Cards and their gate on concrete rows.
use robot_army.Base.{◌≡◌, ◌≤◌, refl, false, none, some, List, [], ◌∷◌, length}
use robot_army.Models.{Card, CardState, card_discovered, creating, linked, card_dropped, text}
use robot_army.Db.{World, get_card_by_id}
use robot_army.Cards.{terminal_card_states, issue_column}
use robot_army.Cards.Gate.{CardCall, card_calls, rank, card_moves_bounded, terminal_cards_stay}
use robot_army.Examples.{world_of}

abbrev pub card_in : CardState → Card
card_in s = record {
  id = 4;
  board_id = "b";
  card_id = "c";
  card_url = "https://trello.com/c/c";
  title = "a card";
  body = "";
  state = s;
  dry_run = false;
  updated_at = 10;
  repo_key = none;
  issue_number = none;
  reason = none;
  intent_at = none;
  create_failures = 0;
  archived_at = none;
  comment_posted_at = none;
  issue_url = none;
  commented_reason = none;
  last_activity = none;
  current_list_id = none;
}

abbrev pub with_card : CardState → World
with_card s = record (world_of [] []) { db = record (world_of [] []).db { cards = card_in s ∷ [] } }

abbrev steps : List CardCall
steps =
    (20, creating, text "repository identified", [])
    ∷ (21, card_dropped, text "archived", [])
    ∷ (22, linked, text "issue created", issue_column (some 12) ∷ [])
    ∷ []

card_moves_bounded_example :
    (row' : Card) × (get_card_by_id (card_calls 4 steps (with_card card_discovered)).db 4
      ≡ some row')
    × (rank card_discovered ≤ rank row'.state)
    × (length (card_calls 4 steps (with_card card_discovered)).log ≤ 3)
unfolding get_card_by_id
card_moves_bounded_example =
    card_moves_bounded 4 steps (with_card card_discovered) (card_in card_discovered)
      (tt, (tt, (tt, tt))) refl

terminal_cards_stay_example : card_calls 4 steps (with_card linked) ≡ with_card linked
unfolding get_card_by_id terminal_card_states
terminal_cards_stay_example =
    terminal_cards_stay 4 steps (with_card linked) (card_in linked) refl refl
