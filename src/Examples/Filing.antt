-- ===== src/Examples/Filing.antt =====
-- The filing of a card's issue with a GitHub and a Trello that answer, and a process that is killed.
use robot_army.Base.{
  map, append, ℕ, ◌+◌, ◌≡◌, refl, String, str_eq, true, false, none, some, List, [], ◌∷◌, length,
}
use robot_army.Models.{Card, creating, linked}
use robot_army.Db.{err, integrity_error, get_card_by_id}
use robot_army.Capacity.{member}
use robot_army.Examples.{world_of}
use robot_army.Examples.Board.{card_in}
use robot_army.Intake.{
  Body, filed_from, plain, Issue, issue_payload, Comment, Hub, Site, clash, list_issues_since,
  issues_of,
}
use robot_army.Intake.Filing.{resume_creation, mentions}
use robot_army.Intake.Evaluate.{View}
use robot_army.Intake.Evaluate.OneIssue.{Pass}
use robot_army.Intake.Evaluate.Conflict.{adoption_conflict_escapes}
use robot_army.Intake.Resolve.{
  Recognisers, Resolution, offer_all, from_scan, resolve_repository, key_for_reference,
}
use robot_army.Intake.Resolve.Onboarded.{AgreeOn, resolved_is_onboarded}

abbrev Boards : Type 0
Boards = List Issue × List Comment

abbrev issue_of : ℕ → String → Body → List Issue → Issue
issue_of now repo body before = record {
  repo = repo;
  number = length before + 1;
  url = "https://github.com/you/demo/issues/1";
  author = "bot";
  created_at = now;
  body = body;
}

abbrev answering : Hub Boards
answering = record {
  create = λ now repo title body s.
      (some (issue_of now repo body s.0), (issue_of now repo body s.0 ∷ s.0, s.1));
  page = λ repo since size s. some (map issue_payload s.0);
  comments = λ card_id s. some s.1;
  post = λ card_id c s. (some none, (s.0, c ∷ s.1));
  in_text = str_eq;
  split_url = λ url. none;
}

abbrev on_github : Boards → List Issue
on_github s = s.0

abbrev demo : String → String → Resolution
demo title body = record {
  repo_key = some "you/demo";
  reason = none;
  candidates = "you/demo" ∷ [];
  source = from_scan;
}

abbrev view : View
view = record {
  ignored_lists = [];
  on_board = none;
  forced = false;
  author = "bot";
  resolve = demo;
  any_onboarded = true;
}

abbrev url : String
url = "https://trello.com/c/c"

-- A card in creation, of which GitHub has no issue yet.
abbrev filing : Card
filing = record (card_in creating) { repo_key = some "you/demo"; intent_at = some 20 }

abbrev start : Site Boards
start = record {
  world = record (world_of [] []) { db = record (world_of [] []).db { cards = filing ∷ [] } };
  hub = ([], []);
  budget = 0;
}

-- Killed between the creation of the issue and the write of its number.
abbrev killed_pass : Pass Boards
killed_pass = record { now = 25; view = view; lives = 2; others = λ h. h }

abbrev other_issue : Issue
other_issue = issue_of 27 "you/demo" (plain "another matter") []

-- Another issue comes in before the card is evaluated again.
abbrev recovery : Pass Boards
recovery = record { now = 30; view = view; lives = 9; others = λ h. (other_issue ∷ h.0, h.1) }

abbrev orphan : Issue
orphan = issue_of 25 "you/demo" (filed_from url "") []

abbrev matches : Recognisers
matches = record {
  url_refs = λ t. [];
  bare_refs = λ t. ("you", "demo") ∷ [];
  path_refs = λ t. [];
  declarations = λ t. "you/demo" ∷ [];
  inside = λ path key. false;
}

abbrev watched : List String
watched = "you/demo" ∷ "you/other" ∷ []

resolved_is_onboarded_example :
    (member "you/demo" watched ≡ true)
    × AgreeOn matches watched "you/demo"
        (matches.declarations (append "a card" (append "\n" "robot-army: you/demo")))
unfolding resolve_repository key_for_reference offer_all
resolved_is_onboarded_example =
    resolved_is_onboarded matches watched "a card" "robot-army: you/demo" "you/demo" refl

-- Another card filed an issue whose quoted description has this card's URL.
abbrev quoting : Issue
quoting = issue_of 25 "you/demo" (filed_from "https://trello.com/c/d" url) []

abbrev other_card : Card
other_card = record (card_in linked) { id = 5; repo_key = some "you/demo"; issue_number = some 1 }

abbrev disputed : Site Boards
disputed = record {
  world = record (world_of [] []) {
    db = record (world_of [] []).db { cards = filing ∷ other_card ∷ [] };
  };
  hub = (quoting ∷ [], []);
  budget = 0;
}

adoption_conflict_escapes_example :
    resume_creation answering 30 "bot" filing (record disputed { budget = 9 })
    ≡ (err integrity_error, record disputed { budget = 7 })
unfolding get_card_by_id mentions clash list_issues_since issues_of
adoption_conflict_escapes_example =
    adoption_conflict_escapes answering 30 "bot" filing "you/demo" 20 7 (quoting ∷ []) quoting
      disputed refl refl refl refl refl refl refl
