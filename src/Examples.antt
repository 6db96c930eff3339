-- ===== src/Examples.antt =====
-- The rows and tables that the examples run on.
pub mod Gates
pub mod Records
pub mod Queue
pub mod Launches
pub mod Board
pub mod Filing
pub mod Listing
pub mod Removal
use robot_army.Base.{ℕ, Bool, true, false, Option, none, some, List, [], ◌∷◌, pos, ℤ, String}
use robot_army.States.{WorkItemState, SessionState, ready, ItemStamp, SessionStamp}
use robot_army.Models.{WorkItem, Session, Json, null}
use robot_army.Db.{Db, World}

abbrev pub never_item : ItemStamp → Option ℕ
never_item _ = none

abbrev pub never_session : SessionStamp → Option ℕ
never_session _ = none

abbrev pub item_in : ℕ → String → WorkItemState → WorkItem
item_in id repo s = record {
  id = id;
  source_id = "gh";
  repo_key = repo;
  issue_number = 10;
  labels = some ("agent" ∷ []);
  state = s;
  dry_run = false;
  discovered_at = 100;
  updated_at = 100;
  author = none;
  failure_reason = none;
  blocked_reason = none;
  stamps = never_item;
  board_column = none;
  board_position = none;
  worktree_path = none;
  branch = none;
  cleanup_state = none;
  cleanup_reason = none;
  cleaned_at = none;
}

abbrev pub session_in : SessionState → Session
session_in s = record {
  id = 3;
  work_item_id = 7;
  session_id = "s-1";
  attempt = 1;
  state = s;
  dry_run = false;
  pid = null;
  proc_start = none;
  exit_code = none;
  signal = none;
  stamps = never_session;
}

abbrev pub tables : List WorkItem → List Session → Db
tables items rows = record {
  work_items = items;
  sessions = rows;
  cards = [];
  anomalies = [];
  item_holds = [];
  repo_holds = [];
  item_keeps = [];
  control = none;
}

abbrev pub world_of : List WorkItem → List Session → World
world_of items rows = record { db = tables items rows; log = [] }
