-- ===== src/Examples/Queue.antt =====
-- The queue, the capacity and the holds of src/robot_army on concrete tables.
use mathlib.Core.List.{Perm}
use robot_army.Base.{
  ℕ, ◌≡◌, ◌≤◌, refl, true, false, none, some, List, [], ◌∷◌, map, keep, length, pos, String, str_eq,
  find, eq_refl,
}
use robot_army.Base.Sort.{IsSorted}
use robot_army.States.{ready, active, starting, running}
use robot_army.Models.{WorkItem, Session, Hold, RepoProject}
use robot_army.Db.{World}
use robot_army.Db.Holds.{find_hold, set_hold, clear_hold}
use robot_army.Db.Holds.Laws.{clear-set_hold}
use robot_army.Config.{Config, RepoConfig}
use robot_army.Capacity.{Machine, CapacitySnapshot, snapshot, components, is_open}
use robot_army.Capacity.Count.{total_of, components_sum, count_of, open_rows_of, per_repo_exact}
use robot_army.Capacity.Cover.{open_rows_counted}
use robot_army.Ordering.Holds.{hold_for}
use robot_army.Ordering.Holds.Precedence.{applies, declared, reason_of, hold_for_precedence}
use robot_army.Ordering.Order.{in_repo, board_le, apply_board_order}
use robot_army.Ordering.Board.{
  repo_slots, board_keeps_slots, board_spares_others, board_sorts_governed,
}
use robot_army.Ordering.Listing.{items_of, count_from, plan_lists_ready}
use robot_army.Ordering.Plan.{QueueEntry, context, plan, ready_items}
use robot_army.Examples.{item_in, session_in, world_of}

abbrev pub widgets : RepoConfig
widgets = record {
  priority = pos 5;
  max_sessions = some 2;
  wait_for_merge = some true;
  project_ordering = some true;
}

abbrev pub config : Config
config = record {
  label = "agent";
  author = "me";
  order = "repo-priority";
  max_concurrent_sessions = 3;
  default_repo_max_sessions = 1;
  wait_for_merge = false;
  project_ordering = false;
  repos = ("acme/widgets", widgets) ∷ [];
}

abbrev on_board : ℕ → WorkItem → WorkItem
on_board p item = record item { board_position = some p; board_column = some "Ready" }

abbrev queue : List WorkItem
queue =
    on_board 9 (item_in 7 "acme/widgets" ready)
    ∷ item_in 8 "acme/gadgets" ready
    ∷ on_board 2 (item_in 9 "acme/widgets" ready)
    ∷ item_in 10 "acme/gadgets" active
    ∷ []

abbrev rows : List Session
rows =
    session_in running
    ∷ record (session_in starting) { id = 4; work_item_id = 10; session_id = "s-2" }
    ∷ []

abbrev state : World
state = world_of queue rows

abbrev pub machine : Machine
machine = record {
  registry = record {
    entries =
        record { session_id = "s-1"; cwd = some "/w/7" }
        ∷ record { session_id = ""; cwd = none }
        ∷ [];
    unknown_versions = [];
    degraded = false;
    directory_missing = false;
  };
  workers = [];
  proc_readable = true;
  under_root = λ cwd. elim cwd [ none ↦ false | some _ ↦ true ];
}

abbrev pub boards : List (String × RepoProject)
boards =
    (
      "acme/widgets",
      record {
        repo_key = "acme/widgets";
        column_name = some "Ready";
        resolved_at = some 50;
        last_read_at = some 60;
      },
    )
    ∷ []

abbrev pub resolved : List (String × RepoConfig)
resolved = ("acme/widgets", widgets) ∷ []

abbrev taken : CapacitySnapshot
taken = (snapshot 500 config none false machine state).0

components_sum_example : total_of (components taken) ≡ taken.total
components_sum_example = components_sum 500 config none false machine state

per_repo_exact_example :
    count_of "acme/gadgets" taken.per_repo ≡ open_rows_of "acme/gadgets" taken.observable state.db
per_repo_exact_example = per_repo_exact "acme/gadgets" 500 config none false machine state

open_rows_counted_example : length (keep is_open rows) ≤ taken.total
unfolding snapshot
open_rows_counted_example =
    open_rows_counted 500 config none false machine state ((refl, tt), (tt, tt)) refl

hold_for_precedence_example :
    reason_of
      (hold_for (context config taken resolved boards state.db) (item_in 8 "acme/gadgets" ready))
    ≡ find
        (applies (context config taken resolved boards state.db) (item_in 8 "acme/gadgets" ready))
        declared
hold_for_precedence_example =
    hold_for_precedence (context config taken resolved boards state.db)
      (item_in 8 "acme/gadgets" ready)

plan_lists_ready_example :
    Perm (items_of (plan config taken resolved boards state.db)) (ready_items state.db)
    × (map (λ (e : QueueEntry). e.position) (plan config taken resolved boards state.db)
        ≡ count_from 1 (items_of (plan config taken resolved boards state.db)))
plan_lists_ready_example = plan_lists_ready config taken resolved boards state.db

board_keeps_slots_example :
    repo_slots (apply_board_order ("acme/widgets" ∷ []) queue) ≡ repo_slots queue
board_keeps_slots_example = board_keeps_slots ("acme/widgets" ∷ []) queue

board_spares_others_example :
    keep (in_repo "acme/gadgets") (apply_board_order ("acme/widgets" ∷ []) queue)
    ≡ keep (in_repo "acme/gadgets") queue
board_spares_others_example = board_spares_others ("acme/widgets" ∷ []) queue "acme/gadgets" refl

board_sorts_governed_example :
    IsSorted board_le
      (keep (in_repo "acme/widgets") (apply_board_order ("acme/widgets" ∷ []) queue))
board_sorts_governed_example = board_sorts_governed ("acme/widgets" ∷ []) queue "acme/widgets" refl

abbrev first_hold : List (String × Hold)
first_hold = ("acme/gadgets", record { held_at = 400; held_by = "cli" }) ∷ []

clear-set_hold_example :
    clear_hold str_eq "acme/widgets" (set_hold str_eq 500 "acme/widgets" "web" first_hold).1
    ≡ (some (record { held_at = 500; held_by = "web" }), first_hold)
unfolding find_hold
clear-set_hold_example = clear-set_hold str_eq eq_refl 500 "acme/widgets" "web" first_hold refl
