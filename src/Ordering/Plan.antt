-- ===== src/Ordering/Plan.antt =====
-- `plan` of src/robot_army/ordering.py: every ready item, in the order of dispatch, with its
-- position and its hold. Which repositories resolve to a clone is an argument.
use robot_army.Base.{ℕ, suc, String, Bool, ◌&&◌, Option, List, [], ◌∷◌, keep, if◌then◌else◌}
use robot_army.Base.Sort.{sort_by, lex_le}
use robot_army.States.{ready, same_item}
use robot_army.Models.{WorkItem, RepoProject, governs}
use robot_army.Config.{Config, RepoConfig, lookup_key, effective_project_ordering}
use robot_army.Capacity.{CapacitySnapshot}
use robot_army.Db.{Db}
use robot_army.Db.Holds.{get_dispatch_control}
use robot_army.Ordering.{Context, list_unfinished, order_key}
use robot_army.Ordering.Order.{apply_board_order}
use robot_army.Ordering.Holds.{Entry, hold_for}

pub record QueueEntry : Type 0 where
  pub item : WorkItem
  pub position : ℕ
  pub hold : Option Entry

abbrev pub item_le : Config → List (String × RepoConfig) → WorkItem → WorkItem → Bool
item_le config resolved a b =
    lex_le (order_key config.order a (lookup_key a.repo_key resolved))
      (order_key config.order b (lookup_key b.repo_key resolved))

-- The repositories that permit board ordering and whose board is resolved and read.
governed_keys : Config → List (String × RepoProject) → List String
governed_keys config [] = []
governed_keys config ((key, board) ∷ boards) =
    let rest = governed_keys config boards in
    if governs board && (effective_project_ordering config key).0 then key ∷ rest else rest

unfoldable pub context :
    Config
    → CapacitySnapshot
    → List (String × RepoConfig)
    → List (String × RepoProject)
    → Db
    → Context
unfolding governed_keys
context config capacity resolved boards d = record {
  config = config;
  capacity = capacity;
  is_paused = (get_dispatch_control d).paused;
  item_holds = d.item_holds;
  repo_holds = d.repo_holds;
  resolved = resolved;
  unfinished = list_unfinished d;
  boards = boards;
  governed = governed_keys config boards;
}

unfoldable pub ready_items : Db → List WorkItem
ready_items d = keep (λ item. same_item item.state ready) d.work_items

unfoldable pub dispatch_order : Context → List WorkItem → List WorkItem
dispatch_order c items = apply_board_order c.governed (sort_by (item_le c.config c.resolved) items)

unfoldable pub number : Context → ℕ → List WorkItem → List QueueEntry
number c position [] = []
number c position (item ∷ items) =
    record { item = item; position = position; hold = hold_for c item }
    ∷ number c (suc position) items

unfoldable pub plan :
    Config
    → CapacitySnapshot
    → List (String × RepoConfig)
    → List (String × RepoProject)
    → Db
    → List QueueEntry
unfolding context ready_items dispatch_order number
plan config capacity resolved boards d =
    let c = context config capacity resolved boards d in
    number c 1 (dispatch_order c (ready_items d))
