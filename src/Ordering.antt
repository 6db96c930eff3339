-- ===== src/Ordering.antt =====
-- src/robot_army/ordering.py: the dispatch order and the reason why an item is held. The sentence
-- beside a reason is a value of `Detail`: the facts that it names.
pub mod Holds
pub mod Plan
pub mod Board
pub mod Listing
pub mod Order
use robot_army.Base.{
  ℕ, zero, suc, ◌+◌, ◌==◌, leb, ltb, ℤ, pos, negsuc, String, str_eq, Bool, true, false, not, ◌&&◌,
  ◌||◌, Option, none, some, List, [], ◌∷◌, ◌++◌, any, keep, length, if◌then◌else◌,
}
use robot_army.States.{
  WorkItemState, ready, dispatching, active, awaiting_review, interrupted, failed, same_item,
}
use robot_army.Models.{WorkItem, Hold, Reason, RepoProject}
use robot_army.Config.{Config, RepoConfig, lookup_key, effective_repo_cap, effective_wait_for_merge}
use robot_army.Capacity.{CapacitySnapshot, member}
use robot_army.Db.{Db}

pub data HoldReason : Type 0 where
  paused held not_labelled capacity_unobservable global_cap repo_cap awaiting_merge not_onboarded
        off_column preparation_failed :
      HoldReason

pub data Detail : Type 0 where
  lift_pause : Detail
  holds_in_force : Option Hold → Option Hold → Detail
  not_determined : Option Reason → Detail
  sessions_running : ℕ → ℕ → Bool → Detail
  repo_sessions : ℕ → ℕ → Bool → ℕ → Detail
  labels_unreadable : Detail
  labels_lack : List String → Detail
  waiting_for : ℕ → WorkItemState → ℕ → Detail
  no_clone : Detail
  in_column : String → String → Detail
  residue : Reason → Detail

-- What one plan reads, besides the item: the configuration, the snapshot and the tables.
pub record Context : Type 0 where
  pub config : Config
  pub capacity : CapacitySnapshot
  pub is_paused : Bool
  pub item_holds : List (ℕ × Hold)
  pub repo_holds : List (String × Hold)
  pub resolved : List (String × RepoConfig)
  pub unfinished : List WorkItem
  pub boards : List (String × RepoProject)
  pub governed : List String

unfinished_states : List WorkItemState
unfinished_states = dispatching ∷ active ∷ awaiting_review ∷ interrupted ∷ failed ∷ []

unfoldable pub is_unfinished : WorkItemState → Bool
unfolding unfinished_states
is_unfinished s = any (same_item s) unfinished_states

-- `unfinished_by_repo`, as one list: its entry for a repository is what `blockers` keeps.
unfoldable pub list_unfinished : Db → List WorkItem
unfolding is_unfinished
list_unfinished d = keep (λ item. is_unfinished item.state) d.work_items

abbrev count_or_zero : Option ℕ → ℕ
count_or_zero none = 0
count_or_zero (some n) = n

unfoldable pub repo_capacity : String → Config → CapacitySnapshot → ℕ × ℕ × Bool
repo_capacity repo_key config capacity =
    let (cap, explicit) = effective_repo_cap config repo_key (some capacity.global_cap) in
    (count_or_zero (lookup_key repo_key capacity.per_repo), cap, explicit)

unfoldable pub item_hold_of : ℕ → List (ℕ × Hold) → Option Hold
item_hold_of k [] = none
item_hold_of k ((j, h) ∷ rows) = if j == k then some h else item_hold_of k rows

abbrev pub is_some {ℓ} : {A : Type ℓ} → Option A → Bool
is_some none = false
is_some (some _) = true

-- `priority` of a repository that does not resolve is 0.
abbrev priority_of : Option RepoConfig → ℤ
priority_of none = pos 0
priority_of (some repo) = repo.priority

abbrev negate : ℤ → ℤ
negate (pos zero) = pos zero
negate (pos (suc n)) = negsuc n
negate (negsuc n) = pos (suc n)

unfoldable pub order_key : String → WorkItem → Option RepoConfig → List ℤ
order_key mode item repo =
    if str_eq mode "repo-priority"
    then negate (priority_of repo) ∷ pos item.discovered_at ∷ pos item.id ∷ []
    else pos item.discovered_at ∷ pos item.id ∷ []

unfoldable pub board_key : WorkItem → List ℤ
board_key item = elim item.board_position [
  | some p ↦ pos 0 ∷ pos p ∷ pos item.id ∷ []
  | none ↦ pos 1 ∷ pos item.discovered_at ∷ pos item.id ∷ []
]

-- Why the stored labels do not let the item start, if they do not.
unfoldable pub label_hold : WorkItem → String → Option Detail
label_hold item label = elim item.labels [
  | none ↦ some labels_unreadable
  | some labels ↦ if member label labels then none else some (labels_lack labels)
]
