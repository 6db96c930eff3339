-- ===== src/Ordering/Holds.antt =====
-- `launch_holds` and `_hold_for` of src/robot_army/ordering.py.
pub mod Precedence
pub mod Launch
use robot_army.Base.{
  ℕ, zero, suc, ◌+◌, ◌-◌, ◌==◌, leb, ltb, String, str_eq, Bool, true, false, not, ◌&&◌, ◌||◌,
  Option, none, some, List, [], ◌∷◌, ◌++◌, any, keep, length, if◌then◌else◌,
}
use robot_army.Models.{WorkItem, Hold, Reason, text, RepoProject}
use robot_army.Config.{lookup_key, effective_wait_for_merge}
use robot_army.Capacity.{CapacitySnapshot, member}
use robot_army.Ordering.{
  HoldReason, paused, held, not_labelled, capacity_unobservable, global_cap, repo_cap,
  awaiting_merge, not_onboarded, off_column, preparation_failed, Detail, lift_pause, holds_in_force,
  not_determined, sessions_running, repo_sessions, waiting_for, no_clone, in_column, residue,
  Context, item_hold_of, is_some, repo_capacity, count_or_zero, label_hold,
}

-- A reason with its sentence.
abbrev pub Entry : Type 0
Entry = HoldReason × Detail

abbrev entry_if : Bool → Entry → List Entry
entry_if true e = e ∷ []
entry_if false e = []

paused_part : Context → List Entry
paused_part c = entry_if c.is_paused (paused, lift_pause)

held_part : Context → WorkItem → List Entry
held_part c item =
    let item_hold = item_hold_of item.id c.item_holds in
    let repo_hold = lookup_key item.repo_key c.repo_holds in
    entry_if (is_some item_hold || is_some repo_hold) (held, holds_in_force item_hold repo_hold)

-- The caps are not asked where the count could not be taken.
capacity_part : Context → WorkItem → List Entry
capacity_part c item =
    let (running, cap, explicit) = repo_capacity item.repo_key c.config c.capacity in
    if not c.capacity.observable
    then (capacity_unobservable, not_determined c.capacity.reason) ∷ []
    else entry_if (leb c.capacity.global_cap c.capacity.total)
        (global_cap, sessions_running c.capacity.total c.capacity.global_cap c.capacity.degraded)
      ++ entry_if (leb cap running) (
        repo_cap,
        repo_sessions running cap explicit
            (count_or_zero (lookup_key item.repo_key c.capacity.kept_per_repo)),
      )

-- Every reason for which the item may not launch, in the order of precedence.
unfoldable pub launch_holds : Context → WorkItem → List Entry
unfolding paused_part held_part capacity_part
launch_holds c item = paused_part c ++ (held_part c item ++ capacity_part c item)

unfoldable pub blockers : Context → WorkItem → List WorkItem
blockers c item =
    keep (λ other. str_eq other.repo_key item.repo_key && not (other.id == item.id)) c.unfinished

-- `min(blockers, key=lambda other: other.id)`.
oldest : WorkItem → List WorkItem → WorkItem
oldest first [] = first
oldest first (other ∷ rest) = oldest (if ltb other.id first.id then other else first) rest

merge_part : Context → WorkItem → List WorkItem → Option Entry
unfolding oldest
merge_part c item [] = none
merge_part c item (first ∷ rest) =
    let o = oldest first rest in
    some (awaiting_merge, waiting_for o.issue_number o.state (length rest))

pub column_of : Option RepoProject → Option String
column_of none = none
column_of (some board) = board.column_name

column_clash : Option String → Option String → Option Entry
column_clash (some own) (some column) =
    if str_eq own column then none else some (off_column, in_column own column)
column_clash _ _ = none

board_part : Context → WorkItem → Option Entry
unfolding column_of column_clash
board_part c item =
    if member item.repo_key c.governed
    then column_clash item.board_column (column_of (lookup_key item.repo_key c.boards))
    else none

-- The first of two answers that is one.
infixr 30 ◌orelse◌
abbrev pub ◌orelse◌ {ℓ} : {A : Type ℓ} → Option A → Option A → Option A
some a orelse b = some a
none orelse b = b

-- A reason as Python tests it: an empty text counts as none.
abbrev pub is_blank : Option Reason → Bool
is_blank none = true
is_blank (some (text t)) = str_eq t ""
is_blank (some _) = false

residue_entry : Option Reason → Option Entry
residue_entry none = none
residue_entry (some r) = some (preparation_failed, residue r)

-- `item.blocked_reason or item.failure_reason`, if it is true.
residue_part : WorkItem → Option Entry
unfolding residue_entry
residue_part item =
    if not (is_blank item.blocked_reason)
    then residue_entry item.blocked_reason
    else if not (is_blank item.failure_reason)
    then residue_entry item.failure_reason
    else none

-- The conditions of the queue, behind those of the launch.
queue_part : Context → WorkItem → Option Entry
unfolding merge_part board_part residue_part
queue_part c item =
    (if (effective_wait_for_merge c.config item.repo_key).0
      then merge_part c item (blockers c item)
      else none)
    orelse (if is_some (lookup_key item.repo_key c.resolved)
        then none
        else some (not_onboarded, no_clone))
    orelse board_part c item
    orelse residue_part item

label_part : Context → WorkItem → Option Entry
label_part c item = elim (label_hold item c.config.label) [
  | none ↦ none
  | some d ↦ some (not_labelled, d)
]

-- `launch[0][0] in (PAUSED, HELD)`.
abbrev outranks_label : HoldReason → Bool
outranks_label paused = true
outranks_label held = true
outranks_label _ = false

-- What follows the launch reasons: the label is asked between the holds and the caps.
abbrev behind : Option Entry → Option Entry → List Entry → Option Entry
behind label queue [] = label orelse queue
behind label queue (e ∷ rest) = if outranks_label e.0 then some e else label orelse some e

-- The first reason that applies; `none` means that the item may be dispatched now.
unfoldable pub hold_for : Context → WorkItem → Option Entry
unfolding queue_part label_part
hold_for c item = behind (label_part c item) (queue_part c item) (launch_holds c item)
