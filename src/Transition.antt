-- ===== src/Transition.antt =====
-- The gates of src/robot_army/states.py: the three functions through which a state column of a
-- work item or a session is written. `now` is the reading of the clock that the call takes.
pub mod Rows
pub mod Gate
pub mod Claim
pub mod SessionGate
pub mod Calls
pub mod Audit
use robot_army.Base.{
  ℕ, ◌==◌, ℤ, String, str_eq, Bool, true, false, not, ◌&&◌, Option, none, some, List, [], ◌∷◌, ◌++◌,
  any, find, update_where, if◌then◌else◌,
}
use mathlib.Core.List.{foldl}
use robot_army.States.{
  WorkItemState, SessionState, ItemStamp, SessionStamp, same_item, same_session, claimable_sources,
  is_legal_work_item_transition, is_legal_session_transition, work_item_stamp_column,
  session_stamp_column,
}
use robot_army.Models.{WorkItem, Session, Reason, Json, CleanupState, CleanupReason}
use robot_army.Db.{
  Db, World, Error, Result, Exec, ◌>>=◌, ◌>>◌, pure, raise, record_audit, get_work_item,
  get_session_by_row_id, AuditRecord, state_work_item, claimed_work_item, state_session,
  lookup_error, illegal_transition, no_way_in, illegal_session, claim_lost, type_error,
}

-- An entry of the `columns` dictionary of an UPDATE.
pub data ItemColumn : Type 0 where
  state_column : WorkItemState → ItemColumn
  updated_column : ℕ → ItemColumn
  stamp_column : ItemStamp → ℕ → ItemColumn
  failure_column : Option Reason → ItemColumn
  blocked_column : Option Reason → ItemColumn
  labels_column : Option (List String) → ItemColumn
  cleanup_columns : CleanupState → CleanupReason → ℕ → ItemColumn

pub data SessionColumn : Type 0 where
  session_state_column : SessionState → SessionColumn
  session_stamp : SessionStamp → ℕ → SessionColumn
  pid_column : Json → SessionColumn
  exit_code_column : ℤ → SessionColumn
  signal_column : Option ℤ → SessionColumn

same_stamp : ItemStamp → ItemStamp → Bool
same_stamp ItemStamp.ready_at ItemStamp.ready_at = true
same_stamp ItemStamp.dispatching_at ItemStamp.dispatching_at = true
same_stamp ItemStamp.active_at ItemStamp.active_at = true
same_stamp ItemStamp.ended_at ItemStamp.ended_at = true
same_stamp ItemStamp.done_at ItemStamp.done_at = true
same_stamp _ _ = false

same_session_stamp : SessionStamp → SessionStamp → Bool
same_session_stamp SessionStamp.confirmed_at SessionStamp.confirmed_at = true
same_session_stamp SessionStamp.session_ended_at SessionStamp.session_ended_at = true
same_session_stamp _ _ = false

unfoldable pub set_item_column : WorkItem → ItemColumn → WorkItem
unfolding same_stamp
set_item_column r (state_column s) = record r { state = s }
set_item_column r (updated_column n) = record r { updated_at = n }
set_item_column r (stamp_column c n) = record r {
  stamps = λ k. if same_stamp k c then some n else r.stamps k;
}
set_item_column r (failure_column x) = record r { failure_reason = x }
set_item_column r (blocked_column x) = record r { blocked_reason = x }
set_item_column r (labels_column x) = record r { labels = x }
set_item_column r (cleanup_columns s why now) = record r {
  cleanup_state = some s;
  cleanup_reason = some why;
  cleaned_at = some now;
}

unfoldable pub set_session_column : Session → SessionColumn → Session
unfolding same_session_stamp
set_session_column r (session_state_column s) = record r { state = s }
set_session_column r (session_stamp c n) = record r {
  stamps = λ k. if same_session_stamp k c then some n else r.stamps k;
}
set_session_column r (pid_column x) = record r { pid = x }
set_session_column r (exit_code_column x) = record r { exit_code = some x }
set_session_column r (signal_column x) = record r { signal = x }

abbrev item_stamp_entry : ℕ → Option ItemStamp → List ItemColumn
item_stamp_entry now none = []
item_stamp_entry now (some c) = stamp_column c now ∷ []

abbrev session_stamp_entry : ℕ → Option SessionStamp → List SessionColumn
session_stamp_entry now none = []
session_stamp_entry now (some c) = session_stamp c now ∷ []

-- The dictionary, in the order in which its entries are written: a later one wins.
unfoldable pub item_columns : ℕ → WorkItemState → List ItemColumn → List ItemColumn
unfolding work_item_stamp_column
item_columns now target extra =
    state_column target
    ∷ updated_column now
    ∷ (item_stamp_entry now (work_item_stamp_column target) ++ extra)

unfoldable pub session_columns : ℕ → SessionState → List SessionColumn → List SessionColumn
unfolding session_stamp_column
session_columns now target extra =
    session_state_column target ∷ (session_stamp_entry now (session_stamp_column target) ++ extra)

unfoldable pub assign_item : List ItemColumn → WorkItem → WorkItem
unfolding set_item_column
assign_item columns r = foldl set_item_column r columns

unfoldable pub assign_session : List SessionColumn → Session → Session
unfolding set_session_column
assign_session columns r = foldl set_session_column r columns

-- `UPDATE work_items SET … WHERE` the row passes.
abbrev pub update_items : (WorkItem → Bool) → List ItemColumn → World → World
update_items wanted columns w = record w {
  db = record w.db { work_items = update_where wanted (assign_item columns) w.db.work_items };
}

abbrev pub update_sessions : ℕ → List SessionColumn → World → World
update_sessions row_id columns w = record w {
  db = record w.db {
    sessions = update_where (λ r. r.id == row_id) (assign_session columns) w.db.sessions;
  };
}

unfoldable pub move_work_item :
    ℕ → ℕ → WorkItemState → Reason → List ItemColumn → WorkItem → Exec WorkItemState
unfolding item_columns
move_work_item now item_id target reason extra row w =
    if same_item row.state target
    then (Result.ok row.state, w)
    else if not (is_legal_work_item_transition row.state target)
    then (Result.err (illegal_transition row.state target), w)
    else (do
      record_audit (state_work_item item_id row.state target reason row.dry_run)
      pure row.state)
        (update_items (λ r. r.id == item_id) (item_columns now target extra) w)

unfoldable pub transition_work_item :
    ℕ → ℕ → WorkItemState → Reason → List ItemColumn → Exec WorkItemState
unfolding move_work_item
transition_work_item now item_id target reason extra w = elim (get_work_item w.db item_id) [
  | none ↦ (Result.err lookup_error, w)
  | some row ↦ move_work_item now item_id target reason extra row w
]

-- What a losing claim raises, from a second read of the row.
lost_claim : ℕ → World → Result (Unit {0}) × World
lost_claim item_id w = elim (get_work_item w.db item_id) [
  | none ↦ (Result.err lookup_error, w)
  | some row ↦ (Result.err (claim_lost row.state), w)
]

-- The record of a claim that was won, with the flag that a read after the UPDATE finds.
won_claim : ℕ → List WorkItemState → WorkItemState → Reason → World → Result (Unit {0}) × World
won_claim item_id sources target reason w = elim (get_work_item w.db item_id) [
  | none ↦ (Result.err type_error, w)
  | some row ↦ record_audit (claimed_work_item item_id sources target reason row.dry_run) w
]

-- `WHERE id = ? AND state IN (…)`.
abbrev pub claimable : ℕ → List WorkItemState → WorkItem → Bool
claimable item_id sources r = r.id == item_id && any (same_item r.state) sources

abbrev is_empty : List WorkItemState → Bool
is_empty [] = true
is_empty (_ ∷ _) = false

unfoldable pub claim_work_item :
    ℕ → ℕ → WorkItemState → Reason → List ItemColumn → World → Result (Unit {0}) × World
unfolding lost_claim won_claim item_columns
claim_work_item now item_id target reason extra w =
    let sources = claimable_sources target in
    if is_empty sources
    then (Result.err (no_way_in target), w)
    else if any (claimable item_id sources) w.db.work_items
    then won_claim item_id sources target reason
        (update_items (claimable item_id sources) (item_columns now target extra) w)
    else lost_claim item_id w

unfoldable pub move_session :
    ℕ → ℕ → SessionState → Reason → List SessionColumn → Session → Exec SessionState
unfolding session_columns
move_session now row_id target reason extra row w =
    if same_session row.state target
    then (Result.ok row.state, w)
    else if not (is_legal_session_transition row.state target)
    then (Result.err (illegal_session row.state target), w)
    else (do
      record_audit (state_session row.session_id row.state target reason row.dry_run)
      pure row.state)
        (update_sessions row_id (session_columns now target extra) w)

unfoldable pub transition_session :
    ℕ → ℕ → SessionState → Reason → List SessionColumn → Exec SessionState
unfolding move_session
transition_session now row_id target reason extra w = elim (get_session_by_row_id w.db row_id) [
  | none ↦ (Result.err lookup_error, w)
  | some row ↦ move_session now row_id target reason extra row w
]
