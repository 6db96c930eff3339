-- ===== src/Spool/Apply.antt =====
-- `apply_record` of src/robot_army/spool.py: one validated record against the tables.
pub mod Laws
pub mod Replay
use robot_army.Base.{
  ℕ, ℤ, pos, String, Bool, true, false, not, ◌&&◌, Option, none, some, List, [], ◌∷◌, if◌then◌else◌,
}
use robot_army.States.{
  SessionState, WorkItemState, starting, running, active, failed, same_session, same_item,
  classify_exit,
}
use robot_army.Models.{
  Json, int, Fields, Session, WorkItem, Reason, text, started, inferred_start, reported_exit,
  session_exited,
}
use robot_army.Db.{
  World, Error, Result, ok, err, ◌>>=◌, ◌>>◌, pure, raise, record_audit, note, unbindable,
  get_session, get_work_item,
}
use robot_army.Db.Anomalies.{raise_anomaly}
use robot_army.Transition.{
  ItemColumn, failure_column, SessionColumn, pid_column, exit_code_column, signal_column,
  transition_session, transition_work_item,
}
use robot_army.Spool.{
  Verdict, applied, duplicate, orphan, get, is_event, session_id_of, already_applied, is_truthy,
  is_bindable, optional_fits, fits_int64,
}

-- `payload["exit"]`, which `parse_record` has found to be an integer.
abbrev exit_of : Json → ℤ
exit_of (int z) = z
exit_of _ = pos 0

-- The wrapper's own decoding of the signal, and the derived one where it is absent.
abbrev signal_of : Json → Option ℤ → Option ℤ
signal_of (int z) derived = some z
signal_of _ derived = derived

abbrev failure_entry : WorkItemState → Reason → List ItemColumn
failure_entry s reason = if same_item s failed then failure_column (some reason) ∷ [] else []

-- A session that no start record moved: the exit record moves it to running first.
unfoldable pub infer_start : ℕ → Session → World → Result (Unit {0}) × World
infer_start now row =
    if same_session row.state starting
    then (do
      record_audit (note "spool.exit_without_start" (some row.session_id))
      transition_session now row.id running inferred_start []
      pure tt)
    else pure tt

-- The item follows its session only from `active`.
unfoldable pub settle_item : ℕ → ℕ → WorkItemState → Reason → World → Result (Unit {0}) × World
settle_item now item_id target reason w = elim (get_work_item w.db item_id) [
  | none ↦ (ok tt, w)
  | some item ↦
      if same_item item.state active
      then (do
        transition_work_item now item_id target reason (failure_entry target reason)
        pure tt)
          w
      else (ok tt, w)
]

-- sqlite3 raises OverflowError for an integer that does not fit a column.
abbrev guard_binding : Bool → World → Result (Unit {0}) × World
guard_binding true = pure tt
guard_binding false = raise unbindable

unfoldable pub apply_exit :
    ℕ → ℤ → Option ℤ → SessionState → WorkItemState → Session → World → Result Verdict × World
apply_exit now exit_code signal session_state item_state row = do
  infer_start now row
  guard_binding (fits_int64 exit_code && optional_fits signal)
  transition_session now row.id session_state (reported_exit exit_code)
      (exit_code_column exit_code ∷ signal_column signal ∷ [])
  settle_item now row.work_item_id item_state (session_exited exit_code signal)
  pure applied

unfoldable pub apply_start : ℕ → Json → Session → World → Result Verdict × World
unfolding is_truthy is_bindable
apply_start now pid row =
    if not (is_truthy pid)
    then (do transition_session now row.id running started []; pure applied)
    else if is_bindable pid
    then (do transition_session now row.id running started (pid_column pid ∷ []); pure applied)
    else raise unbindable

unfoldable pub apply_to_row : ℕ → Fields → Session → World → Result Verdict × World
unfolding apply_start apply_exit already_applied
apply_to_row now payload row =
    let is_exit = is_event "exit" (get "event" payload) in
    let exit_code = exit_of (get "exit" payload) in
    let (session_state, item_state, derived) = classify_exit exit_code in
    if already_applied row.state is_exit
    then pure duplicate
    else if not is_exit
    then apply_start now (get "pid" payload) row
    else apply_exit now exit_code (signal_of (get "signal" payload) derived) session_state
        item_state row

-- No session has the record's id: an anomaly, and the file is kept.
unfoldable pub apply_orphan : ℕ → String → World → Result Verdict × World
apply_orphan now sid = do
  raise_anomaly now "orphan_exit_record" (text "no sessions row matches this session_id")
      (some "session") (some sid) false
  pure orphan

unfoldable pub apply_record : ℕ → Fields → World → Result Verdict × World
unfolding apply_to_row apply_orphan
apply_record now payload w = elim (get_session w.db (session_id_of payload)) [
  | none ↦ apply_orphan now (session_id_of payload) w
  | some row ↦ apply_to_row now payload row w
]
