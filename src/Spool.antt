-- ===== src/Spool.antt =====
-- src/robot_army/spool.py: the records that a session's wrapper leaves, their validation and their
-- application. `loads` stands for `json.loads`: `none` is a JSONDecodeError.
pub mod Apply
pub mod Drain
use robot_army.Base.{
  ℕ, ℤ, pos, negsuc, ltb, eq_ℤ, String, str_eq, ◌≡◌, refl, ◌^◌, Bool, true, false, not, ◌&&◌, ◌||◌,
  Option, none, some, List, [], ◌∷◌, if◌then◌else◌, any,
}
use robot_army.States.{
  SessionState, WorkItemState, starting, running, active, failed, same_session, same_item,
  terminal_session_states, classify_exit,
}
use robot_army.Models.{
  Json, null, bool, int, float, str, arr, obj, Items, Fields, no_fields, field, Session, WorkItem,
  Reason, text, started, inferred_start, reported_exit, session_exited,
}
use robot_army.Db.{
  Db, World, Error, Result, ok, err, Exec, ◌>>=◌, ◌>>◌, pure, raise, record_audit, note, type_error,
  unbindable, get_session, get_work_item,
}
use robot_army.Db.Anomalies.{raise_anomaly}
use robot_army.Transition.{
  ItemColumn, failure_column, SessionColumn, pid_column, exit_code_column, signal_column,
  transition_session, transition_work_item,
}

pub data Fault : Type 0 where
  unparseable not_object missing_session_id : Fault
  unknown_schema unknown_event bad_exit bad_signal : Json → Fault

-- What `parse_record` returns, or raises: a MalformedRecord, or an exception that its caller does
-- not expect.
pub data Parsed : Type 0 where
  valid : Fields → Parsed
  malformed : Fault → Parsed
  raised : Error → Parsed

-- `payload.get(key)`.
unfoldable pub get : String → Fields → Json
get key no_fields = null
get key (field k v fs) = if str_eq k key then v else get key fs

-- `value == SUPPORTED_SCHEMA`: in Python `True` and `1.0` are equal to 1 too.
unfoldable pub is_supported_schema : Json → Bool
is_supported_schema (int z) = eq_ℤ z (pos 1)
is_supported_schema (bool b) = b
is_supported_schema (float (some z)) = eq_ℤ z (pos 1)
is_supported_schema _ = false

-- A list and a dictionary have no hash, so `in` a frozenset raises TypeError for them.
unfoldable pub is_hashable : Json → Bool
is_hashable (arr _) = false
is_hashable (obj _) = false
is_hashable _ = true

unfoldable pub is_event : String → Json → Bool
is_event name (str s) = str_eq s name
is_event name _ = false

-- A string that is not empty.
is_session_id : Json → Bool
is_session_id (str s) = not (str_eq s "")
is_session_id _ = false

is_integer : Json → Bool
is_integer (int _) = true
is_integer _ = false

is_null : Json → Bool
is_null null = true
is_null _ = false

check_exit : Fields → Parsed
unfolding is_integer is_null
check_exit payload =
    if not (is_integer (get "exit" payload))
    then malformed (bad_exit (get "exit" payload))
    else if not (is_null (get "signal" payload)) && not (is_integer (get "signal" payload))
    then malformed (bad_signal (get "signal" payload))
    else valid payload

check_fields : Fields → Parsed
unfolding check_exit is_supported_schema is_hashable is_event is_session_id
check_fields payload =
    if not (is_supported_schema (get "schema" payload))
    then malformed (unknown_schema (get "schema" payload))
    else if not (is_hashable (get "event" payload))
    then raised type_error
    else if not (is_event "start" (get "event" payload) || is_event "exit" (get "event" payload))
    then malformed (unknown_event (get "event" payload))
    else if not (is_session_id (get "session_id" payload))
    then malformed missing_session_id
    else if is_event "exit" (get "event" payload)
    then check_exit payload
    else valid payload

check_object : Json → Parsed
unfolding check_fields
check_object (obj payload) = check_fields payload
check_object _ = malformed not_object

unfoldable pub parse_record : (String → Option Json) → String → Parsed
unfolding check_object
parse_record loads raw = elim (loads raw) [
  | none ↦ malformed unparseable
  | some payload ↦ check_object payload
]

pub data Verdict : Type 0 where
  applied duplicate orphan : Verdict

abbrev text_of : Json → String
text_of (str s) = s
text_of _ = ""

unfoldable pub session_id_of : Fields → String
session_id_of payload = text_of (get "session_id" payload)

-- `_already_applied`, with the row that its SELECT finds.
unfoldable pub already_applied : SessionState → Bool → Bool
unfolding terminal_session_states
already_applied state is_exit =
    if is_exit
    then any (same_session state) terminal_session_states
    else not (same_session state starting)

-- Python's truth of a value that JSON can hold.
is_truthy : Json → Bool
is_truthy null = false
is_truthy (bool b) = b
is_truthy (int z) = not (eq_ℤ z (pos 0))
is_truthy (float (some z)) = not (eq_ℤ z (pos 0))
is_truthy (float none) = true
is_truthy (str s) = not (str_eq s "")
is_truthy (arr Items.no_items) = false
is_truthy (obj no_fields) = false
is_truthy _ = true

-- SQLite stores an integer of 64 bits with a sign, and sqlite3 refuses a larger one.
unfoldable pub fits_int64 : ℤ → Bool
fits_int64 (pos n) = ltb n (2 ^ 63)
fits_int64 (negsuc n) = ltb n (2 ^ 63)

is_bindable : Json → Bool
is_bindable (int z) = fits_int64 z
is_bindable (arr _) = false
is_bindable (obj _) = false
is_bindable _ = true

abbrev optional_fits : Option ℤ → Bool
optional_fits none = true
optional_fits (some z) = fits_int64 z
