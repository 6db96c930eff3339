-- ===== src/Db/Holds.antt =====
-- The pause, the holds and the keeps of src/robot_army/db.py: rows keyed by what they hold.
pub mod Laws
use Prim.Native.Nat.{max}
use robot_army.Base.{
  ℕ, ◌==◌, String, str_eq, Bool, true, false, ◌&&◌, ◌||◌, Option, none, some, List, [], ◌∷◌, ◌++◌,
  any, keep, if◌then◌else◌,
}
use robot_army.Models.{Hold, DispatchControl, Session, WorkItem}
use robot_army.States.{starting, running, done, same_session, same_item}
use robot_army.Db.{Db, World, get_work_item}

-- A table of holds, over the equality test of its key column.
module _ {ℓ} {K : Type ℓ} (same : K → K → Bool) where
  unfoldable pub find_hold : K → List (K × Hold) → Option Hold
  find_hold k [] = none
  find_hold k ((j, h) ∷ rows) = if same j k then some h else find_hold k rows

  -- `INSERT … ON CONFLICT DO NOTHING`, then the row is read back.
  unfoldable pub set_hold :
      ℕ → K → String → List (K × Hold) → (Option Hold × Bool) × List (K × Hold)
  unfolding find_hold
  set_hold now target by rows = elim (find_hold target rows) [
    | some h ↦ ((some h, false), rows)
    | none ↦
        let rows' = rows ++ (target, record { held_at = now; held_by = by }) ∷ [] in
        ((find_hold target rows', true), rows')
  ]

  unfoldable pub delete_hold : K → List (K × Hold) → List (K × Hold)
  delete_hold k [] = []
  delete_hold k ((j, h) ∷ rows) =
      let rest = delete_hold k rows in if same j k then rest else (j, h) ∷ rest

  unfoldable pub clear_hold : K → List (K × Hold) → Option Hold × List (K × Hold)
  unfolding find_hold delete_hold
  clear_hold target rows = elim (find_hold target rows) [
    | none ↦ (none, rows)
    | some h ↦ (some h, delete_hold target rows)
  ]

unfoldable pub get_dispatch_control : Db → DispatchControl
get_dispatch_control d = elim d.control [
  | none ↦ record { paused = false; paused_at = none; paused_by = none }
  | some c ↦ c
]

abbrev stamped {ℓ} : {A : Type ℓ} → Bool → A → Option A
stamped true a = some a
stamped false a = none

abbrev same_flag : Bool → Bool → Bool
same_flag true b = b
same_flag false true = false
same_flag false false = true

unfoldable pub set_dispatch_paused : ℕ → Bool → String → Db → DispatchControl × Db
set_dispatch_paused now paused by d =
    let current = get_dispatch_control d in
    if same_flag current.paused paused
    then (current, d)
    else let c : DispatchControl = record {
      paused = paused;
      paused_at = stamped paused now;
      paused_by = stamped paused by;
    } in
      (c, record d { control = some c })

-- `SELECT MAX(attempt) … WHERE work_item_id = ?`.
unfoldable pub latest_attempt : ℕ → List Session → ℕ
latest_attempt item_id [] = 0
latest_attempt item_id (s ∷ rows) =
    let rest = latest_attempt item_id rows in
    if s.work_item_id == item_id then max s.attempt rest else rest

is_done : Option WorkItem → Bool
is_done none = false
is_done (some item) = same_item item.state done

repo_of : Option WorkItem → String
repo_of none = ""
repo_of (some item) = item.repo_key

unfoldable pub is_kept : Db → ℕ → Bool
is_kept d item_id = any (λ k. k.0 == item_id) d.item_keeps

-- The open row of a done, kept item's latest attempt.
unfoldable pub is_kept_session : Db → Session → Bool
unfolding is_done latest_attempt is_kept
is_kept_session d s =
    (same_session s.state starting || same_session s.state running)
    && (is_done (get_work_item d s.work_item_id)
        && (is_kept d s.work_item_id && s.attempt == latest_attempt s.work_item_id d.sessions))

kept_rows : Db → List Session → List (String × String)
kept_rows d [] = []
kept_rows d (s ∷ rows) =
    let rest = kept_rows d rows in
    if is_kept_session d s
    then (repo_of (get_work_item d s.work_item_id), s.session_id) ∷ rest
    else rest

unfoldable pub list_kept_sessions : Db → List (String × String)
unfolding kept_rows repo_of is_kept_session
list_kept_sessions d = kept_rows d d.sessions
