-- ===== src/Transition/SessionGate.antt =====
-- `transition_session` of states.py: its effect on the row, found by row id or by session id.
use mathlib.Core.Option
use robot_army.Base.{
  ℕ, ◌==◌, String, str_eq, ◌≡◌, refl, true, false, some, List, [], ◌∷◌, arith, if◌then◌else◌, ap,
  ◌∙◌,
}
use robot_army.States.{SessionState, same_session, is_legal_session_transition}
use robot_army.Models.{Session, Reason}
use robot_army.Db.{World, ok, state_session, get_session, get_session_by_row_id}
use robot_army.Transition.{
  SessionColumn, set_session_column, session_columns, assign_session, update_sessions, move_session,
  transition_session,
}
use robot_army.Transition.Rows.{find-update_where, id-assign_session}

session_id-set_session_column :
    (r : Session) (c : SessionColumn) → (set_session_column r c).session_id ≡ r.session_id
unfolding set_session_column
session_id-set_session_column r c = ground arith

pub session_id-assign_session :
    (cs : List SessionColumn) (r : Session) → (assign_session cs r).session_id ≡ r.session_id
unfolding assign_session
session_id-assign_session [] r = refl
session_id-assign_session (c ∷ cs) r =
    session_id-assign_session cs (set_session_column r c) ∙ session_id-set_session_column r c

item-set_session_column :
    (r : Session) (c : SessionColumn) → (set_session_column r c).work_item_id ≡ r.work_item_id
unfolding set_session_column
item-set_session_column r c = ground arith

pub get-update_sessions :
    (row_id : ℕ) (cs : List SessionColumn) (w : World) (sid : String)
    → get_session (update_sessions row_id cs w).db sid
      ≡ Option.map (λ r. if r.id == row_id then assign_session cs r else r) (get_session w.db sid)
unfolding get_session
get-update_sessions row_id cs w sid =
    find-update_where (λ r. str_eq r.session_id sid) (λ r. r.id == row_id) (assign_session cs)
      w.db.sessions (λ r. ap (λ (i : String). str_eq i sid) (session_id-assign_session cs r))

pub get_row-update_sessions :
    (row_id : ℕ) (cs : List SessionColumn) (w : World) (j : ℕ)
    → get_session_by_row_id (update_sessions row_id cs w).db j
      ≡ Option.map
          (λ r. if r.id == row_id then assign_session cs r else r)
          (get_session_by_row_id w.db j)
unfolding get_session_by_row_id
get_row-update_sessions row_id cs w j =
    find-update_where (λ r. r.id == j) (λ r. r.id == row_id) (assign_session cs) w.db.sessions
      (λ r. ap (λ (i : ℕ). i == j) (id-assign_session cs r))

session_legal_not_same :
    (s t : SessionState) → is_legal_session_transition s t ≡ true → same_session s t ≡ false
unfolding is_legal_session_transition
session_legal_not_same s t h = ground arith

-- A legal transition of a session, whose row the lookup finds.
pub session_moves :
    (now row_id : ℕ) (target : SessionState) (reason : Reason) (extra : List SessionColumn)
    (w : World) (row : Session)
    → get_session_by_row_id w.db row_id ≡ some row
    → is_legal_session_transition row.state target ≡ true
    → transition_session now row_id target reason extra w ≡ (
      ok row.state,
      record (update_sessions row_id (session_columns now target extra) w) {
        log = state_session row.session_id row.state target reason row.dry_run ∷ w.log;
      },
    )
unfolding transition_session
session_moves now row_id target reason extra w row h legal =
    rw (h, transition_session)
      (rw (session_legal_not_same row.state target legal, move_session) (rw (legal, move_session)))
