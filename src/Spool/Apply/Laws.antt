-- ===== src/Spool/Apply/Laws.antt =====
-- What applying a record does to its session and its item, and that a replay does nothing.
use mathlib.Core.Option
use robot_army.Base.{
  ℕ, ◌==◌, ==_iff, ℤ, String, ◌≡◌, refl, sym, ap, ◌∙◌, Bool, true, ◌&&◌, ◌⊎◌, inl, inr, Option,
  none, some, List, [], ◌∷◌, if◌then◌else◌, arith, find, Bool-cases,
}
use robot_army.States.{
  SessionState, WorkItemState, starting, running, active, failed, same_item, classify_exit,
  is_legal_session_transition,
}
use robot_army.States.Table.{◌⟶◌, same_item_sound}
use robot_army.States.Exit.{classify_exit_legal}
use robot_army.Models.{Session, WorkItem, Reason, inferred_start, reported_exit, session_exited}
use robot_army.Db.{
  Db, World, Result, ok, note, get_session, get_session_by_row_id, get_work_item, state_session,
}
use robot_army.Transition.{
  SessionColumn, exit_code_column, signal_column, session_columns, assign_session, update_sessions,
}
use robot_army.Transition.Rows.{
  NamesNoSessionState, NamesNoState, state-assign_session, id-assign_session,
}
use robot_army.Transition.Gate.{state_of, transition_moves, transition_effect, moved}
use robot_army.Transition.SessionGate.{session_moves, get-update_sessions, get_row-update_sessions}
use robot_army.Spool.{applied, fits_int64, optional_fits}
use robot_army.Spool.Apply.{infer_start, settle_item, failure_entry, apply_exit}

-- The row that a session id finds is the row of its own row id: both are keys of the table.
abbrev pub IsRow : Db → String → Session → Type 0
IsRow d sid row = (get_session d sid ≡ some row) × (get_session_by_row_id d row.id ≡ some row)

-- The world after one legal transition of a session.
abbrev pub session_moved : ℕ → Session → SessionState → Reason → List SessionColumn → World → World
session_moved now row target reason extra w =
    record (update_sessions row.id (session_columns now target extra) w) {
      log = state_session row.session_id row.state target reason row.dry_run ∷ w.log;
    }

-- The row that a session's move leaves is again found by both keys, and holds the target.
pub moved-IsRow :
    (now : ℕ) (row : Session) (target : SessionState) (reason : Reason) (extra : List SessionColumn)
    (w : World) (sid : String)
    → NamesNoSessionState extra
    → IsRow w.db sid row
    → (row' : Session) × (IsRow (session_moved now row target reason extra w).db sid row')
      × (row'.state ≡ target)
      × (row'.id ≡ row.id)
moved-IsRow now row target reason extra w sid free is_row =
    let cs = session_columns now target extra in
    let row' = assign_session cs row in
    let same : (row.id == row.id) ≡ true = (==_iff _ _).1 refl in
    (
      row',
      (
        get-update_sessions row.id cs w sid
            ∙ ap (Option.map (λ (r : Session). if r.id == row.id then assign_session cs r else r))
                is_row.0
            ∙ ap (λ (b : Bool). some (if b then assign_session cs row else row)) same,
        ap (λ (k : ℕ). get_session_by_row_id (update_sessions row.id cs w).db k)
              (id-assign_session cs row)
            ∙ get_row-update_sessions row.id cs w row.id
            ∙ ap (Option.map (λ (r : Session). if r.id == row.id then assign_session cs r else r))
                is_row.1
            ∙ ap (λ (b : Bool). some (if b then assign_session cs row else row)) same,
      ),
      state-assign_session now target extra row free,
      id-assign_session cs row,
    )

failure_entry_free : (s : WorkItemState) (reason : Reason) → NamesNoState (failure_entry s reason)
failure_entry_free failed reason = tt
failure_entry_free WorkItemState.done reason = tt
failure_entry_free _ reason = tt

-- The item follows from `active` to the target, and stays where it is from any other state.
abbrev pub follows : WorkItemState → Option WorkItemState → Option WorkItemState
follows target none = none
follows target (some s) = some (if same_item s active then target else s)

-- What a session's exit does to its item, in full.
pub settle_effect :
    (now item_id : ℕ) (target : WorkItemState) (reason : Reason) (w : World)
    → active ⟶ target
    → (w' : World) × (settle_item now item_id target reason w ≡ (ok tt, w'))
      × (state_of w'.db item_id ≡ follows target (state_of w.db item_id))
      × (w'.db.sessions ≡ w.db.sessions)
unfolding settle_item
settle_effect now item_id target reason w legal = go (get_work_item w.db item_id) refl
  where
    go :
        (o : Option WorkItem)
        → get_work_item w.db item_id ≡ o
        → (w' : World) × (settle_item now item_id target reason w ≡ (ok tt, w'))
          × (state_of w'.db item_id ≡ follows target (state_of w.db item_id))
          × (w'.db.sessions ≡ w.db.sessions)
    go none e = (w, ground (arith, e), rw e, refl)
    go (some item) e = elim (Bool-cases (same_item item.state active)) [
      | inl at ↦
          let extra = failure_entry target reason in
          let good : item.state ⟶ target = rw (same_item_sound item.state active at) legal in
          let eff = transition_effect now item_id target reason extra w item e good in
          (
            moved now item_id target reason extra item w,
            ground (arith, e, at, eff),
            ap (λ (r : Result WorkItemState × World). state_of r.1.db item_id) (sym eff)
                ∙ (transition_moves now item_id target reason extra w item e good
                    (failure_entry_free target reason)).1
                ∙ rw (e, at),
            refl,
          )
      | inr off ↦ (w, ground (arith, e, off), rw e (rw off), refl)
    ]

-- The world in which a missing start has been noted.
abbrev pub noted : Session → World → World
noted row w = record w { log = note "spool.exit_without_start" (some row.session_id) ∷ w.log }

pub infer_starting :
    (now : ℕ) (row : Session) (w : World) (sid : String)
    → IsRow w.db sid row
    → row.state ≡ starting
    → infer_start now row w ≡ (ok tt, session_moved now row running inferred_start [] (noted row w))
unfolding infer_start
infer_starting now row w sid is_row at =
    ground (
      arith,
      at,
      session_moves now row.id running inferred_start [] (noted row w) row is_row.1 good,
    )
  where
    good : is_legal_session_transition row.state running ≡ true
    good = rw at (unfold is_legal_session_transition in refl)

-- A session that is starting or running is in `running` once a missing start has been inferred.
pub infer_effect :
    (now : ℕ) (row : Session) (w : World) (sid : String)
    → IsRow w.db sid row
    → (row.state ≡ starting) ⊎ (row.state ≡ running)
    → (w' : World) × (row' : Session) × (infer_start now row w ≡ (ok tt, w'))
      × (IsRow w'.db sid row')
      × (row'.state ≡ running)
      × (row'.id ≡ row.id)
      × (w'.db.work_items ≡ w.db.work_items)
unfolding infer_start
infer_effect now row w sid is_row (inr at) = (w, row, rw at, is_row, at, refl, refl)
infer_effect now row w sid is_row (inl at) =
    let (row', is_row', state', id') =
      moved-IsRow now row running inferred_start [] (noted row w) sid tt is_row in
    (
      session_moved now row running inferred_start [] (noted row w),
      row',
      infer_starting now row w sid is_row at,
      is_row',
      state',
      id',
      refl,
    )

-- The columns that an exit writes beside the session's state.
abbrev exit_extra : ℤ → Option ℤ → List SessionColumn
exit_extra exit_code signal = exit_code_column exit_code ∷ signal_column signal ∷ []

-- An exit of a session that has not ended, with numbers that the database can store: the session
-- ends in the classified state and an active item follows it.
pub exit_effect :
    (now : ℕ) (exit_code : ℤ) (signal : Option ℤ) (w : World) (sid : String) (row : Session)
    → IsRow w.db sid row
    → (row.state ≡ starting) ⊎ (row.state ≡ running)
    → (fits_int64 exit_code && optional_fits signal) ≡ true
    → (w' : World) × (row' : Session) × (apply_exit now exit_code signal
          (classify_exit exit_code).0
          (classify_exit exit_code).1
          row
          w
        ≡ (ok applied, w'))
      × (IsRow w'.db sid row')
      × (row'.state ≡ (classify_exit exit_code).0)
      × (state_of w'.db row.work_item_id
          ≡ follows (classify_exit exit_code).1 (state_of w.db row.work_item_id))
unfolding apply_exit
exit_effect now exit_code signal w sid row is_row open' fits =
    let target = (classify_exit exit_code).0 in
    let item_target = (classify_exit exit_code).1 in
    let (w₁, row₁, eff₁, is_row₁, at₁, id₁, items₁) = infer_effect now row w sid is_row open' in
    let extra = exit_extra exit_code signal in
    let good : is_legal_session_transition row₁.state target ≡ true =
      rw at₁ (classify_exit_legal exit_code).0 in
    let eff₂ =
      session_moves now row₁.id target (reported_exit exit_code) extra w₁ row₁ is_row₁.1 good in
    let w₂ = session_moved now row₁ target (reported_exit exit_code) extra w₁ in
    let (row₂, is_row₂, at₂, id₂) =
      moved-IsRow now row₁ target (reported_exit exit_code) extra w₁ sid tt is_row₁ in
    let (w₃, eff₃, state₃, sessions₃) =
      settle_effect now row.work_item_id item_target (session_exited exit_code signal) w₂
        (classify_exit_legal exit_code).1 in
    (
      w₃,
      row₂,
      ground (arith, eff₁, fits, eff₂, eff₃, id₁),
      (
        unfold get_session in rw sessions₃ is_row₂.0,
        unfold get_session_by_row_id in rw sessions₃ is_row₂.1,
      ),
      at₂,
      state₃
          ∙ unfold get_work_item in
            ap
              (λ (rows : List WorkItem). follows item_target (
                Option.map (λ (r : WorkItem). r.state)
                  (find (λ (r : WorkItem). r.id == row.work_item_id) rows)))
              items₁,
    )
