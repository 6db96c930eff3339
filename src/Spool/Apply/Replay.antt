-- ===== src/Spool/Apply/Replay.antt =====
-- `apply_record` as a whole: what an applied exit record leaves, and that applying it once more
-- changes nothing.
use robot_army.Base.{
  ℕ, ℤ, String, ◌≡◌, refl, sym, ap, ◌∙◌, true, false, not, ◌&&◌, ◌⊎◌, inl, inr, subst, Option, some,
  [], ◌∷◌, arith, Bool-cases,
}
use robot_army.States.{
  SessionState, WorkItemState, starting, running, classify_exit, terminal_session_states,
  is_legal_session_transition,
}
use robot_army.States.Table.{IsTerminalSession}
use robot_army.Models.{Json, Fields, Session, started, inferred_start}
use robot_army.Db.{World, Result, ok, err, unbindable, transaction, state_session, note}
use robot_army.Transition.{pid_column}
use robot_army.Transition.Gate.{state_of}
use robot_army.Transition.SessionGate.{session_moves}
use robot_army.Spool.{
  Verdict, applied, duplicate, already_applied, fits_int64, optional_fits, get, is_event,
  session_id_of, is_truthy, is_bindable,
}
use robot_army.Spool.Apply.{
  apply_exit, apply_start, apply_to_row, apply_record, exit_of, signal_of, infer_start,
}
use robot_army.Spool.Apply.Laws.{
  IsRow, session_moved, moved-IsRow, exit_effect, follows, infer_effect, infer_starting,
}

start_effect :
    (now : ℕ) (pid : Json) (w : World) (sid : String) (row : Session)
    → IsRow w.db sid row
    → row.state ≡ starting
    → (not (is_truthy pid) ≡ true) ⊎ (is_bindable pid ≡ true)
    → (w' : World) × (row' : Session) × (apply_start now pid row w ≡ (ok applied, w'))
      × (IsRow w'.db sid row')
      × (row'.state ≡ running)
unfolding apply_start
start_effect now pid w sid row is_row at good = elim (Bool-cases (is_truthy pid)) [
  | inl truthy ↦
      let extra = pid_column pid ∷ [] in
      let (row', is_row', at', _) = moved-IsRow now row running started extra w sid tt is_row in
      (
        session_moved now row running started extra w,
        row',
        ground (arith, session_moves now row.id running started extra w row is_row.1 legal),
        is_row',
        at',
      )
  | inr falsy ↦
      let (row', is_row', at', _) = moved-IsRow now row running started [] w sid tt is_row in
      (
        session_moved now row running started [] w,
        row',
        ground (arith, session_moves now row.id running started [] w row is_row.1 legal),
        is_row',
        at',
      )
]
  where
    legal : is_legal_session_transition row.state running ≡ true
    legal = rw at (unfold is_legal_session_transition in refl)

-- The numbers of an exit record do not fit the database: the transaction fails.
pub exit_unbindable :
    (now : ℕ) (exit_code : ℤ) (signal : Option ℤ) (s : SessionState) (i : WorkItemState) (w : World)
    (sid : String) (row : Session)
    → IsRow w.db sid row
    → (row.state ≡ starting) ⊎ (row.state ≡ running)
    → (fits_int64 exit_code && optional_fits signal) ≡ false
    → (w' : World) × (apply_exit now exit_code signal s i row w ≡ (err unbindable, w'))
      × (infer_start now row w ≡ (ok tt, w'))
unfolding apply_exit
exit_unbindable now exit_code signal s i w sid row is_row open' bad =
    let (w₁, row₁, eff₁, _, _, _, _) = infer_effect now row w sid is_row open' in
    (w₁, ground (arith, eff₁, bad), eff₁)

not_ended : (s : SessionState) → already_applied s true ≡ false → (s ≡ starting) ⊎ (s ≡ running)
unfolding already_applied
not_ended starting h = inl refl
not_ended running h = inr refl
not_ended s h = absurd (cc h)

ended_applied : (s : SessionState) → IsTerminalSession s → already_applied s true ≡ true
unfolding already_applied terminal_session_states
ended_applied s h = ground (arith, h)

classify_exit_ends : (exit_code : ℤ) → IsTerminalSession (classify_exit exit_code).0
unfolding classify_exit terminal_session_states
classify_exit_ends exit_code = ground arith

abbrev pub code_of : Fields → ℤ
code_of payload = exit_of (get "exit" payload)

abbrev pub reported_signal : Fields → Option ℤ
reported_signal payload = signal_of (get "signal" payload) (classify_exit (code_of payload)).2

module _ (now : ℕ) (payload : Fields) (w : World) (row : Session)
    (is_row : IsRow w.db (session_id_of payload) row) where
  -- An exit record, with numbers that the database can store, for a session that has not ended: it
  -- is applied, the session ends in the classified state, and its item follows it from `active`
  -- alone.
  pub exit_record_applied :
      is_event "exit" (get "event" payload) ≡ true
      → already_applied row.state true ≡ false
      → (fits_int64 (code_of payload) && optional_fits (reported_signal payload)) ≡ true
      → (w' : World) × (row' : Session) × (apply_record now payload w ≡ (ok applied, w'))
        × (IsRow w'.db (session_id_of payload) row')
        × (row'.state ≡ (classify_exit (code_of payload)).0)
        × (state_of w'.db row.work_item_id
            ≡ follows (classify_exit (code_of payload)).1 (state_of w.db row.work_item_id))
  unfolding apply_record apply_to_row
  exit_record_applied is_exit fresh fits =
      let (w', row', eff, is_row', at', state') =
        exit_effect now (code_of payload) (reported_signal payload) w (session_id_of payload) row
          is_row (not_ended row.state fresh) fits in
      (w', row', ground (arith, is_row.0, is_exit, fresh, eff), is_row', at', state')

-- What a first application that reports `applied` has left: a row that the same record finds
-- already applied.
abbrev pub AppliedAlready : ℕ → Fields → World → Type 0
AppliedAlready now payload w =
    (w' : World) × (row' : Session) × (apply_record now payload w ≡ (ok applied, w'))
    × (IsRow w'.db (session_id_of payload) row')
    × (already_applied row'.state (is_event "exit" (get "event" payload)) ≡ true)

fresh_start : (s : SessionState) → already_applied s false ≡ false → s ≡ starting
unfolding already_applied
fresh_start starting h = refl
fresh_start s h = absurd (cc h)

applied_start :
    (now : ℕ) (payload : Fields) (w : World) (row : Session)
    → IsRow w.db (session_id_of payload) row
    → is_event "exit" (get "event" payload) ≡ false
    → row.state ≡ starting
    → (apply_record now payload w).0 ≡ ok applied
    → AppliedAlready now payload w
unfolding apply_record apply_to_row already_applied
applied_start now payload w row is_row is_start at done' =
    go (Bool-cases (is_truthy pid)) (Bool-cases (is_bindable pid))
  where
    pid : Json
    pid = get "pid" payload

    finish : (not (is_truthy pid) ≡ true) ⊎ (is_bindable pid ≡ true) → AppliedAlready now payload w
    finish good =
        let (w', row', eff, is_row', at') =
          start_effect now pid w (session_id_of payload) row is_row at good in
        (
          w',
          row',
          ground (arith, is_row.0, is_start, at, eff),
          is_row',
          ground (arith, is_start, at'),
        )

    go :
        (is_truthy pid ≡ true) ⊎ (is_truthy pid ≡ false)
        → (is_bindable pid ≡ true) ⊎ (is_bindable pid ≡ false)
        → AppliedAlready now payload w
    go (inr falsy) _ = finish (inl (rw falsy))
    go (inl truthy) (inl good) = finish (inr good)
    go (inl truthy) (inr bad) =
        absurd (unfold apply_start in ground (arith, is_row.0, is_start, at, truthy, bad, done'))

pub applied_already :
    (now : ℕ) (payload : Fields) (w : World) (row : Session)
    → IsRow w.db (session_id_of payload) row
    → (apply_record now payload w).0 ≡ ok applied
    → AppliedAlready now payload w
unfolding apply_record apply_to_row
applied_already now payload w row is_row done' =
    elim (Bool-cases (already_applied row.state (is_event "exit" (get "event" payload)))) [
      | inl old ↦ absurd (ground (arith, is_row.0, old, done'))
      | inr fresh ↦ elim (Bool-cases (is_event "exit" (get "event" payload))) [
        | inl is_exit ↦
            elim (Bool-cases
              (fits_int64 (code_of payload) && optional_fits (reported_signal payload))) [
                | inl fits ↦
                    let fresh' : already_applied row.state true ≡ false =
                      subst (λ b. already_applied row.state b ≡ false) is_exit fresh in
                    let (w', row', eff, is_row', at', _) =
                      exit_record_applied now payload w row is_row is_exit fresh' fits in
                    (
                      w',
                      row',
                      eff,
                      is_row',
                      subst (λ b. already_applied row'.state b ≡ true) (sym is_exit)
                          (ended_applied row'.state
                            (rw at' (classify_exit_ends (code_of payload)))),
                    )
                | inr bad ↦
                    let fresh' : already_applied row.state true ≡ false =
                      subst (λ b. already_applied row.state b ≡ false) is_exit fresh in
                    let (w', eff, _) =
                      exit_unbindable now (code_of payload) (reported_signal payload)
                        (classify_exit (code_of payload)).0 (classify_exit (code_of payload)).1 w
                        (session_id_of payload) row is_row (not_ended row.state fresh') bad in
                    absurd (ground (arith, is_row.0, is_exit, fresh', eff, done'))
              ]
        | inr is_start ↦
            applied_start now payload w row is_row is_start
              (fresh_start row.state
                (subst (λ b. already_applied row.state b ≡ false) is_start fresh))
              done'
      ]
    ]

pub duplicate_of :
    (now : ℕ) (payload : Fields) (w : World) (row : Session)
    → IsRow w.db (session_id_of payload) row
    → already_applied row.state (is_event "exit" (get "event" payload)) ≡ true
    → apply_record now payload w ≡ (ok duplicate, w)
unfolding apply_record apply_to_row
duplicate_of now payload w row is_row old = ground (arith, is_row.0, old)

-- Once a record has been applied, applying it again, whatever the clock says, reports a duplicate
-- and changes neither the tables nor the log.
pub replay_is_noop :
    (now later : ℕ) (payload : Fields) (w : World) (row : Session)
    → IsRow w.db (session_id_of payload) row
    → (apply_record now payload w).0 ≡ ok applied
    → apply_record later payload (apply_record now payload w).1
      ≡ (ok duplicate, (apply_record now payload w).1)
replay_is_noop now later payload w row is_row done' =
    let (w', row', eff, is_row', old) = applied_already now payload w row is_row done' in
    subst (λ v. apply_record later payload v ≡ (ok duplicate, v))
      (sym (ap (λ (r : Result Verdict × World). r.1) eff))
      (duplicate_of later payload w' row' is_row' old)

-- An exit record for a session that is still starting, with a number that the database cannot
-- store: the transaction is rolled back and leaves the tables as they were, and the log keeps the
-- record of a transition to `running` that did not happen.
pub rolled_back_but_logged :
    (now : ℕ) (payload : Fields) (w : World) (row : Session)
    → IsRow w.db (session_id_of payload) row
    → row.state ≡ starting
    → is_event "exit" (get "event" payload) ≡ true
    → (fits_int64 (code_of payload) && optional_fits (reported_signal payload)) ≡ false
    → (w' : World) × (transaction (apply_record now payload) w ≡ (err unbindable, w'))
      × (w'.db ≡ w.db)
      × (w'.log
          ≡ state_session row.session_id row.state running inferred_start row.dry_run
            ∷ note "spool.exit_without_start" (some row.session_id)
            ∷ w.log)
unfolding apply_record apply_to_row transaction
rolled_back_but_logged now payload w row is_row at is_exit bad =
    let (w₁, eff, inferred) =
      exit_unbindable now (code_of payload) (reported_signal payload)
        (classify_exit (code_of payload)).0 (classify_exit (code_of payload)).1 w
        (session_id_of payload) row is_row (inl at) bad in
    (
      record w₁ { db = w.db },
      ground (arith, is_row.0, is_exit, eff, fresh),
      refl,
      ap (λ (r : Result (Unit {0}) × World). r.1.log)
          (sym inferred ∙ infer_starting now row w (session_id_of payload) is_row at),
    )
  where
    fresh : already_applied row.state true ≡ false
    fresh = rw at (unfold already_applied terminal_session_states in refl)
