-- ===== src/Transition/Calls.antt =====
-- Calls of the gates of states.py, each in its transaction, and what one call can do to the world.
use robot_army.Base.{
  ℕ, ◌≡◌, refl, true, Option, none, some, List, [], ◌∷◌, arith, any, ◌⊎◌, Bool-cases, inl, inr,
}
use robot_army.States.{
  WorkItemState, SessionState, same_item, is_legal_work_item_transition, claimable_sources,
  is_legal_session_transition, same_session,
}
use robot_army.States.Table.{◌⟶◌}
use robot_army.Models.{WorkItem, Session, Reason}
use robot_army.Db.{World, state_session, transaction, get_work_item, get_session_by_row_id}
use robot_army.Transition.{
  ItemColumn, SessionColumn, transition_work_item, claim_work_item, transition_session,
  move_work_item, move_session, claimable, lost_claim, update_sessions, session_columns,
}
use robot_army.Transition.Rows.{NamesNoState, IsKeyed, keyed_row}
use robot_army.Transition.Gate.{moved}
use robot_army.Transition.Claim.{claimed, claim_effect}

-- A call of a gate, with the clock that it reads.
pub data Call : Type 0 where
  transition_call : ℕ → ℕ → WorkItemState → Reason → List ItemColumn → Call
  claim_call : ℕ → ℕ → WorkItemState → Reason → Call
  session_call : ℕ → ℕ → SessionState → Reason → List SessionColumn → Call

-- Each call in a transaction of its own, its error dropped after the rollback.
unfoldable pub call : Call → World → World
unfolding transaction
call (transition_call now item_id target reason extra) w =
    (transaction (transition_work_item now item_id target reason extra) w).1
call (claim_call now item_id target reason) w =
    (transaction (claim_work_item now item_id target reason []) w).1
call (session_call now row_id target reason extra) w =
    (transaction (transition_session now row_id target reason extra) w).1

unfoldable pub calls : List Call → World → World
unfolding call
calls [] w = w
calls (c ∷ cs) w = calls cs (call c w)

abbrev pub Admissible : Call → Type 0
Admissible (transition_call _ _ _ _ extra) = NamesNoState extra
Admissible _ = Unit

-- A call of the transition gate in a transaction, whether it succeeds or raises, either leaves the
-- tables and the log as they are or makes one move that the table allows, out of the state that the
-- row held, with its record in the log.
pub transition_outcome :
    (now i : ℕ) (target : WorkItemState) (reason : Reason) (extra : List ItemColumn) (w : World)
    → (call (transition_call now i target reason extra) w ≡ w)
      ⊎ ((row : WorkItem) × (get_work_item w.db i ≡ some row)
          × (row.state ⟶ target)
          × (call (transition_call now i target reason extra) w
              ≡ moved now i target reason extra row w))
unfolding call transaction transition_work_item
transition_outcome now i target reason extra w = go (get_work_item w.db i) refl
  where
    go :
        (o : Option WorkItem)
        → get_work_item w.db i ≡ o
        → (call (transition_call now i target reason extra) w ≡ w)
          ⊎ ((row : WorkItem) × (get_work_item w.db i ≡ some row)
              × (row.state ⟶ target)
              × (call (transition_call now i target reason extra) w
                  ≡ moved now i target reason extra row w))
    go none e = inl (ground (arith, e))
    go (some row) e = elim (Bool-cases (same_item row.state target)) [
      | inl same ↦ inl (unfold move_work_item in ground (arith, e, same))
      | inr differs ↦ elim (Bool-cases (is_legal_work_item_transition row.state target)) [
        | inr bad ↦ inl (unfold move_work_item in ground (arith, e, differs, bad))
        | inl good ↦ inr (row, e, good, unfold move_work_item in ground (arith, e, differs, good))
      ]
    ]

pub claim_outcome :
    (now i : ℕ) (target : WorkItemState) (reason : Reason) (w : World)
    → IsKeyed w.db.work_items
    → (call (claim_call now i target reason) w ≡ w)
      ⊎ ((row : WorkItem) × (get_work_item w.db i ≡ some row)
          × (any (same_item row.state) (claimable_sources target) ≡ true)
          × (call (claim_call now i target reason) w ≡ claimed i target now reason [] w row))
unfolding call transaction
claim_outcome now i target reason w k =
    elim (Bool-cases (any (claimable i (claimable_sources target)) w.db.work_items)) [
      | inr none_wanted ↦ inl (unfold claim_work_item lost_claim in ground (arith, none_wanted))
      | inl some_wanted ↦
          let (row, at, able) =
            keyed_row i (λ r. any (same_item r.state) (claimable_sources target)) w.db.work_items k
              some_wanted in
          let found : get_work_item w.db i ≡ some row = unfold get_work_item in at in
          inr
            (row, found, able, ground (arith, claim_effect i target now reason [] w row found able))
    ]

pub session_outcome :
    (now i : ℕ) (target : SessionState) (reason : Reason) (extra : List SessionColumn) (w : World)
    → (call (session_call now i target reason extra) w ≡ w)
      ⊎ ((row : Session) × (call (session_call now i target reason extra) w
            ≡ record (update_sessions i (session_columns now target extra) w) {
              log = state_session row.session_id row.state target reason row.dry_run ∷ w.log;
            }))
unfolding call transaction transition_session move_session
session_outcome now i target reason extra w = go (get_session_by_row_id w.db i) refl
  where
    go :
        (o : Option Session)
        → get_session_by_row_id w.db i ≡ o
        → (call (session_call now i target reason extra) w ≡ w)
          ⊎ ((row : Session) × (call (session_call now i target reason extra) w
                ≡ record (update_sessions i (session_columns now target extra) w) {
                  log = state_session row.session_id row.state target reason row.dry_run ∷ w.log;
                }))
    go none e = inl (ground (arith, e))
    go (some row) e = elim (Bool-cases (same_session row.state target)) [
      | inl same ↦ inl (ground (arith, e, same))
      | inr differs ↦ elim (Bool-cases (is_legal_session_transition row.state target)) [
        | inr bad ↦ inl (ground (arith, e, differs, bad))
        | inl good ↦ inr (row, ground (arith, e, differs, good))
      ]
    ]
