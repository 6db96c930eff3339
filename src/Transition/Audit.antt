-- ===== src/Transition/Audit.antt =====
-- The audit log against the tables, over any sequence of calls of the gates.
use mathlib.Core.Option
use robot_army.Base.{
  ℕ, ◌==◌, ◌≡◌, refl, Bool, true, false, some, List, [], ◌∷◌, arith, any, if◌then◌else◌, subst, All,
  Bool-cases, Option-cases, inl, inr, ap, ◌∙◌, sym,
}
use robot_army.States.{WorkItemState, same_item, claimable_sources}
use robot_army.States.Table.{◌⟶◌, ◌⟶*◌, stay, move, claimable_sources_exact}
use robot_army.Models.{WorkItem, Reason}
use robot_army.Db.{
  Db, World, AuditRecord, state_work_item, claimed_work_item, state_session, state_card, note,
  get_work_item,
}
use robot_army.Transition.{ItemColumn, item_columns, update_items, claimable}
use robot_army.Transition.Rows.{NamesNoState, state-assign_item, IsKeyed, update_where-IsKeyed}
use robot_army.Transition.Claim.{claimed}
use robot_army.Transition.Gate.{moved, state_of, get-update_items, id-get_work_item}
use robot_army.Transition.Calls.{
  Call, transition_call, claim_call, session_call, call, calls, Admissible, transition_outcome,
  claim_outcome, session_outcome,
}

-- What the log says of item `j`, newest record first: the target of the last record about it, or
-- the state `start` that it had before the first.
abbrev pub replayed : ℕ → WorkItemState → List AuditRecord → WorkItemState
replayed j start [] = start
replayed j start (state_work_item i source target _ _ ∷ log) =
    if i == j then target else replayed j start log
replayed j start (claimed_work_item i sources target _ _ ∷ log) =
    if i == j then target else replayed j start log
replayed j start (_ ∷ log) = replayed j start log

-- What is asked of a record about the item, and nothing of another one.
abbrev Asked : Bool → Type 0 → Type 0
Asked true P = P
Asked false P = Unit

asked : (P : Type 0) (b : Bool) → (b ≡ true → P) → Asked b P
asked P true f = f refl
asked P false f = tt

told : (P : Type 0) (b : Bool) → Asked b P → b ≡ true → P
told P true p h = p
told P false p h = absurd (cc h)

-- Every record about `j` is a legal transition out of the state that the records before it leave.
abbrev pub IsLegalLog : ℕ → WorkItemState → List AuditRecord → Type 0
IsLegalLog j start [] = Unit
IsLegalLog j start (state_work_item i source target _ _ ∷ log) =
    Asked (i == j) ((source ≡ replayed j start log) × (source ⟶ target)) × IsLegalLog j start log
IsLegalLog j start (claimed_work_item i sources target _ _ ∷ log) =
    Asked (i == j) (replayed j start log ⟶ target) × IsLegalLog j start log
IsLegalLog j start (_ ∷ log) = IsLegalLog j start log

-- The log accounts for the state of item `j`.
pub record IsAccounted (j : ℕ) (start : WorkItemState) (w : World) : Type 0 where
  pub keyed : IsKeyed w.db.work_items
  pub row : state_of w.db j ≡ some (replayed j start w.log)
  pub legal : IsLegalLog j start w.log

row_of :
    (d : Db) (j : ℕ) (s : WorkItemState)
    → state_of d j ≡ some s
    → (r : WorkItem) × (get_work_item d j ≡ some r) × (r.state ≡ s)
row_of d j s h = elim (Option-cases (get_work_item d j)) [
  | inl e ↦ absurd (cc (h, ap (Option.map (λ (r : WorkItem). r.state)) e))
  | inr found ↦ (
    found.0,
    found.1,
    some_inj found.0.state s (sym (ap (Option.map (λ (r : WorkItem). r.state)) found.1) ∙ h),
  )
]
  where
    some_inj : (a b : WorkItemState) → some a ≡ some b → a ≡ b
    some_inj a b e = cc

written_or_kept :
    (wanted : WorkItem → Bool) (now : ℕ) (target : WorkItemState) (extra : List ItemColumn)
    (w : World) (j : ℕ) (r : WorkItem)
    → get_work_item w.db j ≡ some r
    → NamesNoState extra
    → state_of (update_items wanted (item_columns now target extra) w).db j
      ≡ some (if wanted r then target else r.state)
written_or_kept wanted now target extra w j r h free =
    ap (Option.map (λ (r : WorkItem). r.state))
      (get-update_items wanted (item_columns now target extra) w j)
    ∙ rw h (ground (arith, state-assign_item now target extra r free))

moved-IsAccounted :
    (j : ℕ) (start : WorkItemState) (now i : ℕ) (target : WorkItemState) (reason : Reason)
    (extra : List ItemColumn) (row : WorkItem) (w : World)
    → NamesNoState extra
    → get_work_item w.db i ≡ some row
    → row.state ⟶ target
    → IsAccounted j start w
    → IsAccounted j start (moved now i target reason extra row w)
moved-IsAccounted j start now i target reason extra row w free found good a =
    let (r, at, is) = row_of w.db j (replayed j start w.log) a.row in
    record {
      keyed =
          update_where-IsKeyed (λ r. r.id == i) (item_columns now target extra) w.db.work_items
            a.keyed;
      row =
          written_or_kept (λ r. r.id == i) now target extra w j r at free
          ∙ ground (arith, id-get_work_item w.db j r at, is);
      legal = (
        asked ((row.state ≡ replayed j start w.log) × (row.state ⟶ target)) (i == j)
            (λ same. (ground (arith, found, at, is), good)),
        a.legal,
      );
    }

claimed-IsAccounted :
    (j : ℕ) (start : WorkItemState) (now i : ℕ) (target : WorkItemState) (reason : Reason)
    (row : WorkItem) (w : World)
    → get_work_item w.db i ≡ some row
    → any (same_item row.state) (claimable_sources target) ≡ true
    → IsAccounted j start w
    → IsAccounted j start (claimed i target now reason [] w row)
claimed-IsAccounted j start now i target reason row w found able a =
    let (r, at, is) = row_of w.db j (replayed j start w.log) a.row in
    let same_id : r.id ≡ j = id-get_work_item w.db j r at in
    let same_row : (i == j) ≡ true → r ≡ row = λ e. ground (arith, found, at) in
    record {
      keyed =
          update_where-IsKeyed (claimable i (claimable_sources target)) (item_columns now target [])
            w.db.work_items a.keyed;
      row =
          written_or_kept (claimable i (claimable_sources target)) now target [] w j r at tt
          ∙ ground (arith, same_id, is, same_row, able);
      legal = (
        asked (replayed j start w.log ⟶ target) (i == j) (λ same.
            ground (arith, found, at, is, able, (claimable_sources_exact row.state target).0)),
        a.legal,
      );
    }

call-IsAccounted :
    (j : ℕ) (start : WorkItemState) (c : Call) (w : World)
    → Admissible c
    → IsAccounted j start w
    → IsAccounted j start (call c w)
unfolding get_work_item
call-IsAccounted j start (transition_call now i target reason extra) w free a =
    elim (transition_outcome now i target reason extra w) [
      | inl same ↦ subst (IsAccounted j start) (sym same) a
      | inr (row, found, good, e) ↦
          subst (IsAccounted j start) (sym e)
            (moved-IsAccounted j start now i target reason extra row w free found good a)
    ]
call-IsAccounted j start (claim_call now i target reason) w free a =
    elim (claim_outcome now i target reason w a.keyed) [
      | inl same ↦ subst (IsAccounted j start) (sym same) a
      | inr (row, found, able, e) ↦
          subst (IsAccounted j start) (sym e)
            (claimed-IsAccounted j start now i target reason row w found able a)
    ]
call-IsAccounted j start (session_call now i target reason extra) w free a =
    elim (session_outcome now i target reason extra w) [
      | inl same ↦ subst (IsAccounted j start) (sym same) a
      | inr (row, e) ↦
          subst (IsAccounted j start) (sym e)
            (record { keyed = a.keyed; row = a.row; legal = a.legal })
    ]

-- Whatever the gates are called with, in whatever order, and whichever calls fail, the state of an
-- item is the one that its audit records tell, and each of them is a legal transition out of the
-- state that the records before it tell. Each call is a transaction of its own, and the calls' extra
-- columns name no state.
pub calls-IsAccounted :
    (j : ℕ) (start : WorkItemState) (cs : List Call) (w : World)
    → All Admissible cs
    → IsAccounted j start w
    → IsAccounted j start (calls cs w)
unfolding calls
calls-IsAccounted j start [] w free a = a
calls-IsAccounted j start (c ∷ cs) w free a =
    calls-IsAccounted j start cs (call c w) free.1 (call-IsAccounted j start c w free.0 a)

pub ⟶*-snoc : {s t u : WorkItemState} → s ⟶* t → t ⟶ u → s ⟶* u
⟶*-snoc stay e = move e stay
⟶*-snoc (move h p) e = move h (⟶*-snoc p e)

log_path :
    (j : ℕ) (start : WorkItemState) (log : List AuditRecord)
    → IsLegalLog j start log
    → start ⟶* replayed j start log
log_path j start [] h = stay
log_path j start (state_work_item i source target reason dry_run ∷ log) h =
    elim (Bool-cases (i == j)) [
      | inl same ↦
          let (from, good) =
            told ((source ≡ replayed j start log) × (source ⟶ target)) (i == j) h.0 same in
          rw same (⟶*-snoc (log_path j start log h.1) (rw (← from) good))
      | inr differs ↦ rw differs (log_path j start log h.1)
    ]
log_path j start (claimed_work_item i sources target reason dry_run ∷ log) h =
    elim (Bool-cases (i == j)) [
      | inl same ↦ rw same (
          ⟶*-snoc (log_path j start log h.1)
            (told (replayed j start log ⟶ target) (i == j) h.0 same))
      | inr differs ↦ rw differs (log_path j start log h.1)
    ]
log_path j start (state_session a b c d e ∷ log) h = log_path j start log h
log_path j start (state_card a b c d e ∷ log) h = log_path j start log h
log_path j start (note a b ∷ log) h = log_path j start log h

-- After any calls of the gates, each in a transaction of its own and none with an extra column that
-- names a state, an item whose state the log accounted for at the start is in a state that a path of
-- legal transitions reaches from the state that it had before the first record about it.
pub calls_reach :
    (j : ℕ) (start : WorkItemState) (cs : List Call) (w : World)
    → All Admissible cs
    → IsAccounted j start w
    → (s : WorkItemState) × (state_of (calls cs w).db j ≡ some s) × (start ⟶* s)
calls_reach j start cs w free a =
    let after = calls-IsAccounted j start cs w free a in
    (replayed j start (calls cs w).log, after.row, log_path j start (calls cs w).log after.legal)
