-- ===== src/States.antt =====
-- src/robot_army/states.py: the two state machines, their tables of legal transitions and the
-- classification of a shell exit status. The gates that write a state are in Transition.
pub mod Table
pub mod Exit
use Prim.Native.Nat.{◌-◌}
use robot_army.Base.{
  ℕ, ℤ, pos, ltb_ℤ, eq_ℤ, Bool, true, false, ◌&&◌, ◌||◌, List, [], ◌∷◌, Option, none, some, any,
  if◌then◌else◌,
}

pub data WorkItemState : Type 0 where
  discovered ready dispatching active awaiting_review interrupted failed done abandoned :
      WorkItemState

pub data SessionState : Type 0 where
  starting running exited_clean exited_error lost : SessionState

-- The identity test of an enumeration's members.
abbrev pub same_item : WorkItemState → WorkItemState → Bool
same_item discovered discovered = true
same_item ready ready = true
same_item dispatching dispatching = true
same_item active active = true
same_item awaiting_review awaiting_review = true
same_item interrupted interrupted = true
same_item failed failed = true
same_item done done = true
same_item abandoned abandoned = true
same_item _ _ = false

abbrev pub same_session : SessionState → SessionState → Bool
same_session starting starting = true
same_session running running = true
same_session exited_clean exited_clean = true
same_session exited_error exited_error = true
same_session lost lost = true
same_session _ _ = false

unfoldable pub work_item_transitions : List (WorkItemState × WorkItemState)
work_item_transitions =
    (discovered, ready)
    ∷ (discovered, failed)
    ∷ (ready, dispatching)
    ∷ (ready, abandoned)
    ∷ (dispatching, active)
    ∷ (dispatching, failed)
    ∷ (active, awaiting_review)
    ∷ (active, failed)
    ∷ (active, interrupted)
    ∷ (active, done)
    ∷ (awaiting_review, done)
    ∷ (awaiting_review, dispatching)
    ∷ (awaiting_review, abandoned)
    ∷ (awaiting_review, ready)
    ∷ (interrupted, dispatching)
    ∷ (interrupted, done)
    ∷ (interrupted, abandoned)
    ∷ (interrupted, ready)
    ∷ (failed, ready)
    ∷ (failed, abandoned)
    ∷ []

unfoldable pub session_transitions : List (SessionState × SessionState)
session_transitions =
    (starting, running)
    ∷ (starting, lost)
    ∷ (running, exited_clean)
    ∷ (running, exited_error)
    ∷ (running, lost)
    ∷ []

unfoldable pub terminal_work_item_states : List WorkItemState
terminal_work_item_states = done ∷ abandoned ∷ []

unfoldable pub terminal_session_states : List SessionState
terminal_session_states = exited_clean ∷ exited_error ∷ lost ∷ []

unfoldable pub is_legal_work_item_transition : WorkItemState → WorkItemState → Bool
unfolding work_item_transitions
is_legal_work_item_transition source target =
    any (λ edge. same_item edge.0 source && same_item edge.1 target) work_item_transitions

unfoldable pub is_legal_session_transition : SessionState → SessionState → Bool
unfolding session_transitions
is_legal_session_transition source target =
    any (λ edge. same_session edge.0 source && same_session edge.1 target) session_transitions

-- The first components of the edges into `target`.
sources_into : WorkItemState → List (WorkItemState × WorkItemState) → List WorkItemState
sources_into target [] = []
sources_into target ((source, allowed) ∷ edges) =
    let rest = sources_into target edges in if same_item allowed target then source ∷ rest else rest

unfoldable pub claimable_sources : WorkItemState → List WorkItemState
unfolding sources_into work_item_transitions
claimable_sources target = sources_into target work_item_transitions

-- The timestamp columns that a state stamps.
pub data ItemStamp : Type 0 where
  ready_at dispatching_at active_at ended_at done_at : ItemStamp

pub data SessionStamp : Type 0 where
  confirmed_at session_ended_at : SessionStamp

unfoldable pub work_item_stamp_column : WorkItemState → Option ItemStamp
work_item_stamp_column ready = some ready_at
work_item_stamp_column dispatching = some dispatching_at
work_item_stamp_column active = some active_at
work_item_stamp_column awaiting_review = some ended_at
work_item_stamp_column interrupted = some ended_at
work_item_stamp_column failed = some ended_at
work_item_stamp_column done = some done_at
work_item_stamp_column _ = none

unfoldable pub session_stamp_column : SessionState → Option SessionStamp
session_stamp_column running = some confirmed_at
session_stamp_column exited_clean = some session_ended_at
session_stamp_column exited_error = some session_ended_at
session_stamp_column lost = some session_ended_at
session_stamp_column _ = none

-- `exit_code - 128`, which is taken only where the code is above 128.
abbrev above_128 : ℤ → ℤ
above_128 (pos n) = pos (n - 128)
above_128 z = z

unfoldable pub classify_exit : ℤ → SessionState × WorkItemState × Option ℤ
classify_exit exit_code =
    if eq_ℤ exit_code (pos 0)
    then (exited_clean, awaiting_review, none)
    else if eq_ℤ exit_code (pos 1) || eq_ℤ exit_code (pos 126) || eq_ℤ exit_code (pos 127)
    then (exited_error, failed, none)
    else if ltb_ℤ (pos 128) exit_code && ltb_ℤ exit_code (pos 192)
    then (exited_error, interrupted, some (above_128 exit_code))
    else (exited_error, failed, none)
