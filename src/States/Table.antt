-- ===== src/States/Table.antt =====
-- The tables of states.py as step relations: what they let an item or a session reach.
use robot_army.Base.{◌≡◌, refl, ◌⊎◌, ◌↔◌, inl, inr, true, false, arith, any}
use robot_army.States.{
  WorkItemState, SessionState, discovered, ready, dispatching, active, awaiting_review, interrupted,
  failed, done, abandoned, same_item, same_session, is_legal_work_item_transition,
  claimable_sources, terminal_work_item_states, terminal_session_states,
}

infix 40 ◌⟶◌ ◌⟶*◌
abbrev pub ◌⟶◌ : WorkItemState → WorkItemState → Type 0
s ⟶ t = is_legal_work_item_transition s t ≡ true

-- A path of legal transitions.
pub data ◌⟶*◌ : WorkItemState → WorkItemState → Type 0 where
  stay : {s : WorkItemState} → s ⟶* s
  move : {s t u : WorkItemState} → s ⟶ t → t ⟶* u → s ⟶* u

pub same_item_refl : (s : WorkItemState) → same_item s s ≡ true
same_item_refl s = ground arith

pub same_item_sound : (s t : WorkItemState) → same_item s t ≡ true → s ≡ t
same_item_sound s t h = ground arith

pub same_session_refl : (s : SessionState) → same_session s s ≡ true
same_session_refl s = ground arith

pub same_session_sound : (s t : SessionState) → same_session s t ≡ true → s ≡ t
same_session_sound s t h = ground arith

abbrev pub IsTerminal : WorkItemState → Type 0
IsTerminal s = any (same_item s) terminal_work_item_states ≡ true

abbrev pub IsTerminalSession : SessionState → Type 0
IsTerminalSession s = any (same_session s) terminal_session_states ≡ true

terminal_no_exit : (s t : WorkItemState) → IsTerminal s → is_legal_work_item_transition s t ≡ false
unfolding is_legal_work_item_transition terminal_work_item_states
terminal_no_exit s t h = ground arith

-- A work item has no legal transition exactly when its state is terminal.
pub terminal_iff_stuck :
    (s : WorkItemState)
    → IsTerminal s ↔ ((t : WorkItemState) → is_legal_work_item_transition s t ≡ false)
unfolding is_legal_work_item_transition terminal_work_item_states
terminal_iff_stuck s = (λ h t. terminal_no_exit s t h, stuck s)
  where
    stuck :
        (s : WorkItemState)
        → ((t : WorkItemState) → is_legal_work_item_transition s t ≡ false)
        → IsTerminal s
    stuck discovered h = ground (arith, h ready)
    stuck ready h = ground (arith, h dispatching)
    stuck dispatching h = ground (arith, h active)
    stuck active h = ground (arith, h failed)
    stuck awaiting_review h = ground (arith, h done)
    stuck interrupted h = ground (arith, h done)
    stuck failed h = ground (arith, h ready)
    stuck done h = refl
    stuck abandoned h = refl

-- The claim's set of sources, read off the table, is the set of states with a legal transition
-- into the target; no state is in its own set.
pub claimable_sources_exact :
    (s t : WorkItemState)
    → (any (same_item s) (claimable_sources t) ≡ is_legal_work_item_transition s t)
      × (any (same_item t) (claimable_sources t) ≡ false)
unfolding claimable_sources is_legal_work_item_transition
claimable_sources_exact s t = (ground arith, ground arith)

-- `t` is the state that some step of the path enters or starts from.
abbrev pub Visits : {s u : WorkItemState} → WorkItemState → s ⟶* u → Type 0
Visits {s} t stay = s ≡ t
Visits {s} t (move e p) = (s ≡ t) ⊎ Visits t p

pub active_from_dispatching : (s : WorkItemState) → s ⟶ active → s ≡ dispatching
unfolding is_legal_work_item_transition
active_from_dispatching s h = ground arith

Visits-dispatching :
    {s u : WorkItemState} (p : s ⟶* u) → u ≡ active → (s ≡ active) ⊎ Visits dispatching p
Visits-dispatching stay e = inl e
Visits-dispatching (move {s = s} {t = t} h p) e = elim (Visits-dispatching p e) [
  | inl at ↦ inr (inl (active_from_dispatching s (rw (← at) h)))
  | inr v ↦ inr (inr v)
]

-- Every path of legal transitions into `active` starts there or passes through `dispatching`.
pub active_needs_dispatching :
    {s : WorkItemState} (p : s ⟶* active) → (s ≡ active) ⊎ Visits dispatching p
active_needs_dispatching p = Visits-dispatching p refl

ruleset edges = (stay, move)

unfoldable pub to_done : (s : WorkItemState) → IsTerminal s ⊎ (s ⟶* done)
unfolding is_legal_work_item_transition terminal_work_item_states
to_done done = inl refl
to_done abandoned = inl refl
to_done active = inr (move {t = done} refl stay)
to_done dispatching = inr (move {t = active} refl (move {t = done} refl stay))
to_done awaiting_review = inr (move {t = done} refl stay)
to_done interrupted = inr (move {t = done} refl stay)
to_done ready =
    inr (move {t = dispatching} refl (move {t = active} refl (move {t = done} refl stay)))
to_done failed = inr (
    move {t = ready} refl
      (move {t = dispatching} refl (move {t = active} refl (move {t = done} refl stay))))
to_done discovered = inr (
    move {t = ready} refl
      (move {t = dispatching} refl (move {t = active} refl (move {t = done} refl stay))))

-- From every state that is not terminal there is a path of legal transitions to `done`.
pub done_reachable :
    (s : WorkItemState) → any (same_item s) terminal_work_item_states ≡ false → s ⟶* done
done_reachable s h = elim (to_done s) [ inl t ↦ absurd (cc) | inr p ↦ p ]
