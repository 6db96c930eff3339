-- ===== src/Examples/Gates.antt =====
-- The gates of src/robot_army/states.py on concrete rows.
use robot_army.Base.{◌≡◌, refl, false, some, List, [], ◌∷◌, length, All, ◌⊎◌}
use robot_army.States.{
  WorkItemState, ready, dispatching, active, failed, done, claimable_sources,
  is_legal_work_item_transition, terminal_work_item_states,
}
use robot_army.States.Table.{
  ◌⟶◌, ◌⟶*◌, stay, move, active_needs_dispatching, done_reachable, Visits,
}
use robot_army.Models.{WorkItem, text}
use robot_army.Db.{World, Result, ok, get_work_item, state_work_item}
use robot_army.Transition.{transition_work_item, claim_work_item, assign_item}
use robot_army.Transition.Gate.{state_of, moved, transition_moves}
use robot_army.Transition.Calls.{Call, transition_call, claim_call, call, calls, transition_outcome}
use robot_army.Transition.Claim.{run_claims, Lost, claims_exclusive}
use robot_army.Transition.Audit.{IsAccounted, calls-IsAccounted, calls_reach}
use robot_army.Examples.{item_in, world_of}

abbrev waiting : WorkItem
waiting = item_in 7 "acme/widgets" ready

abbrev fresh : World
fresh = world_of (waiting ∷ []) []

fresh-IsAccounted : IsAccounted 7 ready fresh
unfolding get_work_item
fresh-IsAccounted = record { keyed = (refl, tt); row = refl; legal = tt }

abbrev episode : List Call
episode =
    claim_call 200 7 dispatching (text "dispatch")
    ∷ transition_call 201 7 done (text "too early") []
    ∷ transition_call 202 7 active (text "confirmed") []
    ∷ []

calls-IsAccounted_example : IsAccounted 7 ready (calls episode fresh)
calls-IsAccounted_example =
    calls-IsAccounted 7 ready episode fresh (tt, (tt, (tt, tt))) fresh-IsAccounted

calls_reach_example :
    (s : WorkItemState) × (state_of (calls episode fresh).db 7 ≡ some s) × (ready ⟶* s)
calls_reach_example = calls_reach 7 ready episode fresh (tt, (tt, (tt, tt))) fresh-IsAccounted

episode_ends : state_of (calls episode fresh).db 7 ≡ some active
unfolding get_work_item calls transition_work_item claim_work_item claimable_sources assign_item
    is_legal_work_item_transition
episode_ends = refl

claims_exclusive_example :
    (rest : List (Result (Unit {0}))) × (run_claims 7 dispatching
        ((200, text "daemon") ∷ (201, text "web") ∷ [])
        fresh
      ≡ ok tt ∷ rest)
    × (length rest ≡ 1)
    × All (Lost dispatching) rest
unfolding get_work_item claimable_sources is_legal_work_item_transition
claims_exclusive_example =
    claims_exclusive 7 dispatching 200 (text "daemon") ((201, text "web") ∷ []) fresh waiting refl
      refl

ready_dispatching : ready ⟶ dispatching
unfolding is_legal_work_item_transition
ready_dispatching = refl

dispatching_active : dispatching ⟶ active
unfolding is_legal_work_item_transition
dispatching_active = refl

active_needs_dispatching_example :
    (ready ≡ active) ⊎ Visits dispatching (move ready_dispatching (move dispatching_active stay))
active_needs_dispatching_example =
    active_needs_dispatching (move ready_dispatching (move dispatching_active stay))

transition_moves_example :
    ((transition_work_item 200 7 dispatching (text "dispatch") [] fresh).0 ≡ ok ready)
    × (state_of (transition_work_item 200 7 dispatching (text "dispatch") [] fresh).1.db 7
        ≡ some dispatching)
    × ((transition_work_item 200 7 dispatching (text "dispatch") [] fresh).1.log
        ≡ state_work_item 7 ready dispatching (text "dispatch") false ∷ [])
unfolding get_work_item
transition_moves_example =
    transition_moves 200 7 dispatching (text "dispatch") [] fresh waiting refl ready_dispatching tt

transition_outcome_example :
    (call (transition_call 200 7 done (text "too early") []) fresh ≡ fresh)
    ⊎ ((row : WorkItem) × (get_work_item fresh.db 7 ≡ some row)
        × (row.state ⟶ done)
        × (call (transition_call 200 7 done (text "too early") []) fresh
            ≡ moved 200 7 done (text "too early") [] row fresh))
transition_outcome_example = transition_outcome 200 7 done (text "too early") [] fresh

done_reachable_example : failed ⟶* done
unfolding terminal_work_item_states
done_reachable_example = done_reachable failed refl
