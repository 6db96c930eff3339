-- ===== src/Examples/Launches.antt =====
-- The walk over a plan, the gate of a launch and the reports of holds on concrete tables.
use robot_army.Base.{ℕ, pos, ◌≡◌, refl, true, false, none, some, Option, List, [], ◌∷◌}
use robot_army.States.{ready}
use robot_army.Models.{WorkItem}
use robot_army.Db.{World, get_work_item}
use robot_army.Db.Holds.{get_dispatch_control}
use robot_army.Capacity.{snapshot}
use robot_army.Config.{lookup_key, effective_repo_cap, effective_wait_for_merge}
use robot_army.Ordering.{
  item_hold_of, repo_capacity, label_hold, list_unfinished, HoldReason, paused, repo_cap,
  lift_pause, Detail,
}
use robot_army.Ordering.Holds.{hold_for, launch_holds, blockers}
use robot_army.Ordering.Holds.Precedence.{applies}
use robot_army.Ordering.Plan.{QueueEntry, context}
use robot_army.Dispatch.{
  choose, Signature, Identity, HoldLog, at_capacity, hold_ended, queue_drained, resolve_hold,
  elapsed_seconds,
}
use robot_army.Dispatch.Walk.{Explains, choose-Explains}
use robot_army.Operations.{hold_item}
use robot_army.Operations.Held.{held_item_is_refused}
use robot_army.Dispatch.Gate.{
  permitted, refused, check_launch_gate, gate_touches_nothing, gate_permits_unheld,
  gate_refusal_applies,
}
use robot_army.Dispatch.Recorder.{
  IsFaithful, IsBracketed, HoldCall, note_call, resolve_call, hold_calls, hold_calls-IsFaithful,
  notes, hold_logged_once,
}
use robot_army.Examples.{item_in, world_of}
use robot_army.Examples.Queue.{config, machine, resolved}

abbrev open_item : WorkItem
open_item = item_in 8 "acme/widgets" ready

abbrev idle : World
idle = world_of (open_item ∷ []) []

abbrev stopped : World
stopped = record idle {
  db = record idle.db {
    control = some (record { paused = true; paused_at = some 90; paused_by = some "web" });
  };
}

abbrev entry_of : ℕ → Option (HoldReason × Detail) → QueueEntry
entry_of id hold = record { item = item_in id "acme/widgets" ready; position = id; hold = hold }

abbrev plan_of : List QueueEntry
plan_of =
    entry_of 1 (some (repo_cap, lift_pause))
    ∷ entry_of 2 none
    ∷ entry_of 3 (some (paused, lift_pause))
    ∷ []

choose-Explains_example : Explains none plan_of (choose none plan_of)
choose-Explains_example = choose-Explains plan_of

gate_touches_nothing_example :
    (check_launch_gate 500 config none machine false open_item stopped).1.db ≡ record stopped.db {
      anomalies =
          (check_launch_gate 500 config none machine false open_item stopped).1.db.anomalies;
    }
gate_touches_nothing_example = gate_touches_nothing 500 config none machine false open_item stopped

gate_permits_unheld_example :
    check_launch_gate 500 config none machine false open_item idle
    ≡ (permitted, (snapshot 500 config none true machine idle).1)
unfolding hold_for launch_holds context get_dispatch_control snapshot item_hold_of lookup_key
    repo_capacity effective_repo_cap label_hold effective_wait_for_merge blockers list_unfinished
gate_permits_unheld_example =
    gate_permits_unheld 500 config none machine false open_item idle resolved [] refl

gate_refusal_applies_example :
    (false ≡ false)
    × (applies
          (context config
            (snapshot 500 config none true machine stopped).0
            []
            []
            (snapshot 500 config none true machine stopped).1.db)
          open_item
          paused
        ≡ true)
unfolding check_launch_gate launch_holds context get_dispatch_control snapshot
gate_refusal_applies_example =
    gate_refusal_applies 500 config none machine false open_item stopped paused lift_pause refl

abbrev full : Signature
full = (3, 1, 3, 8, repo_cap, "acme/widgets")

abbrev widgets_full : Identity
widgets_full = (repo_cap, some "acme/widgets")

abbrev quiet : HoldLog
quiet = record { slot = none; log = [] }

quiet-IsFaithful : IsFaithful quiet
unfolding IsBracketed
quiet-IsFaithful = record { bracketed = tt; in_force = refl }

abbrev passes : List HoldCall
passes =
    note_call 10 full widgets_full
    ∷ note_call 15 full widgets_full
    ∷ resolve_call 20 plan_of (some 2)
    ∷ []

hold_calls-IsFaithful_example : IsFaithful (hold_calls passes quiet)
hold_calls-IsFaithful_example = hold_calls-IsFaithful passes quiet quiet-IsFaithful

hold_logged_once_example :
    resolve_hold 40 [] none (notes (10 ∷ 15 ∷ 20 ∷ []) full widgets_full quiet) ≡ record {
      slot = none;
      log = hold_ended widgets_full.0 (pos 30) 3 queue_drained ∷ at_capacity full widgets_full ∷ [];
    }
unfolding elapsed_seconds
hold_logged_once_example = hold_logged_once 10 40 (15 ∷ 20 ∷ []) full widgets_full [] [] none refl

held_item_is_refused_example :
    (reason : HoldReason) × (detail : Detail) × ((check_launch_gate 600 config none machine false
        open_item
        (hold_item 500 8 "cli" idle).1).0
      ≡ refused reason detail)
unfolding get_work_item
held_item_is_refused_example =
    held_item_is_refused 500 "cli" open_item open_item idle 600 config none machine refl
