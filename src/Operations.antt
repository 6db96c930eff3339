-- ===== src/Operations.antt =====
-- The commands of src/robot_army/operations.py that pause dispatch and hold work. The pair of audit
-- records that an action leaves is one record here.
pub mod Held
pub mod Kept
use robot_army.Base.{
  ℕ, ◌==◌, String, str_eq, Bool, true, false, not, ◌&&◌, ◌||◌, any, map, Option, none, some, List,
  [], ◌∷◌, if◌then◌else◌,
}
use robot_army.Models.{Hold, DispatchControl, WorkItem, Session}
use robot_army.States.{abandoned, same_item, terminal_work_item_states}
use robot_army.Cleanup.{live_sessions}
use robot_army.Cleanup.Sweep.{has_open}
use robot_army.Db.{World, Db, note, get_work_item}
use robot_army.Db.Holds.{set_hold, clear_hold, set_dispatch_paused}
use robot_army.Capacity.{member}

abbrev pub recorded : String → World → World
recorded action w = record w { log = note action none ∷ w.log }

abbrev pub same_id : ℕ → ℕ → Bool
same_id a b = a == b

unfoldable pub set_pause : ℕ → Bool → String → World → DispatchControl × World
set_pause now paused by w =
    let (after, d) = set_dispatch_paused now paused by w.db in
    (
      after,
      recorded (if paused then "dispatch.pause" else "dispatch.unpause") (record w { db = d }),
    )

-- The hold in force and whether it was placed now; `none` where there is no such item.
unfoldable pub hold_item : ℕ → ℕ → String → World → Option (Option Hold × Bool) × World
hold_item now item_id by w = elim (get_work_item w.db item_id) [
  | none ↦ (none, recorded "hold.item" w)
  | some _ ↦
      let (answer, rows) = set_hold same_id now item_id by w.db.item_holds in
      (some answer, recorded "hold.item" (record w { db = record w.db { item_holds = rows } }))
]

-- The hold that was taken away, if there was one.
unfoldable pub unhold_item : ℕ → World → Option (Option Hold) × World
unhold_item item_id w = elim (get_work_item w.db item_id) [
  | none ↦ (none, recorded "unhold.item" w)
  | some _ ↦
      let (answer, rows) = clear_hold same_id item_id w.db.item_holds in
      (some answer, recorded "unhold.item" (record w { db = record w.db { item_holds = rows } }))
]

-- `known` are the onboarded repositories.
unfoldable pub hold_repo :
    List String → ℕ → String → String → World → Option (Option Hold × Bool) × World
hold_repo known now repo_key by w =
    if not (member repo_key known)
    then (none, recorded "hold.repo" w)
    else let (answer, rows) = set_hold str_eq now repo_key by w.db.repo_holds in
      (some answer, recorded "hold.repo" (record w { db = record w.db { repo_holds = rows } }))

unfoldable pub unhold_repo : List String → String → World → Option (Option Hold) × World
unhold_repo known repo_key w =
    if not (member repo_key known)
    then (none, recorded "unhold.repo" w)
    else let (answer, rows) = clear_hold str_eq repo_key w.db.repo_holds in
      (some answer, recorded "unhold.repo" (record w { db = record w.db { repo_holds = rows } }))

-- Whether `keep_refusal_reason` has a reason.
unfoldable pub keep_refused : Db → WorkItem → Bool
keep_refused d item =
    same_item item.state abandoned
    || (any (same_item item.state) terminal_work_item_states
        && not (has_open (live_sessions d item.id)))

pub data KeepAnswer : Type 0 where
  no_such_item : KeepAnswer
  nothing_to_keep : KeepAnswer
  kept_since : Option Hold → Bool → KeepAnswer

abbrev keep_or_refuse : ℕ → ℕ → String → Bool → World → KeepAnswer × World
keep_or_refuse now item_id by true w = (nothing_to_keep, recorded "keep.item" w)
keep_or_refuse now item_id by false w =
    let (answer, rows) = set_hold same_id now item_id by w.db.item_keeps in
    (
      kept_since answer.0 answer.1,
      recorded "keep.item" (record w { db = record w.db { item_keeps = rows } }),
    )

unfoldable pub keep_item : ℕ → ℕ → String → World → KeepAnswer × World
unfolding keep_refused
keep_item now item_id by w = elim (get_work_item w.db item_id) [
  | none ↦ (no_such_item, recorded "keep.item" w)
  | some item ↦ keep_or_refuse now item_id by (keep_refused w.db item) w
]

-- The keep that was released, and the sessions that were open then.
unfoldable pub unkeep_item : ℕ → World → Option (Option Hold × List String) × World
unkeep_item item_id w = elim (get_work_item w.db item_id) [
  | none ↦ (none, recorded "unkeep.item" w)
  | some _ ↦
      let (answer, rows) = clear_hold same_id item_id w.db.item_keeps in
      (
        some (answer, map (λ (s : Session). s.session_id) (live_sessions w.db item_id)),
        recorded "unkeep.item" (record w { db = record w.db { item_keeps = rows } }),
      )
]
