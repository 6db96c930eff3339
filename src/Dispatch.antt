-- ===== src/Dispatch.antt =====
-- src/robot_army/dispatch.py: which entry of a plan is dispatched, the hold that the log reports, and
-- the gate of a launch. The launch itself is not modelled.
pub mod Recorder
pub mod Gate
pub mod Walk
pub mod Claim
use robot_army.Base.{
  ℕ, ℤ, pos, negsuc, leb, suc, ◌+◌, ◌-◌, ◌==◌, String, str_eq, Bool, true, false, not, ◌&&◌, ◌||◌,
  Option, none, some, List, [], ◌∷◌, any, keep, if◌then◌else◌,
}
use robot_army.Models.{WorkItem}
use robot_army.Capacity.{CapacitySnapshot}
use robot_army.Ordering.{
  HoldReason, paused, held, not_labelled, capacity_unobservable, global_cap, repo_cap,
  awaiting_merge, not_onboarded, off_column, preparation_failed,
}
use robot_army.Ordering.Holds.{Entry}
use robot_army.Ordering.Plan.{QueueEntry}

unfoldable pub is_global : HoldReason → Bool
is_global paused = true
is_global capacity_unobservable = true
is_global global_cap = true
is_global _ = false

abbrev pub same_reason : HoldReason → HoldReason → Bool
same_reason paused paused = true
same_reason held held = true
same_reason not_labelled not_labelled = true
same_reason capacity_unobservable capacity_unobservable = true
same_reason global_cap global_cap = true
same_reason repo_cap repo_cap = true
same_reason awaiting_merge awaiting_merge = true
same_reason not_onboarded not_onboarded = true
same_reason off_column off_column = true
same_reason preparation_failed preparation_failed = true
same_reason _ _ = false

-- What the walk over a plan finds: the entry that stops it, the one that it selects, or neither, with
-- the first entry that was passed over for a reason of its own.
pub data Choice : Type 0 where
  blocked : QueueEntry → Choice
  selected : QueueEntry → Choice
  nothing_selected : Option QueueEntry → Choice

-- `first_held` keeps the first of the entries that are passed over.
abbrev pub or_first : Option QueueEntry → QueueEntry → Option QueueEntry
or_first none entry = some entry
or_first (some first) entry = some first

-- What happens to one entry, given what the walk goes on to find.
abbrev pub decide : QueueEntry → Option Entry → Choice → Choice
decide entry none rest = selected entry
decide entry (some (reason, _)) rest = if is_global reason then blocked entry else rest

unfoldable pub choose : Option QueueEntry → List QueueEntry → Choice
choose first_held [] = nothing_selected first_held
choose first_held (entry ∷ entries) =
    decide entry entry.hold (choose (or_first first_held entry) entries)

-- The entries that no earlier round of the pass has attempted.
unfoldable pub not_attempted : List ℕ → List QueueEntry → List QueueEntry
not_attempted attempted entries = keep (λ e. not (any (λ i. i == e.item.id) attempted)) entries

-- Which hold it is: the reason, and the repository unless the reason is one of the machine.
abbrev pub Identity : Type 0
Identity = HoldReason × Option String

unfoldable pub hold_identity : HoldReason → WorkItem → Identity
hold_identity reason item =
    if is_global reason then (reason, none) else (reason, some item.repo_key)

-- What the numbers of a hold are: the sessions, the others, the cap, the item, the reason and the
-- repository.
abbrev pub Signature : Type 0
Signature = ℕ × ℕ × ℕ × ℕ × HoldReason × String

unfoldable pub hold_signature : HoldReason → WorkItem → CapacitySnapshot → Signature
hold_signature reason item snap =
    (snap.total, snap.others, snap.global_cap, item.id, reason, item.repo_key)

abbrev pub same_signature : Signature → Signature → Bool
same_signature (a, b, c, d, e, f) (a', b', c', d', e', f') =
    a == a' && b == b' && c == c' && d == d' && same_reason e e' && str_eq f f'

abbrev same_repo_name : Option String → Option String → Bool
same_repo_name none none = true
same_repo_name (some a) (some b) = str_eq a b
same_repo_name _ _ = false

abbrev pub same_identity : Identity → Identity → Bool
same_identity (a, b) (a', b') = same_reason a a' && same_repo_name b b'

-- `_HOLD`: the hold in force, in the process's memory.
pub record Slot : Type 0 where
  pub signature : Signature
  pub identity : Identity
  pub passes : ℕ
  pub started_at : ℕ

-- Why a hold ended.
pub data FreedBy : Type 0 where
  took_over : Identity → FreedBy
  queue_drained no_longer_applies : FreedBy
  became_dispatchable : ℕ → FreedBy

-- `_elapsed_seconds`, which is negative where the clock was set back.
unfoldable pub elapsed_seconds : ℕ → ℕ → ℤ
elapsed_seconds started_at now =
    if leb started_at now then pos (now - started_at) else negsuc (started_at - suc now)

-- `dispatch.at_capacity` and `dispatch.hold_ended`, the latter with the reason of the hold that ended,
-- its duration and its passes.
pub data HoldRecord : Type 0 where
  at_capacity : Signature → Identity → HoldRecord
  hold_ended : HoldReason → ℤ → ℕ → FreedBy → HoldRecord

pub record HoldLog : Type 0 where
  pub slot : Option Slot
  pub log : List HoldRecord

unfoldable pub clear_hold_slot : ℕ → FreedBy → HoldLog → HoldLog
unfolding elapsed_seconds
clear_hold_slot now freed_by r = elim r.slot [
  | none ↦ r
  | some h ↦ record {
    slot = none;
    log = hold_ended h.identity.0 (elapsed_seconds h.started_at now) h.passes freed_by ∷ r.log;
  }
]

-- Opens the slot with a hold that has just begun.
abbrev open_hold : ℕ → Signature → Identity → HoldLog → HoldLog
open_hold now signature identity r = record {
  slot = some (record { signature = signature; identity = identity; passes = 1; started_at = now });
  log = at_capacity signature identity ∷ r.log;
}

unfoldable pub note_hold : ℕ → Signature → Identity → HoldLog → HoldLog
unfolding clear_hold_slot
note_hold now signature identity r = elim r.slot [
  | none ↦ open_hold now signature identity r
  | some h ↦
      if same_signature h.signature signature
      then record r { slot = some (record h { passes = suc h.passes }) }
      else if same_identity h.identity identity
      then open_hold now signature identity r
      else open_hold now signature identity (clear_hold_slot now (took_over identity) r)
]

-- Whether the entry is held by the condition.
abbrev still_held : Identity → QueueEntry → Bool
still_held identity entry = elim entry.hold [
  | none ↦ false
  | some (reason, _) ↦ same_identity (hold_identity reason entry.item) identity
]

abbrev freed_by : List QueueEntry → Option ℕ → FreedBy
freed_by [] _ = queue_drained
freed_by (_ ∷ _) (some item_id) = became_dispatchable item_id
freed_by (_ ∷ _) none = no_longer_applies

unfoldable pub resolve_hold : ℕ → List QueueEntry → Option ℕ → HoldLog → HoldLog
unfolding hold_identity clear_hold_slot
resolve_hold now entries chosen r = elim r.slot [
  | none ↦ r
  | some h ↦
      if any (still_held h.identity) entries
      then r
      else clear_hold_slot now (freed_by entries chosen) r
]
