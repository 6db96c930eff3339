-- ===== src/Ordering/Holds/Precedence.antt =====
-- The reason that a queue entry shows against the declaration order of `HoldReason`.
use mathlib.Core.Option
use robot_army.Base.{
  leb, String, str_eq, ◌≡◌, Bool, true, false, not, ◌&&◌, ◌||◌, Option, none, some, List, [], ◌∷◌,
  find, if◌then◌else◌, arith, refl, inl, inr, Bool-cases,
}
use robot_army.Models.{WorkItem, Reason}
use robot_army.Config.{lookup_key, effective_wait_for_merge}
use robot_army.Capacity.{member}
use robot_army.Ordering.{
  HoldReason, paused, held, not_labelled, capacity_unobservable, global_cap, repo_cap,
  awaiting_merge, not_onboarded, off_column, preparation_failed, Context, item_hold_of, is_some,
  repo_capacity, label_hold,
}
use robot_army.Ordering.Holds.{
  Entry, hold_for, launch_holds, blockers, paused_part, held_part, capacity_part, behind,
  queue_part, merge_part, board_part, column_of, column_clash, residue_part, is_blank,
  residue_entry, label_part,
}

-- The declaration order is the precedence.
abbrev pub declared : List HoldReason
declared =
    paused ∷ held ∷ not_labelled ∷ capacity_unobservable ∷ global_cap ∷ repo_cap ∷ awaiting_merge
    ∷ not_onboarded ∷ off_column ∷ preparation_failed ∷ []

abbrev is_cons {ℓ} : {A : Type ℓ} → List A → Bool
is_cons [] = false
is_cons (_ ∷ _) = true

abbrev carries : Option (List String) → String → Bool
carries none label = false
carries (some labels) label = member label labels

abbrev differ : Option String → Option String → Bool
differ (some a) (some b) = not (str_eq a b)
differ _ _ = false

-- Whether a reason applies, each by itself and in the words of its own rule.
unfoldable pub applies : Context → WorkItem → HoldReason → Bool
applies c item paused = c.is_paused
applies c item held =
    is_some (item_hold_of item.id c.item_holds) || is_some (lookup_key item.repo_key c.repo_holds)
applies c item not_labelled = not (carries item.labels c.config.label)
applies c item capacity_unobservable = not c.capacity.observable
applies c item global_cap = leb c.capacity.global_cap c.capacity.total
applies c item repo_cap =
    let (running, cap, explicit) = repo_capacity item.repo_key c.config c.capacity in
    leb cap running
applies c item awaiting_merge =
    (effective_wait_for_merge c.config item.repo_key).0 && is_cons (blockers c item)
applies c item not_onboarded = not (is_some (lookup_key item.repo_key c.resolved))
applies c item off_column =
    member item.repo_key c.governed
    && differ item.board_column (column_of (lookup_key item.repo_key c.boards))
applies c item preparation_failed =
    not (is_blank item.blocked_reason) || not (is_blank item.failure_reason)

abbrev pub reason_of : Option Entry → Option HoldReason
reason_of o = Option.map (λ (e : Entry). e.0) o

entry_reason :
    (o : Option Reason) → is_blank o ≡ false → reason_of (residue_entry o) ≡ some preparation_failed
unfolding residue_entry
entry_reason none h = absurd (cc h)
entry_reason (some r) h = refl

residue_reason :
    (item : WorkItem)
    → reason_of (residue_part item) ≡ (
        if not (is_blank item.blocked_reason) || not (is_blank item.failure_reason)
        then some preparation_failed
        else none)
unfolding residue_part
residue_reason item = elim (Bool-cases (is_blank item.blocked_reason)) [
  | inr says' ↦ rw (says', residue_part) (entry_reason item.blocked_reason says')
  | inl mute' ↦ elim (Bool-cases (is_blank item.failure_reason)) [
    | inr says' ↦ rw (mute', says', residue_part) (entry_reason item.failure_reason says')
    | inl silent' ↦ rw (mute', silent', residue_part) refl
  ]
]

-- The conditions of the queue, each with its place.
queue_reason :
    (c : Context) (item : WorkItem)
    → reason_of (queue_part c item)
      ≡ find
          (applies c item)
          (awaiting_merge ∷ not_onboarded ∷ off_column ∷ preparation_failed ∷ [])
unfolding queue_part merge_part board_part applies column_clash
queue_reason c item = ground (arith, residue_reason item)

label_reason :
    (c : Context) (item : WorkItem)
    → reason_of (label_part c item)
      ≡ (if applies c item not_labelled then some not_labelled else none)
unfolding label_part label_hold applies
label_reason c item = ground arith

launch_reason :
    (c : Context) (item : WorkItem) (queue : Option Entry) (label : Option Entry)
    → reason_of label ≡ (if applies c item not_labelled then some not_labelled else none)
    → reason_of queue
      ≡ find
          (applies c item)
          (awaiting_merge ∷ not_onboarded ∷ off_column ∷ preparation_failed ∷ [])
    → reason_of (behind label queue (launch_holds c item)) ≡ find (applies c item) declared
unfolding launch_holds paused_part held_part capacity_part applies
launch_reason c item queue label l q = ground (arith, l, q)

-- The reason that is reported for an item is the first one, in the order in which the reasons are
-- declared, that applies to it; an item with no reason is one to which none applies.
pub hold_for_precedence :
    (c : Context) (item : WorkItem) → reason_of (hold_for c item) ≡ find (applies c item) declared
unfolding hold_for
hold_for_precedence c item =
    launch_reason c item (queue_part c item) (label_part c item) (label_reason c item)
      (queue_reason c item)
