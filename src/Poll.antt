-- ===== src/Poll.antt =====
-- src/robot_army/poll.py: the eligibility of an issue, and what `poll_repo` does with the issues of a
-- listing. Reading the listing and the project board are not part of it.
pub mod Rows
pub mod Issues
pub mod Boundary
pub mod Entry
pub mod Source
use robot_army.Base.{
  append, digits, ℕ, zero, suc, ◌+◌, ◌/◌, ◌%◌, ltb, leb, ◌==◌, String, str_eq, Bool, true, false,
  not, ◌&&◌, ◌||◌, Option, none, some, List, [], ◌∷◌, ◌++◌, any, find, if◌then◌else◌,
}
use robot_army.States.{WorkItemState, discovered, ready, failed, same_item, ItemStamp}
use robot_army.Models.{WorkItem, Reason, text, lacks_label, not_onboarded, wrong_author, not_open}
use robot_army.Db.{
  World, Db, Result, ok, err, Exec, ◌>>=◌, ◌>>◌, pure, transaction, record_audit, note,
}
use robot_army.Transition.{
  transition_work_item, update_items, failure_column, blocked_column, labels_column, updated_column,
}
use robot_army.Capacity.{member}

-- An issue as the listing has it.
pub record Listed : Type 0 where
  pub number : ℕ
  pub labels : List String
  pub author : String
  pub state : String

pub record Eligibility : Type 0 where
  pub eligible : Bool
  pub reason : Option Reason
  pub persist : Bool

abbrev refused_as : Reason → Bool → Eligibility
refused_as why persist = record { eligible = false; reason = some why; persist = persist }

module _ (label author repo : String) (onboarded : Bool) where
  unfoldable pub evaluate : Listed → Eligibility
  evaluate issue =
      if not (member label issue.labels)
      then refused_as (lacks_label label issue.labels) false
      else if not onboarded
      then refused_as (not_onboarded repo) false
      else if not (str_eq issue.author author)
      then refused_as (wrong_author issue.author author) true
      else if not (str_eq issue.state "open")
      then refused_as (not_open issue.state) true
      else record { eligible = true; reason = none; persist = true }

unfoldable pub source_id : String → ℕ → String
source_id repo number = append repo (append "#" (digits (suc number) number))

-- Every row is of GitHub, the one source.
unfoldable pub find_work_item : Db → String → Bool → Option WorkItem
find_work_item d source dry_run =
    find
      (λ (r : WorkItem).
        str_eq r.source_id source && (if dry_run then r.dry_run else not r.dry_run))
      d.work_items

-- SQLite takes the next number after the largest.
unfoldable pub next_id : List WorkItem → ℕ
next_id [] = 1
next_id (r ∷ rows) = let rest = next_id rows in if leb rest r.id then suc r.id else rest

abbrev pub no_stamp : ItemStamp → Option ℕ
no_stamp _ = none

-- `insert_work_item`: the row as it is first written.
abbrev pub discovered_row : ℕ → String → Bool → Listed → ℕ → WorkItem
discovered_row now repo dry_run issue id = record {
  id = id;
  source_id = source_id repo issue.number;
  repo_key = repo;
  issue_number = issue.number;
  labels = some issue.labels;
  state = discovered;
  dry_run = dry_run;
  discovered_at = now;
  updated_at = now;
  author = some issue.author;
  failure_reason = none;
  blocked_reason = none;
  stamps = no_stamp;
  board_column = none;
  board_position = none;
  worktree_path = none;
  branch = none;
  cleanup_state = none;
  cleanup_reason = none;
  cleaned_at = none;
}

unfoldable pub insert_work_item : ℕ → String → Bool → Listed → World → Result (Option ℕ) × World
unfolding find_work_item next_id
insert_work_item now repo dry_run issue w =
    elim (find_work_item w.db (source_id repo issue.number) dry_run) [
      | some _ ↦ (ok none, w)
      | none ↦
          let id = next_id w.db.work_items in
          (
            ok (some id),
            record w {
              db = record w.db {
                work_items = w.db.work_items ++ discovered_row now repo dry_run issue id ∷ [];
              };
            },
          )
    ]

-- `_settle` without its transaction.
unfoldable pub settle_verdict : ℕ → ℕ → Eligibility → Exec WorkItemState
settle_verdict now id v =
    if v.eligible
    then transition_work_item now id ready (text "all eligibility conditions passed")
        (blocked_column none ∷ [])
    else transition_work_item now id failed (text "eligibility rejected")
        (blocked_column v.reason ∷ failure_column v.reason ∷ [])

abbrev covers : List String → List String → Bool
covers [] listed = true
covers (x ∷ xs) listed = member x listed && covers xs listed

-- Labels are compared as sets; those that cannot be read always differ.
abbrev pub same_labels : Option (List String) → List String → Bool
same_labels none listed = false
same_labels (some stored) listed = covers stored listed && covers listed stored

unfoldable pub refresh_labels : ℕ → WorkItem → Listed → World → Result (Unit {0}) × World
refresh_labels now item issue w =
    if same_labels item.labels issue.labels
    then (ok tt, w)
    else transaction
        (λ w. record_audit (note "poll.labels_refreshed" (some item.source_id)) (
          update_items (λ r. r.id == item.id)
            (labels_column (some issue.labels) ∷ updated_column now ∷ []) w))
        w

-- How many rows an issue created, and how many issues were rejected.
abbrev pub Tally : Type 0
Tally = ℕ × ℕ

abbrev pub rejected_by : Eligibility → ℕ
rejected_by v = if v.eligible then 0 else 1

unfoldable pub known_issue : ℕ → WorkItem → Eligibility → Listed → World → Result Tally × World
unfolding refresh_labels settle_verdict
known_issue now item v issue =
    if same_item item.state discovered
    then (do transaction (settle_verdict now item.id v); pure (0, rejected_by v))
    else if same_item item.state ready
    then (do refresh_labels now item issue; pure (0, 0))
    else pure (0, 0)

unfoldable pub settle_inserted : ℕ → Eligibility → Option ℕ → World → Result Tally × World
unfolding settle_verdict
settle_inserted now v none = pure (0, 0)
settle_inserted now v (some id) = do
  record_audit (note "poll.discovered" none)
  settle_verdict now id v
  pure (1, rejected_by v)

unfoldable pub new_issue : ℕ → String → Bool → Eligibility → Listed → World → Result Tally × World
unfolding insert_work_item settle_inserted
new_issue now repo dry_run v issue =
    if not v.eligible && not v.persist
    then (do record_audit (note "poll.rejected" (some (source_id repo issue.number))); pure (0, 1))
    else transaction (do id ← insert_work_item now repo dry_run issue; settle_inserted now v id)

module _ (now : ℕ) (label author repo : String) (onboarded dry_run : Bool) where
  unfoldable pub take_issue : Listed → World → Result Tally × World
  unfolding evaluate known_issue new_issue
  take_issue issue w = elim (find_work_item w.db (source_id repo issue.number) dry_run) [
    | some item ↦ known_issue now item (evaluate label author repo onboarded issue) issue w
    | none ↦ new_issue now repo dry_run (evaluate label author repo onboarded issue) issue w
  ]

  -- The loop of `poll_repo` over the issues of the listing.
  unfoldable pub take_issues : List Listed → World → Result Tally × World
  take_issues [] = pure (0, 0)
  take_issues (issue ∷ issues) = do
    first ← take_issue issue
    rest ← take_issues issues
    pure (first.0 + rest.0, first.1 + rest.1)
