-- ===== src/Models.antt =====
-- src/robot_army/models.py: the rows of the tables, with the columns that the modelled code reads
-- or writes. A timestamp is the number of seconds that its fixed-width text stands for, so that the
-- order of the texts is the order of the numbers. A sentence that is stored or logged is a value
-- of `Reason`: the facts that it prints.
use robot_army.Base.{
  ℕ, ℤ, pos, String, Bool, true, false, ◌&&◌, Option, none, some, List, [], ◌∷◌, eq_ℤ, str_eq,
}
use robot_army.States.{WorkItemState, SessionState, ItemStamp, SessionStamp}

pub data CardState : Type 0 where
  card_discovered needs_info creating linked card_dropped : CardState

-- A value of the `json` module. A float is kept as the integer that it equals, if there is one.
mutual
  pub data Json : Type 0 where
    null : Json
    bool : Bool → Json
    int : ℤ → Json
    float : Option ℤ → Json
    str : String → Json
    arr : Items → Json
    obj : Fields → Json

  pub data Items : Type 0 where
    no_items : Items
    item : Json → Items → Items

  pub data Fields : Type 0 where
    no_fields : Fields
    field : String → Json → Fields → Fields

pub data Reason : Type 0 where
  text : String → Reason
  started : Reason
  inferred_start : Reason
  reported_exit : ℤ → Reason
  session_exited : ℤ → Option ℤ → Reason
  nothing_onboarded : Reason
  none_identified : List String → Reason
  several_named : List String → Reason
  declared_unknown : String → List String → Reason
  declared_apart : List String → Reason
  not_created : Option String → Reason
  resolved_to : String → Reason
  issue_created : String → ℕ → Reason
  issue_adopted : String → ℕ → Reason
  marker_names : String → ℕ → Reason
  lacks_label : String → List String → Reason
  not_onboarded : String → Reason
  wrong_author : String → String → Reason
  not_open : String → Reason

pub data CleanupState : Type 0 where
  reclaimed branch_retained retained skipped : CleanupState

-- What cleanup did to the worktree, as its sentences say it.
pub data Reclaimed : Type 0 where
  removed removal_simulated already_gone : Reclaimed

-- Why a branch counts as contained in the remote, or does not.
pub data Evidence : Type 0 where
  fetch_failed : String → String → Evidence
  in_base : String → String → Evidence
  on_remote : String → Evidence
  remote_unasked : Evidence
  remote_lacks : Evidence
  head_unknown : String → Evidence
  uncompared : String → Evidence
  commits_missing : ℕ → String → Evidence
  outside_base : Option ℕ → Evidence → Evidence

pub data CleanupReason : Type 0 where
  not_finished : WorkItemState → CleanupReason
  no_worktree : CleanupReason
  decided : Option CleanupState → CleanupReason
  still_live : String → CleanupReason
  may_clean : CleanupReason
  no_clone : String → CleanupReason
  removal_failed : CleanupReason
  survived : CleanupReason
  git_refused : Option String → CleanupReason
  no_branch : Reclaimed → CleanupReason
  branch_gone : Reclaimed → CleanupReason
  branch_kept : Reclaimed → Evidence → CleanupReason
  delete_failed : Reclaimed → CleanupReason
  delete_declined : Reclaimed → CleanupReason
  branch_removed : Reclaimed → Bool → Evidence → CleanupReason

pub record WorkItem : Type 0 where
  pub id : ℕ
  pub source_id : String
  pub repo_key : String
  pub issue_number : ℕ
  pub labels : Option (List String)
  pub state : WorkItemState
  pub dry_run : Bool
  pub discovered_at : ℕ
  pub updated_at : ℕ
  pub author : Option String
  pub failure_reason : Option Reason
  pub blocked_reason : Option Reason
  pub stamps : ItemStamp → Option ℕ
  pub board_column : Option String
  pub board_position : Option ℕ
  pub worktree_path : Option String
  pub branch : Option String
  pub cleanup_state : Option CleanupState
  pub cleanup_reason : Option CleanupReason
  pub cleaned_at : Option ℕ

pub record Session : Type 0 where
  pub id : ℕ
  pub work_item_id : ℕ
  pub session_id : String
  pub attempt : ℕ
  pub state : SessionState
  pub dry_run : Bool
  pub pid : Json
  pub proc_start : Option String
  pub exit_code : Option ℤ
  pub signal : Option ℤ
  pub stamps : SessionStamp → Option ℕ

-- `pid == 0`, which a Boolean or a float can satisfy too.
is_zero : Json → Bool
is_zero (int z) = eq_ℤ z (pos 0)
is_zero (bool b) = elim b [ true ↦ false | false ↦ true ]
is_zero (float (some z)) = eq_ℤ z (pos 0)
is_zero _ = false

unfoldable pub hosted_by_simulation : Session → Bool
unfolding is_zero
hosted_by_simulation s =
    s.dry_run && (is_zero s.pid && elim s.proc_start [ none ↦ true | some _ ↦ false ])

pub record Card : Type 0 where
  pub id : ℕ
  pub board_id : String
  pub card_id : String
  pub card_url : String
  pub title : String
  pub body : String
  pub state : CardState
  pub dry_run : Bool
  pub updated_at : ℕ
  pub repo_key : Option String
  pub issue_number : Option ℕ
  pub reason : Option Reason
  pub intent_at : Option ℕ
  pub create_failures : ℕ
  pub archived_at : Option ℕ
  pub comment_posted_at : Option ℕ
  pub issue_url : Option String
  pub commented_reason : Option Reason
  pub last_activity : Option String
  pub current_list_id : Option String

pub record Anomaly : Type 0 where
  pub kind : String
  pub entity_type : Option String
  pub entity_id : Option String
  pub detail : Reason
  pub detected_at : ℕ
  pub acknowledged_at : Option ℕ
  pub resolved_at : Option ℕ
  pub dry_run : Bool

pub record Hold : Type 0 where
  pub held_at : ℕ
  pub held_by : String

pub record DispatchControl : Type 0 where
  pub paused : Bool
  pub paused_at : Option ℕ
  pub paused_by : Option String

-- Which board governs a repository, and whether it has been resolved and read.
pub record RepoProject : Type 0 where
  pub repo_key : String
  pub column_name : Option String
  pub resolved_at : Option ℕ
  pub last_read_at : Option ℕ

pub governs : RepoProject → Bool
governs p =
    elim p.resolved_at [ none ↦ false | some _ ↦ true ]
    && elim p.last_read_at [ none ↦ false | some _ ↦ true ]

-- Reasons are compared by the facts that they print.
same_texts : List String → List String → Bool
same_texts [] [] = true
same_texts (a ∷ as_) (b ∷ bs) = str_eq a b && same_texts as_ bs
same_texts _ _ = false

unfoldable pub same_text : Reason → Reason → Bool
unfolding same_texts
same_text nothing_onboarded nothing_onboarded = true
same_text (none_identified a) (none_identified b) = same_texts a b
same_text (several_named a) (several_named b) = same_texts a b
same_text (declared_unknown x a) (declared_unknown y b) = str_eq x y && same_texts a b
same_text (declared_apart a) (declared_apart b) = same_texts a b
same_text (text a) (text b) = str_eq a b
same_text _ _ = false
