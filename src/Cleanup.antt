-- ===== src/Cleanup.antt =====
-- src/robot_army/cleanup.py: whether the worktree and the branch of a finished item may go, and the
-- removal. Git and the disk are a state that the calls of a `Vcs` read and change.
pub mod Guards
pub mod Sweep
use robot_army.Base.{
  ℕ, zero, suc, ◌==◌, leb, String, str_eq, Bool, true, false, not, ◌&&◌, ◌||◌, Option, none, some,
  List, [], ◌∷◌, keep, if◌then◌else◌,
}
use robot_army.Base.Sort.{sort_by}
use robot_army.Base.{append}
use robot_army.States.{
  WorkItemState, done, SessionState, starting, running, same_item, same_session,
}
use robot_army.Models.{
  WorkItem, Session, CleanupState, reclaimed, branch_retained, retained, skipped, CleanupReason,
  not_finished, no_worktree, decided, still_live, may_clean, no_clone, removal_failed, survived,
  git_refused, no_branch, branch_gone, branch_kept, delete_failed, delete_declined, branch_removed,
  Reclaimed, removed, removal_simulated, already_gone, Evidence, fetch_failed, in_base, on_remote,
  remote_unasked, remote_lacks, head_unknown, uncompared, commits_missing, outside_base,
}
use robot_army.Db.{World, Db, note}
use robot_army.Transition.{update_items, cleanup_columns, updated_column}

-- Git and the disk. `none` stands for a call that raises; in `commits_ahead` also for a number that
-- could not be determined, in `default_remote` also for the empty answer.
pub record Vcs (S : Type 0) : Type 0 where
  pub simulated : Bool
  pub remove_worktree : String → String → S → Option (Bool × Option String) × S
  pub is_dir : String → S → Bool
  pub worktree_exists : String → S → Bool
  pub rev_parse : String → String → S → Option (Option String)
  pub default_remote : String → S → Option String
  pub fetch : String → String → String → S → Bool × S
  pub commits_ahead : String → String → String → S → Option ℕ
  pub remote_branch_head : String → String → String → S → Option (Option String)
  pub delete_branch : String → String → S → Option Bool × S

abbrev pub is_live : SessionState → Bool
is_live starting = true
is_live running = true
is_live _ = false

unfoldable pub live_sessions : Db → ℕ → List Session
live_sessions d id =
    keep (λ s. is_live s.state)
      (sort_by (λ a b. leb a.attempt b.attempt) (keep (λ s. s.work_item_id == id) d.sessions))

abbrev pub is_pending : Option CleanupState → Bool
is_pending none = true
is_pending (some skipped) = true
is_pending _ = false

abbrev pub has_text : Option String → Bool
has_text none = false
has_text (some t) = not (str_eq t "")

unfoldable pub live_verdict : List Session → Bool × CleanupReason
live_verdict [] = (true, may_clean)
live_verdict (s ∷ _) = (false, still_live s.session_id)

unfoldable pub eligible : Db → WorkItem → Bool → Bool × CleanupReason
unfolding live_sessions live_verdict
eligible d item reconsider =
    if not (same_item item.state done)
    then (false, not_finished item.state)
    else if not (has_text item.worktree_path)
    then (false, no_worktree)
    else if not (is_pending item.cleanup_state) && not reconsider
    then (false, decided item.cleanup_state)
    else live_verdict (live_sessions d item.id)

-- `none` is plain ineligibility, which is not recorded in the row.
pub record Decision : Type 0 where
  pub item_id : ℕ
  pub state : Option CleanupState
  pub reason : CleanupReason
  pub worktree_removed : Bool
  pub branch_deleted : Bool
  pub simulated : Bool

abbrev pub decision : WorkItem → Option CleanupState → CleanupReason → Bool → Bool → Decision
decision item s why worktree branch = record {
  item_id = item.id;
  state = s;
  reason = why;
  worktree_removed = worktree;
  branch_deleted = branch;
  simulated = false;
}

unfoldable pub record_cleanup : ℕ → WorkItem → CleanupState → CleanupReason → World → World
record_cleanup now item s why =
    update_items (λ r. r.id == item.id) (cleanup_columns s why now ∷ updated_column now ∷ [])

module _ {S : Type 0} (vcs : Vcs S) where
  unfoldable pub branch_exists : String → String → S → Bool
  branch_exists clone branch g = elim (vcs.rev_parse clone (append "refs/heads/" branch) g) [
    | some none ↦ false
    | _ ↦ true
  ]

  unfoldable pub ahead_evidence : String → Option ℕ → Bool × Evidence
  ahead_evidence head none = (false, uncompared head)
  ahead_evidence head (some zero) = (true, on_remote head)
  ahead_evidence head (some (suc n)) = (false, commits_missing (suc n) head)

  unfoldable pub known_head :
      String → String → String → Option (Option String) → S → Bool × Evidence
  unfolding ahead_evidence
  known_head clone branch head (some (some _)) g =
      ahead_evidence head (vcs.commits_ahead clone head branch g)
  known_head clone branch head _ g = (false, head_unknown head)

  unfoldable pub remote_evidence : String → String → Option (Option String) → S → Bool × Evidence
  unfolding known_head
  remote_evidence clone branch none g = (false, remote_unasked)
  remote_evidence clone branch (some none) g = (false, remote_lacks)
  remote_evidence clone branch (some (some head)) g =
      known_head clone branch head (vcs.rev_parse clone (append head "^{commit}") g) g

  unfoldable pub pushed_to_remote : String → String → String → S → Bool × Evidence
  unfolding remote_evidence
  pushed_to_remote clone remote branch g =
      remote_evidence clone branch (vcs.remote_branch_head clone remote branch g) g

  abbrev pub both : Option ℕ → Bool × Evidence → Bool × Evidence
  both ahead (true, why) = (true, why)
  both ahead (false, why) = (false, outside_base ahead why)

  unfoldable pub base_evidence : String → String → String → String → Option ℕ → S → Bool × Evidence
  unfolding pushed_to_remote
  base_evidence clone remote branch base (some zero) g = (true, in_base remote base)
  base_evidence clone remote branch base ahead g =
      both ahead (pushed_to_remote clone remote branch g)

  abbrev pub remote_name : String → S → String
  remote_name clone g = elim (vcs.default_remote clone g) [ none ↦ "origin" | some r ↦ r ]

  unfoldable pub fetched : String → String → String → String → Bool × S → (Bool × Evidence) × S
  unfolding base_evidence
  fetched clone remote branch base (false, g) = ((false, fetch_failed remote base), g)
  fetched clone remote branch base (true, g) = (
    base_evidence clone remote branch base
        (vcs.commits_ahead clone (append remote (append "/" base)) branch g) g,
    g,
  )

  unfoldable pub branch_is_contained : String → String → String → S → (Bool × Evidence) × S
  unfolding fetched
  branch_is_contained clone branch base g =
      fetched clone (remote_name clone g) branch base (vcs.fetch clone (remote_name clone g) base g)

module _ {S : Type 0} (vcs : Vcs S) (now : ℕ) where
  unfoldable pub record_outcome :
      WorkItem → CleanupState → CleanupReason → Bool → Bool → World → S → Decision × World × S
  unfolding record_cleanup
  record_outcome item s why worktree branch w g =
      (decision item (some s) why worktree branch, record_cleanup now item s why w, g)

  unfoldable pub retain :
      WorkItem → CleanupState → CleanupReason → Bool → World → S → Decision × World × S
  unfolding record_outcome
  retain item s why worktree w g =
      record_outcome item s why worktree false
        (record w { log = note "cleanup.retained" none ∷ w.log }) g

  unfoldable pub deletion :
      WorkItem → Reclaimed → Evidence → Option Bool × S → World → Decision × World × S
  unfolding retain record_outcome
  deletion item gone why (none, g) w = retain item branch_retained (delete_failed gone) true w g
  deletion item gone why (some false, g) w =
      retain item branch_retained (delete_declined gone) true w g
  deletion item gone why (some true, g) w =
      record_outcome item reclaimed (branch_removed gone vcs.simulated why) true true w g

  unfoldable pub delete_if :
      WorkItem → Reclaimed → String → String → (Bool × Evidence) × S → World → Decision × World × S
  unfolding retain deletion
  delete_if item gone clone branch ((false, why), g) w =
      retain item branch_retained (branch_kept gone why) true w g
  delete_if item gone clone branch ((true, why), g) w =
      deletion item gone why (vcs.delete_branch clone branch g) w

  unfoldable pub decide_named :
      WorkItem → Reclaimed → String → String → Option String → World → S → Decision × World × S
  unfolding record_outcome branch_exists branch_is_contained delete_if
  decide_named item gone clone base none w g =
      record_outcome item reclaimed (no_branch gone) true false w g
  decide_named item gone clone base (some branch) w g =
      if str_eq branch ""
      then record_outcome item reclaimed (no_branch gone) true false w g
      else if branch_exists vcs clone branch g
      then delete_if item gone clone branch (branch_is_contained vcs clone branch base g) w
      else record_outcome item reclaimed (branch_gone gone) true false w g

  -- The second guard; `base` is the reference that the branch was cut from.
  unfoldable pub decide_branch :
      WorkItem → Reclaimed → String → String → World → S → Decision × World × S
  unfolding decide_named
  decide_branch item gone clone base w g = decide_named item gone clone base item.branch w g

  unfoldable pub removal :
      WorkItem
      → String
      → String
      → String
      → Option (Bool × Option String) × S
      → World
      → Decision × World × S
  unfolding retain decide_branch
  removal item path clone base (none, g) w = retain item retained removal_failed false w g
  removal item path clone base (some (true, _), g) w =
      if vcs.is_dir path g
      then retain item retained survived false w g
      else decide_branch item (if vcs.simulated then removal_simulated else removed) clone base w g
  removal item path clone base (some (false, refusal), g) w =
      if vcs.worktree_exists path g
      then retain item retained (git_refused refusal) false w g
      else decide_branch item already_gone clone base w g

  abbrev pub path_of : WorkItem → String
  path_of item = elim item.worktree_path [ none ↦ "" | some p ↦ p ]

  -- The first guard.
  unfoldable pub remove_then_decide : WorkItem → String → String → World → S → Decision × World × S
  unfolding removal
  remove_then_decide item clone base w g =
      removal item (path_of item) clone base (vcs.remove_worktree (path_of item) clone g) w

  abbrev pub stamped : Decision × World × S → Decision × World × S
  stamped (d, w, g) = (record d { simulated = vcs.simulated }, w, g)

  abbrev pub considered : World → World
  considered w = record w { log = note "cleanup.considered" none ∷ w.log }

  unfoldable pub refused : WorkItem → CleanupReason → World → S → Decision × World × S
  unfolding record_cleanup
  refused item (still_live id) w g = (
    decision item (some skipped) (still_live id) false false,
    record_cleanup now item skipped (still_live id) (considered w),
    g,
  )
  refused item why w g = (decision item none why false false, considered w, g)

  unfoldable pub consider :
      WorkItem → Option String → String → Bool × CleanupReason → World → S → Decision × World × S
  unfolding refused retain remove_then_decide
  consider item clone base (false, why) w g = refused item why w g
  consider item none base (true, _) w g = retain item retained (no_clone item.repo_key) false w g
  consider item (some clone) base (true, _) w g =
      stamped (remove_then_decide item clone base (considered w) g)

  -- `clone` is what the repository resolves to, if it does.
  unfoldable pub clean_item :
      WorkItem → Bool → Option String → String → World → S → Decision × World × S
  unfolding consider
  clean_item item reconsider clone base w g =
      consider item clone base (eligible w.db item reconsider) w g
