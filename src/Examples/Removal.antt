-- ===== src/Examples/Removal.antt =====
-- The cleanup of a finished item whose branch was merged.
use robot_army.Base.{◌≡◌, refl, String, Bool, true, false, none, some, [], ◌∷◌, ◌⊎◌}
use robot_army.Base.Sort.{sort_by}
use robot_army.States.{done, running, terminal_work_item_states}
use robot_army.Models.{WorkItem}
use robot_army.Db.{World, get_work_item}
use robot_army.Examples.{item_in, session_in, world_of}
use robot_army.Cleanup.{Vcs, clean_item, live_sessions}
use robot_army.Cleanup.Sweep.{is_candidate}
use robot_army.Operations.{keep_item, keep_refused}
use robot_army.Operations.Kept.{kept_item_is_not_swept}
use robot_army.Cleanup.Guards.{MayGo, IsPublished, cleanup_deletes_only_proven}

-- Whether the branch and the worktree are there.
abbrev Disk : Type 0
Disk = Bool × Bool

abbrev merged : Vcs Disk
merged = record {
  simulated = false;
  remove_worktree = λ path clone g. (some (true, none), (g.0, false));
  is_dir = λ path g. g.1;
  worktree_exists = λ path g. g.1;
  rev_parse = λ clone name g. some (some "c0ffee");
  default_remote = λ clone g. some "origin";
  fetch = λ clone remote base g. (true, g);
  commits_ahead = λ clone other branch g. some 0;
  remote_branch_head = λ clone remote branch g. some none;
  delete_branch = λ clone branch g. (some true, (false, g.1));
}

abbrev finished : WorkItem
finished = record (item_in 7 "you/demo" done) {
  worktree_path = some "/w/7";
  branch = some "robot-army/7";
}

abbrev tables_now : World
tables_now = world_of (finished ∷ []) []

cleanup_deletes_only_proven_example :
    ((clean_item merged 900 finished false (some "/git/demo") "main" tables_now (true, true)).2.0
      ≡ true)
    ⊎ (MayGo finished tables_now
        × (c : String) × (branch : String) × (some "/git/demo" ≡ some c)
        × (some "robot-army/7" ≡ some branch)
        × IsPublished merged c branch "main")
cleanup_deletes_only_proven_example =
    cleanup_deletes_only_proven merged 900 (λ g. g.0 ≡ true) finished false (some "/git/demo")
      "main" tables_now (true, true) (λ path clone g p. p) (λ clone remote base g p. p) refl

abbrev watching : World
watching = world_of (finished ∷ []) (session_in running ∷ [])

kept_item_is_not_swept_example :
    is_candidate (keep_item 950 7 "cli" watching).1.db true finished ≡ false
unfolding get_work_item keep_refused live_sessions terminal_work_item_states sort_by
kept_item_is_not_swept_example =
    kept_item_is_not_swept 950 "cli" finished finished true watching refl refl refl
