-- ===== src/Cleanup/Guards.antt =====
-- When `clean_item` of src/robot_army/cleanup.py can delete a branch.
use robot_army.Base.{
  ℕ, zero, suc, ◌≡◌, refl, ap, String, str_eq, Bool, true, false, not, ◌&&◌, Option, none, some,
  List, [], ◌∷◌, ◌⊎◌, inl, inr, Bool-cases, arith,
}
use robot_army.States.{done, same_item}
use robot_army.States.Table.{same_item_sound}
use robot_army.Models.{
  WorkItem, Session, CleanupReason, still_live, Reclaimed, already_gone, Evidence,
}
use robot_army.Db.{World}
use robot_army.Base.{append}
use robot_army.Cleanup.{
  Vcs, Decision, eligible, live_sessions, live_verdict, has_text, is_pending, remote_name,
  ahead_evidence, known_head, remote_evidence, pushed_to_remote, both, base_evidence, fetched,
  branch_is_contained, delete_if, branch_exists, decide_named, decide_branch, removal, path_of,
  remove_then_decide, stamped, considered, refused, consider, clean_item, retain, record_outcome,
}

module _ {S : Type 0} (vcs : Vcs S) where
  -- Every commit of the branch is on the remote: on the base, or under the branch's own name.
  abbrev pub IsOnRemote : String → String → String → String → S → Type 0
  IsOnRemote clone remote branch base g =
      (vcs.commits_ahead clone (append remote (append "/" base)) branch g ≡ some 0)
      ⊎ ((head : String) × (vcs.remote_branch_head clone remote branch g ≡ some (some head))
          × (vcs.commits_ahead clone head branch g ≡ some 0))

  -- The base was fetched, and afterwards every commit of the branch was on the remote.
  abbrev pub IsPublished : String → String → String → Type 0
  IsPublished clone branch base =
      (before : S) × (after : S) × (vcs.fetch clone (remote_name vcs clone before) base before
        ≡ (true, after))
      × IsOnRemote clone (remote_name vcs clone before) branch base after

  pushed-IsOnRemote :
      (clone remote branch base : String) (g : S)
      → (pushed_to_remote vcs clone remote branch g).0 ≡ true
      → IsOnRemote clone remote branch base g
  unfolding pushed_to_remote remote_evidence known_head ahead_evidence
  pushed-IsOnRemote clone remote branch base g h =
      go (vcs.remote_branch_head clone remote branch g) refl h
    where
      ahead :
          (head : String) (n : Option ℕ)
          → vcs.commits_ahead clone head branch g ≡ n
          → (ahead_evidence vcs head n).0 ≡ true
          → vcs.commits_ahead clone head branch g ≡ some 0
      ahead head none e h = ground (arith, h)
      ahead head (some zero) e h = e
      ahead head (some (suc n)) e h = ground (arith, h)

      known :
          (head : String) (o : Option (Option String))
          → (known_head vcs clone branch head o g).0 ≡ true
          → vcs.commits_ahead clone head branch g ≡ some 0
      known head none h = ground (arith, h)
      known head (some none) h = ground (arith, h)
      known head (some (some c)) h = ahead head (vcs.commits_ahead clone head branch g) refl h

      go :
          (o : Option (Option String))
          → vcs.remote_branch_head clone remote branch g ≡ o
          → (remote_evidence vcs clone branch o g).0 ≡ true
          → IsOnRemote clone remote branch base g
      go none e h = ground (arith, h)
      go (some none) e h = ground (arith, h)
      go (some (some head)) e h =
          inr (head, e, known head (vcs.rev_parse clone (append head "^{commit}") g) h)

  base-IsOnRemote :
      (clone remote branch base : String) (g : S) (ahead : Option ℕ)
      → vcs.commits_ahead clone (append remote (append "/" base)) branch g ≡ ahead
      → (base_evidence vcs clone remote branch base ahead g).0 ≡ true
      → IsOnRemote clone remote branch base g
  unfolding base_evidence
  base-IsOnRemote clone remote branch base g (some zero) e h = inl e
  base-IsOnRemote clone remote branch base g none e h =
      pushed-IsOnRemote clone remote branch base g (unboth none _ h)
    where
      unboth : (n : Option ℕ) (r : Bool × Evidence) → (both vcs n r).0 ≡ true → r.0 ≡ true
      unboth n (true, why) h = refl
      unboth n (false, why) h = h
  base-IsOnRemote clone remote branch base g (some (suc n)) e h =
      pushed-IsOnRemote clone remote branch base g (unboth (some (suc n)) _ h)
    where
      unboth : (n : Option ℕ) (r : Bool × Evidence) → (both vcs n r).0 ≡ true → r.0 ≡ true
      unboth n (true, why) h = refl
      unboth n (false, why) h = h

  contained-IsPublished :
      (clone branch base : String) (g : S)
      → (branch_is_contained vcs clone branch base g).0.0 ≡ true
      → IsPublished clone branch base
  unfolding branch_is_contained fetched
  contained-IsPublished clone branch base g h =
      go (vcs.fetch clone (remote_name vcs clone g) base g) refl h
    where
      go :
          (r : Bool × S)
          → vcs.fetch clone (remote_name vcs clone g) base g ≡ r
          → (fetched vcs clone (remote_name vcs clone g) branch base r).0.0 ≡ true
          → IsPublished clone branch base
      go (false, g') e h = ground (arith, h)
      go (true, g') e h =
          (g, g', e, base-IsOnRemote clone (remote_name vcs clone g) branch base g' _ refl h)

module _ {S : Type 0} (vcs : Vcs S) (now : ℕ) (P : S → Type 0)
    (removal_keeps : (path clone : String) (g : S) → P g → P (vcs.remove_worktree path clone g).1)
    (fetch_keeps : (clone remote base : String) (g : S)
      → P g
      → P (vcs.fetch clone remote base g).1) where
  -- What was kept by everything but a deletion is kept, or the deletion was proven safe.
  abbrev IsSpared : WorkItem → String → String → Decision × World × S → Type 0
  IsSpared item clone base r =
      P r.2 ⊎ ((branch : String) × (item.branch ≡ some branch) × IsPublished vcs clone branch base)

  contained_keeps :
      (clone branch base : String) (g : S) → P g → P (branch_is_contained vcs clone branch base g).1
  unfolding branch_is_contained fetched
  contained_keeps clone branch base g p =
      go (vcs.fetch clone (remote_name vcs clone g) base g)
        (fetch_keeps clone (remote_name vcs clone g) base g p)
    where
      go : (r : Bool × S) → P r.1 → P (fetched vcs clone (remote_name vcs clone g) branch base r).1
      go (false, g') h = h
      go (true, g') h = h

  delete_if-IsSpared :
      (item : WorkItem) (gone : Reclaimed) (clone base branch : String) (w : World)
      (r : (Bool × Evidence) × S)
      → item.branch ≡ some branch
      → P r.1
      → (r.0.0 ≡ true → IsPublished vcs clone branch base)
      → IsSpared item clone base (delete_if vcs now item gone clone branch r w)
  unfolding delete_if retain record_outcome
  delete_if-IsSpared item gone clone base branch w ((false, why), g) named p proven = inl p
  delete_if-IsSpared item gone clone base branch w ((true, why), g) named p proven =
      inr (branch, named, proven refl)

  decide_named-IsSpared :
      (item : WorkItem) (gone : Reclaimed) (clone base : String) (o : Option String) (w : World)
      (g : S)
      → item.branch ≡ o
      → P g
      → IsSpared item clone base (decide_named vcs now item gone clone base o w g)
  unfolding decide_named record_outcome
  decide_named-IsSpared item gone clone base none w g named p = inl p
  decide_named-IsSpared item gone clone base (some branch) w g named p =
      elim (Bool-cases (str_eq branch "")) [
        | inl empty' ↦ rw (empty', decide_named) (inl p)
        | inr full' ↦ elim (Bool-cases (branch_exists vcs clone branch g)) [
          | inr gone' ↦ rw (full', gone', decide_named) (inl p)
          | inl there' ↦
              rw (full', there', decide_named)
                (delete_if-IsSpared item gone clone base branch w
                  (branch_is_contained vcs clone branch base g) named
                  (contained_keeps clone branch base g p)
                  (contained-IsPublished vcs clone branch base g))
        ]
      ]

  decide_branch-IsSpared :
      (item : WorkItem) (gone : Reclaimed) (clone base : String) (w : World) (g : S)
      → P g
      → IsSpared item clone base (decide_branch vcs now item gone clone base w g)
  unfolding decide_branch
  decide_branch-IsSpared item gone clone base w g p =
      decide_named-IsSpared item gone clone base item.branch w g refl p

  removal-IsSpared :
      (item : WorkItem) (path clone base : String) (r : Option (Bool × Option String) × S)
      (w : World)
      → P r.1
      → IsSpared item clone base (removal vcs now item path clone base r w)
  unfolding removal retain record_outcome
  removal-IsSpared item path clone base (none, g) w p = inl p
  removal-IsSpared item path clone base (some (true, refusal), g) w p =
      elim (Bool-cases (vcs.is_dir path g)) [
        | inl there' ↦ rw (there', removal) (inl p)
        | inr gone' ↦ rw (gone', removal) (decide_branch-IsSpared item _ clone base w g p)
      ]
  removal-IsSpared item path clone base (some (false, refusal), g) w p =
      elim (Bool-cases (vcs.worktree_exists path g)) [
        | inl there' ↦ rw (there', removal) (inl p)
        | inr gone' ↦
            rw (gone', removal) (decide_branch-IsSpared item already_gone clone base w g p)
      ]

  remove_then_decide-IsSpared :
      (item : WorkItem) (clone base : String) (w : World) (g : S)
      → P g
      → IsSpared item clone base (remove_then_decide vcs now item clone base w g)
  unfolding remove_then_decide
  remove_then_decide-IsSpared item clone base w g p =
      removal-IsSpared item (path_of vcs now item) clone base
        (vcs.remove_worktree (path_of vcs now item) clone g) w
        (removal_keeps (path_of vcs now item) clone g p)

-- What may be cleaned is done, and nothing runs in its worktree.
abbrev pub MayGo : WorkItem → World → Type 0
MayGo item w = (item.state ≡ done) × (live_sessions w.db item.id ≡ [])

eligible-MayGo :
    (item : WorkItem) (reconsider : Bool) (w : World)
    → (eligible w.db item reconsider).0 ≡ true
    → MayGo item w
unfolding eligible live_verdict
eligible-MayGo item reconsider w h = elim (Bool-cases (same_item item.state done)) [
  | inr no' ↦ absurd (ground (arith, rw (no', eligible) at h))
  | inl done' ↦ elim (Bool-cases (has_text item.worktree_path)) [
    | inr no' ↦ absurd (ground (arith, rw (done', no', eligible) at h))
    | inl path' ↦ elim (Bool-cases (not (is_pending item.cleanup_state) && not reconsider)) [
      | inl no' ↦ absurd (ground (arith, rw (done', path', no', eligible) at h))
      | inr open' ↦ (
        same_item_sound item.state done done',
        idle (live_sessions w.db item.id) (rw (done', path', open', eligible) at h),
      )
    ]
  ]
]
  where
    idle : (live : List Session) → (live_verdict live).0 ≡ true → live ≡ []
    idle [] h = refl
    idle (s ∷ live) h = ground (arith, h)

-- Whatever holds of the machine and is kept by the removal of a worktree and by a fetch, such as that
-- the item's branch is there, still holds after the cleanup of an item; or the item is done with no
-- session open, its repository resolves to a clone, and the base was fetched with, afterwards, every
-- commit of its branch on the remote: on the base, or on the branch of that name there.
pub cleanup_deletes_only_proven :
    {S : Type 0} (vcs : Vcs S) (now : ℕ) (P : S → Type 0) (item : WorkItem) (reconsider : Bool)
    (clone : Option String) (base : String) (w : World) (g : S)
    → ((path clone : String) (g : S) → P g → P (vcs.remove_worktree path clone g).1)
    → ((clone remote base : String) (g : S) → P g → P (vcs.fetch clone remote base g).1)
    → P g
    → P (clean_item vcs now item reconsider clone base w g).2
      ⊎ (MayGo item w
          × (c : String) × (branch : String) × (clone ≡ some c)
          × (item.branch ≡ some branch)
          × IsPublished vcs c branch base)
unfolding clean_item consider refused retain record_outcome
cleanup_deletes_only_proven {S = S} vcs now P item reconsider clone base w g removal_keeps
      fetch_keeps p =
    go (eligible w.db item reconsider) refl clone refl
  where
    refused_keeps : (why : CleanupReason) → P (refused vcs now item why w g).2
    refused_keeps (still_live id) = p
    refused_keeps why = p

    lift :
        (c : String) (r : Decision × World × S)
        → MayGo item w
        → clone ≡ some c
        → P r.2 ⊎ ((branch : String) × (item.branch ≡ some branch) × IsPublished vcs c branch base)
        → P (stamped vcs now r).2
          ⊎ (MayGo item w
              × (c : String) × (branch : String) × (clone ≡ some c)
              × (item.branch ≡ some branch)
              × IsPublished vcs c branch base)
    lift c (d, w', g') may at (inl kept) = inl kept
    lift c (d, w', g') may at (inr (branch, named, proven)) =
        inr (may, c, branch, at, named, proven)

    go :
        (r : Bool × CleanupReason)
        → eligible w.db item reconsider ≡ r
        → (o : Option String) → clone ≡ o
        → P (consider vcs now item o base r w g).2
          ⊎ (MayGo item w
              × (c : String) × (branch : String) × (clone ≡ some c)
              × (item.branch ≡ some branch)
              × IsPublished vcs c branch base)
    go (false, why) e o at = inl (refused_keeps why)
    go (true, why) e none at = inl p
    go (true, why) e (some c) at =
        lift c (remove_then_decide vcs now item c base (considered vcs now w) g)
          (eligible-MayGo item reconsider w (ap (λ q. q.0) e)) at
          (remove_then_decide-IsSpared vcs now P removal_keeps fetch_keeps item c base
            (considered vcs now w) g p)
