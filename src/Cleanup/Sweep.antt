-- ===== src/Cleanup/Sweep.antt =====
-- `sweep` of src/robot_army/cleanup.py, and the candidates that it reads in db.py.
use robot_army.Base.{
  ℕ, leb, String, Bool, true, false, not, ◌&&◌, ◌||◌, Option, none, some, List, [], ◌∷◌, keep,
}
use robot_army.Base.Sort.{sort_by}
use robot_army.States.{done, same_item}
use robot_army.Models.{WorkItem, Session}
use robot_army.Db.{World, Db, Result, ok, err, lookup_error, get_work_item}
use robot_army.Db.Holds.{is_kept}
use robot_army.Cleanup.{Vcs, Decision, is_pending, live_sessions, clean_item}

abbrev pub has_open : List Session → Bool
has_open [] = false
has_open (_ ∷ _) = true

abbrev is_recorded : Option String → Bool
is_recorded none = false
is_recorded (some _) = true

unfoldable pub is_candidate : Db → Bool → WorkItem → Bool
is_candidate d include_simulated item =
    (same_item item.state done && (is_recorded item.worktree_path && is_pending item.cleanup_state))
    && (not (is_kept d item.id && has_open (live_sessions d item.id))
        && (include_simulated || not item.dry_run))

unfoldable pub list_cleanup_candidates : Db → Bool → List WorkItem
unfolding is_candidate
list_cleanup_candidates d include_simulated =
    sort_by (λ a b. leb a.id b.id) (keep (is_candidate d include_simulated) d.work_items)

-- `clone` and `base` are what the repository of an item resolves to.
module _ {S : Type 0} (vcs : Vcs S) (now : ℕ) (clone : String → Option String)
    (base : String → String) where
  unfoldable pub clean_items : List WorkItem → Bool → World → S → List Decision × World × S
  clean_items [] reconsider w g = ([], w, g)
  clean_items (item ∷ items) reconsider w g =
      let (d, w₁, g₁) =
        clean_item vcs now item reconsider (clone item.repo_key) (base item.repo_key) w g in
      let (ds, w₂, g₂) = clean_items items reconsider w₁ g₁ in (d ∷ ds, w₂, g₂)

  unfoldable pub sweep : Option ℕ → Bool → World → S → Result (List Decision) × World × S
  unfolding clean_items
  sweep none include_simulated w g =
      let (ds, w', g') = clean_items (list_cleanup_candidates w.db include_simulated) false w g in
      (ok ds, w', g')
  sweep (some item_id) include_simulated w g = elim (get_work_item w.db item_id) [
    | none ↦ (err lookup_error, w, g)
    | some item ↦ let (ds, w', g') = clean_items (item ∷ []) true w g in (ok ds, w', g')
  ]
