-- ===== src/Operations/Kept.antt =====
-- What a keep of src/robot_army/operations.py does to the sweep of cleanup.py.
use robot_army.Base.{
  ℕ, ◌==◌, ◌≡◌, refl, sym, ◌∙◌, String, Bool, true, false, ◌&&◌, any, some, List, [], ◌∷◌, inl, inr,
  Bool-cases, arith,
}
use robot_army.Models.{WorkItem, Hold}
use robot_army.Db.{World, Db, get_work_item}
use robot_army.Db.Holds.{set_hold, is_kept}
use robot_army.Ordering.{item_hold_of}
use robot_army.Cleanup.{live_sessions}
use robot_army.Cleanup.Sweep.{has_open, is_candidate}
use robot_army.Operations.{same_id, keep_refused, keep_item}
use robot_army.Operations.Held.{hold_stands}

stands-any :
    (k : ℕ) (h : Hold) (rows : List (ℕ × Hold))
    → item_hold_of k rows ≡ some h
    → any (λ r. r.0 == k) rows ≡ true
unfolding item_hold_of
stands-any k h [] e = ground (arith, e)
stands-any k h ((j, g) ∷ rows) e = elim (Bool-cases (j == k)) [
  | inl yes' ↦ rw yes' refl
  | inr no' ↦
      let shown : item_hold_of k ((j, g) ∷ rows) ≡ item_hold_of k rows = rw no' refl in
      rw no' (stands-any k h rows (sym shown ∙ e))
]

and_false : (a : Bool) → (a && false) ≡ false
and_false true = refl
and_false false = refl

not_candidate :
    (d : Db) (include_simulated : Bool) (item : WorkItem)
    → is_kept d item.id ≡ true
    → has_open (live_sessions d item.id) ≡ true
    → is_candidate d include_simulated item ≡ false
unfolding is_candidate
not_candidate d include_simulated item kept live = rw (kept, live, is_candidate) (and_false _)

-- After an item that has a row has been kept, where the keep was not refused, the automatic cleanup
-- does not take the item up, with simulated rows included or not, until something else writes its keep
-- or its sessions; one of its sessions is open.
pub kept_item_is_not_swept :
    (now : ℕ) (by : String) (item row : WorkItem) (include_simulated : Bool) (w : World)
    → get_work_item w.db item.id ≡ some row
    → keep_refused w.db row ≡ false
    → has_open (live_sessions w.db item.id) ≡ true
    → is_candidate (keep_item now item.id by w).1.db include_simulated item ≡ false
unfolding keep_item is_kept live_sessions
kept_item_is_not_swept now by item row include_simulated w found accepted live =
    let (h, stands) = hold_stands now item.id by w.db.item_keeps in
    rw (found, keep_item)
      (rw accepted (
        not_candidate
          (record w.db { item_keeps = (set_hold same_id now item.id by w.db.item_keeps).1 })
          include_simulated item
          (stands-any item.id h (set_hold same_id now item.id by w.db.item_keeps).1 stands) live))
