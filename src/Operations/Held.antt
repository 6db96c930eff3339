-- ===== src/Operations/Held.antt =====
-- What a hold of src/robot_army/operations.py does to the launch of the item, in dispatch.py.
use robot_army.Base.{
  ℕ, ◌==◌, ==_iff, ◌≡◌, refl, ap, ◌∙◌, String, true, false, Option, some, List, [], ◌∷◌, inl, inr,
  Bool-cases,
}
use robot_army.Models.{WorkItem, Hold}
use robot_army.Db.{World, Db, get_work_item}
use robot_army.Db.Holds.{find_hold, set_hold}
use robot_army.Db.Holds.Laws.{set_hold_once}
use robot_army.Config.{Config}
use robot_army.Capacity.{Machine, snapshot}
use robot_army.Capacity.Rows.{snapshot-rows}
use robot_army.Ordering.{HoldReason, Detail, item_hold_of}
use robot_army.Ordering.Holds.Launch.{launch_holds-held}
use robot_army.Ordering.Plan.{context}
use robot_army.Dispatch.Gate.{refused, check_launch_gate, answer_launch}
use robot_army.Operations.{same_id, hold_item}

same_id_refl : (k : ℕ) → same_id k k ≡ true
same_id_refl k = (==_iff k k).1 refl

item_hold_of-find_hold :
    (k : ℕ) (rows : List (ℕ × Hold)) → item_hold_of k rows ≡ find_hold same_id k rows
unfolding item_hold_of find_hold
item_hold_of-find_hold k [] = refl
item_hold_of-find_hold k ((j, h) ∷ rows) = elim (Bool-cases (j == k)) [
  | inl yes' ↦ rw yes' refl
  | inr no' ↦ rw no' (item_hold_of-find_hold k rows)
]

-- After the command the hold stands, whether it stood before or not.
pub hold_stands :
    (now : ℕ) (k : ℕ) (by : String) (rows : List (ℕ × Hold))
    → (h : Hold) × (item_hold_of k (set_hold same_id now k by rows).1 ≡ some h)
hold_stands now k by rows = elim (set_hold_once same_id same_id_refl now k by rows) [
  | inl (h, stood, same') ↦ (
    h,
    item_hold_of-find_hold k (set_hold same_id now k by rows).1
        ∙ ap (λ r. find_hold same_id k r.1) same'
        ∙ stood,
  )
  | inr (absent, answer, placed) ↦ (
    record { held_at = now; held_by = by },
    item_hold_of-find_hold k (set_hold same_id now k by rows).1 ∙ placed,
  )
]

hold_item-rows :
    (now : ℕ) (item row : WorkItem) (by : String) (w : World)
    → get_work_item w.db item.id ≡ some row
    → (hold_item now item.id by w).1.db.item_holds
      ≡ (set_hold same_id now item.id by w.db.item_holds).1
unfolding hold_item
hold_item-rows now item row by w found = rw (found, hold_item) refl

-- Once an item has been held, the gate refuses to launch it whenever it is asked and whatever the
-- machine carries, until something else writes the tables; the item has a row, and the launch is not
-- forced.
pub held_item_is_refused :
    (now : ℕ) (by : String) (item row : WorkItem) (w : World) (later : ℕ) (config : Config)
    (enforced_cap : Option ℕ) (m : Machine)
    → get_work_item w.db item.id ≡ some row
    → (reason : HoldReason) × (detail : Detail) × ((check_launch_gate later config enforced_cap m
          false item
          (hold_item now item.id by w).1).0
        ≡ refused reason detail)
unfolding check_launch_gate answer_launch context
held_item_is_refused now by item row w later config enforced_cap m found =
    let w' = (hold_item now item.id by w).1 in
    let snap = snapshot later config enforced_cap true m w' in
    let (h, stands) = hold_stands now item.id by w.db.item_holds in
    let kept : snap.1.db.item_holds ≡ w'.db.item_holds =
      ap (λ (d : Db). d.item_holds) (snapshot-rows later config enforced_cap true m w') in
    let held' : item_hold_of item.id snap.1.db.item_holds ≡ some h =
      ap (item_hold_of item.id) (kept ∙ hold_item-rows now item row by w found) ∙ stands in
    let (reason, detail, rest, first) =
      launch_holds-held (context config snap.0 [] [] snap.1.db) item h held' in
    (reason, detail, ap (λ holds. (answer_launch false holds snap.1).0) first)
