-- ===== src/Examples/Listing.antt =====
-- A listing of two issues, of which one is not the configured author's.
use robot_army.Base.{digits, ◌≡◌, refl, true, false, some, [], ◌∷◌, ◌++◌, All, inl, inr}
use robot_army.Models.{WorkItem}
use robot_army.States.{ready, failed}
use robot_army.Db.{World, ok}
use robot_army.Examples.{item_in, world_of}
use robot_army.Poll.{Listed, source_id, find_work_item, take_issue, take_issues}
use robot_army.Poll.Entry.{eligible_issue_enters}
use robot_army.Poll.Boundary.{IsReadyOnlyFrom, admitted, is_eligible, polling_admits_only_eligible}

abbrev ours : Listed
ours = record { number = 12; labels = "agent" ∷ []; author = "me"; state = "open" }

abbrev theirs : Listed
theirs = record { number = 13; labels = "agent" ∷ []; author = "mallory"; state = "open" }

abbrev queue : World
queue = world_of (item_in 7 "you/demo" ready ∷ item_in 8 "you/demo" failed ∷ []) []

source_id_text : source_id "you/demo" 120 ≡ "you/demo#120"
unfolding source_id digits
source_id_text = refl

abbrev polled : World
polled = (take_issues 500 "agent" "me" "you/demo" true false (ours ∷ theirs ∷ []) queue).1

polling_admits_only_eligible_example :
    All
      (IsReadyOnlyFrom ("gh" ∷ [] ++ admitted "agent" "me" "you/demo" true (ours ∷ theirs ∷ [])))
      polled.db.work_items
polling_admits_only_eligible_example =
    polling_admits_only_eligible 500 "agent" "me" "you/demo" true false (ours ∷ theirs ∷ [])
      ("gh" ∷ []) queue (refl, (refl, tt)) (inr refl, (inl refl, tt))

eligible_issue_enters_example :
    ((take_issue 500 "agent" "me" "you/demo" true false ours queue).0 ≡ ok (1, 0))
    × (row : WorkItem) × (find_work_item
          (take_issue 500 "agent" "me" "you/demo" true false ours queue).1.db
          (source_id "you/demo" 12)
          false
        ≡ some row)
    × (row.state ≡ ready)
unfolding find_work_item source_id is_eligible digits
eligible_issue_enters_example =
    eligible_issue_enters 500 "agent" "me" "you/demo" true false ours queue refl refl
