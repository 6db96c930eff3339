-- ===== src/Ordering/Order.antt =====
-- `_apply_board_order` of src/robot_army/ordering.py. The items of one repository are taken out of
-- their slots, sorted, and put back into the same slots.
use robot_army.Base.{ltb, String, str_eq, Bool, List, [], ◌∷◌, keep, length, if◌then◌else◌}
use robot_army.Base.Sort.{sort_by, lex_le}
use robot_army.Models.{WorkItem}
use robot_army.Ordering.{board_key}

abbrev pub in_repo : String → WorkItem → Bool
in_repo key item = str_eq item.repo_key key

abbrev pub board_le : WorkItem → WorkItem → Bool
board_le a b = lex_le (board_key a) (board_key b)

-- The slots of the repository take the items of `ordered` one after the other.
unfoldable pub refill : String → List WorkItem → List WorkItem → List WorkItem
refill key ordered [] = []
refill key [] (item ∷ items) = item ∷ refill key [] items
refill key (next ∷ ordered) (item ∷ items) =
    if in_repo key item
    then next ∷ refill key ordered items
    else item ∷ refill key (next ∷ ordered) items

-- One turn of the loop; fewer than two slots are left alone.
unfoldable pub reorder : String → List WorkItem → List WorkItem
unfolding refill
reorder key items =
    if ltb (length (keep (in_repo key) items)) 2
    then items
    else refill key (sort_by board_le (keep (in_repo key) items)) items

-- `governed` is a set, which the loop walks in some order.
unfoldable pub apply_board_order : List String → List WorkItem → List WorkItem
unfolding reorder
apply_board_order [] items = items
apply_board_order (key ∷ governed) items = apply_board_order governed (reorder key items)
