-- ===== src/Ordering/Holds/Launch.antt =====
-- What `launch_holds` of src/robot_army/ordering.py reads, and how it stands to the queue's view.
use robot_army.Base.{
  ◌≡◌, refl, Bool, true, false, Option, none, some, List, [], ◌∷◌, ◌++◌, arith, String,
}
use robot_army.Models.{WorkItem, RepoProject, Hold}
use robot_army.Config.{Config, RepoConfig, lookup_key}
use robot_army.Capacity.{CapacitySnapshot}
use robot_army.Db.{Db}
use robot_army.Ordering.{
  Context, HoldReason, Detail, paused, held, lift_pause, holds_in_force, item_hold_of,
}
use robot_army.Ordering.Holds.{
  Entry, entry_if, launch_holds, hold_for, paused_part, held_part, capacity_part, behind,
  label_part, queue_part,
}
use robot_army.Ordering.Holds.Precedence.{applies}
use robot_army.Ordering.Plan.{context}

-- The launch reads neither the resolved repositories nor the boards.
pub launch_holds-context :
    (config : Config) (capacity : CapacitySnapshot) (resolved : List (String × RepoConfig))
    (boards : List (String × RepoProject)) (d : Db) (item : WorkItem)
    → launch_holds (context config capacity [] [] d) item
      ≡ launch_holds (context config capacity resolved boards d) item
unfolding launch_holds context paused_part held_part capacity_part
launch_holds-context config capacity resolved boards d item = refl

nothing_behind :
    (label queue : Option Entry) (launch : List Entry)
    → behind label queue launch ≡ none
    → launch ≡ []
nothing_behind label queue [] h = refl
nothing_behind none queue (e ∷ rest) h = ground (arith, h)
nothing_behind (some l) queue (e ∷ rest) h = ground (arith, h)

-- An item that the queue does not hold has no hold of the launch.
pub launch_holds-none :
    (c : Context) (item : WorkItem) → hold_for c item ≡ none → launch_holds c item ≡ []
unfolding hold_for
launch_holds-none c item h =
    nothing_behind (label_part c item) (queue_part c item) (launch_holds c item) h

-- The first hold of the launch applies, in the words of its own rule.
pub launch_holds-first :
    (c : Context) (item : WorkItem) (reason : HoldReason) (detail : Detail) (rest : List Entry)
    → launch_holds c item ≡ (reason, detail) ∷ rest
    → applies c item reason ≡ true
unfolding launch_holds paused_part held_part capacity_part applies
launch_holds-first c item reason detail rest h = ground (arith, h)

-- A hold on the item alone is enough to keep it from launching.
pub launch_holds-held :
    (c : Context) (item : WorkItem) (h : Hold)
    → item_hold_of item.id c.item_holds ≡ some h
    → (reason : HoldReason) × (detail : Detail) × (rest : List Entry) × (launch_holds c item
        ≡ (reason, detail) ∷ rest)
unfolding launch_holds paused_part held_part
launch_holds-held c item h found = rw (found, launch_holds, held_part) (go c.is_paused)
  where
    go :
        (b : Bool)
        → (reason : HoldReason) × (detail : Detail) × (rest : List Entry) × (entry_if b
                (paused, lift_pause)
              ++ ((held, holds_in_force (some h) (lookup_key item.repo_key c.repo_holds))
                  ∷ capacity_part c item)
            ≡ (reason, detail) ∷ rest)
    go true = (paused, lift_pause, _, refl)
    go false = (held, _, _, refl)
