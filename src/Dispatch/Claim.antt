-- ===== src/Dispatch/Claim.antt =====
-- `author_refusal` and `_claim_or_refuse` of src/robot_army/dispatch.py, which a launch passes.
use robot_army.Base.{
  ℕ, ◌≡◌, refl, String, str_eq, Option, none, some, [], ◌∷◌, if◌then◌else◌, arith,
}
use robot_army.States.{WorkItemState, dispatching}
use robot_army.Models.{WorkItem, text}
use robot_army.Db.{World, Result, ok, err, Error, claim_lost, transaction, settle, note}
use robot_army.Transition.{claim_work_item}

pub data Authorship : Type 0 where
  unrecorded : Authorship
  mismatch : String → String → Authorship

-- Why the item may not be dispatched on its author, if it may not.
unfoldable pub author_refusal : WorkItem → String → Option Authorship
author_refusal item configured = elim item.author [
  | none ↦ some unrecorded
  | some author ↦ if str_eq author configured then none else some (mismatch author configured)
]

-- The item was taken, another claimant has it, or another error goes on.
pub data Claim : Type 0 where
  claimed : Claim
  lost_to_another : WorkItemState → Claim
  raised : Error → Claim

unfoldable pub settle_claim : Result (Unit {0}) × World → Claim × World
settle_claim (ok _, w) = (claimed, w)
settle_claim (err (claim_lost found), w) =
    (lost_to_another found, record w { log = note "dispatch.refused" none ∷ w.log })
settle_claim (err e, w) = (raised e, w)

unfoldable pub claim_or_refuse : ℕ → ℕ → World → Claim × World
unfolding settle_claim
claim_or_refuse now item_id w = settle_claim (
    transaction
      (claim_work_item now item_id dispatching (text "dispatcher selected it and capacity exists")
        [])
      w)

-- A claim that another claimant has won leaves every table as it was.
lost_claim_spares_tables :
    (now item_id : ℕ) (w : World) (found : WorkItemState)
    → (claim_or_refuse now item_id w).0 ≡ lost_to_another found
    → (claim_or_refuse now item_id w).1.db ≡ w.db
unfolding claim_or_refuse transaction settle_claim
lost_claim_spares_tables now item_id w found h =
    go
      (claim_work_item now item_id dispatching (text "dispatcher selected it and capacity exists")
        [] w)
      h
  where
    go :
        (r : Result (Unit {0}) × World)
        → (settle_claim (settle w.db r)).0 ≡ lost_to_another found
        → (settle_claim (settle w.db r)).1.db ≡ w.db
    go (ok _, w') h = ground (arith, h)
    go (err (claim_lost s), w') h = refl
    go (err e, w') h = refl
