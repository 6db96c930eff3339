-- ===== src/Dispatch/Gate.antt =====
-- `check_launch_gate` of src/robot_army/dispatch.py, which every launch passes before it claims its
-- item: what it says, and what it leaves alone.
use robot_army.Base.{
  ℕ, ◌≡◌, refl, ap, ◌∙◌, sym, Bool, true, false, Option, none, List, [], ◌∷◌, String,
}
use robot_army.Models.{WorkItem, RepoProject, Anomaly}
use robot_army.Config.{Config, RepoConfig}
use robot_army.Db.{Db, World, note}
use robot_army.Capacity.{Machine, snapshot}
use robot_army.Capacity.Rows.{snapshot-rows}
use robot_army.Ordering.{HoldReason, Detail}
use robot_army.Ordering.Holds.{Entry, launch_holds, hold_for}
use robot_army.Ordering.Holds.Precedence.{applies}
use robot_army.Ordering.Holds.Launch.{launch_holds-context, launch_holds-none, launch_holds-first}
use robot_army.Ordering.Plan.{context}

-- `DispatchRefused` carries the hold and its sentence.
pub data Permission : Type 0 where
  permitted : Permission
  refused : HoldReason → Detail → Permission

-- What is recorded and answered, from the holds that apply.
unfoldable pub answer_launch : Bool → List Entry → World → Permission × World
answer_launch force [] w = (permitted, w)
answer_launch true (_ ∷ _) w = (permitted, record w { log = note "dispatch.forced" none ∷ w.log })
answer_launch false ((reason, detail) ∷ _) w =
    (refused reason detail, record w { log = note "dispatch.refused" none ∷ w.log })

-- The snapshot is taken first; the pause and the holds are read from the tables that it leaves. The
-- holds of a launch read neither the resolved repositories nor the boards of the context.
unfoldable pub check_launch_gate :
    ℕ → Config → Option ℕ → Machine → Bool → WorkItem → World → Permission × World
unfolding answer_launch
check_launch_gate now config enforced_cap m force item w =
    let (snap, w₁) = snapshot now config enforced_cap true m w in
    answer_launch force (launch_holds (context config snap [] [] w₁.db) item) w₁

answer-rows :
    (force : Bool) (holds : List Entry) (w : World) → (answer_launch force holds w).1.db ≡ w.db
unfolding answer_launch
answer-rows force [] w = refl
answer-rows true (_ ∷ _) w = refl
answer-rows false (_ ∷ _) w = refl

-- Whatever the gate answers, and whether or not it is forced, it writes no table but that of the
-- anomalies: the item that it refuses stays as it was.
pub gate_touches_nothing :
    (now : ℕ) (config : Config) (enforced_cap : Option ℕ) (m : Machine) (force : Bool)
    (item : WorkItem) (w : World)
    → (check_launch_gate now config enforced_cap m force item w).1.db ≡ record w.db {
      anomalies = (check_launch_gate now config enforced_cap m force item w).1.db.anomalies;
    }
unfolding check_launch_gate
gate_touches_nothing now config enforced_cap m force item w =
    let snap = snapshot now config enforced_cap true m w in
    let answered =
      answer-rows force (launch_holds (context config snap.0 [] [] snap.1.db) item) snap.1 in
    answered
    ∙ snapshot-rows now config enforced_cap true m w
    ∙ ap (λ (rows : List Anomaly). record w.db { anomalies = rows })
        (ap (λ (d : Db). d.anomalies) (sym answered))

-- An item that the queue, planned from the same snapshot, would dispatch is permitted, whatever
-- repositories resolve and whatever boards there are, forced or not, and the gate then writes nothing
-- of its own.
pub gate_permits_unheld :
    (now : ℕ) (config : Config) (enforced_cap : Option ℕ) (m : Machine) (force : Bool)
    (item : WorkItem) (w : World) (resolved : List (String × RepoConfig))
    (boards : List (String × RepoProject))
    → hold_for
        (context config
          (snapshot now config enforced_cap true m w).0
          resolved
          boards
          (snapshot now config enforced_cap true m w).1.db)
        item
      ≡ none
    → check_launch_gate now config enforced_cap m force item w
      ≡ (permitted, (snapshot now config enforced_cap true m w).1)
unfolding check_launch_gate answer_launch
gate_permits_unheld now config enforced_cap m force item w resolved boards unheld =
    let snap = snapshot now config enforced_cap true m w in
    let free : launch_holds (context config snap.0 [] [] snap.1.db) item ≡ [] =
      launch_holds-context config snap.0 resolved boards snap.1.db item
      ∙ launch_holds-none (context config snap.0 resolved boards snap.1.db) item unheld in
    ap (λ holds. answer_launch force holds snap.1) free

answer-refused :
    (force : Bool) (holds : List Entry) (w : World) (reason : HoldReason) (detail : Detail)
    → (answer_launch force holds w).0 ≡ refused reason detail
    → (force ≡ false) × ((rest : List Entry) × (holds ≡ (reason, detail) ∷ rest))
unfolding answer_launch
answer-refused force [] w reason detail h = absurd (cc h)
answer-refused true (_ ∷ _) w reason detail h = absurd (cc h)
answer-refused false ((r, d) ∷ rest) w reason detail h = (refl, (rest, cc h))

-- A refusal gives a reason that applies to the item, by the rule of that reason and on the snapshot
-- that the gate took, and a launch that is forced is not refused.
pub gate_refusal_applies :
    (now : ℕ) (config : Config) (enforced_cap : Option ℕ) (m : Machine) (force : Bool)
    (item : WorkItem) (w : World) (reason : HoldReason) (detail : Detail)
    → (check_launch_gate now config enforced_cap m force item w).0 ≡ refused reason detail
    → (force ≡ false)
      × (applies
            (context config
              (snapshot now config enforced_cap true m w).0
              []
              []
              (snapshot now config enforced_cap true m w).1.db)
            item
            reason
          ≡ true)
unfolding check_launch_gate
gate_refusal_applies now config enforced_cap m force item w reason detail h =
    let snap = snapshot now config enforced_cap true m w in
    let c = context config snap.0 [] [] snap.1.db in
    let (unforced, (rest, first)) =
      answer-refused force (launch_holds c item) snap.1 reason detail h in
    (unforced, launch_holds-first c item reason detail rest first)
