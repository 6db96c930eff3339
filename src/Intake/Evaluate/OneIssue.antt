-- ===== src/Intake/Evaluate/OneIssue.antt =====
-- However often src/robot_army/intake.py evaluates a card and wherever it is killed, GitHub has at
-- most one issue of the card.
use robot_army.Base.{ℕ, ◌≤◌, ◌≡◌, String, str_eq, false, List, [], ◌∷◌}
use robot_army.Models.{Card}
use robot_army.Intake.{Issue, Hub, Site}
use robot_army.Intake.Evaluate.Seams.{filed, IsUncrowded, Faithful, IsSound}
use robot_army.Intake.Evaluate.Entered.{IsFresh}
use robot_army.Intake.Evaluate.{View, evaluate_card}

module _ {S : Type 0} (hub : Hub S) (issues : S → List Issue) (author u : String)
    (laws : Faithful hub issues author) (named : str_eq u "" ≡ false) (j now : ℕ) where
  abbrev Sound : Site S → Type 0
  Sound s = IsSound issues author u j now s

  abbrev Fresh : Card → Site S → Type 0
  Fresh c s = IsFresh hub issues author u laws named j now c s

-- A pass over the card: the clock, what the evaluation sees, how many effects the process lives for,
-- and what others have done on GitHub and Trello since the pass before.
pub record Pass (S : Type 0) : Type 0 where
  pub now : ℕ
  pub view : View
  pub lives : ℕ
  pub others : S → S

-- Where a pass begins, and where it ends: its error is dropped.
abbrev pub begun : {S : Type 0} → Pass S → Site S → Site S
begun p s = record s { hub = p.others s.hub; budget = p.lives }

abbrev pub ended : {S : Type 0} → Hub S → ℕ → Pass S → Site S → Site S
ended hub j p s = (evaluate_card hub p.now p.view j (begun p s)).1

-- Passes over one card, each in a process of its own.
unfoldable pub passes : {S : Type 0} → Hub S → ℕ → List (Pass S) → Site S → Site S
passes hub j [] s = s
passes hub j (p ∷ ps) s = passes hub j ps (ended hub j p s)

-- The clock does not run backwards, the author is the configured one throughout, and nobody else files
-- or removes an issue of the card.
abbrev pub IsSteady : {S : Type 0} → (S → List Issue) → String → String → ℕ → List (Pass S) → Type 0
IsSteady issues author u start [] = Unit
IsSteady {S} issues author u start (p ∷ ps) =
    (start ≤ p.now)
    × (p.view.author ≡ author)
    × ((h : S) → filed u (issues (p.others h)) ≡ filed u (issues h))
    × IsSteady issues author u p.now ps

-- Where a pass begins, the page that it may ask for is not full.
abbrev pub AreUncrowded : {S : Type 0} → Hub S → ℕ → List (Pass S) → Site S → Type 0
AreUncrowded hub j [] s = Unit
AreUncrowded hub j (p ∷ ps) s =
    IsUncrowded hub j (begun p s) × AreUncrowded hub j ps (ended hub j p s)
