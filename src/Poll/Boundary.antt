-- ===== src/Poll/Boundary.antt =====
-- Which rows the loop of `poll_repo` of src/robot_army/poll.py can leave ready.
use robot_army.Base.{
  ℕ, ◌≡◌, refl, sym, ◌∙◌, subst, String, str_eq, eq_iff, eq_refl, Bool, true, not, ◌&&◌, List, [],
  ◌∷◌, ◌++◌, All, keep, map, if◌then◌else◌, inl, inr, Bool-cases, Option-cases, arith,
}
use robot_army.Models.{WorkItem}
use robot_army.Db.{World}
use robot_army.Transition.Gate.{find_passes}
use robot_army.Transition.Rows.{IsKeyed}
use robot_army.Poll.Rows.{IsVouched, Inv, continue-Inv, found-OnlySource}
use robot_army.Poll.Issues.{new_issue-Inv, known_issue-Inv}
use robot_army.Capacity.{member}
use robot_army.Poll.{Listed, evaluate, source_id, find_work_item, take_issue, take_issues}

-- The conditions of the boundary, all at once.
unfoldable pub is_eligible : String → String → Bool → Listed → Bool
is_eligible label author onboarded issue =
    member label issue.labels
    && (onboarded && (str_eq issue.author author && str_eq issue.state "open"))

pub evaluate-is_eligible :
    (label author repo : String) (onboarded : Bool) (issue : Listed)
    → (evaluate label author repo onboarded issue).eligible
      ≡ is_eligible label author onboarded issue
unfolding evaluate is_eligible
evaluate-is_eligible label author repo onboarded issue =
    elim (Bool-cases (member label issue.labels)) [
      | inr no' ↦ rw no' refl
      | inl yes' ↦ rw yes' (elim (Bool-cases onboarded) [
        | inr out' ↦ rw out' refl
        | inl in' ↦ rw in' (elim (Bool-cases (str_eq issue.author author)) [
          | inr other' ↦ rw other' refl
          | inl same' ↦ rw same' (elim (Bool-cases (str_eq issue.state "open")) [
            | inr closed' ↦ rw closed' refl
            | inl open' ↦ rw open' refl
          ])
        ])
      ])
    ]

and_left : (a b : Bool) → (a && b) ≡ true → a ≡ true
and_left a b h = ground (arith, h)

module _ (V : String → Type 0) (now : ℕ) (label author repo : String)
    (onboarded dry_run : Bool) where
  -- The source is vouched for if the issue is eligible.
  abbrev MayEnter : Listed → Type 0
  MayEnter issue = is_eligible label author onboarded issue ≡ true → V (source_id repo issue.number)

  take_issue-Inv :
      (issue : Listed) (w : World)
      → MayEnter issue
      → Inv V w.db.work_items
      → Inv V (take_issue now label author repo onboarded dry_run issue w).1.db.work_items
  unfolding take_issue find_work_item
  take_issue-Inv issue w may inv =
      let v = evaluate label author repo onboarded issue in
      let allowed : v.eligible ≡ true → V (source_id repo issue.number) =
        λ e. may (sym (evaluate-is_eligible label author repo onboarded issue) ∙ e) in
      elim (Option-cases (find_work_item w.db (source_id repo issue.number) dry_run)) [
        | inl absent' ↦
            rw (absent', take_issue) (new_issue-Inv V now repo dry_run v issue w allowed inv)
        | inr (item, found') ↦
            let passed' =
              find_passes
                (λ (r : WorkItem).
                  str_eq r.source_id (source_id repo issue.number)
                  && (if dry_run then r.dry_run else not r.dry_run))
                w.db.work_items item found' in
            let same' : item.source_id ≡ source_id repo issue.number =
              (eq_iff item.source_id (source_id repo issue.number)).0 (and_left _ _ passed') in
            rw (found', take_issue)
              (known_issue-Inv V now repo dry_run item v issue w
                (λ e. subst V (sym same') (allowed e))
                (found-OnlySource _ item w.db.work_items inv.0 found') inv)
      ]

  take_issues-Inv :
      (issues : List Listed) (w : World)
      → All MayEnter issues
      → Inv V w.db.work_items
      → Inv V (take_issues now label author repo onboarded dry_run issues w).1.db.work_items
  unfolding take_issues
  take_issues-Inv [] w may inv = inv
  take_issues-Inv (issue ∷ issues) w may inv =
      continue-Inv V (take_issue now label author repo onboarded dry_run issue w) _
        (take_issue-Inv issue w may.0 inv)
        (λ first.
          continue-Inv V
            (take_issues now label author repo onboarded dry_run issues
              (take_issue now label author repo onboarded dry_run issue w).1)
            _
            (take_issues-Inv issues (take_issue now label author repo onboarded dry_run issue w).1
              may.1 (take_issue-Inv issue w may.0 inv))
            (λ rest.
              take_issues-Inv issues (take_issue now label author repo onboarded dry_run issue w).1
                may.1 (take_issue-Inv issue w may.0 inv)))

-- The sources of the eligible issues of a listing.
abbrev pub admitted : String → String → String → Bool → List Listed → List String
admitted label author repo onboarded issues =
    map (λ (i : Listed). source_id repo i.number) (keep (is_eligible label author onboarded) issues)

-- The row is ready only if its source is among these.
abbrev pub IsReadyOnlyFrom : List String → WorkItem → Type 0
IsReadyOnlyFrom sources = IsVouched (λ s. member s sources ≡ true)

member-left : (s : String) (xs ys : List String) → member s xs ≡ true → member s (xs ++ ys) ≡ true
member-left s [] ys h = ground (arith, h)
member-left s (x ∷ xs) ys h = elim (Bool-cases (str_eq x s)) [
  | inl here' ↦ rw here' refl
  | inr later' ↦
      let rest' = member-left s xs ys (ground (arith, h, later')) in ground (arith, rest')
]

member-right : (s : String) (xs ys : List String) → member s ys ≡ true → member s (xs ++ ys) ≡ true
member-right s [] ys h = h
member-right s (x ∷ xs) ys h = let rest' = member-right s xs ys h in ground (arith, rest')

module _ (label author repo : String) (onboarded : Bool) where
  admitted-here :
      (issue : Listed) (issues : List Listed)
      → is_eligible label author onboarded issue ≡ true
      → member (source_id repo issue.number) (admitted label author repo onboarded (issue ∷ issues))
        ≡ true
  admitted-here issue issues fits = rw fits (rw (eq_refl (source_id repo issue.number)) refl)

  admitted-later :
      (s : String) (issue : Listed) (issues : List Listed)
      → member s (admitted label author repo onboarded issues) ≡ true
      → member s (admitted label author repo onboarded (issue ∷ issues)) ≡ true
  admitted-later s issue issues h = elim (Bool-cases (is_eligible label author onboarded issue)) [
    | inl yes' ↦ rw yes' (ground (arith, h))
    | inr no' ↦ rw no' h
  ]

  eligible-MayEnter :
      (V : String → Type 0) (now : ℕ) (dry_run : Bool) (issues : List Listed)
      → ((s : String) → member s (admitted label author repo onboarded issues) ≡ true → V s)
      → All (MayEnter V now label author repo onboarded dry_run) issues
  eligible-MayEnter V now dry_run [] k = tt
  eligible-MayEnter V now dry_run (issue ∷ issues) k = (
    λ fits. k (source_id repo issue.number) (admitted-here issue issues fits),
    eligible-MayEnter V now dry_run issues (λ s h. k s (admitted-later s issue issues h)),
  )

IsReadyOnlyFrom-append :
    (xs ys : List String) (rows : List WorkItem)
    → All (IsReadyOnlyFrom xs) rows
    → All (IsReadyOnlyFrom (xs ++ ys)) rows
IsReadyOnlyFrom-append xs ys [] h = tt
IsReadyOnlyFrom-append xs ys (r ∷ rows) (inl other, h) =
    (inl other, IsReadyOnlyFrom-append xs ys rows h)
IsReadyOnlyFrom-append xs ys (r ∷ rows) (inr known, h) =
    (inr (member-left r.source_id xs ys known), IsReadyOnlyFrom-append xs ys rows h)

-- After the loop has taken the issues of a listing, a row is ready only if it comes from one of the
-- sources that were there before or from an eligible issue of the listing: one of an onboarded
-- repository that carries the label, is open and was written by the configured author. The rows have
-- keys of their own, and at the start they are ready only if they come from the sources given.
pub polling_admits_only_eligible :
    (now : ℕ) (label author repo : String) (onboarded dry_run : Bool) (issues : List Listed)
    (sources : List String) (w : World)
    → IsKeyed w.db.work_items
    → All (IsReadyOnlyFrom sources) w.db.work_items
    → All
        (IsReadyOnlyFrom (sources ++ admitted label author repo onboarded issues))
        (take_issues now label author repo onboarded dry_run issues w).1.db.work_items
polling_admits_only_eligible now label author repo onboarded dry_run issues sources w keyed only =
    (take_issues-Inv (λ s. member s (sources ++ admitted label author repo onboarded issues) ≡ true)
      now label author repo onboarded dry_run issues w
      (eligible-MayEnter label author repo onboarded _ now dry_run issues
        (λ s h. member-right s sources (admitted label author repo onboarded issues) h))
      (
        keyed,
        IsReadyOnlyFrom-append sources (admitted label author repo onboarded issues) w.db.work_items
            only,
      )).1
