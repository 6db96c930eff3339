-- ===== src/Intake/Evaluate/Conflict.antt =====
-- What `_resume_creation` of src/robot_army/intake.py does about an issue that another card holds.
use robot_army.Base.{
  ℕ, suc, ◌==◌, ◌≡◌, refl, ap, ◌∙◌, subst, String, str_eq, true, false, not, ◌&&◌, ◌||◌, Option,
  none, some, List, [], ◌∷◌, any, find, update_where, arith, inl, inr, Bool-cases,
}
use robot_army.Models.{Card, creating, linked, Reason, issue_adopted}
use robot_army.Db.{World, ok, err, integrity_error, get_card_by_id, transaction}
use robot_army.Cards.{
  CardColumn, transition_card, move_card, card_transitions, is_legal_card_transition, card_columns,
  card_stamp_entry, assign_card, set_card_column, update_cards, issue_column, issue_url_column,
  reason_column,
}
use robot_army.Intake.{
  list_issues_since, Issue, Hub, Site, ◌>>=◌, effect, commit, link_card, claims_taken, clash,
}
use robot_army.Intake.Filing.{
  mentions, text_or_empty, adopt_from, find_orphaned_issue, resume_with, resume_creation,
}
use robot_army.Intake.Evaluate.Moves.{found-update_cards}

-- The row of the card as the adoption writes it.
abbrev adopting : ℕ → Card → Issue → List CardColumn
adopting now c issue =
    card_columns now linked (
      issue_column (some issue.number)
      ∷ issue_url_column (some issue.url)
      ∷ reason_column none
      ∷ [])

own_row_free : (c r : Card) → (r.id == c.id) ≡ true → clash c r ≡ false
unfolding clash
own_row_free c r own = rw own refl

clash_stays :
    (c : Card) (f : Card → Card) (cards : List Card)
    → any (clash c) cards ≡ true
    → any (clash c) (update_where (λ r. r.id == c.id) f cards) ≡ true
clash_stays c f [] h = ground (arith, h)
clash_stays c f (r ∷ cards) h = elim (Bool-cases (r.id == c.id)) [
  | inl own' ↦
      let free' = own_row_free c r own' in
      let rest' = clash_stays c f cards (subst (λ b. b || any (clash c) cards ≡ true) free' h) in
      ground (arith, rest')
  | inr other' ↦ elim (Bool-cases (clash c r)) [
    | inl taken' ↦ rw (other', taken') refl
    | inr free' ↦
        rw (other', free')
          (clash_stays c f cards (subst (λ b. b || any (clash c) cards ≡ true) free' h))
  ]
]

-- The row once it has been written is refused by the index.
moved_refused :
    (now : ℕ) (c : Card) (issue : Issue) (w : World)
    → get_card_by_id w.db c.id ≡ some c
    → any (clash (record c { issue_number = some issue.number })) w.db.cards ≡ true
    → claims_taken
        (get_card_by_id (update_cards c.id (adopting now c issue) w).db c.id)
        (update_cards c.id (adopting now c issue) w).db.cards
      ≡ true
unfolding assign_card card_columns card_stamp_entry set_card_column clash
moved_refused now c issue w found taken =
    rw (found-update_cards c.id (adopting now c issue) w c found) (
      clash_stays (record c { issue_number = some issue.number })
        (assign_card (adopting now c issue)) w.db.cards taken)

link_card_refused :
    (now : ℕ) (c : Card) (issue : Issue) (reason : Reason) (w : World)
    → get_card_by_id w.db c.id ≡ some c
    → c.state ≡ creating
    → any (clash (record c { issue_number = some issue.number })) w.db.cards ≡ true
    → link_card now c.id reason
        (issue_column (some issue.number)
          ∷ issue_url_column (some issue.url)
          ∷ reason_column none
          ∷ [])
        w
      ≡ (err integrity_error, w)
unfolding link_card transition_card move_card is_legal_card_transition card_transitions
link_card_refused now c issue reason w found at taken =
    rw (found, at, link_card, transition_card) (rw (moved_refused now c issue w found taken) refl)

module _ {S : Type 0} (hub : Hub S) where
  -- The first listed issue whose text has the card's URL.
  abbrev pub first_mention : Card → List Issue → Option Issue
  first_mention c = find (λ i. not (str_eq c.card_url "") && mentions hub c.card_url i.body)

  orphan_found :
      (author : String) (c : Card) (repo : String) (since n : ℕ) (listed : List Issue)
      (issue : Issue) (s : Site S)
      → c.repo_key ≡ some repo
      → c.intent_at ≡ some since
      → list_issues_since hub repo since author s.hub ≡ some listed
      → first_mention c listed ≡ some issue
      → find_orphaned_issue hub author c (record s { budget = suc n })
        ≡ (ok (some issue), record s { budget = n })
  unfolding find_orphaned_issue adopt_from effect
  orphan_found author c repo since n listed issue s key intent listing first =
      let shown : find_orphaned_issue hub author c ≡ (
          effect (λ s. (ok (list_issues_since hub repo since author s.hub), s))
          >>= adopt_from hub c) =
        simp (key, intent, find_orphaned_issue) in
      ap (λ m. m (record s { budget = suc n })) shown ∙ rw (listing, adopt_from) (rw first refl)

  adoption_refused :
      (now n : ℕ) (c : Card) (issue : Issue) (s : Site S)
      → get_card_by_id s.world.db c.id ≡ some c
      → c.state ≡ creating
      → any (clash (record c { issue_number = some issue.number })) s.world.db.cards ≡ true
      → resume_with hub now c (some issue) (record s { budget = suc n })
        ≡ (err integrity_error, record s { budget = n })
  unfolding resume_with commit effect transaction
  adoption_refused now n c issue s found at taken =
      rw
        (
          link_card_refused now c issue (issue_adopted (text_or_empty hub c.repo_key) issue.number)
              s.world found at taken,
          resume_with,
          commit,
        )
        refl

-- A card that is being filed takes over the first listed issue of the author that mentions its URL.
-- Where another card holds that issue's number in the same repository, the take-over raises an
-- integrity error that the resumption does not catch, and leaves the tables, the log and GitHub as they
-- were. The process lives for two effects at least.
pub adoption_conflict_escapes :
    {S : Type 0} (hub : Hub S) (now : ℕ) (author : String) (c : Card) (repo : String) (since n : ℕ)
    (listed : List Issue) (issue : Issue) (s : Site S)
    → get_card_by_id s.world.db c.id ≡ some c
    → c.state ≡ creating
    → c.repo_key ≡ some repo
    → c.intent_at ≡ some since
    → list_issues_since hub repo since author s.hub ≡ some listed
    → first_mention hub c listed ≡ some issue
    → any (clash (record c { issue_number = some issue.number })) s.world.db.cards ≡ true
    → resume_creation hub now author c (record s { budget = suc (suc n) })
      ≡ (err integrity_error, record s { budget = n })
unfolding resume_creation
adoption_conflict_escapes hub now author c repo since n listed issue s found at key intent listing
      first taken =
    rw
      (
        orphan_found hub author c repo since (suc n) listed issue s key intent listing first,
        resume_creation,
      )
      (adoption_refused hub now n c issue s found at taken)
