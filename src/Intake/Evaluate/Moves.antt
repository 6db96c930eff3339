-- ===== src/Intake/Evaluate/Moves.antt =====
-- The writes to a tracked card's row in src/robot_army/intake.py keep the invariant of the card.
use robot_army.Base.{
  ℕ, ◌==◌, ==_iff, ◌≡◌, refl, ap, ◌∙◌, String, true, false, Option, some, List, [], ◌∷◌, ◌++◌, All,
  arith, ◌⊎◌, inl, inr, Bool-cases,
}
use robot_army.Models.{
  Card, CardState, card_discovered, needs_info, creating, linked, card_dropped, Reason,
}
use robot_army.Db.{
  World, Db, Result, ok, err, Error, get_card_by_id, transaction, killed, state_card,
}
use robot_army.Cards.{
  CardColumn, repo_column, set_card_column, assign_card, update_cards, same_card,
  is_legal_card_transition, card_transitions, card_stamp_entry, transition_card, move_card,
  card_columns, card_updated_column,
}
use robot_army.Cards.Gate.{id-assign_card, id-get_card_by_id}
use robot_army.Transition.Rows.{find-update_where}
use robot_army.Intake.{Issue, Site, commit, attempt, link_card, if_unclaimed}
use robot_army.Intake.Filing.{Verdict, update_card_columns}
use robot_army.Intake.Evaluate.Seams.{
  Stage, IsPlain, Good, assign_card-Good, append-IsPlain, Stage-length, IsSound, Keeps,
  effect-Keeps, either-Ends,
}

pub found-update_cards :
    (j : ℕ) (cs : List CardColumn) (w : World) (card : Card)
    → get_card_by_id w.db j ≡ some card
    → get_card_by_id (update_cards j cs w).db j ≡ some (assign_card cs card)
unfolding get_card_by_id
found-update_cards j cs w card found =
    find-update_where (λ r. r.id == j) (λ r. r.id == j) (assign_card cs) w.db.cards
      (λ r. ap (λ (i : ℕ). i == j) (id-assign_card cs r))
    ∙ rw found (rw ((==_iff card.id j).1 (id-get_card_by_id w.db j card found)) refl)

-- What a write does to the row of the card: nothing, or this assignment.
abbrev pub Writes : ℕ → {A : Type 0} → Card → List CardColumn → World → Result A × World → Type 0
Writes j card cs w (err e, w') = get_card_by_id w'.db j ≡ some card
Writes j card cs w (ok a, w') =
    (get_card_by_id w'.db j ≡ some card) ⊎ (get_card_by_id w'.db j ≡ some (assign_card cs card))

pub update_card_columns-Writes :
    (now : ℕ) (card c : Card) (cs : List CardColumn) (w : World)
    → get_card_by_id w.db c.id ≡ some card
    → Writes c.id card (cs ++ card_updated_column now ∷ []) w (update_card_columns now c cs w)
unfolding update_card_columns
update_card_columns-Writes now card c cs w found =
    inr (found-update_cards c.id (cs ++ card_updated_column now ∷ []) w card found)

-- The gate moves the row only along an edge of the table.
abbrev pub Moves :
    ℕ → {A : Type 0} → Card → CardState → List CardColumn → World → Result A × World → Type 0
Moves j card target cs w (err e, w') = get_card_by_id w'.db j ≡ some card
Moves j card target cs w (ok a, w') =
    ((same_card card.state target ≡ true) × (get_card_by_id w'.db j ≡ some card))
    ⊎ ((is_legal_card_transition card.state target ≡ true)
        × (get_card_by_id w'.db j ≡ some (assign_card cs card)))

pub transition_card-Moves :
    (now j : ℕ) (target : CardState) (reason : Reason) (extra : List CardColumn) (w : World)
    (card : Card)
    → get_card_by_id w.db j ≡ some card
    → Moves j card target
        (card_columns now target extra)
        w
        (transition_card now j target reason extra w)
unfolding transition_card
transition_card-Moves now j target reason extra w card found =
    rw (found, transition_card, Moves)
      (elim (Bool-cases (same_card card.state target)) [
        | inl same' ↦ unfold move_card in rw same' (inl (same', found))
        | inr differs' ↦ elim (Bool-cases (is_legal_card_transition card.state target)) [
          | inl good' ↦
              unfold move_card in
              rw (differs', good')
                (inr (good', found-update_cards j (card_columns now target extra) w card found))
          | inr bad' ↦ unfold move_card in rw (differs', bad') found
        ]
      ])

no_own :
    (now : ℕ) (author : String) (st target : CardState) (repo : Option String) (intent : Option ℕ)
    (own : List Issue)
    → same_card target linked ≡ false
    → is_legal_card_transition st target ≡ true
    → Stage now author st repo intent own
    → own ≡ []
unfolding is_legal_card_transition card_transitions
no_own now author card_discovered target repo intent own t legal h = h
no_own now author needs_info target repo intent own t legal h = h
no_own now author creating target repo intent own t legal h = ground (arith, t, legal)
no_own now author linked target repo intent own t legal h = ground (arith, legal)
no_own now author card_dropped target repo intent own t legal h = ground (arith, legal)

module _ (author u : String) (j now : ℕ) where
  abbrev pub RowIs : World → List Issue → Type 0
  RowIs w own = (card : Card) × (get_card_by_id w.db j ≡ some card) × Good now author u card own

  abbrev pub OnOk : {A : Type 0} → List Issue → Result A × World → Type 0
  OnOk own (ok a, w) = RowIs w own
  OnOk own (err e, w) = Unit

  -- A write that succeeds keeps the row in step with the issues.
  abbrev pub RowKeeps : {A : Type 0} → (World → Result A × World) → Type 0
  RowKeeps m = (w : World) (own : List Issue) → RowIs w own → OnOk own (m w)

  pub update_card_columns-RowKeeps :
      (at : ℕ) (c : Card) (cs : List CardColumn)
      → c.id ≡ j
      → All IsPlain cs
      → RowKeeps (update_card_columns at c cs)
  unfolding update_card_columns
  update_card_columns-RowKeeps at c cs same plain w own (card, found, good) = rw same (
    assign_card (cs ++ card_updated_column at ∷ []) card,
    found-update_cards j (cs ++ card_updated_column at ∷ []) w card found,
    assign_card-Good now author u card own (cs ++ card_updated_column at ∷ [])
        (append-IsPlain cs (card_updated_column at ∷ []) plain (tt, tt)) good,
  )

  moved_keeps :
      {A : Type 0} (target : CardState) (cs : List CardColumn) (w : World) (r : Result A × World)
      (card : Card) (own : List Issue)
      → Good now author u card own
      → (is_legal_card_transition card.state target ≡ true
          → Good now author u (assign_card cs card) own)
      → Moves j card target cs w r
      → OnOk own r
  moved_keeps target cs w (err e, w') card own good moved h = tt
  moved_keeps target cs w (ok a, w') card own good moved (inl h) = (card, h.1, good)
  moved_keeps target cs w (ok a, w') card own good moved (inr h) =
      (assign_card cs card, h.1, moved h.0)

  pub linked-RowKeeps :
      (reason : Reason) (extra : List CardColumn)
      → All IsPlain extra
      → RowKeeps (transition_card now j linked reason extra)
  unfolding assign_card card_columns card_stamp_entry set_card_column
  linked-RowKeeps reason extra plain w own (card, found, good) =
      moved_keeps linked (card_columns now linked extra) w
        (transition_card now j linked reason extra w) card own good
        (λ legal.
          assign_card-Good now author u (record card { state = linked; updated_at = now }) own extra
            plain
            (good.0, Stage-length now author card.state card.repo_key card.intent_at own good.1))
        (transition_card-Moves now j linked reason extra w card found)

  pub needs_info-RowKeeps :
      (reason : Reason) (extra : List CardColumn)
      → All IsPlain extra
      → RowKeeps (transition_card now j needs_info reason extra)
  unfolding assign_card card_columns card_stamp_entry set_card_column
  needs_info-RowKeeps reason extra plain w own (card, found, good) =
      moved_keeps needs_info (card_columns now needs_info extra) w
        (transition_card now j needs_info reason extra w) card own good
        (λ legal.
          assign_card-Good now author u (record card { state = needs_info; updated_at = now }) own
            extra plain
            (
              good.0,
              no_own now author card.state needs_info card.repo_key card.intent_at own refl legal
                  good.1,
            ))
        (transition_card-Moves now j needs_info reason extra w card found)

  -- The intent is stamped by the transition itself, before any issue of the card exists.
  pub creating-RowKeeps :
      (reason : Reason) (repo : String) (extra : List CardColumn)
      → All IsPlain extra
      → RowKeeps (transition_card now j creating reason (repo_column (some repo) ∷ extra))
  unfolding assign_card card_columns card_stamp_entry set_card_column
  creating-RowKeeps reason repo extra plain w own (card, found, good) =
      moved_keeps creating (card_columns now creating (repo_column (some repo) ∷ extra)) w
        (transition_card now j creating reason (repo_column (some repo) ∷ extra) w) card own good
        (λ legal.
          assign_card-Good now author u
            (record card {
              state = creating;
              updated_at = now;
              intent_at = some now;
              repo_key = some repo;
            })
            own extra plain
            (
              good.0,
              rw
                  (no_own now author card.state creating card.repo_key card.intent_at own refl legal
                    good.1)
                  (omega arith, repo, now, refl, refl, omega arith, tt),
            ))
        (transition_card-Moves now j creating reason (repo_column (some repo) ∷ extra) w card found)

  if_unclaimed_keeps :
      (own : List Issue) (w : World) (r : Result CardState × World)
      → OnOk own r
      → OnOk own (if_unclaimed j w r)
  if_unclaimed_keeps own w (err e, w') h = tt
  if_unclaimed_keeps own w (ok a, w') h = ground (arith, h)

  pub link_card-RowKeeps :
      (reason : Reason) (extra : List CardColumn)
      → All IsPlain extra
      → RowKeeps (link_card now j reason extra)
  unfolding link_card
  link_card-RowKeeps reason extra plain w own row =
      if_unclaimed_keeps own w (transition_card now j linked reason extra w)
        (linked-RowKeeps reason extra plain w own row)

  module _ {S : Type 0} (issues : S → List Issue) where
    pub transaction-Ends :
        {A : Type 0} (m : World → Result A × World) (s : Site S)
        → RowKeeps m
        → IsSound issues author u j now s
        → IsSound issues author u j now (record s { world = (transaction m s.world).1 })
    unfolding transaction
    transaction-Ends {A = A} m s keeps (card, own, is, good) =
        go (m s.world) (keeps s.world own (card, is.0, good))
      where
        go :
            (r : Result A × World)
            → OnOk own r
            → IsSound issues author u j now
                (record s { world = (robot_army.Db.settle s.world.db r).1 })
        go (ok a, w) (card', found', good') = (card', own, (found', is.1), good')
        go (err e, w) h = (card, own, is, good)

    pub commit-Keeps :
        {A : Type 0} (m : World → Result A × World)
        → RowKeeps m
        → Keeps issues author u j now (commit m)
    unfolding commit
    commit-Keeps m keeps =
        effect-Keeps issues author u j now
          (λ s. ((transaction m s.world).0, record s { world = (transaction m s.world).1 }))
          (λ s sound.
            either-Ends issues author u j now (transaction m s.world).0
              (record s { world = (transaction m s.world).1 }) (transaction-Ends m s keeps sound))

    pub attempt-Keeps :
        (m : World → Result (Unit {0}) × World)
        (f : Result (Unit {0}) → Site S → Result Verdict × Site S)
        → RowKeeps m
        → ((r : Result (Unit {0})) → Keeps issues author u j now (f r))
        → Keeps issues author u j now (attempt m f)
    unfolding attempt
    attempt-Keeps m f keeps after =
        effect-Keeps issues author u j now
          (λ s. f (transaction m s.world).0 (record s { world = (transaction m s.world).1 }))
          (λ s sound.
            after (transaction m s.world).0 (record s { world = (transaction m s.world).1 })
              (transaction-Ends m s keeps sound))
