-- ===== src/Intake/Evaluate/Entered.antt =====
-- The entry of src/robot_army/intake.py into a card's creation, and the mapping that a marker comment
-- restores, keep the invariant.
use robot_army.Base.{
  ℕ, ◌≡◌, refl, sym, ap, ◌∙◌, subst, String, str_eq, false, Option, none, some, List, [], ◌∷◌,
  arith, inl, inr,
}
use robot_army.Models.{
  Card, CardState, card_discovered, needs_info, creating, linked, card_dropped, Reason, text,
  marker_names, resolved_to,
}
use robot_army.Db.{
  transaction, World, Db, Result, ok, err, Error, integrity_error, transport_error, get_card_by_id,
}
use robot_army.Cards.{
  CardColumn, same_card, card_columns, card_stamp_entry, assign_card, set_card_column,
  transition_card, reason_column, repo_column, issue_column, posted_column, issue_url_column,
}
use robot_army.Cards.Gate.{id-get_card_by_id}
use robot_army.Intake.{
  Issue, Comment, Hub, Site, ◌>>=◌, ◌>>◌, pure, commit, audit, reread, link_card,
}
use robot_army.Intake.Filing.{
  Verdict, said, restored, read_comments, perform_creation, create_issue_for_card, restore_mapping,
  restore_with, first_named, restore_read, restore_from_marker, and_then,
}
use robot_army.Intake.Evaluate.Seams.{Faithful, Stage, Is, IsSound, Ends, Ends-bind, effect-Ends}
use robot_army.Intake.Evaluate.Filed.{link-RowKeeps}
use robot_army.Intake.Evaluate.Created.{IsReady, perform_creation-Kept}
use robot_army.Intake.Evaluate.Moves.{
  transition_card-Moves, Moves, RowIs, OnOk, RowKeeps, creating-RowKeeps, commit-Keeps,
}

module _ {S : Type 0} (hub : Hub S) (issues : S → List Issue) (author u : String)
    (laws : Faithful hub issues author) (named : str_eq u "" ≡ false) (j now : ℕ) where
  abbrev Sound : Site S → Type 0
  Sound s = IsSound issues author u j now s

  -- The card is not being filed yet, and GitHub has no issue of it.
  abbrev pub IsFresh : Card → Site S → Type 0
  IsFresh c s =
      Is issues author u j now c [] s × (c.card_url ≡ u) × (same_card c.state creating ≡ false)

  nothing-Stage :
      (st : CardState) (repo : Option String) (intent : Option ℕ)
      → same_card st creating ≡ false
      → Stage now author st repo intent []
  nothing-Stage card_discovered repo intent h = refl
  nothing-Stage needs_info repo intent h = refl
  nothing-Stage creating repo intent h = ground (arith, h)
  nothing-Stage linked repo intent h = omega arith
  nothing-Stage card_dropped repo intent h = omega arith

  pub fresh-IsSound : (c : Card) (s : Site S) → IsFresh c s → Sound s
  fresh-IsSound c s (is, url, other) =
      (c, [], is, (url, nothing-Stage c.state c.repo_key c.intent_at other))

  abbrev entered : String → List CardColumn
  entered repo = repo_column (some repo) ∷ reason_column none ∷ []

  enter_creating :
      (c : Card) (reason : Reason) (repo : String) (s : Site S)
      → IsFresh c s
      → Ends issues author u j now
          (λ _ s'. (c' : Card) × IsReady hub issues author u laws named j now c' s')
          (commit (transition_card now j creating reason (entered repo)) s)
  unfolding commit transaction assign_card card_columns card_stamp_entry set_card_column
  enter_creating c reason repo s fresh =
      effect-Ends issues author u j now
        (λ _ s'. (c' : Card) × IsReady hub issues author u laws named j now c' s')
        (λ s. (
          (transaction (transition_card now j creating reason (entered repo)) s.world).0,
          record s {
            world = (transaction (transition_card now j creating reason (entered repo)) s.world).1;
          },
        ))
        s (fresh-IsSound c s fresh)
        (λ n.
          go n (transition_card now j creating reason (entered repo) s.world)
            (transition_card-Moves now j creating reason (entered repo) s.world c fresh.0.0))
    where
      go :
          (n : ℕ) (r : Result CardState × World)
          → Moves j c creating (card_columns now creating (entered repo)) s.world r
          → Ends issues author u j now
              (λ _ s'. (c' : Card) × IsReady hub issues author u laws named j now c' s')
              (
                (robot_army.Db.settle s.world.db r).0,
                record s { world = (robot_army.Db.settle s.world.db r).1; budget = n },
              )
      go n (err e, w) h = fresh-IsSound c s fresh
      go n (ok a, w) (inl h) = ground (arith, h.0, fresh.2)
      go n (ok a, w) (inr h) = (
        assign_card (card_columns now creating (entered repo)) c,
        ((h.1, fresh.0.1), (fresh.1, (omega arith, repo, now, refl, refl, omega arith, tt)), refl),
      )

  reread-IsReady :
      (c c' : Card) (s : Site S)
      → c.id ≡ j
      → IsReady hub issues author u laws named j now c' s
      → Ends issues author u j now
          (λ fresh s'. (fresh.id ≡ j) × IsReady hub issues author u laws named j now fresh s')
          (reread c s)
  unfolding reread
  reread-IsReady c c' s same ready =
      let found : get_card_by_id s.world.db c.id ≡ some c' =
        ap (get_card_by_id s.world.db) same ∙ ready.0.0 in
      rw (found, reread) (id-get_card_by_id s.world.db j c' ready.0.0, ready)

  pub create_issue_for_card-Kept :
      (c : Card) (repo : String) (s : Site S)
      → c.id ≡ j
      → IsFresh c s
      → Ends issues author u j now (λ _. Sound) (create_issue_for_card hub now c repo s)
  unfolding create_issue_for_card
  create_issue_for_card-Kept c repo s same fresh =
      Ends-bind issues author u j now
        (λ _ s'. (c' : Card) × IsReady hub issues author u laws named j now c' s') (λ _. Sound)
        (commit (transition_card now c.id creating (resolved_to repo) (entered repo)) s)
        (λ _. reread c >>= perform_creation hub now)
        (subst
          (λ i.
            Ends issues author u j now
              (λ _ s'. (c' : Card) × IsReady hub issues author u laws named j now c' s')
              (commit (transition_card now i creating (resolved_to repo) (entered repo)) s))
          (sym same) (enter_creating c (resolved_to repo) repo s fresh))
        (λ _ s' (c', ready).
          Ends-bind issues author u j now
            (λ fresh s'. (fresh.id ≡ j) × IsReady hub issues author u laws named j now fresh s')
            (λ _. Sound) (reread c s') (perform_creation hub now)
            (reread-IsReady c c' s' same ready)
            (λ fresh s'' (is, ready').
              perform_creation-Kept hub issues author u laws named j now fresh s'' is ready'))

  -- A restored card has its mapping; another one is as it was.
  abbrev pub OrFresh : Card → Option Verdict → Site S → Type 0
  OrFresh c none s = IsFresh c s
  OrFresh c (some _) s = Sound s

  abbrev restored_columns : ℕ → String → List CardColumn
  restored_columns number url =
      issue_column (some number)
      ∷ issue_url_column (some url)
      ∷ posted_column (some now)
      ∷ reason_column none
      ∷ []

  and_then_keeps :
      (own : List Issue) (m : World → Result (Unit {0}) × World) (r : Result CardState × World)
      → OnOk author u j now own r
      → ((w : World) → RowIs author u j now w own → OnOk author u j now own (m w))
      → OnOk author u j now own (and_then hub m r)
  and_then_keeps own m (err e, w) h k = tt
  and_then_keeps own m (ok a, w) h k = k w h

  restore_mapping-RowKeeps :
      (c : Card) (repo : String) (number : ℕ) (url : String)
      → c.id ≡ j
      → RowKeeps author u j now (restore_mapping hub now c repo number url)
  unfolding restore_mapping
  restore_mapping-RowKeeps c repo number url same w own row =
      and_then_keeps own
        (link_card now c.id (marker_names repo number) (restored_columns number url))
        (transition_card now c.id creating (text "restoring a mapping")
          (repo_column (some repo) ∷ []) w)
        (subst
          (λ i. OnOk author u j now own (
            transition_card now i creating (text "restoring a mapping")
              (repo_column (some repo) ∷ []) w))
          (sym same)
          (creating-RowKeeps author u j now (text "restoring a mapping") repo [] tt w own row))
        (λ w' row'.
          link-RowKeeps hub issues author u laws j now c (marker_names repo number)
            (restored_columns number url) same (tt, (tt, (tt, (tt, tt)))) w' own row')

  abbrev restored_as : Card → String → ℕ → Verdict
  restored_as c repo number = record (said c restored) {
    repo_key = some repo;
    issue_number = some number;
  }

  restore_read-Ends :
      (c : Card) (answer : Option (List Comment)) (s : Site S)
      → c.id ≡ j
      → IsFresh c s
      → Ends issues author u j now (OrFresh c) (restore_read hub now c answer s)
  unfolding restore_read restore_with audit
  restore_read-Ends c none s same fresh = fresh-IsSound c s fresh
  restore_read-Ends c (some comments) s same fresh = go (first_named hub comments)
    where
      go :
          (o : Option (String × ℕ × String))
          → Ends issues author u j now (OrFresh c) (restore_with hub now c o s)
      go none = fresh
      go (some (repo, number, url)) =
          Ends-bind issues author u j now (λ _. Sound) (OrFresh c)
            (commit (restore_mapping hub now c repo number url) s)
            (λ _. audit "trello.recovered" c >> pure (some (restored_as c repo number)))
            (commit-Keeps author u j now issues (restore_mapping hub now c repo number url)
              (restore_mapping-RowKeeps c repo number url same) s (fresh-IsSound c s fresh))
            (λ _ s' h. h)

  pub restore_from_marker-Ends :
      (c : Card) (s : Site S)
      → c.id ≡ j
      → IsFresh c s
      → Ends issues author u j now (OrFresh c) (restore_from_marker hub now c s)
  unfolding restore_from_marker read_comments
  restore_from_marker-Ends c s same fresh =
      Ends-bind issues author u j now (λ _. IsFresh c) (OrFresh c) (read_comments hub c s)
        (restore_read hub now c)
        (effect-Ends issues author u j now (λ _. IsFresh c)
          (λ s. (ok (hub.comments c.card_id s.hub), s)) s (fresh-IsSound c s fresh) (λ n. fresh))
        (λ answer s' fresh'. restore_read-Ends c answer s' same fresh')
