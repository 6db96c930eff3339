-- ===== src/Intake/Evaluate/Created.antt =====
-- The creation, the resumption and the restoration of src/robot_army/intake.py keep the invariant: an
-- issue is created only where GitHub has none of the card's.
use mathlib.Core.Option
use robot_army.Base.{
  length, ◌<◌, ◌≤◌, ℕ, ◌≡◌, refl, sym, ap, ◌∙◌, subst, String, str_eq, eq_refl, false, Option, none,
  some, List, [], ◌∷◌, All, find, arith, inl, inr, Option-cases,
}
use robot_army.Models.{Card, creating, issue_adopted}
use robot_army.Db.{Result, ok}
use robot_army.Cards.{CardColumn, reason_column, issue_column, issue_url_column}
use robot_army.Intake.{
  filed_from, Issue, Payload, issues_of, per_page, list_issues_since, Hub, Site, ◌>>=◌, ◌>>◌, pure,
  effect, commit, audit, reread, link_card,
}
use robot_army.Intake.Filing.{
  said, adopted, text_or_empty, post_marker_comment, link_created, create_issue, perform_creation,
  adopt_from, find_orphaned_issue, resume_with, resume_creation,
}
use robot_army.Intake.Evaluate.Seams.{
  filed, Adds, IsListedBy, IsUncrowded, Faithful, Stage, Good, Is, IsSound, Ends, Ends-bind, Keeps,
  effect-Ends,
}
use robot_army.Intake.Evaluate.Filed.{
  then-Kept, audit_then-Kept, marked_then, link-RowKeeps, link_created-Kept,
}
use robot_army.Intake.Evaluate.Listed.{is_orphan, nothing_filed}
use robot_army.Intake.Evaluate.Moves.{commit-Keeps}

module _ {S : Type 0} (hub : Hub S) (issues : S → List Issue) (author u : String)
    (laws : Faithful hub issues author) (named : str_eq u "" ≡ false) (j now : ℕ) where
  abbrev Kept : {A : Type 0} → (Site S → Result A × Site S) → Type 0
  Kept m = Keeps issues author u j now m

  -- The card is being filed, and GitHub has no issue of it.
  abbrev pub IsReady : Card → Site S → Type 0
  IsReady c s = Is issues author u j now c [] s × Good now author u c [] × (c.state ≡ creating)

  abbrev pub ready-IsSound : (c : Card) (s : Site S) → IsReady c s → IsSound issues author u j now s
  ready-IsSound c s (is, good, at) = (c, [], is, good)

  filed-cons :
      (i : Issue) (before after : List Issue) (v quoted : String)
      → v ≡ u
      → i.body ≡ filed_from v quoted
      → after ≡ i ∷ before
      → filed u before ≡ []
      → filed u after ≡ i ∷ []
  filed-cons i before after v quoted same has more nothing =
      ap (filed u) more ∙ rw (has, same, eq_refl u, nothing) refl

  one_filed :
      (c : Card) (s : Site S) (h : S) (repo : String)
      → IsReady c s
      → c.repo_key ≡ some repo
      → Adds repo author (filed_from c.card_url c.body) (issues s.hub) (issues h)
      → ((i : Issue) → issues h ≡ i ∷ issues s.hub → now ≤ i.created_at)
      → IsSound issues author u j now (record s { hub = h })
  one_filed c s h repo (is, good, at) key (inl same') dated =
      (c, [], (is.0, ap (filed u) same' ∙ is.1), good)
  one_filed c s h repo (is, good, at) key (inr (i, more', in_repo', by', has')) dated =
      let (one, r, t, eq, intent, before, fits) =
        subst (λ st. Stage now author st c.repo_key c.intent_at []) at good.1 in
      (
        c,
        i ∷ [],
        (is.0, filed-cons i (issues s.hub) (issues h) c.card_url c.body good.0 has' more' is.1),
        (
          good.0,
          subst (λ st. Stage now author st c.repo_key c.intent_at (i ∷ [])) (sym at)
              (
                omega arith,
                repo,
                t,
                key,
                intent,
                before,
                ((in_repo', omega (arith, before, dated i more'), by'), tt),
              ),
        ),
      )

  create_issue-Kept :
      (c : Card) (s : Site S)
      → IsReady c s
      → Ends issues author u j now (λ _. IsSound issues author u j now) (create_issue hub now c s)
  unfolding create_issue
  create_issue-Kept c s ready = elim (Option-cases c.repo_key) [
    | inl none' ↦ rw (none', create_issue) (ready-IsSound c s ready)
    | inr (repo, key') ↦
        rw (key', create_issue)
          (effect-Ends issues author u j now (λ _. IsSound issues author u j now)
            (λ s. (
              ok (hub.create now repo c.title (filed_from c.card_url c.body) s.hub).0,
              record s {
                hub = (hub.create now repo c.title (filed_from c.card_url c.body) s.hub).1;
              },
            ))
            s (ready-IsSound c s ready)
            (λ n.
              one_filed c (record s { budget = n })
                (hub.create now repo c.title (filed_from c.card_url c.body) s.hub).1 repo ready key'
                (laws.documented.create_adds now repo c.title (filed_from c.card_url c.body) s.hub)
                (laws.in_step now repo c.title (filed_from c.card_url c.body) s.hub)))
  ]

  pub perform_creation-Kept :
      (c : Card) (s : Site S)
      → c.id ≡ j
      → IsReady c s
      → Ends issues author u j now
          (λ _. IsSound issues author u j now)
          (perform_creation hub now c s)
  unfolding perform_creation
  perform_creation-Kept c s same ready =
      Ends-bind issues author u j now (λ _. IsSound issues author u j now)
        (λ _. IsSound issues author u j now) (create_issue hub now c s) (link_created hub now c)
        (create_issue-Kept c s ready)
        (λ issue s' sound. link_created-Kept hub issues author u laws j now c issue same s' sound)

  -- The listing has a first mention, or GitHub has no issue of the card.
  abbrev OrReady : Card → Option Issue → Site S → Type 0
  OrReady c none s = IsReady c s
  OrReady c (some i) s = IsSound issues author u j now s

  adopt_from-Ends :
      (c : Card) (own : List Issue) (answer : Option (List Payload)) (s : Site S) (repo : String)
      (since : ℕ)
      → Is issues author u j now c own s
      → Good now author u c own
      → c.state ≡ creating
      → All (IsListedBy repo since author) own
      → hub.page repo since per_page s.hub ≡ answer
      → ((page : List Payload) → answer ≡ some page → length page < per_page)
      → Ends issues author u j now
          (OrReady c)
          (adopt_from hub c (Option.map (issues_of since author) answer) s)
  unfolding adopt_from audit
  adopt_from-Ends c own none s repo since is good at fits got few = (c, own, is, good)
  adopt_from-Ends c own (some page) s repo since is good at fits got few =
      go (find (is_orphan hub c) (issues_of since author page)) refl
    where
      go :
          (o : Option Issue)
          → find (is_orphan hub c) (issues_of since author page) ≡ o
          → OrReady c o s
      go none missed =
          subst (λ o. Is issues author u j now c o s × Good now author u c o × (c.state ≡ creating))
            (nothing_filed hub issues author u laws named j now c own page s repo since is good.0
              fits got (few page refl) missed)
            (is, good, at)
      go (some i) hit = (c, own, is, good)

  find_orphaned_issue-Ends :
      (c : Card) (own : List Issue) (s : Site S)
      → Is issues author u j now c own s
      → Good now author u c own
      → c.state ≡ creating
      → IsUncrowded hub j s
      → Ends issues author u j now (OrReady c) (find_orphaned_issue hub author c s)
  unfolding find_orphaned_issue list_issues_since
  find_orphaned_issue-Ends c own s is good at few =
      let (one, repo, since, key, intent, before, fits) =
        subst (λ st. Stage now author st c.repo_key c.intent_at own) at good.1 in
      let listing : Site S → Result (Option (List Issue)) × Site S =
        effect (λ s. (ok (list_issues_since hub repo since author s.hub), s)) in
      let shown : find_orphaned_issue hub author c ≡ (listing >>= adopt_from hub c) =
        simp (key, intent, find_orphaned_issue) in
      let IsAnswer : Option (List Issue) → Site S → Type 0 = λ answer s'.
        Is issues author u j now c own s'
        × (answer ≡ Option.map (issues_of since author) (hub.page repo since per_page s'.hub))
        × ((page : List Payload)
            → hub.page repo since per_page s'.hub ≡ some page
            → length page < per_page) in
      subst (λ m. Ends issues author u j now (OrReady c) (m s)) (sym shown)
        (Ends-bind issues author u j now IsAnswer (OrReady c) (listing s) (adopt_from hub c)
          (effect-Ends issues author u j now IsAnswer
            (λ s. (ok (list_issues_since hub repo since author s.hub), s)) s (c, own, is, good)
            (λ n. (is, refl, λ page. few c repo since page is.0 key intent)))
          (λ answer s' (is', got, few').
            subst (λ o. Ends issues author u j now (OrReady c) (adopt_from hub c o s')) (sym got)
              (adopt_from-Ends c own (hub.page repo since per_page s'.hub) s' repo since is' good at
                fits refl few')))

  abbrev adopted_columns : Issue → List CardColumn
  adopted_columns issue =
      issue_column (some issue.number) ∷ issue_url_column (some issue.url) ∷ reason_column none ∷ []

  resume_with-Kept :
      (c : Card) (found : Option Issue) (s : Site S)
      → c.id ≡ j
      → OrReady c found s
      → Ends issues author u j now
          (λ _. IsSound issues author u j now)
          (resume_with hub now c found s)
  unfolding resume_with
  resume_with-Kept c none s same ready = perform_creation-Kept c s same ready
  resume_with-Kept c (some issue) s same sound =
      then-Kept hub issues author u laws j now
        (commit (
          link_card now c.id (issue_adopted (text_or_empty hub c.repo_key) issue.number)
            (adopted_columns issue)))
        (λ _.
          audit "trello.recovered" c
          >> (reread c >>= λ fresh.
              post_marker_comment hub now fresh
              >> pure (record (said c adopted) { issue_number = some issue.number })))
        (commit-Keeps author u j now issues _ (
          link-RowKeeps hub issues author u laws j now c
            (issue_adopted (text_or_empty hub c.repo_key) issue.number) (adopted_columns issue) same
            (tt, (tt, (tt, tt)))))
        (λ _. audit_then-Kept hub issues author u laws j now "trello.recovered" c _ (
          marked_then hub issues author u laws j now c
            (record (said c adopted) { issue_number = some issue.number }) same))
        s sound

  pub resume_creation-Kept :
      (c : Card) (own : List Issue) (s : Site S)
      → c.id ≡ j
      → Is issues author u j now c own s
      → Good now author u c own
      → c.state ≡ creating
      → IsUncrowded hub j s
      → Ends issues author u j now
          (λ _. IsSound issues author u j now)
          (resume_creation hub now author c s)
  unfolding resume_creation
  resume_creation-Kept c own s same is good at few =
      Ends-bind issues author u j now (OrReady c) (λ _. IsSound issues author u j now)
        (find_orphaned_issue hub author c s) (resume_with hub now c)
        (find_orphaned_issue-Ends c own s is good at few)
        (λ found s' h. resume_with-Kept c found s' same h)
