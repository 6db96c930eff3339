-- ===== src/Intake/Filing.antt =====
-- The issue of a card, in the seams of src/robot_army/intake.py: `_perform_creation`,
-- `_resume_creation`, `_restore_from_marker`, `_post_marker_comment` and what they call.
use robot_army.Base.{
  ℕ, ◌+◌, leb, String, str_eq, Bool, false, not, ◌&&◌, ◌||◌, Option, none, some, List, [], ◌∷◌,
  ◌++◌, any, find, if◌then◌else◌,
}
use robot_army.Models.{
  Card, CardState, creating, Reason, not_created, resolved_to, issue_created, issue_adopted,
  marker_names, text,
}
use robot_army.Db.{World, Result, ok, err, integrity_error, transport_error}
use robot_army.Db.Anomalies.{raise_anomaly}
use robot_army.Cards.{
  CardColumn, transition_card, update_cards, card_updated_column, reason_column, repo_column,
  issue_column, failures_column, posted_column, issue_url_column, activity_column,
}
use robot_army.Intake.{
  Body, filed_from, plain, Issue, Comment, marker, Hub, Site, ◌>>=◌, ◌>>◌, pure, raise, effect,
  commit, attempt, audit, reread, link_card, list_issues_since,
}

pub data Action : Type 0 where
  already_linked dropped ignored unchanged held held_and_commented created adopted restored
        create_failed :
      Action
  comment_posted comment_already_present comment_deferred : Action

pub record Verdict : Type 0 where
  pub card_id : String
  pub action : Action
  pub repo_key : Option String
  pub issue_number : Option ℕ
  pub reason : Option Reason

abbrev pub said : Card → Action → Verdict
said card action = record {
  card_id = card.card_id;
  action = action;
  repo_key = card.repo_key;
  issue_number = card.issue_number;
  reason = none;
}

abbrev pub create_anomaly_threshold : ℕ
create_anomaly_threshold = 3

-- `update_card_columns`, which stamps the row.
unfoldable pub update_card_columns : ℕ → Card → List CardColumn → World → Result (Unit {0}) × World
update_card_columns now card columns w =
    (ok tt, update_cards card.id (columns ++ card_updated_column now ∷ []) w)

module _ {S : Type 0} (hub : Hub S) where
  -- Whether the text of an issue holds the card's URL.
  unfoldable pub mentions : String → Body → Bool
  mentions card_url (filed_from u quoted) = hub.in_text card_url u || hub.in_text card_url quoted
  mentions card_url (plain t) = hub.in_text card_url t

  unfoldable pub failure_anomaly : ℕ → Card → ℕ → Reason → World → Result (Unit {0}) × World
  failure_anomaly now card failures reason w =
      if leb create_anomaly_threshold failures
      then (
        ok tt,
        (raise_anomaly now "card_create_failing" reason (some "card") (some card.card_id)
            card.dry_run w).1,
      )
      else (ok tt, w)

  unfoldable pub record_create_failure : ℕ → Card → Site S → Result Verdict × Site S
  unfolding failure_anomaly update_card_columns
  record_create_failure now card = do
    let failures = card.create_failures + 1
    let reason = not_created card.repo_key
    commit (λ w.
        failure_anomaly now card failures reason
          (update_card_columns now card
            (reason_column (some reason) ∷ failures_column failures ∷ []) w).1)
    audit "trello.issue.create" card
    pure (record (said card create_failed) { issue_number = none; reason = some reason })

  abbrev pub is_marker : Comment → Bool
  is_marker (marker url) = not (str_eq url "")
  is_marker _ = false

  -- A raised call is logged and the comment waits for the next pass.
  unfoldable pub deferred : Card → Site S → Result Verdict × Site S
  deferred card = do audit "trello.card.comment" card; pure (said card comment_deferred)

  abbrev pub text_or_empty : Option String → String
  text_or_empty none = ""
  text_or_empty (some t) = t

  abbrev pub activity_entry : Option String → List CardColumn
  activity_entry none = []
  activity_entry (some t) = if str_eq t "" then [] else activity_column (some t) ∷ []

  -- `_record_write`.
  unfoldable pub record_write :
      ℕ → Card → Option String → List CardColumn → World → Result (Unit {0}) × World
  record_write now card activity columns =
      update_card_columns now card (columns ++ activity_entry activity)

  -- What `writer.comment` does, and `none` where it raises.
  unfoldable pub send_comment : Card → Comment → Site S → Result (Option (Option String)) × Site S
  send_comment card comment = effect (λ s. (
    ok (hub.post card.card_id comment s.hub).0,
    record s { hub = (hub.post card.card_id comment s.hub).1 },
  ))

  unfoldable pub after_marker : ℕ → Card → Option (Option String) → Site S → Result Verdict × Site S
  unfolding deferred record_write
  after_marker now card none = deferred card
  after_marker now card (some activity) = do
    commit (record_write now card activity (posted_column (some now) ∷ []))
    pure (said card comment_posted)

  unfoldable pub mark : ℕ → Card → Option (List Comment) → Site S → Result Verdict × Site S
  unfolding deferred after_marker send_comment update_card_columns
  mark now card none = deferred card
  mark now card (some comments) =
      if any is_marker comments
      then (do
        commit (update_card_columns now card (posted_column (some now) ∷ []))
        audit "trello.recovered" card
        pure (said card comment_already_present))
      else (do
        sent ← send_comment card (marker (text_or_empty card.issue_url))
        after_marker now card sent)

  -- The comments of a card, and `none` where the call raises.
  unfoldable pub read_comments : Card → Site S → Result (Option (List Comment)) × Site S
  read_comments card = effect (λ s. (ok (hub.comments card.card_id s.hub), s))

  unfoldable pub post_marker_comment : ℕ → Card → Site S → Result Verdict × Site S
  unfolding mark read_comments
  post_marker_comment now card = elim card.comment_posted_at [
    | some _ ↦ pure (said card already_linked)
    | none ↦ do comments ← read_comments card; mark now card comments
  ]

  -- A refused mapping is a failure like another; every other error goes on.
  abbrev pub settle_link : ℕ → Card → Issue → Result (Unit {0}) → Site S → Result Verdict × Site S
  settle_link now card issue (err integrity_error) = record_create_failure now card
  settle_link now card issue (err e) = raise e
  settle_link now card issue (ok _) = do
    fresh ← reread card
    post_marker_comment now fresh
    pure (record (said card created) { issue_number = some issue.number })

  unfoldable pub link_created : ℕ → Card → Option Issue → Site S → Result Verdict × Site S
  unfolding attempt record_create_failure reread post_marker_comment
  link_created now card none = record_create_failure now card
  link_created now card (some issue) =
      attempt
        (link_card now card.id (issue_created (text_or_empty card.repo_key) issue.number) (
          issue_column (some issue.number)
          ∷ issue_url_column (some issue.url)
          ∷ reason_column none
          ∷ failures_column 0
          ∷ []))
        (settle_link now card issue)

  -- `issue_writer.create_issue`, which raises for a row without a repository.
  unfoldable pub create_issue : ℕ → Card → Site S → Result (Option Issue) × Site S
  create_issue now card = elim card.repo_key [
    | none ↦ pure none
    | some repo ↦ effect (λ s. (
      ok (hub.create now repo card.title (filed_from card.card_url card.body) s.hub).0,
      record s {
        hub = (hub.create now repo card.title (filed_from card.card_url card.body) s.hub).1;
      },
    ))
  ]

  unfoldable pub perform_creation : ℕ → Card → Site S → Result Verdict × Site S
  unfolding create_issue link_created
  perform_creation now card = do issue ← create_issue now card; link_created now card issue

  unfoldable pub create_issue_for_card : ℕ → Card → String → Site S → Result Verdict × Site S
  create_issue_for_card now card repo = do
    commit (
        transition_card now card.id creating (resolved_to repo)
          (repo_column (some repo) ∷ reason_column none ∷ []))
    fresh ← reread card
    perform_creation now fresh

  -- The first listed issue that mentions the card; a call that raises goes on raising.
  unfoldable pub adopt_from : Card → Option (List Issue) → Site S → Result (Option Issue) × Site S
  unfolding mentions
  adopt_from card none = do audit "trello.recovered" card; raise transport_error
  adopt_from card (some issues) =
      pure (find (λ i. not (str_eq card.card_url "") && mentions card.card_url i.body) issues)

  unfoldable pub find_orphaned_issue : String → Card → Site S → Result (Option Issue) × Site S
  unfolding adopt_from list_issues_since
  find_orphaned_issue author card = elim card.repo_key [
    | none ↦ pure none
    | some repo ↦ elim card.intent_at [
      | none ↦ pure none
      | some since ↦ do
        issues ← effect (λ s. (ok (list_issues_since hub repo since author s.hub), s))
        adopt_from card issues
    ]
  ]

  unfoldable pub resume_with : ℕ → Card → Option Issue → Site S → Result Verdict × Site S
  unfolding perform_creation
  resume_with now card none = perform_creation now card
  resume_with now card (some issue) = do
    commit (
        link_card now card.id (issue_adopted (text_or_empty card.repo_key) issue.number) (
          issue_column (some issue.number)
          ∷ issue_url_column (some issue.url)
          ∷ reason_column none
          ∷ []))
    audit "trello.recovered" card
    fresh ← reread card
    post_marker_comment now fresh
    pure (record (said card adopted) { issue_number = some issue.number })

  unfoldable pub resume_creation : ℕ → String → Card → Site S → Result Verdict × Site S
  unfolding resume_with find_orphaned_issue
  resume_creation now author card = do
    issue ← find_orphaned_issue author card
    resume_with now card issue

  -- The issue that a comment names, if it is a marker whose URL can be read.
  unfoldable pub named_issue : Comment → Option (String × ℕ × String)
  named_issue (marker url) = elim (hub.split_url url) [
    | none ↦ none
    | some (repo, number) ↦ some (repo, number, url)
  ]
  named_issue _ = none

  unfoldable pub first_named : List Comment → Option (String × ℕ × String)
  first_named [] = none
  first_named (c ∷ cs) = elim (named_issue c) [ none ↦ first_named cs | some n ↦ some n ]

  abbrev pub and_then :
      (World → Result (Unit {0}) × World) → Result CardState × World → Result (Unit {0}) × World
  and_then m (err e, w) = (err e, w)
  and_then m (ok _, w) = m w

  -- Both transitions stand in one transaction.
  unfoldable pub restore_mapping :
      ℕ → Card → String → ℕ → String → World → Result (Unit {0}) × World
  restore_mapping now card repo number url w =
      and_then
        (link_card now card.id (marker_names repo number) (
          issue_column (some number)
          ∷ issue_url_column (some url)
          ∷ posted_column (some now)
          ∷ reason_column none
          ∷ []))
        (transition_card now card.id creating (text "restoring a mapping")
          (repo_column (some repo) ∷ []) w)

  unfoldable pub restore_with :
      ℕ → Card → Option (String × ℕ × String) → Site S → Result (Option Verdict) × Site S
  unfolding restore_mapping
  restore_with now card none = pure none
  restore_with now card (some (repo, number, url)) = do
    commit (restore_mapping now card repo number url)
    audit "trello.recovered" card
    pure (some (record (said card restored) { repo_key = some repo; issue_number = some number }))

  unfoldable pub restore_read :
      ℕ → Card → Option (List Comment) → Site S → Result (Option Verdict) × Site S
  unfolding restore_with first_named
  restore_read now card none = do audit "trello.recovered" card; raise transport_error
  restore_read now card (some comments) = restore_with now card (first_named comments)

  unfoldable pub restore_from_marker : ℕ → Card → Site S → Result (Option Verdict) × Site S
  unfolding restore_read read_comments
  restore_from_marker now card = do comments ← read_comments card; restore_read now card comments
