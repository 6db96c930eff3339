-- ===== src/Intake/Evaluate/Filed.antt =====
-- Each step of src/robot_army/intake.py that files or finds the issue of a card keeps the invariant.
use robot_army.Base.{
  ℕ, ◌+◌, leb, ◌≡◌, sym, ap, ◌∙◌, subst, String, str_eq, Bool, Option, none, some, List, [], ◌∷◌,
  ◌++◌, All, any, inl, inr, Bool-cases, Option-cases,
}
use robot_army.Models.{Card, Reason, issue_created, not_created}
use robot_army.Db.{World, Result, ok, err, integrity_error, get_card_by_id}
use robot_army.Db.Anomalies.{raise_anomaly, open_under}
use robot_army.Cards.{
  CardColumn, reason_column, issue_column, failures_column, posted_column, issue_url_column,
}
use robot_army.Cards.Gate.{id-get_card_by_id}
use robot_army.Intake.{
  Issue, Comment, marker, Hub, Site, ◌>>=◌, ◌>>◌, pure, commit, audit, reread, link_card,
}
use robot_army.Intake.Filing.{
  Verdict, said, comment_posted, comment_already_present, created, create_failed,
  create_anomaly_threshold, update_card_columns, failure_anomaly, record_create_failure, is_marker,
  deferred, text_or_empty, activity_entry, record_write, send_comment, after_marker, mark,
  read_comments, post_marker_comment, settle_link, link_created,
}
use robot_army.Intake.Evaluate.Seams.{
  append-IsPlain, filed, Faithful, IsPlain, Keeps, Keeps-bind, effect-Keeps, audit-Keeps,
}
use robot_army.Intake.Evaluate.Moves.{
  update_card_columns-RowKeeps, RowIs, OnOk, RowKeeps, link_card-RowKeeps, commit-Keeps,
  attempt-Keeps,
}

module _ {S : Type 0} (hub : Hub S) (issues : S → List Issue) (author u : String)
    (laws : Faithful hub issues author) (j now : ℕ) where
  abbrev pub Kept : {A : Type 0} → (Site S → Result A × Site S) → Type 0
  Kept m = Keeps issues author u j now m

  pub pure-Kept : {A : Type 0} (a : A) → Kept (pure a)
  pure-Kept a s h = h

  pub then-Kept :
      {A B : Type 0} (m : Site S → Result A × Site S) (f : A → Site S → Result B × Site S)
      → Kept m
      → ((a : A) → Kept (f a))
      → Kept (m >>= f)
  then-Kept = Keeps-bind issues author u j now

  pub audit_then-Kept :
      {B : Type 0} (action : String) (c : Card) (m : Site S → Result B × Site S)
      → Kept m
      → Kept (audit action c >> m)
  audit_then-Kept action c m h =
      then-Kept (audit action c) (λ _. m) (audit-Keeps issues author u j now action c) (λ _. h)

  pub update-Kept :
      (c : Card) (cs : List CardColumn)
      → c.id ≡ j
      → All IsPlain cs
      → Kept (commit (update_card_columns now c cs))
  update-Kept c cs same plain' =
      commit-Keeps author u j now issues (update_card_columns now c cs)
        (update_card_columns-RowKeeps author u j now now c cs same plain')

  pub read_comments-Kept : (c : Card) → Kept (read_comments hub c)
  unfolding read_comments
  read_comments-Kept c =
      effect-Keeps issues author u j now (λ s. (ok (hub.comments c.card_id s.hub), s)) (λ s h. h)

  pub send_comment-Kept : (c : Card) (comment : Comment) → Kept (send_comment hub c comment)
  unfolding send_comment
  send_comment-Kept c comment =
      effect-Keeps issues author u j now
        (λ s. (
          ok (hub.post c.card_id comment s.hub).0,
          record s { hub = (hub.post c.card_id comment s.hub).1 },
        ))
        (λ s (card, own, is, good). (
          card,
          own,
          (is.0, ap (filed u) (laws.documented.post_keeps c.card_id comment s.hub) ∙ is.1),
          good,
        ))

  activity-IsPlain : (activity : Option String) → All IsPlain (activity_entry hub activity)
  activity-IsPlain none = tt
  activity-IsPlain (some t) = elim (Bool-cases (str_eq t "")) [
    | inl empty' ↦ rw empty' tt
    | inr full' ↦ rw full' (tt, tt)
  ]

  pub record_write-Kept :
      (c : Card) (activity : Option String) (cs : List CardColumn)
      → c.id ≡ j
      → All IsPlain cs
      → Kept (commit (record_write hub now c activity cs))
  unfolding record_write
  record_write-Kept c activity cs same plain' =
      update-Kept c (cs ++ activity_entry hub activity) same
        (append-IsPlain cs (activity_entry hub activity) plain' (activity-IsPlain activity))

  deferred-Kept : (c : Card) → Kept (deferred hub c)
  unfolding deferred audit
  deferred-Kept c s h = h

  after_marker-Kept :
      (c : Card) (sent : Option (Option String)) → c.id ≡ j → Kept (after_marker hub now c sent)
  unfolding after_marker
  after_marker-Kept c none same = deferred-Kept c
  after_marker-Kept c (some activity) same =
      then-Kept (commit (record_write hub now c activity (posted_column (some now) ∷ [])))
        (λ _. pure (said c comment_posted))
        (record_write-Kept c activity (posted_column (some now) ∷ []) same (tt, tt)) (λ _ s h. h)

  mark-Kept :
      (c : Card) (comments : Option (List Comment)) → c.id ≡ j → Kept (mark hub now c comments)
  unfolding mark
  mark-Kept c none same = deferred-Kept c
  mark-Kept c (some comments) same = elim (Bool-cases (any (is_marker hub) comments)) [
    | inl seen' ↦
        rw (seen', mark)
          (then-Kept (commit (update_card_columns now c (posted_column (some now) ∷ [])))
            (λ _. audit "trello.recovered" c >> pure (said c comment_already_present))
            (update-Kept c (posted_column (some now) ∷ []) same (tt, tt))
            (λ _ s h. unfold audit in h))
    | inr unseen' ↦
        rw (unseen', mark)
          (then-Kept (send_comment hub c (marker (text_or_empty hub c.issue_url)))
            (λ sent. after_marker hub now c sent)
            (send_comment-Kept c (marker (text_or_empty hub c.issue_url)))
            (λ sent. after_marker-Kept c sent same))
  ]

  pub post_marker_comment-Kept : (c : Card) → c.id ≡ j → Kept (post_marker_comment hub now c)
  unfolding post_marker_comment
  post_marker_comment-Kept c same = elim (Option-cases c.comment_posted_at) [
    | inl unposted' ↦
        rw (unposted', post_marker_comment)
          (then-Kept (read_comments hub c) (λ comments. mark hub now c comments)
            (read_comments-Kept c) (λ comments. mark-Kept c comments same))
    | inr (t, posted') ↦ rw (posted', post_marker_comment) (λ s h. h)
  ]

  -- The row read again is the card's.
  pub reread_then :
      {A : Type 0} (c : Card) (f : Card → Site S → Result A × Site S)
      → c.id ≡ j
      → ((fresh : Card) → fresh.id ≡ j → Kept (f fresh))
      → Kept (reread c >>= f)
  unfolding reread
  reread_then c f same h s sound = elim (Option-cases (get_card_by_id s.world.db c.id)) [
    | inl gone' ↦ rw (gone', reread) sound
    | inr (fresh, found') ↦
        rw (found', reread)
          (h fresh (id-get_card_by_id s.world.db c.id fresh found' ∙ same) s sound)
  ]

  raised-RowIs :
      (kind : String) (detail : Reason) (entity_type entity_id : Option String) (dry_run : Bool)
      (w : World) (own : List Issue)
      → RowIs author u j now w own
      → RowIs author u j now (raise_anomaly now kind detail entity_type entity_id dry_run w).1 own
  unfolding raise_anomaly get_card_by_id
  raised-RowIs kind detail entity_type entity_id dry_run w own row =
      elim (Bool-cases (any (open_under kind entity_type entity_id dry_run) w.db.anomalies)) [
        | inl open' ↦ rw (open', raise_anomaly) row
        | inr none' ↦ rw (none', raise_anomaly) row
      ]

  failure_anomaly-OnOk :
      (c : Card) (failures : ℕ) (reason : Reason) (w : World) (own : List Issue)
      → RowIs author u j now w own
      → OnOk author u j now own (failure_anomaly hub now c failures reason w)
  unfolding failure_anomaly
  failure_anomaly-OnOk c failures reason w own row =
      elim (Bool-cases (leb create_anomaly_threshold failures)) [
        | inl many' ↦
            rw (many', failure_anomaly)
              (raised-RowIs "card_create_failing" reason (some "card") (some c.card_id) c.dry_run w
                own row)
        | inr few' ↦ rw (few', failure_anomaly) row
      ]

  failure-RowKeeps :
      (c : Card) (failures : ℕ) (reason : Reason)
      → c.id ≡ j
      → RowKeeps author u j now (λ w.
        failure_anomaly hub now c failures reason
          (update_card_columns now c
            (reason_column (some reason) ∷ failures_column failures ∷ [])
            w).1)
  unfolding update_card_columns
  failure-RowKeeps c failures reason same w own row =
      failure_anomaly-OnOk c failures reason
        (update_card_columns now c (reason_column (some reason) ∷ failures_column failures ∷ [])
          w).1
        own
        (update_card_columns-RowKeeps author u j now now c
          (reason_column (some reason) ∷ failures_column failures ∷ []) same (tt, (tt, tt)) w own
          row)

  pub record_create_failure-Kept : (c : Card) → c.id ≡ j → Kept (record_create_failure hub now c)
  unfolding record_create_failure
  record_create_failure-Kept c same =
      then-Kept
        (commit (λ w.
          failure_anomaly hub now c (c.create_failures + 1) (not_created c.repo_key)
            (update_card_columns now c
              (reason_column (some (not_created c.repo_key))
                ∷ failures_column (c.create_failures + 1)
                ∷ [])
              w).1))
        (λ _.
          audit "trello.issue.create" c
          >> pure (record (said c create_failed) {
            issue_number = none;
            reason = some (not_created c.repo_key);
          }))
        (commit-Keeps author u j now issues _
          (failure-RowKeeps c (c.create_failures + 1) (not_created c.repo_key) same))
        (λ _ s h. unfold audit in h)

  pub marked_then :
      (c : Card) (verdict : Verdict)
      → c.id ≡ j
      → Kept (reread c >>= λ fresh. post_marker_comment hub now fresh >> pure verdict)
  marked_then c verdict same =
      reread_then c (λ fresh. post_marker_comment hub now fresh >> pure verdict) same
        (λ fresh is.
          then-Kept (post_marker_comment hub now fresh) (λ _. pure verdict)
            (post_marker_comment-Kept fresh is) (λ _ s h. h))

  settle_link-Kept :
      (c : Card) (issue : Issue) (r : Result (Unit {0}))
      → c.id ≡ j
      → Kept (settle_link hub now c issue r)
  settle_link-Kept c issue (ok tt) same =
      marked_then c (record (said c created) { issue_number = some issue.number }) same
  settle_link-Kept c issue (err integrity_error) same = record_create_failure-Kept c same
  settle_link-Kept c issue (err e) same = λ s h. h

  pub link-RowKeeps :
      (c : Card) (reason : Reason) (extra : List CardColumn)
      → c.id ≡ j
      → All IsPlain extra
      → RowKeeps author u j now (link_card now c.id reason extra)
  link-RowKeeps c reason extra same plain' =
      subst (λ k. RowKeeps author u j now (link_card now k reason extra)) (sym same)
        (link_card-RowKeeps author u j now reason extra plain')

  abbrev linked_columns : Issue → List CardColumn
  linked_columns issue =
      issue_column (some issue.number)
      ∷ issue_url_column (some issue.url)
      ∷ reason_column none
      ∷ failures_column 0
      ∷ []

  pub link_created-Kept :
      (c : Card) (issue : Option Issue) → c.id ≡ j → Kept (link_created hub now c issue)
  unfolding link_created
  link_created-Kept c none same = record_create_failure-Kept c same
  link_created-Kept c (some issue) same =
      attempt-Keeps author u j now issues
        (link_card now c.id (issue_created (text_or_empty hub c.repo_key) issue.number)
          (linked_columns issue))
        (settle_link hub now c issue)
        (link-RowKeeps c (issue_created (text_or_empty hub c.repo_key) issue.number)
          (linked_columns issue) same (tt, (tt, (tt, (tt, tt)))))
        (λ r. settle_link-Kept c issue r same)
