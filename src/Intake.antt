-- ===== src/Intake.antt =====
-- src/robot_army/intake.py: the life of one tracked card, from its evaluation to its issue. GitHub and
-- Trello are a state that the calls of a `Hub` read and change; the process may be killed at any seam.
pub mod Filing
pub mod Evaluate
pub mod Resolve
use mathlib.Core.Option
use robot_army.Base.{
  ℕ, zero, suc, ◌+◌, ◌==◌, leb, ltb, String, str_eq, Bool, true, false, not, ◌&&◌, ◌||◌, Option,
  none, some, List, [], ◌∷◌, any, find, if◌then◌else◌,
}
use robot_army.Models.{Card, CardState, linked, Reason}
use robot_army.Db.{
  World, Db, Result, ok, err, Error, transaction, note, killed, integrity_error, get_card_by_id,
}
use robot_army.Cards.{CardColumn, transition_card}

-- What `compose_issue` makes of a card: its URL and its description, quoted; or another text.
pub data Body : Type 0 where
  filed_from : String → String → Body
  plain : String → Body

pub record Issue : Type 0 where
  pub repo : String
  pub number : ℕ
  pub url : String
  pub author : String
  pub created_at : ℕ
  pub body : Body

-- An entry of a listing of the issues endpoint, which returns pull requests too.
pub data Payload : Type 0 where
  issue_payload : Issue → Payload
  pull_payload : Payload

-- The loop of `list_issues_since` over one response. An unset author filters nothing.
unfoldable pub issues_of : ℕ → String → List Payload → List Issue
issues_of since author [] = []
issues_of since author (pull_payload ∷ rest) = issues_of since author rest
issues_of since author (issue_payload i ∷ rest) =
    let found = issues_of since author rest in
    if not (str_eq author "") && not (str_eq i.author author)
    then found
    else if ltb i.created_at since
    then found
    else i ∷ found

-- `min(limit, 100)`, with the limit that no caller gives.
abbrev pub per_page : ℕ
per_page = 100

-- A comment of a card: our marker with the issue's URL, or another text.
pub data Comment : Type 0 where
  marker : String → Comment
  remark : Reason → Comment
  other_comment : String → Comment

-- The calls of the boundaries. `create` and `post` raise by `none`, and may have had their effect all
-- the same; `page` and `comments` raise by `none`. `page` answers `GET /repos/…/issues` with what has
-- changed since a time, sorted by creation, newest first: one page of at most so many entries.
-- `post` answers with the new activity stamp.
-- `in_text` is Python's `in` on texts, and `split_url` the match of `_ISSUE_URL`.
pub record Hub (S : Type 0) : Type 0 where
  pub create : ℕ → String → String → Body → S → Option Issue × S
  pub page : String → ℕ → ℕ → S → Option (List Payload)
  pub comments : String → S → Option (List Comment)
  pub post : String → Comment → S → Option (Option String) × S
  pub in_text : String → String → Bool
  pub split_url : String → Option (String × ℕ)

-- `list_issues_since`, with one request and no further page.
unfoldable pub list_issues_since :
    {S : Type 0} → Hub S → String → ℕ → String → S → Option (List Issue)
unfolding issues_of
list_issues_since hub repo since author s =
    Option.map (issues_of since author) (hub.page repo since per_page s)

-- The tables and the log, GitHub and Trello, and how many more effects the process lives for.
pub record Site (S : Type 0) : Type 0 where
  pub world : World
  pub hub : S
  pub budget : ℕ

abbrev pub Run : Type 0 → Type 0 → Type 0
Run S A = Site S → Result A × Site S

module _ {S A B : Type 0} where
  abbrev pub continue : Result A → (A → Site S → Result B × Site S) → Site S → Result B × Site S
  continue (ok a) f s = f a s
  continue (err e) f s = (err e, s)

module _ {S A B : Type 0} where
  infixl 5 ◌>>=◌ ◌>>◌
  abbrev pub ◌>>=◌ :
      (Site S → Result A × Site S) → (A → Site S → Result B × Site S) → Site S → Result B × Site S
  ◌>>=◌ m f s = continue (m s).0 f (m s).1

  abbrev pub ◌>>◌ :
      (Site S → Result A × Site S) → (Site S → Result B × Site S) → Site S → Result B × Site S
  m >> n = m >>= λ _. n

abbrev pub pure : {S A : Type 0} → A → Site S → Result A × Site S
pure a s = (ok a, s)

abbrev pub raise : {S A : Type 0} → Error → Site S → Result A × Site S
raise e s = (err e, s)

-- One effect outside the process, unless it has been killed by then.
unfoldable pub effect : {S A : Type 0} → (Site S → Result A × Site S) → Site S → Result A × Site S
effect m s = elim s.budget [ zero ↦ (err killed, s) | suc n ↦ m (record s { budget = n }) ]

-- `with db.transaction(conn): m`.
unfoldable pub commit : {S A : Type 0} → (World → Result A × World) → Site S → Result A × Site S
unfolding effect transaction
commit m = effect (λ s. ((transaction m s.world).0, record s { world = (transaction m s.world).1 }))

-- `try:` a commit and hand its outcome on; a process that is killed hands nothing on.
unfoldable pub attempt :
    {S A B : Type 0}
    → (World → Result A × World)
    → (Result A → Site S → Result B × Site S)
    → Site S
    → Result B × Site S
unfolding effect transaction
attempt m f =
    effect (λ s. f (transaction m s.world).0 (record s { world = (transaction m s.world).1 }))

unfoldable pub audit : {S : Type 0} → String → Card → Site S → Result (Unit {0}) × Site S
audit action card s = (
  ok tt,
  record s { world = record s.world { log = note action (some card.card_id) ∷ s.world.log } },
)

-- The row is read again, as it is known to be there.
unfoldable pub reread : {S : Type 0} → Card → Site S → Result Card × Site S
reread card s = elim (get_card_by_id s.world.db card.id) [
  | none ↦ (err Error.type_error, s)
  | some c ↦ (ok c, s)
]

abbrev same_flag : Bool → Bool → Bool
same_flag true b = b
same_flag false b = not b

abbrev same_repo : Option String → Option String → Bool
same_repo (some a) (some b) = str_eq a b
same_repo _ _ = false

abbrev same_number : Option ℕ → Option ℕ → Bool
same_number (some a) (some b) = a == b
same_number _ _ = false

-- `idx_cards_issue`: the issue number of a repository belongs to one card for each rehearsal flag.
unfoldable pub clash : Card → Card → Bool
clash c other =
    not (other.id == c.id)
    && (same_repo c.repo_key other.repo_key
        && (same_number c.issue_number other.issue_number && same_flag c.dry_run other.dry_run))

abbrev pub claims_taken : Option Card → List Card → Bool
claims_taken none cards = false
claims_taken (some c) cards = any (clash c) cards

-- What the transition came to, unless the unique index refuses its UPDATE.
abbrev pub if_unclaimed : ℕ → World → Result CardState × World → Result (Unit {0}) × World
if_unclaimed j w (err e, w') = (err e, w')
if_unclaimed j w (ok _, w') =
    if claims_taken (get_card_by_id w'.db j) w'.db.cards
    then (err integrity_error, w)
    else (ok tt, w')

-- The transition to `linked`.
unfoldable pub link_card : ℕ → ℕ → Reason → List CardColumn → World → Result (Unit {0}) × World
unfolding clash
link_card now j reason extra w = if_unclaimed j w (transition_card now j linked reason extra w)
