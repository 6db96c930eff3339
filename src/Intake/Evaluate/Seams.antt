-- ===== src/Intake/Evaluate/Seams.antt =====
-- The invariant of a tracked card across the seams of src/robot_army/intake.py at which the process
-- may be killed, and the rules by which a run keeps it.
use robot_army.Base.{
  ℕ, zero, suc, ◌≤◌, ◌<◌, ◌≡◌, String, str_eq, Bool, true, false, Option, some, List, [], ◌∷◌, ◌++◌,
  All, keep, length, arith, ◌⊎◌,
}
use robot_army.Models.{Card, CardState, card_discovered, needs_info, creating, linked, card_dropped}
use robot_army.Db.{Result, ok, err, get_card_by_id, killed}
use robot_army.Cards.{
  CardColumn, card_state_column, intent_column, repo_column, set_card_column, assign_card,
}
use robot_army.Intake.{
  Body, filed_from, plain, Issue, Payload, issue_payload, per_page, Hub, Site, continue, ◌>>=◌,
  effect, commit, audit,
}

-- An issue that was filed from the card of this URL.
abbrev pub is_filed_from : String → Body → Bool
is_filed_from u (filed_from v _) = str_eq v u
is_filed_from u (plain _) = false

abbrev pub filed : String → List Issue → List Issue
filed u = keep (λ (i : Issue). is_filed_from u i.body)

-- The issue is of the configured author, if one is configured.
abbrev pub IsBy : String → Issue → Type 0
IsBy author i = (author ≡ "") ⊎ (i.author ≡ author)

-- GitHub has at most the one new issue, which is as it was asked for.
abbrev pub Adds : String → String → Body → List Issue → List Issue → Type 0
Adds repo author body before after =
    (after ≡ before)
    ⊎ ((i : Issue) × (after ≡ i ∷ before) × (i.repo ≡ repo) × IsBy author i × (i.body ≡ body))

-- The repository's issues of the author from that time on.
abbrev pub IsListedBy : String → ℕ → String → Issue → Type 0
IsListedBy repo since author i = (i.repo ≡ repo) × (since ≤ i.created_at) × IsBy author i

-- The value is an element of the list.
abbrev pub IsAmong : {A : Type 0} → A → List A → Type 0
IsAmong i [] = ⊥
IsAmong i (x ∷ xs) = (i ≡ x) ⊎ IsAmong i xs

-- What GitHub and Trello document, with the issues that GitHub has: a creation adds the one issue or
-- none, by the author whose token it is; a page that is not full has every issue of the repository from
-- the time on; a comment adds no issue; and a text contains itself.
pub record Documented {S : Type 0} (hub : Hub S) (issues : S → List Issue) (author : String)
    : Type 0 where
  pub create_adds :
      (now : ℕ) (repo title : String) (body : Body) (s : S)
      → Adds repo author body (issues s) (issues (hub.create now repo title body s).1)
  pub page-IsAmong :
      (repo : String) (since size : ℕ) (s : S) (page : List Payload)
      → hub.page repo since size s ≡ some page
      → (i : Issue) → IsAmong i (issues s)
      → i.repo ≡ repo
      → since ≤ i.created_at
      → IsAmong (issue_payload i) page ⊎ (size ≤ length page)
  pub post_keeps :
      (card_id : String) (c : robot_army.Intake.Comment) (s : S)
      → issues (hub.post card_id c s).1 ≡ issues s
  pub in_text_refl : (t : String) → hub.in_text t t ≡ true

-- GitHub's clock is not behind that of the machine: an issue is dated no earlier than its creation was
-- asked for.
abbrev pub IsInStep : {S : Type 0} → Hub S → (S → List Issue) → Type 0
IsInStep {S} hub issues =
    (now : ℕ) (repo title : String) (body : Body) (s : S) (i : Issue)
    → issues (hub.create now repo title body s).1 ≡ i ∷ issues s
    → now ≤ i.created_at

-- Both together.
pub record Faithful {S : Type 0} (hub : Hub S) (issues : S → List Issue) (author : String)
    : Type 0 where
  pub documented : Documented hub issues author
  pub in_step : IsInStep hub issues

-- The page that a resumption of the card asks for is not full: fewer entries of the repository, issues
-- and pull requests, have changed since the intent than one page holds.
abbrev pub IsUncrowded : {S : Type 0} → Hub S → ℕ → Site S → Type 0
IsUncrowded hub j s =
    (c : Card) (repo : String) (since : ℕ) (page : List Payload)
    → get_card_by_id s.world.db j ≡ some c
    → c.repo_key ≡ some repo
    → c.intent_at ≡ some since
    → hub.page repo since per_page s.hub ≡ some page
    → length page < per_page

-- The issues of the card are at most one, and fit the intent of a card that is being filed.
abbrev pub Stage : ℕ → String → CardState → Option String → Option ℕ → List Issue → Type 0
Stage now author card_discovered repo intent own = own ≡ []
Stage now author needs_info repo intent own = own ≡ []
Stage now author creating repo intent own =
    (length own ≤ 1)
    × (r : String) × (t : ℕ) × (repo ≡ some r)
    × (intent ≡ some t)
    × (t ≤ now)
    × All (IsListedBy r t author) own
Stage now author _ repo intent own = length own ≤ 1

-- A column that has no part in the invariant.
abbrev pub IsPlain : CardColumn → Type 0
IsPlain (card_state_column _) = ⊥
IsPlain (intent_column _) = ⊥
IsPlain (repo_column _) = ⊥
IsPlain _ = Unit

abbrev pub Good : ℕ → String → String → Card → List Issue → Type 0
Good now author u card own =
    (card.card_url ≡ u) × Stage now author card.state card.repo_key card.intent_at own

set_card_column-Good :
    (now : ℕ) (author u : String) (r : Card) (own : List Issue) (c : CardColumn)
    → IsPlain c
    → Good now author u r own
    → Good now author u (set_card_column r c) own
unfolding set_card_column
set_card_column-Good now author u r own (card_state_column _) p h = absurd p
set_card_column-Good now author u r own (intent_column _) p h = absurd p
set_card_column-Good now author u r own (repo_column _) p h = absurd p
set_card_column-Good now author u r own c p h = h

pub assign_card-Good :
    (now : ℕ) (author u : String) (r : Card) (own : List Issue) (cs : List CardColumn)
    → All IsPlain cs
    → Good now author u r own
    → Good now author u (assign_card cs r) own
unfolding assign_card
assign_card-Good now author u r own [] p h = h
assign_card-Good now author u r own (c ∷ cs) p h =
    assign_card-Good now author u (set_card_column r c) own cs p.1
      (set_card_column-Good now author u r own c p.0 h)

pub append-IsPlain :
    (cs ds : List CardColumn) → All IsPlain cs → All IsPlain ds → All IsPlain (cs ++ ds)
append-IsPlain [] ds h k = k
append-IsPlain (c ∷ cs) ds h k = (h.0, append-IsPlain cs ds h.1 k)

pub Stage-length :
    (now : ℕ) (author : String) (st : CardState) (repo : Option String) (intent : Option ℕ)
    (own : List Issue)
    → Stage now author st repo intent own
    → length own ≤ 1
Stage-length now author card_discovered repo intent own h = rw h (omega arith)
Stage-length now author needs_info repo intent own h = rw h (omega arith)
Stage-length now author creating repo intent own h = h.0
Stage-length now author linked repo intent own h = h
Stage-length now author card_dropped repo intent own h = h

pub Stage-later :
    (now later : ℕ) (author : String) (st : CardState) (repo : Option String) (intent : Option ℕ)
    (own : List Issue)
    → now ≤ later
    → Stage now author st repo intent own
    → Stage later author st repo intent own
Stage-later now later author card_discovered repo intent own le h = h
Stage-later now later author needs_info repo intent own le h = h
Stage-later now later author creating repo intent own le (one, r, t, eq, at, before, fits) =
    (one, r, t, eq, at, omega (arith, le, before), fits)
Stage-later now later author linked repo intent own le h = h
Stage-later now later author card_dropped repo intent own le h = h

module _ {S : Type 0} (issues : S → List Issue) (author u : String) (j now : ℕ) where
  -- The row of the card, and the issues that were filed from it.
  abbrev pub Is : Card → List Issue → Site S → Type 0
  Is card own s = (get_card_by_id s.world.db j ≡ some card) × (filed u (issues s.hub) ≡ own)

  abbrev pub IsSound : Site S → Type 0
  IsSound s = (card : Card) × (own : List Issue) × Is card own s × Good now author u card own

  -- What holds of a value and its state; an error leaves the invariant.
  abbrev pub Ends : {A : Type 0} → (A → Site S → Type 0) → Result A × Site S → Type 0
  Ends Q (ok a, s) = Q a s
  Ends Q (err e, s) = IsSound s

  pub Ends-bind :
      {A B : Type 0} (Q : A → Site S → Type 0) (R : B → Site S → Type 0) (r : Result A × Site S)
      (f : A → Site S → Result B × Site S)
      → Ends Q r
      → ((a : A) (s : Site S) → Q a s → Ends R (f a s))
      → Ends R (continue r.0 f r.1)
  Ends-bind Q R (ok a, s) f h k = k a s h
  Ends-bind Q R (err e, s) f h k = h

  abbrev pub Keeps : {A : Type 0} → (Site S → Result A × Site S) → Type 0
  Keeps m = (s : Site S) → IsSound s → Ends (λ _. IsSound) (m s)

  pub Keeps-bind :
      {A B : Type 0} (m : Site S → Result A × Site S) (f : A → Site S → Result B × Site S)
      → Keeps m
      → ((a : A) → Keeps (f a))
      → Keeps (m >>= f)
  Keeps-bind m f h k s sound = Ends-bind (λ _. IsSound) (λ _. IsSound) (m s) f (h s sound) k

  pub effect-Ends :
      {A : Type 0} (Q : A → Site S → Type 0) (m : Site S → Result A × Site S) (s : Site S)
      → IsSound s
      → ((n : ℕ) → Ends Q (m (record s { budget = n })))
      → Ends Q (effect m s)
  unfolding effect
  effect-Ends Q m s sound k = go s.budget
    where
      go :
          (b : ℕ) → Ends Q (elim b [ zero ↦ (err killed, s) | suc n ↦ m (record s { budget = n }) ])
      go zero = sound
      go (suc n) = k n

  pub either-Ends :
      {A : Type 0} (r : Result A) (s : Site S) → IsSound s → Ends (λ (_ : A). IsSound) (r, s)
  either-Ends (ok a) s h = h
  either-Ends (err e) s h = h

  pub effect-Keeps : {A : Type 0} (m : Site S → Result A × Site S) → Keeps m → Keeps (effect m)
  effect-Keeps m h s sound =
      effect-Ends (λ _. IsSound) m s sound (λ n. h (record s { budget = n }) sound)

  pub audit-Keeps : (action : String) (card : Card) → Keeps (audit action card)
  unfolding audit
  audit-Keeps action card s sound = sound

  pub after-IsSound :
      {A : Type 0} (r : Result A × Site S) → Ends (λ (_ : A). IsSound) r → IsSound r.1
  after-IsSound (ok a, s) h = h
  after-IsSound (err e, s) h = h
