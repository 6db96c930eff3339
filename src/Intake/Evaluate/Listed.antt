-- ===== src/Intake/Evaluate/Listed.antt =====
-- What a resumption learns from the listing of boundaries/github.py: a page that is not full and has no
-- mention of the card shows that none of its issues is on GitHub.
use robot_army.Base.{
  ltb, length, ◌<◌, ◌≤◌, ◌⊎◌, ℕ, ◌≡◌, refl, sym, ◌∙◌, subst, String, str_eq, eq_iff, Bool, true,
  false, not, ◌&&◌, none, some, List, [], ◌∷◌, All, find, arith, inl, inr, Bool-cases,
}
use robot_army.Models.{Card}
use robot_army.Intake.{
  Body, filed_from, plain, Issue, Payload, issue_payload, pull_payload, issues_of, per_page, Hub,
  Site,
}
use robot_army.Intake.Filing.{mentions}
use robot_army.Intake.Evaluate.Seams.{is_filed_from, filed, IsListedBy, IsAmong, IsBy, Faithful, Is}

-- The test of the resumption for an issue of the card.
abbrev pub is_orphan : {S : Type 0} → Hub S → Card → Issue → Bool
is_orphan hub c i = not (str_eq c.card_url "") && mentions hub c.card_url i.body

find-misses :
    (p : Issue → Bool) (listed : List Issue) (i : Issue)
    → find p listed ≡ none
    → IsAmong i listed
    → p i ≡ false
find-misses p [] i h among = absurd among
find-misses p (x ∷ xs) i h (inl same) = elim (Bool-cases (p x)) [
  | inl yes' ↦ ground (arith, h, yes')
  | inr no' ↦ rw same no'
]
find-misses p (x ∷ xs) i h (inr later) = elim (Bool-cases (p x)) [
  | inl yes' ↦ ground (arith, h, yes')
  | inr no' ↦ find-misses p xs i (ground (arith, h, no')) later
]

page_shows :
    (page : List Payload) (i : Issue)
    → length page < per_page
    → IsAmong (issue_payload i) page ⊎ (per_page ≤ length page)
    → IsAmong (issue_payload i) page
page_shows page i few (inl among) = among
page_shows page i few (inr full) = absurd (omega (arith, few, full))

module _ (u : String) where
  filed-head :
      (xs rest : List Issue) (i : Issue)
      → filed u xs ≡ i ∷ rest
      → IsAmong i xs × (is_filed_from u i.body ≡ true)
  filed-head [] rest i h = ground (arith, h)
  filed-head (x ∷ xs) rest i h = elim (Bool-cases (is_filed_from u x.body)) [
    | inl yes' ↦
        let shown : filed u (x ∷ xs) ≡ x ∷ filed u xs = rw yes' refl in
        let cons' : x ∷ filed u xs ≡ i ∷ rest = sym shown ∙ h in
        let same' : i ≡ x = cc in (inl same', rw same' yes')
    | inr no' ↦
        let shown : filed u (x ∷ xs) ≡ filed u xs = rw no' refl in
        let (among', is') = filed-head xs rest i (sym shown ∙ h) in (inr among', is')
  ]

module _ (author : String) where
  own_first :
      (since : ℕ) (i : Issue) (rest : List Payload)
      → since ≤ i.created_at
      → IsBy author i
      → issues_of since author (issue_payload i ∷ rest) ≡ i ∷ issues_of since author rest
  unfolding issues_of
  own_first since i rest late (inl unset) = ground (arith, late, unset, eq_iff author "")
  own_first since i rest late (inr by) = ground (arith, late, by, eq_iff i.author author)

  longer :
      (since : ℕ) (i k : Issue) (rest : List Payload)
      → IsAmong i (issues_of since author rest)
      → IsAmong i (issues_of since author (issue_payload k ∷ rest))
  unfolding issues_of
  longer since i k rest h =
      elim (Bool-cases (not (str_eq author "") && not (str_eq k.author author))) [
        | inl other' ↦ rw (other', issues_of) h
        | inr own' ↦ elim (Bool-cases (ltb k.created_at since)) [
          | inl early' ↦ rw (own', early', issues_of) h
          | inr late' ↦ rw (own', late', issues_of) (inr h)
        ]
      ]

  -- What the loop over a page keeps.
  issues_of-IsAmong :
      (since : ℕ) (i : Issue) (page : List Payload)
      → since ≤ i.created_at
      → IsBy author i
      → IsAmong (issue_payload i) page
      → IsAmong i (issues_of since author page)
  unfolding issues_of
  issues_of-IsAmong since i [] late by among = absurd among
  issues_of-IsAmong since i (pull_payload ∷ rest) late by (inl same) = absurd (cc same)
  issues_of-IsAmong since i (pull_payload ∷ rest) late by (inr later) =
      issues_of-IsAmong since i rest late by later
  issues_of-IsAmong since i (issue_payload k ∷ rest) late by (inl same) =
      let same' : i ≡ k = cc same in
      let kept' : issues_of since author (issue_payload k ∷ rest)
          ≡ k ∷ issues_of since author rest =
        subst
          (λ x. issues_of since author (issue_payload x ∷ rest) ≡ x ∷ issues_of since author rest)
          same' (own_first since i rest late by) in
      rw kept' (inl same')
  issues_of-IsAmong since i (issue_payload k ∷ rest) late by (inr later) =
      longer since i k rest (issues_of-IsAmong since i rest late by later)

module _ {S : Type 0} (hub : Hub S) (issues : S → List Issue) (author u : String)
    (laws : Faithful hub issues author) (named : str_eq u "" ≡ false) (j now : ℕ) where
  is_filed_from-mentions : (b : Body) → is_filed_from u b ≡ true → mentions hub u b ≡ true
  unfolding mentions
  is_filed_from-mentions (filed_from v quoted) h =
      rw ((eq_iff v u).0 h, laws.documented.in_text_refl u) refl
  is_filed_from-mentions (plain t) h = ground (arith, h)

  -- A page that is not full and has no first mention: GitHub has no issue of the card.
  pub nothing_filed :
      (c : Card) (own : List Issue) (page : List Payload) (s : Site S) (repo : String) (since : ℕ)
      → Is issues author u j now c own s
      → c.card_url ≡ u
      → All (IsListedBy repo since author) own
      → hub.page repo since per_page s.hub ≡ some page
      → length page < per_page
      → find (is_orphan hub c) (issues_of since author page) ≡ none
      → own ≡ []
  nothing_filed c [] page s repo since is url fits got few missed = refl
  nothing_filed c (i ∷ own) page s repo since is url fits got few missed =
      let (among', is') = filed-head u (issues s.hub) own i is.1 in
      let passed' : is_orphan hub c i ≡ true =
        rw (url, named, is_filed_from-mentions i.body is') refl in
      let failed' = find-misses (is_orphan hub c) (issues_of since author page) i missed (
        issues_of-IsAmong author since i page fits.0.1 fits.0.2 (
          page_shows page i few (
            laws.documented.page-IsAmong repo since per_page s.hub page got i among' fits.0.0
              fits.0.1))) in
      ground (arith, passed', failed')
