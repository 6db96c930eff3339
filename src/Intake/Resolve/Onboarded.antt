-- ===== src/Intake/Resolve/Onboarded.antt =====
-- What `resolve_repository` of src/robot_army/intake.py can resolve a card to.
use robot_army.Base.{
  append, ◌≡◌, refl, sym, ap, ◌∙◌, subst, String, str_eq, eq_iff, eq_refl, Bool, true, none, some,
  List, [], ◌∷◌, ◌++◌, All, find, inl, inr, Bool-cases, Option-cases, arith,
}
use robot_army.Capacity.{member}
use robot_army.Intake.Resolve.{
  Recognisers, Resolution, set_default, offer, offer_all, repo_key, key_for_path, offer_paths,
  only_one, or_else, key_for_reference, read_declarations, declared_as, resolve_declarations,
  scanned_as, scan_text, has_none, or_scanned, resolve_repository,
}

module _ (re : Recognisers) (onboarded : List String) where
  abbrev AreOnboarded : List String → Type 0
  AreOnboarded = All (λ k. member k onboarded ≡ true)

  set_default-AreOnboarded :
      (k : String) (found : List String)
      → member k onboarded ≡ true
      → AreOnboarded found
      → AreOnboarded (set_default k found)
  set_default-AreOnboarded k found is all = elim (Bool-cases (member k found)) [
    | inl seen' ↦ rw seen' all
    | inr new' ↦ rw new' (snoc found all)
  ]
    where
      snoc : (xs : List String) → AreOnboarded xs → AreOnboarded (xs ++ k ∷ [])
      snoc [] h = (is, tt)
      snoc (x ∷ xs) h = (h.0, snoc xs h.1)

  offer_all-AreOnboarded :
      (refs : List (String × String)) (found : List String)
      → AreOnboarded found
      → AreOnboarded (offer_all onboarded refs found)
  unfolding offer_all offer
  offer_all-AreOnboarded [] found all = all
  offer_all-AreOnboarded ((owner, name) ∷ refs) found all =
      elim (Bool-cases (member (repo_key owner name) onboarded)) [
        | inl in' ↦
            rw (in', offer_all)
              (offer_all-AreOnboarded refs (set_default (repo_key owner name) found)
                (set_default-AreOnboarded (repo_key owner name) found in' all))
        | inr out' ↦ rw (out', offer_all) (offer_all-AreOnboarded refs found all)
      ]

  find-member :
      (p : String → Bool) (xs : List String) (k : String) → find p xs ≡ some k → member k xs ≡ true
  find-member p [] k h = ground (arith, h)
  find-member p (x ∷ xs) k h = elim (Bool-cases (p x)) [
    | inl yes' ↦
        let shown : find p (x ∷ xs) ≡ some x = rw yes' refl in
        let first' : some x ≡ some k = sym shown ∙ h in
        let same' : x ≡ k = cc in rw (same', eq_refl k) refl
    | inr no' ↦
        let shown : find p (x ∷ xs) ≡ find p xs = rw no' refl in
        let later' = find-member p xs k (sym shown ∙ h) in ground (arith, later')
  ]

  offer_paths-AreOnboarded :
      (paths found : List String)
      → AreOnboarded found
      → AreOnboarded (offer_paths re onboarded paths found)
  unfolding offer_paths key_for_path
  offer_paths-AreOnboarded [] found all = all
  offer_paths-AreOnboarded (path ∷ paths) found all =
      elim (Option-cases (find (re.inside path) onboarded)) [
        | inl none' ↦ rw (none', offer_paths) (offer_paths-AreOnboarded paths found all)
        | inr (k, hit') ↦
            rw (hit', offer_paths)
              (offer_paths-AreOnboarded paths (set_default k found) (
                set_default-AreOnboarded k found (find-member (re.inside path) onboarded k hit')
                  all))
      ]

  only_one-member :
      (raw : String) (found : List String) (k : String)
      → AreOnboarded found
      → only_one re onboarded raw found ≡ some k
      → member k onboarded ≡ true
  unfolding only_one key_for_path
  only_one-member raw [] k all h = find-member (re.inside raw) onboarded k h
  only_one-member raw (x ∷ []) k all h =
      let same' : x ≡ k = cc in subst (λ y. member y onboarded ≡ true) same' all.0
  only_one-member raw (x ∷ y ∷ xs) k all h = ground (arith, h)

  or_else-AreOnboarded :
      (xs ys : List String)
      → AreOnboarded xs
      → AreOnboarded ys
      → AreOnboarded (or_else re onboarded xs ys)
  or_else-AreOnboarded [] ys h k = k
  or_else-AreOnboarded (x ∷ xs) ys h k = h

  key_for_reference-member :
      (raw k : String) → key_for_reference re onboarded raw ≡ some k → member k onboarded ≡ true
  unfolding key_for_reference
  key_for_reference-member raw k h =
      only_one-member raw
        (or_else re onboarded (offer_all onboarded (re.url_refs raw) [])
          (offer_all onboarded (re.bare_refs raw) []))
        k
        (or_else-AreOnboarded (offer_all onboarded (re.url_refs raw) [])
          (offer_all onboarded (re.bare_refs raw) [])
          (offer_all-AreOnboarded (re.url_refs raw) [] tt)
          (offer_all-AreOnboarded (re.bare_refs raw) [] tt))
        h

  -- Each of the lines names this repository.
  abbrev pub AgreeOn : String → List String → Type 0
  AgreeOn k = All (λ raw. key_for_reference re onboarded raw ≡ some k)

  abbrev AreThis : String → List String → Type 0
  AreThis k = All (λ x. x ≡ k)

  member-AreThis : (x k : String) (xs : List String) → member x xs ≡ true → AreThis k xs → x ≡ k
  member-AreThis x k [] h all = ground (arith, h)
  member-AreThis x k (y ∷ ys) h all = elim (Bool-cases (str_eq y x)) [
    | inl same' ↦ sym ((eq_iff y x).0 same') ∙ all.0
    | inr other' ↦ member-AreThis x k ys (ground (arith, h, other')) all.1
  ]

  append-AreThis :
      (k : String) (xs ys : List String) → AreThis k (xs ++ ys) → AreThis k xs × AreThis k ys
  append-AreThis k [] ys h = (tt, h)
  append-AreThis k (x ∷ xs) ys h = let (l, r) = append-AreThis k xs ys h.1 in ((h.0, l), r)

  set_default-AreThis :
      (x k : String) (found : List String)
      → AreThis k (set_default x found)
      → (x ≡ k) × AreThis k found
  set_default-AreThis x k found h = elim (Bool-cases (member x found)) [
    | inl seen' ↦
        let all = subst (AreThis k) (rw seen' refl) h in (member-AreThis x k found seen' all, all)
    | inr new' ↦
        let (l, r) = append-AreThis k found (x ∷ []) (subst (AreThis k) (rw new' refl) h) in
        (r.0, l)
  ]

  append_not_nil : (xs : List String) (x : String) → xs ++ x ∷ [] ≡ [] → ⊥
  append_not_nil [] x h = ground (arith, h)
  append_not_nil (y ∷ ys) x h = ground (arith, h)

  read_declarations-AgreeOn :
      (refs found unmatched : List String) (k : String)
      → read_declarations re onboarded refs (found, unmatched) ≡ (k ∷ [], [])
      → AgreeOn k refs × AreThis k found × (unmatched ≡ [])
  unfolding read_declarations
  read_declarations-AgreeOn [] found unmatched k h =
      (tt, subst (AreThis k) (sym (ap (λ p. p.0) h)) (refl, tt), ap (λ p. p.1) h)
  read_declarations-AgreeOn (raw ∷ refs) found unmatched k h =
      elim (Option-cases (key_for_reference re onboarded raw)) [
        | inl none' ↦
            let (agree, these, nil) =
              read_declarations-AgreeOn refs found (unmatched ++ raw ∷ []) k (
                subst
                  (λ o.
                    read_declarations re onboarded refs (elim o [
                      | none ↦ (found, unmatched ++ raw ∷ [])
                      | some x ↦ (set_default x found, unmatched)
                    ])
                    ≡ (k ∷ [], []))
                  none' h) in
            absurd (append_not_nil unmatched raw nil)
        | inr (x, hit') ↦
            let (agree, these, nil) =
              read_declarations-AgreeOn refs (set_default x found) unmatched k (
                subst
                  (λ o.
                    read_declarations re onboarded refs (elim o [
                      | none ↦ (found, unmatched ++ raw ∷ [])
                      | some x ↦ (set_default x found, unmatched)
                    ])
                    ≡ (k ∷ [], []))
                  hit' h) in
            let (same, rest) = set_default-AreThis x k found these in
            ((hit' ∙ ap some same, agree), rest, nil)
      ]

  declared_as-key :
      (found unmatched : List String) (k : String)
      → (declared_as re onboarded (found, unmatched)).repo_key ≡ some k
      → Path (List String × List String) (found, unmatched) (k ∷ [], [])
  unfolding declared_as
  declared_as-key found (raw ∷ rest) k h = ground (arith, h)
  declared_as-key (x ∷ []) [] k h = let same' : x ≡ k = cc in rw same' refl
  declared_as-key [] [] k h = ground (arith, h)
  declared_as-key (x ∷ y ∷ found) [] k h = ground (arith, h)

  scanned_as-key :
      (found : List String) (k : String)
      → (scanned_as re onboarded found).repo_key ≡ some k
      → AreOnboarded found
      → member k onboarded ≡ true
  unfolding scanned_as
  scanned_as-key [] k h all = ground (arith, h)
  scanned_as-key (x ∷ []) k h all =
      let same' : x ≡ k = cc in subst (λ y. member y onboarded ≡ true) same' all.0
  scanned_as-key (x ∷ y ∷ found) k h all = ground (arith, h)

  -- What the lines of a card and its text came to.
  settled_key :
      (refs : List String) (t k : String)
      → (or_scanned re onboarded
          (resolve_declarations re onboarded refs)
          (scan_text re onboarded t)).repo_key
        ≡ some k
      → (member k onboarded ≡ true) × AgreeOn k refs
  unfolding resolve_declarations scan_text
  settled_key [] t k h = (
    scanned_as-key
        (offer_paths re onboarded (re.path_refs t)
          (offer_all onboarded (re.bare_refs t) (offer_all onboarded (re.url_refs t) [])))
        k h
        (offer_paths-AreOnboarded (re.path_refs t) _ (
          offer_all-AreOnboarded (re.bare_refs t) _
            (offer_all-AreOnboarded (re.url_refs t) [] tt))),
    tt,
  )
  settled_key (raw ∷ refs) t k h =
      let pair = read_declarations re onboarded (raw ∷ refs) ([], []) in
      let (agree, these, nil) =
        read_declarations-AgreeOn (raw ∷ refs) [] [] k (declared_as-key pair.0 pair.1 k h) in
      (key_for_reference-member raw k agree.0, agree)

-- A card that resolves to a repository resolves to one that is onboarded, and each `robot-army:` line
-- that the card has names that very repository: a line that names no onboarded repository, or another
-- one, leaves the card unresolved whatever the rest of its text says.
pub resolved_is_onboarded :
    (re : Recognisers) (onboarded : List String) (title body k : String)
    → (resolve_repository re onboarded title body).repo_key ≡ some k
    → (member k onboarded ≡ true)
      × AgreeOn re onboarded k (re.declarations (append title (append "\n" body)))
unfolding resolve_repository
resolved_is_onboarded re onboarded title body k h =
    elim (Bool-cases (has_none re onboarded onboarded)) [
      | inl empty' ↦ ground (arith, h, empty')
      | inr some' ↦
          let t = append title (append "\n" body) in
          let shown : resolve_repository re onboarded title body
              ≡ or_scanned re onboarded (resolve_declarations re onboarded (re.declarations t))
                  (scan_text re onboarded t) =
            rw (some', resolve_repository) refl in
          settled_key re onboarded (re.declarations t) t k
            (sym (ap (λ (r : Resolution). r.repo_key) shown) ∙ h)
    ]
