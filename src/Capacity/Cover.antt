-- ===== src/Capacity/Cover.antt =====
-- `snapshot` of src/robot_army/capacity.py never counts fewer sessions than the rows that are open:
-- a row is matched by an entry or counted as in flight or simulated.
use robot_army.Base.{
  ℕ, ◌+◌, ◌≤◌, String, str_eq, Bool, true, false, not, ◌&&◌, ◌||◌, ◌≡◌, refl, Option, some, List,
  [], ◌∷◌, keep, All, length, arith, Bool-cases, Option-cases, eq_iff, inl, inr,
}
use robot_army.Models.{Session, Reason}
use robot_army.Config.{Config}
use robot_army.Db.{Db, World}
use robot_army.Db.Holds.{list_kept_sessions}
use robot_army.Capacity.{
  Machine, RegistryEntry, snapshot, observed, unobservable, registry_unusable, resolve_cap, is_open,
  known, member, is_nil, has_id,
}
use robot_army.Capacity.Count.{length-keep, length-map}

-- No two rows carry the same session id: the column is UNIQUE.
abbrev pub HaveOwnIds : List Session → Type 0
HaveOwnIds [] = Unit
HaveOwnIds (row ∷ rows) =
    All (λ other. str_eq row.session_id other.session_id ≡ false) rows × HaveOwnIds rows

module _ {ℓ} {A : Type ℓ} where
  All-keep {κ} : (P : A → Type κ) (p : A → Bool) (xs : List A) → All P xs → All P (keep p xs)
  All-keep P p [] h = tt
  All-keep P p (x ∷ xs) h = elim (Bool-cases (p x)) [
    | inl yes' ↦ rw yes' (h.0, All-keep P p xs h.1)
    | inr no' ↦ rw no' (All-keep P p xs h.1)
  ]

  keep-or :
      (p q : A → Bool) (xs : List A)
      → length (keep (λ x. p x || q x) xs) ≤ length (keep p xs) + length (keep q xs)
  keep-or p q [] = omega arith
  keep-or p q (x ∷ xs) = ground (arith, keep-or p q xs)

  keep-split :
      (p : A → Bool) (xs : List A)
      → length xs ≡ length (keep p xs) + length (keep (λ x. not (p x)) xs)
  keep-split p [] = omega arith
  keep-split p (x ∷ xs) = ground (arith, keep-split p xs)

HaveOwnIds-keep :
    (p : Session → Bool) (rows : List Session) → HaveOwnIds rows → HaveOwnIds (keep p rows)
HaveOwnIds-keep p [] h = tt
HaveOwnIds-keep p (row ∷ rows) h = elim (Bool-cases (p row)) [
  | inl yes' ↦ rw yes' (
    All-keep (λ other. str_eq row.session_id other.session_id ≡ false) p rows h.0,
    HaveOwnIds-keep p rows h.1,
  )
  | inr no' ↦ rw no' (HaveOwnIds-keep p rows h.1)
]

none_left :
    (id row_id : String) (rows : List Session)
    → str_eq id row_id ≡ true
    → All (λ other. str_eq row_id other.session_id ≡ false) rows
    → length (keep (λ r. str_eq id r.session_id) rows) ≡ 0
none_left id row_id [] e h = refl
none_left id row_id (row ∷ rows) e h = grind (
  arith,
  none_left id row_id rows e h.1,
  h.0,
  eq_iff id row_id,
  eq_iff id row.session_id,
  eq_iff row_id row.session_id,
)

one_at_most :
    (id : String) (rows : List Session)
    → HaveOwnIds rows
    → length (keep (λ r. str_eq id r.session_id) rows) ≤ 1
one_at_most id [] h = omega arith
one_at_most id (row ∷ rows) h = elim (Bool-cases (str_eq id row.session_id)) [
  | inl yes' ↦ rw yes' (omega (arith, none_left id row.session_id rows yes' h.0))
  | inr no' ↦ rw no' (one_at_most id rows h.1)
]

matched_at_most :
    (ids : List String) (rows : List Session)
    → HaveOwnIds rows
    → length (keep (λ r. member r.session_id ids) rows) ≤ length ids
matched_at_most [] [] h = omega arith
matched_at_most [] (row ∷ rows) h = matched_at_most [] rows h.1
matched_at_most (id ∷ ids) rows h = omega (
  arith,
  keep-or (λ r. str_eq id r.session_id) (λ r. member r.session_id ids) rows,
  one_at_most id rows h,
  matched_at_most ids rows h,
)

observed_covers :
    (degraded : Bool) (under_root : Option String → Bool) (entries : List RegistryEntry) (d : Db)
    (kept : List (String × String)) (cap : ℕ) (configured : Option ℕ)
    → HaveOwnIds d.sessions
    → length (keep is_open d.sessions)
      ≤ (observed degraded under_root entries d kept cap configured).total
unfolding observed
observed_covers degraded under_root entries d kept cap configured h =
    let live = keep is_open d.sessions in
    omega (
      arith,
      keep-split (λ r. member r.session_id (known entries)) live,
      matched_at_most (known entries) live (HaveOwnIds-keep is_open d.sessions h),
      length-map (λ (e : RegistryEntry). e.session_id) (keep has_id entries),
      length-keep has_id entries,
    )

blind_snapshot :
    (now : ℕ) (config : Config) (enforced : Option ℕ) (audit : Bool) (m : Machine) (w : World)
    (reason : Reason)
    → registry_unusable m.registry ≡ some reason
    → (is_nil m.workers && not m.proc_readable) ≡ true
    → (snapshot now config enforced audit m w).0.observable ≡ true
    → ⊥
unfolding snapshot unobservable
blind_snapshot now config enforced audit m w reason unusable blind' visible =
    cc (unusable, blind', visible)

-- When every session row has an id of its own and the snapshot is observable, its total is at least
-- the number of the starting and running rows, whatever the registry and /proc show.
pub open_rows_counted :
    (now : ℕ) (config : Config) (enforced : Option ℕ) (audit : Bool) (m : Machine) (w : World)
    → HaveOwnIds w.db.sessions
    → (snapshot now config enforced audit m w).0.observable ≡ true
    → length (keep is_open w.db.sessions) ≤ (snapshot now config enforced audit m w).0.total
unfolding snapshot
open_rows_counted now config enforced audit m w own visible =
    let cap = resolve_cap config enforced in
    let covers : (deg : Bool) (es : List RegistryEntry)
        → length (keep is_open w.db.sessions)
          ≤ (observed deg m.under_root es w.db (list_kept_sessions w.db) cap.0 cap.1).total =
      λ deg es.
        observed_covers deg m.under_root es w.db (list_kept_sessions w.db) cap.0 cap.1 own in
    elim (Option-cases (registry_unusable m.registry)) [
      | inl usable ↦ rw (usable, snapshot) (covers false m.registry.entries)
      | inr (reason, unusable) ↦ elim (Bool-cases (is_nil m.workers && not m.proc_readable)) [
        | inl blind' ↦
            absurd (blind_snapshot now config enforced audit m w reason unusable blind' visible)
        | inr seen' ↦ rw (unusable, seen', snapshot) (covers true m.workers)
      ]
    ]
