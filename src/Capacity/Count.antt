-- ===== src/Capacity/Count.antt =====
-- The arithmetic of src/robot_army/capacity.py: the breakdown that is printed, and the counts of
-- each repository.
use robot_army.Base.{
  ℕ, zero, suc, ◌+◌, ◌≤◌, String, str_eq, Bool, true, false, not, ◌&&◌, ◌≡◌, refl, Option, none,
  some, List, [], ◌∷◌, ◌++◌, map, keep, length, if◌then◌else◌, arith, Bool-cases, Option-cases,
  eq_iff, inl, inr,
}
use robot_army.Models.{Session, WorkItem, hosted_by_simulation}
use robot_army.Config.{Config}
use robot_army.Db.{Db, World, get_work_item}
use robot_army.Db.Holds.{list_kept_sessions}
use robot_army.Capacity.{
  Machine, RegistryEntry, CapacitySnapshot, Part, components, snapshot, observed, unobservable,
  registry_unusable, resolve_cap, per_repo, per_repo_from, bump, bump_item, is_open, unmatched,
  if_some, is_nil,
}

abbrev pub total_of : List (Part × ℕ) → ℕ
total_of [] = 0
total_of ((_, n) ∷ parts) = n + total_of parts

pub length-keep {ℓ} : {A : Type ℓ} (p : A → Bool) (xs : List A) → length (keep p xs) ≤ length xs
length-keep p [] = omega arith
length-keep p (x ∷ xs) = elim (Bool-cases (p x)) [
  | inl yes' ↦ rw yes' (omega (arith, length-keep p xs))
  | inr no' ↦ rw no' (omega (arith, length-keep p xs))
]

pub length-map {ℓ κ} :
    {A : Type ℓ} {B : Type κ} (f : A → B) (xs : List A) → length (map f xs) ≡ length xs
length-map f [] = refl
length-map f (x ∷ xs) = omega (arith, length-map f xs)

if_some-total : (p : Part) (n : ℕ) → total_of (if_some p n) ≡ n
if_some-total p zero = refl
if_some-total p (suc n) = ground arith

total_of-append : (xs ys : List (Part × ℕ)) → total_of (xs ++ ys) ≡ total_of xs + total_of ys
total_of-append [] ys = omega arith
total_of-append ((p, n) ∷ xs) ys = omega (arith, total_of-append xs ys)

components-total_of :
    (s : CapacitySnapshot)
    → total_of (components s) ≡ length s.ours + s.others + s.simulated + s.in_flight
unfolding components
components-total_of s = omega (
  arith,
  total_of-append (if_some Part.simulated_part s.simulated)
      (if_some Part.in_flight_part s.in_flight),
  if_some-total Part.simulated_part s.simulated,
  if_some-total Part.in_flight_part s.in_flight,
)

observed-total :
    (degraded : Bool) (under_root : Option String → Bool) (entries : List RegistryEntry) (d : Db)
    (kept : List (String × String)) (cap : ℕ) (configured : Option ℕ)
    → total_of (components (observed degraded under_root entries d kept cap configured))
      ≡ (observed degraded under_root entries d kept cap configured).total
unfolding observed
observed-total degraded under_root entries d kept cap configured =
    let missing = unmatched entries (keep is_open d.sessions) in
    let is_ours : RegistryEntry → Bool = λ e. not (str_eq e.session_id "") && under_root e.cwd in
    omega (
      arith,
      components-total_of (observed degraded under_root entries d kept cap configured),
      length-map (λ (e : RegistryEntry). e.session_id) (keep is_ours entries),
      length-keep is_ours entries,
      length-keep hosted_by_simulation missing,
    )

-- Whatever the registry, /proc and the tables answer, and whichever cap is enforced, the parts of
-- the printed breakdown of a snapshot add up to its total.
pub components_sum :
    (now : ℕ) (config : Config) (enforced : Option ℕ) (audit : Bool) (m : Machine) (w : World)
    → total_of (components (snapshot now config enforced audit m w).0)
      ≡ (snapshot now config enforced audit m w).0.total
unfolding snapshot components
components_sum now config enforced audit m w =
    let cap = resolve_cap config enforced in
    elim (Option-cases (registry_unusable m.registry)) [
      | inl usable ↦
          rw (usable, snapshot)
            (observed-total false m.under_root m.registry.entries w.db (list_kept_sessions w.db)
              cap.0 cap.1)
      | inr (reason, unusable) ↦ elim (Bool-cases (is_nil m.workers && not m.proc_readable)) [
        | inl blind' ↦ rw (unusable, blind', snapshot) refl
        | inr seen' ↦
            rw (unusable, seen', snapshot)
              (observed-total true m.under_root m.workers w.db (list_kept_sessions w.db) cap.0
                cap.1)
      ]
    ]

abbrev one_if : Bool → ℕ
one_if true = 1
one_if false = 0

-- How many rows belong to an item of this repository.
abbrev pub belongs : String → Option WorkItem → Bool
belongs key none = false
belongs key (some item) = str_eq item.repo_key key

unfoldable pub rows_of : String → Db → List Session → ℕ
rows_of key d [] = 0
rows_of key d (row ∷ rows) =
    let rest = rows_of key d rows in
    if belongs key (get_work_item d row.work_item_id) then suc rest else rest

abbrev pub count_of : String → List (String × ℕ) → ℕ
count_of key [] = 0
count_of key ((j, n) ∷ counts) = let rest = count_of key counts in if str_eq j key then n else rest

count_of-bump :
    (key j : String) (counts : List (String × ℕ))
    → count_of key (bump j counts)
      ≡ (if str_eq j key then suc (count_of key counts) else count_of key counts)
unfolding bump
count_of-bump key j [] = refl
count_of-bump key j ((i, n) ∷ counts) =
    grind (arith, eq_iff i j, eq_iff i key, eq_iff j key, count_of-bump key j counts)

bump_item-count :
    (key : String) (o : Option WorkItem) (counts : List (String × ℕ))
    → count_of key (bump_item o counts) ≡ one_if (belongs key o) + count_of key counts
bump_item-count key none counts = omega arith
bump_item-count key (some item) counts = ground (arith, count_of-bump key item.repo_key counts)

rows_of-cons :
    (key : String) (d : Db) (row : Session) (rows : List Session)
    → rows_of key d (row ∷ rows)
      ≡ one_if (belongs key (get_work_item d row.work_item_id)) + rows_of key d rows
unfolding rows_of
rows_of-cons key d row rows = ground arith

per_repo_from-count :
    (key : String) (d : Db) (rows : List Session) (counts : List (String × ℕ))
    → count_of key (per_repo_from d rows counts) ≡ rows_of key d rows + count_of key counts
unfolding per_repo_from rows_of
per_repo_from-count key d [] counts = omega arith
per_repo_from-count key d (row ∷ rows) counts = omega (
  arith,
  per_repo_from-count key d rows (bump_item (get_work_item d row.work_item_id) counts),
  bump_item-count key (get_work_item d row.work_item_id) counts,
  rows_of-cons key d row rows,
)

per_repo-count :
    (key : String) (d : Db) (rows : List Session)
    → count_of key (per_repo d rows) ≡ rows_of key d rows
unfolding per_repo
per_repo-count key d rows = omega (arith, per_repo_from-count key d rows [])

-- What a snapshot is to report for a repository: nothing, if the machine could not be observed.
abbrev pub open_rows_of : String → Bool → Db → ℕ
open_rows_of key true d = rows_of key d (keep is_open d.sessions)
open_rows_of key false d = 0

observed-per_repo :
    (key : String) (degraded : Bool) (under_root : Option String → Bool)
    (entries : List RegistryEntry) (d : Db) (kept : List (String × String)) (cap : ℕ)
    (configured : Option ℕ)
    → count_of key (observed degraded under_root entries d kept cap configured).per_repo
      ≡ open_rows_of key (observed degraded under_root entries d kept cap configured).observable d
unfolding observed
observed-per_repo key degraded under_root entries d kept cap configured =
    per_repo-count key d (keep is_open d.sessions)

-- What a snapshot reports for a repository is the number of the open session rows whose item is in it,
-- whether their processes were found or not: a repository without such a row counts 0, and a row whose
-- item is missing counts nowhere. A snapshot of a machine that could not be observed reports 0.
pub per_repo_exact :
    (key : String) (now : ℕ) (config : Config) (enforced : Option ℕ) (audit : Bool) (m : Machine)
    (w : World)
    → count_of key (snapshot now config enforced audit m w).0.per_repo
      ≡ open_rows_of key (snapshot now config enforced audit m w).0.observable w.db
unfolding snapshot unobservable
per_repo_exact key now config enforced audit m w =
    let cap = resolve_cap config enforced in
    elim (Option-cases (registry_unusable m.registry)) [
      | inl usable ↦
          rw (usable, snapshot)
            (observed-per_repo key false m.under_root m.registry.entries w.db
              (list_kept_sessions w.db) cap.0 cap.1)
      | inr (reason, unusable) ↦ elim (Bool-cases (is_nil m.workers && not m.proc_readable)) [
        | inl blind' ↦ rw (unusable, blind', snapshot) refl
        | inr seen' ↦
            rw (unusable, seen', snapshot)
              (observed-per_repo key true m.under_root m.workers w.db (list_kept_sessions w.db)
                cap.0 cap.1)
      ]
    ]
