-- ===== src/Capacity.antt =====
-- src/robot_army/capacity.py: what is counted, and against which cap. What the registry, /proc and
-- the tables answer are arguments; the classification of a working directory is `under_root`.
pub mod Count
pub mod Cover
pub mod Rows
use robot_army.Base.{
  ℕ, zero, suc, ◌+◌, ◌-◌, ◌==◌, leb, String, str_eq, Bool, true, false, not, ◌&&◌, ◌||◌, Option,
  none, some, List, [], ◌∷◌, ◌++◌, map, any, keep, length, if◌then◌else◌,
}
use robot_army.Models.{Session, WorkItem, Reason, text, hosted_by_simulation}
use robot_army.States.{SessionState, starting, running, same_session}
use robot_army.Config.{Config, lookup_key}
use robot_army.Db.{Db, World, Result, get_work_item, note, transaction}
use robot_army.Db.Anomalies.{raise_anomaly}
use robot_army.Db.Holds.{list_kept_sessions}

-- A registry entry, or a worker that /proc shows, which has no session id (the empty text).
pub record RegistryEntry : Type 0 where
  pub session_id : String
  pub cwd : Option String

pub record RegistryScan : Type 0 where
  pub entries : List RegistryEntry
  pub unknown_versions : List (Option String)
  pub degraded : Bool
  pub directory_missing : Bool

-- What this process sees of the machine: the registry, the workers in /proc, whether /proc could be
-- enumerated at all, and which working directories lie under the worktree root.
pub record Machine : Type 0 where
  pub registry : RegistryScan
  pub workers : List RegistryEntry
  pub proc_readable : Bool
  pub under_root : Option String → Bool

pub record CapacitySnapshot : Type 0 where
  pub observable : Bool
  pub degraded : Bool
  pub total : ℕ
  pub ours : List String
  pub others : ℕ
  pub global_cap : ℕ
  pub configured_cap : Option ℕ
  pub simulated : ℕ
  pub in_flight : ℕ
  pub per_repo : List (String × ℕ)
  pub reason : Option Reason
  pub kept_per_repo : List (String × ℕ)
  pub kept_session_ids : List String

unfoldable pub at_capacity : CapacitySnapshot → Bool
at_capacity s = leb s.global_cap s.total

pub data Part : Type 0 where
  ours_part other_part simulated_part in_flight_part : Part

abbrev if_some : Part → ℕ → List (Part × ℕ)
if_some p n = if n == 0 then [] else (p, n) ∷ []

-- The breakdown that every surface prints.
unfoldable pub components : CapacitySnapshot → List (Part × ℕ)
components s =
    (ours_part, length s.ours)
    ∷ (other_part, s.others)
    ∷ (if_some simulated_part s.simulated ++ if_some in_flight_part s.in_flight)

abbrev pub member : String → List String → Bool
member k xs = any (λ x. str_eq x k) xs

-- The kept sessions that are among ours.
unfoldable pub kept : CapacitySnapshot → ℕ
kept s = length (keep (λ k. member k s.ours) s.kept_session_ids)

abbrev is_nil {ℓ} : {A : Type ℓ} → List A → Bool
is_nil [] = true
is_nil (_ ∷ _) = false

registry_unusable : RegistryScan → Option Reason
registry_unusable scan =
    if scan.degraded
    then some (text "registry scan was already degraded")
    else if scan.directory_missing
    then some (text "registry directory is absent or unreadable")
    else if not (is_nil scan.unknown_versions) && is_nil scan.entries
    then some (text "registry version(s) not recognised")
    else none

resolve_cap : Config → Option ℕ → ℕ × Option ℕ
resolve_cap config none = (config.max_concurrent_sessions, none)
resolve_cap config (some enforced) =
    if enforced == config.max_concurrent_sessions
    then (config.max_concurrent_sessions, none)
    else (enforced, some config.max_concurrent_sessions)

-- `counts[key] = counts.get(key, 0) + 1`.
unfoldable pub bump : String → List (String × ℕ) → List (String × ℕ)
bump key [] = (key, 1) ∷ []
bump key ((j, n) ∷ m) = if str_eq j key then (j, n + 1) ∷ m else (j, n) ∷ bump key m

abbrev bump_item : Option WorkItem → List (String × ℕ) → List (String × ℕ)
bump_item none counts = counts
bump_item (some item) counts = bump item.repo_key counts

per_repo_from : Db → List Session → List (String × ℕ) → List (String × ℕ)
unfolding bump
per_repo_from d [] counts = counts
per_repo_from d (row ∷ rows) counts =
    per_repo_from d rows (bump_item (get_work_item d row.work_item_id) counts)

unfoldable pub per_repo : Db → List Session → List (String × ℕ)
unfolding per_repo_from
per_repo d rows = per_repo_from d rows []

count_keys : List (String × String) → List (String × ℕ) → List (String × ℕ)
unfolding bump
count_keys [] counts = counts
count_keys ((key, _) ∷ rest) counts = count_keys rest (bump key counts)

abbrev pub is_open : Session → Bool
is_open row = same_session row.state starting || same_session row.state running

abbrev has_id : RegistryEntry → Bool
has_id e = not (str_eq e.session_id "")

-- `known`: the ids of the entries that carry one.
abbrev pub known : List RegistryEntry → List String
known entries = map (λ e. e.session_id) (keep has_id entries)

abbrev pub unmatched : List RegistryEntry → List Session → List Session
unmatched entries rows = keep (λ row. not (member row.session_id (known entries))) rows

-- The snapshot of a machine that could be observed, from the entries that were found.
unfoldable pub observed :
    Bool
    → (Option String → Bool)
    → List RegistryEntry
    → Db
    → List (String × String)
    → ℕ
    → Option ℕ
    → CapacitySnapshot
unfolding per_repo count_keys
observed degraded under_root entries d kept cap configured =
    let live_rows = keep is_open d.sessions in
    let missing = unmatched entries live_rows in
    let ours = map (λ e. e.session_id) (keep (λ e. has_id e && under_root e.cwd) entries) in
    let simulated = length (keep hosted_by_simulation missing) in
    record {
      observable = true;
      degraded = degraded;
      total = length entries + length missing;
      ours = ours;
      others = length entries - length ours;
      global_cap = cap;
      configured_cap = configured;
      simulated = simulated;
      in_flight = length missing - simulated;
      per_repo = per_repo d live_rows;
      reason = none;
      kept_per_repo = count_keys kept [];
      kept_session_ids = map (λ p. p.1) kept;
    }

-- Neither the registry nor /proc can be read: one audit record, if there is a log to write to, one
-- anomaly, and a snapshot that withholds dispatch.
unobservable : ℕ → Bool → ℕ → Option ℕ → Reason → World → CapacitySnapshot × World
unobservable now audit cap configured reason w =
    let w₁ = if audit then record w { log = note "capacity.unobservable" none ∷ w.log } else w in
    (
      record {
        observable = false;
        degraded = true;
        total = 0;
        ours = [];
        others = 0;
        global_cap = cap;
        configured_cap = configured;
        simulated = 0;
        in_flight = 0;
        per_repo = [];
        reason = some reason;
        kept_per_repo = [];
        kept_session_ids = [];
      },
      (transaction (raise_anomaly now "capacity_unobservable" reason none none false) w₁).1,
    )

unfoldable pub snapshot : ℕ → Config → Option ℕ → Bool → Machine → World → CapacitySnapshot × World
unfolding observed unobservable registry_unusable resolve_cap list_kept_sessions
snapshot now config enforced_cap audit m w =
    let (cap, configured) = resolve_cap config enforced_cap in
    elim (registry_unusable m.registry) [
      | none ↦ (
        observed false m.under_root m.registry.entries w.db (list_kept_sessions w.db) cap
            configured,
        w,
      )
      | some reason ↦
          if is_nil m.workers && not m.proc_readable
          then unobservable now audit cap configured reason w
          else (
            observed true m.under_root m.workers w.db (list_kept_sessions w.db) cap configured,
            w,
          )
    ]
