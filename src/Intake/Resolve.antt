-- ===== src/Intake/Resolve.antt =====
-- `resolve_repository` of src/robot_army/intake.py and what it calls. The matches of the regular
-- expressions, and whether a path lies in a clone, are what the `Recognisers` answer.
pub mod Onboarded
use Prim.Native.String.{compare}
use Prim.Native.Nat.{Ordering}
use robot_army.Base.{
  append, ℕ, ltb, String, str_eq, Bool, true, false, not, ◌&&◌, ◌||◌, Option, none, some, List, [],
  ◌∷◌, ◌++◌, any, find, if◌then◌else◌,
}
use robot_army.Base.Sort.{sort_by}
use robot_army.Models.{
  Reason, nothing_onboarded, none_identified, several_named, declared_unknown, declared_apart,
}
use robot_army.Capacity.{member}

-- `_URL_REF` and `_BARE_REF` find owners and names, `_PATH_REF` paths, `_DECLARATION` the references
-- of the lines `robot-army: …`; `inside` says that a path is in the clone of a repository.
pub record Recognisers : Type 0 where
  pub url_refs : String → List (String × String)
  pub bare_refs : String → List (String × String)
  pub path_refs : String → List String
  pub declarations : String → List String
  pub inside : String → String → Bool

pub data Source : Type 0 where
  from_scan from_declaration from_onboarding : Source

pub record Resolution : Type 0 where
  pub repo_key : Option String
  pub reason : Option Reason
  pub candidates : List String
  pub source : Source

-- The text without the suffix `.git`, if it ends so.
without_git : String → String
without_git String.[] = String.[]
without_git (String.◌∷◌ c s) =
    let rest = without_git s in
    if str_eq (String.◌∷◌ c s) ".git" then String.[] else String.◌∷◌ c rest

-- `_repo_key`: a name that is only `.git` is left alone.
unfoldable pub repo_key : String → String → String
unfolding without_git
repo_key owner name =
    append owner (append "/" (if str_eq name ".git" then name else without_git name))

-- `found.setdefault`: the keys that were found, each once.
abbrev pub set_default : String → List String → List String
set_default k found = if member k found then found else found ++ k ∷ []

unfoldable pub offer : List String → String → List String → List String
offer onboarded k found = if member k onboarded then set_default k found else found

unfoldable pub offer_all : List String → List (String × String) → List String → List String
unfolding offer repo_key
offer_all onboarded [] found = found
offer_all onboarded ((owner, name) ∷ refs) found =
    offer_all onboarded refs (offer onboarded (repo_key owner name) found)

abbrev pub text_le : String → String → Bool
text_le a b = elim (compare a b) [ Ordering.gt ↦ false | _ ↦ true ]

module _ (re : Recognisers) (onboarded : List String) where
  unfoldable pub key_for_path : String → Option String
  key_for_path path = find (re.inside path) onboarded

  abbrev pub or_default : Option String → List String → List String
  or_default none found = found
  or_default (some k) found = set_default k found

  unfoldable pub offer_paths : List String → List String → List String
  unfolding key_for_path
  offer_paths [] found = found
  offer_paths (path ∷ paths) found = offer_paths paths (or_default (key_for_path path) found)

  -- One reference names at most one repository.
  unfoldable pub only_one : String → List String → Option String
  only_one raw [] = key_for_path raw
  only_one raw (k ∷ []) = some k
  only_one raw (_ ∷ _ ∷ _) = none

  abbrev pub or_else : List String → List String → List String
  or_else [] rest = rest
  or_else (k ∷ ks) rest = k ∷ ks

  unfoldable pub key_for_reference : String → Option String
  unfolding only_one
  key_for_reference raw = only_one raw (
      or_else (offer_all onboarded (re.url_refs raw) [])
        (offer_all onboarded (re.bare_refs raw) []))

  -- The keys that the references name, and the references that name none.
  unfoldable pub read_declarations :
      List String → List String × List String → List String × List String
  read_declarations [] acc = acc
  read_declarations (raw ∷ refs) (found, unmatched) =
      read_declarations refs (elim (key_for_reference raw) [
        | none ↦ (found, unmatched ++ raw ∷ [])
        | some k ↦ (set_default k found, unmatched)
      ])

  abbrev pub unresolved : Reason → List String → Source → Resolution
  unresolved reason keys source = record {
    repo_key = none;
    reason = some reason;
    candidates = keys;
    source = source;
  }

  abbrev pub resolved_as : String → Source → Resolution
  resolved_as k source = record {
    repo_key = some k;
    reason = none;
    candidates = k ∷ [];
    source = source;
  }

  unfoldable pub declared_as : List String × List String → Resolution
  declared_as (found, raw ∷ _) =
      unresolved (declared_unknown raw (sort_by text_le onboarded)) (sort_by text_le found)
        from_declaration
  declared_as (k ∷ [], []) = resolved_as k from_declaration
  declared_as (found, []) =
      unresolved (declared_apart (sort_by text_le found)) (sort_by text_le found) from_declaration

  unfoldable pub resolve_declarations : List String → Option Resolution
  unfolding declared_as read_declarations
  resolve_declarations [] = none
  resolve_declarations (raw ∷ refs) = some (declared_as (read_declarations (raw ∷ refs) ([], [])))

  unfoldable pub scanned_as : List String → Resolution
  scanned_as [] = unresolved (none_identified (sort_by text_le onboarded)) [] from_scan
  scanned_as (k ∷ []) = resolved_as k from_scan
  scanned_as (k ∷ j ∷ ks) =
      unresolved (several_named (sort_by text_le (k ∷ j ∷ ks))) (sort_by text_le (k ∷ j ∷ ks))
        from_scan

  unfoldable pub scan_text : String → Resolution
  unfolding scanned_as offer_paths
  scan_text t = scanned_as (
      offer_paths (re.path_refs t)
        (offer_all onboarded (re.bare_refs t) (offer_all onboarded (re.url_refs t) [])))

  abbrev pub has_none : List String → Bool
  has_none [] = true
  has_none (_ ∷ _) = false

  abbrev pub or_scanned : Option Resolution → Resolution → Resolution
  or_scanned none scanned = scanned
  or_scanned (some declared) scanned = declared

  unfoldable pub resolve_repository : String → String → Resolution
  unfolding resolve_declarations scan_text
  resolve_repository title body =
      let t = append title (append "\n" body) in
      if has_none onboarded
      then unresolved nothing_onboarded [] from_onboarding
      else or_scanned (resolve_declarations (re.declarations t)) (scan_text t)
