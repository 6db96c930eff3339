-- ===== src/Config.antt =====
-- src/robot_army/config.py: the settings that ordering and dispatch read, and the functions that
-- resolve a repository's own setting against the global one. Loading a file is not modelled.
use Prim.Native.Nat.{min}
use robot_army.Base.{
  ℕ, ℤ, String, str_eq, Bool, true, false, Option, none, some, List, [], ◌∷◌, if◌then◌else◌,
}

pub record RepoConfig : Type 0 where
  pub priority : ℤ
  pub max_sessions : Option ℕ
  pub wait_for_merge : Option Bool
  pub project_ordering : Option Bool

pub record Config : Type 0 where
  pub label : String
  pub author : String
  pub order : String
  pub max_concurrent_sessions : ℕ
  pub default_repo_max_sessions : ℕ
  pub wait_for_merge : Bool
  pub project_ordering : Bool
  pub repos : List (String × RepoConfig)

-- `table.get(key)`, for a table with string keys.
unfoldable pub lookup_key {ℓ} : {A : Type ℓ} → String → List (String × A) → Option A
lookup_key k [] = none
lookup_key k ((j, v) ∷ m) = if str_eq j k then some v else lookup_key k m

-- A repository's own value, if it has a section that gives one, and whether it has.
abbrev explicit_or {ℓ} : {A : Type ℓ} → Option A → A → A × Bool
explicit_or none default = (default, false)
explicit_or (some v) default = (v, true)

abbrev own {ℓ} : {A : Type ℓ} → (RepoConfig → Option A) → Option RepoConfig → Option A
own field none = none
own field (some repo) = field repo

unfoldable pub effective_project_ordering : Config → String → Bool × Bool
unfolding lookup_key
effective_project_ordering config key =
    explicit_or (own (λ r. r.project_ordering) (lookup_key key config.repos))
      config.project_ordering

unfoldable pub effective_wait_for_merge : Config → String → Bool × Bool
unfolding lookup_key
effective_wait_for_merge config key =
    explicit_or (own (λ r. r.wait_for_merge) (lookup_key key config.repos)) config.wait_for_merge

abbrev ceiling_or : Option ℕ → ℕ → ℕ
ceiling_or none cap = cap
ceiling_or (some c) cap = c

unfoldable pub effective_repo_cap : Config → String → Option ℕ → ℕ × Bool
unfolding lookup_key
effective_repo_cap config key ceiling =
    let (requested, explicit) =
      explicit_or (own (λ r. r.max_sessions) (lookup_key key config.repos))
        config.default_repo_max_sessions in
    (min requested (ceiling_or ceiling config.max_concurrent_sessions), explicit)
