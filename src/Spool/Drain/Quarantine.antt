-- ===== src/Spool/Drain/Quarantine.antt =====
-- `quarantine` of spool.py gives a rejected record a name that no rejected record has.
use robot_army.Base.{
  ℕ, zero, suc, ◌≤◌, ◌<◌, ◌==◌, ==_iff, ◌≡◌, refl, sym, ◌∙◌, ap, String, str_eq, eq_iff, Bool, true,
  false, ◌||◌, List, [], ◌∷◌, arith, if◌then◌else◌, length, Bool-cases, inl, inr,
}
use robot_army.Base.Decimal.{digits_injective, append_cancel, append_longer}
use robot_army.Spool.Drain.{
  rejected_name, exists, free_counter, destination, quarantine, State, File,
}

-- Different counters make different names.
rejected_name_injective :
    (stem suffix : String) (i j : ℕ)
    → rejected_name stem suffix i ≡ rejected_name stem suffix j
    → i ≡ j
unfolding rejected_name
rejected_name_injective stem suffix zero zero e = refl
rejected_name_injective stem suffix zero (suc j) e =
    absurd (append_longer _ suffix (append_cancel stem _ _ e))
rejected_name_injective stem suffix (suc i) zero e =
    absurd (append_longer _ suffix (append_cancel stem _ _ (sym e)))
rejected_name_injective stem suffix (suc i) (suc j) e =
    digits_injective (suc i) (suc j) suffix (append_cancel "." _ _ (append_cancel stem _ _ e))

module _ (name : ℕ → String) (taken_by_one : (i j : ℕ) → name i ≡ name j → i ≡ j) where
  -- Whether a file has one of the names before this counter.
  tried : ℕ → String → Bool
  tried zero r = false
  tried (suc k) r = str_eq r (name k) || tried k r

  untried_name : (k c : ℕ) → k ≤ c → tried k (name c) ≡ false
  unfolding tried
  untried_name zero c h = refl
  untried_name (suc k) c h = elim (Bool-cases (str_eq (name c) (name k))) [
    | inl same' ↦ absurd (omega (arith, h, taken_by_one c k ((eq_iff (name c) (name k)).0 same')))
    | inr other' ↦ rw (other', tried) (untried_name k c (omega (arith, h)))
  ]

  -- How many rejected files have none of the names before this counter.
  untried : ℕ → List String → ℕ
  untried c [] = 0
  untried c (r ∷ rs) = let rest = untried c rs in if tried c r then rest else suc rest

  untried-le : (c : ℕ) (taken : List String) → untried c taken ≤ length taken
  unfolding untried
  untried-le c [] = omega arith
  untried-le c (r ∷ rs) = ground (arith, untried-le c rs)

  untried_mono : (c : ℕ) (taken : List String) → untried (suc c) taken ≤ untried c taken
  unfolding untried tried
  untried_mono c [] = omega arith
  untried_mono c (r ∷ rs) = ground (arith, untried_mono c rs)

  fits_untried : (c : ℕ) (r : String) → str_eq r (name c) ≡ true → tried c r ≡ false
  fits_untried c r h = ap (tried c) ((eq_iff r (name c)).0 h) ∙ untried_name c c (omega arith)

  untried_step :
      (c : ℕ) (taken : List String)
      → exists taken (name c) ≡ true
      → untried (suc c) taken < untried c taken
  unfolding untried tried
  untried_step c [] h = absurd (cc h)
  untried_step c (r ∷ rs) h = elim (Bool-cases (str_eq r (name c))) [
    | inl hit' ↦ ground (arith, hit', fits_untried c r hit', untried_mono c rs)
    | inr miss' ↦ ground (arith, h, miss', untried_step c rs (ground (arith, h, miss')))
  ]

  free_counter_enough :
      (fuel : ℕ) (taken : List String) (c : ℕ)
      → untried c taken < fuel
      → exists taken (name (free_counter fuel taken name c)) ≡ false
  unfolding free_counter
  free_counter_enough zero taken c h = absurd (omega (arith, h))
  free_counter_enough (suc fuel) taken c h = elim (Bool-cases (exists taken (name c))) [
    | inl taken' ↦
        rw (taken', free_counter)
          (free_counter_enough fuel taken (suc c) (omega (arith, h, untried_step c taken taken')))
    | inr free' ↦ rw (free', free_counter) free'
  ]

-- The names before the one that is chosen are taken.
passed_over :
    (fuel : ℕ) (taken : List String) (name : ℕ → String) (c k : ℕ)
    → c ≤ k
    → k < free_counter fuel taken name c
    → exists taken (name k) ≡ true
unfolding free_counter
passed_over zero taken name c k h lt = absurd (omega (arith, h, lt))
passed_over (suc fuel) taken name c k h lt = elim (Bool-cases (exists taken (name c))) [
  | inr free' ↦
      let stops : free_counter (suc fuel) taken name c ≡ c = rw (free', free_counter) refl in
      absurd (omega (arith, h, lt, stops))
  | inl taken' ↦
      let goes_on : free_counter (suc fuel) taken name c ≡ free_counter fuel taken name (suc c) =
        rw (taken', free_counter) refl in
      elim (Bool-cases (k == c)) [
        | inl here' ↦ ap (λ n. exists taken (name n)) ((==_iff k c).0 here') ∙ taken'
        | inr later' ↦
            passed_over fuel taken name (suc c) k (ground (arith, h, later'))
              (omega (arith, lt, goes_on))
      ]
]

-- A file that is quarantined, and whose move succeeds, gets its own name or that name with a counter,
-- whichever comes first that no rejected file has, so none is overwritten; the search for it ends
-- within one step more than there are rejected files.
pub quarantine_fresh :
    (now : ℕ) (f : File) (s : State)
    → f.moves ≡ true
    → (counter : ℕ) × ((quarantine now f s).1.rejected
        ≡ rejected_name f.stem f.suffix counter ∷ s.rejected)
      × (exists s.rejected (rejected_name f.stem f.suffix counter) ≡ false)
      × ((k : ℕ) → k < counter → exists s.rejected (rejected_name f.stem f.suffix k) ≡ true)
unfolding quarantine destination
quarantine_fresh now f s moves =
    let name : ℕ → String = rejected_name f.stem f.suffix in
    let apart = rejected_name_injective f.stem f.suffix in
    (
      free_counter (suc (length s.rejected)) s.rejected name 0,
      rw moves refl,
      free_counter_enough name apart (suc (length s.rejected)) s.rejected 0
          (omega (arith, untried-le name apart 0 s.rejected)),
      λ k. passed_over (suc (length s.rejected)) s.rejected name 0 k (omega arith),
    )
