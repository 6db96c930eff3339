-- ===== src/Db/Holds/Laws.antt =====
-- The rows that set_item_hold, clear_item_hold, their repository twins and set_dispatch_paused of
-- src/robot_army/db.py leave behind.
use robot_army.Base.{
  ℕ, String, Bool, true, false, ◌≡◌, refl, none, some, List, [], ◌∷◌, ◌++◌, Bool-cases,
  Option-cases, inl, inr, ◌⊎◌, ap, ◌∙◌, sym,
}
use robot_army.Models.{Hold}
use robot_army.Db.{Db}
use robot_army.Db.Holds.{
  find_hold, set_hold, delete_hold, clear_hold, get_dispatch_control, set_dispatch_paused,
  same_flag,
}

module _ {ℓ} {K : Type ℓ} (same : K → K → Bool) (same_refl : (k : K) → same k k ≡ true) where
  find-last :
      (k : K) (h : Hold) (rows : List (K × Hold))
      → find_hold same k rows ≡ none
      → find_hold same k (rows ++ (k, h) ∷ []) ≡ some h
  unfolding find_hold
  find-last k h [] e = rw (same_refl k) refl
  find-last k h ((j, g) ∷ rows) e = elim (Bool-cases (same j k)) [
    | inl yes' ↦ absurd (cc (e, yes'))
    | inr no' ↦ rw no' (find-last k h rows (cc (e, no')))
  ]

  delete-last :
      (k : K) (h : Hold) (rows : List (K × Hold))
      → find_hold same k rows ≡ none
      → delete_hold same k (rows ++ (k, h) ∷ []) ≡ rows
  unfolding find_hold delete_hold
  delete-last k h [] e = rw (same_refl k) refl
  delete-last k h ((j, g) ∷ rows) e = elim (Bool-cases (same j k)) [
    | inl yes' ↦ absurd (cc (e, yes'))
    | inr no' ↦ rw no' (ap (λ rest. (j, g) ∷ rest) (delete-last k h rows (cc (e, no'))))
  ]

  set_hold-new :
      (now : ℕ) (k : K) (by : String) (rows : List (K × Hold))
      → find_hold same k rows ≡ none
      → set_hold same now k by rows ≡ (
        (some (record { held_at = now; held_by = by }), true),
        rows ++ (k, record { held_at = now; held_by = by }) ∷ [],
      )
  unfolding set_hold
  set_hold-new now k by rows absent' =
      let h : Hold = record { held_at = now; held_by = by } in
      rw (absent', set_hold)
        (ap (λ found. ((found, true), rows ++ (k, h) ∷ [])) (find-last k h rows absent'))

  -- A hold that stands is not replaced: setting it again returns the row that stands, says that
  -- nothing was created and changes nothing. A hold that does not stand is created as asked.
  pub set_hold_once :
      (now : ℕ) (k : K) (by : String) (rows : List (K × Hold))
      → ((h : Hold) × (find_hold same k rows ≡ some h)
          × (set_hold same now k by rows ≡ ((some h, false), rows)))
        ⊎ ((find_hold same k rows ≡ none)
            × ((set_hold same now k by rows).0
                ≡ (some (record { held_at = now; held_by = by }), true))
            × (find_hold same k (set_hold same now k by rows).1
                ≡ some (record { held_at = now; held_by = by })))
  unfolding set_hold
  set_hold_once now k by rows = elim (Option-cases (find_hold same k rows)) [
    | inl absent' ↦
        let new = set_hold-new now k by rows absent' in
        inr (
          absent',
          ap (λ r. r.0) new,
          ap (λ r. find_hold same k r.1) new
              ∙ find-last k (record { held_at = now; held_by = by }) rows absent',
        )
    | inr (h, present') ↦ inl (h, present', rw (present', set_hold) refl)
  ]

  -- Clearing a hold that was just created gives back the row that was created and the table as it
  -- stood before.
  pub clear-set_hold :
      (now : ℕ) (k : K) (by : String) (rows : List (K × Hold))
      → find_hold same k rows ≡ none
      → clear_hold same k (set_hold same now k by rows).1
        ≡ (some (record { held_at = now; held_by = by }), rows)
  unfolding clear_hold
  clear-set_hold now k by rows absent' =
      let h : Hold = record { held_at = now; held_by = by } in
      rw (set_hold-new now k by rows absent') (
        rw (find-last k h rows absent', clear_hold)
          (ap (λ rest. (some h, rest)) (delete-last k h rows absent')))

same_flag_eq : (a b : Bool) → same_flag a b ≡ true → a ≡ b
same_flag_eq true b h = sym h
same_flag_eq false true h = h
same_flag_eq false false h = refl

same_flag_refl : (a : Bool) → same_flag a a ≡ true
same_flag_refl true = refl
same_flag_refl false = refl

-- Whatever the row says, after the switch is set it reads as it was set, and setting it the same way
-- again, at any time and by anyone, returns the first setter's row and changes nothing.
pub pause_once :
    (now later : ℕ) (paused : Bool) (by other : String) (d : Db)
    → ((get_dispatch_control (set_dispatch_paused now paused by d).1).paused ≡ paused)
      × (set_dispatch_paused later paused other (set_dispatch_paused now paused by d).1
          ≡ ((set_dispatch_paused now paused by d).0, (set_dispatch_paused now paused by d).1))
unfolding set_dispatch_paused get_dispatch_control
pause_once now later paused by other d =
    elim (Bool-cases (same_flag (get_dispatch_control d).paused paused)) [
      | inl same' ↦
          rw (same', set_dispatch_paused)
            (
              same_flag_eq (get_dispatch_control d).paused paused same',
              rw (same', set_dispatch_paused) refl,
            )
      | inr other' ↦
          rw (other', set_dispatch_paused)
            (refl, rw (same_flag_refl paused, set_dispatch_paused) refl)
    ]
