-- ===== src/Ordering/Board.antt =====
-- What `_apply_board_order` of src/robot_army/ordering.py keeps and what it sorts.
use robot_army.Base.{
  ltb, String, str_eq, Bool, true, false, ◌≡◌, refl, ap, ◌∙◌, sym, ◌<◌, ◌⊎◌, ltb→lt, subst, List,
  [], ◌∷◌, map, keep, length, arith, Bool-cases, inl, inr, eq_iff, All, ◌||◌,
}
use robot_army.Base.Sort.{
  sort_by, sort_by-IsSorted, sort_by-All, length-sort_by, IsSorted, lex_le_total, lex_le_trans,
}
use robot_army.Models.{WorkItem}
use robot_army.Ordering.{board_key}
use robot_army.Capacity.{member}
use robot_army.Ordering.Order.{in_repo, board_le, refill, reorder, apply_board_order}

-- Two lists that offer their slots to the same repositories, one by one.
abbrev pub repo_slots : List WorkItem → List String
repo_slots items = map (λ item. item.repo_key) items

-- All the items of the list are in the repository.
abbrev pub IsIn : String → List WorkItem → Type 0
IsIn key items = All (λ item. in_repo key item ≡ true) items

same_repo :
    (key : String) (a b : WorkItem)
    → in_repo key a ≡ true
    → in_repo key b ≡ true
    → a.repo_key ≡ b.repo_key
same_repo key a b p q = (eq_iff a.repo_key key).0 p ∙ sym ((eq_iff b.repo_key key).0 q)

elsewhere :
    (key other : String) (a : WorkItem)
    → str_eq key other ≡ false
    → in_repo key a ≡ true
    → in_repo other a ≡ false
elsewhere key other a e p =
    subst (λ x. str_eq x other ≡ false) (sym ((eq_iff a.repo_key key).0 p)) e

refill-repo_slots :
    (key : String) (ordered items : List WorkItem)
    → IsIn key ordered
    → repo_slots (refill key ordered items) ≡ repo_slots items
unfolding refill
refill-repo_slots key ordered [] h = refl
refill-repo_slots key [] (item ∷ items) h =
    ap (λ rest. item.repo_key ∷ rest) (refill-repo_slots key [] items h)
refill-repo_slots key (next ∷ ordered) (item ∷ items) h = elim (Bool-cases (in_repo key item)) [
  | inl yes' ↦ rw yes' (
      rw (same_repo key next item h.0 yes')
        (ap (λ rest. item.repo_key ∷ rest) (refill-repo_slots key ordered items h.1)))
  | inr no' ↦
      rw no' (ap (λ rest. item.repo_key ∷ rest) (refill-repo_slots key (next ∷ ordered) items h))
]

refill-others :
    (key other : String) (ordered items : List WorkItem)
    → str_eq key other ≡ false
    → IsIn key ordered
    → keep (in_repo other) (refill key ordered items) ≡ keep (in_repo other) items
unfolding refill
refill-others key other ordered [] e h = refl
refill-others key other [] (item ∷ items) e h = rw (refill-others key other [] items e h) refl
refill-others key other (next ∷ ordered) (item ∷ items) e h = elim (Bool-cases (in_repo key item)) [
  | inl yes' ↦ rw yes' (
      rw (elsewhere key other next e h.0)
        (rw (elsewhere key other item e yes') (refill-others key other ordered items e h.1)))
  | inr no' ↦ rw no' (rw (refill-others key other (next ∷ ordered) items e h) refl)
]

pub keep-hit {ℓ} :
    {A : Type ℓ} (p : A → Bool) (x : A) (xs : List A) → p x ≡ true → keep p (x ∷ xs) ≡ x ∷ keep p xs
keep-hit p x xs h = rw h refl

pub keep-miss {ℓ} :
    {A : Type ℓ} (p : A → Bool) (x : A) (xs : List A) → p x ≡ false → keep p (x ∷ xs) ≡ keep p xs
keep-miss p x xs h = rw h refl

refill-own :
    (key : String) (ordered items : List WorkItem)
    → IsIn key ordered
    → length ordered ≡ length (keep (in_repo key) items)
    → keep (in_repo key) (refill key ordered items) ≡ ordered
unfolding refill
refill-own key [] [] h e = refl
refill-own key (next ∷ ordered) [] h e = absurd (omega arith)
refill-own key [] (item ∷ items) h e = elim (Bool-cases (in_repo key item)) [
  | inl yes' ↦ absurd (omega (arith, e ∙ ap length (keep-hit (in_repo key) item items yes')))
  | inr no' ↦
      rw no' (refill-own key [] items h (e ∙ ap length (keep-miss (in_repo key) item items no')))
]
refill-own key (next ∷ ordered) (item ∷ items) h e = elim (Bool-cases (in_repo key item)) [
  | inl yes' ↦ rw yes' (
      rw h.0 (
        ap (λ rest. next ∷ rest)
          (refill-own key ordered items h.1
            (omega (arith, e ∙ ap length (keep-hit (in_repo key) item items yes'))))))
  | inr no' ↦ rw no' (
      rw no' (
        refill-own key (next ∷ ordered) items h
          (e ∙ ap length (keep-miss (in_repo key) item items no'))))
]

keep-IsIn : (key : String) (items : List WorkItem) → IsIn key (keep (in_repo key) items)
keep-IsIn key [] = tt
keep-IsIn key (item ∷ items) = elim (Bool-cases (in_repo key item)) [
  | inl yes' ↦ rw yes' (yes', keep-IsIn key items)
  | inr no' ↦ rw no' (keep-IsIn key items)
]

-- The sorted items of one repository.
abbrev pub own_sorted : String → List WorkItem → List WorkItem
own_sorted key items = sort_by board_le (keep (in_repo key) items)

pub own_sorted-IsIn : (key : String) (items : List WorkItem) → IsIn key (own_sorted key items)
own_sorted-IsIn key items =
    sort_by-All board_le (λ item. in_repo key item ≡ true) (keep (in_repo key) items)
      (keep-IsIn key items)

-- A turn of the loop either finds fewer than two slots or refills them.
pub reorder-cases :
    (key : String) (items : List WorkItem)
    → ((reorder key items ≡ items) × (length (keep (in_repo key) items) < 2))
      ⊎ (reorder key items ≡ refill key (own_sorted key items) items)
unfolding reorder
reorder-cases key items = elim (Bool-cases (ltb (length (keep (in_repo key) items)) 2)) [
  | inl few' ↦ inl (rw few' refl, ltb→lt (length (keep (in_repo key) items)) 2 few')
  | inr many' ↦ inr (rw many' refl)
]

reorder-repo_slots :
    (key : String) (items : List WorkItem) → repo_slots (reorder key items) ≡ repo_slots items
reorder-repo_slots key items = elim (reorder-cases key items) [
  | inl few' ↦ ap repo_slots few'.0
  | inr many' ↦
      ap repo_slots many'
      ∙ refill-repo_slots key (own_sorted key items) items (own_sorted-IsIn key items)
]

reorder-others :
    (key other : String) (items : List WorkItem)
    → str_eq key other ≡ false
    → keep (in_repo other) (reorder key items) ≡ keep (in_repo other) items
reorder-others key other items e = elim (reorder-cases key items) [
  | inl few' ↦ ap (keep (in_repo other)) few'.0
  | inr many' ↦
      ap (keep (in_repo other)) many'
      ∙ refill-others key other (own_sorted key items) items e (own_sorted-IsIn key items)
]

few-IsSorted : (items : List WorkItem) → length items < 2 → IsSorted board_le items
few-IsSorted [] h = tt
few-IsSorted (a ∷ []) h = (tt, tt)
few-IsSorted (a ∷ b ∷ items) h = absurd (omega arith)

board-IsSorted : (items : List WorkItem) → IsSorted board_le (sort_by board_le items)
board-IsSorted =
    sort_by-IsSorted board_le (λ a b. lex_le_total (board_key a) (board_key b))
      (λ a b c. lex_le_trans (board_key a) (board_key b) (board_key c))

reorder-own :
    (key : String) (items : List WorkItem)
    → IsSorted board_le (keep (in_repo key) (reorder key items))
reorder-own key items = elim (reorder-cases key items) [
  | inl few' ↦
      subst (λ xs. IsSorted board_le (keep (in_repo key) xs)) (sym few'.0)
        (few-IsSorted (keep (in_repo key) items) few'.1)
  | inr many' ↦
      let whole =
        refill-own key (own_sorted key items) items (own_sorted-IsIn key items)
          (length-sort_by board_le (keep (in_repo key) items)) in
      subst (IsSorted board_le) (sym (ap (keep (in_repo key)) many' ∙ whole))
        (board-IsSorted (keep (in_repo key) items))
]

or_false : (a b : Bool) → (a || b) ≡ false → (a ≡ false) × (b ≡ false)
or_false true b h = absurd (cc h)
or_false false b h = (refl, h)

or_left : (a b : Bool) → (a || b) ≡ true → b ≡ false → a ≡ true
or_left true b h e = refl
or_left false b h e = sym e ∙ h

-- Whatever repositories are governed, the order of the board leaves every slot to the repository
-- that it belonged to.
pub board_keeps_slots :
    (governed : List String) (items : List WorkItem)
    → repo_slots (apply_board_order governed items) ≡ repo_slots items
unfolding apply_board_order
board_keeps_slots [] items = refl
board_keeps_slots (key ∷ governed) items =
    board_keeps_slots governed (reorder key items) ∙ reorder-repo_slots key items

-- The items of a repository that is not governed stay the same, in the same order.
pub board_spares_others :
    (governed : List String) (items : List WorkItem) (key : String)
    → member key governed ≡ false
    → keep (in_repo key) (apply_board_order governed items) ≡ keep (in_repo key) items
unfolding apply_board_order
board_spares_others [] items key h = refl
board_spares_others (first ∷ governed) items key h =
    board_spares_others governed (reorder first items) key
      (or_false (str_eq first key) (member key governed) h).1
    ∙ reorder-others first key items (or_false (str_eq first key) (member key governed) h).0

-- The items of a governed repository come in the order of its board: by position, the items without
-- a position behind the others and by their discovery, ties by id.
pub board_sorts_governed :
    (governed : List String) (items : List WorkItem) (key : String)
    → member key governed ≡ true
    → IsSorted board_le (keep (in_repo key) (apply_board_order governed items))
unfolding apply_board_order
board_sorts_governed [] items key h = absurd (cc h)
board_sorts_governed (first ∷ governed) items key h = elim (Bool-cases (member key governed)) [
  | inl later' ↦ board_sorts_governed governed (reorder first items) key later'
  | inr now' ↦
      subst (IsSorted board_le) (sym (board_spares_others governed (reorder first items) key now'))
        (subst (λ k. IsSorted board_le (keep (in_repo k) (reorder first items)))
          ((eq_iff first key).0 (or_left (str_eq first key) (member key governed) h now'))
          (reorder-own first items))
]
