-- ===== src/Ordering/Listing.antt =====
-- What `plan` of src/robot_army/ordering.py lists: every ready item once, in consecutive positions.
use mathlib.Core.List.Perm
use mathlib.Core.List.{Perm}
use robot_army.Base.{
  ℕ, suc, String, Bool, not, ◌≡◌, refl, ap, ◌∙◌, sym, subst, List, [], ◌∷◌, ◌++◌, map, keep, length,
  arith, Bool-cases, inl, inr,
}
use robot_army.Base.Sort.{sort_by, sort_by-perm, length-sort_by}
use robot_army.Models.{WorkItem, RepoProject}
use robot_army.Config.{Config, RepoConfig}
use robot_army.Capacity.{CapacitySnapshot}
use robot_army.Db.{Db}
use robot_army.Ordering.{Context}
use robot_army.Ordering.Order.{in_repo, board_le, refill, reorder, apply_board_order}
use robot_army.Ordering.Board.{own_sorted, reorder-cases, keep-hit, keep-miss}
use robot_army.Ordering.Plan.{
  QueueEntry, item_le, context, ready_items, dispatch_order, number, plan,
}

module _ {ℓ} {A : Type ℓ} where
  perm_middle : (x : A) (xs ys : List A) → Perm (x ∷ (xs ++ ys)) (xs ++ x ∷ ys)
  perm_middle x [] ys = Perm.refl (x ∷ ys)
  perm_middle x (z ∷ xs) ys =
      Perm.trans (Perm.swap z x (xs ++ ys)) (Perm.cons z (perm_middle x xs ys))

  -- The passing elements first, then the others.
  split-perm : (p : A → Bool) (xs : List A) → Perm xs (keep p xs ++ keep (λ x. not (p x)) xs)
  split-perm p [] = Perm.refl []
  split-perm p (x ∷ xs) = elim (Bool-cases (p x)) [
    | inl yes' ↦ rw yes' (Perm.cons x (split-perm p xs))
    | inr no' ↦ rw no' (
        Perm.trans (Perm.cons x (split-perm p xs))
          (perm_middle x (keep p xs) (keep (λ y. not (p y)) xs)))
  ]

refill-perm :
    (key : String) (ordered items : List WorkItem)
    → length ordered ≡ length (keep (in_repo key) items)
    → Perm (refill key ordered items) (ordered ++ keep (λ item. not (in_repo key item)) items)
unfolding refill
refill-perm key [] [] e = Perm.refl []
refill-perm key (next ∷ ordered) [] e = absurd (omega arith)
refill-perm key [] (item ∷ items) e = elim (Bool-cases (in_repo key item)) [
  | inl yes' ↦ absurd (omega (arith, e ∙ ap length (keep-hit (in_repo key) item items yes')))
  | inr no' ↦ rw no' (
      Perm.cons item
        (refill-perm key [] items (e ∙ ap length (keep-miss (in_repo key) item items no'))))
]
refill-perm key (next ∷ ordered) (item ∷ items) e = elim (Bool-cases (in_repo key item)) [
  | inl yes' ↦ rw yes' (
      Perm.cons next (
        refill-perm key ordered items
          (omega (arith, e ∙ ap length (keep-hit (in_repo key) item items yes')))))
  | inr no' ↦
      let rest =
        refill-perm key (next ∷ ordered) items
          (e ∙ ap length (keep-miss (in_repo key) item items no')) in
      rw no' (
        Perm.trans (Perm.cons item rest)
          (perm_middle item (next ∷ ordered) (keep (λ x. not (in_repo key x)) items)))
]

reorder-perm : (key : String) (items : List WorkItem) → Perm (reorder key items) items
reorder-perm key items = elim (reorder-cases key items) [
  | inl few' ↦ subst (λ xs. Perm xs items) (sym few'.0) (Perm.refl items)
  | inr many' ↦
      let own = keep (in_repo key) items in
      subst (λ xs. Perm xs items) (sym many')
        (Perm.trans (refill-perm key (own_sorted key items) items (length-sort_by board_le own)) (
          Perm.trans
            (Perm.append_right (keep (λ x. not (in_repo key x)) items) (sort_by-perm board_le own))
            (Perm.symm (split-perm (in_repo key) items))))
]

apply_board_order-perm :
    (governed : List String) (items : List WorkItem) → Perm (apply_board_order governed items) items
unfolding apply_board_order
apply_board_order-perm [] items = Perm.refl items
apply_board_order-perm (key ∷ governed) items =
    Perm.trans (apply_board_order-perm governed (reorder key items)) (reorder-perm key items)

abbrev pub items_of : List QueueEntry → List WorkItem
items_of entries = map (λ e. e.item) entries

-- `n` numbers from the first one on.
abbrev pub count_from : ℕ → List WorkItem → List ℕ
count_from first [] = []
count_from first (_ ∷ items) = first ∷ count_from (suc first) items

number-items :
    (c : Context) (first : ℕ) (items : List WorkItem) → items_of (number c first items) ≡ items
unfolding number
number-items c first [] = refl
number-items c first (item ∷ items) = ap (λ rest. item ∷ rest) (number-items c (suc first) items)

number-positions :
    (c : Context) (first : ℕ) (items : List WorkItem)
    → map (λ (e : QueueEntry). e.position) (number c first items) ≡ count_from first items
unfolding number
number-positions c first [] = refl
number-positions c first (item ∷ items) =
    ap (λ rest. first ∷ rest) (number-positions c (suc first) items)

-- The plan is a permutation of the items that are ready, however its order is configured and
-- whatever the boards say, and its positions count from 1 without a gap.
pub plan_lists_ready :
    (config : Config) (capacity : CapacitySnapshot) (resolved : List (String × RepoConfig))
    (boards : List (String × RepoProject)) (d : Db)
    → Perm (items_of (plan config capacity resolved boards d)) (ready_items d)
      × (map (λ (e : QueueEntry). e.position) (plan config capacity resolved boards d)
          ≡ count_from 1 (items_of (plan config capacity resolved boards d)))
unfolding plan dispatch_order
plan_lists_ready config capacity resolved boards d =
    let c = context config capacity resolved boards d in
    let sorted = sort_by (item_le config resolved) (ready_items d) in
    let listed : items_of (plan config capacity resolved boards d)
        ≡ dispatch_order c (ready_items d) =
      number-items c 1 (dispatch_order c (ready_items d)) in
    (
      subst (λ xs. Perm xs (ready_items d)) (sym listed)
          (Perm.trans (apply_board_order-perm c.governed sorted)
            (sort_by-perm (item_le config resolved) (ready_items d))),
      number-positions c 1 (dispatch_order c (ready_items d)) ∙ ap (count_from 1) (sym listed),
    )
