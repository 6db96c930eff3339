-- ===== src/Poll/Issues.antt =====
-- One issue of a listing of src/robot_army/poll.py: what its insertion, its verdict and the refresh of
-- its labels leave ready.
use robot_army.Base.{
  ℕ, suc, ◌≤◌, ◌==◌, leb, leb→le, ◌≡◌, refl, subst, String, Bool, true, false, not, ◌&&◌, Option,
  none, some, List, [], ◌∷◌, ◌++◌, All, any, ◌⊎◌, inl, inr, Bool-cases, Option-cases, arith,
}
use robot_army.States.{discovered, ready, same_item}
use robot_army.Models.{WorkItem}
use robot_army.Db.{World, ok, transaction, ◌>>=◌, note}
use robot_army.Transition.{assign_item, set_item_column, labels_column, updated_column}
use robot_army.Transition.Rows.{IsKeyed, update_where-IsKeyed}
use robot_army.Poll.Rows.{
  IsVouched, Inv, update-IsVouched, settle_verdict-Inv, transaction-Inv, continue-Inv, OnlySource,
  absent-OnlySource,
}
use robot_army.Poll.{
  Listed, Eligibility, source_id, find_work_item, next_id, discovered_row, insert_work_item,
  settle_verdict, same_labels, refresh_labels, known_issue, settle_inserted, new_issue, rejected_by,
}

pub fresh_above :
    (rows : List WorkItem) (k : ℕ)
    → next_id rows ≤ k
    → any (λ (q : WorkItem). q.id == k) rows ≡ false
unfolding next_id
fresh_above [] k h = refl
fresh_above (r ∷ rows) k h = elim (Bool-cases (leb (next_id rows) r.id)) [
  | inl big' ↦
      let bound : suc r.id ≤ k = subst (λ n. n ≤ k) (rw big' refl) h in
      let below : next_id rows ≤ r.id = leb→le (next_id rows) r.id big' in
      let rest' = fresh_above rows k (omega (arith, bound, below)) in ground (arith, rest', bound)
  | inr small' ↦
      let bound : next_id rows ≤ k = subst (λ n. n ≤ k) (rw small' refl) h in
      let rest' = fresh_above rows k bound in ground (arith, rest', bound, small')
]

any-snoc :
    (p : WorkItem → Bool) (new : WorkItem) (rows : List WorkItem)
    → any p rows ≡ false
    → p new ≡ false
    → any p (rows ++ new ∷ []) ≡ false
any-snoc p new [] h k = ground (arith, k)
any-snoc p new (r ∷ rows) h k =
    let rest' = any-snoc p new rows (ground (arith, h)) k in ground (arith, h, rest')

append-IsKeyed :
    (new : WorkItem) (rows : List WorkItem)
    → IsKeyed rows
    → any (λ (q : WorkItem). q.id == new.id) rows ≡ false
    → IsKeyed (rows ++ new ∷ [])
append-IsKeyed new [] keyed absent = (refl, tt)
append-IsKeyed new (r ∷ rows) keyed absent = (
  any-snoc (λ (q : WorkItem). q.id == r.id) new rows keyed.0 (ground (arith, absent)),
  append-IsKeyed new rows keyed.1 (ground (arith, absent)),
)

snoc-All :
    (P : WorkItem → Type 0) (new : WorkItem) (rows : List WorkItem)
    → All P rows
    → P new
    → All P (rows ++ new ∷ [])
snoc-All P new [] h k = (k, tt)
snoc-All P new (r ∷ rows) h k = (h.0, snoc-All P new rows h.1 k)

module _ (V : String → Type 0) (now : ℕ) (repo : String) (dry_run : Bool) where
  -- The row that is inserted is not ready yet, and has a key of its own.
  inserted-Inv :
      (issue : Listed) (rows : List WorkItem)
      → Inv V rows
      → Inv V (rows ++ discovered_row now repo dry_run issue (next_id rows) ∷ [])
  inserted-Inv issue rows (keyed, vouched) =
      let new = discovered_row now repo dry_run issue (next_id rows) in
      (
        append-IsKeyed new rows keyed (fresh_above rows (next_id rows) (omega arith)),
        snoc-All (IsVouched V) new rows vouched (inl refl),
      )

  settle_inserted-Inv :
      (v : Eligibility) (source : String) (id : ℕ) (w : World)
      → (v.eligible ≡ true → V source)
      → OnlySource id source w.db.work_items
      → Inv V w.db.work_items
      → Inv V (settle_inserted now v (some id) w).1.db.work_items
  unfolding settle_inserted
  settle_inserted-Inv v source id w allowed only inv =
      let logged : World = record w { log = note "poll.discovered" none ∷ w.log } in
      continue-Inv V (settle_verdict now id v logged) (λ _ w'. (ok (1, rejected_by v), w'))
        (settle_verdict-Inv V now id v source logged allowed only inv)
        (λ _. settle_verdict-Inv V now id v source logged allowed only inv)

  insertion-Inv :
      (v : Eligibility) (issue : Listed) (w : World)
      → (v.eligible ≡ true → V (source_id repo issue.number))
      → Inv V w.db.work_items
      → Inv V
          ((insert_work_item now repo dry_run issue >>= settle_inserted now v) w).1.db.work_items
  unfolding insert_work_item
  insertion-Inv v issue w allowed inv =
      elim (Option-cases (find_work_item w.db (source_id repo issue.number) dry_run)) [
        | inr (row, there') ↦ rw (there', insert_work_item) (unfold settle_inserted in inv)
        | inl absent' ↦
            let rows = w.db.work_items in
            let new = discovered_row now repo dry_run issue (next_id rows) in
            rw (absent', insert_work_item)
              (settle_inserted-Inv v (source_id repo issue.number) (next_id rows)
                (record w { db = record w.db { work_items = rows ++ new ∷ [] } }) allowed
                (snoc-All
                  (λ r.
                    ((r.id == next_id rows) ≡ false) ⊎ (r.source_id ≡ source_id repo issue.number))
                  new rows
                  (absent-OnlySource (next_id rows) (source_id repo issue.number) rows
                    (fresh_above rows (next_id rows) (omega arith)))
                  (inr refl))
                (inserted-Inv issue rows inv))
      ]

  pub new_issue-Inv :
      (v : Eligibility) (issue : Listed) (w : World)
      → (v.eligible ≡ true → V (source_id repo issue.number))
      → Inv V w.db.work_items
      → Inv V (new_issue now repo dry_run v issue w).1.db.work_items
  unfolding new_issue
  new_issue-Inv v issue w allowed inv = elim (Bool-cases (not v.eligible && not v.persist)) [
    | inl silent' ↦ rw (silent', new_issue) inv
    | inr kept' ↦
        rw (kept', new_issue)
          (transaction-Inv V (insert_work_item now repo dry_run issue >>= settle_inserted now v) w
            inv (insertion-Inv v issue w allowed inv))
  ]

  labels-IsVouched :
      (labels : Option (List String)) (wanted : WorkItem → Bool) (rows : List WorkItem)
      → All (IsVouched V) rows
      → All
          (λ r.
            (wanted r ≡ false)
            ⊎ IsVouched V (assign_item (labels_column labels ∷ updated_column now ∷ []) r))
          rows
  unfolding assign_item set_item_column
  labels-IsVouched labels wanted [] h = tt
  labels-IsVouched labels wanted (r ∷ rows) h = (inr h.0, labels-IsVouched labels wanted rows h.1)

  refresh_labels-Inv :
      (item : WorkItem) (issue : Listed) (w : World)
      → Inv V w.db.work_items
      → Inv V (refresh_labels now item issue w).1.db.work_items
  unfolding refresh_labels
  refresh_labels-Inv item issue w inv = elim (Bool-cases (same_labels item.labels issue.labels)) [
    | inl same' ↦ rw (same', refresh_labels) inv
    | inr differ' ↦
        rw (differ', refresh_labels)
          (transaction-Inv V _ w inv (
            update_where-IsKeyed (λ r. r.id == item.id)
                (labels_column (some issue.labels) ∷ updated_column now ∷ []) w.db.work_items inv.0,
            update-IsVouched V (λ r. r.id == item.id)
                (assign_item (labels_column (some issue.labels) ∷ updated_column now ∷ []))
                w.db.work_items
                (labels-IsVouched (some issue.labels) (λ r. r.id == item.id) w.db.work_items inv.1)
                inv.1,
          ))
  ]

  pub known_issue-Inv :
      (item : WorkItem) (v : Eligibility) (issue : Listed) (w : World)
      → (v.eligible ≡ true → V item.source_id)
      → OnlySource item.id item.source_id w.db.work_items
      → Inv V w.db.work_items
      → Inv V (known_issue now item v issue w).1.db.work_items
  unfolding known_issue
  known_issue-Inv item v issue w allowed only inv =
      elim (Bool-cases (same_item item.state discovered)) [
        | inl waiting' ↦
            rw (waiting', known_issue)
              (continue-Inv V (transaction (settle_verdict now item.id v) w)
                (λ _ w'. (ok (0, rejected_by v), w'))
                (transaction-Inv V (settle_verdict now item.id v) w inv
                  (settle_verdict-Inv V now item.id v item.source_id w allowed only inv))
                (λ _.
                  transaction-Inv V (settle_verdict now item.id v) w inv
                    (settle_verdict-Inv V now item.id v item.source_id w allowed only inv)))
        | inr other' ↦ elim (Bool-cases (same_item item.state ready)) [
          | inl queued' ↦
              rw (other', queued', known_issue)
                (continue-Inv V (refresh_labels now item issue w) (λ _ w'. (ok (0, 0), w'))
                  (refresh_labels-Inv item issue w inv) (λ _. refresh_labels-Inv item issue w inv))
          | inr done' ↦ rw (other', done', known_issue) inv
        ]
      ]
