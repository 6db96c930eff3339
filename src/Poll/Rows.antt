-- ===== src/Poll/Rows.antt =====
-- The rows that `_settle` of src/robot_army/poll.py moves, with what may stand ready among them.
use robot_army.Base.{
  ℕ, ◌==◌, ◌≡◌, refl, sym, ap, ◌∙◌, subst, String, Bool, true, false, none, some, List, [], ◌∷◌,
  All, any, find, update_where, if◌then◌else◌, ◌⊎◌, inl, inr, Bool-cases, Option-cases, arith,
}
use robot_army.States.{WorkItemState, ready, failed, same_item, is_legal_work_item_transition}
use robot_army.Models.{WorkItem, Reason, text}
use robot_army.Db.{World, Result, ok, err, transaction, settle, continue, get_work_item}
use robot_army.Transition.{
  ItemColumn, transition_work_item, move_work_item, item_columns, assign_item, set_item_column,
  blocked_column, failure_column,
}
use robot_army.Transition.Rows.{NamesNoState, state-assign_item, IsKeyed, update_where-IsKeyed}
use robot_army.Poll.{Eligibility, settle_verdict}

-- The row is not ready, or its source is one of these.
abbrev pub IsVouched : (String → Type 0) → WorkItem → Type 0
IsVouched V r = (same_item r.state ready ≡ false) ⊎ V r.source_id

source_id-set_item_column :
    (r : WorkItem) (c : ItemColumn) → (set_item_column r c).source_id ≡ r.source_id
unfolding set_item_column
source_id-set_item_column r c = ground arith

pub source_id-assign_item :
    (cs : List ItemColumn) (r : WorkItem) → (assign_item cs r).source_id ≡ r.source_id
unfolding assign_item
source_id-assign_item [] r = refl
source_id-assign_item (c ∷ cs) r =
    source_id-assign_item cs (set_item_column r c) ∙ source_id-set_item_column r c

module _ (V : String → Type 0) where
  abbrev pub Inv : List WorkItem → Type 0
  Inv rows = IsKeyed rows × All (IsVouched V) rows

  -- An update that vouches for each row that it takes.
  pub update-IsVouched :
      (wanted : WorkItem → Bool) (f : WorkItem → WorkItem) (rows : List WorkItem)
      → All (λ r. (wanted r ≡ false) ⊎ IsVouched V (f r)) rows
      → All (IsVouched V) rows
      → All (IsVouched V) (update_where wanted f rows)
  update-IsVouched wanted f [] takes vouched = tt
  update-IsVouched wanted f (r ∷ rows) (inl spared, takes) (v, vouched) =
      (rw spared v, update-IsVouched wanted f rows takes vouched)
  update-IsVouched wanted f (r ∷ rows) (inr given, takes) (v, vouched) =
      (go (wanted r), update-IsVouched wanted f rows takes vouched)
    where
      go : (b : Bool) → IsVouched V (if b then f r else r)
      go true = given
      go false = v

  -- A move of one row, which is found by a test, to a target.
  settled-Inv :
      (now id : ℕ) (target : WorkItemState) (extra : List ItemColumn) (source : String)
      (rows : List WorkItem)
      → NamesNoState extra
      → (same_item target ready ≡ false) ⊎ V source
      → All (λ r. ((r.id == id) ≡ false) ⊎ (r.source_id ≡ source)) rows
      → Inv rows
      → Inv (update_where (λ r. r.id == id) (assign_item (item_columns now target extra)) rows)
  settled-Inv now id target extra source rows free allowed only (keyed, vouched) = (
    update_where-IsKeyed (λ r. r.id == id) (item_columns now target extra) rows keyed,
    update-IsVouched (λ r. r.id == id) (assign_item (item_columns now target extra)) rows
        (each rows only) vouched,
  )
    where
      allow :
          (r : WorkItem)
          → r.source_id ≡ source
          → (same_item target ready ≡ false) ⊎ V source
          → IsVouched V (assign_item (item_columns now target extra) r)
      allow r is (inl other) = inl (rw (state-assign_item now target extra r free) other)
      allow r is (inr v) =
          inr (subst V (sym (source_id-assign_item (item_columns now target extra) r ∙ is)) v)

      each :
          (rows : List WorkItem)
          → All (λ r. ((r.id == id) ≡ false) ⊎ (r.source_id ≡ source)) rows
          → All
              (λ r.
                ((r.id == id) ≡ false)
                ⊎ IsVouched V (assign_item (item_columns now target extra) r))
              rows
      each [] h = tt
      each (r ∷ rows) (inl spared, h) = (inl spared, each rows h)
      each (r ∷ rows) (inr is, h) = (inr (allow r is allowed), each rows h)

  transition-Inv :
      (now id : ℕ) (target : WorkItemState) (reason : Reason) (extra : List ItemColumn)
      (source : String) (w : World)
      → NamesNoState extra
      → (same_item target ready ≡ false) ⊎ V source
      → All (λ r. ((r.id == id) ≡ false) ⊎ (r.source_id ≡ source)) w.db.work_items
      → Inv w.db.work_items
      → Inv (transition_work_item now id target reason extra w).1.db.work_items
  unfolding transition_work_item
  transition-Inv now id target reason extra source w free allowed only inv =
      elim (Option-cases (get_work_item w.db id)) [
        | inl gone' ↦ rw (gone', transition_work_item) inv
        | inr (row, found') ↦
            rw (found', transition_work_item)
              (elim (Bool-cases (same_item row.state target)) [
                | inl same' ↦ unfold move_work_item in rw same' inv
                | inr differs' ↦
                    elim (Bool-cases (is_legal_work_item_transition row.state target)) [
                      | inr bad' ↦ unfold move_work_item in rw (differs', bad') inv
                      | inl good' ↦
                          unfold move_work_item in
                          rw (differs', good')
                            (settled-Inv now id target extra source w.db.work_items free allowed
                              only inv)
                    ]
              ])
      ]

  pub settle_verdict-Inv :
      (now id : ℕ) (v : Eligibility) (source : String) (w : World)
      → (v.eligible ≡ true → V source)
      → All (λ r. ((r.id == id) ≡ false) ⊎ (r.source_id ≡ source)) w.db.work_items
      → Inv w.db.work_items
      → Inv (settle_verdict now id v w).1.db.work_items
  unfolding settle_verdict
  settle_verdict-Inv now id v source w allowed only inv = elim (Bool-cases v.eligible) [
    | inl yes' ↦
        rw (yes', settle_verdict)
          (transition-Inv now id ready (text "all eligibility conditions passed")
            (blocked_column none ∷ []) source w tt (inr (allowed yes')) only inv)
    | inr no' ↦
        rw (no', settle_verdict)
          (transition-Inv now id failed (text "eligibility rejected")
            (blocked_column v.reason ∷ failure_column v.reason ∷ []) source w tt (inl refl) only
            inv)
  ]

  -- A transaction that fails puts the tables back.
  pub transaction-Inv :
      {A : Type 0} (m : World → Result A × World) (w : World)
      → Inv w.db.work_items
      → Inv (m w).1.db.work_items
      → Inv (transaction m w).1.db.work_items
  unfolding transaction
  transaction-Inv {A = A} m w before after = go (m w) after
    where
      go : (r : Result A × World) → Inv r.1.db.work_items → Inv (settle w.db r).1.db.work_items
      go (ok a, w') h = h
      go (err e, w') h = before

  -- What follows a step runs where it succeeded.
  pub continue-Inv :
      {A B : Type 0} (r : Result A × World) (f : A → World → Result B × World)
      → Inv r.1.db.work_items
      → ((a : A) → Inv (f a r.1).1.db.work_items)
      → Inv (continue r.0 f r.1).1.db.work_items
  continue-Inv (ok a, w) f h k = k a
  continue-Inv (err e, w) f h k = h

abbrev pub OnlySource : ℕ → String → List WorkItem → Type 0
OnlySource id source = All (λ r. ((r.id == id) ≡ false) ⊎ (r.source_id ≡ source))

pub absent-OnlySource :
    (id : ℕ) (source : String) (rows : List WorkItem)
    → any (λ (q : WorkItem). q.id == id) rows ≡ false
    → OnlySource id source rows
absent-OnlySource id source [] h = tt
absent-OnlySource id source (r ∷ rows) h = elim (Bool-cases (r.id == id)) [
  | inl yes' ↦ absurd (ground (arith, h, yes'))
  | inr no' ↦ (inl no', absent-OnlySource id source rows (ground (arith, h, no')))
]

found_elsewhere :
    (p : WorkItem → Bool) (k : ℕ) (item : WorkItem) (rows : List WorkItem)
    → find p rows ≡ some item
    → any (λ (q : WorkItem). q.id == k) rows ≡ false
    → (item.id == k) ≡ false
found_elsewhere p k item [] h absent = ground (arith, h)
found_elsewhere p k item (r ∷ rows) h absent = elim (Bool-cases (p r)) [
  | inl yes' ↦
      let shown : find p (r ∷ rows) ≡ some r = rw yes' refl in
      let first' : some r ≡ some item = sym shown ∙ h in
      let same' : r ≡ item = cc in
      subst (λ (x : WorkItem). (x.id == k) ≡ false) same' (ground (arith, absent))
  | inr no' ↦
      let shown : find p (r ∷ rows) ≡ find p rows = rw no' refl in
      found_elsewhere p k item rows (sym shown ∙ h) (ground (arith, absent))
]

-- Under a unique key, a row that is found is the one row of its key.
pub found-OnlySource :
    (p : WorkItem → Bool) (item : WorkItem) (rows : List WorkItem)
    → IsKeyed rows
    → find p rows ≡ some item
    → OnlySource item.id item.source_id rows
found-OnlySource p item [] keyed h = tt
found-OnlySource p item (r ∷ rows) keyed h = elim (Bool-cases (p r)) [
  | inl yes' ↦
      let shown : find p (r ∷ rows) ≡ some r = rw yes' refl in
      let first' : some r ≡ some item = sym shown ∙ h in
      let same' : r ≡ item = cc in
      (
        inr (ap (λ (x : WorkItem). x.source_id) same'),
        absent-OnlySource item.id item.source_id rows (
            subst (λ (x : WorkItem). any (λ (q : WorkItem). q.id == x.id) rows ≡ false) same'
              keyed.0),
      )
  | inr no' ↦
      let shown : find p (r ∷ rows) ≡ find p rows = rw no' refl in
      let later' = sym shown ∙ h in
      let apart' = found_elsewhere p r.id item rows later' keyed.0 in
      (inl (ground (arith, apart')), found-OnlySource p item rows keyed.1 later')
]
