-- ===== src/Transition/Claim.antt =====
-- `claim_work_item` of states.py: one statement tests and writes, so of any number of claims for
-- an item exactly one is won.
use robot_army.Base.{
  ℕ, suc, ◌==◌, ◌≡◌, refl, Bool, true, false, some, List, [], ◌∷◌, arith, find, update_where, any,
  ap, ◌∙◌, length, All,
}
use robot_army.States.{WorkItemState, same_item, claimable_sources}
use robot_army.States.Table.{claimable_sources_exact}
use robot_army.Models.{WorkItem, Reason}
use robot_army.Db.{
  World, Result, ok, err, claimed_work_item, get_work_item, claim_lost, transaction,
}
use robot_army.Transition.{
  ItemColumn, item_columns, assign_item, update_items, claim_work_item, claimable, is_empty,
  won_claim, lost_claim,
}
use robot_army.Transition.Rows.{NamesNoState, id-assign_item, state-assign_item}
use robot_army.Transition.Gate.{get-update_items, id-get_work_item, state_of, written_state}

any_of_find {ℓ} :
    {A : Type ℓ} (test p : A → Bool) (xs : List A) (a : A)
    → find test xs ≡ some a
    → p a ≡ true
    → any p xs ≡ true
any_of_find test p [] a f h = absurd (cc f)
any_of_find test p (x ∷ xs) a f h = ground (arith, any_of_find test p xs a)

-- A row that a claim has taken cannot be taken again.
taken_once :
    (now item_id : ℕ) (target : WorkItemState) (extra : List ItemColumn) (rows : List WorkItem)
    → NamesNoState extra
    → any (claimable item_id (claimable_sources target)) (
        update_where
          (claimable item_id (claimable_sources target))
          (assign_item (item_columns now target extra))
          rows)
      ≡ false
taken_once now item_id target extra [] free = refl
taken_once now item_id target extra (r ∷ rows) free = ground (
  arith,
  taken_once now item_id target extra rows free,
  state-assign_item now target extra r free,
  id-assign_item (item_columns now target extra) r,
  (claimable_sources_exact target target).1,
)

nonempty_of_any :
    (s : WorkItemState) (ss : List WorkItemState)
    → any (same_item s) ss ≡ true
    → is_empty ss ≡ false
nonempty_of_any s [] h = absurd (cc h)
nonempty_of_any s (t ∷ ts) h = refl

module _ (item_id : ℕ) (target : WorkItemState) (now : ℕ) (reason : Reason)
    (extra : List ItemColumn) (w : World) where
  abbrev wanted : WorkItem → Bool
  wanted = claimable item_id (claimable_sources target)

  -- What the winner leaves behind.
  abbrev pub claimed : WorkItem → World
  claimed row =
      let w' =
        update_items (claimable item_id (claimable_sources target)) (item_columns now target extra)
          w in
      record w' {
        log =
            claimed_work_item item_id (claimable_sources target) target reason
              (assign_item (item_columns now target extra) row).dry_run
            ∷ w.log;
      }

  pub claim_effect :
      (row : WorkItem)
      → get_work_item w.db item_id ≡ some row
      → any (same_item row.state) (claimable_sources target) ≡ true
      → claim_work_item now item_id target reason extra w ≡ (ok tt, claimed row)
  unfolding claim_work_item get_work_item
  claim_effect row h able =
      rw (nonempty_of_any row.state (claimable_sources target) able, claim_work_item)
        (rw
          (
            any_of_find (λ (r : WorkItem). r.id == item_id) wanted w.db.work_items row h takes,
            claim_work_item,
          )
          (rw (found, won_claim)))
    where
      takes : wanted row ≡ true
      takes = ground (arith, id-get_work_item w.db item_id row h)

      found :
          get_work_item (update_items wanted (item_columns now target extra) w).db item_id
          ≡ some (assign_item (item_columns now target extra) row)
      found = get-update_items wanted (item_columns now target extra) w item_id ∙ rw h (rw takes)

  wanted_row :
      (row : WorkItem)
      → get_work_item w.db item_id ≡ some row
      → any (same_item row.state) (claimable_sources target) ≡ true
      → wanted row ≡ true
  wanted_row row h able = ground (arith, id-get_work_item w.db item_id row h)

  -- A claim of an item whose state has a legal transition into the target is won: the row then
  -- holds the target, and the log has one record more.
  pub claim_wins :
      (row : WorkItem)
      → get_work_item w.db item_id ≡ some row
      → any (same_item row.state) (claimable_sources target) ≡ true
      → NamesNoState extra
      → (claim_work_item now item_id target reason extra w ≡ (ok tt, claimed row))
        × (state_of (claimed row).db item_id ≡ some target)
  claim_wins row h able free = (
    claim_effect row h able,
    written_state wanted now target extra w item_id row h (wanted_row row h able) free,
  )

  -- Where no row passes the test of the statement, the claim raises and nothing is written.
  claim_loses :
      (s : WorkItemState)
      → is_empty (claimable_sources target) ≡ false
      → any wanted w.db.work_items ≡ false
      → state_of w.db item_id ≡ some s
      → claim_work_item now item_id target reason extra w ≡ (err (claim_lost s), w)
  unfolding claim_work_item lost_claim
  claim_loses s full none_wanted h =
      rw (full, claim_work_item) (rw (none_wanted, claim_work_item) (ground (arith, h)))

-- One attempt: the clock that it reads and the reason that it gives.
abbrev pub Attempt : Type 0
Attempt = ℕ × Reason

-- The attempts of several claimants for one item, one after the other, each in a transaction.
pub run_claims : ℕ → WorkItemState → List Attempt → World → List (Result (Unit {0}))
unfolding transaction
run_claims item_id target [] w = []
run_claims item_id target ((now, reason) ∷ later) w =
    let (r, w') = transaction (claim_work_item now item_id target reason []) w in
    r ∷ run_claims item_id target later w'

abbrev pub Lost : WorkItemState → Result (Unit {0}) → Type 0
Lost target r = r ≡ err (claim_lost target)

module _ (item_id : ℕ) (target : WorkItemState)
    (full : is_empty (claimable_sources target) ≡ false) where
  All-Lost :
      (attempts : List Attempt) (w : World)
      → any (claimable item_id (claimable_sources target)) w.db.work_items ≡ false
      → state_of w.db item_id ≡ some target
      → All (Lost target) (run_claims item_id target attempts w)
  unfolding run_claims
  All-Lost [] w none_wanted h = tt
  All-Lost ((now, reason) ∷ later) w none_wanted h =
      rw (claim_loses item_id target now reason [] w target full none_wanted h, run_claims)
        (refl, All-Lost later w none_wanted h)

length-run_claims :
    (item_id : ℕ) (target : WorkItemState) (attempts : List Attempt) (w : World)
    → length (run_claims item_id target attempts w) ≡ length attempts
unfolding run_claims
length-run_claims item_id target [] w = refl
length-run_claims item_id target ((now, reason) ∷ later) w = ap suc (
    length-run_claims item_id target later
      (transaction (claim_work_item now item_id target reason []) w).1)

-- Of any number of claims for an item that may be claimed, made one after the other, the first is
-- won and every later one is lost to the state that the winner wrote.
pub claims_exclusive :
    (item_id : ℕ) (target : WorkItemState) (now : ℕ) (reason : Reason) (later : List Attempt)
    (w : World) (row : WorkItem)
    → get_work_item w.db item_id ≡ some row
    → any (same_item row.state) (claimable_sources target) ≡ true
    → (rest : List (Result (Unit {0}))) × (run_claims item_id target ((now, reason) ∷ later) w
        ≡ ok tt ∷ rest)
      × (length rest ≡ length later)
      × All (Lost target) rest
unfolding run_claims
claims_exclusive item_id target now reason later w row h able =
    let wins = claim_wins item_id target now reason [] w row h able tt in
    (
      run_claims item_id target later (claimed item_id target now reason [] w row),
      rw (wins.0, run_claims),
      length-run_claims item_id target later (claimed item_id target now reason [] w row),
      All-Lost item_id target (nonempty_of_any row.state (claimable_sources target) able) later
          (claimed item_id target now reason [] w row)
          (taken_once now item_id target [] w.db.work_items tt) wins.1,
    )
