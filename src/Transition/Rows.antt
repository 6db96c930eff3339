-- ===== src/Transition/Rows.antt =====
-- An UPDATE seen through a lookup by key: the row that the WHERE clause takes is rewritten, and
-- every other row is found as it was.
use robot_army.Base.{
  ℕ, ◌==◌, ◌≡◌, ◌∙◌, refl, Bool, true, false, Option, none, some, List, [], ◌∷◌, ◌++◌, arith, find,
  update_where, if◌then◌else◌, any, ◌&&◌, Bool-cases, inl, inr,
}
use mathlib.Core.Option
use robot_army.States.{
  WorkItemState, SessionState, work_item_stamp_column, session_stamp_column, ItemStamp,
  SessionStamp,
}
use robot_army.Models.{WorkItem, Session}
use robot_army.Transition.{
  ItemColumn, SessionColumn, item_stamp_entry, session_stamp_entry, assign_item, assign_session,
  item_columns, session_columns, set_item_column, set_session_column, state_column, stamp_column,
  session_state_column, session_stamp,
}

module _ {ℓ} {A : Type ℓ} where
  -- A lookup and an update of rows that keeps what the lookup tests.
  pub find-update_where :
      (test wanted : A → Bool) (f : A → A) (rows : List A)
      → ((r : A) → test (f r) ≡ test r)
      → find test (update_where wanted f rows)
        ≡ Option.map (λ r. if wanted r then f r else r) (find test rows)
  find-update_where test wanted f [] keeps = refl
  find-update_where test wanted f (r ∷ rows) keeps =
      ground (arith, keeps r, find-update_where test wanted f rows keeps)

-- The extra columns of a call name no state, as no caller's do.
abbrev pub NamesNoState : List ItemColumn → Type 0
NamesNoState [] = Unit
NamesNoState (state_column _ ∷ cs) = ⊥
NamesNoState (_ ∷ cs) = NamesNoState cs

abbrev pub NamesNoSessionState : List SessionColumn → Type 0
NamesNoSessionState [] = Unit
NamesNoSessionState (session_state_column _ ∷ cs) = ⊥
NamesNoSessionState (_ ∷ cs) = NamesNoSessionState cs

id-set_item_column : (r : WorkItem) (c : ItemColumn) → (set_item_column r c).id ≡ r.id
unfolding set_item_column
id-set_item_column r c = ground arith

pub id-assign_item : (cs : List ItemColumn) (r : WorkItem) → (assign_item cs r).id ≡ r.id
unfolding assign_item
id-assign_item [] r = refl
id-assign_item (c ∷ cs) r = id-assign_item cs (set_item_column r c) ∙ id-set_item_column r c

id-set_session_column : (r : Session) (c : SessionColumn) → (set_session_column r c).id ≡ r.id
unfolding set_session_column
id-set_session_column r c = ground arith

pub id-assign_session : (cs : List SessionColumn) (r : Session) → (assign_session cs r).id ≡ r.id
unfolding assign_session
id-assign_session [] r = refl
id-assign_session (c ∷ cs) r =
    id-assign_session cs (set_session_column r c) ∙ id-set_session_column r c

state-assign_extra :
    (cs : List ItemColumn) (r : WorkItem) → NamesNoState cs → (assign_item cs r).state ≡ r.state
unfolding assign_item
state-assign_extra [] r h = refl
state-assign_extra (state_column s ∷ cs) r h = absurd h
state-assign_extra (c ∷ cs) r h = state-assign_extra cs (set_item_column r c) h

session_state-assign_extra :
    (cs : List SessionColumn) (r : Session)
    → NamesNoSessionState cs
    → (assign_session cs r).state ≡ r.state
unfolding assign_session
session_state-assign_extra [] r h = refl
session_state-assign_extra (session_state_column s ∷ cs) r h = absurd h
session_state-assign_extra (c ∷ cs) r h = session_state-assign_extra cs (set_session_column r c) h

assign_stamped :
    (c : Option ItemStamp) (now : ℕ) (extra : List ItemColumn) (r : WorkItem)
    → NamesNoState extra
    → (assign_item (item_stamp_entry now c ++ extra) r).state ≡ r.state
unfolding assign_item
assign_stamped none now extra r h = state-assign_extra extra r h
assign_stamped (some c) now extra r h =
    state-assign_extra extra (set_item_column r (stamp_column c now)) h

assign_session_stamped :
    (c : Option SessionStamp) (now : ℕ) (extra : List SessionColumn) (r : Session)
    → NamesNoSessionState extra
    → (assign_session (session_stamp_entry now c ++ extra) r).state ≡ r.state
unfolding assign_session
assign_session_stamped none now extra r h = session_state-assign_extra extra r h
assign_session_stamped (some c) now extra r h =
    session_state-assign_extra extra (set_session_column r (session_stamp c now)) h

-- Whatever else a transition writes, the state that it writes is its target.
pub state-assign_item :
    (now : ℕ) (target : WorkItemState) (extra : List ItemColumn) (r : WorkItem)
    → NamesNoState extra
    → (assign_item (item_columns now target extra) r).state ≡ target
unfolding item_columns assign_item
state-assign_item now target extra r h =
    assign_stamped (work_item_stamp_column target) now extra
      (record r { state = target; updated_at = now }) h

pub state-assign_session :
    (now : ℕ) (target : SessionState) (extra : List SessionColumn) (r : Session)
    → NamesNoSessionState extra
    → (assign_session (session_columns now target extra) r).state ≡ target
unfolding session_columns assign_session
state-assign_session now target extra r h =
    assign_session_stamped (session_stamp_column target) now extra (record r { state = target }) h

-- `id` is the primary key.
abbrev pub IsKeyed : List WorkItem → Type 0
IsKeyed [] = Unit
IsKeyed (r ∷ rs) = (any (λ q. q.id == r.id) rs ≡ false) × IsKeyed rs

any-update_where :
    (i : ℕ) (wanted : WorkItem → Bool) (cs : List ItemColumn) (rows : List WorkItem)
    → any (λ q. q.id == i) (update_where wanted (assign_item cs) rows) ≡ any (λ q. q.id == i) rows
any-update_where i wanted cs [] = refl
any-update_where i wanted cs (r ∷ rs) =
    ground (arith, any-update_where i wanted cs rs, id-assign_item cs r)

pub update_where-IsKeyed :
    (wanted : WorkItem → Bool) (cs : List ItemColumn) (rows : List WorkItem)
    → IsKeyed rows
    → IsKeyed (update_where wanted (assign_item cs) rows)
update_where-IsKeyed wanted cs [] k = tt
update_where-IsKeyed wanted cs (r ∷ rs) k = (
  ground (arith, any-update_where r.id wanted cs rs, id-assign_item cs r, k.0),
  update_where-IsKeyed wanted cs rs k.1,
)

no_such_id :
    (i : ℕ) (p : WorkItem → Bool) (rows : List WorkItem)
    → any (λ q. q.id == i) rows ≡ false
    → any (λ q. q.id == i && p q) rows ≡ false
no_such_id i p [] h = refl
no_such_id i p (r ∷ rs) h = ground (arith, no_such_id i p rs)

-- Where the key is unique, a test of one id and of something else passes at the row found by the id.
pub keyed_row :
    (i : ℕ) (p : WorkItem → Bool) (rows : List WorkItem)
    → IsKeyed rows
    → any (λ q. q.id == i && p q) rows ≡ true
    → (row : WorkItem) × (find (λ q. q.id == i) rows ≡ some row) × (p row ≡ true)
keyed_row i p [] k h = absurd (cc h)
keyed_row i p (r ∷ rs) k h = elim (Bool-cases (r.id == i)) [
  | inl here ↦ (r, ground arith, ground (arith, no_such_id i p rs, k.0))
  | inr other ↦
      let (row, at, passes) = keyed_row i p rs k.1 (ground arith) in
      (row, ground (arith, at), passes)
]
