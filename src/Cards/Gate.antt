-- ===== src/Cards/Gate.antt =====
-- What any number of calls of `transition_card` of src/robot_army/cardstates.py can do to a card.
use mathlib.Core.Option
use robot_army.Base.{
  ℕ, suc, ◌+◌, ◌≤◌, ◌==◌, ==_iff, ◌≡◌, refl, ap, ◌∙◌, true, false, Option, some, List, [], ◌∷◌, All,
  arith, any, length, ◌⊎◌, inl, inr, Bool-cases,
}
use robot_army.Models.{
  Card, CardState, card_discovered, needs_info, creating, linked, card_dropped, Reason,
}
use robot_army.Db.{Db, World, get_card_by_id, transaction, state_card}
use robot_army.Transition.Rows.{find-update_where}
use robot_army.Transition.Gate.{find_passes}
use robot_army.Cards.{
  same_card, is_legal_card_transition, terminal_card_states, CardColumn, card_state_column,
  set_card_column, card_stamp_entry, card_columns, assign_card, update_cards, move_card,
  transition_card,
}

-- The further columns of a call do not name the state.
abbrev pub NamesNoCardState : List CardColumn → Type 0
NamesNoCardState [] = Unit
NamesNoCardState (card_state_column _ ∷ cs) = ⊥
NamesNoCardState (_ ∷ cs) = NamesNoCardState cs

no_way_out :
    (s t : CardState)
    → any (same_card s) terminal_card_states ≡ true
    → is_legal_card_transition s t ≡ true
    → ⊥
unfolding is_legal_card_transition terminal_card_states
no_way_out s t h k = ground arith

-- How far a card has come.
unfoldable pub rank : CardState → ℕ
rank card_discovered = 0
rank needs_info = 1
rank creating = 2
rank linked = 3
rank card_dropped = 3

legal_climbs : (s t : CardState) → is_legal_card_transition s t ≡ true → suc (rank s) ≤ rank t
unfolding is_legal_card_transition rank
legal_climbs s t h = ground arith

rank_le : (s : CardState) → rank s ≤ 3
unfolding rank
rank_le s = ground arith

legal_not_same_card :
    (s t : CardState) → is_legal_card_transition s t ≡ true → same_card s t ≡ false
unfolding is_legal_card_transition
legal_not_same_card s t h = ground arith

id-set_card_column : (r : Card) (c : CardColumn) → (set_card_column r c).id ≡ r.id
unfolding set_card_column
id-set_card_column r c = ground arith

pub id-assign_card : (cs : List CardColumn) (r : Card) → (assign_card cs r).id ≡ r.id
unfolding assign_card
id-assign_card [] r = refl
id-assign_card (c ∷ cs) r = id-assign_card cs (set_card_column r c) ∙ id-set_card_column r c

state-assign_card_extra :
    (cs : List CardColumn) (r : Card) → NamesNoCardState cs → (assign_card cs r).state ≡ r.state
unfolding assign_card
state-assign_card_extra [] r h = refl
state-assign_card_extra (card_state_column s ∷ cs) r h = absurd h
state-assign_card_extra (c ∷ cs) r h = state-assign_card_extra cs (set_card_column r c) h

state-assign_card :
    (now : ℕ) (target : CardState) (extra : List CardColumn) (r : Card)
    → NamesNoCardState extra
    → (assign_card (card_columns now target extra) r).state ≡ target
unfolding card_columns assign_card card_stamp_entry
state-assign_card now creating extra r h =
    state-assign_card_extra extra
      (record r { state = creating; updated_at = now; intent_at = some now }) h
state-assign_card now target extra r h =
    state-assign_card_extra extra (record r { state = target; updated_at = now }) h

abbrev pub card_state_of : Db → ℕ → Option CardState
card_state_of d j = Option.map (λ (r : Card). r.state) (get_card_by_id d j)

-- One call: the clock, the target, the reason and the further columns.
abbrev pub CardCall : Type 0
CardCall = ℕ × CardState × Reason × List CardColumn

-- Calls for one card, each in a transaction of its own, whose error is dropped.
unfoldable pub card_calls : ℕ → List CardCall → World → World
unfolding transaction
card_calls j [] w = w
card_calls j ((now, target, reason, extra) ∷ cs) w =
    card_calls j cs (transaction (transition_card now j target reason extra) w).1

abbrev card_moved : ℕ → ℕ → CardState → Reason → List CardColumn → Card → World → World
card_moved now j target reason extra row w =
    record (update_cards j (card_columns now target extra) w) {
      log = state_card row.card_id row.state target reason row.dry_run ∷ w.log;
    }

card_outcome :
    (now j : ℕ) (target : CardState) (reason : Reason) (extra : List CardColumn) (w : World)
    (row : Card)
    → get_card_by_id w.db j ≡ some row
    → ((transaction (transition_card now j target reason extra) w).1 ≡ w)
      ⊎ ((is_legal_card_transition row.state target ≡ true)
          × ((transaction (transition_card now j target reason extra) w).1
              ≡ card_moved now j target reason extra row w))
unfolding transaction transition_card
card_outcome now j target reason extra w row found =
    elim (Bool-cases (same_card row.state target)) [
      | inl same' ↦ inl (unfold move_card in ground (arith, found, same'))
      | inr differs' ↦ elim (Bool-cases (is_legal_card_transition row.state target)) [
        | inr bad' ↦ inl (unfold move_card in ground (arith, found, differs', bad'))
        | inl good' ↦ inr (good', unfold move_card in ground (arith, found, differs', good'))
      ]
    ]

pub id-get_card_by_id : (d : Db) (j : ℕ) (r : Card) → get_card_by_id d j ≡ some r → r.id ≡ j
unfolding get_card_by_id
id-get_card_by_id d j r h = (==_iff _ _).0 (find_passes (λ (r : Card). r.id == j) d.cards r h)

moved_found :
    (now j : ℕ) (target : CardState) (reason : Reason) (extra : List CardColumn) (row : Card)
    (w : World)
    → NamesNoCardState extra
    → get_card_by_id w.db j ≡ some row
    → (row' : Card) × (get_card_by_id (card_moved now j target reason extra row w).db j ≡ some row')
      × (row'.state ≡ target)
unfolding get_card_by_id
moved_found now j target reason extra row w free found = (
  assign_card (card_columns now target extra) row,
  find-update_where (λ r. r.id == j) (λ r. r.id == j) (assign_card (card_columns now target extra))
        w.db.cards (λ r. ap (λ (i : ℕ). i == j) (id-assign_card (card_columns now target extra) r))
      ∙ rw found (rw ((==_iff row.id j).1 (id-get_card_by_id w.db j row found)) refl),
  state-assign_card now target extra row free,
)

abbrev pub AdmissibleCard : CardCall → Type 0
AdmissibleCard (_, _, _, extra) = NamesNoCardState extra

-- Every call that writes raises the rank of the card and adds one record.
calls_climb :
    (j : ℕ) (cs : List CardCall) (w : World) (row : Card)
    → All AdmissibleCard cs
    → get_card_by_id w.db j ≡ some row
    → (row' : Card) × (get_card_by_id (card_calls j cs w).db j ≡ some row')
      × (rank row.state + length (card_calls j cs w).log ≤ rank row'.state + length w.log)
      × (length w.log ≤ length (card_calls j cs w).log)
unfolding card_calls
calls_climb j [] w row free found = (row, found, omega arith, omega arith)
calls_climb j ((now, target, reason, extra) ∷ cs) w row free found =
    elim (card_outcome now j target reason extra w row found) [
      | inl same' ↦ rw (same', card_calls) (calls_climb j cs w row free.1 found)
      | inr (good', e) ↦
          let (row₁, found₁, at₁) = moved_found now j target reason extra row w free.0 found in
          let (row₂, found₂, climb, grows) =
            calls_climb j cs (card_moved now j target reason extra row w) row₁ free.1 found₁ in
          let at₁' : rank row₁.state ≡ rank target = ap rank at₁ in
          rw (e, card_calls)
            (
              row₂,
              found₂,
              omega (arith, climb, at₁', legal_climbs row.state target good'),
              omega (arith, grows),
            )
    ]

-- However often and with whatever targets the gate is called for a card, the card is still there
-- afterwards, has never gone back in the order discovered, needs_info, creating, then linked or
-- dropped, and the calls have written three records at most. The calls' further columns name no
-- state.
pub card_moves_bounded :
    (j : ℕ) (cs : List CardCall) (w : World) (row : Card)
    → All AdmissibleCard cs
    → get_card_by_id w.db j ≡ some row
    → (row' : Card) × (get_card_by_id (card_calls j cs w).db j ≡ some row')
      × (rank row.state ≤ rank row'.state)
      × (length (card_calls j cs w).log ≤ length w.log + 3)
card_moves_bounded j cs w row free found =
    let (row', found', climb, grows) = calls_climb j cs w row free found in
    (row', found', omega (arith, climb, grows), omega (arith, climb, rank_le row'.state))

-- A linked card stays linked, and a dropped card stays dropped, whatever the gate is called with.
pub terminal_cards_stay :
    (j : ℕ) (cs : List CardCall) (w : World) (row : Card)
    → get_card_by_id w.db j ≡ some row
    → any (same_card row.state) terminal_card_states ≡ true
    → card_calls j cs w ≡ w
unfolding card_calls
terminal_cards_stay j [] w row found done' = refl
terminal_cards_stay j ((now, target, reason, extra) ∷ cs) w row found done' =
    elim (card_outcome now j target reason extra w row found) [
      | inl same' ↦ rw (same', card_calls) (terminal_cards_stay j cs w row found done')
      | inr (good', e) ↦ absurd (no_way_out row.state target done' good')
    ]
