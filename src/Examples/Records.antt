-- ===== src/Examples/Records.antt =====
-- Spool records, as src/robot_army/spool.py reads them, on concrete tables.
use robot_army.Base.{
  ℕ, ◌<◌, ◌≡◌, refl, true, false, none, some, Option, List, [], ◌∷◌, ◌++◌, pos, ℤ, Bool, String,
  ◌^◌, str_eq, inr,
}
use robot_army.States.{
  active, starting, running, classify_exit, is_legal_session_transition,
  is_legal_work_item_transition,
}
use robot_army.Models.{
  Json, int, str, arr, no_items, obj, Fields, field, no_fields, Session, inferred_start,
}
use robot_army.Db.{
  World, type_error, ok, err, Error, unbindable, transaction, get_work_item, get_session,
  get_session_by_row_id, state_session, note,
}
use robot_army.Transition.{transition_work_item, transition_session}
use robot_army.Transition.Gate.{state_of}
use robot_army.Spool.{
  applied, duplicate, valid, parse_record, session_id_of, get, is_event, already_applied,
  fits_int64,
}
use robot_army.Spool.Apply.{apply_record, infer_start, settle_item}
use robot_army.Spool.Apply.Laws.{IsRow, follows}
use robot_army.Spool.Apply.Replay.{
  code_of, exit_record_applied, replay_is_noop, rolled_back_but_logged,
}
use robot_army.Spool.Drain.{
  File, contents, State, Turn, goes_on, escapes, drain_turn, drain_files, quarantine, exists,
  rejected_name, destination, announce,
}
use robot_army.Spool.Drain.Quarantine.{quarantine_fresh}
use robot_army.Spool.Drain.Files.{
  IsPoison, poisoned_drain, Justified, turn-Justified, reapplied_turn,
}
use robot_army.Examples.{item_in, session_in, world_of}

abbrev live : World
live = world_of (item_in 7 "acme/widgets" active ∷ []) (session_in running ∷ [])

abbrev launching : World
launching = world_of (item_in 7 "acme/widgets" active ∷ []) (session_in starting ∷ [])

-- `{"schema": 1, "event": "exit", "session_id": "s-1", "exit": …}`.
abbrev exit_record : ℤ → Fields
exit_record n =
    field "schema" (int (pos 1))
      (field "event" (str "exit") (field "session_id" (str "s-1") (field "exit" (int n) no_fields)))

abbrev bad_event : Fields
bad_event = field "schema" (int (pos 1)) (field "event" (arr no_items) no_fields)

-- The texts of the files, for the parser that the drain is given.
abbrev loads : String → Option Json
loads raw = elim (str_eq raw "killed") [
  | true ↦ some (obj (exit_record (pos 137)))
  | false ↦ elim (str_eq raw "odd") [ true ↦ some (obj bad_event) | false ↦ none ]
]

abbrev file_of : String → Bool → File
file_of raw unlinks = record {
  stem = "s-1.exit";
  suffix = ".json";
  read = contents raw;
  unlinks = unlinks;
  moves = true;
}

abbrev at_rest : World → State
at_rest w = record { world = w; rejected = "s-1.exit.json" ∷ "s-1.exit.1.json" ∷ []; sent = [] }

live-IsRow : IsRow live.db (session_id_of (exit_record (pos 137))) (session_in running)
unfolding session_id_of get get_session get_session_by_row_id
live-IsRow = (refl, refl)

launching-IsRow :
    IsRow launching.db (session_id_of (exit_record (pos (2 ^ 63)))) (session_in starting)
unfolding session_id_of get get_session get_session_by_row_id
launching-IsRow = (refl, refl)

exit_is_applied : (apply_record 500 (exit_record (pos 137)) live).0 ≡ ok applied
unfolding apply_record get_session session_id_of get is_event infer_start fits_int64 classify_exit
    transition_session get_session_by_row_id is_legal_session_transition settle_item get_work_item
    transition_work_item is_legal_work_item_transition
exit_is_applied = refl

killed_parses : parse_record loads "killed" ≡ valid (exit_record (pos 137))
unfolding parse_record get
killed_parses = refl

exit_record_applied_example :
    (w' : World) × (row' : Session) × (apply_record 500 (exit_record (pos 137)) live
      ≡ (ok applied, w'))
    × (IsRow w'.db (session_id_of (exit_record (pos 137))) row')
    × (row'.state ≡ (classify_exit (code_of (exit_record (pos 137)))).0)
    × (state_of w'.db 7
        ≡ follows (classify_exit (code_of (exit_record (pos 137)))).1 (state_of live.db 7))
unfolding get is_event already_applied fits_int64 classify_exit
exit_record_applied_example =
    exit_record_applied 500 (exit_record (pos 137)) live (session_in running) live-IsRow refl refl
      refl

replay_is_noop_example :
    apply_record 900 (exit_record (pos 137)) (apply_record 500 (exit_record (pos 137)) live).1
    ≡ (ok duplicate, (apply_record 500 (exit_record (pos 137)) live).1)
replay_is_noop_example =
    replay_is_noop 500 900 (exit_record (pos 137)) live (session_in running) live-IsRow
      exit_is_applied

rolled_back_but_logged_example :
    (w' : World) × (transaction (apply_record 500 (exit_record (pos (2 ^ 63)))) launching
      ≡ (err unbindable, w'))
    × (w'.db ≡ launching.db)
    × (w'.log
        ≡ state_session "s-1" starting running inferred_start false
          ∷ note "spool.exit_without_start" (some "s-1")
          ∷ [])
unfolding get is_event already_applied fits_int64 classify_exit
rolled_back_but_logged_example =
    rolled_back_but_logged 500 (exit_record (pos (2 ^ 63))) launching (session_in starting)
      launching-IsRow refl refl refl

odd-IsPoison : IsPoison loads (file_of "odd" true)
unfolding parse_record get
odd-IsPoison = inr ("odd", type_error, refl, refl)

poisoned_drain_example :
    (e : Error) × (l : List File) × ((drain_files 500 loads true
        (file_of "killed" true ∷ file_of "odd" true ∷ file_of "killed" true ∷ [])
        (at_rest live)).escaped
      ≡ some e)
    × ((drain_files 500 loads true
          (file_of "killed" true ∷ file_of "odd" true ∷ file_of "killed" true ∷ [])
          (at_rest live)).left
        ≡ l ++ file_of "odd" true ∷ file_of "killed" true ∷ [])
poisoned_drain_example =
    poisoned_drain 500 loads true (file_of "killed" true ∷ []) (file_of "odd" true)
      (file_of "killed" true ∷ []) (at_rest live) odd-IsPoison

quarantine_fresh_example :
    (counter : ℕ) × ((quarantine 500 (file_of "{" true) (at_rest live)).1.rejected
      ≡ rejected_name "s-1.exit" ".json" counter ∷ (at_rest live).rejected)
    × (exists (at_rest live).rejected (rejected_name "s-1.exit" ".json" counter) ≡ false)
    × ((k : ℕ)
        → k < counter
        → exists (at_rest live).rejected (rejected_name "s-1.exit" ".json" k) ≡ true)
quarantine_fresh_example = quarantine_fresh 500 (file_of "{" true) (at_rest live) refl

-- The two names that are taken are passed over.
third_name : destination (file_of "{" true) (at_rest live).rejected ≡ "s-1.exit.2.json"
unfolding destination
third_name = refl

reapplied_turn_example :
    (s₁ : State) × (s₂ : State) × (drain_turn 500 loads true (file_of "killed" false) (at_rest live)
      ≡ goes_on false (record { applied = 1; duplicates = 0; quarantined = 0; orphaned = 0 }) s₁)
    × (drain_turn 900 loads true (file_of "killed" false) s₁
        ≡ goes_on false (record { applied = 0; duplicates = 1; quarantined = 0; orphaned = 0 }) s₂)
    × (s₂.world.db ≡ s₁.world.db)
    × (s₂.sent ≡ s₁.sent)
reapplied_turn_example =
    reapplied_turn 500 900 loads true (file_of "killed" false) "killed" (exit_record (pos 137))
      (at_rest live) (session_in running) refl killed_parses live-IsRow exit_is_applied refl

-- The state after a turn.
abbrev after_turn : Turn → State
after_turn (goes_on _ _ s) = s
after_turn (escapes _ s) = s

turn-Justified_example :
    Justified 500 loads
      (file_of "killed" true)
      (at_rest live)
      (after_turn (drain_turn 500 loads true (file_of "killed" true) (at_rest live)))
unfolding drain_turn parse_record transaction announce apply_record get_session session_id_of get
    is_event infer_start fits_int64 classify_exit transition_session get_session_by_row_id
    is_legal_session_transition settle_item get_work_item transition_work_item
    is_legal_work_item_transition
turn-Justified_example =
    turn-Justified 500 loads true (file_of "killed" true) (at_rest live)
      (record { applied = 1; duplicates = 0; quarantined = 0; orphaned = 0 })
      (after_turn (drain_turn 500 loads true (file_of "killed" true) (at_rest live))) refl
