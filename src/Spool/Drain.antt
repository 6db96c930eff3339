-- ===== src/Spool/Drain.antt =====
-- `drain` of src/robot_army/spool.py. A file of the spool has the stem and the suffix that its name is
-- joined from, and carries what the file system will answer
-- when the drain reads it, unlinks it or moves it aside.
pub mod Files
pub mod Quarantine
use robot_army.Base.{
  ℕ, zero, suc, ◌+◌, ◌==◌, String, str_eq, Bool, true, false, not, ◌&&◌, Option, none, some, List,
  [], ◌∷◌, if◌then◌else◌, any, append, digits, length,
}
use robot_army.States.{WorkItemState, awaiting_review, failed, same_item}
use robot_army.Models.{Json, Fields, Session, WorkItem, Reason, text}
use robot_army.Db.{
  Db, World, Error, Result, ok, err, AuditRecord, note, transaction, get_session, get_work_item,
  decode_error,
}
use robot_army.Db.Anomalies.{raise_anomaly}
use robot_army.Spool.{
  Verdict, applied, duplicate, orphan, Fault, Parsed, valid, malformed, raised, parse_record,
  session_id_of,
}
use robot_army.Spool.Apply.{apply_record}

-- `path.read_text(encoding="utf-8")`: its text, FileNotFoundError, another OSError, or a
-- UnicodeDecodeError, which is no OSError.
pub data ReadOutcome : Type 0 where
  contents : String → ReadOutcome
  vanished unreadable undecodable : ReadOutcome

pub record File : Type 0 where
  pub stem : String
  pub suffix : String
  pub read : ReadOutcome
  pub unlinks : Bool
  pub moves : Bool

pub record DrainResult : Type 0 where
  pub applied : ℕ
  pub duplicates : ℕ
  pub quarantined : ℕ
  pub orphaned : ℕ

infixl 65 ◌⊕◌
abbrev pub ◌⊕◌ : DrainResult → DrainResult → DrainResult
a ⊕ b = record {
  applied = a.applied + b.applied;
  duplicates = a.duplicates + b.duplicates;
  quarantined = a.quarantined + b.quarantined;
  orphaned = a.orphaned + b.orphaned;
}

abbrev pub total : DrainResult → ℕ
total r = r.applied + r.duplicates + r.quarantined + r.orphaned

abbrev pub nothing : DrainResult
nothing = record { applied = 0; duplicates = 0; quarantined = 0; orphaned = 0 }

-- `path.name`, and with a counter `f"{path.stem}.{counter}{path.suffix}"`.
unfoldable pub rejected_name : String → String → ℕ → String
unfolding digits
rejected_name stem suffix zero = append stem suffix
rejected_name stem suffix (suc k) =
    append stem (append "." (append (digits (suc (suc k)) (suc k)) suffix))

-- Whether the directory of rejected records has a file of this name.
abbrev pub exists : List String → String → Bool
exists taken name = any (λ r. str_eq r name) taken

-- `while destination.exists(): counter += 1`, with fuel.
unfoldable pub free_counter : ℕ → List String → (ℕ → String) → ℕ → ℕ
free_counter zero taken name counter = counter
free_counter (suc fuel) taken name counter = elim (exists taken (name counter)) [
  | true ↦ free_counter fuel taken name (suc counter)
  | false ↦ counter
]

pub data Announcement : Type 0 where
  completion failure : ℕ → Announcement

-- What the drain changes: the tables and the log, the two directories, and what was sent.
pub record State : Type 0 where
  pub world : World
  pub rejected : List String
  pub sent : List Announcement

abbrev log_note : String → Option String → World → World
log_note action id w = record w { log = note action id ∷ w.log }

-- The name that the file gets among the rejected records.
unfoldable pub destination : File → List String → String
unfolding free_counter rejected_name
destination f taken =
    let name = rejected_name f.stem f.suffix in
    name (free_counter (suc (length taken)) taken name 0)

-- `quarantine`: whether the file has left the spool, and the state afterwards.
unfoldable pub quarantine : ℕ → File → State → Bool × State
unfolding destination
quarantine now f s =
    if f.moves
    then (
      true,
      record s {
        world =
            log_note "spool.quarantine" (some (destination f s.rejected))
              (transaction
                (raise_anomaly now "malformed_exit_record" (text "malformed") (some "session")
                  (some (append f.stem f.suffix)) false)
                s.world).1;
        rejected = destination f s.rejected ∷ s.rejected;
      },
    )
    else (false, record s { world = log_note "spool.quarantine" none s.world })

-- `_item_for_record`.
item_for_record : Db → Fields → Option WorkItem
item_for_record d payload = elim (get_session d (session_id_of payload)) [
  | none ↦ none
  | some row ↦ get_work_item d row.work_item_id
]

-- `_announce`, with the item as it stood before the record was applied.
unfoldable pub announce : Option WorkItem → Db → List Announcement → List Announcement
announce none d sent = sent
announce (some before) d sent = elim (get_work_item d before.id) [
  | none ↦ sent
  | some after ↦
      if same_item after.state before.state
      then sent
      else if same_item after.state awaiting_review
      then completion after.id ∷ sent
      else if same_item after.state failed
      then failure after.id ∷ sent
      else sent
]

-- One turn of the loop: an exception that escapes the drain, or whether the file has left the
-- spool, the counts that it adds and the state.
pub data Turn : Type 0 where
  escapes : Error → State → Turn
  goes_on : Bool → DrainResult → State → Turn

abbrev after_commit : Bool → World → World
after_commit true w = w
after_commit false w = log_note "spool.unlink" none w

-- What the verdict of a committed transaction leads to. An orphan's file is kept.
conclude : Bool → Option WorkItem → File → Verdict → World → State → Turn
unfolding announce
conclude announcing before f orphan w s =
    goes_on false (record { applied = 0; duplicates = 0; quarantined = 0; orphaned = 1 })
      (record s { world = w })
conclude announcing before f duplicate w s =
    goes_on f.unlinks (record { applied = 0; duplicates = 1; quarantined = 0; orphaned = 0 })
      (record s { world = after_commit f.unlinks w })
conclude announcing before f applied w s =
    goes_on f.unlinks (record { applied = 1; duplicates = 0; quarantined = 0; orphaned = 0 })
      (record s {
        world = after_commit f.unlinks w;
        sent = if announcing then announce before w.db s.sent else s.sent;
      })

-- A failed transaction is logged, and the file is left for the next drain.
abbrev settle_turn : Bool → Option WorkItem → File → State → Result Verdict × World → Turn
settle_turn announcing before f s (ok v, w) = conclude announcing before f v w s
settle_turn announcing before f s (err e, w) =
    goes_on false nothing (record s { world = log_note "spool.apply" none w })

apply_turn : ℕ → Bool → File → Fields → State → Turn
unfolding conclude item_for_record
apply_turn now announcing f payload s =
    settle_turn announcing (item_for_record s.world.db payload) f s
      (transaction (apply_record now payload) s.world)

parsed_turn : ℕ → Bool → File → Parsed → State → Turn
unfolding apply_turn
parsed_turn now announcing f (valid payload) s = apply_turn now announcing f payload s
parsed_turn now announcing f (malformed fault) s =
    let (gone, s') = quarantine now f s in
    goes_on gone (record { applied = 0; duplicates = 0; quarantined = 1; orphaned = 0 }) s'
parsed_turn now announcing f (raised e) s = escapes e s

read_turn : ℕ → (String → Option Json) → Bool → File → ReadOutcome → State → Turn
unfolding parsed_turn
read_turn now loads announcing f (contents raw) s =
    parsed_turn now announcing f (parse_record loads raw) s
read_turn now loads announcing f vanished s = goes_on true nothing s
read_turn now loads announcing f unreadable s =
    goes_on false nothing (record s { world = log_note "spool.read" none s.world })
read_turn now loads announcing f undecodable s = escapes decode_error s

unfoldable pub drain_turn : ℕ → (String → Option Json) → Bool → File → State → Turn
unfolding read_turn
drain_turn now loads announcing f s = read_turn now loads announcing f f.read s

-- `escaped` is an exception that left the drain, whose result is then lost.
pub record Drained : Type 0 where
  pub escaped : Option Error
  pub left : List File
  pub result : DrainResult
  pub state : State

-- The loop over the sorted files.
unfoldable pub drain_files : ℕ → (String → Option Json) → Bool → List File → State → Drained
drain_files now loads announcing [] s = record {
  escaped = none;
  left = [];
  result = nothing;
  state = s;
}
drain_files now loads announcing (f ∷ fs) s = elim (drain_turn now loads announcing f s) [
  | escapes e s' ↦ record { escaped = some e; left = f ∷ fs; result = nothing; state = s' }
  | goes_on gone counts s' ↦
      let rest = drain_files now loads announcing fs s' in
      record rest {
        left = if gone then rest.left else f ∷ rest.left;
        result = counts ⊕ rest.result;
      }
]

-- A drain that ends by itself logs its counts, if there is anything to count.
abbrev log_total : Drained → Drained
log_total d = elim d.escaped [
  | some e ↦ d
  | none ↦
      if total d.result == 0
      then d
      else record d { state = record d.state { world = log_note "spool.drain" none d.state.world } }
]

unfoldable pub drain : ℕ → (String → Option Json) → Bool → Bool → List File → State → Drained
unfolding drain_files
drain now loads announcing is_dir files s =
    if is_dir
    then log_total (drain_files now loads announcing files s)
    else record { escaped = none; left = []; result = nothing; state = s }
