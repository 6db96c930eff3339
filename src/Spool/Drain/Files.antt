-- ===== src/Spool/Drain/Files.antt =====
-- What a drain does with the files of the spool: which may leave it, which one stops it, and what
-- the next drain makes of a record whose file could not be unlinked.
use robot_army.Base.{
  ℕ, String, ◌≡◌, ◌≢◌, refl, sym, ap, ◌∙◌, Bool, true, false, ◌⊎◌, inl, inr, Option, none, some,
  List, [], ◌∷◌, ◌++◌, if◌then◌else◌, arith, Bool-cases,
}
use robot_army.Models.{Json, Fields}
use robot_army.Db.{World, Error, Result, ok, err, transaction, decode_error, note}
use robot_army.Spool.{
  Fault, Verdict, applied, duplicate, orphan, Parsed, valid, malformed, raised, parse_record,
  session_id_of,
}
use robot_army.Spool.Apply.{apply_record}
use robot_army.Spool.Apply.Laws.{IsRow}
use robot_army.Spool.Apply.Replay.{applied_already, duplicate_of}
use robot_army.Models.{Session, WorkItem}
use robot_army.Spool.Drain.Quarantine.{quarantine_fresh}
use robot_army.Spool.Drain.{
  File, ReadOutcome, contents, vanished, unreadable, undecodable, State, Turn, escapes, goes_on,
  DrainResult, drain_turn, drain_files, read_turn, parsed_turn, apply_turn, quarantine, conclude,
  settle_turn, item_for_record, announce, rejected_name,
}

-- Reading the file, or parsing what it holds, raises what the drain does not catch.
abbrev pub IsPoison : (String → Option Json) → File → Type 0
IsPoison loads f =
    (f.read ≡ undecodable)
    ⊎ ((raw : String) × (e : Error) × (f.read ≡ contents raw) × (parse_record loads raw ≡ raised e))

poison_turn :
    (now : ℕ) (loads : String → Option Json) (announcing : Bool) (f : File) (s : State)
    → IsPoison loads f
    → (e : Error) × (drain_turn now loads announcing f s ≡ escapes e s)
unfolding drain_turn
poison_turn now loads announcing f s (inl bad) = (decode_error, rw bad)
poison_turn now loads announcing f s (inr (raw, e, holds, raises)) = (e, rw holds (rw raises))

-- A file that is not UTF-8, or on whose text the parser raises what the drain does not catch, ends
-- every drain with an exception wherever it stands, and it and all the files behind it stay in the
-- spool.
pub poisoned_drain :
    (now : ℕ) (loads : String → Option Json) (announcing : Bool) (before : List File) (f : File)
    (after : List File) (s : State)
    → IsPoison loads f
    → (e : Error) × (l : List File) × ((drain_files now loads announcing
          (before ++ f ∷ after)
          s).escaped
        ≡ some e)
      × ((drain_files now loads announcing (before ++ f ∷ after) s).left ≡ l ++ f ∷ after)
unfolding drain_files
poisoned_drain now loads announcing [] f after s poison =
    let (e, turn) = poison_turn now loads announcing f s poison in
    (e, [], rw (turn, drain_files), rw (turn, drain_files))
poisoned_drain now loads announcing (g ∷ before) f after s poison =
    go (drain_turn now loads announcing g s) refl
      (λ s'. poisoned_drain now loads announcing before f after s' poison)
  where
    go :
        (t : Turn)
        → drain_turn now loads announcing g s ≡ t
        → ((s' : State)
            → (e : Error) × (l : List File) × ((drain_files now loads announcing
                  (before ++ f ∷ after)
                  s').escaped
                ≡ some e)
              × ((drain_files now loads announcing (before ++ f ∷ after) s').left ≡ l ++ f ∷ after))
        → (e : Error) × (l : List File) × ((drain_files now loads announcing
              (g ∷ before ++ f ∷ after)
              s).escaped
            ≡ some e)
          × ((drain_files now loads announcing (g ∷ before ++ f ∷ after) s).left ≡ l ++ f ∷ after)
    go (escapes e s') turn rest = (e, g ∷ before, rw (turn, drain_files), rw (turn, drain_files))
    go (goes_on true counts s') turn rest =
        let (e, l, raises, stays) = rest s' in
        (e, l, rw (turn, drain_files) raises, rw (turn, drain_files) stays)
    go (goes_on false counts s') turn rest =
        let (e, l, raises, stays) = rest s' in
        (
          e,
          g ∷ l,
          rw (turn, drain_files) raises,
          rw (turn, drain_files) (ap (λ (k : List File). g ∷ k) stays),
        )

-- Why a file has left the spool after a turn that raises nothing: it was gone before it could be
-- read, it was moved to the rejected records, or the transaction of its record was committed and
-- found the session.
abbrev pub Justified : ℕ → (String → Option Json) → File → State → State → Type 0
Justified now loads f s s' =
    (f.read ≡ vanished)
    ⊎ ((fault : Fault) × (raw : String) × (f.read ≡ contents raw)
        × (parse_record loads raw ≡ malformed fault)
        × ((counter : ℕ) × (s'.rejected ≡ rejected_name f.stem f.suffix counter ∷ s.rejected)))
    ⊎ ((payload : Fields) × (raw : String) × (f.read ≡ contents raw)
        × (parse_record loads raw ≡ valid payload)
        × ((v : Verdict) × ((transaction (apply_record now payload) s.world).0 ≡ ok v)
            × (v ≢ orphan)))

committed :
    (announcing : Bool) (before : Option WorkItem) (f : File) (s : State) (counts : DrainResult)
    (s' : State) (r : Result Verdict × World)
    → settle_turn announcing before f s r ≡ goes_on true counts s'
    → (v : Verdict) × (r.0 ≡ ok v) × (v ≢ orphan)
unfolding conclude
committed announcing before f s counts s' (err e, w) h = absurd (cc h)
committed announcing before f s counts s' (ok orphan, w) h = absurd (cc h)
committed announcing before f s counts s' (ok duplicate, w) h = (duplicate, refl, λ e. cc)
committed announcing before f s counts s' (ok applied, w) h = (applied, refl, λ e. cc)

Justified-read :
    (now : ℕ) (loads : String → Option Json) (announcing : Bool) (f : File) (s : State)
    (counts : DrainResult) (s' : State) (r : ReadOutcome)
    → f.read ≡ r
    → read_turn now loads announcing f r s ≡ goes_on true counts s'
    → Justified now loads f s s'
unfolding read_turn parsed_turn
Justified-read now loads announcing f s counts s' vanished is h = inl is
Justified-read now loads announcing f s counts s' unreadable is h = absurd (cc h)
Justified-read now loads announcing f s counts s' undecodable is h = absurd (cc h)
Justified-read now loads announcing f s counts s' (contents raw) is h =
    go (parse_record loads raw) refl h
  where
    quarantined_state :
        (fault : Fault)
        → parsed_turn now announcing f (malformed fault) s ≡ goes_on true counts s'
        → (quarantine now f s).1 ≡ s'
    quarantined_state fault t = cc t

    go :
        (p : Parsed)
        → parse_record loads raw ≡ p
        → parsed_turn now announcing f p s ≡ goes_on true counts s'
        → Justified now loads f s s'
    go (raised e) is_p t = absurd (cc t)
    go (malformed fault) is_p t = elim (Bool-cases f.moves) [
      | inl moves ↦
          let (counter, named, _, _) = quarantine_fresh now f s moves in
          inr (
            inl (
              fault,
              raw,
              is,
              is_p,
              (counter, ap (λ (q : State). q.rejected) (sym (quarantined_state fault t)) ∙ named),
            ))
      | inr stays ↦ absurd (unfold quarantine parsed_turn in ground (arith, stays, t))
    ]
    go (valid payload) is_p t = inr (
        inr (
          payload,
          raw,
          is,
          is_p,
          committed announcing (item_for_record s.world.db payload) f s counts s'
              (transaction (apply_record now payload) s.world) (unfold parsed_turn apply_turn in t),
        ))

-- In a turn that raises nothing, a file leaves the spool only when it was gone before it could be
-- read, when its record was malformed and it has been moved to the rejected records, or when the
-- transaction of its record was committed and found the session.
pub turn-Justified :
    (now : ℕ) (loads : String → Option Json) (announcing : Bool) (f : File) (s : State)
    (counts : DrainResult) (s' : State)
    → drain_turn now loads announcing f s ≡ goes_on true counts s'
    → Justified now loads f s s'
unfolding drain_turn
turn-Justified now loads announcing f s counts s' h =
    Justified-read now loads announcing f s counts s' f.read refl h

-- A record whose transaction was committed and whose file could not be unlinked: the next turn for
-- it counts a duplicate, sends nothing and leaves the tables as they are.
pub reapplied_turn :
    (now later : ℕ) (loads : String → Option Json) (announcing : Bool) (f : File) (raw : String)
    (payload : Fields) (s : State) (row : Session)
    → f.read ≡ contents raw
    → parse_record loads raw ≡ valid payload
    → IsRow s.world.db (session_id_of payload) row
    → (apply_record now payload s.world).0 ≡ ok applied
    → f.unlinks ≡ false
    → (s₁ : State) × (s₂ : State) × (drain_turn now loads announcing f s
        ≡ goes_on false (record { applied = 1; duplicates = 0; quarantined = 0; orphaned = 0 }) s₁)
      × (drain_turn later loads announcing f s₁
          ≡ goes_on false
              (record { applied = 0; duplicates = 1; quarantined = 0; orphaned = 0 })
              s₂)
      × (s₂.world.db ≡ s₁.world.db)
      × (s₂.sent ≡ s₁.sent)
unfolding drain_turn transaction conclude
reapplied_turn now later loads announcing f raw payload s row holds parsed is_row done' stuck =
    let (w', row', eff, is_row', old) = applied_already now payload s.world row is_row done' in
    let before = item_for_record s.world.db payload in
    let w₁ : World = record w' { log = note "spool.unlink" none ∷ w'.log } in
    let s₁ : State = record s {
      world = w₁;
      sent = if announcing then announce before w'.db s.sent else s.sent;
    } in
    let again = duplicate_of later payload w₁ row' is_row' old in
    (
      s₁,
      record s₁ { world = record w₁ { log = note "spool.unlink" none ∷ w₁.log } },
      ground (arith, holds, parsed, eff, stuck),
      ground (arith, holds, parsed, again, stuck),
      refl,
      refl,
    )
