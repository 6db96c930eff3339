-- ===== src/Dispatch/Recorder.antt =====
-- What the log says of holds, over any sequence of calls of `_note_hold` and `_resolve_hold` of
-- src/robot_army/dispatch.py.
use mathlib.Core.Option
use robot_army.Base.{
  ℕ, suc, ◌+◌, String, eq_iff, Bool, true, false, ◌&&◌, Option, none, some, List, [], ◌∷◌, ◌≡◌,
  refl, ap, sym, ◌∙◌, any, ◌⊎◌, inl, inr, Bool-cases, arith, length, eq_refl,
}
use robot_army.Ordering.{HoldReason}
use robot_army.Ordering.Plan.{QueueEntry}
use robot_army.Dispatch.{
  Slot, HoldLog, HoldRecord, at_capacity, hold_ended, Identity, Signature, same_identity,
  same_signature, elapsed_seconds, same_reason, same_repo_name, note_hold, resolve_hold,
  clear_hold_slot, FreedBy, took_over, still_held, freed_by,
}

same_reason_sound : (a b : HoldReason) → same_reason a b ≡ true → a ≡ b
same_reason_sound a b h = ground arith

same_repo_name_sound : (a b : Option String) → same_repo_name a b ≡ true → a ≡ b
same_repo_name_sound none none h = refl
same_repo_name_sound (some a) (some b) h = ap some ((eq_iff a b).0 h)
same_repo_name_sound none (some b) h = absurd (cc h)
same_repo_name_sound (some a) none h = absurd (cc h)

and_true : (a b : Bool) → (a && b) ≡ true → (a ≡ true) × (b ≡ true)
and_true true b h = (refl, h)
and_true false b h = absurd (cc h)

same_identity_sound : (a b : Identity) → same_identity a b ≡ true → a ≡ b
same_identity_sound (a, x) (b, y) h =
    let both = and_true (same_reason a b) (same_repo_name x y) h in
    ap (λ r. (r, x)) (same_reason_sound a b both.0)
    ∙ ap (λ z. (b, z)) (same_repo_name_sound x y both.1)

-- The hold that the log leaves standing, its newest record first.
abbrev pub standing : List HoldRecord → Option Identity
standing [] = none
standing (at_capacity _ identity ∷ _) = some identity
standing (hold_ended _ _ _ _ ∷ _) = none

-- Each hold that ends stands, by its reason, and a hold begins where none stands or where it stands
-- itself, with other numbers.
unfoldable pub IsBracketed : List HoldRecord → Type 0
IsBracketed [] = Unit
IsBracketed (at_capacity _ identity ∷ log) =
    ((standing log ≡ none) ⊎ (standing log ≡ some identity)) × IsBracketed log
IsBracketed (hold_ended reason _ _ _ ∷ log) =
    ((repo : Option String) × (standing log ≡ some (reason, repo))) × IsBracketed log

abbrev pub slot_identity : Option Slot → Option Identity
slot_identity o = Option.map (λ (h : Slot). h.identity) o

-- The log is bracketed and leaves standing what the slot holds.
pub record IsFaithful (r : HoldLog) : Type 0 where
  pub bracketed : IsBracketed r.log
  pub in_force : standing r.log ≡ slot_identity r.slot

-- One call of the recorder, with its clock.
pub data HoldCall : Type 0 where
  note_call : ℕ → Signature → Identity → HoldCall
  resolve_call : ℕ → List QueueEntry → Option ℕ → HoldCall

unfoldable pub hold_calls : List HoldCall → HoldLog → HoldLog
hold_calls [] r = r
hold_calls (note_call now signature identity ∷ cs) r =
    hold_calls cs (note_hold now signature identity r)
hold_calls (resolve_call now entries chosen ∷ cs) r =
    hold_calls cs (resolve_hold now entries chosen r)

-- A recorder by its parts.
abbrev of : Option Slot → List HoldRecord → HoldLog
of slot log = record { slot = slot; log = log }

clear-IsFaithful :
    (now : ℕ) (freed : FreedBy) (h : Slot) (log : List HoldRecord)
    → IsFaithful (of (some h) log)
    → IsFaithful (clear_hold_slot now freed (of (some h) log))
unfolding clear_hold_slot IsBracketed
clear-IsFaithful now freed h log a = record {
  bracketed = ((h.identity.1, a.in_force), a.bracketed);
  in_force = refl;
}

-- Opening a hold where none stands, or where it stands itself.
open-IsFaithful :
    (now : ℕ) (signature : Signature) (identity : Identity) (slot : Slot) (log : List HoldRecord)
    → (standing log ≡ none) ⊎ (standing log ≡ some identity)
    → IsBracketed log
    → slot.identity ≡ identity
    → IsFaithful (record { slot = some slot; log = at_capacity signature identity ∷ log })
unfolding IsBracketed
open-IsFaithful now signature identity slot log begins b e = record {
  bracketed = (begins, b);
  in_force = ap some (sym e);
}

noted-IsFaithful :
    (now : ℕ) (signature : Signature) (identity : Identity) (o : Option Slot)
    (log : List HoldRecord)
    → IsFaithful (of o log)
    → IsFaithful (note_hold now signature identity (of o log))
unfolding note_hold
noted-IsFaithful now signature identity none log a =
    open-IsFaithful now signature identity
      (record { signature = signature; identity = identity; passes = 1; started_at = now }) log
      (inl a.in_force) a.bracketed refl
noted-IsFaithful now signature identity (some h) log a =
    let fresh : Slot = record {
      signature = signature;
      identity = identity;
      passes = 1;
      started_at = now;
    } in
    elim (Bool-cases (same_signature h.signature signature)) [
      | inl again' ↦
          rw (again', note_hold) (record { bracketed = a.bracketed; in_force = a.in_force })
      | inr news' ↦ elim (Bool-cases (same_identity h.identity identity)) [
        | inl same' ↦
            rw (news', note_hold)
              (rw (same', note_hold)
                (open-IsFaithful now signature identity fresh log
                  (inr (a.in_force ∙ ap some (same_identity_sound h.identity identity same')))
                  a.bracketed refl))
        | inr other' ↦
            let closed = clear-IsFaithful now (took_over identity) h log a in
            rw (news', note_hold)
              (rw (other', note_hold)
                (unfold clear_hold_slot in
                  open-IsFaithful now signature identity fresh
                    (hold_ended h.identity.0 (elapsed_seconds h.started_at now) h.passes
                        (took_over identity)
                      ∷ log)
                    (inl refl) closed.bracketed refl))
      ]
    ]

resolved-IsFaithful :
    (now : ℕ) (entries : List QueueEntry) (chosen : Option ℕ) (o : Option Slot)
    (log : List HoldRecord)
    → IsFaithful (of o log)
    → IsFaithful (resolve_hold now entries chosen (of o log))
unfolding resolve_hold
resolved-IsFaithful now entries chosen none log a = a
resolved-IsFaithful now entries chosen (some h) log a =
    elim (Bool-cases (any (still_held h.identity) entries)) [
      | inl yes' ↦ rw (yes', resolve_hold) a
      | inr no' ↦ rw (no', resolve_hold) (clear-IsFaithful now (freed_by entries chosen) h log a)
    ]

-- Over any sequence of passes, the log opens and closes holds in brackets and leaves standing exactly
-- the hold that the process remembers: every `dispatch.hold_ended` follows a hold that stands and names
-- its reason, and no hold is opened over another one.
pub hold_calls-IsFaithful :
    (cs : List HoldCall) (r : HoldLog) → IsFaithful r → IsFaithful (hold_calls cs r)
unfolding hold_calls
hold_calls-IsFaithful [] r a = a
hold_calls-IsFaithful (note_call now signature identity ∷ cs) r a =
    hold_calls-IsFaithful cs (note_hold now signature identity r)
      (noted-IsFaithful now signature identity r.slot r.log a)
hold_calls-IsFaithful (resolve_call now entries chosen ∷ cs) r a =
    hold_calls-IsFaithful cs (resolve_hold now entries chosen r)
      (resolved-IsFaithful now entries chosen r.slot r.log a)

same_reason_refl : (a : HoldReason) → same_reason a a ≡ true
same_reason_refl a = ground arith

same_signature_refl : (s : Signature) → same_signature s s ≡ true
same_signature_refl (a, b, c, d, e, f) = ground (arith, same_reason_refl e, eq_refl f)

-- Passes that all find the same hold with the same numbers, by their clocks.
unfoldable pub notes : List ℕ → Signature → Identity → HoldLog → HoldLog
notes [] signature identity r = r
notes (now ∷ later) signature identity r =
    notes later signature identity (note_hold now signature identity r)

notes_standing :
    (later : List ℕ) (h : Slot) (log : List HoldRecord)
    → notes later h.signature h.identity (of (some h) log)
      ≡ of (some (record h { passes = h.passes + length later })) log
unfolding notes note_hold
notes_standing [] h log = ap (λ n. of (some (record h { passes = n })) log) (omega arith)
notes_standing (now ∷ later) h log =
    rw (same_signature_refl h.signature, note_hold)
      (notes_standing later (record h { passes = suc h.passes }) log
        ∙ ap (λ n. of (some (record h { passes = n })) log) (omega arith))

-- A hold that is found by the same numbers in any number of passes, and that has gone from the plan
-- of a later one, is in the log twice: once when it began, and once when it ended, with its reason, the
-- seconds between, negative if the clock was set back, and the number of the passes.
pub hold_logged_once :
    (began ended : ℕ) (later : List ℕ) (signature : Signature) (identity : Identity)
    (log : List HoldRecord) (entries : List QueueEntry) (chosen : Option ℕ)
    → any (still_held identity) entries ≡ false
    → resolve_hold ended entries chosen
        (notes (began ∷ later) signature identity (record { slot = none; log = log }))
      ≡ record {
        slot = none;
        log =
            hold_ended identity.0
              (elapsed_seconds began ended)
              (1 + length later)
              (freed_by entries chosen)
            ∷ at_capacity signature identity
            ∷ log;
      }
unfolding resolve_hold notes note_hold clear_hold_slot
hold_logged_once began ended later signature identity log entries chosen gone =
    let h : Slot = record {
      signature = signature;
      identity = identity;
      passes = 1;
      started_at = began;
    } in
    rw (notes_standing later h (at_capacity signature identity ∷ log), notes)
      (rw (gone, resolve_hold) refl)
