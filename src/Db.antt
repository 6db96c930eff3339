-- ===== src/Db.antt =====
-- src/robot_army/db.py: the tables as lists of rows, the lookups by key, and a transaction. The
-- audit log is a file beside the database: a rollback does not take its records back.
pub mod Anomalies
pub mod Holds
use robot_army.Base.{ℕ, ◌==◌, String, str_eq, Bool, Option, List, ◌∷◌, find}
use robot_army.Models.{WorkItem, Session, Card, Anomaly, Hold, DispatchControl, CardState, Reason}
use robot_army.States.{WorkItemState, SessionState}

-- A record of the audit log, with what it says of its subject.
pub data AuditRecord : Type 0 where
  state_work_item : ℕ → WorkItemState → WorkItemState → Reason → Bool → AuditRecord
  claimed_work_item : ℕ → List WorkItemState → WorkItemState → Reason → Bool → AuditRecord
  state_session : String → SessionState → SessionState → Reason → Bool → AuditRecord
  state_card : String → CardState → CardState → Reason → Bool → AuditRecord
  note : String → Option String → AuditRecord

pub record Db : Type 0 where
  pub work_items : List WorkItem
  pub sessions : List Session
  pub cards : List Card
  pub anomalies : List Anomaly
  pub item_holds : List (ℕ × Hold)
  pub repo_holds : List (String × Hold)
  pub item_keeps : List (ℕ × Hold)
  pub control : Option DispatchControl

pub record World : Type 0 where
  pub db : Db
  pub log : List AuditRecord

pub data Error : Type 0 where
  lookup_error : Error
  illegal_transition : WorkItemState → WorkItemState → Error
  no_way_in : WorkItemState → Error
  illegal_session : SessionState → SessionState → Error
  illegal_card : CardState → CardState → Error
  claim_lost : WorkItemState → Error
  unbindable : Error
  type_error : Error
  decode_error : Error
  integrity_error : Error
  transport_error : Error
  killed : Error

pub data Result {ℓ} (A : Type ℓ) : Type ℓ where
  ok : A → Result A
  err : Error → Result A

abbrev pub Exec {ℓ} : Type ℓ → Type ℓ
Exec A = World → Result A × World

module _ {ℓ κ} {A : Type ℓ} {B : Type κ} where
  abbrev pub continue : Result A → (A → World → Result B × World) → World → Result B × World
  continue (ok a) f w = f a w
  continue (err e) f w = (err e, w)

module _ {ℓ κ} {A : Type ℓ} {B : Type κ} where
  infixl 5 ◌>>=◌ ◌>>◌
  abbrev pub ◌>>=◌ :
      (World → Result A × World) → (A → World → Result B × World) → World → Result B × World
  ◌>>=◌ m f w = continue (m w).0 f (m w).1

  abbrev pub ◌>>◌ :
      (World → Result A × World) → (World → Result B × World) → World → Result B × World
  m >> n = m >>= λ _. n

abbrev pub pure {ℓ} : {A : Type ℓ} → A → World → Result A × World
pure a w = (ok a, w)

abbrev pub raise {ℓ} : {A : Type ℓ} → Error → World → Result A × World
raise e w = (err e, w)

-- `audit.record`.
abbrev pub record_audit : AuditRecord → World → Result (Unit {0}) × World
record_audit r w = (ok tt, record w { log = r ∷ w.log })

abbrev pub settle {ℓ} : {A : Type ℓ} → Db → Result A × World → Result A × World
settle before (ok a, w) = (ok a, w)
settle before (err e, w) = (err e, record w { db = before })

-- An exception rolls the tables back and goes on; what was logged stays logged.
unfoldable pub transaction {ℓ} :
    {A : Type ℓ} → (World → Result A × World) → World → Result A × World
transaction m w = settle w.db (m w)

unfoldable pub get_work_item : Db → ℕ → Option WorkItem
get_work_item d item_id = find (λ r. r.id == item_id) d.work_items

unfoldable pub get_session_by_row_id : Db → ℕ → Option Session
get_session_by_row_id d row_id = find (λ r. r.id == row_id) d.sessions

unfoldable pub get_session : Db → String → Option Session
get_session d session_id = find (λ r. str_eq r.session_id session_id) d.sessions

unfoldable pub get_card_by_id : Db → ℕ → Option Card
get_card_by_id d row_id = find (λ r. r.id == row_id) d.cards
