-- ===== src/Db/Anomalies.antt =====
-- Anomalies in src/robot_army/db.py, under the partial unique index `idx_anomalies_open` of
-- migrations.py: at most one open row for a kind, an entity and a rehearsal flag.
use robot_army.Base.{
  ℕ, String, str_eq, Bool, true, false, ◌&&◌, Option, none, some, [], ◌∷◌, ◌++◌, any, if◌then◌else◌,
}
use robot_army.Models.{Anomaly, Reason}
use robot_army.Db.{World, Result, ok}

-- `COALESCE(x, '')`.
abbrev pub coalesce : Option String → String
coalesce none = ""
coalesce (some s) = s

abbrev same_flag : Bool → Bool → Bool
same_flag true true = true
same_flag false false = true
same_flag _ _ = false

abbrev is_none : Option ℕ → Bool
is_none none = true
is_none (some _) = false

-- The row stands in the index under this key.
unfoldable pub open_under : String → Option String → Option String → Bool → Anomaly → Bool
open_under kind entity_type entity_id dry_run a =
    str_eq a.kind kind
    && (str_eq (coalesce a.entity_type) (coalesce entity_type)
        && (str_eq (coalesce a.entity_id) (coalesce entity_id)
            && (same_flag a.dry_run dry_run
                && (is_none a.acknowledged_at && is_none a.resolved_at))))

-- `INSERT OR IGNORE`.
unfoldable pub raise_anomaly :
    ℕ → String → Reason → Option String → Option String → Bool → World → Result Bool × World
unfolding open_under
raise_anomaly now kind detail entity_type entity_id dry_run w =
    if any (open_under kind entity_type entity_id dry_run) w.db.anomalies then (ok false, w) else (
      ok true,
      record w {
        db = record w.db {
          anomalies =
              w.db.anomalies
              ++ record {
                kind = kind;
                entity_type = entity_type;
                entity_id = entity_id;
                detail = detail;
                detected_at = now;
                acknowledged_at = none;
                resolved_at = none;
                dry_run = dry_run;
              }
                ∷ [];
        };
      },
    )
