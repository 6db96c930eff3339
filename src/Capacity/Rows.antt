-- ===== src/Capacity/Rows.antt =====
-- `snapshot` of src/robot_army/capacity.py writes no table but that of the anomalies.
use robot_army.Base.{
  ℕ, ◌≡◌, refl, Bool, true, false, not, ◌&&◌, Option, none, ◌∷◌, any, Bool-cases, Option-cases, inl,
  inr, String,
}
use robot_army.Models.{Reason}
use robot_army.Config.{Config}
use robot_army.Db.{World, transaction, note}
use robot_army.Db.Anomalies.{raise_anomaly, open_under}
use robot_army.Capacity.{Machine, snapshot, unobservable, registry_unusable, resolve_cap, is_nil}

raised-rows :
    (now : ℕ) (kind : String) (detail : Reason) (t e : Option String) (dry_run : Bool) (w : World)
    → (transaction (raise_anomaly now kind detail t e dry_run) w).1.db ≡ record w.db {
      anomalies = (transaction (raise_anomaly now kind detail t e dry_run) w).1.db.anomalies;
    }
unfolding transaction raise_anomaly
raised-rows now kind detail t e dry_run w =
    elim (Bool-cases (any (open_under kind t e dry_run) w.db.anomalies)) [
      | inl old' ↦ rw (old', raise_anomaly) refl
      | inr new' ↦ rw (new', raise_anomaly) refl
    ]

unobservable-rows :
    (now : ℕ) (audit : Bool) (cap : ℕ) (configured : Option ℕ) (reason : Reason) (w : World)
    → (unobservable now audit cap configured reason w).1.db
      ≡ record w.db { anomalies = (unobservable now audit cap configured reason w).1.db.anomalies }
unfolding unobservable
unobservable-rows now true cap configured reason w =
    raised-rows now "capacity_unobservable" reason none none false
      (record w { log = note "capacity.unobservable" none ∷ w.log })
unobservable-rows now false cap configured reason w =
    raised-rows now "capacity_unobservable" reason none none false w

pub snapshot-rows :
    (now : ℕ) (config : Config) (enforced : Option ℕ) (audit : Bool) (m : Machine) (w : World)
    → (snapshot now config enforced audit m w).1.db
      ≡ record w.db { anomalies = (snapshot now config enforced audit m w).1.db.anomalies }
unfolding snapshot
snapshot-rows now config enforced audit m w =
    let cap = resolve_cap config enforced in
    elim (Option-cases (registry_unusable m.registry)) [
      | inl usable' ↦ rw (usable', snapshot) refl
      | inr (reason, unusable') ↦ elim (Bool-cases (is_nil m.workers && not m.proc_readable)) [
        | inl blind' ↦
            rw (unusable', blind', snapshot) (unobservable-rows now audit cap.0 cap.1 reason w)
        | inr seen' ↦ rw (unusable', seen', snapshot) refl
      ]
    ]
