-- ===== src/Cron/Positive.antt =====
-- The periods of every stored monitor are positive, whatever the requests say.
use mathlib.Core.Path.{subst}
use sightpane.Prelude.{
  ◌==◌, ℕ, ◌+◌, ◌≡◌, refl, Bool, not, Option, none, some, List, [], ◌∷◌, ◌++◌, keep, update_where,
  Bool-cases, inl, inr, map,
}
use sightpane.Prelude.Text.{Text, codes}
use sightpane.Cron.{
  CronStatus, error, missed, CronMonitor, CronCheckin, CronDb, done, with_defaults,
  create_cron_monitor, create_at, insert_monitor, update_cron_monitor, update_at, update_found,
  edit, delete_cron_monitor, delete_found, is_monitor, has_monitor_id,
}
use sightpane.Cron.Schedule.{CronLib}
use sightpane.Cron.Checkin.{
  record_cron_checkin, record_found, write_checkin, checked_in, is_checkin_status,
}
use sightpane.Cron.Deadline.{
  evaluate_cron_deadlines, write_back, write_row, pass, mark, is_timed_out, is_overdue,
}
use sightpane.Cron.Rows.{
  HasPeriods, with_defaults-HasPeriods, IsWellFormedAt, IsWellFormed, update_where-IsWellFormedAt,
  keep-IsWellFormedAt, snoc-IsWellFormedAt,
}

-- The operations on cron monitors.
pub data Step (lib : CronLib) : CronDb → CronDb → Type 0 where
  create :
      {db db' : CronDb} {m' : CronMonitor} (now : ℕ) (m : CronMonitor)
      → create_cron_monitor lib now m db ≡ done (db', m')
      → Step lib db db'
  update :
      {db db' : CronDb} {m' : CronMonitor} (now : ℕ) (m : CronMonitor)
      → update_cron_monitor lib now m db ≡ done (db', m')
      → Step lib db db'
  delete :
      {db db' : CronDb} (project id : ℕ)
      → delete_cron_monitor project id db ≡ done db'
      → Step lib db db'
  checkin :
      {db db' : CronDb} {c : CronCheckin} {m' : CronMonitor} (now project : ℕ) (slug : Text)
      (status : CronStatus) (duration : Option ℕ) (message : Text)
      → record_cron_checkin lib now project slug status duration message db ≡ done (db', c, m')
      → Step lib db db'
  evaluate : {db : CronDb} (now : ℕ) → Step lib db (evaluate_cron_deadlines lib now db).0

pub data Reach (lib : CronLib) (a : CronDb) : CronDb → Type 0 where
  here : Reach lib a a
  then_ : {b c : CronDb} → Reach lib a b → Step lib b c → Reach lib a c

module _ (lib : CronLib) where
  insert_monitor-IsWellFormed :
      (m m' : CronMonitor) (o : Option CronMonitor) (db db' : CronDb)
      → insert_monitor lib m o db ≡ done (db', m')
      → HasPeriods m
      → IsWellFormed db
      → IsWellFormed db'
  unfolding insert_monitor
  insert_monitor-IsWellFormed m m' (some other) db db' e h w = cc
  insert_monitor-IsWellFormed m m' none db db' e h w =
      let row = record m { id = db.next_id; last_checkin_at = none } in
      let same : record db { monitors = db.monitors ++ row ∷ []; next_id = db.next_id + 1 } ≡ db' =
        cc in
      subst IsWellFormed same (
        snoc-IsWellFormedAt db.monitors db.next_id row refl
          (record { grace = h.grace; runtime = h.runtime }) w)

  create_at-IsWellFormed :
      (m m' : CronMonitor) (o : Option ℕ) (db db' : CronDb)
      → create_at lib m o db ≡ done (db', m')
      → HasPeriods m
      → IsWellFormed db
      → IsWellFormed db'
  unfolding create_at
  create_at-IsWellFormed m m' none db db' e h w = cc
  create_at-IsWellFormed m m' (some next) db db' e h w =
      insert_monitor-IsWellFormed (record m { next_expected_at = some next }) m' _ db db' e
        (record { grace = h.grace; runtime = h.runtime }) w

  update_found-IsWellFormed :
      (m m' : CronMonitor) (o : Option CronMonitor) (db db' : CronDb)
      → update_found lib m o db ≡ done (db', m')
      → HasPeriods m
      → IsWellFormed db
      → IsWellFormed db'
  unfolding update_found edit
  update_found-IsWellFormed m m' none db db' e h w = cc
  update_found-IsWellFormed m m' (some old) db db' e h w =
      let same : record db {
        monitors = update_where (is_monitor m.project_id m.id) (edit lib m) db.monitors;
      }
          ≡ db' =
        cc in
      subst IsWellFormed same (
        update_where-IsWellFormedAt (is_monitor m.project_id m.id) (edit lib m) db.monitors
          db.next_id (λ r. refl) (λ r g. record { grace = h.grace; runtime = h.runtime }) w)

  update_at-IsWellFormed :
      (m m' : CronMonitor) (o : Option ℕ) (db db' : CronDb)
      → update_at lib m o db ≡ done (db', m')
      → HasPeriods m
      → IsWellFormed db
      → IsWellFormed db'
  unfolding update_at
  update_at-IsWellFormed m m' none db db' e h w = cc
  update_at-IsWellFormed m m' (some next) db db' e h w =
      update_found-IsWellFormed (record m { next_expected_at = some next }) m' _ db db' e
        (record { grace = h.grace; runtime = h.runtime }) w

  record_found-IsWellFormed :
      (now : ℕ) (status : CronStatus) (duration : Option ℕ) (message : Text)
      (o : Option CronMonitor) (db db' : CronDb) (c : CronCheckin) (m' : CronMonitor)
      → record_found lib now status duration message o db ≡ done (db', c, m')
      → IsWellFormed db
      → IsWellFormed db'
  unfolding record_found write_checkin
  record_found-IsWellFormed now status duration message none db db' c m' e w = cc
  record_found-IsWellFormed now status duration message (some m) db db' c m' e w =
      elim (Bool-cases (is_checkin_status status)) [
        | inr k ↦ let h = rw k at e in cc
        | inl k ↦
            let h = rw k at e in
            let written =
              update_where (has_monitor_id m.id) (write_checkin lib (checked_in lib now status m))
                db.monitors in
            let same : IsWellFormedAt written db.next_id ≡ IsWellFormedAt db'.monitors db'.next_id =
              cc in
            subst (λ T. T) same
              (update_where-IsWellFormedAt (has_monitor_id m.id) _ db.monitors db.next_id
                (λ r. refl) (λ r g. record { grace = g.grace; runtime = g.runtime }) w)
      ]

write_back-IsWellFormedAt :
    (ms rows : List CronMonitor) (next : ℕ)
    → IsWellFormedAt rows next
    → IsWellFormedAt (write_back ms rows) next
unfolding write_back
write_back-IsWellFormedAt [] rows next w = w
write_back-IsWellFormedAt (m ∷ ms) rows next w = write_back-IsWellFormedAt ms _ next (
    update_where-IsWellFormedAt (has_monitor_id m.id) (write_row m) rows next
      (λ r. unfold write_row in refl)
      (λ r g. record {
        grace = unfold write_row in g.grace;
        runtime = unfold write_row in g.runtime;
      })
      w)

pass-IsWellFormed :
    (lib : CronLib) (now : ℕ) (test : CronMonitor → Bool) (status : CronStatus) (message : Text)
    (db : CronDb)
    → IsWellFormed db
    → IsWellFormed (pass lib now test status message db).0
unfolding pass
pass-IsWellFormed lib now test status message db w =
    write_back-IsWellFormedAt (map (mark lib now status) (keep test db.monitors)) db.monitors
      db.next_id w

delete_found-IsWellFormed :
    (o : Option CronMonitor) (project id : ℕ) (db db' : CronDb)
    → delete_found o project id db ≡ done db'
    → IsWellFormed db
    → IsWellFormed db'
unfolding delete_found
delete_found-IsWellFormed none project id db db' e w = cc
delete_found-IsWellFormed (some m) project id db db' e w =
    let same : record db {
      monitors = keep (λ r. not (is_monitor project id r)) db.monitors;
      checkins = keep (λ c. not (c.monitor_id == id)) db.checkins;
    }
        ≡ db' =
      cc in
    subst IsWellFormed same (keep-IsWellFormedAt _ db.monitors db.next_id w)

Step-IsWellFormed :
    {lib : CronLib} {db db' : CronDb} → Step lib db db' → IsWellFormed db → IsWellFormed db'
unfolding create_cron_monitor update_cron_monitor delete_cron_monitor record_cron_checkin
    evaluate_cron_deadlines
Step-IsWellFormed {lib} {db} {db'} (create {m' = m'} now m e) w =
    let h = with_defaults-HasPeriods m in
    create_at-IsWellFormed lib (with_defaults m) m' _ db db' e h w
Step-IsWellFormed {lib} {db} {db'} (update {m' = m'} now m e) w =
    update_at-IsWellFormed lib (with_defaults m) m' _ db db' e (with_defaults-HasPeriods m) w
Step-IsWellFormed {lib} {db} {db'} (delete project id e) w =
    delete_found-IsWellFormed _ project id db db' e w
Step-IsWellFormed {lib} {db} {db'}
      (checkin {c = c} {m' = m'} now project slug status duration message e) w =
    record_found-IsWellFormed lib now status duration message _ db db' c m' e w
Step-IsWellFormed {lib} {db = db} (evaluate now) w =
    let first = codes "Missed check-in deadline" in
    pass-IsWellFormed lib now (is_timed_out now) error (codes "Job execution timed out")
      (pass lib now (is_overdue now) missed first db).0
      (pass-IsWellFormed lib now (is_overdue now) missed first db w)

-- From monitors with positive periods and distinct ids below the next one, whatever requests create,
-- update or delete monitors, whatever check-ins arrive and whenever the
-- deadlines are evaluated, the periods of every monitor stay positive and the ids distinct.
pub Reach-IsWellFormed :
    {lib : CronLib} {a b : CronDb} → IsWellFormed a → Reach lib a b → IsWellFormed b
Reach-IsWellFormed w here = w
Reach-IsWellFormed w (then_ r s) = Step-IsWellFormed s (Reach-IsWellFormed w r)
