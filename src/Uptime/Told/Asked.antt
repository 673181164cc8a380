-- ===== src/Uptime/Told/Asked.antt =====
-- A check outside the runner: it writes the status and tells nobody.
use mathlib.Core.Path.{subst}
use sightpane.Prelude.{
  ℕ, ◌<◌, ◌≡◌, refl, ap, sym, ◌∙◌, All-find, find_sound, All, Bool, true, false, not, Bool-cases,
  Option-cases, inl, inr, if◌then◌else◌, Option, none, some, List, ◌∷◌, All-update_where,
  HasUnique-update_where, find, update_where, arith,
}
use sightpane.Uptime.{PercentLib, is_same, UptimeMonitor, UptimeCheck, UptimeDb}
use sightpane.Uptime.Runner.{Probe, check_confirmed, recorded, result_of}
use sightpane.Uptime.Checks.{
  CheckResult, status_of, has_monitor_id, write_check, record_uptime_check, record_found,
}
use sightpane.Uptime.Told.{IsTold, AgreesWith, stands_in, told}
use sightpane.Prelude.Text.{Text}
use sightpane.Uptime.Told.Check.{is_same_sound}

module _ (lib : PercentLib) where
  differs : Option (UptimeMonitor lib) → CheckResult → Bool
  differs none res = false
  differs (some row) res = not (is_same row.status (status_of res.is_up))

  -- A check outside the runner changes the status of its monitor.
  unfoldable pub changes_status : UptimeMonitor lib → CheckResult → UptimeDb lib → Bool
  unfolding differs
  changes_status m res db = differs (find (has_monitor_id lib m.id) db.monitors) res

  changes_status-found :
      (m : UptimeMonitor lib) (res : CheckResult) (db : UptimeDb lib) (row : UptimeMonitor lib)
      → find (has_monitor_id lib m.id) db.monitors ≡ some row
      → changes_status m res db ≡ false
      → is_same row.status (status_of res.is_up) ≡ true
  unfolding changes_status
  changes_status-found m res db row found kept = let k = rw found at kept in ground arith

  -- A check that leaves the status of its row leaves it as it was told.
  told_unchanged :
      {untold : List ℕ} (m : UptimeMonitor lib) (res : CheckResult) (db : UptimeDb lib)
      (row : UptimeMonitor lib)
      → find (has_monitor_id lib m.id) db.monitors ≡ some row
      → changes_status m res db ≡ false
      → IsTold lib untold db
      → (q : UptimeMonitor lib) → has_monitor_id lib m.id q ≡ true
      → stands_in q.id untold ≡ false
      → told q.id db.notices ≡ status_of res.is_up
  unfolding has_monitor_id
  told_unchanged {untold = us} m res db row found kept t q hit free =
      let row_hit = find_sound (has_monitor_id lib m.id) db.monitors found in
      let same : row.id ≡ q.id = ground arith in
      let agrees =
        All-find (AgreesWith lib us db.notices) (has_monitor_id lib m.id) db.monitors t.statuses
          found in
      let same_status : is_same row.status (status_of res.is_up) ≡ true =
        changes_status-found m res db row found kept in
      ap (λ i. told i db.notices) (sym same)
      ∙ agrees (ap (λ i. stands_in i us) same ∙ free)
      ∙ is_same_sound row.status (status_of res.is_up) same_status

  ask_statuses :
      {untold : List ℕ} (now : ℕ) (m : UptimeMonitor lib) (res : CheckResult) (pct : lib.P)
      (db : UptimeDb lib) (row : UptimeMonitor lib)
      → find (has_monitor_id lib m.id) db.monitors ≡ some row
      → IsTold lib untold db
      → All
          (AgreesWith lib (if changes_status m res db then m.id ∷ untold else untold) db.notices)
          (update_where (has_monitor_id lib m.id) (write_check lib now res pct) db.monitors)
  ask_statuses {untold = us} now m res pct db row found t =
      elim (Bool-cases (changes_status m res db)) [
        | inl e ↦ rw e (
            All-update_where (AgreesWith lib us db.notices) (AgreesWith lib (m.id ∷ us) db.notices)
              (has_monitor_id lib m.id) (write_check lib now res pct) db.monitors
              (λ q k hit free. unfold has_monitor_id write_check stands_in in absurd (ground arith))
              (λ q k miss free. k (unfold stands_in in ground arith)) t.statuses)
        | inr e ↦ rw e (
            All-update_where (AgreesWith lib us db.notices) (AgreesWith lib us db.notices)
              (has_monitor_id lib m.id) (write_check lib now res pct) db.monitors
              (λ q k hit free.
                unfold write_check in told_unchanged m res db row found e t q hit free)
              (λ q k miss free. k free) t.statuses)
      ]

  -- The rows after a check outside the runner.
  ask_row-IsTold :
      {untold : List ℕ} (now : ℕ) (m : UptimeMonitor lib) (res : CheckResult)
      (checks : List UptimeCheck) (pct : lib.P) (db : UptimeDb lib) (row : UptimeMonitor lib)
      → find (has_monitor_id lib m.id) db.monitors ≡ some row
      → IsTold lib untold db
      → IsTold lib (if changes_status m res db then m.id ∷ untold else untold) (record db {
        checks = checks;
        monitors = update_where (has_monitor_id lib m.id) (write_check lib now res pct) db.monitors;
      })
  ask_row-IsTold now m res checks pct db row found t = record {
    statuses = ask_statuses now m res pct db row found t;
    ids =
        HasUnique-update_where (λ q. q.id) (has_monitor_id lib m.id) (write_check lib now res pct)
          db.monitors (λ q. unfold write_check in refl) t.ids;
    below =
        All-update_where (λ q. q.id < db.next_id) (λ q. q.id < db.next_id) (has_monitor_id lib m.id)
          (write_check lib now res pct) db.monitors (λ q k _. unfold write_check in k) (λ q k _. k)
          t.below;
    noticed = t.noticed;
  }

  abbrev or_else : {A : Type 0} → A → Option A → A
  or_else x none = x
  or_else x (some y) = y

  pub ask_confirmed-IsTold :
      {untold : List ℕ} (now : ℕ) (m : UptimeMonitor lib) (o : Option Probe)
      (ssl : Option (Text × ℕ)) (db db' : UptimeDb lib) (res : CheckResult)
      → check_confirmed lib now m o ssl db ≡ some (db', res)
      → IsTold lib untold db
      → IsTold lib (if changes_status m res db then m.id ∷ untold else untold) db'
  unfolding check_confirmed record_uptime_check record_found recorded
  ask_confirmed-IsTold now m none ssl db db' res e t = cc
  ask_confirmed-IsTold {untold = us} now m (some p) ssl db db' res e t =
      elim (Option-cases (find (has_monitor_id lib m.id) db.monitors)) [
        | inl none_found ↦ let h = rw none_found at e in cc
        | inr (row, found) ↦
            let both = ap (or_else (db, res)) (rw found at e) in
            subst (λ x. IsTold lib (if changes_status m x.1 db then m.id ∷ us else us) x.0) both
              (ask_row-IsTold now m (result_of p ssl) _ _ db row found t)
      ]
