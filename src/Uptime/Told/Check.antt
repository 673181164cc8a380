-- ===== src/Uptime/Told/Check.antt =====
-- One check of a monitor, in the runner.
use sightpane.Prelude.{
  ℕ, ◌<◌, ◌≡◌, ◌==◌, refl, ◌∙◌, true, false, none, some, List, [], ◌∷◌, ◌++◌, All, All-find,
  All-snoc, All-update_where, HasUnique-update_where, find, find-update_where_ne, update_where,
  arith, if◌then◌else◌, Bool-cases, Option-cases, inl, inr,
}
use sightpane.Uptime.{PercentLib, UptimeStatus, up, is_same, UptimeMonitor, UptimeCheck, UptimeDb}
use sightpane.Uptime.Checks.{
  CheckResult, status_of, has_monitor_id, write_check, uptime_pct, check_row, record_uptime_check,
  record_found,
}
use sightpane.Uptime.Runner.{
  Probe, Answers, confirm, ssl_answer, result_of, check_monitor, check_confirmed, recorded,
  notify_change, after_check,
}
use sightpane.Uptime.Told.{IsTold, AgreesWith, stands_in, told, told_from-snoc}

pub is_same_sound : (a b : UptimeStatus) → is_same a b ≡ true → a ≡ b
unfolding is_same
is_same_sound a b h = ground arith

module _ (lib : PercentLib) (now : ℕ) (m : UptimeMonitor lib) (db : UptimeDb lib)
    (found : find (has_monitor_id lib m.id) db.monitors ≡ some m) (res : CheckResult)
    (checks : List UptimeCheck) (pct : lib.P) (untold : List ℕ) where
  -- The tables with the check written.
  abbrev written : UptimeDb lib
  written = record db {
    checks = checks;
    monitors = update_where (has_monitor_id lib m.id) (write_check lib now res pct) db.monitors;
  }

  pub monitors-notify_change : (notify_change lib m res written).monitors ≡ written.monitors
  unfolding notify_change
  monitors-notify_change = ground arith

  next_id-notify_change : (notify_change lib m res written).next_id ≡ db.next_id
  unfolding notify_change
  next_id-notify_change = ground arith

  told-notify_change :
      IsTold lib untold db
      → (id : ℕ) → stands_in id untold ≡ false
      → told id (notify_change lib m res written).notices
        ≡ (if m.id == id then status_of res.is_up else told id db.notices)
  unfolding notify_change
  told-notify_change a id free = elim (Bool-cases (is_same m.status (status_of res.is_up))) [
    | inl e ↦ elim (Bool-cases (m.id == id)) [
      | inl k ↦
          let same : m.id ≡ id = ground arith in
          let before : told m.id db.notices ≡ m.status =
            All-find (AgreesWith lib untold db.notices) (has_monitor_id lib m.id) db.monitors
              a.statuses found (rw same free) in
          rw (e, k, ← same) (before ∙ is_same_sound m.status (status_of res.is_up) e)
      | inr k ↦ rw (e, k) refl
    ]
    | inr e ↦ rw e (told_from-snoc up id db.notices _)
  ]

  noticed-notify_change :
      IsTold lib untold db
      → All (λ n. n.monitor_id < db.next_id) (notify_change lib m res written).notices
  unfolding notify_change
  noticed-notify_change a = elim (Bool-cases (is_same m.status (status_of res.is_up))) [
    | inl e ↦ rw e a.noticed
    | inr e ↦ rw e (
        All-snoc (λ n. n.monitor_id < db.next_id) db.notices _ a.noticed
          (All-find (λ q. q.id < db.next_id) (has_monitor_id lib m.id) db.monitors a.below found))
  ]

  pub notify_change-IsTold :
      IsTold lib untold db → IsTold lib untold (notify_change lib m res written)
  notify_change-IsTold a = record {
    statuses = rw monitors-notify_change (
        All-update_where (AgreesWith lib untold db.notices)
          (AgreesWith lib untold (notify_change lib m res written).notices)
          (has_monitor_id lib m.id) (write_check lib now res pct) db.monitors
          (λ q k e free.
            unfold has_monitor_id write_check in told-notify_change a q.id free ∙ ground arith)
          (λ q k e free.
            unfold has_monitor_id in (told-notify_change a q.id free ∙ ground (arith, k free)))
          a.statuses);
    ids = rw monitors-notify_change (
        HasUnique-update_where (λ q. q.id) (has_monitor_id lib m.id) (write_check lib now res pct)
          db.monitors (λ q. unfold write_check in refl) a.ids);
    below =
        rw (monitors-notify_change, next_id-notify_change)
          (All-update_where (λ q. q.id < db.next_id) (λ q. q.id < db.next_id)
            (has_monitor_id lib m.id) (write_check lib now res pct) db.monitors
            (λ q k _. unfold write_check in k) (λ q k _. k) a.below);
    noticed = rw next_id-notify_change (noticed-notify_change a);
  }

  pub find-notify_change :
      (b : ℕ)
      → (m.id == b) ≡ false
      → find (has_monitor_id lib b) (notify_change lib m res written).monitors
        ≡ find (has_monitor_id lib b) db.monitors
  unfolding has_monitor_id write_check
  find-notify_change b e = rw monitors-notify_change (
      find-update_where_ne (has_monitor_id lib b) (has_monitor_id lib m.id)
        (write_check lib now res pct) db.monitors (λ q k. (ground arith, ground arith)))

-- What one round of the loop ends in.
module _ (lib : PercentLib) (now : ℕ) (m : UptimeMonitor lib) (db : UptimeDb lib)
    (found : find (has_monitor_id lib m.id) db.monitors ≡ some m) (a : Answers)
    (untold : List ℕ) where
  round_cancelled : confirm a ≡ none → after_check lib m db (check_monitor lib now m a db) ≡ db
  unfolding check_monitor after_check check_confirmed
  round_cancelled e = rw e refl

  pub round_checked :
      (p : Probe)
      → confirm a ≡ some p
      → (checks : List UptimeCheck) × (pct : lib.P) × (after_check lib m db
            (check_monitor lib now m a db)
          ≡ notify_change lib m (result_of p (ssl_answer m.ssl_check_enabled a.ssl)) (record db {
            checks = checks;
            monitors =
                update_where
                  (has_monitor_id lib m.id)
                  (write_check lib now (result_of p (ssl_answer m.ssl_check_enabled a.ssl)) pct)
                  db.monitors;
          }))
  unfolding check_monitor check_confirmed record_uptime_check record_found recorded after_check
  round_checked p e =
      let checks =
        db.checks
        ++ check_row lib now m.id m.project_id (result_of p (ssl_answer m.ssl_check_enabled a.ssl))
          ∷ [] in
      (checks, uptime_pct lib now m.id checks, rw (e, found) refl)

  pub round-IsTold :
      IsTold lib untold db
      → IsTold lib untold (after_check lib m db (check_monitor lib now m a db))
        × ((b : ℕ)
            → (m.id == b) ≡ false
            → find
                (has_monitor_id lib b)
                (after_check lib m db (check_monitor lib now m a db)).monitors
              ≡ find (has_monitor_id lib b) db.monitors)
  round-IsTold t = elim (Option-cases (confirm a)) [
    | inl e ↦ let same = round_cancelled e in rw same (t, λ b k. refl)
    | inr (p, e) ↦
        let (checks, pct, same) = round_checked p e in
        let res = result_of p (ssl_answer m.ssl_check_enabled a.ssl) in
        rw same (
          notify_change-IsTold lib now m db found res checks pct untold t,
          find-notify_change lib now m db found res checks pct untold,
        )
  ]
