-- ===== src/Uptime/Told/Due.antt =====
-- What is due after a run.
use mathlib.Core.Path.{subst}
use sightpane.Prelude.{
  sym, ℕ, ◌<◌, ◌≡◌, ◌==◌, refl, Bool, true, false, ◌||◌, some, List, [], ◌∷◌, All, All-mono,
  All-keep, All-update_where, HasUnique, HasUnique-keep, find, keep, update_where, arith,
  Bool-cases, inl, inr,
}
use sightpane.Uptime.{PercentLib, UptimeMonitor, UptimeDb}
use sightpane.Uptime.Checks.{
  CheckResult, has_monitor_id, is_due, get_monitors_due_for_check, write_check,
}
use sightpane.Uptime.Runner.{
  Probe, Answers, confirm, result_of, ssl_answer, check_monitor, after_check, run_each, run_once,
}
use sightpane.Uptime.Told.Check.{round_checked, monitors-notify_change, find-notify_change}
use sightpane.Uptime.Told.Run.{IsFresh, rows-IsFresh, rest-IsFresh}

-- Whether an id is one of a list.
unfoldable pub is_listed : {lib : PercentLib} → ℕ → List (UptimeMonitor lib) → Bool
is_listed id [] = false
is_listed id (m ∷ ms) = (m.id == id) || is_listed id ms

module _ (lib : PercentLib) (now : ℕ) where
  -- Only monitors that the run still comes to are due.
  abbrev IsLeft : List (UptimeMonitor lib) → UptimeMonitor lib → Type 0
  IsLeft ms q = (0 < q.interval_seconds) × (is_due lib now q ≡ true → is_listed q.id ms ≡ true)

  not_due :
      (q : UptimeMonitor lib) (res : CheckResult) (pct : lib.P)
      → 0 < q.interval_seconds
      → is_due lib now (write_check lib now res pct q) ≡ false
  unfolding is_due write_check
  not_due q res pct h = ground arith

  -- A row that is written is not due any more.
  written-IsLeft :
      (m : UptimeMonitor lib) (ms rows : List (UptimeMonitor lib)) (res : CheckResult) (pct : lib.P)
      → All (IsLeft (m ∷ ms)) rows
      → All (IsLeft ms) (update_where (has_monitor_id lib m.id) (write_check lib now res pct) rows)
  written-IsLeft m ms rows res pct h =
      All-update_where (IsLeft (m ∷ ms)) (IsLeft ms) (has_monitor_id lib m.id)
        (write_check lib now res pct) rows
        (λ q (k, l) e. (unfold write_check in k, λ due. let no = not_due q res pct k in cc))
        (λ q (k, l) e.
          (k, λ due. let yes = l due in unfold is_listed has_monitor_id in ground arith))
        h

  run_each-IsLeft :
      (net : UptimeMonitor lib → Answers) (ms : List (UptimeMonitor lib)) (db : UptimeDb lib)
      → ((m : UptimeMonitor lib) → (p : Probe) × (confirm (net m) ≡ some p))
      → HasUnique (λ m. m.id) ms
      → IsFresh lib ms db
      → All (IsLeft ms) db.monitors
      → All (IsLeft []) (run_each lib now net ms db).monitors
  unfolding run_each
  run_each-IsLeft net [] db answered u fresh left = left
  run_each-IsLeft net (m ∷ ms) db answered (u, us) (found, fresh) left =
      let (p, e) = answered m in
      let (checks, pct, same) = round_checked lib now m db found (net m) [] p e in
      let res = result_of p (ssl_answer m.ssl_check_enabled (net m).ssl) in
      let db' = after_check lib m db (check_monitor lib now m (net m) db) in
      run_each-IsLeft net ms db' answered us
        (rest-IsFresh lib m ms db db'
          (rw same (find-notify_change lib now m db found res checks pct [])) u fresh)
        (rw same (
          rw (monitors-notify_change lib now m db found res checks pct [])
            (written-IsLeft m ms db.monitors res pct left)))

  listed_due :
      (rows : List (UptimeMonitor lib))
      → All (λ q. 0 < q.interval_seconds) rows
      → All (IsLeft (keep (is_due lib now) rows)) rows
  unfolding keep is_listed
  listed_due [] h = tt
  listed_due (q ∷ rows) (k, hs) = elim (Bool-cases (is_due lib now q)) [
    | inl e ↦
        let same : keep (is_due lib now) (q ∷ rows) ≡ q ∷ keep (is_due lib now) rows = rw e refl in
        subst (λ ms. All (IsLeft ms) (q ∷ rows)) (sym same)
          (
            (k, λ due. ground arith),
            All-mono (IsLeft (keep (is_due lib now) rows)) _ rows
                (λ r (j, l). (j, λ due. let there = l due in ground arith)) (listed_due rows hs),
          )
    | inr e ↦
        let same : keep (is_due lib now) (q ∷ rows) ≡ keep (is_due lib now) rows = rw e refl in
        subst (λ ms. All (IsLeft ms) (q ∷ rows)) (sym same) ((k, λ due. cc), listed_due rows hs)
  ]

  keep_none :
      (rows : List (UptimeMonitor lib)) → All (IsLeft []) rows → keep (is_due lib now) rows ≡ []
  unfolding keep is_listed
  keep_none [] h = refl
  keep_none (q ∷ rows) ((k, l), hs) = elim (Bool-cases (is_due lib now q)) [
    | inl e ↦ let no = l e in cc
    | inr e ↦ rw e (keep_none rows hs)
  ]

  -- After a run in which no check was cancelled, over monitors with distinct ids and positive
  -- intervals, no monitor is due at the same instant.
  pub run_once_none_due :
      (net : UptimeMonitor lib → Answers) (db : UptimeDb lib)
      → HasUnique (λ m. m.id) db.monitors
      → All (λ m. 0 < m.interval_seconds) db.monitors
      → ((m : UptimeMonitor lib) → (p : Probe) × (confirm (net m) ≡ some p))
      → get_monitors_due_for_check lib now (run_once lib now net db) ≡ []
  unfolding run_once get_monitors_due_for_check
  run_once_none_due net db u positive answered = keep_none _ (
      run_each-IsLeft net (keep (is_due lib now) db.monitors) db answered
        (HasUnique-keep (λ m. m.id) (is_due lib now) db.monitors u)
        (All-keep (λ m. find (has_monitor_id lib m.id) db.monitors ≡ some m) (is_due lib now)
          db.monitors (rows-IsFresh lib db.monitors u))
        (listed_due db.monitors positive))
