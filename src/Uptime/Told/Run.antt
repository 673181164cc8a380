-- ===== src/Uptime/Told/Run.antt =====
-- One run over the monitors that are due.
use sightpane.Prelude.{
  ℕ, ◌≡◌, ◌==◌, ◌∙◌, false, List, [], ◌∷◌, some, All, All-mono, All-both, All-keep, HasUnique,
  HasUnique-keep, find, keep, arith,
}
use sightpane.Uptime.{PercentLib, UptimeMonitor, UptimeDb}
use sightpane.Uptime.Checks.{has_monitor_id, is_due, get_monitors_due_for_check}
use sightpane.Uptime.Runner.{Answers, check_monitor, after_check, run_each, run_once}
use sightpane.Uptime.Told.{IsTold}
use sightpane.Uptime.Told.Check.{round-IsTold}

module _ (lib : PercentLib) where
  -- The rows listed are those in the table.
  abbrev pub IsFresh : List (UptimeMonitor lib) → UptimeDb lib → Type 0
  IsFresh ms db = All (λ m. find (has_monitor_id lib m.id) db.monitors ≡ some m) ms

  -- Rows with distinct ids are found by them.
  pub rows-IsFresh :
      (ms : List (UptimeMonitor lib))
      → HasUnique (λ m. m.id) ms
      → All (λ m. find (has_monitor_id lib m.id) ms ≡ some m) ms
  unfolding find has_monitor_id
  rows-IsFresh [] u = tt
  rows-IsFresh (m ∷ ms) (u, us) = (
    ground arith,
    All-mono (λ q. ((q.id == m.id) ≡ false) × (find (has_monitor_id lib q.id) ms ≡ some q)) _ ms
        (λ q (k, e). let other : (m.id == q.id) ≡ false = ground arith in rw other e)
        (All-both (λ q. (q.id == m.id) ≡ false) _ ms u (rows-IsFresh ms us)),
  )

  -- The rest of the list stays fresh.
  pub rest-IsFresh :
      (m : UptimeMonitor lib) (ms : List (UptimeMonitor lib)) (db db' : UptimeDb lib)
      → ((b : ℕ)
          → (m.id == b) ≡ false
          → find (has_monitor_id lib b) db'.monitors ≡ find (has_monitor_id lib b) db.monitors)
      → All (λ q. (q.id == m.id) ≡ false) ms
      → IsFresh ms db
      → IsFresh ms db'
  rest-IsFresh m ms db db' same u fresh =
      All-mono
        (λ q. ((q.id == m.id) ≡ false) × (find (has_monitor_id lib q.id) db.monitors ≡ some q)) _ ms
        (λ q (k, e). let other : (m.id == q.id) ≡ false = ground arith in same q.id other ∙ e)
        (All-both (λ q. (q.id == m.id) ≡ false) _ ms u fresh)

  run_each-IsTold :
      (now : ℕ) (net : UptimeMonitor lib → Answers) (ms : List (UptimeMonitor lib))
      (db : UptimeDb lib) (untold : List ℕ)
      → HasUnique (λ m. m.id) ms
      → IsFresh ms db
      → IsTold lib untold db
      → IsTold lib untold (run_each lib now net ms db)
  unfolding run_each
  run_each-IsTold now net [] db untold u fresh t = t
  run_each-IsTold now net (m ∷ ms) db untold (u, us) (found, fresh) t =
      let (t', same) = round-IsTold lib now m db found (net m) untold t in
      let db' = after_check lib m db (check_monitor lib now m (net m) db) in
      run_each-IsTold now net ms db' untold us (rest-IsFresh m ms db db' same u fresh) t'

  pub run_once-IsTold :
      (now : ℕ) (net : UptimeMonitor lib → Answers) (db : UptimeDb lib) (untold : List ℕ)
      → IsTold lib untold db
      → IsTold lib untold (run_once lib now net db)
  unfolding run_once get_monitors_due_for_check
  run_once-IsTold now net db untold t =
      run_each-IsTold now net (keep (is_due lib now) db.monitors) db untold
        (HasUnique-keep (λ m. m.id) (is_due lib now) db.monitors t.ids)
        (All-keep (λ m. find (has_monitor_id lib m.id) db.monitors ≡ some m) (is_due lib now)
          db.monitors (rows-IsFresh db.monitors t.ids))
        t
