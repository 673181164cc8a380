-- ===== src/Uptime/Told/Reached.antt =====
-- Runs and operations on monitors, in any order.
use mathlib.Core.Path.{subst}
use sightpane.Prelude.{
  ℕ, ◌+◌, ◌<◌, ◌≡◌, ◌==◌, refl, Bool, not, if◌then◌else◌, Option, none, some, List, [], ◌∷◌, ◌++◌,
  All-snoc, All-mono, All-keep, All-update_where, HasUnique-snoc, HasUnique-keep,
  HasUnique-update_where, find, keep, update_where, arith,
}
use sightpane.Uptime.{PercentLib, up, UptimeMonitor, UptimeDb}
use sightpane.Uptime.Monitors.{
  done, NewMonitor, Changes, create_uptime_monitor, update_uptime_monitor, delete_uptime_monitor,
  insert_monitor, new_row, update_found, delete_found, edit, write_edit, is_monitor,
  get_uptime_monitor,
}
use sightpane.Uptime.Runner.{Answers, check_monitor, confirm, ssl_answer, run_once}
use sightpane.Uptime.Checks.{CheckResult}
use sightpane.Uptime.Told.{IsTold, AgreesWith, told_from_none}
use sightpane.Uptime.Told.Asked.{changes_status, ask_confirmed-IsTold}
use sightpane.Uptime.Told.Run.{run_once-IsTold}

module _ (lib : PercentLib) where
  -- The steps of the program, with the monitors whose status a check outside the runner has changed.
  -- Such a check, `ask`, is the one that the handler of a new monitor starts, at any time after the
  -- insert, and the one that a user triggers; both call CheckMonitor and tell nobody.
  pub data Step : List ℕ → UptimeDb lib → List ℕ → UptimeDb lib → Type 0 where
    create :
        {untold : List ℕ} {db db' : UptimeDb lib} {m : UptimeMonitor lib} (r : NewMonitor lib)
        → create_uptime_monitor lib r db ≡ done (db', m)
        → Step untold db untold db'
    ask :
        {untold : List ℕ} {db db' : UptimeDb lib} {res : CheckResult} (now : ℕ)
        (m : UptimeMonitor lib) (a : Answers)
        → check_monitor lib now m a db ≡ some (db', res)
        → Step untold db (if changes_status lib m res db then m.id ∷ untold else untold) db'
    update :
        {untold : List ℕ} {db db' : UptimeDb lib} (project id : ℕ) (c : Changes lib)
        → update_uptime_monitor lib project id c db ≡ done db'
        → Step untold db untold db'
    delete :
        {untold : List ℕ} {db db' : UptimeDb lib} (project id : ℕ)
        → delete_uptime_monitor lib project id db ≡ done db'
        → Step untold db untold db'
    run :
        {untold : List ℕ} {db : UptimeDb lib} (now : ℕ) (net : UptimeMonitor lib → Answers)
        → Step untold db untold (run_once lib now net db)

  pub data Reach (u : List ℕ) (a : UptimeDb lib) : List ℕ → UptimeDb lib → Type 0 where
    here : Reach u a u a
    then_ : {v w : List ℕ} {b c : UptimeDb lib} → Reach u a v b → Step v b w c → Reach u a w c

  insert_monitor-IsTold :
      {untold : List ℕ} (r : NewMonitor lib) (db db' : UptimeDb lib) (m : UptimeMonitor lib)
      → insert_monitor lib (new_row lib db.next_id r) db ≡ done (db', m)
      → IsTold lib untold db
      → IsTold lib untold db'
  unfolding insert_monitor
  insert_monitor-IsTold {untold = untold} r db db' m e t =
      let row = new_row lib db.next_id r in
      let same : record db { monitors = db.monitors ++ row ∷ []; next_id = db.next_id + 1 } ≡ db' =
        ground arith in
      subst (IsTold lib untold) same (record {
        statuses =
            All-snoc (AgreesWith lib untold db.notices) db.monitors row t.statuses
              (λ free. unfold new_row in told_from_none up db.next_id db.notices t.noticed);
        ids =
            HasUnique-snoc (λ q. q.id) db.monitors row t.ids
              (All-mono (λ q. q.id < db.next_id) _ db.monitors
                (λ q k. unfold new_row in ground arith) t.below);
        below =
            All-snoc (λ q. q.id < db.next_id + 1) db.monitors row
              (All-mono (λ q. q.id < db.next_id) _ db.monitors (λ q k. omega arith) t.below)
              (unfold new_row in omega arith);
        noticed =
            All-mono (λ n. n.monitor_id < db.next_id) _ db.notices (λ n k. omega arith) t.noticed;
      })

  update_found-IsTold :
      {untold : List ℕ} (project id : ℕ) (c : Changes lib) (o : Option (UptimeMonitor lib))
      (db db' : UptimeDb lib)
      → update_found lib project id c o db ≡ done db'
      → IsTold lib untold db
      → IsTold lib untold db'
  unfolding update_found write_edit
  update_found-IsTold {untold = untold} project id c none db db' e t = cc
  update_found-IsTold {untold = untold} project id c (some m) db db' e t =
      let p = is_monitor lib project id in
      let f = write_edit lib (edit lib c m) in
      let same : record db { monitors = update_where p f db.monitors } ≡ db' = ground arith in
      subst (IsTold lib untold) same (record {
        statuses =
            All-update_where (AgreesWith lib untold db.notices) (AgreesWith lib untold db.notices) p
              f db.monitors (λ q k _. k) (λ q k _. k) t.statuses;
        ids = HasUnique-update_where (λ q. q.id) p f db.monitors (λ q. refl) t.ids;
        below =
            All-update_where (λ q. q.id < db.next_id) (λ q. q.id < db.next_id) p f db.monitors
              (λ q k _. k) (λ q k _. k) t.below;
        noticed = t.noticed;
      })

  delete_found-IsTold :
      {untold : List ℕ} (project id : ℕ) (o : Option (UptimeMonitor lib)) (db db' : UptimeDb lib)
      → delete_found lib project id o db ≡ done db'
      → IsTold lib untold db
      → IsTold lib untold db'
  unfolding delete_found
  delete_found-IsTold {untold = untold} project id none db db' e t = cc
  delete_found-IsTold {untold = untold} project id (some m) db db' e t =
      let p : UptimeMonitor lib → Bool = λ r. not (is_monitor lib project id r) in
      let same : record db {
        monitors = keep p db.monitors;
        checks = keep (λ c. not (c.monitor_id == id)) db.checks;
      }
          ≡ db' =
        cc in
      subst (IsTold lib untold) same (record {
        statuses = All-keep (AgreesWith lib untold db.notices) p db.monitors t.statuses;
        ids = HasUnique-keep (λ q. q.id) p db.monitors t.ids;
        below = All-keep (λ q. q.id < db.next_id) p db.monitors t.below;
        noticed = t.noticed;
      })

  Step-IsTold :
      {db db' : UptimeDb lib} {u w : List ℕ} → Step u db w db' → IsTold lib u db → IsTold lib w db'
  unfolding create_uptime_monitor update_uptime_monitor delete_uptime_monitor check_monitor
  Step-IsTold {db} {db'} (create {m = m} r e) t = insert_monitor-IsTold r db db' m e t
  Step-IsTold {db} {db'} (ask {res = res} now m a e) t =
      ask_confirmed-IsTold lib now m (confirm a) (ssl_answer m.ssl_check_enabled a.ssl) db db' res e
        t
  Step-IsTold {db} {db'} (update project id c e) t =
      update_found-IsTold project id c (get_uptime_monitor lib project id db) db db' e t
  Step-IsTold {db} {db'} (delete project id e) t =
      delete_found-IsTold project id (find (is_monitor lib project id) db.monitors) db db' e t
  Step-IsTold {db} {u = u} (run now net) t = run_once-IsTold lib now net db u t

  -- From tables where the status of every monitor, but for some excepted ones, is the one that the last
  -- notice about it told, or up if there was none, whatever monitors are created, updated, deleted
  -- and checked outside the runner between runs of the runner, it stays so for every monitor that is
  -- not excepted and whose status no check outside the runner has changed.
  pub Reach-IsTold :
      {u : List ℕ} {a : UptimeDb lib} {w : List ℕ} {b : UptimeDb lib}
      → IsTold lib u a
      → Reach u a w b
      → IsTold lib w b
  Reach-IsTold t here = t
  Reach-IsTold t (then_ r s) = Step-IsTold s (Reach-IsTold t r)
