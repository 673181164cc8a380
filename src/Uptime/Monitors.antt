-- ===== src/Uptime/Monitors.antt =====
-- CreateUptimeMonitor, UpdateUptimeMonitor and DeleteUptimeMonitor (internal/store/uptime.go).
use sightpane.Prelude.{
  ℕ, ◌+◌, ◌==◌, Bool, ◌&&◌, ◌||◌, not, Option, none, some, List, [], ◌∷◌, ◌++◌, find, keep,
  update_where, if◌then◌else◌,
}
use sightpane.Prelude.Int.{ℤ, pos, negsuc}
use sightpane.Prelude.Text.{Text, codes, text_eq, is_empty}
use sightpane.Uptime.{PercentLib, up, UptimeMonitor, UptimeDb}

-- `refused` is a CHECK of the table.
pub data UptimeError : Type 0 where
  not_found refused : UptimeError

pub data Result (A : Type 0) : Type 0 where
  done : A → Result A
  failed : UptimeError → Result A

-- The default for a number that is not positive.
unfoldable pub or_default : ℕ → ℤ → ℕ
or_default default (pos n) = if n == 0 then default else n
or_default default (negsuc n) = default

-- CHECK (method IN ('GET', 'HEAD', 'POST')) and CHECK (interval_seconds IN (30, 60, 300, 600)).
unfoldable pub is_allowed : Text → ℕ → Bool
is_allowed method interval =
    (text_eq method (codes "GET") || text_eq method (codes "HEAD") || text_eq method (codes "POST"))
    && (interval == 30 || interval == 60 || interval == 300 || interval == 600)

module _ (lib : PercentLib) where
  -- The arguments of CreateUptimeMonitor.
  pub record NewMonitor : Type 0 where
    pub project_id : ℕ
    pub name : Text
    pub url : Text
    pub method : Text
    pub headers : List (Text × Text)
    pub expected_status_code : ℤ
    pub interval_seconds : ℤ
    pub timeout_seconds : ℤ
    pub ssl_check_enabled : Bool

  unfoldable pub new_row : ℕ → NewMonitor → UptimeMonitor lib
  unfolding or_default
  new_row id r = record {
    id = id;
    project_id = r.project_id;
    name = r.name;
    url = r.url;
    method = if is_empty r.method then codes "GET" else r.method;
    headers = r.headers;
    expected_status_code = or_default 200 r.expected_status_code;
    interval_seconds = or_default 60 r.interval_seconds;
    timeout_seconds = or_default 10 r.timeout_seconds;
    status = up;
    ssl_check_enabled = r.ssl_check_enabled;
    ssl_issuer = [];
    ssl_expires_at = none;
    last_checked_at = none;
    uptime_percentage = lib.hundred;
  }

  unfoldable pub insert_monitor :
      UptimeMonitor lib → UptimeDb lib → Result (UptimeDb lib × UptimeMonitor lib)
  unfolding is_allowed
  insert_monitor m db =
      if is_allowed m.method m.interval_seconds
      then done (record db { monitors = db.monitors ++ m ∷ []; next_id = db.next_id + 1 }, m)
      else failed refused

  unfoldable pub create_uptime_monitor :
      NewMonitor → UptimeDb lib → Result (UptimeDb lib × UptimeMonitor lib)
  unfolding new_row insert_monitor
  create_uptime_monitor r db = insert_monitor (new_row db.next_id r) db

  -- The arguments of UpdateUptimeMonitor; `none` is nil.
  pub record Changes : Type 0 where
    pub name : Option Text
    pub url : Option Text
    pub method : Option Text
    pub headers : Option (List (Text × Text))
    pub expected_status_code : Option ℤ
    pub interval_seconds : Option ℤ
    pub timeout_seconds : Option ℤ
    pub ssl_check_enabled : Option Bool

  unfoldable pub or_old : {A : Type 0} → Option A → A → A
  or_old none old = old
  or_old (some a) old = a

  unfoldable pub or_old_text : Option Text → Text → Text
  or_old_text none old = old
  or_old_text (some t) old = if is_empty t then old else t

  unfoldable pub or_old_number : Option ℤ → ℕ → ℕ
  unfolding or_default
  or_old_number none old = old
  or_old_number (some z) old = or_default old z

  unfoldable pub edit : Changes → UptimeMonitor lib → UptimeMonitor lib
  unfolding or_old or_old_text or_old_number
  edit c m = record m {
    name = or_old c.name m.name;
    url = or_old c.url m.url;
    method = or_old_text c.method m.method;
    headers = or_old c.headers m.headers;
    expected_status_code = or_old_number c.expected_status_code m.expected_status_code;
    interval_seconds = or_old_number c.interval_seconds m.interval_seconds;
    timeout_seconds = or_old_number c.timeout_seconds m.timeout_seconds;
    ssl_check_enabled = or_old c.ssl_check_enabled m.ssl_check_enabled;
  }

  unfoldable pub is_monitor : ℕ → ℕ → UptimeMonitor lib → Bool
  is_monitor project id m = m.project_id == project && m.id == id

  unfoldable pub get_uptime_monitor : ℕ → ℕ → UptimeDb lib → Option (UptimeMonitor lib)
  unfolding is_monitor
  get_uptime_monitor project id db = find (is_monitor project id) db.monitors

  -- SET of the UPDATE, from the row that was read.
  unfoldable pub write_edit : UptimeMonitor lib → UptimeMonitor lib → UptimeMonitor lib
  write_edit m row = record row {
    name = m.name;
    url = m.url;
    method = m.method;
    headers = m.headers;
    expected_status_code = m.expected_status_code;
    interval_seconds = m.interval_seconds;
    timeout_seconds = m.timeout_seconds;
    ssl_check_enabled = m.ssl_check_enabled;
  }

  unfoldable pub update_found :
      ℕ → ℕ → Changes → Option (UptimeMonitor lib) → UptimeDb lib → Result (UptimeDb lib)
  unfolding edit write_edit is_allowed is_monitor
  update_found project id c none db = failed not_found
  update_found project id c (some current) db =
      if is_allowed (edit c current).method (edit c current).interval_seconds
      then done (record db {
        monitors = update_where (is_monitor project id) (write_edit (edit c current)) db.monitors;
      })
      else failed refused

  unfoldable pub update_uptime_monitor : ℕ → ℕ → Changes → UptimeDb lib → Result (UptimeDb lib)
  unfolding update_found get_uptime_monitor
  update_uptime_monitor project id c db =
      update_found project id c (get_uptime_monitor project id db) db

  -- ON DELETE CASCADE takes the checks of the monitor.
  unfoldable pub delete_found :
      ℕ → ℕ → Option (UptimeMonitor lib) → UptimeDb lib → Result (UptimeDb lib)
  unfolding is_monitor
  delete_found project id none db = failed not_found
  delete_found project id (some m) db = done (record db {
    monitors = keep (λ r. not (is_monitor project id r)) db.monitors;
    checks = keep (λ c. not (c.monitor_id == id)) db.checks;
  })

  unfoldable pub delete_uptime_monitor : ℕ → ℕ → UptimeDb lib → Result (UptimeDb lib)
  unfolding delete_found is_monitor
  delete_uptime_monitor project id db =
      delete_found project id (find (is_monitor project id) db.monitors) db
