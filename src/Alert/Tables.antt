-- ===== src/Alert/Tables.antt =====
-- The operations on channels, rules and deliveries (internal/store/alert.go).
use sightpane.Prelude.{
  ℕ, ◌+◌, ◌==◌, Bool, true, false, ◌&&◌, ◌||◌, not, Option, none, some, List, [], ◌∷◌, ◌++◌, find,
  keep, update_where, if◌then◌else◌, later,
}
use sightpane.Prelude.Text.{Text, codes, text_eq, is_empty, trim_space}
use sightpane.Alert.{
  RateLib, AlertChannel, AlertRule, AlertDelivery, AlertDb, channel_not_found, channel_invalid,
  rule_not_found, rule_invalid, Result, done, failed, normal,
}

validate_channel_kind : Text → Bool
validate_channel_kind k =
    text_eq k (codes "email") || text_eq k (codes "slack") || text_eq k (codes "webhook")

validate_rule_kind : Text → Bool
validate_rule_kind k =
    text_eq k (codes "new_issue")
    || text_eq k (codes "regression")
    || text_eq k (codes "rate_spike")
    || text_eq k (codes "session_crash_free")

unfoldable pub is_channel : ℕ → ℕ → AlertChannel → Bool
is_channel project id c = c.project_id == project && c.id == id

-- if name == "" { name = other }
or_name : Text → Text → Text
or_name name other = if is_empty name then other else name

unfoldable pub is_success_of : ℕ → AlertDelivery → Bool
is_success_of rule d = d.rule_id == rule && d.success

unfoldable pub is_issue : Option ℕ → ℕ → Bool
is_issue none issue = false
is_issue (some i) issue = i == issue

unfoldable pub is_about : ℕ → ℕ → AlertDelivery → Bool
unfolding is_issue
is_about rule issue d = d.rule_id == rule && is_issue d.issue_id issue

unfoldable pub is_found : Option AlertDelivery → Bool
is_found none = false
is_found (some d) = true

-- ORDER BY sent_at DESC LIMIT 1; none is the zero time.
unfoldable pub latest_of : ℕ → Option ℕ → List AlertDelivery → Option ℕ
unfolding later is_success_of
latest_of rule best [] = best
latest_of rule best (d ∷ ds) =
    latest_of rule (if is_success_of rule d then later best d.sent_at else best) ds

module _ {lib : RateLib} where
  unfoldable pub is_rule : ℕ → ℕ → AlertRule lib → Bool
  is_rule project id r = r.project_id == project && r.id == id

  -- The fields of `c` are the arguments.
  unfoldable pub create_alert_channel :
      AlertChannel → AlertDb lib → Result (AlertDb lib × AlertChannel)
  unfolding validate_channel_kind or_name normal
  create_alert_channel c db =
      let kind = normal lib c.kind in
      let target = trim_space c.target in
      let row = record c {
        id = db.next_channel;
        name = or_name c.name target;
        kind = kind;
        target = target;
      } in
      if not (validate_channel_kind kind) || is_empty target
      then failed channel_invalid
      else done (
        record db { channels = db.channels ++ row ∷ []; next_channel = db.next_channel + 1 },
        row,
      )

  update_channel_found : Option AlertChannel → AlertChannel → AlertDb lib → Result (AlertDb lib)
  unfolding is_channel
  update_channel_found none c db = failed channel_not_found
  update_channel_found (some old) c db = done (record db {
    channels =
        update_where (is_channel c.project_id c.id)
          (λ r. record r { name = c.name; kind = c.kind; target = c.target; secret = c.secret })
          db.channels;
  })

  unfoldable pub update_alert_channel : AlertChannel → AlertDb lib → Result (AlertDb lib)
  unfolding validate_channel_kind or_name normal update_channel_found
  update_alert_channel c db =
      let kind = normal lib c.kind in
      let target = trim_space c.target in
      if not (validate_channel_kind kind) || is_empty target
      then failed channel_invalid
      else update_channel_found (find (is_channel c.project_id c.id) db.channels)
          (record c { name = or_name c.name target; kind = kind; target = target }) db

  -- The deliveries of a channel go with it: ON DELETE CASCADE.
  delete_channel_found : Option AlertChannel → ℕ → ℕ → AlertDb lib → Result (AlertDb lib)
  unfolding is_channel
  delete_channel_found none project id db = failed channel_not_found
  delete_channel_found (some c) project id db = done (record db {
    channels = keep (λ r. not (is_channel project id r)) db.channels;
    deliveries = keep (λ d. not (d.channel_id == id)) db.deliveries;
  })

  unfoldable pub delete_alert_channel : ℕ → ℕ → AlertDb lib → Result (AlertDb lib)
  unfolding delete_channel_found
  delete_alert_channel project id db =
      delete_channel_found (find (is_channel project id) db.channels) project id db

  unfoldable pub get_alert_channel : ℕ → ℕ → AlertDb lib → Option AlertChannel
  unfolding is_channel
  get_alert_channel project id db = find (is_channel project id) db.channels

  unfoldable pub list_alert_rules : ℕ → AlertDb lib → List (AlertRule lib)
  list_alert_rules project db = keep (λ r. r.project_id == project) db.rules

  unfoldable pub create_alert_rule :
      AlertRule lib → AlertDb lib → Result (AlertDb lib × AlertRule lib)
  unfolding validate_rule_kind or_name normal
  create_alert_rule r db =
      let kind = normal lib r.kind in
      let row = record r { id = db.next_rule; name = or_name r.name kind; kind = kind } in
      if not (validate_rule_kind kind)
      then failed rule_invalid
      else done (record db { rules = db.rules ++ row ∷ []; next_rule = db.next_rule + 1 }, row)

  update_rule_found : Option (AlertRule lib) → AlertRule lib → AlertDb lib → Result (AlertDb lib)
  unfolding is_rule
  update_rule_found none r db = failed rule_not_found
  update_rule_found (some old) r db = done (record db {
    rules =
        update_where (is_rule r.project_id r.id)
          (λ row. record row {
            name = r.name;
            kind = r.kind;
            params = r.params;
            channel_ids = r.channel_ids;
            enabled = r.enabled;
          })
          db.rules;
  })

  unfoldable pub update_alert_rule : AlertRule lib → AlertDb lib → Result (AlertDb lib)
  unfolding validate_rule_kind or_name normal update_rule_found
  update_alert_rule r db =
      let kind = normal lib r.kind in
      if not (validate_rule_kind kind)
      then failed rule_invalid
      else update_rule_found (find (is_rule r.project_id r.id) db.rules)
          (record r { name = or_name r.name kind; kind = kind }) db

  delete_rule_found : Option (AlertRule lib) → ℕ → ℕ → AlertDb lib → Result (AlertDb lib)
  unfolding is_rule
  delete_rule_found none project id db = failed rule_not_found
  delete_rule_found (some r) project id db = done (record db {
    rules = keep (λ q. not (is_rule project id q)) db.rules;
    deliveries = keep (λ d. not (d.rule_id == id)) db.deliveries;
  })

  unfoldable pub delete_alert_rule : ℕ → ℕ → AlertDb lib → Result (AlertDb lib)
  unfolding delete_rule_found
  delete_alert_rule project id db =
      delete_rule_found (find (is_rule project id) db.rules) project id db

  -- The rule and the channel have just been read.
  unfoldable pub record_alert_delivery : AlertDelivery → AlertDb lib → AlertDb lib
  record_alert_delivery d db = record db { deliveries = db.deliveries ++ d ∷ [] }

  -- COUNT(*) > 0
  unfoldable pub has_delivered_alert : ℕ → ℕ → AlertDb lib → Bool
  unfolding is_found is_about
  has_delivered_alert rule issue db =
      is_found (find (λ d. is_about rule issue d && d.success) db.deliveries)

  unfoldable pub last_alert_delivery : ℕ → AlertDb lib → Option ℕ
  unfolding latest_of
  last_alert_delivery rule db = latest_of rule none db.deliveries
