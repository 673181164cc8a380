-- ===== src/Alert/Deliver.antt =====
-- handleIssueEvent (internal/alert/notifier.go), one event after another as the worker takes them
-- from its queue.
use sightpane.Prelude.{ℕ, Bool, not, ◌||◌, Option, none, some, List, [], ◌∷◌, length, if◌then◌else◌}
use sightpane.Prelude.Text.{Text, text_eq}
use sightpane.Alert.{RateLib, AlertChannel, AlertRule, IssueEvent, AlertDb}
use sightpane.Alert.Tables.{
  get_alert_channel, list_alert_rules, record_alert_delivery, has_delivered_alert,
}

-- sendToChannel: whether the n-th attempt, to a channel, gets through.
abbrev pub Send : Type 0
Send = ℕ → AlertChannel → Bool

module _ {lib : RateLib} (send : Send) (now : ℕ) where
  unfoldable pub attempt : ℕ → Option ℕ → Text → Option AlertChannel → AlertDb lib → AlertDb lib
  unfolding record_alert_delivery
  attempt rule issue fingerprint none db = db
  attempt rule issue fingerprint (some c) db =
      record_alert_delivery
        (record {
          rule_id = rule;
          channel_id = c.id;
          issue_id = issue;
          fingerprint = fingerprint;
          sent_at = now;
          success = send (length db.deliveries) c;
        })
        db

  -- The loop over the channels of a rule.
  unfoldable pub deliver : ℕ → ℕ → Option ℕ → Text → List ℕ → AlertDb lib → AlertDb lib
  unfolding attempt get_alert_channel
  deliver project rule issue fingerprint [] db = db
  deliver project rule issue fingerprint (c ∷ cs) db =
      deliver project rule issue fingerprint cs
        (attempt rule issue fingerprint (get_alert_channel project c db) db)

  unfoldable pub apply_rule : IssueEvent → AlertRule lib → AlertDb lib → AlertDb lib
  unfolding deliver has_delivered_alert
  apply_rule ev r db =
      if not r.enabled || not (text_eq r.kind ev.kind)
      then db
      else if has_delivered_alert r.id ev.issue_id db
      then db
      else deliver ev.project_id r.id (some ev.issue_id) ev.fingerprint r.channel_ids db

  unfoldable pub apply_rules : IssueEvent → List (AlertRule lib) → AlertDb lib → AlertDb lib
  unfolding apply_rule
  apply_rules ev [] db = db
  apply_rules ev (r ∷ rs) db = apply_rules ev rs (apply_rule ev r db)

  unfoldable pub handle_issue_event : IssueEvent → AlertDb lib → AlertDb lib
  unfolding apply_rules list_alert_rules
  handle_issue_event ev db = apply_rules ev (list_alert_rules ev.project_id db) db
