-- ===== src/Alert.antt =====
-- Alerts: the rows of channels, rules and deliveries (internal/store/alert.go), and the decisions of
-- the notifier (internal/alert/notifier.go), whose messages are attempts with an outcome.
pub mod Tables
pub mod Deliver
pub mod Rates
pub mod Worker
mod Examples
use sightpane.Prelude.{ℕ, Bool, Option, List, map}
use sightpane.Prelude.Int.{ℤ}
use sightpane.Prelude.Text.{Text, trim_space}

-- `lower` is unicode.ToLower; `F` is float64 with its positive numbers, <=, <, the conversion from
-- int, and the constants 10 and 0.90.
pub record RateLib : Type 1 where
  pub lower : ℕ → ℕ
  pub F : Type 0
  pub is_positive : F → Bool
  pub less_eq : F → F → Bool
  pub less : F → F → Bool
  pub of_ℕ : ℕ → F
  pub ten : F
  pub nine_tenths : F

pub record AlertChannel : Type 0 where
  pub id : ℕ
  pub project_id : ℕ
  pub name : Text
  pub kind : Text
  pub target : Text
  pub secret : Text

-- The parameters of a rule as the notifier reads them from their JSON, zeroes where they are absent.
pub record Params (lib : RateLib) : Type 0 where
  pub threshold : lib.F
  pub window_minutes : ℤ
  pub cooldown_minutes : ℤ

pub record AlertRule (lib : RateLib) : Type 0 where
  pub id : ℕ
  pub project_id : ℕ
  pub name : Text
  pub kind : Text
  pub params : Params lib
  pub channel_ids : List ℕ
  pub enabled : Bool

pub record AlertDelivery : Type 0 where
  pub rule_id : ℕ
  pub channel_id : ℕ
  pub issue_id : Option ℕ
  pub fingerprint : Text
  pub sent_at : ℕ
  pub success : Bool

-- What the notifier reads of an event.
pub record IssueEvent : Type 0 where
  pub project_id : ℕ
  pub issue_id : ℕ
  pub fingerprint : Text
  pub kind : Text

pub record AlertDb (lib : RateLib) : Type 0 where
  pub channels : List AlertChannel
  pub next_channel : ℕ
  pub rules : List (AlertRule lib)
  pub next_rule : ℕ
  pub deliveries : List AlertDelivery

pub data AlertError : Type 0 where
  channel_not_found channel_invalid rule_not_found rule_invalid : AlertError

pub data Result (A : Type 0) : Type 0 where
  done : A → Result A
  failed : AlertError → Result A

-- strings.ToLower(strings.TrimSpace(s))
unfoldable pub normal : RateLib → Text → Text
normal lib s = map lib.lower (trim_space s)
