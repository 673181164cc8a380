-- ===== src/Issue/Occurrence/Events.antt =====
-- Which errors raise an event, and what they leave their issue as.
use sightpane.Prelude.{◌≡◌, ◌≢◌, ◌↔◌, Bool, none, some, arith, ℕ}
use sightpane.Prelude.Text.{Text}
use sightpane.Issue.{Issue, opened}
use sightpane.Issue.Decide.{Verdict, new_issue, regression, decide}

module _ (ignoring : Bool) (prev : Issue) (ts : ℕ) (release : Text) where
  abbrev pub verdict : Verdict
  verdict = decide ignoring (some prev) ts release

  reopened_event :
      verdict.event_kind ≢ none → (prev.status ≢ opened) × (verdict.target_status ≡ opened)
  unfolding decide
  reopened_event h = ground arith

  event_of_reopened :
      prev.status ≢ opened → verdict.target_status ≡ opened → verdict.event_kind ≡ some regression
  unfolding decide
  event_of_reopened h k = ground arith

  -- An error on an issue that exists raises an event exactly if it opens an issue that was not open,
  -- and the event is then a regression.
  pub event_iff_reopened :
      ((verdict.event_kind ≢ none) ↔ ((prev.status ≢ opened) × (verdict.target_status ≡ opened)))
      × (verdict.event_kind ≢ some new_issue)
  unfolding decide
  event_iff_reopened =
      ((reopened_event, λ h. ground (arith, event_of_reopened h.0 h.1)), ground arith)
