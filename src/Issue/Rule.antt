-- ===== src/Issue/Rule.antt =====
-- The fingerprint rules of a project (internal/store/issue_workflow.go, MatchFingerprintRule), and
-- what they do to the fingerprint of an error (internal/store/ingest.go).
use sightpane.Prelude.{
  ℕ, Bool, true, false, ◌&&◌, ◌||◌, Option, none, some, List, find, if◌then◌else◌, map,
}
use sightpane.Prelude.Text.{Text, is_empty, contains}

pub data Action : Type 0 where
  ignore group_as : Action

pub record FingerprintRule : Type 0 where
  pub exception_match : Text
  pub message_glob : Text
  pub stack_contains : Text
  pub action : Action
  pub group_fingerprint : Text

-- `lower` is unicode.ToLower on a code point. `glob pattern name` is filepath.Match: `none` where
-- the pattern is malformed.
module _ (lower : ℕ → ℕ) (glob : Text → Text → Option Bool) where
  to_lower : Text → Text
  to_lower = map lower

  -- A pattern left empty matches everything.
  matches_text : Text → Text → Bool
  unfolding to_lower
  matches_text pattern text = is_empty pattern || contains (to_lower text) (to_lower pattern)

  glob_or_contains : Option Bool → Text → Text → Bool
  glob_or_contains (some true) pattern message = true
  glob_or_contains _ pattern message = contains message pattern

  matches_message : Text → Text → Bool
  unfolding to_lower glob_or_contains
  matches_message pattern message =
      is_empty pattern
      || glob_or_contains (glob (to_lower pattern) (to_lower message)) (to_lower pattern)
          (to_lower message)

  unfoldable pub rule_matches : Text → Text → Text → FingerprintRule → Bool
  unfolding matches_text matches_message
  rule_matches exception message stack r =
      matches_text r.exception_match exception
      && matches_message r.message_glob message
      && matches_text r.stack_contains stack

  -- The rules come from the query in the order of their priority.
  unfoldable pub match_fingerprint_rule :
      List FingerprintRule → Text → Text → Text → Option FingerprintRule
  match_fingerprint_rule rules exception message stack =
      find (rule_matches exception message stack) rules

-- The action of the matched rule on the fingerprint.
unfoldable pub regroup : Option FingerprintRule → Text → Text
regroup none fp = fp
regroup (some r) fp = elim r.action [
  | group_as ↦ if is_empty r.group_fingerprint then fp else r.group_fingerprint
  | ignore ↦ fp
]

-- targetStatus starts as "ignored" under a matched "ignore" rule.
unfoldable pub ignores : Option FingerprintRule → Bool
ignores none = false
ignores (some r) = elim r.action [ ignore ↦ true | group_as ↦ false ]
