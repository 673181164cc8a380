-- ===== src/Alert/Worker/Once.antt =====
-- Once a rule has told an issue, it is silent on it.
use sightpane.Prelude.{
  ℕ, ◌==◌, ◌≡◌, refl, Bool, true, false, not, ◌&&◌, ◌||◌, inl, inr, Option, none, some, List, [],
  ◌∷◌, ◌++◌, length, find, keep, arith, Bool-cases, Option-cases,
}
use sightpane.Prelude.Text.{Text, text_eq}
use sightpane.Alert.{RateLib, AlertRule, AlertDelivery, IssueEvent, AlertDb}
use sightpane.Alert.Tables.{
  is_issue, is_about, is_found, has_delivered_alert, record_alert_delivery, list_alert_rules,
  get_alert_channel, last_alert_delivery,
}
use sightpane.Alert.Deliver.{Send, attempt, deliver, apply_rule, apply_rules, handle_issue_event}
use sightpane.Alert.Rates.{
  Measure, Metrics, triggered, is_rate_rule, is_cooling, cooldown_of, positive_or, tell,
  evaluate_rate_rule, evaluate_rules, evaluate_rate_rules,
}
use sightpane.Alert.Worker.{Input, event, tick, step, run}

found-snoc :
    {A : Type 0} (p : A → Bool) (xs : List A) (x : A) {y : A}
    → find p xs ≡ some y
    → find p (xs ++ x ∷ []) ≡ some y
unfolding find
found-snoc p [] x h = cc
found-snoc p (z ∷ xs) x h = elim (Bool-cases (p z)) [
  | inl e ↦ rw e (rw e at h)
  | inr e ↦ rw e (found-snoc p xs x (rw e at h))
]

pub keep-snoc_miss :
    {A : Type 0} (p : A → Bool) (xs : List A) (x : A)
    → p x ≡ false
    → keep p (xs ++ x ∷ []) ≡ keep p xs
unfolding keep
keep-snoc_miss p [] x h = rw h refl
keep-snoc_miss p (z ∷ xs) x h = rw (keep-snoc_miss p xs x h)

module _ {lib : RateLib} (rule issue : ℕ) where
  -- How often the rule tried a channel for the issue.
  unfoldable pub tries : AlertDb lib → ℕ
  tries db = length (keep (is_about rule issue) db.deliveries)

  -- An answer that differs is about another rule or issue.
  other :
      (r i : ℕ) (db : AlertDb lib)
      → has_delivered_alert r i db ≡ false
      → has_delivered_alert rule issue db ≡ true
      → (r == rule && is_issue (some i) issue) ≡ false
  unfolding is_issue
  other r i db h k = elim (Bool-cases (r == rule && i == issue)) [
    | inl e ↦ let same : r ≡ rule = ground arith in let same2 : i ≡ issue = ground arith in cc
    | inr e ↦ e
  ]

  module _ (n : ℕ) where
    -- The rule has told the issue, in n tries.
    record IsDone (db : AlertDb lib) : Type 0 where
      told : has_delivered_alert rule issue db ≡ true
      tried : tries db ≡ n

    record-IsDone :
        (d : AlertDelivery) (db : AlertDb lib)
        → is_about rule issue d ≡ false
        → IsDone db
        → IsDone (record_alert_delivery d db)
    unfolding record_alert_delivery tries has_delivered_alert is_found
    record-IsDone d db miss i =
        elim (Option-cases (find (λ x. is_about rule issue x && x.success) db.deliveries)) [
          | inl e ↦ let h = i.told in cc
          | inr (x, e) ↦ record {
            told = rw (found-snoc (λ y. is_about rule issue y && y.success) db.deliveries d e) refl;
            tried = rw (keep-snoc_miss (is_about rule issue) db.deliveries d miss) i.tried;
          }
        ]

    module _ (send : Send) (now : ℕ) where
      deliver-IsDone :
          (project r : ℕ) (o : Option ℕ) (fp : Text) (cs : List ℕ) (db : AlertDb lib)
          → (r == rule && is_issue o issue) ≡ false
          → IsDone db
          → IsDone (deliver send now project r o fp cs db)
      unfolding deliver attempt is_about
      deliver-IsDone project r o fp [] db miss i = i
      deliver-IsDone project r o fp (c ∷ cs) db miss i =
          elim (Option-cases (get_alert_channel project c db)) [
            | inl e ↦ rw e (deliver-IsDone project r o fp cs db miss i)
            | inr (ch, e) ↦
                rw e (deliver-IsDone project r o fp cs _ miss (record-IsDone _ db miss i))
          ]

      apply_rule-IsDone :
          (ev : IssueEvent) (r : AlertRule lib) (db : AlertDb lib)
          → IsDone db
          → IsDone (apply_rule send now ev r db)
      unfolding apply_rule
      apply_rule-IsDone ev r db i =
          elim (Bool-cases (not r.enabled || not (text_eq r.kind ev.kind))) [
            | inl e ↦ rw e i
            | inr e ↦ elim (Bool-cases (has_delivered_alert r.id ev.issue_id db)) [
              | inl k ↦ rw (e, k) i
              | inr k ↦
                  rw (e, k)
                    (deliver-IsDone ev.project_id r.id (some ev.issue_id) ev.fingerprint
                      r.channel_ids db (other r.id ev.issue_id db k i.told) i)
            ]
          ]

      apply_rules-IsDone :
          (ev : IssueEvent) (rs : List (AlertRule lib)) (db : AlertDb lib)
          → IsDone db
          → IsDone (apply_rules send now ev rs db)
      unfolding apply_rules
      apply_rules-IsDone ev [] db i = i
      apply_rules-IsDone ev (r ∷ rs) db i = apply_rules-IsDone ev rs _ (apply_rule-IsDone ev r db i)

      tell-IsDone :
          (o : Option (Metrics lib)) (r : AlertRule lib) (db : AlertDb lib)
          → IsDone db
          → IsDone (tell lib send now o r db)
      unfolding tell is_issue
      tell-IsDone none r db i = i
      tell-IsDone (some m) r db i = elim (Bool-cases (triggered lib r m)) [
        | inl e ↦ rw e (deliver-IsDone r.project_id r.id none [] r.channel_ids db (ground arith) i)
        | inr e ↦ rw e i
      ]

      evaluate_rate_rule-IsDone :
          (measure : Measure lib) (r : AlertRule lib) (db : AlertDb lib)
          → IsDone db
          → IsDone (evaluate_rate_rule lib send now measure r db)
      unfolding evaluate_rate_rule
      evaluate_rate_rule-IsDone measure r db i =
          elim (Bool-cases (not r.enabled || not (is_rate_rule lib r))) [
            | inl e ↦ rw e i
            | inr e ↦
                elim (Bool-cases
                  (is_cooling lib (last_alert_delivery r.id db) (cooldown_of lib r) now)) [
                    | inl k ↦ rw (e, k) i
                    | inr k ↦
                        rw (e, k)
                          (tell-IsDone
                            (measure r.project_id (positive_or 15 r.params.window_minutes)) r db i)
                  ]
          ]

      evaluate_rules-IsDone :
          (measure : Measure lib) (rs : List (AlertRule lib)) (db : AlertDb lib)
          → IsDone db
          → IsDone (evaluate_rules lib send now measure rs db)
      unfolding evaluate_rules
      evaluate_rules-IsDone measure [] db i = i
      evaluate_rules-IsDone measure (r ∷ rs) db i =
          evaluate_rules-IsDone measure rs _ (evaluate_rate_rule-IsDone measure r db i)

      evaluate_rate_rules-IsDone :
          (measure : Measure lib) (ps : List ℕ) (db : AlertDb lib)
          → IsDone db
          → IsDone (evaluate_rate_rules lib send now measure ps db)
      unfolding evaluate_rate_rules
      evaluate_rate_rules-IsDone measure [] db i = i
      evaluate_rate_rules-IsDone measure (p ∷ ps) db i =
          evaluate_rate_rules-IsDone measure ps _
            (evaluate_rules-IsDone measure (list_alert_rules p db) db i)

      step-IsDone : (i : Input lib) (db : AlertDb lib) → IsDone db → IsDone (step send now i db)
      unfolding step handle_issue_event
      step-IsDone (event ev) db i = apply_rules-IsDone ev (list_alert_rules ev.project_id db) db i
      step-IsDone (tick measure ps) db i = evaluate_rate_rules-IsDone measure ps db i

    run-IsDone :
        (send : Send) (is : List (ℕ × Input lib)) (db : AlertDb lib)
        → IsDone db
        → IsDone (run send is db)
    unfolding run
    run-IsDone send [] db i = i
    run-IsDone send ((now, x) ∷ is) db i = run-IsDone send is _ (step-IsDone send now x db i)

-- Once a rule has told an issue to some channel, it is silent on that issue: whatever the worker takes
-- after that, at whatever instants, and whichever attempts fail, the deliveries of the rule about the
-- issue, failed ones included, stay as many as they were.
pub told_once :
    {lib : RateLib} (send : Send) (rule issue : ℕ) (db : AlertDb lib) (is : List (ℕ × Input lib))
    → has_delivered_alert rule issue db ≡ true
    → tries rule issue (run send is db) ≡ tries rule issue db
told_once send rule issue db is h =
    (run-IsDone rule issue (tries rule issue db) send is db
      (record { told = h; tried = refl })).tried
