-- ===== src/Alert/Rates/Cooldown.antt =====
-- A rate rule is silent while it cools down.
use native.Mathlib.Nat.{mod-eq_of_lt}
use sightpane.Prelude.{
  ℕ, ◌+◌, ◌*◌, ◌%◌, ◌^◌, ◌<◌, ◌≤◌, ◌==◌, ◌≡◌, refl, ap, ◌∙◌, true, false, not, ◌||◌, inl, inr,
  Option, none, some, List, [], ◌∷◌, ◌++◌, keep, All, All-keep, arith, Bool-cases, Option-cases,
  ==_iff, lt→ltb,
}
use sightpane.Prelude.Int.{pos, sub_ℕ, ltb_ℤ}
use sightpane.Prelude.Text.{Text}
use sightpane.Alert.{RateLib, AlertRule, AlertDelivery, AlertDb}
use sightpane.Alert.Tables.{
  is_success_of, latest_of, last_alert_delivery, record_alert_delivery, list_alert_rules,
  get_alert_channel,
}
use sightpane.Alert.Deliver.{Send, attempt, deliver}
use sightpane.Alert.Rates.{
  Measure, Metrics, minute, triggered, is_rate_rule, is_cooling, cooldown_of, cooldown_minutes_of,
  int64, tell, evaluate_rate_rule, evaluate_rules, evaluate_rate_rules,
}

latest_of-snoc_miss :
    (rule : ℕ) (ds : List AlertDelivery) (d : AlertDelivery) (best : Option ℕ)
    → (d.rule_id == rule) ≡ false
    → latest_of rule best (ds ++ d ∷ []) ≡ latest_of rule best ds
unfolding latest_of is_success_of
latest_of-snoc_miss rule [] d best h = rw h refl
latest_of-snoc_miss rule (x ∷ ds) d best h = latest_of-snoc_miss rule ds d _ h

keep-snoc_miss :
    (rule : ℕ) (ds : List AlertDelivery) (d : AlertDelivery)
    → (d.rule_id == rule) ≡ false
    → keep (λ x. x.rule_id == rule) (ds ++ d ∷ []) ≡ keep (λ x. x.rule_id == rule) ds
unfolding keep
keep-snoc_miss rule [] d h = rw h refl
keep-snoc_miss rule (x ∷ ds) d h = rw (keep-snoc_miss rule ds d h)

-- A product that fits does not wrap.
int64_small : (n : ℕ) → n < 2 ^ 63 → int64 n ≡ pos n
unfolding int64
int64_small n h =
    let fits : n < 2 ^ 64 = omega arith in
    let same : n % 2 ^ 64 ≡ n = mod-eq_of_lt fits in rw (same, lt→ltb n (2 ^ 63) h) refl

cooling_early : (t now n : ℕ) → now < t + n → ltb_ℤ (sub_ℕ now t) (pos n) ≡ true
cooling_early t now n h = ground arith

-- The rule has a cooldown of c minutes or more, whose nanoseconds fit an int64.
abbrev pub LastsFor : (lib : RateLib) → ℕ → AlertRule lib → Type 0
LastsFor lib c r = (c ≤ cooldown_minutes_of lib r) × (cooldown_minutes_of lib r * minute < 2 ^ 63)

module _ (lib : RateLib) (rule t c now : ℕ) (send : Send) (measure : Measure lib)
    (early : now < t + c * minute) where
  -- A rule with the id cools down for c minutes or more, in nanoseconds that fit an int64.
  abbrev Cools : AlertRule lib → Type 0
  Cools r = r.id ≡ rule → LastsFor lib c r

  -- The rule was last heard at t, and nothing was added to its deliveries.
  record IsQuiet (ds : List AlertDelivery) (db : AlertDb lib) : Type 0 where
    last : last_alert_delivery rule db ≡ some t
    same : keep (λ d. d.rule_id == rule) db.deliveries ≡ ds
    cools : All Cools db.rules

  module _ (ds : List AlertDelivery) where
    record-IsQuiet :
        (d : AlertDelivery) (db : AlertDb lib)
        → (d.rule_id == rule) ≡ false
        → IsQuiet ds db
        → IsQuiet ds (record_alert_delivery d db)
    unfolding record_alert_delivery last_alert_delivery
    record-IsQuiet d db miss i = record {
      last = rw (latest_of-snoc_miss rule db.deliveries d none miss) i.last;
      same = rw (keep-snoc_miss rule db.deliveries d miss) i.same;
      cools = i.cools;
    }

    deliver-IsQuiet :
        (project r : ℕ) (o : Option ℕ) (fp : Text) (cs : List ℕ) (db : AlertDb lib)
        → (r == rule) ≡ false
        → IsQuiet ds db
        → IsQuiet ds (deliver send now project r o fp cs db)
    unfolding deliver attempt
    deliver-IsQuiet project r o fp [] db miss i = i
    deliver-IsQuiet project r o fp (c ∷ cs) db miss i =
        elim (Option-cases (get_alert_channel project c db)) [
          | inl e ↦ rw e (deliver-IsQuiet project r o fp cs db miss i)
          | inr (ch, e) ↦
              rw e (deliver-IsQuiet project r o fp cs _ miss (record-IsQuiet _ db miss i))
        ]

    tell-IsQuiet :
        (o : Option (Metrics lib)) (r : AlertRule lib) (db : AlertDb lib)
        → (r.id == rule) ≡ false
        → IsQuiet ds db
        → IsQuiet ds (tell lib send now o r db)
    unfolding tell
    tell-IsQuiet none r db miss i = i
    tell-IsQuiet (some m) r db miss i = elim (Bool-cases (triggered lib r m)) [
      | inl e ↦ rw e (deliver-IsQuiet r.project_id r.id none [] r.channel_ids db miss i)
      | inr e ↦ rw e i
    ]

    is_cooling_lem :
        (r : AlertRule lib) (db : AlertDb lib)
        → r.id ≡ rule
        → Cools r
        → IsQuiet ds db
        → is_cooling lib (last_alert_delivery r.id db) (cooldown_of lib r) now ≡ true
    unfolding is_cooling cooldown_of
    is_cooling_lem r db e h i =
        let (long, fits) = h e in
        ap (λ id. is_cooling lib (last_alert_delivery id db) (cooldown_of lib r) now) e
        ∙ rw (i.last, int64_small (cooldown_minutes_of lib r * minute) fits)
            (cooling_early t now (cooldown_minutes_of lib r * minute) (omega (arith, long, early)))

    evaluate_rate_rule-IsQuiet :
        (r : AlertRule lib) (db : AlertDb lib)
        → Cools r
        → IsQuiet ds db
        → IsQuiet ds (evaluate_rate_rule lib send now measure r db)
    unfolding evaluate_rate_rule
    evaluate_rate_rule-IsQuiet r db h i =
        let cool = is_cooling lib (last_alert_delivery r.id db) (cooldown_of lib r) now in
        elim (Bool-cases (not r.enabled || not (is_rate_rule lib r))) [
          | inl e ↦ rw e i
          | inr e ↦ elim (Bool-cases cool) [
            | inl k ↦ rw (e, k) i
            | inr k ↦
                rw (e, k)
                  (tell-IsQuiet _ r db
                    (elim (Bool-cases (r.id == rule)) [
                      | inl same ↦
                          let hot = is_cooling_lem r db ((==_iff r.id rule).0 same) h i in cc
                      | inr other ↦ other
                    ])
                    i)
          ]
        ]

    evaluate_rules-IsQuiet :
        (rs : List (AlertRule lib)) (db : AlertDb lib)
        → All Cools rs
        → IsQuiet ds db
        → IsQuiet ds (evaluate_rules lib send now measure rs db)
    unfolding evaluate_rules
    evaluate_rules-IsQuiet [] db hs i = i
    evaluate_rules-IsQuiet (r ∷ rs) db (h, hs) i =
        evaluate_rules-IsQuiet rs _ hs (evaluate_rate_rule-IsQuiet r db h i)

    evaluate_rate_rules-IsQuiet :
        (ps : List ℕ) (db : AlertDb lib)
        → IsQuiet ds db
        → IsQuiet ds (evaluate_rate_rules lib send now measure ps db)
    unfolding evaluate_rate_rules list_alert_rules
    evaluate_rate_rules-IsQuiet [] db i = i
    evaluate_rate_rules-IsQuiet (p ∷ ps) db i = evaluate_rate_rules-IsQuiet ps _ (
        evaluate_rules-IsQuiet (list_alert_rules p db) db
          (All-keep Cools (λ r. r.project_id == p) db.rules i.cools) i)

-- A rate rule with a cooldown of c minutes or more, whose nanoseconds fit an int64, that was last heard
-- at the instant t, is not heard before t and c minutes: an evaluation of any projects before that
-- adds no delivery of the rule, whatever the errors and sessions are, and whatever the other rules
-- tell.
pub cooldown_silent :
    (lib : RateLib) (send : Send) (measure : Measure lib) (rule t c now : ℕ) (projects : List ℕ)
    (db : AlertDb lib)
    → last_alert_delivery rule db ≡ some t
    → All (λ r. r.id ≡ rule → LastsFor lib c r) db.rules
    → now < t + c * minute
    → keep
        (λ d. d.rule_id == rule)
        (evaluate_rate_rules lib send now measure projects db).deliveries
      ≡ keep (λ d. d.rule_id == rule) db.deliveries
cooldown_silent lib send measure rule t c now ps db last cools early =
    (evaluate_rate_rules-IsQuiet lib rule t c now send measure early _ ps db
      (record { last = last; same = refl; cools = cools })).same
