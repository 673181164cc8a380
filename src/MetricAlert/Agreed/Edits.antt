-- ===== src/MetricAlert/Agreed/Edits.antt =====
-- The operations on rules keep the tables agreed.
use mathlib.Core.Path.{subst}
use sightpane.Prelude.{
  ℕ, ◌+◌, ◌<◌, ◌≡◌, ◌==◌, refl, ◌∙◌, Bool, false, not, Option, none, some, List, [], ◌∷◌, ◌++◌, All,
  All-find, All-mono, All-keep, All-both, All-snoc, All-update_where, HasUnique,
  HasUnique-update_where, HasUnique-keep, HasUnique-snoc, find, find_sound, keep, update_where,
  arith, Bool-cases, inl, inr,
}
use sightpane.MetricAlert.{FloatLib, MetricAlertRule, MetricAlertIncident, AlertDb, ok, is_firing}
use sightpane.MetricAlert.Rules.{
  Result, done, failed, insert_rule, write_rule, edit, is_rule, delete_found,
}
use sightpane.MetricAlert.Incidents.{is_open_of}
use sightpane.MetricAlert.Agreed.{IsAgreed, AgreesWith, open_count, expected_open}

module _ (lib : FloatLib) where
  -- Deleting a rule deletes its incidents and no others.
  open_count-keep :
      (id b : ℕ) (is : List (MetricAlertIncident lib))
      → (b == id) ≡ false
      → open_count lib b (keep (λ i. not (i.rule_id == id)) is) ≡ open_count lib b is
  unfolding open_count keep is_open_of
  open_count-keep id b [] h = refl
  open_count-keep id b (i ∷ is) h = let rest = open_count-keep id b is h in ground arith

  -- A new rule has no incidents.
  open_count_new :
      (b : ℕ) (is : List (MetricAlertIncident lib))
      → All (λ i. i.rule_id < b) is
      → open_count lib b is ≡ 0
  unfolding open_count is_open_of
  open_count_new b [] h = refl
  open_count_new b (i ∷ is) (h, hs) = let rest = open_count_new b is hs in ground arith

  pub insert_rule-IsAgreed :
      (v : Result (MetricAlertRule lib)) (db db' : AlertDb lib) (id : ℕ)
      → insert_rule lib v db ≡ done (db', id)
      → IsAgreed lib db
      → IsAgreed lib db'
  unfolding insert_rule expected_open is_firing
  insert_rule-IsAgreed (failed k) db db' id e a = cc
  insert_rule-IsAgreed (done r) db db' id e a =
      let row = record r { id = db.next_rule; current_status = ok } in
      let same : record db { rules = db.rules ++ row ∷ []; next_rule = db.next_rule + 1 } ≡ db' =
        cc in
      subst (IsAgreed lib) same (record {
        statuses =
            All-snoc (AgreesWith lib db.incidents) db.rules row a.statuses
              (open_count_new db.next_rule db.incidents a.owners);
        rule_ids =
            HasUnique-snoc (λ q. q.id) db.rules row a.rule_ids
              (All-mono (λ q. q.id < db.next_rule) _ db.rules (λ q k. ground arith) a.rules_below);
        rules_below =
            All-snoc (λ q. q.id < db.next_rule + 1) db.rules row
              (All-mono (λ q. q.id < db.next_rule) _ db.rules (λ q k. omega arith) a.rules_below)
              (omega arith);
        incident_ids = a.incident_ids;
        incidents_below = a.incidents_below;
        owners =
            All-mono (λ i. i.rule_id < db.next_rule) _ db.incidents (λ i k. omega arith) a.owners;
      })

  pub write_rule-IsAgreed :
      (v : Result (MetricAlertRule lib)) (o : Option (MetricAlertRule lib)) (db db' : AlertDb lib)
      → write_rule lib v o db ≡ done db'
      → IsAgreed lib db
      → IsAgreed lib db'
  unfolding write_rule edit
  write_rule-IsAgreed (failed k) o db db' e a = cc
  write_rule-IsAgreed (done r) none db db' e a = cc
  write_rule-IsAgreed (done r) (some row) db db' e a =
      let p = is_rule lib r.project_id r.id in
      let same : record db { rules = update_where p (edit lib r) db.rules } ≡ db' = cc in
      subst (IsAgreed lib) same (record {
        statuses =
            All-update_where (AgreesWith lib db.incidents) (AgreesWith lib db.incidents) p
              (edit lib r) db.rules (λ q k _. k) (λ q k _. k) a.statuses;
        rule_ids =
            HasUnique-update_where (λ q. q.id) p (edit lib r) db.rules (λ q. refl) a.rule_ids;
        rules_below =
            All-update_where (λ q. q.id < db.next_rule) (λ q. q.id < db.next_rule) p (edit lib r)
              db.rules (λ q k _. k) (λ q k _. k) a.rules_below;
        incident_ids = a.incident_ids;
        incidents_below = a.incidents_below;
        owners = a.owners;
      })

  -- No rule that is left has the id of the deleted one.
  kept_ids :
      (project id : ℕ) (rs : List (MetricAlertRule lib)) (x : MetricAlertRule lib)
      → HasUnique (λ r. r.id) rs
      → find (is_rule lib project id) rs ≡ some x
      → All (λ q. (q.id == id) ≡ false) (keep (λ s. not (is_rule lib project id s)) rs)
  unfolding find keep
  kept_ids project id [] x u f = tt
  kept_ids project id (r ∷ rs) x (u, us) f = elim (Bool-cases (is_rule lib project id r)) [
    | inl e ↦
        let same : r.id ≡ id = unfold is_rule in ground arith in
        let others : All (λ q. (q.id == id) ≡ false) rs = rw same at u in
        rw e (All-keep (λ q. (q.id == id) ≡ false) (λ s. not (is_rule lib project id s)) rs others)
    | inr e ↦
        let later : find (is_rule lib project id) rs ≡ some x = rw e at f in
        let same : x.id ≡ id =
          unfold is_rule in ground (arith, find_sound (is_rule lib project id) rs later) in
        let two : (x.id == r.id) ≡ false =
          All-find (λ q. (q.id == r.id) ≡ false) (is_rule lib project id) rs u later in
        rw e (ground arith, kept_ids project id rs x us later)
  ]

  deleted-IsAgreed :
      (project id : ℕ) (o : Option (MetricAlertRule lib)) (db db' : AlertDb lib)
      → find (is_rule lib project id) db.rules ≡ o
      → delete_found lib project id o db ≡ done db'
      → IsAgreed lib db
      → IsAgreed lib db'
  unfolding delete_found
  deleted-IsAgreed project id none db db' f e a = cc
  deleted-IsAgreed project id (some x) db db' f e a =
      let p : MetricAlertRule lib → Bool = λ s. not (is_rule lib project id s) in
      let q : MetricAlertIncident lib → Bool = λ i. not (i.rule_id == id) in
      let same : record db { rules = keep p db.rules; incidents = keep q db.incidents } ≡ db' =
        cc in
      subst (IsAgreed lib) same (record {
        statuses =
            All-mono (λ r. AgreesWith lib db.incidents r × ((r.id == id) ≡ false)) _
              (keep p db.rules) (λ r (k, other). open_count-keep id r.id db.incidents other ∙ k)
              (All-both (AgreesWith lib db.incidents) _ (keep p db.rules)
                (All-keep (AgreesWith lib db.incidents) p db.rules a.statuses)
                (kept_ids project id db.rules x a.rule_ids f));
        rule_ids = HasUnique-keep (λ r. r.id) p db.rules a.rule_ids;
        rules_below = All-keep (λ r. r.id < db.next_rule) p db.rules a.rules_below;
        incident_ids = HasUnique-keep (λ i. i.id) q db.incidents a.incident_ids;
        incidents_below = All-keep (λ i. i.id < db.next_incident) q db.incidents a.incidents_below;
        owners = All-keep (λ i. i.rule_id < db.next_rule) q db.incidents a.owners;
      })

  pub delete_found-IsAgreed :
      (project id : ℕ) (db db' : AlertDb lib)
      → delete_found lib project id (find (is_rule lib project id) db.rules) db ≡ done db'
      → IsAgreed lib db
      → IsAgreed lib db'
  delete_found-IsAgreed project id db db' e a = deleted-IsAgreed project id _ db db' refl e a
