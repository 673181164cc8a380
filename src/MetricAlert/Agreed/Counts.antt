-- ===== src/MetricAlert/Agreed/Counts.antt =====
-- How the operations on incidents change the number of open ones.
use sightpane.Prelude.{
  ℕ, ◌+◌, ◌<◌, ◌≡◌, ◌==◌, refl, Bool, true, false, ◌&&◌, some, List, [], ◌∷◌, All, All-find,
  All-mono, HasUnique, find, update_where, arith, if◌then◌else◌, Bool-cases, inl, inr,
}
use sightpane.MetricAlert.{FloatLib, MetricAlertIncident}
use sightpane.MetricAlert.Incidents.{is_open_of, has_incident_id, raise_peak, resolve}
use sightpane.MetricAlert.Agreed.{open_count}

module _ (lib : FloatLib) where
  -- Where a rule has an open incident, the query finds one.
  pub find_open :
      (rule : ℕ) (is : List (MetricAlertIncident lib))
      → 0 < open_count lib rule is
      → (i : MetricAlertIncident lib) × (find (is_open_of lib rule) is ≡ some i)
  unfolding open_count find
  find_open rule [] h = absurd (omega arith)
  find_open rule (i ∷ is) h = elim (Bool-cases (is_open_of lib rule i)) [
    | inl e ↦ rw e (i, refl)
    | inr e ↦ rw e (find_open rule is (ground arith))
  ]

  pub open_count-raise_peak :
      (rule : ℕ) (p : MetricAlertIncident lib → Bool) (v : lib.F)
      (is : List (MetricAlertIncident lib))
      → open_count lib rule (update_where p (raise_peak lib v) is) ≡ open_count lib rule is
  unfolding open_count update_where raise_peak is_open_of
  open_count-raise_peak rule p v [] = refl
  open_count-raise_peak rule p v (i ∷ is) =
      let rest = open_count-raise_peak rule p v is in ground arith

  update_none :
      (p : MetricAlertIncident lib → Bool) (f : MetricAlertIncident lib → MetricAlertIncident lib)
      (is : List (MetricAlertIncident lib))
      → All (λ i. p i ≡ false) is
      → update_where p f is ≡ is
  unfolding update_where
  update_none p f [] h = refl
  update_none p f (i ∷ is) (h, hs) = rw (h, update_none p f is hs)

  other_ids :
      (id : ℕ) (is : List (MetricAlertIncident lib))
      → All (λ i. (i.id == id) ≡ false) is
      → All (λ i. (has_incident_id lib id i && i.is_open) ≡ false) is
  unfolding has_incident_id
  other_ids id is u = All-mono (λ i. (i.id == id) ≡ false) _ is (λ i h. rw h refl) u

  resolved_head :
      (a b now : ℕ) (v : lib.F) (i : MetricAlertIncident lib) (rest : ℕ)
      → is_open_of lib a i ≡ true
      → (if is_open_of lib b (resolve lib now v i) then 1 else 0) + rest + (if a == b then 1 else 0)
        ≡ (if is_open_of lib b i then 1 else 0) + rest
  unfolding is_open_of resolve
  resolved_head a b now v i rest e = ground arith

  -- Resolving the open incident that was found takes one from the count of its rule.
  pub open_count-resolve :
      (a b now : ℕ) (v : lib.F) (is : List (MetricAlertIncident lib)) (x : MetricAlertIncident lib)
      → HasUnique (λ i. i.id) is
      → find (is_open_of lib a) is ≡ some x
      → open_count lib b
            (update_where (λ i. has_incident_id lib x.id i && i.is_open) (resolve lib now v) is)
          + (if a == b then 1 else 0)
        ≡ open_count lib b is
  unfolding open_count find update_where
  open_count-resolve a b now v [] x u h = cc
  open_count-resolve a b now v (i ∷ is) x (u, us) h = elim (Bool-cases (is_open_of lib a i)) [
    | inl e ↦
        let same : i ≡ x = ground arith in
        let hit : (has_incident_id lib x.id i && i.is_open) ≡ true =
          rw (← same) (unfold has_incident_id is_open_of in ground arith) in
        let rest : update_where (λ j. has_incident_id lib x.id j && j.is_open) (resolve lib now v)
              is
            ≡ is =
          rw (← same) (update_none _ (resolve lib now v) is (other_ids i.id is u)) in
        rw (hit, rest) (resolved_head a b now v i (open_count lib b is) e)
    | inr e ↦
        let found : find (is_open_of lib a) is ≡ some x = rw e at h in
        let other : (x.id == i.id) ≡ false =
          All-find (λ j. (j.id == i.id) ≡ false) (is_open_of lib a) is u found in
        let miss : (has_incident_id lib x.id i && i.is_open) ≡ false =
          unfold has_incident_id in ground arith in
        rw miss (omega (arith, open_count-resolve a b now v is x us found))
  ]
