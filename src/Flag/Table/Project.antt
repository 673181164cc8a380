-- ===== src/Flag/Table/Project.antt =====
-- All flags of a project evaluated at once.
use sightpane.Prelude.{
  ℕ, ◌==◌, ◌≡◌, refl, ap, ◌∙◌, true, false, Option, none, some, List, [], ◌∷◌, All, find, keep,
  arith, Bool-cases, inl, inr,
}
use sightpane.Prelude.Text.{Text, text_eq, text_eq_sound}
use sightpane.Flag.{Value, FlagLib, FeatureFlag}
use sightpane.Flag.Evaluate.{Answer, evaluate_flag}
use sightpane.Flag.Table.{
  FlagDb, has_key, list_feature_flags, put_all, evaluate_project_flags, lookup, get_feature_flag,
  done, failed, or_not_found,
}
use sightpane.Flag.Table.Stored.{HasUniqueKeys}

module _ (lib : FlagLib) (id : Text) (properties : Text → Value lib.F lib.Any) where
  -- Flags of other names put nothing under a key.
  put_others :
      (key : Text) (fs : List (FeatureFlag lib)) (result : List (Text × Answer))
      → All (λ f. text_eq f.key key ≡ false) fs
      → lookup key (put_all lib fs id properties result) ≡ lookup key result
  unfolding put_all lookup
  put_others key [] result h = refl
  put_others key (f ∷ fs) result (h, hs) = put_others key fs _ hs ∙ rw h refl

  or_before : Option (FeatureFlag lib) → Option Answer → Option Answer
  or_before none before = before
  or_before (some f) before = some (evaluate_flag lib f id properties)

  -- The other flags of the project have other names.
  other_names :
      (project : ℕ) (f : FeatureFlag lib) (fs : List (FeatureFlag lib))
      → (f.project_id == project) ≡ true
      → All (λ g. has_key lib f.project_id f.key g ≡ false) fs
      → All (λ g. text_eq g.key f.key ≡ false) (keep (λ g. g.project_id == project) fs)
  unfolding keep has_key
  other_names project f [] same h = tt
  other_names project f (g ∷ fs) same (h, hs) = elim (Bool-cases (g.project_id == project)) [
    | inl e ↦ rw e (ground arith, other_names project f fs same hs)
    | inr e ↦ rw e (other_names project f fs same hs)
  ]

  lookup-put_all :
      (project : ℕ) (key : Text) (fs : List (FeatureFlag lib)) (result : List (Text × Answer))
      → HasUniqueKeys lib fs
      → lookup key (put_all lib (keep (λ f. f.project_id == project) fs) id properties result)
        ≡ or_before (find (has_key lib project key) fs) (lookup key result)
  unfolding keep find put_all or_before lookup
  lookup-put_all project key [] result u = refl
  lookup-put_all project key (f ∷ fs) result (u, us) = elim (Bool-cases (f.project_id == project)) [
    | inr other ↦
        let no : has_key lib project key f ≡ false = unfold has_key in ground arith in
        rw (other, no) (lookup-put_all project key fs result us)
    | inl same ↦ elim (Bool-cases (text_eq f.key key)) [
      | inl k ↦
          let yes : has_key lib project key f ≡ true = unfold has_key in ground arith in
          let name : f.key ≡ key = text_eq_sound f.key key k in
          let others : All (λ g. text_eq g.key key ≡ false)
              (keep (λ g. g.project_id == project) fs) =
            rw (← name) (other_names project f fs same u) in
          rw (same, yes)
            (put_others key (keep (λ g. g.project_id == project) fs) _ others
              ∙ unfold lookup in rw k refl)
      | inr k ↦
          let no : has_key lib project key f ≡ false = unfold has_key in ground arith in
          rw (same, no)
            (lookup-put_all project key fs _ us
              ∙ ap (or_before (find (has_key lib project key) fs)) (unfold lookup in rw k refl))
    ]
  ]

  found_answer :
      (o : Option (FeatureFlag lib))
      → or_before o none ≡ elim (or_not_found lib o) [
        | done f ↦ some (evaluate_flag lib f id properties)
        | failed e ↦ none
      ]
  unfolding or_before or_not_found
  found_answer none = refl
  found_answer (some f) = refl

  -- Where no two flags of a project have the same key, the answers for a project hold under every key
  -- the answer for the flag that is found by that key, and none under a key that no flag has.
  pub lookup-evaluate_project_flags :
      (project : ℕ) (key : Text) (db : FlagDb lib)
      → HasUniqueKeys lib db.flags
      → lookup key (evaluate_project_flags lib project id properties db)
        ≡ elim (get_feature_flag lib project key db) [
          | done f ↦ some (evaluate_flag lib f id properties)
          | failed e ↦ none
        ]
  unfolding evaluate_project_flags list_feature_flags get_feature_flag lookup
  lookup-evaluate_project_flags project key db u =
      lookup-put_all project key db.flags [] u
      ∙ found_answer (find (has_key lib project key) db.flags)
