-- ===== src/Flag/Table/Stored.antt =====
-- What the stored flags satisfy, whatever is asked.
use mathlib.Core.Path.{subst}
use sightpane.Prelude.{
  ℕ, ◌+◌, ◌<◌, ◌≤◌, ◌≡◌, refl, Bool, false, not, Option, none, some, List, [], ◌∷◌, All,
  All-update_where, All-keep, All-mono, HasUnique-update_where, HasUnique-keep, HasUnique, find,
  keep, update_where, arith, Bool-cases, inl, inr, ltb, ◌∙◌,
}
use sightpane.Prelude.Int.{ℤ, pos, negsuc}
use sightpane.Prelude.Text.{Text}
use sightpane.Flag.{FlagLib, FeatureFlag}
use sightpane.Flag.Table.{
  FlagDb, done, clamp, has_key, is_flag, create_feature_flag, insert_flag, update_feature_flag,
  update_found, edit, delete_feature_flag, delete_found,
}

-- A percentage from 0 to 100.
abbrev pub IsPercentage : ℤ → Type 0
IsPercentage z = (n : ℕ) × (z ≡ pos n) × (n ≤ 100)

clamp-IsPercentage : (z : ℤ) → IsPercentage (clamp z)
unfolding clamp
clamp-IsPercentage (negsuc n) = (0, refl, omega arith)
clamp-IsPercentage (pos n) = elim (Bool-cases (ltb 100 n)) [
  | inl e ↦ rw e (100, refl, omega arith)
  | inr e ↦ rw e (n, refl, ground arith)
]

module _ (lib : FlagLib) where
  -- No two flags of a project have the same key.
  abbrev pub HasUniqueKeys : List (FeatureFlag lib) → Type 0
  HasUniqueKeys [] = Unit
  HasUniqueKeys (f ∷ fs) = All (λ g. has_key lib f.project_id f.key g ≡ false) fs × HasUniqueKeys fs

  pub record IsSound (db : FlagDb lib) : Type 0 where
    pub percentages : All (λ f. IsPercentage f.rollout_percentage) db.flags
    pub keys : HasUniqueKeys db.flags
    pub ids : HasUnique (λ f. f.id) db.flags
    pub below : All (λ f. f.id < db.next_id) db.flags

  pub data Step : FlagDb lib → FlagDb lib → Type 0 where
    create :
        {db db' : FlagDb lib} {r : FeatureFlag lib} (f : FeatureFlag lib)
        → create_feature_flag lib f db ≡ done (db', r)
        → Step db db'
    update :
        {db db' : FlagDb lib} {r : FeatureFlag lib} (f : FeatureFlag lib)
        → update_feature_flag lib f db ≡ done (db', r)
        → Step db db'
    delete :
        {db db' : FlagDb lib} (project id : ℕ)
        → delete_feature_flag lib project id db ≡ done db'
        → Step db db'

  pub data Reach (a : FlagDb lib) : FlagDb lib → Type 0 where
    here : Reach a a
    then_ : {b c : FlagDb lib} → Reach a b → Step b c → Reach a c

  missing :
      (project : ℕ) (key : Text) (fs : List (FeatureFlag lib))
      → find (has_key lib project key) fs ≡ none
      → All (λ g. has_key lib project key g ≡ false) fs
  unfolding find
  missing project key [] e = tt
  missing project key (f ∷ fs) e = elim (Bool-cases (has_key lib project key f)) [
    | inl k ↦ absurd (ground arith)
    | inr k ↦ (k, missing project key fs (rw k at e))
  ]

  has_key-edit :
      (project : ℕ) (key : Text) (f r : FeatureFlag lib)
      → has_key lib project key (edit lib f r) ≡ has_key lib project key r
  unfolding has_key edit
  has_key-edit project key f r = refl

  edit-HasUniqueKeys :
      (p : FeatureFlag lib → Bool) (f : FeatureFlag lib) (fs : List (FeatureFlag lib))
      → HasUniqueKeys fs
      → HasUniqueKeys (update_where p (edit lib f) fs)
  unfolding update_where edit
  edit-HasUniqueKeys p f [] u = tt
  edit-HasUniqueKeys p f (r ∷ fs) (u, us) =
      let others =
        All-update_where (λ g. has_key lib r.project_id r.key g ≡ false)
          (λ g. has_key lib r.project_id r.key g ≡ false) p (edit lib f) fs
          (λ g h _. has_key-edit r.project_id r.key f g ∙ h) (λ g h _. h) u in
      elim (Bool-cases (p r)) [
        | inl e ↦ rw e (others, edit-HasUniqueKeys p f fs us)
        | inr e ↦ rw e (others, edit-HasUniqueKeys p f fs us)
      ]

  keep-HasUniqueKeys :
      (p : FeatureFlag lib → Bool) (fs : List (FeatureFlag lib))
      → HasUniqueKeys fs
      → HasUniqueKeys (keep p fs)
  unfolding keep
  keep-HasUniqueKeys p [] u = tt
  keep-HasUniqueKeys p (r ∷ fs) (u, us) =
      let rest = keep-HasUniqueKeys p fs us in
      let others = All-keep (λ g. has_key lib r.project_id r.key g ≡ false) p fs u in
      elim (Bool-cases (p r)) [ inl e ↦ rw e (others, rest) | inr e ↦ rw e rest ]

  insert_flag-IsSound :
      (f r : FeatureFlag lib) (o : Option (FeatureFlag lib)) (db db' : FlagDb lib)
      → find (has_key lib f.project_id f.key) db.flags ≡ o
      → insert_flag lib f o db ≡ done (db', r)
      → IsPercentage f.rollout_percentage
      → IsSound db
      → IsSound db'
  unfolding insert_flag
  insert_flag-IsSound f r (some g) db db' m e p s = cc
  insert_flag-IsSound f r none db db' m e p s =
      let row = record f { id = db.next_id } in
      let same : record { flags = row ∷ db.flags; next_id = db.next_id + 1 } ≡ db' = cc in
      subst IsSound same (record {
        percentages = (p, s.percentages);
        keys = (missing f.project_id f.key db.flags m, s.keys);
        ids = (All-mono (λ g. g.id < db.next_id) _ db.flags (λ g h. ground arith) s.below, s.ids);
        below = (
          omega arith,
          All-mono (λ g. g.id < db.next_id) _ db.flags (λ g h. omega arith) s.below,
        );
      })

  update_found-IsSound :
      (f r : FeatureFlag lib) (o : Option (FeatureFlag lib)) (db db' : FlagDb lib)
      → update_found lib f o db ≡ done (db', r)
      → IsSound db
      → IsSound db'
  unfolding update_found edit
  update_found-IsSound f r none db db' e s = cc
  update_found-IsSound f r (some g) db db' e s =
      let p = is_flag lib f.project_id f.id in
      let same : record db { flags = update_where p (edit lib f) db.flags } ≡ db' = cc in
      subst IsSound same (record {
        percentages =
            All-update_where (λ f. IsPercentage f.rollout_percentage)
              (λ f. IsPercentage f.rollout_percentage) p (edit lib f) db.flags
              (λ g _ _. clamp-IsPercentage f.rollout_percentage) (λ g h _. h) s.percentages;
        keys = edit-HasUniqueKeys p f db.flags s.keys;
        ids = HasUnique-update_where (λ f. f.id) p (edit lib f) db.flags (λ g. refl) s.ids;
        below =
            All-update_where (λ f. f.id < db.next_id) (λ f. f.id < db.next_id) p (edit lib f)
              db.flags (λ g h _. h) (λ g h _. h) s.below;
      })

  delete_found-IsSound :
      (project id : ℕ) (o : Option (FeatureFlag lib)) (db db' : FlagDb lib)
      → delete_found lib project id o db ≡ done db'
      → IsSound db
      → IsSound db'
  unfolding delete_found
  delete_found-IsSound project id none db db' e s = cc
  delete_found-IsSound project id (some g) db db' e s =
      let p : FeatureFlag lib → Bool = λ r. not (is_flag lib project id r) in
      let same : record db { flags = keep p db.flags } ≡ db' = cc in
      subst IsSound same (record {
        percentages = All-keep (λ f. IsPercentage f.rollout_percentage) p db.flags s.percentages;
        keys = keep-HasUniqueKeys p db.flags s.keys;
        ids = HasUnique-keep (λ f. f.id) p db.flags s.ids;
        below = All-keep (λ f. f.id < db.next_id) p db.flags s.below;
      })

  Step-IsSound : {db db' : FlagDb lib} → Step db db' → IsSound db → IsSound db'
  unfolding create_feature_flag update_feature_flag delete_feature_flag
  Step-IsSound {db} {db'} (create {r = r} f e) s =
      insert_flag-IsSound (record f { rollout_percentage = clamp f.rollout_percentage }) r _ db db'
        refl e (clamp-IsPercentage f.rollout_percentage) s
  Step-IsSound {db} {db'} (update {r = r} f e) s = update_found-IsSound f r _ db db' e s
  Step-IsSound {db} {db'} (delete project id e) s = delete_found-IsSound project id _ db db' e s

  -- From a sound table, whatever flags are created, updated and deleted, every percentage stays between
  -- 0 and 100, and no
  -- two flags of a project get the same key or two flags the same id.
  pub Reach-IsSound : {a b : FlagDb lib} → IsSound a → Reach a b → IsSound b
  Reach-IsSound s here = s
  Reach-IsSound s (then_ r h) = Step-IsSound h (Reach-IsSound s r)
