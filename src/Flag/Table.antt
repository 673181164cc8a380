-- ===== src/Flag/Table.antt =====
-- The operations on the table of flags, and EvaluateProjectFlags (internal/store/feature_flags.go).
-- The filters and the variants are stored as JSON and read back; the round trip is taken to be exact.
pub mod Stored
pub mod Project
use sightpane.Prelude.{
  ℕ, ◌+◌, ◌==◌, Bool, true, false, ◌&&◌, not, Option, none, some, List, [], ◌∷◌, ◌++◌, map, find,
  keep, update_where, if◌then◌else◌, ltb,
}
use sightpane.Prelude.Int.{ℤ, pos, negsuc}
use sightpane.Prelude.Text.{Text, text_eq}
use sightpane.Flag.{Value, FlagLib, FlagFilter, FlagVariant, FeatureFlag}
use sightpane.Flag.Evaluate.{Answer, evaluate_flag}

pub data FlagError : Type 0 where
  not_found duplicate_key : FlagError

pub data Result (A : Type 0) : Type 0 where
  done : A → Result A
  failed : FlagError → Result A

-- The percentage as both writing operations store it.
unfoldable pub clamp : ℤ → ℤ
clamp (pos n) = if ltb 100 n then pos 100 else pos n
clamp (negsuc n) = pos 0

module _ (lib : FlagLib) where
  -- Newest first.
  pub record FlagDb : Type 0 where
    pub flags : List (FeatureFlag lib)
    pub next_id : ℕ

  unfoldable pub has_key : ℕ → Text → FeatureFlag lib → Bool
  has_key project key f = f.project_id == project && text_eq f.key key

  unfoldable pub is_flag : ℕ → ℕ → FeatureFlag lib → Bool
  is_flag project id f = f.project_id == project && f.id == id

  unfoldable pub insert_flag :
      FeatureFlag lib → Option (FeatureFlag lib) → FlagDb → Result (FlagDb × FeatureFlag lib)
  insert_flag f (some other) db = failed duplicate_key
  insert_flag f none db =
      let row = record f { id = db.next_id } in
      done (record { flags = row ∷ db.flags; next_id = db.next_id + 1 }, row)

  -- The arguments are the fields of `f`; UNIQUE(project_id, key) refuses a second flag.
  unfoldable pub create_feature_flag : FeatureFlag lib → FlagDb → Result (FlagDb × FeatureFlag lib)
  unfolding insert_flag
  create_feature_flag f db =
      insert_flag (record f { rollout_percentage = clamp f.rollout_percentage })
        (find (has_key f.project_id f.key) db.flags) db

  unfoldable pub or_not_found : Option (FeatureFlag lib) → Result (FeatureFlag lib)
  or_not_found none = failed not_found
  or_not_found (some f) = done f

  unfoldable pub get_feature_flag : ℕ → Text → FlagDb → Result (FeatureFlag lib)
  unfolding or_not_found has_key
  get_feature_flag project key db = or_not_found (find (has_key project key) db.flags)

  unfoldable pub get_feature_flag_by_id : ℕ → ℕ → FlagDb → Result (FeatureFlag lib)
  unfolding or_not_found is_flag
  get_feature_flag_by_id project id db = or_not_found (find (is_flag project id) db.flags)

  unfoldable pub list_feature_flags : ℕ → FlagDb → List (FeatureFlag lib)
  list_feature_flags project db = keep (λ f. f.project_id == project) db.flags

  -- SET name, description, enabled, rollout_percentage, filters, variants.
  unfoldable pub edit : FeatureFlag lib → FeatureFlag lib → FeatureFlag lib
  edit f row = record row {
    name = f.name;
    description = f.description;
    enabled = f.enabled;
    rollout_percentage = clamp f.rollout_percentage;
    filters = f.filters;
    variants = f.variants;
  }

  unfoldable pub update_found :
      FeatureFlag lib → Option (FeatureFlag lib) → FlagDb → Result (FlagDb × FeatureFlag lib)
  update_found f none db = failed not_found
  update_found f (some row) db =
      done (
        record db { flags = update_where (is_flag f.project_id f.id) (edit f) db.flags },
        edit f row,
      )

  unfoldable pub update_feature_flag : FeatureFlag lib → FlagDb → Result (FlagDb × FeatureFlag lib)
  unfolding update_found edit is_flag
  update_feature_flag f db = update_found f (find (is_flag f.project_id f.id) db.flags) db

  unfoldable pub delete_found : ℕ → ℕ → Option (FeatureFlag lib) → FlagDb → Result FlagDb
  delete_found project id none db = failed not_found
  delete_found project id (some f) db =
      done (record db { flags = keep (λ r. not (is_flag project id r)) db.flags })

  unfoldable pub delete_feature_flag : ℕ → ℕ → FlagDb → Result FlagDb
  unfolding delete_found is_flag
  delete_feature_flag project id db =
      delete_found project id (find (is_flag project id) db.flags) db

  -- result[flag.Key] = val, for one flag after another.
  unfoldable pub put_all :
      List (FeatureFlag lib)
      → Text
      → (Text → Value lib.F lib.Any)
      → List (Text × Answer)
      → List (Text × Answer)
  put_all [] distinct_id properties result = result
  put_all (f ∷ fs) distinct_id properties result =
      put_all fs distinct_id properties
        ((f.key, evaluate_flag lib f distinct_id properties) ∷ result)

  unfoldable pub evaluate_project_flags :
      ℕ → Text → (Text → Value lib.F lib.Any) → FlagDb → List (Text × Answer)
  unfolding put_all
  evaluate_project_flags project distinct_id properties db =
      put_all (list_feature_flags project db) distinct_id properties []

-- A key of a map; the value put last stands first.
unfoldable pub lookup : {A : Type 0} → Text → List (Text × A) → Option A
lookup key [] = none
lookup key ((k, a) ∷ rest) = if text_eq k key then some a else lookup key rest
