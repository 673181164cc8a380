-- ===== src/Experiment.antt =====
-- Experiments (internal/store/experiments.go): their rows and the life cycle, which ends by writing
-- the flag of the experiment. The secondary metrics, which no operation sets, are left out, and so
-- are the times of creation and update. The variants are stored as JSON and read back; the round trip
-- is taken to be exact.
pub mod Conclude
pub mod Results
mod Examples
use sightpane.Prelude.{
  ℕ, ◌+◌, ◌==◌, Bool, true, false, ◌&&◌, ◌||◌, not, Option, none, some, List, [], ◌∷◌, ◌++◌, map,
  find, keep, update_where, if◌then◌else◌,
}
use sightpane.Prelude.Int.{ℤ, pos, negsuc, pos_part}
use sightpane.Prelude.Text.{Text, codes, text_eq, is_empty}
use sightpane.Flag.{FlagLib, FlagVariant, FeatureFlag}
use sightpane.Flag.Table.{FlagDb, Result, get_feature_flag, has_key}
use sightpane.Flag.Table as Flags

pub record ExperimentVariant : Type 0 where
  pub key : Text
  pub name : Text

pub record Experiment : Type 0 where
  pub id : ℕ
  pub project_id : ℕ
  pub name : Text
  pub description : Text
  pub feature_flag_id : Option ℕ
  pub feature_flag_key : Text
  pub status : Text
  pub primary_metric_event : Text
  pub variants : List ExperimentVariant
  pub minimum_sample_size : ℤ
  pub winner_variant : Option Text
  pub started_at : Option ℕ
  pub concluded_at : Option ℕ

pub data ExperimentError : Type 0 where
  not_found refused : ExperimentError

pub data Reply (A : Type 0) : Type 0 where
  done : A → Reply A
  failed : ExperimentError → Reply A

unfoldable pub is_experiment : ℕ → ℕ → Experiment → Bool
is_experiment project id e = e.project_id == project && e.id == id

-- The CHECK on the column status.
is_status : Text → Bool
is_status s =
    text_eq s (codes "draft") || text_eq s (codes "running") || text_eq s (codes "concluded")

default_variants : Option (List ExperimentVariant) → List ExperimentVariant
default_variants none =
    record { key = codes "control"; name = codes "Control" }
    ∷ record { key = codes "test"; name = codes "Treatment" }
    ∷ []
default_variants (some vs) = vs

default_sample : ℤ → ℤ
default_sample (pos n) = if n == 0 then pos 1000 else pos n
default_sample (negsuc n) = pos 1000

-- The winner gets everything, the others nothing.
unfoldable pub winner_takes_all : Text → FlagVariant → FlagVariant
winner_takes_all winner v = record {
  key = v.key;
  rollout = if text_eq v.key winner then pos 100 else pos 0;
}

unfoldable pub conclude : Text → ℕ → Experiment → Experiment
conclude winner now e = record e {
  status = codes "concluded";
  winner_variant = some winner;
  concluded_at = some now;
}

module _ (lib : FlagLib) where
  pub record ExperimentDb : Type 0 where
    pub experiments : List Experiment
    pub next_id : ℕ
    pub flags : FlagDb lib

  id_of : Result (FeatureFlag lib) → Option ℕ
  id_of (Flags.done f) = some f.id
  id_of (Flags.failed e) = none

  -- Nil variants are none; the empty list is kept.
  unfoldable pub create_experiment :
      ℕ
      → Text
      → Text
      → Text
      → Text
      → Option (List ExperimentVariant)
      → ℤ
      → ℕ
      → ExperimentDb
      → ExperimentDb × Experiment
  unfolding default_variants default_sample id_of
  create_experiment project name description key metric variants sample now db =
      let e : Experiment = record {
        id = db.next_id;
        project_id = project;
        name = name;
        description = description;
        feature_flag_id = id_of (get_feature_flag lib project key db.flags);
        feature_flag_key = key;
        status = codes "running";
        primary_metric_event = metric;
        variants = default_variants variants;
        minimum_sample_size = default_sample sample;
        winner_variant = none;
        started_at = some now;
        concluded_at = none;
      } in
      (record db { experiments = db.experiments ++ e ∷ []; next_id = db.next_id + 1 }, e)

  or_not_found : Option Experiment → Reply Experiment
  or_not_found none = failed not_found
  or_not_found (some e) = done e

  unfoldable pub get_experiment : ℕ → ℕ → ExperimentDb → Reply Experiment
  unfolding or_not_found is_experiment
  get_experiment project id db = or_not_found (find (is_experiment project id) db.experiments)

  update_found :
      Option Experiment → Text → Text → Text → ℤ → ExperimentDb → Reply (ExperimentDb × Experiment)
  unfolding is_status
  update_found none name description status sample db = failed not_found
  update_found (some e) name description status sample db =
      let edit : Experiment → Experiment = λ r. record r {
        name = name;
        description = description;
        status = status;
        minimum_sample_size = sample;
      } in
      if is_status status
      then done (
        record db {
          experiments = update_where (is_experiment e.project_id e.id) edit db.experiments;
        },
        edit e,
      )
      else failed refused

  unfoldable pub update_experiment :
      ℕ → ℕ → Text → Text → Text → ℤ → ExperimentDb → Reply (ExperimentDb × Experiment)
  unfolding update_found is_experiment
  update_experiment project id name description status sample db =
      update_found (find (is_experiment project id) db.experiments) name description status sample
        db

  delete_found : Option Experiment → ℕ → ℕ → ExperimentDb → Reply ExperimentDb
  unfolding is_experiment
  delete_found none project id db = failed not_found
  delete_found (some e) project id db =
      done (record db { experiments = keep (λ r. not (is_experiment project id r)) db.experiments })

  unfoldable pub delete_experiment : ℕ → ℕ → ExperimentDb → Reply ExperimentDb
  unfolding delete_found is_experiment
  delete_experiment project id db =
      delete_found (find (is_experiment project id) db.experiments) project id db

  -- UPDATE feature_flags SET enabled, rollout_percentage, variants.
  unfoldable pub roll_out : List FlagVariant → FeatureFlag lib → FeatureFlag lib
  roll_out variants f = record f {
    enabled = true;
    rollout_percentage = pos 100;
    variants = variants;
  }

  unfoldable pub write_flag : Result (FeatureFlag lib) → ℕ → Text → Text → FlagDb lib → FlagDb lib
  unfolding winner_takes_all roll_out has_key
  write_flag (Flags.done f) project key winner flags = record flags {
    flags =
        update_where (has_key lib project key) (roll_out (map (winner_takes_all winner) f.variants))
          flags.flags;
  }
  write_flag (Flags.failed e) project key winner flags = record flags {
    flags =
        update_where (has_key lib project key)
          (λ r. record r { enabled = true; rollout_percentage = pos 100 }) flags.flags;
  }

  unfoldable pub conclude_found :
      Reply Experiment → Text → ℕ → ExperimentDb → Reply (ExperimentDb × Experiment)
  unfolding conclude write_flag is_experiment
  conclude_found (failed x) winner now db = failed x
  conclude_found (done e) winner now db =
      let flags =
        if is_empty e.feature_flag_key
        then db.flags
        else write_flag (get_feature_flag lib e.project_id e.feature_flag_key db.flags) e.project_id
            e.feature_flag_key winner db.flags in
      done (
        record db {
          experiments =
              update_where (is_experiment e.project_id e.id) (conclude winner now) db.experiments;
          flags = flags;
        },
        conclude winner now e,
      )

  unfoldable pub conclude_experiment_winner :
      ℕ → ℕ → Text → ℕ → ExperimentDb → Reply (ExperimentDb × Experiment)
  unfolding conclude_found
  conclude_experiment_winner project id winner now db =
      conclude_found (get_experiment project id db) winner now db
