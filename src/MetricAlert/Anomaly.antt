-- ===== src/MetricAlert/Anomaly.antt =====
-- EvaluateAnomaly (internal/alert/anomaly.go).
use sightpane.Prelude.{Bool, true, false, ◌&&◌, ◌++◌, if◌then◌else◌}
use sightpane.Prelude.Text.{Text, codes}
use sightpane.MetricAlert.{FloatLib}

pub record AnomalyEvaluation (lib : FloatLib) : Type 0 where
  pub current_value : lib.F
  pub baseline_value : lib.F
  pub multiplier : lib.F
  pub is_anomaly : Bool
  pub reason : Text

module _ (lib : FloatLib) where
  -- The defaults of the threshold and of the least count.
  at_least_2 : lib.F → lib.F
  at_least_2 k = if lib.less_eq k (lib.of 1) then lib.of 2 else k

  at_least_5 : lib.F → lib.F
  at_least_5 n = if lib.less_eq n (lib.of 0) then lib.of 5 else n

  multiplier_of : lib.F → lib.F → lib.F → lib.F
  multiplier_of current baseline least =
      if lib.less (lib.of 0) baseline
      then lib.div current baseline
      else if lib.less_eq least current
      then lib.of 10
      else lib.of 0

  reason_of : Bool → lib.F → lib.F → lib.F → lib.F → Text
  reason_of true current baseline mult threshold =
      codes "Current metric ("
      ++ lib.fixed 2 current
      ++ codes ") is "
      ++ lib.fixed 1 mult
      ++ codes "x higher than historical baseline ("
      ++ lib.fixed 2 (lib.max baseline lib.tenth)
      ++ codes ", threshold: "
      ++ lib.fixed 1 threshold
      ++ codes "x)"
  reason_of false current baseline mult threshold =
      codes "Current metric ("
      ++ lib.fixed 2 current
      ++ codes ") within baseline limits (baseline: "
      ++ lib.fixed 2 baseline
      ++ codes ", multiplier: "
      ++ lib.fixed 1 mult
      ++ codes "x)"

  unfoldable pub evaluate_anomaly : lib.F → lib.F → lib.F → lib.F → AnomalyEvaluation lib
  unfolding at_least_2 at_least_5 multiplier_of reason_of
  evaluate_anomaly current baseline spike_threshold min_count =
      let threshold = at_least_2 spike_threshold in
      let least = at_least_5 min_count in
      let mult = multiplier_of current baseline least in
      let spikes = lib.less_eq least current && lib.less_eq threshold mult in
      record {
        current_value = current;
        baseline_value = baseline;
        multiplier = mult;
        is_anomaly = spikes;
        reason = reason_of spikes current baseline mult threshold;
      }
