-- ===== src/Funnel/Examples.antt =====
-- A funnel at a concrete input.
use sightpane.Prelude.{
  ◌≡◌, refl, some, List, [], ◌∷◌, length, get_elem?, leb, arith, map, keep, if◌then◌else◌,
}
use sightpane.Prelude.Int.{pos}
use sightpane.Prelude.Text.{Text, codes, text_eq}
use sightpane.Funnel.{
  SessionEvents, FunnelStepResult, calculate_funnel_results, reached_by, limit_or_20,
  get_funnel_dropoffs,
}
use sightpane.Funnel.Counts.{sessions_past, sessions_at, drop_off-dropoffs}

abbrev two_steps : List Text
two_steps = codes "view" ∷ codes "buy" ∷ []

-- The second session buys too late.
abbrev two_sessions : List SessionEvents
two_sessions =
    record {
      session_id = codes "a";
      events =
          record { name = codes "view"; ts = 0 }
          ∷ record { name = codes "buy"; ts = 5_000_000_000 }
          ∷ [];
    }
    ∷ record {
      session_id = codes "b";
      events =
          record { name = codes "view"; ts = 0 }
          ∷ record { name = codes "buy"; ts = 90_000_000_000 }
          ∷ [];
    }
    ∷ []

two_reached : map (reached_by (pos 60) two_steps) two_sessions ≡ 2 ∷ 1 ∷ []
unfolding reached_by text_eq keep
two_reached = refl

drop_off-dropoffs_example :
    (r : FunnelStepResult) × (get_elem? (calculate_funnel_results (pos 60) two_steps two_sessions) 0
      ≡ some r)
    × (r.count ≡ sessions_past (pos 60) two_steps 0 two_sessions)
    × (r.drop_off_count ≡ sessions_at (pos 60) two_steps 0 two_sessions)
    × (length (get_funnel_dropoffs 0 (pos 1) (pos 60) two_steps two_sessions) ≡ (
        if leb r.drop_off_count (limit_or_20 (pos 1))
        then r.drop_off_count
        else limit_or_20 (pos 1)))
drop_off-dropoffs_example =
    drop_off-dropoffs (pos 60) two_steps 0 (pos 1) two_sessions (omega arith)
