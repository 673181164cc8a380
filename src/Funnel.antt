-- ===== src/Funnel.antt =====
-- Funnels (internal/store/funnels.go): how far each session gets in the steps of a funnel, the counts
-- per step, and the sessions that drop off at a step. The rates, which are quotients of the counts, and
-- the median duration are left out.
pub mod Counts
mod Examples
use sightpane.Prelude.{
  ℕ, suc, ◌+◌, ◌-◌, ◌*◌, ◌==◌, Bool, true, false, ◌&&◌, ◌||◌, Option, none, some, List, [], ◌∷◌,
  keep, length, ltb, leb, if◌then◌else◌,
}
use sightpane.Prelude.Int.{ℤ, pos, negsuc}
use sightpane.Prelude.Text.{Text, text_eq}

-- Nanoseconds.
abbrev pub second : ℕ
second = 1_000_000_000

pub record EventOccurrence : Type 0 where
  pub name : Text
  pub ts : ℕ

-- The events of a session in the order of time, as the query returns them.
pub record SessionEvents : Type 0 where
  pub session_id : Text
  pub events : List EventOccurrence

-- `reached` is reachedStep + 1, which is also currentStep.
pub record Progress : Type 0 where
  pub reached : ℕ
  pub t0 : ℕ
  pub last_time : ℕ

is_step_name : List Text → Text → Bool
is_step_name [] name = false
is_step_name (s ∷ steps) name = text_eq s name || is_step_name steps name

-- ev.ts.Sub(t0) <= windowDuration, of an event that is not before t0.
within : ℤ → ℕ → ℕ → Bool
within (pos seconds) t0 ts = leb ts (t0 + seconds * second)
within (negsuc seconds) t0 ts = false

-- The event has the name of the step that comes next.
unfoldable pub take_step : ℤ → EventOccurrence → Progress → Progress
unfolding within
take_step window e p =
    if p.reached == 0
    then record { reached = 1; t0 = e.ts; last_time = e.ts }
    else if leb p.last_time e.ts && within window p.t0 e.ts
    then record p { reached = p.reached + 1; last_time = e.ts }
    else p

-- The steps that are left after a round: one less if it was taken.
unfoldable pub left_after : ℕ → ℕ → Text → List Text → List Text
left_after before after s steps = if before == after then s ∷ steps else steps

-- The loop over the events, with the steps that are left.
unfoldable pub walk : ℤ → List Text → Progress → List EventOccurrence → Progress
walk window [] p events = p
walk window (s ∷ steps) p [] = p
walk window (s ∷ steps) p (e ∷ events) =
    if text_eq e.name s
    then walk window (left_after p.reached (take_step window e p).reached s steps)
        (take_step window e p) events
    else walk window (s ∷ steps) p events

unfoldable pub reached_by : ℤ → List Text → SessionEvents → ℕ
unfolding walk take_step left_after is_step_name
reached_by window steps s =
    (walk window steps (record { reached = 0; t0 = 0; last_time = 0 })
      (keep (λ e. is_step_name steps e.name) s.events)).reached

-- for s := 0; s <= reachedStep; s++ { stepCounts[s]++ }
unfoldable pub count_reached : ℕ → List ℕ → List ℕ
count_reached reached [] = []
count_reached reached (c ∷ counts) =
    (if ltb 0 reached then c + 1 else c) ∷ count_reached (reached - 1) counts

unfoldable pub zeros : List Text → List ℕ
zeros [] = []
zeros (s ∷ steps) = 0 ∷ zeros steps

unfoldable pub step_counts : ℤ → List Text → List SessionEvents → List ℕ → List ℕ
unfolding count_reached
step_counts window steps [] counts = counts
step_counts window steps (s ∷ sessions) counts =
    step_counts window steps sessions (count_reached (reached_by window steps s) counts)

-- `count` and `drop_off_count` of each step; the last step has no drop-off.
pub record FunnelStepResult : Type 0 where
  pub name : Text
  pub count : ℕ
  pub drop_off_count : ℕ

unfoldable pub drop_off : ℕ → List ℕ → ℕ
drop_off count [] = 0
drop_off count (next ∷ counts) = count - next

unfoldable pub step_results : List Text → List ℕ → List FunnelStepResult
unfolding drop_off
step_results [] counts = []
step_results (s ∷ steps) [] = []
step_results (s ∷ steps) (c ∷ counts) =
    record { name = s; count = c; drop_off_count = drop_off c counts } ∷ step_results steps counts

unfoldable pub calculate_funnel_results : ℤ → List Text → List SessionEvents → List FunnelStepResult
unfolding step_results step_counts zeros
calculate_funnel_results window steps sessions =
    step_results steps (step_counts window steps sessions (zeros steps))

-- The loop ends when `limit` sessions are found.
unfoldable pub collect : ℕ → ℕ → ℤ → List Text → List SessionEvents → List Text
collect limit index window steps [] = []
collect limit index window steps (s ∷ sessions) =
    if ltb 0 limit && (reached_by window steps s == index + 1)
    then s.session_id ∷ collect (limit - 1) index window steps sessions
    else collect limit index window steps sessions

unfoldable pub limit_or_20 : ℤ → ℕ
limit_or_20 (pos n) = if n == 0 then 20 else n
limit_or_20 (negsuc n) = 20

-- No drop-offs at the last step or past it.
unfoldable pub get_funnel_dropoffs : ℕ → ℤ → ℤ → List Text → List SessionEvents → List Text
unfolding collect limit_or_20
get_funnel_dropoffs index limit window steps sessions =
    if ltb (index + 1) (length steps)
    then collect (limit_or_20 limit) index window steps sessions
    else []
