-- ===== src/Funnel/Counts.antt =====
-- The counts of a funnel and its drop-offs.
use sightpane.Prelude.{
  ℕ, zero, suc, ◌+◌, ◌-◌, ◌<◌, ◌≡◌, ◌==◌, refl, ◌∙◌, ap, true, some, List, [], ◌∷◌, length,
  get_elem?, ltb, leb, arith, if◌then◌else◌,
}
use sightpane.Prelude.Int.{ℤ}
use sightpane.Prelude.Text.{Text}
use sightpane.Funnel.{
  SessionEvents, FunnelStepResult, reached_by, count_reached, zeros, step_counts, step_results,
  drop_off, calculate_funnel_results, collect, limit_or_20, get_funnel_dropoffs,
}

get_elem?-count_reached :
    (k : ℕ) (counts : List ℕ) (i c : ℕ)
    → get_elem? counts i ≡ some c
    → get_elem? (count_reached k counts) i ≡ some (if ltb i k then c + 1 else c)
unfolding count_reached
get_elem?-count_reached k [] i c h = cc
get_elem?-count_reached k (d ∷ counts) zero c h = ground arith
get_elem?-count_reached k (d ∷ counts) (suc i) c h =
    let same : ltb i (k - 1) ≡ ltb (suc i) k = ground arith in
    rw (← same) (get_elem?-count_reached (k - 1) counts i c h)

get_elem?-zeros :
    (steps : List Text) (i : ℕ) → i < length steps → get_elem? (zeros steps) i ≡ some 0
unfolding zeros
get_elem?-zeros [] i h = absurd (omega arith)
get_elem?-zeros (s ∷ steps) zero h = refl
get_elem?-zeros (s ∷ steps) (suc i) h = get_elem?-zeros steps i (omega arith)

-- A row of the results, with the row's count and the next one.
get_elem?-step_results :
    (steps : List Text) (counts : List ℕ) (i c d : ℕ)
    → i < length steps
    → get_elem? counts i ≡ some c
    → get_elem? counts (suc i) ≡ some d
    → (r : FunnelStepResult) × (get_elem? (step_results steps counts) i ≡ some r)
      × (r.count ≡ c)
      × (r.drop_off_count ≡ c - d)
unfolding step_results drop_off
get_elem?-step_results [] counts i c d h e k = absurd (omega arith)
get_elem?-step_results (s ∷ steps) [] i c d h e k = cc
get_elem?-step_results (s ∷ steps) (a ∷ []) zero c d h e k = cc
get_elem?-step_results (s ∷ steps) (a ∷ b ∷ counts) zero c d h e k =
    let e' : a ≡ c = ground arith in
    let k' : b ≡ d = ground arith in (_, refl, e', rw (e', k') refl)
get_elem?-step_results (s ∷ steps) (a ∷ counts) (suc i) c d h e k =
    get_elem?-step_results steps counts i c d (omega arith) e k

module _ (window : ℤ) (steps : List Text) where
  -- The sessions that reach more than `i` steps.
  pub sessions_past : ℕ → List SessionEvents → ℕ
  sessions_past i [] = 0
  sessions_past i (s ∷ sessions) =
      (if ltb i (reached_by window steps s) then 1 else 0) + sessions_past i sessions

  -- The sessions whose last step is step `i`.
  pub sessions_at : ℕ → List SessionEvents → ℕ
  sessions_at i [] = 0
  sessions_at i (s ∷ sessions) =
      (if reached_by window steps s == i + 1 then 1 else 0) + sessions_at i sessions

  past_at :
      (i : ℕ) (sessions : List SessionEvents)
      → sessions_past i sessions ≡ sessions_at i sessions + sessions_past (suc i) sessions
  unfolding sessions_past sessions_at
  past_at i [] = omega arith
  past_at i (s ∷ sessions) = let rest = past_at i sessions in ground arith

  get_elem?-step_counts :
      (sessions : List SessionEvents) (counts : List ℕ) (i c : ℕ)
      → get_elem? counts i ≡ some c
      → get_elem? (step_counts window steps sessions counts) i ≡ some (c + sessions_past i sessions)
  unfolding step_counts sessions_past
  get_elem?-step_counts [] counts i c h = h ∙ ap some (omega arith)
  get_elem?-step_counts (s ∷ sessions) counts i c h =
      get_elem?-step_counts sessions (count_reached (reached_by window steps s) counts) i _
        (get_elem?-count_reached (reached_by window steps s) counts i c h)
      ∙ ap some (ground arith)

  length-collect :
      (limit i : ℕ) (sessions : List SessionEvents)
      → length (collect limit i window steps sessions)
        ≡ (if leb (sessions_at i sessions) limit then sessions_at i sessions else limit)
  unfolding collect sessions_at
  length-collect limit i [] = ground arith
  length-collect limit i (s ∷ sessions) =
      let less = length-collect (limit - 1) i sessions in
      let same = length-collect limit i sessions in ground arith

  -- At every step but the last, the result of a funnel counts the sessions that reach the step, its
  -- drop-off is the number of sessions whose last step it is, and the list of drop-offs has as many
  -- sessions, or as many as its limit allows.
  pub drop_off-dropoffs :
      (i : ℕ) (limit : ℤ) (sessions : List SessionEvents)
      → i + 1 < length steps
      → (r : FunnelStepResult) × (get_elem? (calculate_funnel_results window steps sessions) i
          ≡ some r)
        × (r.count ≡ sessions_past i sessions)
        × (r.drop_off_count ≡ sessions_at i sessions)
        × (length (get_funnel_dropoffs i limit window steps sessions) ≡ (
            if leb r.drop_off_count (limit_or_20 limit)
            then r.drop_off_count
            else limit_or_20 limit))
  unfolding calculate_funnel_results get_funnel_dropoffs
  drop_off-dropoffs i limit sessions h =
      let counts = step_counts window steps sessions (zeros steps) in
      let here =
        get_elem?-step_counts sessions (zeros steps) i 0 (get_elem?-zeros steps i (omega arith)) in
      let next =
        get_elem?-step_counts sessions (zeros steps) (suc i) 0
          (get_elem?-zeros steps (suc i) (omega arith)) in
      let (r, at, count, drop) =
        get_elem?-step_results steps counts i (0 + sessions_past i sessions)
          (0 + sessions_past (suc i) sessions) (omega arith) here next in
      let dropped : r.drop_off_count ≡ sessions_at i sessions =
        omega (arith, drop, past_at i sessions) in
      let more : ltb (i + 1) (length steps) ≡ true = ground arith in
      (
        r,
        at,
        count ∙ omega arith,
        dropped,
        rw (more, dropped) (length-collect (limit_or_20 limit) i sessions),
      )
