-- ===== src/Uptime/Told.antt =====
-- What the notifier was told last about a monitor is the monitor's status, but for the monitors whose
-- status a check outside the runner changed.
pub mod Check
pub mod Run
pub mod Asked
pub mod Reached
pub mod Due
use sightpane.Prelude.{
  ℕ, ◌+◌, ◌<◌, ◌≡◌, ◌==◌, ◌||◌, refl, Bool, true, false, List, [], ◌∷◌, ◌++◌, All, HasUnique, arith,
  if◌then◌else◌,
}
use sightpane.Uptime.{PercentLib, UptimeStatus, up, Notice, UptimeMonitor, UptimeDb}

-- The status of the last notice about a monitor, or the one given.
unfoldable pub told_from : UptimeStatus → ℕ → List Notice → UptimeStatus
told_from s id [] = s
told_from s id (n ∷ ns) = told_from (if n.monitor_id == id then n.status else s) id ns

-- A monitor of which nothing was told is up.
abbrev pub told : ℕ → List Notice → UptimeStatus
told = told_from up

pub told_from-snoc :
    (s : UptimeStatus) (id : ℕ) (ns : List Notice) (n : Notice)
    → told_from s id (ns ++ n ∷ []) ≡ (if n.monitor_id == id then n.status else told_from s id ns)
unfolding told_from
told_from-snoc s id [] n = refl
told_from-snoc s id (k ∷ ns) n = told_from-snoc (if k.monitor_id == id then k.status else s) id ns n

pub told_from_none :
    (s : UptimeStatus) (id : ℕ) (ns : List Notice)
    → All (λ n. n.monitor_id < id) ns
    → told_from s id ns ≡ s
unfolding told_from
told_from_none s id [] h = refl
told_from_none s id (n ∷ ns) (h, hs) =
    let other : (n.monitor_id == id) ≡ false = ground arith in rw other (told_from_none s id ns hs)

unfoldable pub stands_in : ℕ → List ℕ → Bool
stands_in id [] = false
stands_in id (j ∷ js) = j == id || stands_in id js

module _ (lib : PercentLib) where
  -- A monitor that is not among the ids has the status that was told.
  abbrev pub AgreesWith : List ℕ → List Notice → UptimeMonitor lib → Type 0
  AgreesWith untold ns m = stands_in m.id untold ≡ false → told m.id ns ≡ m.status

  pub record IsTold (untold : List ℕ) (db : UptimeDb lib) : Type 0 where
    pub statuses : All (AgreesWith untold db.notices) db.monitors
    pub ids : HasUnique (λ m. m.id) db.monitors
    pub below : All (λ m. m.id < db.next_id) db.monitors
    pub noticed : All (λ n. n.monitor_id < db.next_id) db.notices
