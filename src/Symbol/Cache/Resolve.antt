-- ===== src/Symbol/Cache/Resolve.antt =====
-- Resolve (internal/symbol/symbol.go), and the same without a cache.
pub mod Direct
pub mod Refines
use mathlib.Core.Path.{subst}
use sightpane.Prelude.{
  ℕ, zero, suc, ◌≡◌, ◌⊎◌, refl, sym, ap, ◌∙◌, Bool, true, false, ◌||◌, Option, none, some, List, [],
  ◌∷◌, map, inl, inr, arith, Bool-cases, if◌then◌else◌,
}
use sightpane.Prelude.Int.{ℤ}
use sightpane.Prelude.Text.{Text, is_empty}
use sightpane.Symbol.{Frame, Resolved, cache_key, map_name_for, clean_source, minified_label}
use sightpane.Symbol.Keys.{IsPlain, cache_key_inj}
use sightpane.Symbol.Cache.{
  MapLib, Entry, Cache, Loader, Loaded, bytes, no_map, unavailable, Position, new_cache, item_of,
  look_up, found, settle, store_entry, store_loaded, entry_of, entry_of_bytes, fetch, after_look_up,
  consumer, forget,
}
use sightpane.Symbol.Cache.Answers.{
  IsTruthful, IsLoaded, store_entry-IsTruthful, look_up-IsTruthful, forget-IsTruthful, forget_fresh,
  new_fresh,
}

-- A frame before the map is applied.
unfoldable pub unresolved : Frame → Resolved
unresolved f = record {
  file = f.uri;
  line = f.line;
  column = f.column;
  function = f.member;
  minified = minified_label f;
  resolved = false;
}

applied : Option Position → Resolved → Resolved
applied none r = r
applied (some (src, name, line, column)) r = record r {
  file = clean_source src;
  line = line;
  column = column;
  function = if is_empty name then r.function else name;
  resolved = true;
}

any_resolved : List Resolved → Bool
any_resolved [] = false
any_resolved (r ∷ rs) = r.resolved || any_resolved rs

-- nil where nothing was resolved.
pub or_nil : List Resolved → Option (List Resolved)
unfolding any_resolved
or_nil out = if any_resolved out then some out else none

module _ (lib : MapLib) where
  position_of : Option lib.Consumer → Frame → Option Position
  position_of none f = none
  position_of (some cons) f = lib.source cons f.line f.column

  unfoldable pub resolve_frame : Option lib.Consumer → Frame → Resolved
  unfolding position_of applied unresolved
  resolve_frame cons f = applied (position_of cons f) (unresolved f)

  module _ (load : Loader) (project : ℕ) (release : Text) where
    pub resolve_frames : List Frame → Cache lib → List Resolved × Cache lib
    unfolding resolve_frame
    resolve_frames [] c = ([], c)
    resolve_frames (f ∷ fs) c =
        let (cons, c') = consumer lib load project release (map_name_for f.uri) c in
        let (out, c'') = resolve_frames fs c' in (resolve_frame cons f ∷ out, c'')

    unfoldable pub resolve : List Frame → Cache lib → Option (List Resolved) × Cache lib
    unfolding resolve_frames or_nil
    resolve frames c =
        if is_empty release
        then (none, c)
        else (or_nil (resolve_frames frames c).0, (resolve_frames frames c).1)

    -- What the answers are without a cache: load the map of a frame and parse it.
    pub parsed : Text → Loaded → Option lib.Consumer
    parsed filename (bytes raw) = lib.parse filename raw
    parsed filename no_map = none
    parsed filename unavailable = none

    unfoldable pub direct : Text → Option lib.Consumer
    unfolding parsed
    direct filename =
        if is_empty filename then none else parsed filename (load project release filename)

    unfoldable pub resolve_direct : List Frame → Option (List Resolved)
    unfolding or_nil
    resolve_direct frames =
        if is_empty release
        then none
        else or_nil (map (λ f. resolve_frame (direct (map_name_for f.uri)) f) frames)
