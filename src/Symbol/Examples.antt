-- ===== src/Symbol/Examples.antt =====
-- Symbolication at concrete inputs.
use sightpane.Prelude.{
  ℕ, length, keep, ◌≡◌, ◌==◌, ◌&&◌, refl, Bool, true, false, Option, none, some, List, [], ◌∷◌,
  arith, All, if◌then◌else◌,
}
use sightpane.Prelude.Int.{pos}
use sightpane.Prelude.Text.{Text, codes, text_eq}
use sightpane.Prelude.Decimal.{itoa}
use sightpane.Symbol.{Frame, cache_key, map_name_for, clean_source, minified_label}
use sightpane.Symbol.Keys.{IsPlain}
use sightpane.Symbol.Cache.{
  MapLib, Cache, Loader, bytes, no_map, new_cache, Entry, store_entry, look_up, push_front, forget,
  item_of, evict_loop, consumer,
}
use sightpane.Symbol.Cache.Bounds.{
  HasBounds, IsWellFormed, evict_loop-HasBounds, new_cache-IsWellFormed,
}
use sightpane.Symbol.Cache.Steps.{Step, Reach, push_front_sound, Reach-HasBounds}
use sightpane.Symbol.Cache.Release.{forget_release}
use sightpane.Symbol.Cache.Resolve.{resolve, resolve_direct}
use sightpane.Symbol.Cache.Resolve.Refines.{Fresh, Sections, resolve-resolve_direct}

script_name : map_name_for (codes "http://host/assets/main.dart.js?v=3") ≡ codes "main.dart.js.map"
unfolding map_name_for sightpane.Prelude.Text.before
script_name = refl

not_a_script : map_name_for (codes "blob:http://host/1234") ≡ []
unfolding map_name_for sightpane.Prelude.Text.before
not_a_script = refl

app_source : clean_source (codes "org-dartlang-app:///lib/main.dart") ≡ codes "lib/main.dart"
unfolding clean_source
app_source = refl

relative_source : clean_source (codes "../../lib/./src//../main.dart") ≡ codes "lib/main.dart"
unfolding clean_source sightpane.Prelude.Text.split sightpane.Prelude.Text.is_empty text_eq
relative_source = refl

abbrev frame : Frame
frame = record {
  uri = codes "http://host/main.dart.js";
  line = pos 4321;
  column = pos 19;
  member = codes "aB";
}

label : minified_label frame ≡ codes "aB (http://host/main.dart.js:4321:19)"
unfolding minified_label sightpane.Prelude.Text.is_empty itoa
label = refl

-- A consumer that maps every position to the same place.
abbrev lib : MapLib
lib = record {
  Consumer = Text;
  parse = λ name raw. elim raw [ [] ↦ none | b ∷ rest ↦ some (b ∷ rest) ];
  source = λ c line column. some (codes "../lib/cashier.dart", [], pos 120, column);
}

abbrev load : Loader
load project release filename = if project == 7 then bytes (1 ∷ 2 ∷ 3 ∷ []) else no_map

abbrev release : Text
release = codes "1.4.0"

release-IsPlain : IsPlain release
release-IsPlain = (refl, (refl, (refl, (refl, (refl, tt)))))

abbrev warm : Cache lib
warm = (consumer lib load 7 release (codes "main.dart.js.map") (new_cache lib (pos 100))).1

resolved_once :
    (resolve lib load 7 release (frame ∷ []) warm).0
    ≡ some (
        record {
          file = codes "lib/cashier.dart";
          line = pos 120;
          column = pos 19;
          function = codes "aB";
          minified = codes "aB (http://host/main.dart.js:4321:19)";
          resolved = true;
        }
        ∷ [])
unfolding resolve consumer new_cache sightpane.Prelude.Text.is_empty map_name_for
    sightpane.Prelude.Text.before clean_source minified_label sightpane.Prelude.Text.split
resolved_once = refl

resolve-resolve_direct_example :
    (resolve lib load 7 release (frame ∷ []) (forget lib 7 release warm)).0
    ≡ resolve_direct lib load 7 release (frame ∷ [])
resolve-resolve_direct_example =
    resolve-resolve_direct lib 7 release load (frame ∷ []) release-IsPlain (Fresh.forgot warm)
      Sections.here

forget_release_example :
    item_of lib (cache_key 8 release (codes "a")) (forget lib 7 release warm).items ≡ (
      if 8 == 7 && text_eq release release
      then none
      else item_of lib (cache_key 8 release (codes "a")) warm.items)
forget_release_example =
    forget_release 7 8 release release (codes "a") warm release-IsPlain release-IsPlain

-- A map of 60 bytes, of which a cache of 100 bytes holds one.
abbrev entry : Text → Entry lib
entry name = record { key = cache_key 7 release name; consumer = some (codes "map"); size = 60 }

abbrev empty : Cache lib
empty = new_cache lib (pos 100)

abbrev one : Cache lib
one = (store_entry lib (entry (codes "a")) empty).1

abbrev two : Cache lib
two = (store_entry lib (entry (codes "b")) one).1

one_left : length two.order ≡ 1
unfolding store_entry new_cache item_of text_eq cache_key itoa push_front keep
one_left = refl

Reach-HasBounds_example : HasBounds (look_up lib (cache_key 7 release (codes "b")) two).1
Reach-HasBounds_example = Reach-HasBounds (pos 100) (
    Reach.next
      (Reach.next (Reach.next Reach.here (Step.stores (entry (codes "a")) empty))
        (Step.stores (entry (codes "b")) one))
      (Step.looks (cache_key 7 release (codes "b")) two))

abbrev crowded : Cache lib
crowded = push_front lib (entry (codes "b")) (push_front lib (entry (codes "a")) empty)

crowded-IsWellFormed : IsWellFormed crowded
unfolding item_of push_front new_cache text_eq cache_key itoa keep
crowded-IsWellFormed =
    push_front_sound (push_front lib (entry (codes "a")) empty) (entry (codes "b")) refl
      (push_front_sound empty (entry (codes "a")) refl (new_cache-IsWellFormed (pos 100)))

evict_loop-HasBounds_example : HasBounds (evict_loop lib 2 crowded)
evict_loop-HasBounds_example =
    evict_loop-HasBounds 2 crowded (unfold push_front new_cache in omega arith) crowded-IsWellFormed
