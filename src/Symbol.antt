-- ===== src/Symbol.antt =====
-- Symbolication (internal/symbol/symbol.go): the frames of a minified stack, the names they are
-- looked up by, and in the children the cache of source maps and Resolve.
pub mod Cache
pub mod Keys
mod Examples
use mathlib.Core.List.{reverse}
use sightpane.Prelude.{
  ℕ, ◌+◌, ◌==◌, Bool, true, false, ◌||◌, not, Option, none, some, List, [], ◌∷◌, ◌++◌, ltb,
  if◌then◌else◌,
}
use sightpane.Prelude.Int.{ℤ, pos, negsuc, pos_part}
use sightpane.Prelude.Text.{Text, codes, text_eq, is_empty, has_prefix}
use sightpane.Prelude.Decimal.{itoa}
use sightpane.Prelude.Slashes.{base, path_clean}

pub record Frame : Type 0 where
  pub uri : Text
  pub line : ℤ
  pub column : ℤ
  pub member : Text

pub record Resolved : Type 0 where
  pub file : Text
  pub line : ℤ
  pub column : ℤ
  pub function : Text
  pub minified : Text
  pub resolved : Bool

-- The ids of projects are not negative.
unfoldable pub cache_key : ℕ → Text → Text → Text
unfolding itoa
cache_key project release filename = itoa project ++ 0 ∷ (release ++ 0 ∷ filename)

-- uri[:strings.IndexAny(uri, "?#")]
cut_query : Text → Text
cut_query [] = []
cut_query (c ∷ s) = if c == b'?' || c == b'#' then [] else c ∷ cut_query s

has_suffix : Text → Text → Bool
has_suffix s suffix = has_prefix (reverse s) (reverse suffix)

map_of_base : Text → Text
unfolding has_suffix has_prefix
map_of_base b =
    if is_empty b
      || text_eq b (codes ".")
      || text_eq b (codes "/")
      || not (has_suffix b (codes ".js"))
    then []
    else b ++ codes ".map"

-- "" where there is no map.
unfoldable pub map_name_for : Text → Text
unfolding cut_query map_of_base base is_empty text_eq
map_name_for uri = if is_empty uri then [] else map_of_base (base (cut_query uri))

drop_prefix : Text → Text → Text
drop_prefix s [] = s
drop_prefix [] (c ∷ p) = []
drop_prefix (d ∷ s) (c ∷ p) = drop_prefix s p

-- for strings.HasPrefix(src, "../") { src = src[3:] }
strip_parents : Text → Text
strip_parents (x ∷ y ∷ z ∷ s) =
    if x == b'.'
    then if y == b'.' then if z == b'/' then strip_parents s else x ∷ y ∷ z ∷ s else x ∷ y ∷ z ∷ s
    else x ∷ y ∷ z ∷ s
strip_parents s = s

trim_prefix : Text → Text → Text
unfolding drop_prefix
trim_prefix s p = if has_prefix s p then drop_prefix s p else s

unfoldable pub clean_source : Text → Text
unfolding trim_prefix strip_parents path_clean drop_prefix has_prefix
clean_source src =
    if has_prefix src (codes "org-dartlang-app:///")
    then drop_prefix src (codes "org-dartlang-app:///")
    else if has_prefix src (codes "org-dartlang-sdk:///")
    then drop_prefix src (codes "org-dartlang-sdk:///")
    else path_clean (trim_prefix (strip_parents src) (codes "./"))

with_position : Text → ℤ → ℤ → Text
with_position loc line column =
    if ltb 0 (pos_part line)
    then if ltb 0 (pos_part column)
      then loc ++ b':' ∷ itoa (pos_part line) ++ b':' ∷ itoa (pos_part column)
      else loc ++ b':' ∷ itoa (pos_part line)
    else loc

unfoldable pub minified_label : Frame → Text
unfolding with_position
minified_label f =
    let loc = with_position f.uri f.line f.column in
    if is_empty f.member then loc else f.member ++ codes " (" ++ loc ++ codes ")"
