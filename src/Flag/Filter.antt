-- ===== src/Flag/Filter.antt =====
-- matchesFilter and toFloat (internal/store/feature_flags.go).
use sightpane.Prelude.{
  Bool, false, ◌||◌, not, Option, none, some, List, [], ◌∷◌, map, if◌then◌else◌,
}
use sightpane.Prelude.Text.{Text, codes, text_eq, contains}
use sightpane.Flag.{Value, null, text, number, array, FlagLib, FlagFilter}

-- The cases of `switch strings.ToLower(f.Operator)`.
pub data Operator : Type 0 where
  exact not_exact has has_not regex order member unknown : Operator

is_one_of : List Text → Text → Bool
is_one_of [] s = false
is_one_of (t ∷ ts) s = text_eq s t || is_one_of ts s

unfoldable pub read_operator : Text → Operator
unfolding is_one_of
read_operator s =
    if is_one_of (codes "exact" ∷ codes "eq" ∷ codes "==" ∷ []) s
    then exact
    else if is_one_of (codes "not_exact" ∷ codes "neq" ∷ codes "!=" ∷ []) s
    then not_exact
    else if text_eq s (codes "contains")
    then has
    else if text_eq s (codes "not_contains")
    then has_not
    else if text_eq s (codes "regex")
    then regex
    else if is_one_of (codes "gt" ∷ codes "gte" ∷ codes "lt" ∷ codes "lte" ∷ []) s
    then order
    else if text_eq s (codes "in")
    then member
    else unknown

module _ (lib : FlagLib) where
  sprint : Value lib.F lib.Any → Text
  sprint (text t) = t
  sprint v = lib.show v

  to_float : Value lib.F lib.Any → Option lib.F
  unfolding sprint
  to_float (number x) = some x
  to_float (text t) = lib.parse_float t
  to_float v = lib.parse_float (sprint v)

  -- The inner `switch f.Operator`, which reads the operator as it was written.
  compare_floats : Text → lib.F → lib.F → Bool
  compare_floats op x y =
      if text_eq op (codes "gt")
      then lib.less y x
      else if text_eq op (codes "gte")
      then lib.less_eq y x
      else if text_eq op (codes "lt")
      then lib.less x y
      else if text_eq op (codes "lte")
      then lib.less_eq x y
      else false

  ordered : Text → Option lib.F → Option lib.F → Bool
  unfolding compare_floats
  ordered op (some x) (some y) = compare_floats op x y
  ordered op _ _ = false

  matches_regex : Option (Text → Bool) → Text → Bool
  matches_regex none s = false
  matches_regex (some re) s = re s

  shown_in : Text → List lib.Any → Bool
  shown_in s [] = false
  shown_in s (a ∷ items) = text_eq (lib.show_any a) s || shown_in s items

  is_member : Text → Value lib.F lib.Any → Bool
  unfolding shown_in
  is_member s (array items) = shown_in s items
  is_member s _ = false

  apply_operator : Operator → FlagFilter lib → Value lib.F lib.Any → Bool
  unfolding sprint to_float ordered matches_regex is_member
  apply_operator exact f val = text_eq (sprint val) (sprint f.value)
  apply_operator not_exact f val = not (text_eq (sprint val) (sprint f.value))
  apply_operator has f val = contains (sprint val) (sprint f.value)
  apply_operator has_not f val = not (contains (sprint val) (sprint f.value))
  apply_operator regex f val = matches_regex (lib.compile (sprint f.value)) (sprint val)
  apply_operator order f val = ordered f.operator (to_float val) (to_float f.value)
  apply_operator member f val = is_member (sprint val) f.value
  apply_operator unknown f val = false

  -- A key that the properties lack has the value nil.
  property_value : FlagFilter lib → Text → (Text → Value lib.F lib.Any) → Value lib.F lib.Any
  property_value f distinct_id properties =
      if text_eq f.property (codes "distinct_id") || text_eq f.property (codes "id")
      then text distinct_id
      else properties f.property

  match_value : FlagFilter lib → Value lib.F lib.Any → Bool
  unfolding apply_operator
  match_value f null = false
  match_value f val = apply_operator (read_operator (map lib.lower f.operator)) f val

  unfoldable pub matches_filter : FlagFilter lib → Text → (Text → Value lib.F lib.Any) → Bool
  unfolding property_value match_value
  matches_filter f distinct_id properties = match_value f (property_value f distinct_id properties)
