-- ===== src/Semver.antt =====
-- internal/store/semver.go: CompareVersions, which orders the releases of a project.
-- A result -1, 0 or 1 is `lt`, `eq` or `gt`.
pub mod Order
pub mod Numeric
mod Examples
use sightpane.Prelude.{
  ℕ, ◌+◌, ◌-◌, ◌*◌, ◌^◌, Bool, true, false, ◌&&◌, ◌≡◌, refl, Option, none, some, List, [], ◌∷◌,
  Ordering, ltb, leb, ◌==◌, if◌then◌else◌,
}
use sightpane.Prelude.Int.{ℤ, pos, ltb_ℤ, sub_ℕ}
use sightpane.Prelude.Text.{
  Text, text_eq, text_ltb, is_empty, trim_space, trim_char, before, after, split,
}

-- The digits of `strconv.ParseInt(s, 10, 64)`; `none` is a syntax error.
digits : ℕ → Text → Option ℕ
digits n [] = some n
digits n (c ∷ s) =
    let rest = digits (n * 10 + (c - b'0')) s in if leb b'0' c && leb c b'9' then rest else none

digits1 : Text → Option ℕ
digits1 [] = none
digits1 (c ∷ s) = digits 0 (c ∷ s)

in_range : Bool → Option ℕ → Option ℤ
in_range negative none = none
in_range true (some n) = if leb n (2 ^ 63) then some (sub_ℕ 0 n) else none
in_range false (some n) = if ltb n (2 ^ 63) then some (pos n) else none

-- `strconv.ParseInt(s, 10, 64)`; `none` is an error, of syntax or of range.
unfoldable pub parse_int : Text → Option ℤ
unfolding digits digits1 in_range
parse_int [] = none
parse_int (c ∷ s) =
    if c == b'-'
    then in_range true (digits1 s)
    else if c == b'+'
    then in_range false (digits1 s)
    else in_range false (digits1 (c ∷ s))

-- The two early returns of a round.
compare_ints : ℤ → ℤ → Ordering
compare_ints n1 n2 =
    if ltb_ℤ n1 n2 then Ordering.lt else if ltb_ℤ n2 n1 then Ordering.gt else Ordering.eq

compare_texts : Text → Text → Ordering
compare_texts p1 p2 =
    if text_ltb p1 p2 then Ordering.lt else if text_ltb p2 p1 then Ordering.gt else Ordering.eq

-- A part: its text, and its number unless `ParseInt` failed.
pub record Part : Type 0 where
  pub part : Text
  pub number : Option ℤ

unfoldable pub read_part : Text → Part
unfolding parse_int
read_part p = record { part = p; number = parse_int p }

-- Past the end of the shorter version: `p` is "" and `n` is 0 with no error.
abbrev pub missing : Part
missing = record { part = []; number = some (pos 0) }

by_number : Option ℤ → Option ℤ → Text → Text → Ordering
by_number (some n1) (some n2) p1 p2 = compare_ints n1 n2
by_number _ _ p1 p2 = compare_texts p1 p2

compare_part : Part → Part → Ordering
compare_part a b = by_number a.number b.number a.part b.part

-- A round that returns ends the loop.
or_next : Ordering → Ordering → Ordering
or_next Ordering.lt next = Ordering.lt
or_next Ordering.eq next = next
or_next Ordering.gt next = Ordering.gt

compare_parts : List Text → List Text → Ordering
compare_parts [] [] = Ordering.eq
compare_parts [] (q ∷ qs) = or_next (compare_part missing (read_part q)) (compare_parts [] qs)
compare_parts (p ∷ ps) [] = or_next (compare_part (read_part p) missing) (compare_parts ps [])
compare_parts (p ∷ ps) (q ∷ qs) =
    or_next (compare_part (read_part p) (read_part q)) (compare_parts ps qs)

-- A version without a pre-release comes after one with a pre-release.
compare_pre : Text → Text → Ordering
compare_pre [] [] = Ordering.eq
compare_pre [] (d ∷ pre2) = Ordering.gt
compare_pre (c ∷ pre1) [] = Ordering.lt
compare_pre (c ∷ pre1) (d ∷ pre2) = compare_texts (c ∷ pre1) (d ∷ pre2)

-- The leading `v` or `V` and the build metadata taken off.
pub clean : Text → Text
clean v = before b'+' (trim_char b'V' (trim_char b'v' v))

pub compare_clean : Text → Text → Ordering
compare_clean c1 c2 =
    or_next (compare_parts (split b'.' (before b'-' c1)) (split b'.' (before b'-' c2)))
      (compare_pre (after b'-' c1) (after b'-' c2))

compare_trimmed : Text → Text → Ordering
compare_trimmed v1 v2 =
    if text_eq v1 v2
    then Ordering.eq
    else if is_empty v1
    then Ordering.lt
    else if is_empty v2
    then Ordering.gt
    else compare_clean (clean v1) (clean v2)

unfoldable pub compare_versions : Text → Text → Ordering
unfolding compare_ints compare_texts read_part by_number compare_part or_next compare_parts
    compare_pre clean compare_clean compare_trimmed text_eq text_ltb trim_space is_empty split
    before after trim_char
compare_versions v1 v2 = compare_trimmed (trim_space v1) (trim_space v2)
