-- ===== src/Semver/Numeric.antt =====
-- `CompareVersions` on plain releases: dotted numbers with no pre-release. (With a part that is no
-- number the comparison falls back to texts and is no order: see `mixed_cycle`.)
use sightpane.Prelude.{
  ◌≡◌, ◌≢◌, refl, sym, List, [], ◌∷◌, Ordering, arith, some, All, Bool-cases, inl, inr, false,
}
use sightpane.Prelude.Int.{ℤ, pos}
use sightpane.Prelude.Text.{
  Text, text_eq, text_eq_sound, is_empty, trim_space, split, before, after,
}
use sightpane.Semver.{
  compare_ints, Part, read_part, missing, by_number, compare_part, or_next, compare_parts,
  compare_pre, clean, compare_clean, compare_trimmed, compare_versions,
}
use sightpane.Semver.Order.{flip-compare_clean}

-- What the answers on (a, b) and (b, c) say of the answer on (a, c).
abbrev pub Chains : Ordering → Ordering → Ordering → Type 0
Chains x y z =
    (x ≡ Ordering.lt → y ≢ Ordering.gt → z ≡ Ordering.lt)
    × (x ≢ Ordering.gt → y ≡ Ordering.lt → z ≡ Ordering.lt)
    × (x ≡ Ordering.eq → y ≡ Ordering.eq → z ≡ Ordering.eq)

Chains-compare_ints : (a b c : ℤ) → Chains (compare_ints a b) (compare_ints b c) (compare_ints a c)
unfolding compare_ints
Chains-compare_ints a b c = (λ h k. ground arith, λ h k. ground arith, λ h k. ground arith)

abbrev IsNumber : Part → Type 0
IsNumber p = (n : ℤ) × (p.number ≡ some n)

Chains-compare_part :
    (a b c : Part)
    → IsNumber a
    → IsNumber b
    → IsNumber c
    → Chains (compare_part a b) (compare_part b c) (compare_part a c)
unfolding compare_part by_number
Chains-compare_part a b c (l, p) (m, q) (n, r) = rw (p, q, r) (Chains-compare_ints l m n)

Chains-or_next :
    (x y z x' y' z' : Ordering)
    → Chains x y z
    → Chains x' y' z'
    → Chains (or_next x x') (or_next y y') (or_next z z')
unfolding or_next
Chains-or_next x y z x' y' z' (h, i, j) (h', i', j') =
    (λ p q. ground arith, λ p q. ground arith, λ p q. ground arith)

-- Every part is read by `ParseInt`.
abbrev IsNumeric : List Text → Type 0
IsNumeric = All (λ p. IsNumber (read_part p))

missing-IsNumber : IsNumber missing
missing-IsNumber = (pos 0, refl)

Chains-eq : (y : Ordering) → Chains Ordering.eq y y
Chains-eq y = (λ h k. ground arith, λ h k. k, λ h k. k)

Chains-eq_right : (x : Ordering) → Chains x Ordering.eq x
Chains-eq_right x = (λ h k. h, λ h k. ground arith, λ h k. h)

Chains-round :
    (a b c : Part) {x' y' z' : Ordering}
    → IsNumber a
    → IsNumber b
    → IsNumber c
    → Chains x' y' z'
    → Chains
        (or_next (compare_part a b) x')
        (or_next (compare_part b c) y')
        (or_next (compare_part a c) z')
Chains-round a b c ha hb hc h = Chains-or_next _ _ _ _ _ _ (Chains-compare_part a b c ha hb hc) h

Chains-compare_parts :
    (ps qs rs : List Text)
    → IsNumeric ps
    → IsNumeric qs
    → IsNumeric rs
    → Chains (compare_parts ps qs) (compare_parts qs rs) (compare_parts ps rs)
unfolding compare_parts compare_part by_number compare_ints or_next
Chains-compare_parts [] [] rs hp hq hr = Chains-eq (compare_parts [] rs)
Chains-compare_parts (p ∷ ps) [] [] hp hq hr = Chains-eq_right (compare_parts (p ∷ ps) [])
Chains-compare_parts [] (q ∷ qs) [] hp (h, hq) hr =
    Chains-round missing (read_part q) missing missing-IsNumber h missing-IsNumber
      (Chains-compare_parts [] qs [] hp hq hr)
Chains-compare_parts [] (q ∷ qs) (r ∷ rs) hp (h, hq) (k, hr) =
    Chains-round missing (read_part q) (read_part r) missing-IsNumber h k
      (Chains-compare_parts [] qs rs hp hq hr)
Chains-compare_parts (p ∷ ps) [] (r ∷ rs) (g, hp) hq (k, hr) =
    Chains-round (read_part p) missing (read_part r) g missing-IsNumber k
      (Chains-compare_parts ps [] rs hp hq hr)
Chains-compare_parts (p ∷ ps) (q ∷ qs) [] (g, hp) (h, hq) hr =
    Chains-round (read_part p) (read_part q) missing g h missing-IsNumber
      (Chains-compare_parts ps qs [] hp hq hr)
Chains-compare_parts (p ∷ ps) (q ∷ qs) (r ∷ rs) (g, hp) (h, hq) (k, hr) =
    Chains-round (read_part p) (read_part q) (read_part r) g h k
      (Chains-compare_parts ps qs rs hp hq hr)

-- A release that is dotted numbers, with no pre-release.
pub record IsPlain (v : Text) : Type 0 where
  pub nonempty : is_empty (trim_space v) ≡ false
  pub numeric : IsNumeric (split b'.' (before b'-' (clean (trim_space v))))
  pub final : after b'-' (clean (trim_space v)) ≡ []

-- `c` compared with itself; the shortcut for equal texts changes no answer.
compare_clean_self : (c : Text) → compare_clean c c ≡ Ordering.eq
compare_clean_self c = ground (arith, flip-compare_clean c c)

compare_trimmed-clean :
    (a b : Text)
    → is_empty a ≡ false
    → is_empty b ≡ false
    → compare_trimmed a b ≡ compare_clean (clean a) (clean b)
unfolding compare_trimmed
compare_trimmed-clean a b ha hb = elim (Bool-cases (text_eq a b)) [
  | inl same ↦ rw (same, text_eq_sound a b same) (sym (compare_clean_self (clean b)))
  | inr other ↦ rw (other, ha, hb)
]

or_next-eq : (x : Ordering) → or_next x Ordering.eq ≡ x
unfolding or_next
or_next-eq x = ground arith

abbrev parts_of : Text → List Text
parts_of v = split b'.' (before b'-' (clean (trim_space v)))

compare_versions-parts :
    (v w : Text)
    → IsPlain v
    → IsPlain w
    → compare_versions v w ≡ compare_parts (parts_of v) (parts_of w)
compare_versions-parts v w hv hw =
    unfold compare_versions in
    rw (compare_trimmed-clean _ _ hv.nonempty hw.nonempty)
      (unfold compare_clean compare_pre in rw (hv.final, hw.final) (or_next-eq _))

-- Plain releases are ordered: if v1 is before v2, and v2 before or equal to v3, or the other way
-- round, then v1 is before v3, and releases equal to the same one are equal.
pub compare_versions_trans :
    (v1 v2 v3 : Text)
    → IsPlain v1
    → IsPlain v2
    → IsPlain v3
    → Chains (compare_versions v1 v2) (compare_versions v2 v3) (compare_versions v1 v3)
compare_versions_trans v1 v2 v3 h1 h2 h3 =
    rw
      (
        compare_versions-parts v1 v2 h1 h2,
        compare_versions-parts v2 v3 h2 h3,
        compare_versions-parts v1 v3 h1 h3,
      )
      (Chains-compare_parts (parts_of v1) (parts_of v2) (parts_of v3) h1.numeric h2.numeric
        h3.numeric)
