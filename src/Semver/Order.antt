-- ===== src/Semver/Order.antt =====
-- `CompareVersions` as an order on releases.
use sightpane.Prelude.{◌≡◌, refl, List, [], ◌∷◌, Ordering, arith, some, none, Option}
use sightpane.Prelude.Int.{ℤ}
use sightpane.Prelude.Text.{
  Text, text_eq_comm, text_eq_refl, text_ltb_asymm, is_empty, trim_space, split, before, after,
}
use sightpane.Semver.{
  compare_ints, compare_texts, Part, read_part, missing, by_number, compare_part, or_next,
  compare_parts, compare_pre, clean, compare_clean, compare_trimmed, compare_versions,
}

-- The comparison seen from the other side.
abbrev pub flip : Ordering → Ordering
flip Ordering.lt = Ordering.gt
flip Ordering.eq = Ordering.eq
flip Ordering.gt = Ordering.lt

flip-compare_ints : (a b : ℤ) → compare_ints b a ≡ flip (compare_ints a b)
unfolding compare_ints
flip-compare_ints a b = ground arith

flip-compare_texts : (a b : Text) → compare_texts b a ≡ flip (compare_texts a b)
unfolding compare_texts
flip-compare_texts a b = ground (arith, text_ltb_asymm a b, text_ltb_asymm b a)

flip-by_number : (m n : Option ℤ) (p q : Text) → by_number n m q p ≡ flip (by_number m n p q)
unfolding by_number
flip-by_number (some m) (some n) p q = flip-compare_ints m n
flip-by_number (some m) none p q = flip-compare_texts p q
flip-by_number none (some n) p q = flip-compare_texts p q
flip-by_number none none p q = flip-compare_texts p q

flip-compare_part : (a b : Part) → compare_part b a ≡ flip (compare_part a b)
unfolding compare_part
flip-compare_part a b = flip-by_number a.number b.number a.part b.part

flip-or_next :
    (x y x' y' : Ordering) → x' ≡ flip x → y' ≡ flip y → or_next x' y' ≡ flip (or_next x y)
unfolding or_next
flip-or_next x y x' y' hx hy = ground arith

flip-round :
    (a b : Part) (x y : Ordering)
    → y ≡ flip x
    → or_next (compare_part b a) y ≡ flip (or_next (compare_part a b) x)
flip-round a b x y h = flip-or_next _ x _ y (flip-compare_part a b) h

flip-compare_parts : (ps qs : List Text) → compare_parts qs ps ≡ flip (compare_parts ps qs)
unfolding compare_parts
flip-compare_parts [] [] = refl
flip-compare_parts [] (q ∷ qs) = flip-round missing (read_part q) _ _ (flip-compare_parts [] qs)
flip-compare_parts (p ∷ ps) [] = flip-round (read_part p) missing _ _ (flip-compare_parts ps [])
flip-compare_parts (p ∷ ps) (q ∷ qs) =
    flip-round (read_part p) (read_part q) _ _ (flip-compare_parts ps qs)

flip-compare_pre : (a b : Text) → compare_pre b a ≡ flip (compare_pre a b)
unfolding compare_pre
flip-compare_pre [] [] = refl
flip-compare_pre [] (d ∷ b) = refl
flip-compare_pre (c ∷ a) [] = refl
flip-compare_pre (c ∷ a) (d ∷ b) = flip-compare_texts (c ∷ a) (d ∷ b)

pub flip-compare_clean : (a b : Text) → compare_clean b a ≡ flip (compare_clean a b)
unfolding compare_clean
flip-compare_clean a b =
    flip-or_next _ _ _ _
      (flip-compare_parts (split b'.' (before b'-' a)) (split b'.' (before b'-' b)))
      (flip-compare_pre (after b'-' a) (after b'-' b))

flip-compare_trimmed : (a b : Text) → compare_trimmed b a ≡ flip (compare_trimmed a b)
unfolding compare_trimmed is_empty
flip-compare_trimmed [] [] = ground (arith, text_eq_refl [])
flip-compare_trimmed [] (d ∷ b) = ground (arith, text_eq_comm [] (d ∷ b))
flip-compare_trimmed (c ∷ a) [] = ground (arith, text_eq_comm (c ∷ a) [])
flip-compare_trimmed (c ∷ a) (d ∷ b) =
    ground (arith, text_eq_comm (c ∷ a) (d ∷ b), flip-compare_clean (clean (c ∷ a)) (clean (d ∷ b)))

-- Comparing two releases the other way round gives the opposite answer.
pub flip-compare_versions : (v1 v2 : Text) → compare_versions v2 v1 ≡ flip (compare_versions v1 v2)
unfolding compare_versions
flip-compare_versions v1 v2 = flip-compare_trimmed (trim_space v1) (trim_space v2)
