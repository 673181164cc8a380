-- ===== src/Symbol/Keys.antt =====
-- The keys of the cache tell projects, releases and files apart.
use sightpane.Prelude.{
  ℕ, ◌==◌, ◌≡◌, ◌↔◌, refl, ap, sym, ◌∙◌, true, false, [], ◌∷◌, ◌++◌, arith, All, All-mono,
}
use mathlib.Core.List.{append_assoc}
use sightpane.Prelude.Text.{Text, has_prefix, before, after}
use sightpane.Prelude.Decimal.{itoa, itoa_inj, itoa-IsDigit}
use sightpane.Symbol.{cache_key}

-- A text without the separator.
abbrev pub IsPlain : Text → Type 0
IsPlain = All (λ c. (c == 0) ≡ false)

before-append : (a b : Text) → IsPlain a → before 0 (a ++ 0 ∷ b) ≡ a
unfolding before
before-append [] b h = refl
before-append (c ∷ a) b (h, hs) = rw (h, before-append a b hs)

after-append : (a b : Text) → IsPlain a → after 0 (a ++ 0 ∷ b) ≡ b
unfolding after
after-append [] b h = refl
after-append (c ∷ a) b (h, hs) = rw h (after-append a b hs)

itoa-IsPlain : (n : ℕ) → IsPlain (itoa n)
itoa-IsPlain n = All-mono _ _ (itoa n) (λ c h. ground arith) (itoa-IsDigit n)

-- Two texts up to their first separators.
split_plain :
    (a a' b b' : Text) → IsPlain a → IsPlain a' → a ++ 0 ∷ b ≡ a' ++ 0 ∷ b' → (a ≡ a') × (b ≡ b')
split_plain a a' b b' h h' e = (
  sym (before-append a b h) ∙ ap (before 0) e ∙ before-append a' b' h',
  sym (after-append a b h) ∙ ap (after 0) e ∙ after-append a' b' h',
)

-- For releases without a NUL.
pub cache_key_inj :
    (p p' : ℕ) (r r' f f' : Text)
    → IsPlain r
    → IsPlain r'
    → cache_key p r f ≡ cache_key p' r' f'
    → (p ≡ p') × (r ≡ r') × (f ≡ f')
unfolding cache_key
cache_key_inj p p' r r' f f' h h' e =
    let (project, rest) =
      split_plain (itoa p) (itoa p') (r ++ 0 ∷ f) (r' ++ 0 ∷ f') (itoa-IsPlain p) (itoa-IsPlain p')
        e in
    let (release, file) = split_plain r r' f f' h h' rest in (itoa_inj p p' project, release, file)

has_prefix-append : (q s : Text) → has_prefix (q ++ s) q ≡ true
unfolding has_prefix
has_prefix-append [] [] = refl
has_prefix-append [] (c ∷ s) = refl
has_prefix-append (c ∷ q) s = ground (arith, has_prefix-append q s)

has_prefix_split : (s q : Text) → has_prefix s q ≡ true → (rest : Text) × (s ≡ q ++ rest)
unfolding has_prefix
has_prefix_split s [] h = (s, refl)
has_prefix_split [] (c ∷ q) h = absurd (ground arith)
has_prefix_split (d ∷ s) (c ∷ q) h =
    let (rest, e) = has_prefix_split s q (ground arith) in
    let same : d ≡ c = ground arith in (rest, ground (arith, e))

cache_key-append : (p : ℕ) (r s : Text) → cache_key p r [] ++ s ≡ cache_key p r s
unfolding cache_key
cache_key-append p r s = simp append_assoc

-- A key is under the prefix of a release exactly if it is a key of that release.
pub cache_key_prefix :
    (p p' : ℕ) (r r' f : Text)
    → IsPlain r
    → IsPlain r'
    → (has_prefix (cache_key p' r' f) (cache_key p r []) ≡ true) ↔ ((p' ≡ p) × (r' ≡ r))
cache_key_prefix p p' r r' f h h' = (
  λ e.
      let (rest, split) = has_prefix_split (cache_key p' r' f) (cache_key p r []) e in
      let (project, release, _) =
        cache_key_inj p' p r' r f rest h' h (split ∙ cache_key-append p r rest) in
      (project, release),
  λ e. rw (e.0, e.1, ← cache_key-append p r f) (has_prefix-append (cache_key p r []) f),
)
