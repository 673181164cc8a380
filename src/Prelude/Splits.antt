-- ===== src/Prelude/Splits.antt =====
-- strings.Split at a character, on a text whose first part is known.
use Prim.Native.Nat.{ℕ}
use mathlib.Core.Path.{◌≡◌, refl}
use mathlib.Core.Bool.{false}
use mathlib.Core.List.{[], ◌∷◌, ◌++◌}
use sightpane.Prelude.Tests.{◌==◌, ==_iff}
use sightpane.Prelude.Text.{Text, split, add_char}
use sightpane.Prelude.Lists.{All}

-- The text does not hold the character.
abbrev pub Lacks : ℕ → Text → Type 0
Lacks sep = All (λ c. (c == sep) ≡ false)

pub split-append : (sep : ℕ) (a b : Text) → Lacks sep a → split sep (a ++ sep ∷ b) ≡ a ∷ split sep b
unfolding split add_char
split-append sep [] b h = rw ((==_iff sep sep).1 refl) refl
split-append sep (c ∷ a) b (h, hs) = rw (h, split-append sep a b hs) refl

pub split_last : (sep : ℕ) (a : Text) → Lacks sep a → split sep a ≡ a ∷ []
unfolding split add_char
split_last sep [] h = refl
split_last sep (c ∷ a) (h, hs) = rw (h, split_last sep a hs) refl
