-- ===== src/Prelude/Keys.antt =====
-- Rows with distinct keys, where the keys are texts.
use mathlib.Core.Path.{◌≡◌}
use mathlib.Core.Bool.{false}
use mathlib.Core.List.{List, [], ◌∷◌}
use sightpane.Prelude.Text.{Text, text_eq}
use sightpane.Prelude.Lists.{All}

-- No two rows have the same key.
abbrev pub HasKeys : {A : Type 0} → (A → Text) → List A → Type 0
HasKeys key [] = Unit
HasKeys key (x ∷ xs) = All (λ y. text_eq (key y) (key x) ≡ false) xs × HasKeys key xs
