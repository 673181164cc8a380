-- ===== src/Prelude/Decimal.antt =====
-- Decimal digits of a natural number, as itoa (internal/symbol/symbol.go) and fmt write them.
use Prim.Native.Nat.{ℕ, zero, suc, ◌+◌, ◌-◌, ◌*◌, ◌/◌, ◌%◌, ◌≤◌}
use mathlib.Core.Path.{◌≡◌, ap, sym, ◌∙◌}
use mathlib.Core.Logic.{inl, inr}
use mathlib.Core.List.{[], ◌∷◌}
use native.Mathlib.Omega.{arith}
use sightpane.Prelude.Tests.{◌==◌, if◌then◌else◌, Bool-cases}
use sightpane.Prelude.Text.{Text}
use sightpane.Prelude.Lists.{All}

-- The loop that fills the buffer from its end. The first argument is fuel: n rounds are enough.
write_digits : ℕ → ℕ → Text → Text
write_digits zero n acc = acc
write_digits (suc fuel) n acc =
    let rest = write_digits fuel (n / 10) ((b'0' + n % 10) ∷ acc) in if n == 0 then acc else rest

unfoldable pub itoa : ℕ → Text
unfolding write_digits
itoa n = if n == 0 then b'0' ∷ [] else write_digits n n []

-- The number that a text of digits stands for.
value_from : ℕ → Text → ℕ
value_from acc [] = acc
value_from acc (c ∷ s) = value_from (acc * 10 + (c - b'0')) s

unfoldable pub value : Text → ℕ
unfolding value_from
value s = value_from 0 s

write_digits-value :
    (fuel n : ℕ) (acc : Text) → n ≤ fuel → value_from 0 (write_digits fuel n acc) ≡ value_from n acc
unfolding write_digits value_from
write_digits-value zero n acc h = ap (λ (k : ℕ). value_from k acc) (omega arith)
write_digits-value (suc fuel) n acc h = elim (Bool-cases (n == 0)) [
  | inl e ↦ rw e (ap (λ (k : ℕ). value_from k acc) (ground arith))
  | inr e ↦ rw e (
      write_digits-value fuel (n / 10) ((b'0' + n % 10) ∷ acc) (ground arith)
      ∙ ap (λ (k : ℕ). value_from k acc) (omega arith))
]

pub value-itoa : (n : ℕ) → value (itoa n) ≡ n
unfolding itoa value value_from
value-itoa n = elim (Bool-cases (n == 0)) [
  | inl e ↦ rw e (ground arith)
  | inr e ↦ rw e (write_digits-value n n [] (omega arith))
]

pub itoa_inj : (n m : ℕ) → itoa n ≡ itoa m → n ≡ m
itoa_inj n m e = sym (value-itoa n) ∙ ap value e ∙ value-itoa m

-- The characters are digits.
abbrev pub IsDigit : ℕ → Type 0
IsDigit c = (48 ≤ c) × (c ≤ 57)

write_digits-IsDigit :
    (fuel n : ℕ) (acc : Text) → All IsDigit acc → All IsDigit (write_digits fuel n acc)
unfolding write_digits
write_digits-IsDigit zero n acc h = h
write_digits-IsDigit (suc fuel) n acc h = elim (Bool-cases (n == 0)) [
  | inl e ↦ rw e h
  | inr e ↦
      rw e
        (write_digits-IsDigit fuel (n / 10) ((b'0' + n % 10) ∷ acc) ((omega arith, omega arith), h))
]

pub itoa-IsDigit : (n : ℕ) → All IsDigit (itoa n)
unfolding itoa
itoa-IsDigit n = elim (Bool-cases (n == 0)) [
  | inl e ↦ rw e ((omega arith, omega arith), tt)
  | inr e ↦ rw e (write_digits-IsDigit n n [] tt)
]
