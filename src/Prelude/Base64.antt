-- ===== src/Prelude/Base64.antt =====
-- base64.RawStdEncoding on lists of bytes: EncodeToString and DecodeString, which skips line ends and
-- does not look at the bits left over.
use Prim.Native.Nat.{ℕ, ◌+◌, ◌-◌, ◌*◌, ◌/◌, ◌%◌, ◌≤◌, ◌<◌}
use mathlib.Core.Path.{◌≡◌, refl, ◌∙◌, ap}
use mathlib.Core.Bool.{true, false, ◌&&◌, ◌||◌, not}
use mathlib.Core.List.{List, [], ◌∷◌, map}
use mathlib.Core.Option
use mathlib.Core.Option.{Option, none, some}
use native.Mathlib.Omega.{arith}
use sightpane.Prelude.Tests.{ltb, leb, ◌==◌, if◌then◌else◌}
use sightpane.Prelude.Text.{Text}
use sightpane.Prelude.Lists.{All, keep}

char_of : ℕ → ℕ
char_of k =
    if ltb k 26
    then k + 65
    else if ltb k 52
    then k + 71
    else if ltb k 62
    then k - 4
    else if k == 62
    then 43
    else 47

digit_of : ℕ → Option ℕ
digit_of c =
    if leb 65 c && leb c 90
    then some (c - 65)
    else if leb 97 c && leb c 122
    then some (c - 71)
    else if leb 48 c && leb c 57
    then some (c + 4)
    else if c == 43
    then some 62
    else if c == 47
    then some 63
    else none

-- Six bits at a time.
sextets : List ℕ → List ℕ
sextets [] = []
sextets (a ∷ []) = (a / 4) ∷ (a % 4 * 16) ∷ []
sextets (a ∷ b ∷ []) = (a / 4) ∷ (a % 4 * 16 + b / 16) ∷ (b % 16 * 4) ∷ []
sextets (a ∷ b ∷ c ∷ rest) =
    (a / 4) ∷ (a % 4 * 16 + b / 16) ∷ (b % 16 * 4 + c / 64) ∷ (c % 64) ∷ sextets rest

bytes_of : List ℕ → Option (List ℕ)
bytes_of [] = some []
bytes_of (x ∷ []) = none
bytes_of (x ∷ y ∷ []) = some ((x * 4 + y / 16) ∷ [])
bytes_of (x ∷ y ∷ z ∷ []) = some ((x * 4 + y / 16) ∷ (y % 16 * 16 + z / 4) ∷ [])
bytes_of (x ∷ y ∷ z ∷ w ∷ rest) =
    Option.map (λ bs. (x * 4 + y / 16) ∷ (y % 16 * 16 + z / 4) ∷ (z % 4 * 64 + w) ∷ bs)
      (bytes_of rest)

cons_digit : Option ℕ → Option (List ℕ) → Option (List ℕ)
cons_digit (some d) (some ds) = some (d ∷ ds)
cons_digit (some d) none = none
cons_digit none ds = none

digits_of : Text → Option (List ℕ)
unfolding cons_digit digit_of
digits_of [] = some []
digits_of (c ∷ s) = cons_digit (digit_of c) (digits_of s)

or_bytes : Option (List ℕ) → Option (List ℕ)
or_bytes none = none
or_bytes (some ds) = bytes_of ds

unfoldable pub encode : List ℕ → Text
unfolding char_of sextets
encode bytes = map char_of (sextets bytes)

unfoldable pub decode : Text → Option (List ℕ)
unfolding or_bytes bytes_of digits_of
decode s = or_bytes (digits_of (keep (λ c. not (c == 10 || c == 13)) s))

abbrev pub IsByte : ℕ → Type 0
IsByte b = b < 256

abbrev IsSextet : ℕ → Type 0
IsSextet k = k < 64

digit_of-char_of : (k : ℕ) → k < 64 → digit_of (char_of k) ≡ some k
unfolding digit_of char_of
digit_of-char_of k h = ground arith

-- The characters of an encoding are over 42: none is a line end or a dollar.
char_of-lt : (k : ℕ) → k < 64 → 42 < char_of k
unfolding char_of
char_of-lt k h = ground arith

sextets-IsSextet : (bytes : List ℕ) → All IsByte bytes → All IsSextet (sextets bytes)
unfolding sextets
sextets-IsSextet [] h = tt
sextets-IsSextet (a ∷ []) h = omega arith
sextets-IsSextet (a ∷ b ∷ []) h = omega arith
sextets-IsSextet (a ∷ b ∷ c ∷ rest) (p, (q, (r, h))) =
    (omega arith, (omega arith, (omega arith, (omega arith, sextets-IsSextet rest h))))

bytes_of-sextets : (bytes : List ℕ) → All IsByte bytes → bytes_of (sextets bytes) ≡ some bytes
unfolding bytes_of sextets
bytes_of-sextets [] h = refl
bytes_of-sextets (a ∷ []) h = ground arith
bytes_of-sextets (a ∷ b ∷ []) h = ground arith
bytes_of-sextets (a ∷ b ∷ c ∷ rest) (p, (q, (r, h))) = rw (bytes_of-sextets rest h) (ground arith)

digits_of-chars :
    (ks : List ℕ)
    → All IsSextet ks
    → digits_of (keep (λ c. not (c == 10 || c == 13)) (map char_of ks)) ≡ some ks
unfolding digits_of keep cons_digit
digits_of-chars [] h = refl
digits_of-chars (k ∷ ks) (h, hs) =
    let plain : not (char_of k == 10 || char_of k == 13) ≡ true = ground (arith, char_of-lt k h) in
    rw (plain, digit_of-char_of k h, digits_of-chars ks hs) refl

pub decode-encode : (bytes : List ℕ) → All IsByte bytes → decode (encode bytes) ≡ some bytes
unfolding decode encode or_bytes
decode-encode bytes h =
    ap or_bytes (digits_of-chars (sextets bytes) (sextets-IsSextet bytes h))
    ∙ bytes_of-sextets bytes h

chars-ne :
    (c : ℕ) (ks : List ℕ) → c ≤ 42 → All IsSextet ks → All (λ d. (d == c) ≡ false) (map char_of ks)
chars-ne c [] le h = tt
chars-ne c (k ∷ ks) le (h, hs) = (ground (arith, char_of-lt k h), chars-ne c ks le hs)

-- An encoding has no character up to 42.
pub encode-ne :
    (c : ℕ) (bytes : List ℕ)
    → c ≤ 42
    → All IsByte bytes
    → All (λ d. (d == c) ≡ false) (encode bytes)
unfolding encode
encode-ne c bytes le h = chars-ne c (sextets bytes) le (sextets-IsSextet bytes h)
