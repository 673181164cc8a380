-- ===== src/Access/Password.antt =====
-- HashPassword and VerifyPassword (internal/store/auth.go).
use mathlib.Core.Path.{subst}
use sightpane.Prelude.{
  ℕ, zero, suc, ◌≡◌, ◌↔◌, refl, ap, sym, ◌∙◌, Bool, true, false, ◌&&◌, Option, none, some, List, [],
  ◌∷◌, ◌++◌, arith, All, leb, length, if◌then◌else◌, ◌==◌,
}
use sightpane.Prelude.Int.{ℤ, pos, negsuc}
use sightpane.Prelude.Text.{Text, codes, text_eq, text_eq_iff, split}
use sightpane.Prelude.Decimal.{itoa, value}
use sightpane.Prelude.Base64.{encode, decode, decode-encode, encode-ne, IsByte}
use sightpane.Prelude.Splits.{split-append, split_last}
use sightpane.Access.{AccessLib}

abbrev pub pbkdf_iter : ℕ
pbkdf_iter = 120000

-- strconv.Atoi
all_digits : Text → Bool
all_digits [] = true
all_digits (c ∷ s) = leb 48 c && leb c 57 && all_digits s

negated : ℕ → ℤ
negated zero = pos 0
negated (suc n) = negsuc n

in_int64 : Bool → ℕ → Option ℤ
unfolding negated
in_int64 true n = if leb n 9223372036854775808 then some (negated n) else none
in_int64 false n = if leb n 9223372036854775807 then some (pos n) else none

of_digits : Bool → Text → Option ℤ
unfolding all_digits in_int64
of_digits is_negative [] = none
of_digits is_negative (c ∷ s) =
    if all_digits (c ∷ s) then in_int64 is_negative (value (c ∷ s)) else none

atoi : Text → Option ℤ
unfolding of_digits
atoi [] = none
atoi (c ∷ s) =
    if c == b'+'
    then of_digits false s
    else if c == b'-'
    then of_digits true s
    else of_digits false (c ∷ s)

module _ (lib : AccessLib) where
  encoded : List ℕ → Option (List ℕ) → Option Text
  encoded salt none = none
  encoded salt (some key) =
      some (codes "pbkdf2$" ++ (itoa pbkdf_iter ++ b'$' ∷ (encode salt ++ b'$' ∷ encode key)))

  -- The salt is the 16 random bytes.
  unfoldable pub hash_password : Text → List ℕ → Option Text
  unfolding encoded
  hash_password pw salt = encoded salt (lib.pbkdf2 pw salt (pos pbkdf_iter) 32)

  -- subtle.ConstantTimeCompare(got, want) == 1
  same_key : List ℕ → Option (List ℕ) → Bool
  same_key want none = false
  same_key want (some got) = text_eq got want

  check_key : Text → Option ℤ → Option (List ℕ) → Option (List ℕ) → Bool
  unfolding same_key
  check_key pw (some iter) (some salt) (some want) =
      same_key want (lib.pbkdf2 pw salt iter (length want))
  check_key pw (some iter) (some salt) none = false
  check_key pw (some iter) none want = false
  check_key pw none salt want = false

  check_parts : Text → List Text → Bool
  unfolding check_key atoi
  check_parts pw (name ∷ iter ∷ salt ∷ key ∷ []) =
      text_eq name (codes "pbkdf2") && check_key pw (atoi iter) (decode salt) (decode key)
  check_parts pw _ = false

  unfoldable pub verify_password : Text → Text → Bool
  unfolding check_parts
  verify_password stored pw = check_parts pw (split b'$' stored)

  -- What pbkdf2.Key returns is a key of the length asked for, in bytes.
  pub record KeyIsBytes : Type 0 where
    pub length_of :
        (pw : Text) (salt : List ℕ) (iter : ℤ) (len : ℕ) (key : List ℕ)
        → lib.pbkdf2 pw salt iter len ≡ some key
        → length key ≡ len
    pub bytes_of :
        (pw : Text) (salt : List ℕ) (iter : ℤ) (len : ℕ) (key : List ℕ)
        → lib.pbkdf2 pw salt iter len ≡ some key
        → All IsByte key

  -- The parts of a stored password are its salt and its key.
  split_stored :
      (salt key : List ℕ)
      → All IsByte salt
      → All IsByte key
      → split b'$'
          (codes "pbkdf2$" ++ (itoa pbkdf_iter ++ b'$' ∷ (encode salt ++ b'$' ∷ encode key)))
        ≡ codes "pbkdf2" ∷ codes "120000" ∷ encode salt ∷ encode key ∷ []
  unfolding itoa
  split_stored salt key hs hk =
      split-append b'$' (codes "pbkdf2") _ (refl, (refl, (refl, (refl, (refl, (refl, tt))))))
      ∙ ap (λ l. codes "pbkdf2" ∷ l)
          (split-append b'$' (codes "120000") _ (refl, (refl, (refl, (refl, (refl, (refl, tt))))))
            ∙ ap (λ l. codes "120000" ∷ l)
                (split-append b'$' (encode salt) (encode key) (encode-ne b'$' salt (omega arith) hs)
                  ∙ ap (λ l. encode salt ∷ l)
                      (split_last b'$' (encode key) (encode-ne b'$' key (omega arith) hk))))

  verify_stored :
      (pw' : Text) (salt key : List ℕ)
      → All IsByte salt
      → All IsByte key
      → length key ≡ 32
      → verify_password
          (codes "pbkdf2$" ++ (itoa pbkdf_iter ++ b'$' ∷ (encode salt ++ b'$' ∷ encode key)))
          pw'
        ≡ same_key key (lib.pbkdf2 pw' salt (pos pbkdf_iter) 32)
  unfolding verify_password check_parts check_key atoi value text_eq
  verify_stored pw' salt key hs hk len =
      ap (check_parts pw') (split_stored salt key hs hk)
      ∙ rw (decode-encode salt hs, decode-encode key hk, len) refl

  same_key_iff : (want : List ℕ) (o : Option (List ℕ)) → (same_key want o ≡ true) ↔ (o ≡ some want)
  unfolding same_key
  same_key_iff want none = (λ h. cc, λ h. cc)
  same_key_iff want (some got) =
      (λ h. ap some ((text_eq_iff got want).0 h), λ h. (text_eq_iff got want).1 (ground arith))

  encoded-some :
      (salt key : List ℕ) (o : Option (List ℕ)) (stored : Text)
      → o ≡ some key
      → encoded salt o ≡ some stored
      → codes "pbkdf2$" ++ (itoa pbkdf_iter ++ b'$' ∷ (encode salt ++ b'$' ∷ encode key)) ≡ stored
  unfolding encoded
  encoded-some salt key none stored e h = cc
  encoded-some salt key (some k) stored e h = cc

  encoded_inv :
      (salt : List ℕ) (o : Option (List ℕ)) (stored : Text)
      → encoded salt o ≡ some stored
      → (key : List ℕ) × (o ≡ some key)
  unfolding encoded
  encoded_inv salt none stored h = cc
  encoded_inv salt (some key) stored h = (key, refl)

  -- A password verifies against the hash of a password, under a salt of bytes, exactly if the two
  -- derive the same key from that salt; so the password itself does.
  pub verify_password-hash_password :
      (pw pw' : Text) (salt : List ℕ) (stored : Text)
      → KeyIsBytes
      → All IsByte salt
      → hash_password pw salt ≡ some stored
      → (verify_password stored pw ≡ true)
        × ((verify_password stored pw' ≡ true)
            ↔ (lib.pbkdf2 pw' salt (pos pbkdf_iter) 32 ≡ lib.pbkdf2 pw salt (pos pbkdf_iter) 32))
  unfolding hash_password
  verify_password-hash_password pw pw' salt stored law hs h =
      let (key, e) = encoded_inv salt (lib.pbkdf2 pw salt (pos pbkdf_iter) 32) stored h in
      let hk = law.bytes_of pw salt (pos pbkdf_iter) 32 key e in
      let len = law.length_of pw salt (pos pbkdf_iter) 32 key e in
      let same = encoded-some salt key (lib.pbkdf2 pw salt (pos pbkdf_iter) 32) stored e h in
      let test : (p : Text)
          → verify_password stored p ≡ same_key key (lib.pbkdf2 p salt (pos pbkdf_iter) 32) =
        λ p.
          subst (λ t. verify_password t p ≡ same_key key (lib.pbkdf2 p salt (pos pbkdf_iter) 32))
            same (verify_stored p salt key hs hk len) in
      let own = same_key_iff key (lib.pbkdf2 pw salt (pos pbkdf_iter) 32) in
      let other = same_key_iff key (lib.pbkdf2 pw' salt (pos pbkdf_iter) 32) in
      (
        test pw ∙ own.1 e,
        (λ v. other.0 (sym (test pw') ∙ v) ∙ sym e, λ k. test pw' ∙ other.1 (k ∙ e)),
      )
