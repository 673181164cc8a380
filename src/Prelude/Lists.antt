-- ===== src/Prelude/Lists.antt =====
-- Lists measured and indexed by native numbers, under the library's names.
use Prim.Native.Nat.{ℕ, zero, suc, ◌+◌}
use mathlib.Core.Path.{◌≡◌, refl, ap, subst}
use mathlib.Core.List.{List, [], ◌∷◌, ◌++◌, map}
use mathlib.Core.Option
use mathlib.Core.Option.{Option, none, some}
use mathlib.Core.Bool.{Bool, true, false}
use mathlib.Core.Logic.{inl, inr}
use native.Mathlib.Omega.{arith}
use sightpane.Prelude.Tests.{◌==◌, ltb, if◌then◌else◌, Bool-cases}

module _ {ℓ} {A : Type ℓ} where
  abbrev pub length : List A → ℕ
  length [] = 0
  length (x ∷ xs) = suc (length xs)

  abbrev pub get_elem? : List A → ℕ → Option A
  get_elem? [] i = none
  get_elem? (x ∷ xs) zero = some x
  get_elem? (x ∷ xs) (suc i) = get_elem? xs i

  pub length-append : (xs ys : List A) → length (xs ++ ys) ≡ length xs + length ys
  length-append [] ys = omega arith
  length-append (x ∷ xs) ys = omega (arith, length-append xs ys)

  -- The first element that passes a test: a query for one row.
  unfoldable pub find : (A → Bool) → List A → Option A
  find p [] = none
  find p (x ∷ xs) = if p x then some x else find p xs

  -- The elements that pass a test: a query, or what a DELETE leaves.
  unfoldable pub keep : (A → Bool) → List A → List A
  keep p [] = []
  keep p (x ∷ xs) = let rest = keep p xs in if p x then x ∷ rest else rest

  -- The rows that pass a test changed: an UPDATE.
  unfoldable pub update_where : (A → Bool) → (A → A) → List A → List A
  update_where p f [] = []
  update_where p f (x ∷ xs) = (if p x then f x else x) ∷ update_where p f xs

  pub length-update_where :
      (p : A → Bool) (f : A → A) (xs : List A) → length (update_where p f xs) ≡ length xs
  unfolding update_where
  length-update_where p f [] = refl
  length-update_where p f (x ∷ xs) = ap suc (length-update_where p f xs)

module _ {ℓ κ} {A : Type ℓ} (P : A → Type κ) where
  abbrev pub All : List A → Type κ
  All [] = Unit
  All (x ∷ xs) = P x × All xs

-- An UPDATE of the rows that a query looks for, where the updated rows still pass the query.
pub find-update_where {ℓ} :
    {A : Type ℓ} (p : A → Bool) (f : A → A) (xs : List A)
    → ((x : A) → p (f x) ≡ p x)
    → find p (update_where p f xs) ≡ Option.map f (find p xs)
unfolding find update_where
find-update_where p f [] h = refl
find-update_where p f (x ∷ xs) h = elim (Bool-cases (p x)) [
  | inl e ↦ rw (e, h x, e)
  | inr e ↦ rw (e, e) (find-update_where p f xs h)
]

-- An UPDATE of other rows.
pub find-update_where_ne {ℓ} :
    {A : Type ℓ} (q p : A → Bool) (f : A → A) (xs : List A)
    → ((x : A) → p x ≡ true → (q x ≡ false) × (q (f x) ≡ false))
    → find q (update_where p f xs) ≡ find q xs
unfolding find update_where
find-update_where_ne q p f [] h = refl
find-update_where_ne q p f (x ∷ xs) h = elim (Bool-cases (p x)) [
  | inl e ↦ rw (e, (h x e).0, (h x e).1) (find-update_where_ne q p f xs h)
  | inr e ↦ rw (e, find-update_where_ne q p f xs h)
]

-- What a query finds passes it.
pub find_sound {ℓ} :
    {A : Type ℓ} (p : A → Bool) (xs : List A) {x : A} → find p xs ≡ some x → p x ≡ true
unfolding find
find_sound p [] h = cc
find_sound p (x ∷ xs) {x = y} h = elim (Bool-cases (p x)) [
  | inl e ↦ let same : x ≡ y = ground arith in subst (λ z. p z ≡ true) same e
  | inr e ↦ find_sound p xs (rw e at h)
]

-- An UPDATE that changes nothing that a query looks at.
pub find-update_where_keep {ℓ} :
    {A : Type ℓ} (q p : A → Bool) (f : A → A) (xs : List A)
    → ((x : A) → q (f x) ≡ q x)
    → find q (update_where p f xs) ≡ Option.map (λ x. if p x then f x else x) (find q xs)
unfolding find update_where
find-update_where_keep q p f [] h = refl
find-update_where_keep q p f (x ∷ xs) h = elim (Bool-cases (q x)) [
  | inl e ↦ elim (Bool-cases (p x)) [ inl k ↦ rw (e, k, h x, e) | inr k ↦ rw (e, k, e) ]
  | inr e ↦ elim (Bool-cases (p x)) [
    | inl k ↦ rw (e, k, h x, e) (find-update_where_keep q p f xs h)
    | inr k ↦ rw (e, k, e) (find-update_where_keep q p f xs h)
  ]
]

module _ {ℓ κ} {A : Type ℓ} where
  -- What holds of all rows after an UPDATE.
  pub All-update_where :
      (P Q : A → Type κ) (p : A → Bool) (f : A → A) (xs : List A)
      → ((x : A) → P x → p x ≡ true → Q (f x))
      → ((x : A) → P x → p x ≡ false → Q x)
      → All P xs
      → All Q (update_where p f xs)
  unfolding update_where
  All-update_where P Q p f [] hit miss h = tt
  All-update_where P Q p f (x ∷ xs) hit miss (h, hs) = elim (Bool-cases (p x)) [
    | inl e ↦ rw e (hit x h e, All-update_where P Q p f xs hit miss hs)
    | inr e ↦ rw e (miss x h e, All-update_where P Q p f xs hit miss hs)
  ]

  -- What holds of all rows holds of the row that a query finds.
  pub All-find :
      (P : A → Type κ) (p : A → Bool) (xs : List A) {x : A} → All P xs → find p xs ≡ some x → P x
  unfolding find
  All-find P p [] h e = cc
  All-find P p (x ∷ xs) {x = y} (h, hs) e = elim (Bool-cases (p x)) [
    | inl k ↦ let same : x ≡ y = ground arith in subst P same h
    | inr k ↦ All-find P p xs hs (rw k at e)
  ]

  pub All-mono : (P Q : A → Type κ) (xs : List A) → ((x : A) → P x → Q x) → All P xs → All Q xs
  All-mono P Q [] h a = tt
  All-mono P Q (x ∷ xs) h (p, a) = (h x p, All-mono P Q xs h a)

  pub All-both : (P Q : A → Type κ) (xs : List A) → All P xs → All Q xs → All (λ x. P x × Q x) xs
  All-both P Q [] a b = tt
  All-both P Q (x ∷ xs) (p, a) (q, b) = ((p, q), All-both P Q xs a b)

module _ {ℓ κ} {A : Type ℓ} where
  pub All-snoc : (P : A → Type κ) (xs : List A) (x : A) → All P xs → P x → All P (xs ++ x ∷ [])
  All-snoc P [] x a h = (h, tt)
  All-snoc P (y ∷ xs) x (p, a) h = (p, All-snoc P xs x a h)

-- The rows have distinct keys.
abbrev pub HasUnique {ℓ} : {A : Type ℓ} → (A → ℕ) → List A → Type 0
HasUnique key [] = Unit
HasUnique key (x ∷ xs) = All (λ y. (key y == key x) ≡ false) xs × HasUnique key xs

module _ {ℓ} {A : Type ℓ} where
  pub update_where-map :
      (p : A → Bool) (f : A → A) (xs : List A)
      → update_where p f xs ≡ map (λ x. if p x then f x else x) xs
  unfolding update_where
  update_where-map p f [] = refl
  update_where-map p f (x ∷ xs) = rw (update_where-map p f xs)

  pub All-keep {κ} : (P : A → Type κ) (p : A → Bool) (xs : List A) → All P xs → All P (keep p xs)
  unfolding keep
  All-keep P p [] a = tt
  All-keep P p (x ∷ xs) (h, a) = elim (Bool-cases (p x)) [
    | inl e ↦ rw e (h, All-keep P p xs a)
    | inr e ↦ rw e (All-keep P p xs a)
  ]

module _ {ℓ κ} {A : Type ℓ} {B : Type κ} where
  pub map-congr : (f g : A → B) (xs : List A) → All (λ x. f x ≡ g x) xs → map f xs ≡ map g xs
  map-congr f g [] a = refl
  map-congr f g (x ∷ xs) (h, a) = rw (h, map-congr f g xs a)

  pub All-map {μ} :
      (P : B → Type μ) (f : A → B) (xs : List A) → All (λ x. P (f x)) xs → All P (map f xs)
  All-map P f [] a = tt
  All-map P f (x ∷ xs) (h, a) = (h, All-map P f xs a)

module _ {ℓ} {A : Type ℓ} (key : A → ℕ) where
  -- An UPDATE that keeps the keys keeps them distinct.
  pub HasUnique-update_where :
      (p : A → Bool) (f : A → A) (xs : List A)
      → ((x : A) → key (f x) ≡ key x)
      → HasUnique key xs
      → HasUnique key (update_where p f xs)
  unfolding update_where
  HasUnique-update_where p f [] k u = tt
  HasUnique-update_where p f (x ∷ xs) k (u, us) = elim (Bool-cases (p x)) [
    | inl e ↦
        let h =
          All-update_where (λ y. (key y == key x) ≡ false) (λ y. (key y == key x) ≡ false) p f xs
            (λ y q _. rw (k y) q) (λ y q _. q) u in
        rw (e, k x) (h, HasUnique-update_where p f xs k us)
    | inr e ↦
        let h =
          All-update_where (λ y. (key y == key x) ≡ false) (λ y. (key y == key x) ≡ false) p f xs
            (λ y q _. rw (k y) q) (λ y q _. q) u in
        rw e (h, HasUnique-update_where p f xs k us)
  ]

  pub HasUnique-keep : (p : A → Bool) (xs : List A) → HasUnique key xs → HasUnique key (keep p xs)
  unfolding keep
  HasUnique-keep p [] u = tt
  HasUnique-keep p (x ∷ xs) (u, us) = elim (Bool-cases (p x)) [
    | inl e ↦ rw e (All-keep (λ y. (key y == key x) ≡ false) p xs u, HasUnique-keep p xs us)
    | inr e ↦ rw e (HasUnique-keep p xs us)
  ]

  pub HasUnique-snoc :
      (xs : List A) (x : A)
      → HasUnique key xs
      → All (λ y. (key x == key y) ≡ false) xs
      → HasUnique key (xs ++ x ∷ [])
  HasUnique-snoc [] x u h = (tt, tt)
  HasUnique-snoc (y ∷ xs) x (u, us) (h, hs) =
      (All-snoc (λ z. (key z == key y) ≡ false) xs x u h, HasUnique-snoc xs x us hs)

-- The later of two instants, where the first may be missing: a step of MAX.
unfoldable pub later : Option ℕ → ℕ → Option ℕ
later none t = some t
later (some s) t = some (if ltb s t then t else s)
