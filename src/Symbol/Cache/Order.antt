-- ===== src/Symbol/Cache/Order.antt =====
-- The list and the map of the cache: what a key finds after a removal, and how the sizes add up.
use sightpane.Prelude.{
  ℕ, ◌+◌, ◌≡◌, refl, ◌∙◌, true, false, Option, none, some, List, [], ◌∷◌, keep, inl, inr, arith,
  Bool-cases, All, All-keep, length, if◌then◌else◌,
}
use mathlib.Core.Path.{subst}
use sightpane.Prelude.Text.{Text, text_eq, text_eq_iff, text_eq_refl, text_eq_sound, text_eq_comm}
use sightpane.Prelude.Keys.{HasKeys}
use sightpane.Symbol.Cache.{MapLib, Entry, item_of, delete_item, remove, back}

module _ {lib : MapLib} where
  -- The entry of the list that has a key.
  unfoldable pub held : Text → List (Entry lib) → Option (Entry lib)
  held key [] = none
  held key (e ∷ rest) = if text_eq e.key key then some e else held key rest

  unfoldable pub sizes : List (Entry lib) → ℕ
  sizes [] = 0
  sizes (e ∷ rest) = e.size + sizes rest

  abbrev pub HasOrder : List (Entry lib) → Type 0
  HasOrder = HasKeys (λ e. e.key)

  abbrev pub HasItems : List (Text × Entry lib) → Type 0
  HasItems = HasKeys (λ p. p.0)

  pub held_key :
      (key : Text) (order : List (Entry lib)) {e : Entry lib}
      → held key order ≡ some e
      → e.key ≡ key
  unfolding held
  held_key key [] h = cc
  held_key key (f ∷ rest) {e = e} h = elim (Bool-cases (text_eq f.key key)) [
    | inl same ↦
        let it : f ≡ e = ground arith in
        subst (λ (x : Entry lib). x.key ≡ key) it (text_eq_sound f.key key same)
    | inr other ↦ held_key key rest (rw other at h)
  ]

  pub held_absent :
      (j k : Text) (order : List (Entry lib))
      → All (λ e. text_eq e.key j ≡ false) order
      → text_eq j k ≡ true
      → held k order ≡ none
  unfolding held
  held_absent j k [] h same = refl
  held_absent j k (e ∷ rest) (h, hs) same =
      ground (arith, text_eq_iff j k, held_absent j k rest hs same)

  pub held-remove :
      (j k : Text) (order : List (Entry lib))
      → HasOrder order
      → held k (remove lib j order) ≡ (if text_eq j k then none else held k order)
  unfolding held remove
  held-remove j k [] u = ground arith
  held-remove j k (e ∷ rest) (u, us) = ground (
    arith,
    text_eq_iff e.key j,
    text_eq_iff e.key k,
    text_eq_iff j k,
    held-remove j k rest us,
    held_absent e.key k rest u,
  )

  pub sizes-remove :
      (key : Text) (order : List (Entry lib)) (e : Entry lib)
      → held key order ≡ some e
      → sizes (remove lib key order) + e.size ≡ sizes order
  unfolding held remove sizes
  sizes-remove key [] e h = cc
  sizes-remove key (f ∷ rest) e h = ground (arith, sizes-remove key rest e)

  pub length-remove :
      (key : Text) (order : List (Entry lib)) (e : Entry lib)
      → held key order ≡ some e
      → length (remove lib key order) + 1 ≡ length order
  unfolding held remove
  length-remove key [] e h = cc
  length-remove key (f ∷ rest) e h = ground (arith, length-remove key rest e)

  pub All-remove :
      (P : Entry lib → Type 0) (key : Text) (order : List (Entry lib))
      → All P order
      → All P (remove lib key order)
  unfolding remove
  All-remove P key [] a = tt
  All-remove P key (e ∷ rest) (h, a) = elim (Bool-cases (text_eq e.key key)) [
    | inl same ↦ rw same a
    | inr other ↦ rw other (h, All-remove P key rest a)
  ]

  pub remove-HasOrder :
      (key : Text) (order : List (Entry lib)) → HasOrder order → HasOrder (remove lib key order)
  unfolding remove
  remove-HasOrder key [] u = tt
  remove-HasOrder key (e ∷ rest) (u, us) = elim (Bool-cases (text_eq e.key key)) [
    | inl same ↦ rw same us
    | inr other ↦
        rw other
          (All-remove (λ y. text_eq y.key e.key ≡ false) key rest u, remove-HasOrder key rest us)
  ]

  -- After a removal the key is gone.
  pub remove-absent :
      (key : Text) (order : List (Entry lib))
      → HasOrder order
      → All (λ e. text_eq e.key key ≡ false) (remove lib key order)
  unfolding remove
  remove-absent key [] u = tt
  remove-absent key (e ∷ rest) (u, us) = elim (Bool-cases (text_eq e.key key)) [
    | inl same ↦ rw (same, ← text_eq_sound e.key key same) u
    | inr other ↦ rw other (other, remove-absent key rest us)
  ]

  -- The last entry is found by its key.
  back_fresh :
      (j : Text) (e : Entry lib) (rest : List (Entry lib))
      → All (λ f. text_eq f.key j ≡ false) (e ∷ rest)
      → text_eq (back lib e rest).key j ≡ false
  unfolding back
  back_fresh j e [] (h, hs) = h
  back_fresh j e (f ∷ rest) (h, hs) = back_fresh j f rest hs

  pub held-back :
      (e : Entry lib) (rest : List (Entry lib))
      → HasOrder (e ∷ rest)
      → held (back lib e rest).key (e ∷ rest) ≡ some (back lib e rest)
  unfolding held back
  held-back e [] u = rw (text_eq_refl e.key)
  held-back e (f ∷ rest) (u, us) =
      let other : text_eq e.key (back lib f rest).key ≡ false =
        text_eq_comm e.key (back lib f rest).key ∙ back_fresh e.key f rest u in
      rw other (held-back f rest us)

  -- A key that is not held is no entry's.
  pub held-none :
      (key : Text) (order : List (Entry lib))
      → held key order ≡ none
      → All (λ e. text_eq e.key key ≡ false) order
  unfolding held
  held-none key [] h = tt
  held-none key (e ∷ rest) h = elim (Bool-cases (text_eq e.key key)) [
    | inl same ↦ absurd (ground arith)
    | inr other ↦ (other, held-none key rest (rw other at h))
  ]

  pub item_of-delete_item :
      (j k : Text) (items : List (Text × Entry lib))
      → item_of lib k (delete_item lib j items)
        ≡ (if text_eq j k then none else item_of lib k items)
  unfolding item_of delete_item keep
  item_of-delete_item j k [] = ground arith
  item_of-delete_item j k ((i, e) ∷ rest) =
      ground
        (arith, text_eq_iff i j, text_eq_iff i k, text_eq_iff j k, item_of-delete_item j k rest)

  pub delete_item-HasItems :
      (key : Text) (items : List (Text × Entry lib))
      → HasItems items
      → HasItems (delete_item lib key items)
  unfolding delete_item keep
  delete_item-HasItems key [] u = tt
  delete_item-HasItems key ((i, e) ∷ rest) (u, us) = elim (Bool-cases (text_eq i key)) [
    | inl same ↦ rw same (delete_item-HasItems key rest us)
    | inr other ↦ rw other (All-keep _ _ rest u, delete_item-HasItems key rest us)
  ]

  pub delete_item-absent :
      (key : Text) (items : List (Text × Entry lib))
      → All (λ p. text_eq p.0 key ≡ false) (delete_item lib key items)
  unfolding delete_item keep
  delete_item-absent key [] = tt
  delete_item-absent key ((i, e) ∷ rest) = elim (Bool-cases (text_eq i key)) [
    | inl same ↦ rw same (delete_item-absent key rest)
    | inr other ↦ rw other (other, delete_item-absent key rest)
  ]
