-- ===== src/Symbol/Cache/Release.antt =====
-- What Forget leaves in the map.
use sightpane.Prelude.{
  ℕ, ◌≡◌, refl, ◌∙◌, ◌==◌, ◌&&◌, true, false, none, List, [], ◌∷◌, inl, inr, arith, Bool-cases,
  if◌then◌else◌,
}
use sightpane.Prelude.Text.{Text, text_eq, text_eq_iff, has_prefix}
use sightpane.Symbol.{cache_key}
use sightpane.Symbol.Keys.{IsPlain, cache_key_prefix}
use sightpane.Symbol.Cache.{MapLib, Entry, Cache, item_of, drop_entry, forget_items, forget}
use sightpane.Symbol.Cache.Order.{item_of-delete_item}

module _ {lib : MapLib} (prefix key : Text) where
  -- One round of the loop.
  abbrev after_round : Text → Entry lib → Cache lib → Cache lib
  after_round k e c = if has_prefix k prefix then drop_entry lib k e c else c

  round_other :
      (k : Text) (e : Entry lib) (c : Cache lib)
      → text_eq k key ≡ false
      → item_of lib key (after_round k e c).items ≡ item_of lib key c.items
  unfolding drop_entry
  round_other k e c other = ground (arith, item_of-delete_item k key c.items)

  -- A key outside the prefix keeps its entry.
  pub forget_items_kept :
      (items : List (Text × Entry lib)) (c : Cache lib)
      → has_prefix key prefix ≡ false
      → item_of lib key (forget_items lib prefix items c).items ≡ item_of lib key c.items
  unfolding forget_items
  forget_items_kept [] c h = refl
  forget_items_kept ((k, e) ∷ rest) c h =
      forget_items_kept rest (after_round k e c) h ∙ (elim (Bool-cases (text_eq k key)) [
        | inl same ↦
            let outside : has_prefix k prefix ≡ false = ground (arith, text_eq_iff k key) in
            rw outside refl
        | inr other ↦ round_other k e c other
      ])

  -- A key under the prefix loses it, if the loop meets every entry of the map.
  pub forget_items_gone :
      (items : List (Text × Entry lib)) (c : Cache lib)
      → has_prefix key prefix ≡ true
      → (item_of lib key items ≡ none → item_of lib key c.items ≡ none)
      → item_of lib key (forget_items lib prefix items c).items ≡ none
  unfolding forget_items item_of
  forget_items_gone [] c h met = met refl
  forget_items_gone ((k, e) ∷ rest) c h met = forget_items_gone rest (after_round k e c) h λ absent.
      elim (Bool-cases (text_eq k key)) [
        | inl same ↦
            let inside : has_prefix k prefix ≡ true = ground (arith, text_eq_iff k key) in
            rw inside (unfold drop_entry in (item_of-delete_item k key c.items ∙ rw same))
        | inr other ↦ round_other k e c other ∙ met (rw other absent)
      ]

-- Forget takes every map of the release out of the cache, and leaves every other entry.
pub item_of-forget :
    {lib : MapLib} (project : ℕ) (release key : Text) (c : Cache lib)
    → item_of lib key (forget lib project release c).items
      ≡ (if has_prefix key (cache_key project release []) then none else item_of lib key c.items)
unfolding forget
item_of-forget {lib} project release key c =
    elim (Bool-cases (has_prefix key (cache_key project release []))) [
      | inl inside ↦
          rw inside (forget_items_gone (cache_key project release []) key c.items c inside (λ e. e))
      | inr outside ↦
          rw outside (forget_items_kept (cache_key project release []) key c.items c outside)
    ]

-- With releases without a NUL, Forget takes the maps of one release of one project out of the cache,
-- whatever their files are called, and leaves the maps of every other release and project.
pub forget_release :
    {lib : MapLib} (p p' : ℕ) (r r' filename : Text) (c : Cache lib)
    → IsPlain r
    → IsPlain r'
    → item_of lib (cache_key p' r' filename) (forget lib p r c).items
      ≡ (if p' == p && text_eq r' r then none else item_of lib (cache_key p' r' filename) c.items)
forget_release {lib} p p' r r' filename c h h' =
    let same = cache_key_prefix p p' r r' filename h h' in
    ground (
      arith,
      item_of-forget {lib = lib} p r (cache_key p' r' filename) c,
      text_eq_iff r' r,
      same.0,
      same.1,
    )
