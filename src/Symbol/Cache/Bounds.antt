-- ===== src/Symbol/Cache/Bounds.antt =====
-- The list, the map and the count of bytes agree, and the cache stays inside its bounds.
use mathlib.Core.Path.{subst}
use sightpane.Prelude.{
  ℕ, zero, suc, ◌+◌, ◌-◌, ◌≤◌, ◌≡◌, ◌⊎◌, refl, ap, sym, ◌∙◌, ◌&&◌, none, some, List, [], ◌∷◌, inl,
  inr, arith, Bool-cases, length, if◌then◌else◌, ltb,
}
use sightpane.Prelude.Int.{ℤ}
use sightpane.Prelude.Text.{Text, text_eq, text_eq_iff}
use sightpane.Symbol.Cache.{
  MapLib, Entry, Cache, new_cache, max_cache_entries, item_of, back, move_to_front, drop_entry,
  is_over, evict_back, evict_loop, push_front,
}
use sightpane.Symbol.Cache.Order.{
  HasOrder, HasItems, held, sizes, held_key, held-remove, sizes-remove, length-remove,
  remove-HasOrder, remove-absent, held-back, held-none, item_of-delete_item, delete_item-HasItems,
  delete_item-absent,
}

module _ {lib : MapLib} where
  pub record IsWellFormed (c : Cache lib) : Type 0 where
    pub agree : (key : Text) → item_of lib key c.items ≡ held key c.order
    pub distinct : HasOrder c.order
    pub unique : HasItems c.items
    pub counted : c.total ≡ sizes c.order

  -- Within both limits, or down to one entry.
  abbrev pub IsBounded : Cache lib → Type 0
  IsBounded c =
      ((c.total ≤ c.max_bytes) × (length c.order ≤ max_cache_entries)) ⊎ (length c.order ≤ 1)

  pub new_cache-IsWellFormed : (max_bytes : ℤ) → IsWellFormed (new_cache lib max_bytes)
  unfolding new_cache item_of held sizes
  new_cache-IsWellFormed max_bytes = record {
    agree = λ key. refl;
    distinct = tt;
    unique = tt;
    counted = refl;
  }

  pub item_key :
      {c : Cache lib} (key : Text) (e : Entry lib)
      → IsWellFormed c
      → item_of lib key c.items ≡ some e
      → e.key ≡ key
  item_key {c} key e w h = held_key key c.order (sym (w.agree key) ∙ h)

  pub drop_entry-IsWellFormed :
      (c : Cache lib) (e : Entry lib)
      → held e.key c.order ≡ some e
      → IsWellFormed c
      → IsWellFormed (drop_entry lib e.key e c)
  unfolding drop_entry
  drop_entry-IsWellFormed c e h w = record {
    agree = λ k.
        item_of-delete_item e.key k c.items
        ∙ ap (λ o. if text_eq e.key k then none else o) (w.agree k)
        ∙ sym (held-remove e.key k c.order w.distinct);
    distinct = remove-HasOrder e.key c.order w.distinct;
    unique = delete_item-HasItems e.key c.items w.unique;
    counted = omega (arith, w.counted, sizes-remove e.key c.order e h);
  }

  pub move_to_front-IsWellFormed :
      (c : Cache lib) (e : Entry lib)
      → held e.key c.order ≡ some e
      → IsWellFormed c
      → IsWellFormed (move_to_front lib e c)
  unfolding move_to_front sizes held
  move_to_front-IsWellFormed c e h w = record {
    agree =
        λ k. ground (arith, w.agree k, text_eq_iff e.key k, held-remove e.key k c.order w.distinct);
    distinct = (remove-absent e.key c.order w.distinct, remove-HasOrder e.key c.order w.distinct);
    unique = w.unique;
    counted = omega (arith, w.counted, sizes-remove e.key c.order e h);
  }

  pub push_front-IsWellFormed :
      (c : Cache lib) (e : Entry lib)
      → held e.key c.order ≡ none
      → IsWellFormed c
      → IsWellFormed (push_front lib e c)
  unfolding push_front sizes held item_of
  push_front-IsWellFormed c e h w = record {
    agree = λ k. ground (arith, w.agree k, item_of-delete_item e.key k c.items);
    distinct = (held-none e.key c.order h, w.distinct);
    unique = (delete_item-absent e.key c.items, delete_item-HasItems e.key c.items w.unique);
    counted = omega (arith, w.counted);
  }

  -- What the map finds is what the list holds under the entry's own key.
  pub held_self :
      (c : Cache lib) (key : Text) (e : Entry lib)
      → IsWellFormed c
      → item_of lib key c.items ≡ some e
      → held e.key c.order ≡ some e
  held_self c key e w h =
      ap (λ k. held k c.order) (item_key {c = c} key e w h) ∙ sym (w.agree key) ∙ h

  last_held :
      (c : Cache lib) (e : Entry lib) (rest : List (Entry lib))
      → c.order ≡ e ∷ rest
      → IsWellFormed c
      → held (back lib e rest).key c.order ≡ some (back lib e rest)
  last_held c e rest o w =
      ap (held (back lib e rest).key) o ∙ held-back e rest (subst HasOrder o w.distinct)

  evict_back-IsWellFormed :
      (c : Cache lib) (order : List (Entry lib))
      → c.order ≡ order
      → IsWellFormed c
      → IsWellFormed (evict_back lib order c)
  unfolding evict_back
  evict_back-IsWellFormed c [] o w = w
  evict_back-IsWellFormed c (e ∷ rest) o w =
      drop_entry-IsWellFormed c (back lib e rest) (last_held c e rest o w) w

  evict_back-length :
      (c : Cache lib) (order : List (Entry lib))
      → c.order ≡ order
      → IsWellFormed c
      → length (evict_back lib order c).order + 1 ≤ length c.order + (1 - length c.order)
  unfolding evict_back drop_entry
  evict_back-length c [] o w = rw o (omega arith)
  evict_back-length c (e ∷ rest) o w = omega (
    arith,
    length-remove (back lib e rest).key c.order (back lib e rest) (last_held c e rest o w),
  )

  abbrev pub HasBounds : Cache lib → Type 0
  HasBounds c = IsWellFormed c × IsBounded c

  -- The loop of evict ends: in a well-formed cache, with at least as many rounds as there are
  -- entries but one, it stops by its own test, within max_bytes bytes and 2048 entries or down to
  -- one entry, and the cache is still well formed.
  pub evict_loop-HasBounds :
      (fuel : ℕ) (c : Cache lib)
      → length c.order ≤ suc fuel
      → IsWellFormed c
      → HasBounds (evict_loop lib fuel c)
  unfolding evict_loop is_over
  evict_loop-HasBounds zero c le w = (w, inr le)
  evict_loop-HasBounds (suc fuel) c le w =
      elim (Bool-cases (is_over lib c && ltb 1 (length c.order))) [
        | inl more ↦ rw more (
            evict_loop-HasBounds fuel (evict_back lib c.order c)
              (ground (arith, evict_back-length c c.order refl w))
              (evict_back-IsWellFormed c c.order refl w))
        | inr done ↦ rw done (w, ground arith)
      ]
