-- ===== src/Symbol/Cache/Steps.antt =====
-- The critical sections of the cache in any order, from any number of goroutines.
use mathlib.Core.Path.{subst}
use sightpane.Prelude.{
  ℕ, ◌≡◌, refl, sym, ap, ◌∙◌, false, Option, none, some, List, [], ◌∷◌, inl, inr, arith, Bool-cases,
  All, All-both, All-mono, length, if◌then◌else◌,
}
use sightpane.Prelude.Int.{ℤ}
use sightpane.Prelude.Text.{Text, text_eq, text_eq_refl, text_eq_comm, has_prefix}
use sightpane.Symbol.{cache_key}
use sightpane.Symbol.Cache.{
  MapLib, Entry, Cache, new_cache, item_of, move_to_front, found, look_up, drop_entry, push_front,
  evict, settle, store_entry, forget_items, forget,
}
use sightpane.Symbol.Cache.Order.{HasItems, length-remove, item_of-delete_item}
use sightpane.Symbol.Cache.Bounds.{
  IsWellFormed, HasBounds, item_key, held_self, drop_entry-IsWellFormed, move_to_front-IsWellFormed,
  push_front-IsWellFormed, evict_loop-HasBounds, new_cache-IsWellFormed,
}

module _ {lib : MapLib} where
  move_to_front-HasBounds :
      (c : Cache lib) (key : Text) (e : Entry lib)
      → item_of lib key c.items ≡ some e
      → HasBounds c
      → HasBounds (move_to_front lib e c)
  unfolding move_to_front
  move_to_front-HasBounds c key e h (w, b) =
      let h' = held_self c key e w h in
      (move_to_front-IsWellFormed c e h' w, ground (arith, length-remove e.key c.order e h'))

  found-HasBounds :
      (key : Text) (o : Option (Entry lib)) (c : Cache lib)
      → item_of lib key c.items ≡ o
      → HasBounds c
      → HasBounds (found lib o c).1
  unfolding found
  found-HasBounds key none c h b = b
  found-HasBounds key (some e) c h b = move_to_front-HasBounds c key e h b

  look_up-HasBounds : (key : Text) (c : Cache lib) → HasBounds c → HasBounds (look_up lib key c).1
  unfolding look_up
  look_up-HasBounds key c b = found-HasBounds key (item_of lib key c.items) c refl b

  pub push_front_sound :
      (c : Cache lib) (e : Entry lib)
      → item_of lib e.key c.items ≡ none
      → IsWellFormed c
      → IsWellFormed (push_front lib e c)
  push_front_sound c e h w = push_front-IsWellFormed c e (sym (w.agree e.key) ∙ h) w

  settle-HasBounds :
      (e : Entry lib) (o : Option (Entry lib)) (c : Cache lib)
      → item_of lib e.key c.items ≡ o
      → HasBounds c
      → HasBounds (settle lib e o c).1
  unfolding settle evict
  settle-HasBounds e none c h (w, b) =
      evict_loop-HasBounds (length (push_front lib e c).order) (push_front lib e c) (omega arith)
        (push_front_sound c e h w)
  settle-HasBounds e (some other) c h b = move_to_front-HasBounds c e.key other h b

  pub store_entry-HasBounds :
      (e : Entry lib) (c : Cache lib) → HasBounds c → HasBounds (store_entry lib e c).1
  unfolding store_entry
  store_entry-HasBounds e c b = settle-HasBounds e (item_of lib e.key c.items) c refl b

  -- The items that the map still holds.
  abbrev pub AreHeld : Cache lib → List (Text × Entry lib) → Type 0
  AreHeld c = All (λ p. item_of lib p.0 c.items ≡ some p.1)

  drop_entry-HasBounds :
      (c : Cache lib) (key : Text) (e : Entry lib)
      → item_of lib key c.items ≡ some e
      → HasBounds c
      → HasBounds (drop_entry lib key e c)
  drop_entry-HasBounds c key e h (w, b) =
      let h' = held_self c key e w h in
      subst (λ k. HasBounds (drop_entry lib k e c)) (item_key {c = c} key e w h)
        (
          drop_entry-IsWellFormed c e h' w,
          unfold drop_entry in ground (arith, length-remove e.key c.order e h'),
        )

  pub drop_entry-AreHeld :
      (c : Cache lib) (key : Text) (e : Entry lib) (rest : List (Text × Entry lib))
      → All (λ p. text_eq p.0 key ≡ false) rest
      → AreHeld c rest
      → AreHeld (drop_entry lib key e c) rest
  unfolding drop_entry
  drop_entry-AreHeld c key e rest a h =
      All-mono _ _ rest
        (λ p q.
          item_of-delete_item key p.0 c.items
          ∙ ap (λ b. if b then none else item_of lib p.0 c.items) (text_eq_comm key p.0 ∙ q.0)
          ∙ q.1)
        (All-both (λ p. text_eq p.0 key ≡ false) _ rest a h)

  forget_items-HasBounds :
      (prefix : Text) (items : List (Text × Entry lib)) (c : Cache lib)
      → HasItems items
      → AreHeld c items
      → HasBounds c
      → HasBounds (forget_items lib prefix items c)
  unfolding forget_items
  forget_items-HasBounds prefix [] c u h b = b
  forget_items-HasBounds prefix ((k, e) ∷ rest) c (u, us) (h, hs) b =
      elim (Bool-cases (has_prefix k prefix)) [
        | inl yes' ↦
            subst
              (λ t.
                HasBounds (forget_items lib prefix rest (if t then drop_entry lib k e c else c)))
              (sym yes')
              (forget_items-HasBounds prefix rest (drop_entry lib k e c) us
                (drop_entry-AreHeld c k e rest u hs) (drop_entry-HasBounds c k e h b))
        | inr no' ↦
            subst
              (λ t.
                HasBounds (forget_items lib prefix rest (if t then drop_entry lib k e c else c)))
              (sym no') (forget_items-HasBounds prefix rest c us hs b)
      ]

  -- Under a new key an item is still found.
  pub items-AreHeld :
      (items : List (Text × Entry lib))
      → HasItems items
      → All (λ p. item_of lib p.0 items ≡ some p.1) items
  unfolding item_of
  items-AreHeld [] u = tt
  items-AreHeld ((k, e) ∷ rest) (u, us) = (
    rw (text_eq_refl k) refl,
    All-mono _ _ rest (λ p q. rw (text_eq_comm k p.0 ∙ q.0) q.1)
        (All-both (λ p. text_eq p.0 k ≡ false) _ rest u (items-AreHeld rest us)),
  )

  pub forget-HasBounds :
      (project : ℕ) (release : Text) (c : Cache lib)
      → HasBounds c
      → HasBounds (forget lib project release c)
  unfolding forget
  forget-HasBounds project release c (w, b) =
      forget_items-HasBounds (cache_key project release []) c.items c w.unique
        (items-AreHeld c.items w.unique) (w, b)

-- One critical section.
pub data Step (lib : MapLib) : Cache lib → Cache lib → Type 0 where
  looks : (key : Text) (c : Cache lib) → Step lib c (look_up lib key c).1
  stores : (e : Entry lib) (c : Cache lib) → Step lib c (store_entry lib e c).1
  forgets :
      (project : ℕ) (release : Text) (c : Cache lib) → Step lib c (forget lib project release c)

pub data Reach (lib : MapLib) (c : Cache lib) : Cache lib → Type 0 where
  here : Reach lib c c
  next : {d e : Cache lib} → Reach lib c d → Step lib d e → Reach lib c e

Step-HasBounds : {lib : MapLib} {c d : Cache lib} → Step lib c d → HasBounds c → HasBounds d
Step-HasBounds (looks key c) b = look_up-HasBounds key c b
Step-HasBounds (stores e c) b = store_entry-HasBounds e c b
Step-HasBounds (forgets project release c) b = forget-HasBounds project release c b

Reach-from : {lib : MapLib} {c d : Cache lib} → HasBounds c → Reach lib c d → HasBounds d
Reach-from b here = b
Reach-from b (next r s) = Step-HasBounds s (Reach-from b r)

-- However the look-ups, the stores and the calls of Forget of any number of goroutines interleave,
-- in a cache that started empty the map finds under every key the entry of the list with that key,
-- no two entries have the same key, the count of bytes is the sum of the sizes, and the cache holds
-- at most max_bytes bytes in at most 2048 entries, unless it is down to one entry.
pub Reach-HasBounds :
    {lib : MapLib} (max_bytes : ℤ) {c : Cache lib}
    → Reach lib (new_cache lib max_bytes) c
    → HasBounds c
Reach-HasBounds max_bytes r =
    Reach-from (new_cache-IsWellFormed max_bytes, unfold new_cache in inr (omega arith)) r
