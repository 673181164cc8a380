-- ===== src/Symbol/Cache/Answers.antt =====
-- What the cache answers for one release, against the store behind it.
use sightpane.Prelude.{
  ℕ, zero, suc, ◌≡◌, refl, sym, ◌∙◌, Option, none, some, List, [], ◌∷◌, inl, inr, arith, Bool-cases,
  length,
}
use sightpane.Prelude.Int.{ℤ}
use sightpane.Prelude.Text.{Text, text_eq, text_eq_iff}
use sightpane.Symbol.{cache_key}
use sightpane.Symbol.Keys.{IsPlain, cache_key_prefix}
use sightpane.Symbol.Cache.{
  MapLib, Entry, Cache, Loader, new_cache, item_of, look_up, found, drop_entry, evict_back,
  evict_loop, evict, push_front, settle, store_entry, back, fetch, forget,
}
use sightpane.Symbol.Cache.Order.{item_of-delete_item}
use sightpane.Symbol.Cache.Release.{item_of-forget}

module _ {lib : MapLib} (load : Loader) (project : ℕ) (release : Text) where
  -- Every entry of the release is what the store would give now.
  abbrev pub IsTruthful : Cache lib → Type 0
  IsTruthful c =
      (filename : Text) (e : Entry lib)
      → item_of lib (cache_key project release filename) c.items ≡ some e
      → fetch lib load project release filename ≡ some e

  -- An entry that may be stored: one of another release, or what the store gives.
  abbrev pub IsLoaded : Entry lib → Type 0
  IsLoaded e =
      (filename : Text)
      → e.key ≡ cache_key project release filename
      → fetch lib load project release filename ≡ some e

  -- A cache that holds no more than another.
  abbrev Within : Cache lib → Cache lib → Type 0
  Within d c =
      (key : Text) (e : Entry lib)
      → item_of lib key d.items ≡ some e
      → item_of lib key c.items ≡ some e

  drop_entry-Within :
      (key : Text) (e : Entry lib) (c : Cache lib) → Within (drop_entry lib key e c) c
  unfolding drop_entry
  drop_entry-Within key e c k f h = ground (arith, item_of-delete_item key k c.items)

  evict_back-Within : (order : List (Entry lib)) (c : Cache lib) → Within (evict_back lib order c) c
  unfolding evict_back
  evict_back-Within [] c k f h = h
  evict_back-Within (e ∷ rest) c k f h =
      drop_entry-Within (back lib e rest).key (back lib e rest) c k f h

  evict_loop-Within : (fuel : ℕ) (c : Cache lib) → Within (evict_loop lib fuel c) c
  unfolding evict_loop
  evict_loop-Within zero c k f h = h
  evict_loop-Within (suc fuel) c k f h = ground (
    arith,
    evict_loop-Within fuel (evict_back lib c.order c) k f,
    evict_back-Within c.order c k f,
  )

  found-IsTruthful :
      (o : Option (Entry lib)) (c : Cache lib) → IsTruthful c → IsTruthful (found lib o c).1
  unfolding found
  found-IsTruthful none c t = t
  found-IsTruthful (some e) c t = t

  pub look_up-IsTruthful :
      (key : Text) (c : Cache lib) → IsTruthful c → IsTruthful (look_up lib key c).1
  unfolding look_up
  look_up-IsTruthful key c t = found-IsTruthful (item_of lib key c.items) c t

  push_front-IsTruthful :
      (e : Entry lib) (c : Cache lib) → IsLoaded e → IsTruthful c → IsTruthful (push_front lib e c)
  unfolding push_front item_of
  push_front-IsTruthful e c l t filename f h =
      let key = cache_key project release filename in
      elim (Bool-cases (text_eq e.key key)) [
        | inl same ↦ l filename ((text_eq_iff e.key key).0 same) ∙ (rw same at h)
        | inr other ↦
            t filename f (sym (item_of-delete_item e.key key c.items ∙ rw other) ∙ (rw other at h))
      ]

  settle-IsTruthful :
      (e : Entry lib) (o : Option (Entry lib)) (c : Cache lib)
      → IsLoaded e
      → IsTruthful c
      → IsTruthful (settle lib e o c).1
  unfolding settle evict
  settle-IsTruthful e none c l t filename f h =
      push_front-IsTruthful e c l t filename f
        (evict_loop-Within (length (push_front lib e c).order) (push_front lib e c) _ f h)
  settle-IsTruthful e (some other) c l t filename f h = t filename f h

  pub store_entry-IsTruthful :
      (e : Entry lib) (c : Cache lib)
      → IsLoaded e
      → IsTruthful c
      → IsTruthful (store_entry lib e c).1
  unfolding store_entry
  store_entry-IsTruthful e c l t = settle-IsTruthful e (item_of lib e.key c.items) c l t

  -- A call of Forget for any release takes entries out.
  pub forget-IsTruthful :
      (p : ℕ) (r : Text) (c : Cache lib) → IsTruthful c → IsTruthful (forget lib p r c)
  forget-IsTruthful p r c t filename e h =
      t filename e
        (ground (arith, item_of-forget {lib = lib} p r (cache_key project release filename) c))

  -- After Forget nothing of the release is left, so whatever was held before does not matter.
  pub forget_fresh : IsPlain release → (c : Cache lib) → IsTruthful (forget lib project release c)
  forget_fresh plain c filename e h =
      let inside =
        (cache_key_prefix project project release release filename plain plain).1 (refl, refl) in
      ground
        (arith, item_of-forget {lib = lib} project release (cache_key project release filename) c)

  pub new_fresh : (max_bytes : ℤ) → IsTruthful (new_cache lib max_bytes)
  unfolding new_cache item_of
  new_fresh max_bytes filename e h = cc
