-- ===== src/Symbol/Cache/Resolve/Direct.antt =====
-- The cache changes no answer: what Resolve returns is what it would return without one.
use mathlib.Core.Path.{subst}
use sightpane.Prelude.{
  ℕ, ◌≡◌, refl, sym, ap, ◌∙◌, Option, none, some, List, inl, inr, arith, Bool-cases,
}
use sightpane.Prelude.Text.{Text, is_empty}
use sightpane.Symbol.{cache_key}
use sightpane.Symbol.Keys.{IsPlain, cache_key_inj}
use sightpane.Symbol.Cache.{
  MapLib, Entry, Cache, Loader, Loaded, bytes, no_map, unavailable, item_of, look_up, found, settle,
  store_entry, store_loaded, entry_of, entry_of_bytes, fetch, after_look_up, consumer,
}
use sightpane.Symbol.Cache.Answers.{IsTruthful, IsLoaded, store_entry-IsTruthful}
use sightpane.Symbol.Cache.Resolve.{direct, parsed}

module _ (lib : MapLib) where
  -- What an entry to be remembered says.
  says : Option (Entry lib) → Option lib.Consumer
  says none = none
  says (some e) = e.consumer

  entry_of_bytes-consumer :
      (key : Text) (raw : List ℕ) (o : Option lib.Consumer)
      → (entry_of_bytes lib key raw o).consumer ≡ o
  unfolding entry_of_bytes
  entry_of_bytes-consumer key raw none = refl
  entry_of_bytes-consumer key raw (some c) = refl

  entry_of_bytes-key :
      (key : Text) (raw : List ℕ) (o : Option lib.Consumer)
      → (entry_of_bytes lib key raw o).key ≡ key
  unfolding entry_of_bytes
  entry_of_bytes-key key raw none = refl
  entry_of_bytes-key key raw (some c) = refl

  entry_of-key :
      (key filename : Text) (l : Loaded) (e : Entry lib)
      → entry_of lib key filename l ≡ some e
      → e.key ≡ key
  unfolding entry_of
  entry_of-key key filename (bytes raw) e h =
      ground (arith, entry_of_bytes-key key raw (lib.parse filename raw))
  entry_of-key key filename no_map e h = ground arith
  entry_of-key key filename unavailable e h = cc

  module _ (load : Loader) (project : ℕ) (release : Text) where
    says-entry_of :
        (key filename : Text) (l : Loaded)
        → says (entry_of lib key filename l) ≡ parsed lib load project release filename l
    unfolding says entry_of parsed
    says-entry_of key filename (bytes raw) =
        entry_of_bytes-consumer key raw (lib.parse filename raw)
    says-entry_of key filename no_map = refl
    says-entry_of key filename unavailable = refl

    module _ (plain : IsPlain release) where
      pub fetch-IsLoaded :
          (filename : Text) (e : Entry lib)
          → fetch lib load project release filename ≡ some e
          → IsLoaded {lib = lib} load project release e
      fetch-IsLoaded filename e h other k =
          let key =
            entry_of-key (cache_key project release filename) filename
              (load project release filename) e (unfold fetch in h) in
          let same =
            cache_key_inj project project release release filename other plain plain
              (sym key ∙ k) in
          subst (λ f. fetch lib load project release f ≡ some e) same.2 h

      -- The answer of the second critical section, whatever happened since the first.
      settled :
          (filename : Text) (e : Entry lib) (o : Option (Entry lib)) (c : Cache lib)
          → fetch lib load project release filename ≡ some e
          → item_of lib (cache_key project release filename) c.items ≡ o
          → IsTruthful load project release c
          → (settle lib e o c).0.consumer ≡ e.consumer
      unfolding settle
      settled filename e none c h k t = refl
      settled filename e (some other) c h k t = let same = t filename other k in ground arith

      stored :
          (filename : Text) (o : Option (Entry lib)) (c : Cache lib)
          → fetch lib load project release filename ≡ o
          → IsTruthful load project release c
          → ((store_loaded lib o c).0 ≡ says o)
            × IsTruthful load project release (store_loaded lib o c).1
      unfolding store_loaded says store_entry
      stored filename none c h t = (refl, t)
      stored filename (some e) c h t =
          let key =
            entry_of-key (cache_key project release filename) filename
              (load project release filename) e (unfold fetch in h) in
          (
            settled filename e (item_of lib e.key c.items) c h
                (ap (λ k. item_of lib k c.items) (sym key)) t,
            store_entry-IsTruthful load project release e c (fetch-IsLoaded filename e h) t,
          )

      after_found :
          (filename : Text) (o : Option (Entry lib)) (c : Cache lib)
          → item_of lib (cache_key project release filename) c.items ≡ o
          → IsTruthful load project release c
          → let r = after_look_up lib (fetch lib load project release filename) (found lib o c) in
            (r.0 ≡ says (fetch lib load project release filename))
            × IsTruthful load project release r.1
      unfolding after_look_up found says
      after_found filename none c h t =
          stored filename (fetch lib load project release filename) c refl t
      after_found filename (some e) c h t = (ap says (sym (t filename e h)), t)

      fetch-parsed :
          (filename : Text)
          → says (fetch lib load project release filename)
            ≡ parsed lib load project release filename (load project release filename)
      unfolding fetch
      fetch-parsed filename =
          says-entry_of (cache_key project release filename) filename
            (load project release filename)

      -- One call of consumer: the answer of the store, and a cache that is still truthful.
      pub consumer-direct :
          (filename : Text) (c : Cache lib)
          → IsTruthful load project release c
          → ((consumer lib load project release filename c).0
              ≡ direct lib load project release filename)
            × IsTruthful load project release (consumer lib load project release filename c).1
      unfolding consumer direct look_up
      consumer-direct filename c t = elim (Bool-cases (is_empty filename)) [
        | inl e ↦ rw e (refl, t)
        | inr e ↦
            let (answer, t') =
              after_found filename (item_of lib (cache_key project release filename) c.items) c refl
                t in
            rw e (answer ∙ fetch-parsed filename, t')
      ]
