-- ===== src/Symbol/Cache/Resolve/Refines.antt =====
-- Resolve with the cache against Resolve without it, along any history of the cache.
use sightpane.Prelude.{ℕ, ◌≡◌, refl, ap, List, [], ◌∷◌, map, inl, inr, Bool-cases}
use sightpane.Prelude.Int.{ℤ}
use sightpane.Prelude.Text.{Text, is_empty}
use sightpane.Symbol.{Frame, map_name_for}
use sightpane.Symbol.Keys.{IsPlain}
use sightpane.Symbol.Cache.{
  MapLib, Entry, Cache, Loader, new_cache, look_up, store_entry, consumer, forget,
}
use sightpane.Symbol.Cache.Answers.{
  IsTruthful, IsLoaded, store_entry-IsTruthful, look_up-IsTruthful, forget-IsTruthful, forget_fresh,
  new_fresh,
}
use sightpane.Symbol.Cache.Resolve.{
  resolve, resolve_frame, resolve_frames, or_nil, resolve_direct, direct,
}
use sightpane.Symbol.Cache.Resolve.Direct.{consumer-direct}

module _ (lib : MapLib) (project : ℕ) (release : Text) where
  -- A cache that has just been made, or has just forgotten the release.
  pub data Fresh : Cache lib → Type 0 where
    made : (max_bytes : ℤ) → Fresh (new_cache lib max_bytes)
    forgot : (c : Cache lib) → Fresh (forget lib project release c)

  -- A critical section of any goroutine. What is stored for the release is what the store gives;
  -- what is stored for another one does not matter.
  pub data Section (load : Loader) : Cache lib → Cache lib → Type 0 where
    looks : (key : Text) (c : Cache lib) → Section load c (look_up lib key c).1
    stores :
        (e : Entry lib) (c : Cache lib)
        → IsLoaded load project release e
        → Section load c (store_entry lib e c).1
    forgets : (p : ℕ) (r : Text) (c : Cache lib) → Section load c (forget lib p r c)

  pub data Sections (load : Loader) (c : Cache lib) : Cache lib → Type 0 where
    here : Sections load c c
    next : {d e : Cache lib} → Sections load c d → Section load d e → Sections load c e

  Section-IsTruthful :
      {load : Loader} {c d : Cache lib}
      → Section load c d
      → IsTruthful load project release c
      → IsTruthful load project release d
  Section-IsTruthful {load} (looks key c) t = look_up-IsTruthful load project release key c t
  Section-IsTruthful {load} (stores e c l) t = store_entry-IsTruthful load project release e c l t
  Section-IsTruthful {load} (forgets p r c) t = forget-IsTruthful load project release p r c t

  Sections-IsTruthful :
      {load : Loader} {c d : Cache lib}
      → IsTruthful load project release c
      → Sections load c d
      → IsTruthful load project release d
  Sections-IsTruthful t here = t
  Sections-IsTruthful t (next s r) = Section-IsTruthful r (Sections-IsTruthful t s)

  Fresh-IsTruthful :
      (load : Loader) {c : Cache lib}
      → IsPlain release
      → Fresh c
      → IsTruthful load project release c
  Fresh-IsTruthful load plain (made max_bytes) = new_fresh load project release max_bytes
  Fresh-IsTruthful load plain (forgot c) = forget_fresh load project release plain c

  resolve_frames-direct :
      (load : Loader) (frames : List Frame) (c : Cache lib)
      → IsPlain release
      → IsTruthful load project release c
      → (resolve_frames lib load project release frames c).0
        ≡ map
            (λ f. resolve_frame lib (direct lib load project release (map_name_for f.uri)) f)
            frames
  unfolding resolve_frames
  resolve_frames-direct load [] c plain t = refl
  resolve_frames-direct load (f ∷ fs) c plain t =
      let (answer, t') = consumer-direct lib load project release plain (map_name_for f.uri) c t in
      rw (
        answer,
        resolve_frames-direct load fs (consumer lib load project release (map_name_for f.uri) c).1
            plain t',
      )

  -- For a release without a NUL: from a cache that has just been made or has just forgotten the
  -- release, after any interleaving of look-ups, evicting stores of maps as the loader gives them
  -- now, and calls of Forget, Resolve returns exactly what it would return if every frame loaded and
  -- parsed its map anew.
  pub resolve-resolve_direct :
      (load : Loader) {c d : Cache lib} (frames : List Frame)
      → IsPlain release
      → Fresh c
      → Sections load c d
      → (resolve lib load project release frames d).0
        ≡ resolve_direct lib load project release frames
  unfolding resolve resolve_direct
  resolve-resolve_direct load {c} {d} frames plain fresh s =
      let t = Sections-IsTruthful (Fresh-IsTruthful load plain fresh) s in
      elim (Bool-cases (is_empty release)) [
        | inl e ↦ rw e refl
        | inr e ↦ rw e (ap or_nil (resolve_frames-direct load frames d plain t))
      ]
