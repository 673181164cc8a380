-- ===== src/Symbol/Cache.antt =====
-- The cache of source maps (internal/symbol/symbol.go): its two critical sections, the load between
-- them, and Forget. An element of the list is found by the key of its entry.
pub mod Order
pub mod Bounds
pub mod Steps
pub mod Answers
pub mod Release
pub mod Resolve
use sightpane.Prelude.{
  ℕ, zero, suc, ◌+◌, ◌-◌, ◌<◌, ◌≤◌, Bool, true, false, ◌||◌, ◌&&◌, not, Option, none, some, List,
  [], ◌∷◌, ◌++◌, ltb, if◌then◌else◌, keep, find, length,
}
use sightpane.Prelude.Int.{ℤ, pos, negsuc, pos_part}
use sightpane.Prelude.Text.{Text, codes, text_eq, is_empty, has_prefix}
use sightpane.Symbol.{Frame, Resolved, cache_key, map_name_for, clean_source, minified_label}

-- What the store returns for a map: its bytes, ErrNoMap, or another error.
pub data Loaded : Type 0 where
  bytes : List ℕ → Loaded
  no_map unavailable : Loaded

-- What a consumer says of a position: (source, name, line, column).
abbrev pub Position : Type 0
Position = Text × Text × ℤ × ℤ

-- go-sourcemap: `parse` is sourcemap.Parse, `source` the method Source of a consumer.
pub record MapLib : Type 1 where
  pub Consumer : Type 0
  pub parse : Text → List ℕ → Option Consumer
  pub source : Consumer → ℤ → ℤ → Option Position

-- A Loader: the project, the release, the file name.
abbrev pub Loader : Type 0
Loader = ℕ → Text → Text → Loaded

abbrev pub default_max_bytes : ℕ
default_max_bytes = 134217728

abbrev pub max_cache_entries : ℕ
max_cache_entries = 2048

abbrev pub missing_entry_bytes : ℕ
missing_entry_bytes = 1024

module _ (lib : MapLib) where
  -- `consumer` is none for an entry that is missing.
  pub record Entry : Type 0 where
    pub key : Text
    pub consumer : Option lib.Consumer
    pub size : ℕ

  -- `order` has the most recently used entry first; `items` maps a key to its element.
  pub record Cache : Type 0 where
    pub max_bytes : ℕ
    pub total : ℕ
    pub order : List Entry
    pub items : List (Text × Entry)

  unfoldable pub new_cache : ℤ → Cache
  new_cache max_bytes = record {
    max_bytes = if ltb 0 (pos_part max_bytes) then pos_part max_bytes else default_max_bytes;
    total = 0;
    order = [];
    items = [];
  }

  unfoldable pub item_of : Text → List (Text × Entry) → Option Entry
  item_of key [] = none
  item_of key ((k, e) ∷ rest) = if text_eq k key then some e else item_of key rest

  unfoldable pub delete_item : Text → List (Text × Entry) → List (Text × Entry)
  delete_item key items = keep (λ p. not (text_eq p.0 key)) items

  -- c.order.Remove(el)
  unfoldable pub remove : Text → List Entry → List Entry
  remove key [] = []
  remove key (e ∷ rest) = if text_eq e.key key then rest else e ∷ remove key rest

  unfoldable pub move_to_front : Entry → Cache → Cache
  unfolding remove
  move_to_front e c = record c { order = e ∷ remove e.key c.order }

  -- The first critical section, with the entry that it finds.
  unfoldable pub found : Option Entry → Cache → Option Entry × Cache
  unfolding move_to_front
  found none c = (none, c)
  found (some e) c = (some e, move_to_front e c)

  unfoldable pub look_up : Text → Cache → Option Entry × Cache
  unfolding found item_of
  look_up key c = found (item_of key c.items) c

  -- The load, outside the lock; none where nothing is to be remembered.
  unfoldable pub entry_of_bytes : Text → List ℕ → Option lib.Consumer → Entry
  entry_of_bytes key raw none = record { key = key; consumer = none; size = missing_entry_bytes }
  entry_of_bytes key raw (some c) = record { key = key; consumer = some c; size = length raw }

  unfoldable pub entry_of : Text → Text → Loaded → Option Entry
  unfolding entry_of_bytes
  entry_of key filename (bytes raw) = some (entry_of_bytes key raw (lib.parse filename raw))
  entry_of key filename no_map =
      some (record { key = key; consumer = none; size = missing_entry_bytes })
  entry_of key filename unavailable = none

  -- c.order.Back() of a list that is not empty.
  unfoldable pub back : Entry → List Entry → Entry
  back e [] = e
  back e (f ∷ rest) = back f rest

  unfoldable pub drop_entry : Text → Entry → Cache → Cache
  unfolding remove delete_item
  drop_entry key e c = record c {
    order = remove e.key c.order;
    items = delete_item key c.items;
    total = c.total - e.size;
  }

  is_over : Cache → Bool
  is_over c = ltb c.max_bytes c.total || ltb max_cache_entries (length c.order)

  -- The body of the loop, on the list c.order.
  pub evict_back : List Entry → Cache → Cache
  unfolding back drop_entry
  evict_back [] c = c
  evict_back (e ∷ rest) c = let last = back e rest in drop_entry last.key last c

  -- The first argument is fuel: a round for each entry is enough.
  pub evict_loop : ℕ → Cache → Cache
  unfolding is_over evict_back
  evict_loop zero c = c
  evict_loop (suc fuel) c =
      let next = evict_loop fuel (evict_back c.order c) in
      if is_over c && ltb 1 (length c.order) then next else c

  unfoldable pub evict : Cache → Cache
  unfolding evict_loop
  evict c = evict_loop (length c.order) c

  -- c.items[key] = c.order.PushFront(e), c.bytes += e.size
  unfoldable pub push_front : Entry → Cache → Cache
  unfolding delete_item
  push_front e c = record c {
    order = e ∷ c.order;
    items = (e.key, e) ∷ delete_item e.key c.items;
    total = c.total + e.size;
  }

  -- The second critical section, with the entry that it settles on.
  unfoldable pub settle : Entry → Option Entry → Cache → Entry × Cache
  unfolding evict push_front move_to_front
  settle e none c = (e, evict (push_front e c))
  settle e (some other) c = (other, move_to_front other c)

  unfoldable pub store_entry : Entry → Cache → Entry × Cache
  unfolding settle item_of
  store_entry e c = settle e (item_of e.key c.items) c

  unfoldable pub store_loaded : Option Entry → Cache → Option lib.Consumer × Cache
  unfolding store_entry
  store_loaded none c = (none, c)
  store_loaded (some e) c = let (other, c') = store_entry e c in (other.consumer, c')

  unfoldable pub fetch : Loader → ℕ → Text → Text → Option Entry
  unfolding entry_of cache_key
  fetch load project release filename =
      entry_of (cache_key project release filename) filename (load project release filename)

  unfoldable pub after_look_up : Option Entry → Option Entry × Cache → Option lib.Consumer × Cache
  unfolding store_loaded
  after_look_up loaded (some e, c) = (e.consumer, c)
  after_look_up loaded (none, c) = store_loaded loaded c

  -- With no other call between the two sections.
  unfoldable pub consumer : Loader → ℕ → Text → Text → Cache → Option lib.Consumer × Cache
  unfolding after_look_up look_up fetch cache_key
  consumer load project release filename c =
      if is_empty filename
      then (none, c)
      else after_look_up (fetch load project release filename)
          (look_up (cache_key project release filename) c)

  -- The loop of Forget over the map.
  unfoldable pub forget_items : Text → List (Text × Entry) → Cache → Cache
  unfolding drop_entry
  forget_items prefix [] c = c
  forget_items prefix ((k, e) ∷ rest) c =
      forget_items prefix rest (if has_prefix k prefix then drop_entry k e c else c)

  unfoldable pub forget : ℕ → Text → Cache → Cache
  unfolding forget_items cache_key
  forget project release c = forget_items (cache_key project release []) c.items c
