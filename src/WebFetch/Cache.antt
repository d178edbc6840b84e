-- ===== src/WebFetch/Cache.antt =====
-- internal/backend/agent/bridge/interaction/webfetch_cache.go: the cache and its operations.
--
-- An element of the doubly linked list is a number. The mutex makes each operation one step; its time
-- is an argument, in nanoseconds on the monotonic clock.
use cursor_switch.Common.{
  ℕ, zero, suc, ◌+◌, ◌-◌, ◌*◌, Option, none, some, List, [], ◌∷◌, ltb, ◌==◌, if◌then◌else◌, length,
}
use cursor_switch.Common.Text.{Text}
use cursor_switch.Common.StringMap.{StringMap, lookup, insert, delete}
use cursor_switch.Messages.{is_blank}

abbrev pub web_fetch_cache_ttl : ℕ
web_fetch_cache_ttl = 10 * 60 * 1_000_000_000

abbrev pub web_fetch_cache_max_bytes : ℕ
web_fetch_cache_max_bytes = 4 * 1024 * 1024

pub record WebFetchCacheEntry : Type 0 where
  pub key : Text
  pub payload : Text
  pub size : ℕ
  pub created_at : ℕ
  pub elem : ℕ

-- `order` has the most recently used entry first; `elems` counts the list elements made so far.
pub record WebFetchCache : Type 0 where
  pub items : StringMap WebFetchCacheEntry
  pub order : List WebFetchCacheEntry
  pub elems : ℕ
  pub total_bytes : ℕ
  pub max_bytes : ℕ
  pub ttl : ℕ

unfoldable pub new_web_fetch_cache : ℕ → ℕ → WebFetchCache
new_web_fetch_cache max_bytes ttl = record {
  items = [];
  order = [];
  elems = 0;
  total_bytes = 0;
  max_bytes = max_bytes;
  ttl = ttl;
}

-- The package's list.
unfoldable pub remove_elem : ℕ → List WebFetchCacheEntry → List WebFetchCacheEntry
remove_elem n [] = []
remove_elem n (e ∷ es) = if e.elem == n then es else e ∷ remove_elem n es

unfoldable pub find_elem : ℕ → List WebFetchCacheEntry → Option WebFetchCacheEntry
find_elem n [] = none
find_elem n (e ∷ es) = if e.elem == n then some e else find_elem n es

unfoldable pub move_to_front : ℕ → List WebFetchCacheEntry → List WebFetchCacheEntry
move_to_front n order = elim (find_elem n order) [ none ↦ order | some e ↦ e ∷ remove_elem n order ]

unfoldable pub back : List WebFetchCacheEntry → Option WebFetchCacheEntry
back [] = none
back (e ∷ []) = some e
back (e ∷ f ∷ es) = back (f ∷ es)

-- A difference below 0 is set to 0.
unfoldable pub evict_found :
    WebFetchCache → WebFetchCacheEntry → Option WebFetchCacheEntry → WebFetchCache
unfolding remove_elem
evict_found c entry none = c
evict_found c entry (some e) = record c {
  items = delete entry.key c.items;
  order = remove_elem entry.elem c.order;
  total_bytes = c.total_bytes - entry.size;
}

unfoldable pub evict_locked : WebFetchCache → WebFetchCacheEntry → WebFetchCache
evict_locked c entry = evict_found c entry (lookup entry.key c.items)

-- `get`, for what the map holds.
unfoldable pub get_entry :
    WebFetchCache → Option WebFetchCacheEntry → ℕ → WebFetchCache × Option Text
unfolding move_to_front
get_entry c none now = (c, none)
get_entry c (some entry) now =
    if ltb (entry.created_at + c.ttl) now
    then (evict_locked c entry, none)
    else (record c { order = move_to_front entry.elem c.order }, some entry.payload)

unfoldable pub get_cached : WebFetchCache → Text → ℕ → WebFetchCache × Option Text
get_cached c key now = get_entry c (lookup key c.items) now

-- The loop at the end of `put`. Each round takes one entry off the list, so that its length is fuel
-- enough.
unfoldable pub shrink : ℕ → WebFetchCache → WebFetchCache
unfolding back
shrink zero c = c
shrink (suc fuel) c = elim (back c.order) [
  | none ↦ c
  | some oldest ↦
      let rest = shrink fuel (evict_locked c oldest) in
      if ltb c.max_bytes c.total_bytes then rest else c
]

unfoldable pub evict_old : WebFetchCache → Option WebFetchCacheEntry → WebFetchCache
evict_old c none = c
evict_old c (some old) = evict_locked c old

unfoldable pub new_entry : WebFetchCache → Text → Text → ℕ → WebFetchCacheEntry
new_entry c key payload now = record {
  key = key;
  payload = payload;
  size = length payload;
  created_at = now;
  elem = c.elems;
}

unfoldable pub push_entry : WebFetchCache → Text → Text → ℕ → WebFetchCache
unfolding new_entry
push_entry c key payload now =
    let entry = new_entry c key payload now in
    record c {
      items = insert key entry c.items;
      order = entry ∷ c.order;
      elems = c.elems + 1;
      total_bytes = c.total_bytes + entry.size;
    }

unfoldable pub store_payload : WebFetchCache → Text → Text → ℕ → WebFetchCache
store_payload c key payload now =
    let pushed = push_entry (evict_old c (lookup key c.items)) key payload now in
    shrink (length pushed.order) pushed

unfoldable pub put_cached : WebFetchCache → Text → Text → ℕ → WebFetchCache
put_cached c key payload now =
    if is_blank payload
    then c
    else if ltb c.max_bytes (length payload)
    then c
    else store_payload c key payload now
