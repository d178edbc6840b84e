-- ===== src/WebFetch/Tests.antt =====
-- A small cache, and the theorems at it.
use cursor_switch.Common.{ℕ, ◌+◌, ◌≤◌, ◌≡◌, refl, none, some, false, List, [], ◌∷◌, arith}
use cursor_switch.Common.Text.{codes, trim_space, ◌==◌}
use cursor_switch.Common.StringMap.{lookup, insert, delete}
use cursor_switch.Messages.{is_blank}
use cursor_switch.WebFetch.Cache.{
  WebFetchCache, new_web_fetch_cache, remove_elem, find_elem, move_to_front, back, evict_found,
  evict_locked, get_entry, get_cached, shrink, evict_old, new_entry, push_entry, store_payload,
  put_cached,
}
use cursor_switch.WebFetch.Consistent.{IsGood}
use cursor_switch.WebFetch.Calls.{CacheCall, getting, putting, cache_step, cache_run, new-IsGood}
use cursor_switch.WebFetch.Hits.{get-put}
use cursor_switch.WebFetch.Freshness.{last_put, get-last_put}

-- Six bytes of pages: the page that was not read again goes.
abbrev calls : List CacheCall
calls =
    putting (codes "a") (codes "one") 1
    ∷ putting (codes "b") (codes "two") 2
    ∷ getting (codes "a") 3
    ∷ putting (codes "c") (codes "six") 4
    ∷ []

abbrev small : WebFetchCache
small = cache_run (new_web_fetch_cache 6 10) calls

kept : (get_cached small (codes "a") 5).1 ≡ some (codes "one")
unfolding cache_run cache_step new_web_fetch_cache get_cached get_entry put_cached store_payload
    evict_old new_entry push_entry shrink back evict_locked evict_found remove_elem find_elem
    move_to_front lookup insert delete trim_space ◌==◌
kept = refl

evicted_page : (get_cached small (codes "b") 5).1 ≡ none
unfolding cache_run cache_step new_web_fetch_cache get_cached get_entry put_cached store_payload
    evict_old new_entry push_entry shrink back evict_locked evict_found remove_elem find_elem
    move_to_front lookup insert delete trim_space ◌==◌
evicted_page = refl

new-IsGood_example : IsGood small
new-IsGood_example = new-IsGood 6 10 calls

long_text : is_blank (codes "four") ≡ false
unfolding trim_space
long_text = refl

abbrev empty : WebFetchCache
empty = cache_run (new_web_fetch_cache 6 10) []

get-put_example :
    (get_cached (put_cached empty (codes "d") (codes "four") 7) (codes "d") 17).1
    ≡ some (codes "four")
get-put_example =
    get-put empty (codes "d") (codes "four") 7 17 (new-IsGood 6 10 []) long_text
      (unfold cache_run new_web_fetch_cache in omega arith)
      (unfold cache_run new_web_fetch_cache in omega arith)

get-last_put_example :
    (at_time : ℕ) × (last_put 6 (codes "a") none calls ≡ some (codes "one", at_time))
    × (5 ≤ at_time + 10)
get-last_put_example = get-last_put 6 10 calls (codes "a") (codes "one") 5 kept
