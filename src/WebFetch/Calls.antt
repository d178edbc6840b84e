-- ===== src/WebFetch/Calls.antt =====
-- Sequences of calls of the cache, and what each leaves.
use cursor_switch.Common.{
  ℕ, ◌+◌, ◌≡◌, refl, ◌∙◌, Option, none, some, List, [], ◌∷◌, arith, ltb, length, inl, inr,
  Bool-cases,
}
use cursor_switch.Common.Text.{Text, text_eq_iff}
use cursor_switch.Common.StringMap.{lookup}
use cursor_switch.Messages.{is_blank}
use cursor_switch.WebFetch.Cache.{
  WebFetchCacheEntry, WebFetchCache, new_web_fetch_cache, remove_elem, move_to_front, get_entry,
  get_cached, evict_old, push_entry, store_payload, put_cached,
}
use cursor_switch.WebFetch.Entries.{
  find, find-remove_elem, sizes-remove_elem, Distinct-remove_elem, find_elem-find,
  IsNew-remove_self,
}
use cursor_switch.WebFetch.Consistent.{
  AllBelow-remove_elem, AllBelow-find, IsConsistent, evicted, evict-IsConsistent, shrink-lem,
  IsGood, find-entry, evict_old-IsConsistent, push-IsConsistent,
}

pub store-IsGood :
    (c : WebFetchCache) (key payload : Text) (now : ℕ)
    → IsConsistent c
    → IsGood (store_payload c key payload now)
unfolding store_payload
store-IsGood c key payload now s =
    let (old, gone, _, _) = evict_old-IsConsistent c key (lookup key c.items) s refl in
    let pushed = push_entry (evict_old c (lookup key c.items)) key payload now in
    let (consistent, bounded) =
      shrink-lem (length pushed.order) pushed (push-IsConsistent _ key payload now old gone)
        (omega arith) in
    record { consistent = consistent; bounded = bounded }

put-IsGood :
    (c : WebFetchCache) (key payload : Text) (now : ℕ)
    → IsGood c
    → IsGood (put_cached c key payload now)
unfolding put_cached
put-IsGood c key payload now g = elim (Bool-cases (is_blank payload)) [
  | inl blank ↦ rw blank g
  | inr text ↦ elim (Bool-cases (ltb c.max_bytes (length payload))) [
    | inl large ↦ rw (text, large) g
    | inr small ↦ rw (text, small) (store-IsGood c key payload now g.consistent)
  ]
]

moved-IsConsistent :
    (c : WebFetchCache) (e : WebFetchCacheEntry)
    → IsConsistent c
    → find e.key c.order ≡ some e
    → IsConsistent (record c { order = e ∷ remove_elem e.elem c.order })
unfolding find
moved-IsConsistent c e s here = record {
  agrees = λ key.
      ground (
        arith,
        s.agrees key,
        find-remove_elem c.order e key s.distinct here,
        text_eq_iff e.key key,
      );
  distinct = (
    find-remove_elem c.order e e.key s.distinct here ∙ ground (arith, text_eq_iff e.key e.key),
    IsNew-remove_self c.order e s.distinct here,
    Distinct-remove_elem e.elem c.order s.distinct,
  );
  made = (
    AllBelow-find c.elems e.key c.order e s.made here,
    AllBelow-remove_elem c.elems e.elem c.order s.made,
  );
  total = omega (arith, s.total, sizes-remove_elem c.order e s.distinct here);
}

move_to_front-found :
    (c : WebFetchCache) (e : WebFetchCacheEntry)
    → IsConsistent c
    → find e.key c.order ≡ some e
    → move_to_front e.elem c.order ≡ e ∷ remove_elem e.elem c.order
unfolding move_to_front
move_to_front-found c e s here = ground (arith, find_elem-find c.order e s.distinct here)

get_entry-IsGood :
    (c : WebFetchCache) (key : Text) (o : Option WebFetchCacheEntry) (now : ℕ)
    → IsGood c
    → lookup key c.items ≡ o
    → IsGood (get_entry c o now).0
unfolding get_entry
get_entry-IsGood c key none now g h = g
get_entry-IsGood c key (some e) now g h =
    let here = find-entry c key e g.consistent h in
    elim (Bool-cases (ltb (e.created_at + c.ttl) now)) [
      | inl old ↦ rw old (record {
        consistent = evict-IsConsistent c e g.consistent here;
        bounded = rw (evicted c e g.consistent here) (omega (arith, g.bounded));
      })
      | inr young ↦
          rw (young, move_to_front-found c e g.consistent here)
            (record { consistent = moved-IsConsistent c e g.consistent here; bounded = g.bounded })
    ]

pub data CacheCall : Type 0 where
  getting : Text → ℕ → CacheCall
  putting : Text → Text → ℕ → CacheCall

unfoldable pub cache_step : WebFetchCache → CacheCall → WebFetchCache
cache_step c (getting key now) = (get_cached c key now).0
cache_step c (putting key payload now) = put_cached c key payload now

unfoldable pub cache_run : WebFetchCache → List CacheCall → WebFetchCache
unfolding cache_step
cache_run c [] = c
cache_run c (call ∷ calls) = cache_run (cache_step c call) calls

pub step-IsGood : (c : WebFetchCache) (call : CacheCall) → IsGood c → IsGood (cache_step c call)
unfolding cache_step get_cached
step-IsGood c (getting key now) g = get_entry-IsGood c key (lookup key c.items) now g refl
step-IsGood c (putting key payload now) g = put-IsGood c key payload now g

pub run-IsGood :
    (c : WebFetchCache) (calls : List CacheCall) → IsGood c → IsGood (cache_run c calls)
unfolding cache_run
run-IsGood c [] g = g
run-IsGood c (call ∷ calls) g = run-IsGood (cache_step c call) calls (step-IsGood c call g)

-- After any calls of `get` and `put` on a new cache, the map and the list hold the same entries, each
-- key and each list element once, the count is the sum of the entries' sizes, and it is at most the
-- bound.
pub new-IsGood :
    (max_bytes ttl : ℕ) (calls : List CacheCall)
    → IsGood (cache_run (new_web_fetch_cache max_bytes ttl) calls)
unfolding new_web_fetch_cache lookup find
new-IsGood max_bytes ttl calls = run-IsGood (new_web_fetch_cache max_bytes ttl) calls (record {
  consistent = record { agrees = λ key. refl; distinct = tt; made = tt; total = refl };
  bounded = omega arith;
})
