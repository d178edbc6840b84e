-- ===== src/WebFetch/Freshness.antt =====
-- A page that `get` answers is the last that was put, and young enough.
use mathlib.Core.Path.{subst}
use cursor_switch.Common.{
  ℕ, zero, suc, ◌+◌, ◌≤◌, ◌≡◌, refl, ◌∙◌, ap, true, false, not, ◌&&◌, Option, none, some, List, [],
  ◌∷◌, arith, ltb, leb, if◌then◌else◌, length, ◌⊎◌, inl, inr, Bool-cases,
}
use cursor_switch.Common.Text.{Text, ◌==◌ as text_eq}
use cursor_switch.Common.StringMap.{lookup, lookup-insert, lookup-delete}
use cursor_switch.Messages.{is_blank}
use cursor_switch.WebFetch.Cache.{
  WebFetchCacheEntry, WebFetchCache, new_web_fetch_cache, back, evict_found, evict_locked,
  get_entry, get_cached, shrink, evict_old, new_entry, push_entry, store_payload, put_cached,
}
use cursor_switch.WebFetch.Calls.{CacheCall, getting, putting, cache_step, cache_run}

-- The payload and the time of the last `put` of a key that was accepted, after those of `o`.
abbrev pub noted : ℕ → Text → Option (Text × ℕ) → CacheCall → Option (Text × ℕ)
noted max_bytes key o (getting k now) = o
noted max_bytes key o (putting k payload now) =
    if text_eq k key && not (is_blank payload) && leb (length payload) max_bytes
    then some (payload, now)
    else o

abbrev pub last_put : ℕ → Text → Option (Text × ℕ) → List CacheCall → Option (Text × ℕ)
last_put max_bytes key o [] = o
last_put max_bytes key o (call ∷ calls) = last_put max_bytes key (noted max_bytes key o call) calls

-- Each entry is the last that was put for its key.
abbrev IsRecent : WebFetchCache → (Text → Option (Text × ℕ)) → Type 0
IsRecent c f =
    (key : Text) (e : WebFetchCacheEntry)
    → lookup key c.items ≡ some e
    → f key ≡ some (e.payload, e.created_at)

evict-items :
    (c : WebFetchCache) (old : WebFetchCacheEntry) (key : Text) (e : WebFetchCacheEntry)
    → lookup key (evict_locked c old).items ≡ some e
    → lookup key c.items ≡ some e
unfolding evict_found evict_locked
evict-items c old key e h = by_found (lookup old.key c.items) h
  where
    by_found :
        (o : Option WebFetchCacheEntry)
        → lookup key (evict_found c old o).items ≡ some e
        → lookup key c.items ≡ some e
    by_found none h = h
    by_found (some x) h = ground (arith, lookup-delete old.key key c.items)

shrink-items :
    (fuel : ℕ) (c : WebFetchCache) (key : Text) (e : WebFetchCacheEntry)
    → lookup key (shrink fuel c).items ≡ some e
    → lookup key c.items ≡ some e
unfolding shrink
shrink-items zero c key e h = h
shrink-items (suc fuel) c key e h =
    by_back (λ oldest. shrink-items fuel (evict_locked c oldest) key e) (back c.order) h
  where
    by_back :
        ((oldest : WebFetchCacheEntry)
          → lookup key (shrink fuel (evict_locked c oldest)).items ≡ some e
          → lookup key (evict_locked c oldest).items ≡ some e)
        → (o : Option WebFetchCacheEntry)
        → let d : WebFetchCache = elim o [
          | none ↦ c
          | some oldest ↦
              if ltb c.max_bytes c.total_bytes then shrink fuel (evict_locked c oldest) else c
        ] in
          lookup key d.items ≡ some e → lookup key c.items ≡ some e
    by_back smaller none h = h
    by_back smaller (some oldest) h = elim (Bool-cases (ltb c.max_bytes c.total_bytes)) [
      | inr small ↦ rw small at h
      | inl over ↦ evict-items c oldest key e (smaller oldest (rw over at h))
    ]

-- What the calls never change.
abbrev SameLimits : WebFetchCache → WebFetchCache → Type 0
SameLimits c d = (d.max_bytes ≡ c.max_bytes) × (d.ttl ≡ c.ttl)

evict-limits : (c : WebFetchCache) (old : WebFetchCacheEntry) → SameLimits c (evict_locked c old)
unfolding evict_locked evict_found
evict-limits c old = ground arith

shrink-limits : (fuel : ℕ) (c : WebFetchCache) → SameLimits c (shrink fuel c)
unfolding shrink
shrink-limits zero c = (refl, refl)
shrink-limits (suc fuel) c =
    by_back (λ oldest. shrink-limits fuel (evict_locked c oldest)) (back c.order)
  where
    by_back :
        ((oldest : WebFetchCacheEntry)
          → SameLimits (evict_locked c oldest) (shrink fuel (evict_locked c oldest)))
        → (o : Option WebFetchCacheEntry)
        → SameLimits c (elim o [
          | none ↦ c
          | some oldest ↦
              if ltb c.max_bytes c.total_bytes then shrink fuel (evict_locked c oldest) else c
        ])
    by_back smaller none = (refl, refl)
    by_back smaller (some oldest) = elim (Bool-cases (ltb c.max_bytes c.total_bytes)) [
      | inr small ↦ rw small (refl, refl)
      | inl over ↦
          let (max, ttl) = smaller oldest in
          let (max', ttl') = evict-limits c oldest in rw over (max ∙ max', ttl ∙ ttl')
    ]

evict_old-items :
    (c : WebFetchCache) (o : Option WebFetchCacheEntry) (key : Text) (e : WebFetchCacheEntry)
    → lookup key (evict_old c o).items ≡ some e
    → lookup key c.items ≡ some e
unfolding evict_old
evict_old-items c none key e h = h
evict_old-items c (some old) key e h = evict-items c old key e h

evict_old-limits :
    (c : WebFetchCache) (o : Option WebFetchCacheEntry) → SameLimits c (evict_old c o)
unfolding evict_old
evict_old-limits c none = (refl, refl)
evict_old-limits c (some old) = evict-limits c old

push-items :
    (c : WebFetchCache) (key payload k : Text) (now : ℕ) (e : WebFetchCacheEntry)
    → lookup k (push_entry c key payload now).items ≡ some e
    → ((text_eq key k ≡ true) × (payload ≡ e.payload) × (now ≡ e.created_at))
      ⊎ ((text_eq key k ≡ false) × (lookup k c.items ≡ some e))
unfolding push_entry new_entry
push-items c key payload k now e h =
    ground (arith, lookup-insert key k (new_entry c key payload now) c.items)

store-limits :
    (c : WebFetchCache) (key payload : Text) (now : ℕ)
    → SameLimits c (store_payload c key payload now)
unfolding store_payload
store-limits c key payload now =
    let emptied = evict_old c (lookup key c.items) in
    let pushed = push_entry emptied key payload now in
    let (max, ttl) = shrink-limits (length pushed.order) pushed in
    let (max', ttl') = evict_old-limits c (lookup key c.items) in
    (max ∙ unfold push_entry in max', ttl ∙ unfold push_entry in ttl')

store-IsRecent :
    (c : WebFetchCache) (key payload : Text) (now : ℕ) (f : Text → Option (Text × ℕ))
    → IsRecent c f
    → IsRecent
        (store_payload c key payload now)
        (λ k. if text_eq key k then some (payload, now) else f k)
unfolding store_payload
store-IsRecent c key payload now f recent k e h =
    let emptied = evict_old c (lookup key c.items) in
    let pushed = push_entry emptied key payload now in
    elim (push-items emptied key payload k now e
      (shrink-items (length pushed.order) pushed k e h)) [
        | inl (same, payload_same, time_same) ↦ rw (same, payload_same, time_same) refl
        | inr (other, before) ↦
            rw other (recent k e (evict_old-items c (lookup key c.items) k e before))
      ]

step-IsRecent :
    (c : WebFetchCache) (call : CacheCall) (f : Text → Option (Text × ℕ))
    → IsRecent c f
    → IsRecent (cache_step c call) (λ key. noted c.max_bytes key (f key) call)
      × SameLimits c (cache_step c call)
unfolding cache_step get_cached put_cached
step-IsRecent c (getting key now) f recent = by_entry (lookup key c.items)
  where
    by_entry :
        (o : Option WebFetchCacheEntry)
        → IsRecent (get_entry c o now).0 f × SameLimits c (get_entry c o now).0
    by_entry none = unfold get_entry in (recent, (refl, refl))
    by_entry (some entry) =
        unfold get_entry in
        elim (Bool-cases (ltb (entry.created_at + c.ttl) now)) [
          | inl old ↦
              rw old ((λ k e h. recent k e (evict-items c entry k e h)), evict-limits c entry)
          | inr young ↦ rw young (recent, (refl, refl))
        ]
step-IsRecent c (putting key payload now) f recent = elim (Bool-cases (is_blank payload)) [
  | inl blank ↦ rw blank ((λ k e h. ground (arith, recent k e h)), (refl, refl))
  | inr text ↦ elim (Bool-cases (ltb c.max_bytes (length payload))) [
    | inl large ↦ rw (text, large) ((λ k e h. ground (arith, recent k e h)), (refl, refl))
    | inr small ↦
        rw (text, small)
          (
            (λ k e h. ground (arith, store-IsRecent c key payload now f recent k e h)),
            store-limits c key payload now,
          )
  ]
]

run-IsRecent :
    (c : WebFetchCache) (calls : List CacheCall) (f : Text → Option (Text × ℕ))
    → IsRecent c f
    → IsRecent (cache_run c calls) (λ key. last_put c.max_bytes key (f key) calls)
      × SameLimits c (cache_run c calls)
unfolding cache_run
run-IsRecent c [] f recent = (recent, (refl, refl))
run-IsRecent c (call ∷ calls) f recent =
    let next = cache_step c call in
    let (recent', (max, ttl)) = step-IsRecent c call f recent in
    let (recent'', (max', ttl')) =
      run-IsRecent next calls (λ key. noted c.max_bytes key (f key) call) recent' in
    (
      (λ key e h.
          subst
            (λ m.
              last_put m key (noted c.max_bytes key (f key) call) calls
              ≡ some (e.payload, e.created_at))
            max (recent'' key e h)),
      (max' ∙ max, ttl' ∙ ttl),
    )

get-hit :
    (c : WebFetchCache) (key payload : Text) (now : ℕ)
    → (get_cached c key now).1 ≡ some payload
    → (e : WebFetchCacheEntry) × (lookup key c.items ≡ some e)
      × (e.payload ≡ payload)
      × (now ≤ e.created_at + c.ttl)
unfolding get_cached get_entry
get-hit c key payload now h = by_entry (lookup key c.items) refl h
  where
    by_entry :
        (o : Option WebFetchCacheEntry)
        → lookup key c.items ≡ o
        → (get_entry c o now).1 ≡ some payload
        → (e : WebFetchCacheEntry) × (lookup key c.items ≡ some e)
          × (e.payload ≡ payload)
          × (now ≤ e.created_at + c.ttl)
    by_entry none found h = ground arith
    by_entry (some e) found h = (e, found, ground arith, ground arith)

-- A page that `get` answers is the payload of the last `put` for its key that was neither blank nor
-- too large, and that `put` is no older than the time to live, after any calls on a new cache.
pub get-last_put :
    (max_bytes ttl : ℕ) (calls : List CacheCall) (key payload : Text) (now : ℕ)
    → (get_cached (cache_run (new_web_fetch_cache max_bytes ttl) calls) key now).1 ≡ some payload
    → (at_time : ℕ) × (last_put max_bytes key none calls ≡ some (payload, at_time))
      × (now ≤ at_time + ttl)
unfolding new_web_fetch_cache
get-last_put max_bytes ttl calls key payload now h =
    let c = new_web_fetch_cache max_bytes ttl in
    let (recent, (_, same)) = run-IsRecent c calls (λ k. none) (λ k e l. unfold lookup in cc l) in
    let (e, found, same_payload, young) = get-hit (cache_run c calls) key payload now h in
    (
      e.created_at,
      recent key e found ∙ ap (λ p. some (p, e.created_at)) same_payload,
      omega (arith, young, same),
    )
