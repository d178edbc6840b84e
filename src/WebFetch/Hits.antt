-- ===== src/WebFetch/Hits.antt =====
-- What `get` answers.
use mathlib.Core.Path.{subst}
use cursor_switch.Common.{
  ℕ, zero, suc, ◌+◌, ◌≤◌, ◌<◌, ◌≡◌, ◌≢◌, refl, ◌∙◌, ap, false, Option, none, some, List, [], ◌∷◌,
  arith, ltb, if◌then◌else◌, length, inl, inr, Bool-cases,
}
use cursor_switch.Common.Text.{Text, text_eq_iff}
use cursor_switch.Common.StringMap.{lookup}
use cursor_switch.Messages.{is_blank}
use cursor_switch.WebFetch.Cache.{
  WebFetchCacheEntry, WebFetchCache, remove_elem, back, evict_locked, get_entry, get_cached, shrink,
  evict_old, new_entry, push_entry, store_payload, put_cached,
}
use cursor_switch.WebFetch.Entries.{find, sizes, Distinct, back-find, find-IsNew}
use cursor_switch.WebFetch.Consistent.{
  IsConsistent, evicted, evict-IsConsistent, IsGood, evict_old-IsConsistent, push-IsConsistent,
}
use cursor_switch.WebFetch.Calls.{store-IsGood}

-- The loop of `put` keeps the entry in front.
abbrev Keeps : WebFetchCacheEntry → WebFetchCache → WebFetchCache → Type 0
Keeps e c d = (rest : List WebFetchCacheEntry) × (d.order ≡ e ∷ rest) × (d.ttl ≡ c.ttl)

back-apart :
    (e oldest : WebFetchCacheEntry) (rest : List WebFetchCacheEntry)
    → Distinct (e ∷ rest)
    → e.size < sizes (e ∷ rest)
    → back (e ∷ rest) ≡ some oldest
    → e.elem ≢ oldest.elem
unfolding back
back-apart e oldest [] d more h = absurd (omega arith)
back-apart e oldest (y ∷ ys) d more h =
    ground
      (arith, find-IsNew oldest.key e.elem (y ∷ ys) oldest d.1 (back-find (y ∷ ys) oldest d.2 h))

evict-Keeps :
    (c : WebFetchCache) (e oldest : WebFetchCacheEntry) (rest : List WebFetchCacheEntry)
    → IsConsistent c
    → c.order ≡ e ∷ rest
    → e.size < c.total_bytes
    → back c.order ≡ some oldest
    → ((evict_locked c oldest).order ≡ e ∷ remove_elem oldest.elem rest)
      × ((evict_locked c oldest).ttl ≡ c.ttl)
      × ((evict_locked c oldest).max_bytes ≡ c.max_bytes)
unfolding remove_elem
evict-Keeps c e oldest rest s front over last =
    let here = back-find c.order oldest s.distinct last in
    let apart =
      back-apart e oldest rest (subst Distinct front s.distinct)
        (omega (arith, s.total, ap sizes front)) (rw (← front) last) in
    (
      rw (evicted c oldest s here, front) (ground arith),
      rw (evicted c oldest s here) refl,
      rw (evicted c oldest s here) refl,
    )

shrink-Keeps :
    (fuel : ℕ) (c : WebFetchCache) (e : WebFetchCacheEntry) (rest : List WebFetchCacheEntry)
    → IsConsistent c
    → c.order ≡ e ∷ rest
    → e.size ≤ c.max_bytes
    → Keeps e c (shrink fuel c)
unfolding shrink
shrink-Keeps zero c e rest s front fits = (rest, front, refl)
shrink-Keeps (suc fuel) c e rest s front fits =
    by_back (λ oldest. shrink-Keeps fuel (evict_locked c oldest) e) (back c.order) refl
  where
    by_back :
        ((oldest : WebFetchCacheEntry) (rest' : List WebFetchCacheEntry)
          → IsConsistent (evict_locked c oldest)
          → (evict_locked c oldest).order ≡ e ∷ rest'
          → e.size ≤ (evict_locked c oldest).max_bytes
          → Keeps e (evict_locked c oldest) (shrink fuel (evict_locked c oldest)))
        → (o : Option WebFetchCacheEntry) → back c.order ≡ o
        → Keeps e c (elim o [
          | none ↦ c
          | some oldest ↦
              if ltb c.max_bytes c.total_bytes then shrink fuel (evict_locked c oldest) else c
        ])
    by_back smaller none h = (rest, front, refl)
    by_back smaller (some oldest) h = elim (Bool-cases (ltb c.max_bytes c.total_bytes)) [
      | inr small ↦ rw small (rest, front, refl)
      | inl over ↦
          let here = back-find c.order oldest s.distinct h in
          let (kept, ttl, max) = evict-Keeps c e oldest rest s front (ground arith) h in
          let (rest', front', ttl') =
            smaller oldest (remove_elem oldest.elem rest) (evict-IsConsistent c oldest s here) kept
              (rw max fits) in
          rw over (rest', front', ttl' ∙ ttl)
    ]

store-Keeps :
    (c : WebFetchCache) (key payload : Text) (now : ℕ)
    → IsConsistent c
    → length payload ≤ c.max_bytes
    → (e : WebFetchCacheEntry) × (e.key ≡ key)
      × (e.payload ≡ payload)
      × (e.created_at ≡ now)
      × Keeps e c (store_payload c key payload now)
unfolding store_payload
store-Keeps c key payload now s fits =
    let (old, gone, max, ttl) = evict_old-IsConsistent c key (lookup key c.items) s refl in
    let emptied = evict_old c (lookup key c.items) in
    let pushed = push_entry emptied key payload now in
    let e = new_entry emptied key payload now in
    let (rest, front, same) =
      shrink-Keeps (length pushed.order) pushed e emptied.order
        (push-IsConsistent emptied key payload now old gone) (unfold push_entry in refl)
        (unfold push_entry new_entry in rw max fits) in
    unfold new_entry in (e, refl, refl, refl, (rest, front, same ∙ unfold push_entry in ttl))

find-front :
    (key : Text) (e : WebFetchCacheEntry) (rest : List WebFetchCacheEntry)
    → e.key ≡ key
    → find key (e ∷ rest) ≡ some e
unfolding find
find-front key e rest same = ground (arith, text_eq_iff e.key key)

hit :
    (d : WebFetchCache) (key : Text) (now : ℕ) (e : WebFetchCacheEntry)
    → lookup key d.items ≡ some e
    → now ≤ e.created_at + d.ttl
    → (get_cached d key now).1 ≡ some e.payload
unfolding get_cached get_entry
hit d key now e found young = rw found (ground arith)

-- A page that `put` accepts is found: on a cache whose parts agree, a payload that is not blank and
-- that fits is answered by `get` for its key until the time to live is over, whatever else had to be
-- evicted for it.
pub get-put :
    (c : WebFetchCache) (key payload : Text) (now later : ℕ)
    → IsGood c
    → is_blank payload ≡ false
    → length payload ≤ c.max_bytes
    → later ≤ now + c.ttl
    → (get_cached (put_cached c key payload now) key later).1 ≡ some payload
unfolding put_cached
get-put c key payload now later g text fits soon =
    let d = store_payload c key payload now in
    let (e, same_key, same_payload, same_time, (rest, front, ttl)) =
      store-Keeps c key payload now g.consistent fits in
    let found : lookup key d.items ≡ some e =
      (store-IsGood c key payload now g.consistent).consistent.agrees key
      ∙ ap (find key) front
      ∙ find-front key e rest same_key in
    let fits_test : ltb c.max_bytes (length payload) ≡ false = ground arith in
    rw (text, fits_test)
      (hit d key later e found (omega (arith, soon, same_time, ttl)) ∙ ap some same_payload)
