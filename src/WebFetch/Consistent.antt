-- ===== src/WebFetch/Consistent.antt =====
-- The map, the list and the byte count of the cache agree, and the count stays within its bound.
use cursor_switch.Common.{
  ℕ, zero, suc, ◌+◌, ◌-◌, ◌≤◌, ◌<◌, ◌≡◌, refl, ◌∙◌, sym, ap, Option, none, some, List, [], ◌∷◌,
  arith, ltb, ◌==◌, if◌then◌else◌, length, inl, inr, Bool-cases,
}
use cursor_switch.Common.Text.{Text, text_eq_iff}
use cursor_switch.Common.StringMap.{lookup, delete, lookup-insert, lookup-delete}
use cursor_switch.WebFetch.Cache.{
  WebFetchCacheEntry, WebFetchCache, remove_elem, back, evict_found, evict_locked, shrink,
  evict_old, new_entry, push_entry,
}
use cursor_switch.WebFetch.Entries.{
  find, sizes, IsNew, Distinct, find-remove_elem, sizes-remove_elem, length-remove_elem,
  Distinct-remove_elem, back-find, find-key,
}

-- The elements of the list were made.
abbrev pub AllBelow : ℕ → List WebFetchCacheEntry → Type 0
AllBelow n [] = Unit
AllBelow n (e ∷ es) = (e.elem < n) × AllBelow n es

pub AllBelow-remove_elem :
    (n m : ℕ) (es : List WebFetchCacheEntry) → AllBelow n es → AllBelow n (remove_elem m es)
unfolding remove_elem
AllBelow-remove_elem n m [] all = tt
AllBelow-remove_elem n m (x ∷ es) all = elim (Bool-cases (x.elem == m)) [
  | inl here ↦ rw here all.1
  | inr later ↦ rw later (all.0, AllBelow-remove_elem n m es all.1)
]

AllBelow-suc : (n : ℕ) (es : List WebFetchCacheEntry) → AllBelow n es → AllBelow (n + 1) es
AllBelow-suc n [] all = tt
AllBelow-suc n (x ∷ es) all = (omega arith, AllBelow-suc n es all.1)

AllBelow-IsNew : (n : ℕ) (es : List WebFetchCacheEntry) → AllBelow n es → IsNew n es
AllBelow-IsNew n [] all = tt
AllBelow-IsNew n (x ∷ es) all = (ground arith, AllBelow-IsNew n es all.1)

pub AllBelow-find :
    (n : ℕ) (key : Text) (es : List WebFetchCacheEntry) (e : WebFetchCacheEntry)
    → AllBelow n es
    → find key es ≡ some e
    → e.elem < n
unfolding find
AllBelow-find n key [] e all h = ground arith
AllBelow-find n key (x ∷ es) e all h = ground (arith, AllBelow-find n key es e all.1)

pub record IsConsistent (c : WebFetchCache) : Type 0 where
  pub agrees : (key : Text) → lookup key c.items ≡ find key c.order
  pub distinct : Distinct c.order
  pub made : AllBelow c.elems c.order
  pub total : c.total_bytes ≡ sizes c.order

module _ (c : WebFetchCache) (e : WebFetchCacheEntry) (s : IsConsistent c)
    (here : find e.key c.order ≡ some e) where
  pub evicted : evict_locked c e ≡ record c {
    items = delete e.key c.items;
    order = remove_elem e.elem c.order;
    total_bytes = c.total_bytes - e.size;
  }
  unfolding evict_locked evict_found
  evicted = ap (evict_found c e) (s.agrees e.key ∙ here)

  pub evict-IsConsistent : IsConsistent (evict_locked c e)
  evict-IsConsistent = rw evicted (record {
    agrees = λ key. ground (
      arith,
      s.agrees key,
      lookup-delete e.key key c.items,
      find-remove_elem c.order e key s.distinct here,
    );
    distinct = Distinct-remove_elem e.elem c.order s.distinct;
    made = AllBelow-remove_elem c.elems e.elem c.order s.made;
    total = omega (arith, s.total, sizes-remove_elem c.order e s.distinct here);
  })

pub back-none : (es : List WebFetchCacheEntry) → back es ≡ none → es ≡ []
unfolding back
back-none [] h = refl
back-none (x ∷ []) h = ground arith
back-none (x ∷ y ∷ es) h = absurd (cc (back-none (y ∷ es) h))

pub shrink-lem :
    (fuel : ℕ) (c : WebFetchCache)
    → IsConsistent c
    → length c.order ≤ fuel
    → IsConsistent (shrink fuel c) × ((shrink fuel c).total_bytes ≤ (shrink fuel c).max_bytes)
unfolding shrink
shrink-lem zero c s enough =
    let empty : sizes c.order ≡ 0 = none_left c.order enough in (s, omega (arith, s.total, empty))
  where
    none_left : (es : List WebFetchCacheEntry) → length es ≤ 0 → sizes es ≡ 0
    none_left [] h = refl
    none_left (x ∷ es) h = absurd (omega arith)
shrink-lem (suc fuel) c s enough =
    by_back (λ oldest. shrink-lem fuel (evict_locked c oldest)) (back c.order) refl
  where
    by_back :
        ((oldest : WebFetchCacheEntry)
          → IsConsistent (evict_locked c oldest)
          → length (evict_locked c oldest).order ≤ fuel
          → let d = shrink fuel (evict_locked c oldest) in
            IsConsistent d × (d.total_bytes ≤ d.max_bytes))
        → (o : Option WebFetchCacheEntry) → back c.order ≡ o
        → let result : WebFetchCache = elim o [
          | none ↦ c
          | some oldest ↦
              if ltb c.max_bytes c.total_bytes then shrink fuel (evict_locked c oldest) else c
        ] in
          IsConsistent result × (result.total_bytes ≤ result.max_bytes)
    by_back smaller none h =
        let empty : sizes c.order ≡ 0 = ap sizes (back-none c.order h) in
        (s, omega (arith, s.total, empty))
    by_back smaller (some oldest) h = elim (Bool-cases (ltb c.max_bytes c.total_bytes)) [
      | inr fits ↦ rw fits (s, ground arith)
      | inl over ↦
          let here = back-find c.order oldest s.distinct h in
          let shorter : length (evict_locked c oldest).order ≤ fuel =
            rw (evicted c oldest s here)
              (omega (arith, length-remove_elem c.order oldest s.distinct here)) in
          rw over (smaller oldest (evict-IsConsistent c oldest s here) shorter)
    ]

-- What each operation leaves: the parts agree, and the bytes are within the bound.
pub record IsGood (c : WebFetchCache) : Type 0 where
  pub consistent : IsConsistent c
  pub bounded : c.total_bytes ≤ c.max_bytes

pub find-entry :
    (c : WebFetchCache) (key : Text) (e : WebFetchCacheEntry)
    → IsConsistent c
    → lookup key c.items ≡ some e
    → find e.key c.order ≡ some e
find-entry c key e s h =
    let found : find key c.order ≡ some e = sym (s.agrees key) ∙ h in
    ap (λ k. find k c.order) (find-key key c.order e found) ∙ found

pub evict_old-IsConsistent :
    (c : WebFetchCache) (key : Text) (o : Option WebFetchCacheEntry)
    → IsConsistent c
    → lookup key c.items ≡ o
    → IsConsistent (evict_old c o)
      × (lookup key (evict_old c o).items ≡ none)
      × ((evict_old c o).max_bytes ≡ c.max_bytes)
      × ((evict_old c o).ttl ≡ c.ttl)
unfolding evict_old
evict_old-IsConsistent c key none s h = (s, h, refl, refl)
evict_old-IsConsistent c key (some e) s h =
    let here = find-entry c key e s h in
    let same : e.key ≡ key = find-key key c.order e (sym (s.agrees key) ∙ h) in
    (
      evict-IsConsistent c e s here,
      rw (evicted c e s here)
          (ground (arith, lookup-delete e.key key c.items, text_eq_iff e.key key)),
      rw (evicted c e s here) refl,
      rw (evicted c e s here) refl,
    )

pub push-IsConsistent :
    (c : WebFetchCache) (key payload : Text) (now : ℕ)
    → IsConsistent c
    → lookup key c.items ≡ none
    → IsConsistent (push_entry c key payload now)
unfolding push_entry new_entry find
push-IsConsistent c key payload now s gone = record {
  agrees =
      λ k. ground (arith, s.agrees k, lookup-insert key k (new_entry c key payload now) c.items);
  distinct = (sym (s.agrees key) ∙ gone, AllBelow-IsNew c.elems c.order s.made, s.distinct);
  made = (omega arith, AllBelow-suc c.elems c.order s.made);
  total = omega (arith, s.total);
}
