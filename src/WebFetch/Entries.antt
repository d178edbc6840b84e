-- ===== src/WebFetch/Entries.antt =====
-- The entries in the list, each with its own key and its own element.
use cursor_switch.Common.{
  ℕ, ◌+◌, ◌≡◌, ◌≢◌, refl, Option, none, some, List, [], ◌∷◌, arith, ◌==◌, if◌then◌else◌, length,
  inl, inr, Bool-cases,
}
use cursor_switch.Common.Text.{Text, ◌==◌ as text_eq, text_eq_iff}
use cursor_switch.WebFetch.Cache.{WebFetchCacheEntry, remove_elem, find_elem, back}

unfoldable pub find : Text → List WebFetchCacheEntry → Option WebFetchCacheEntry
find key [] = none
find key (e ∷ es) = if text_eq e.key key then some e else find key es

abbrev pub sizes : List WebFetchCacheEntry → ℕ
sizes [] = 0
sizes (e ∷ es) = e.size + sizes es

-- No entry is the element n.
abbrev pub IsNew : ℕ → List WebFetchCacheEntry → Type 0
IsNew n [] = Unit
IsNew n (e ∷ es) = (e.elem ≢ n) × IsNew n es

abbrev pub Distinct : List WebFetchCacheEntry → Type 0
Distinct [] = Unit
Distinct (e ∷ es) = (find e.key es ≡ none) × IsNew e.elem es × Distinct es

pub find-IsNew :
    (key : Text) (n : ℕ) (es : List WebFetchCacheEntry) (e : WebFetchCacheEntry)
    → IsNew n es
    → find key es ≡ some e
    → e.elem ≢ n
unfolding find
find-IsNew key n [] e new h = λ _. ground arith
find-IsNew key n (x ∷ es) e new h = ground (arith, find-IsNew key n es e new.1)

pub find-key :
    (key : Text) (es : List WebFetchCacheEntry) (e : WebFetchCacheEntry)
    → find key es ≡ some e
    → e.key ≡ key
unfolding find
find-key key [] e h = ground arith
find-key key (x ∷ es) e h = ground (arith, find-key key es e, text_eq_iff x.key key)

pub find-remove_elem :
    (es : List WebFetchCacheEntry) (e : WebFetchCacheEntry) (key : Text)
    → Distinct es
    → find e.key es ≡ some e
    → find key (remove_elem e.elem es) ≡ (if text_eq e.key key then none else find key es)
unfolding find remove_elem
find-remove_elem [] e key d h = ground arith
find-remove_elem (x ∷ es) e key d h = ground (
  arith,
  find-remove_elem es e key d.2,
  find-IsNew e.key x.elem es e d.1,
  text_eq_iff x.key e.key,
  text_eq_iff x.key key,
  text_eq_iff e.key key,
)

pub sizes-remove_elem :
    (es : List WebFetchCacheEntry) (e : WebFetchCacheEntry)
    → Distinct es
    → find e.key es ≡ some e
    → sizes (remove_elem e.elem es) + e.size ≡ sizes es
unfolding find remove_elem
sizes-remove_elem [] e d h = ground arith
sizes-remove_elem (x ∷ es) e d h =
    ground (arith, sizes-remove_elem es e d.2, find-IsNew e.key x.elem es e d.1)

pub length-remove_elem :
    (es : List WebFetchCacheEntry) (e : WebFetchCacheEntry)
    → Distinct es
    → find e.key es ≡ some e
    → length (remove_elem e.elem es) + 1 ≡ length es
unfolding find remove_elem
length-remove_elem [] e d h = ground arith
length-remove_elem (x ∷ es) e d h =
    ground (arith, length-remove_elem es e d.2, find-IsNew e.key x.elem es e d.1)

pub IsNew-remove_elem :
    (n m : ℕ) (es : List WebFetchCacheEntry) → IsNew n es → IsNew n (remove_elem m es)
unfolding remove_elem
IsNew-remove_elem n m [] new = tt
IsNew-remove_elem n m (x ∷ es) new = elim (Bool-cases (x.elem == m)) [
  | inl here ↦ rw here new.1
  | inr later ↦ rw later (new.0, IsNew-remove_elem n m es new.1)
]

find-remove_none :
    (key : Text) (n : ℕ) (es : List WebFetchCacheEntry)
    → find key es ≡ none
    → find key (remove_elem n es) ≡ none
unfolding find remove_elem
find-remove_none key n [] h = refl
find-remove_none key n (x ∷ es) h = ground (arith, find-remove_none key n es)

pub Distinct-remove_elem :
    (n : ℕ) (es : List WebFetchCacheEntry) → Distinct es → Distinct (remove_elem n es)
unfolding remove_elem
Distinct-remove_elem n [] d = tt
Distinct-remove_elem n (x ∷ es) d = elim (Bool-cases (x.elem == n)) [
  | inl here ↦ rw here d.2
  | inr later ↦ rw later (
    find-remove_none x.key n es d.0,
    IsNew-remove_elem x.elem n es d.1,
    Distinct-remove_elem n es d.2,
  )
]

-- The element of an entry leads back to it.
pub find_elem-find :
    (es : List WebFetchCacheEntry) (e : WebFetchCacheEntry)
    → Distinct es
    → find e.key es ≡ some e
    → find_elem e.elem es ≡ some e
unfolding find find_elem
find_elem-find [] e d h = ground arith
find_elem-find (x ∷ es) e d h =
    ground (arith, find_elem-find es e d.2, find-IsNew e.key x.elem es e d.1)

pub IsNew-remove_self :
    (es : List WebFetchCacheEntry) (e : WebFetchCacheEntry)
    → Distinct es
    → find e.key es ≡ some e
    → IsNew e.elem (remove_elem e.elem es)
unfolding find remove_elem
IsNew-remove_self [] e d h = tt
IsNew-remove_self (x ∷ es) e d h = elim (Bool-cases (x.elem == e.elem)) [
  | inl here ↦ rw here (ground (arith, find-IsNew e.key x.elem es e d.1))
  | inr later ↦ rw later (ground arith, IsNew-remove_self es e d.2 (ground arith))
]

pub back-find :
    (es : List WebFetchCacheEntry) (e : WebFetchCacheEntry)
    → Distinct es
    → back es ≡ some e
    → find e.key es ≡ some e
unfolding back find
back-find [] e d h = ground arith
back-find (x ∷ []) e d h = ground (arith, text_eq_iff x.key x.key)
back-find (x ∷ y ∷ es) e d h =
    ground (arith, back-find (y ∷ es) e d.2 h, text_eq_iff x.key e.key, find-key x.key (y ∷ es) e)
