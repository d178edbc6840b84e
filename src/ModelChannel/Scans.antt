-- ===== src/ModelChannel/Scans.antt =====
-- The scans that choose one adapter, against the lists of all that match.
use cursor_switch.Common.{
  ℕ, suc, ◌≤◌, ◌<◌, ◌≡◌, refl, ◌⊎◌, inl, inr, Bool, true, false, not, ◌&&◌, Option, none, some,
  List, [], ◌∷◌, ◌++◌, arith, ◌==◌ as nat_eq, if◌then◌else◌, length, length-append, Bool-cases,
}
use cursor_switch.Common.Text.{Text}
use cursor_switch.ModelChannel.Resolve.{
  mem, is_match, exact_index, legacy_scan, legacy_scans, fallback_scan, add_index, add_matching,
  add_legacy,
}

-- The list begins with the index that was chosen; where none was, it has none, or several.
abbrev pub Agrees : Option ℕ → List ℕ → Type 0
Agrees (some index) candidates = (others : List ℕ) × (candidates ≡ index ∷ others)
Agrees none candidates = (candidates ≡ []) ⊎ (2 ≤ length candidates)

-- What a scan has collected when it has not refused, and when it has.
abbrev pub found_list : Option ℕ → List ℕ
found_list none = []
found_list (some index) = index ∷ []

abbrev pub IsScanned : Option (Option ℕ) → List ℕ → Type 0
IsScanned none candidates = 2 ≤ length candidates
IsScanned (some found) candidates = candidates ≡ found_list found

-- What was found lies before the index.
abbrev pub IsBefore : Option ℕ → ℕ → Type 0
IsBefore none index = Unit {0}
IsBefore (some first) index = first < index

-- What the scan for an exact id has seen.
abbrev pub IsFirst : Option ℕ → List ℕ → Type 0
IsFirst none candidates = candidates ≡ []
IsFirst (some first) candidates = Agrees (some first) candidates

pub add_index-le :
    (index : ℕ) (candidates : List ℕ) → length candidates ≤ length (add_index index candidates)
unfolding add_index
add_index-le index candidates = ground (arith, length-append candidates (index ∷ []))

pub add_second :
    (index other : ℕ) → nat_eq other index ≡ false → length (add_index index (other ∷ [])) ≡ 2
unfolding add_index
add_second index other h = ground arith

pub add_same :
    (index other : ℕ) → nat_eq other index ≡ true → add_index index (other ∷ []) ≡ other ∷ []
unfolding add_index
add_same index other h = ground arith

pub add_index_head :
    (index first : ℕ) (others : List ℕ) → Agrees (some first) (add_index index (first ∷ others))
unfolding add_index
add_index_head index first others = elim (Bool-cases (mem index (first ∷ others))) [
  | inl held ↦ rw held (others, refl)
  | inr fresh ↦ rw fresh (others ++ index ∷ [], refl)
]

module _ {T : Type 0} where
  pub add_matching-le :
      (target : Text) (key : T → Text) (index : ℕ) (adapters : List T) (candidates : List ℕ)
      → length candidates ≤ length (add_matching target key index adapters candidates)
  unfolding add_matching
  add_matching-le target key index [] candidates = omega arith
  add_matching-le target key index (adapter ∷ adapters) candidates = ground (
    arith,
    add_matching-le target key (suc index) adapters candidates,
    add_matching-le target key (suc index) adapters (add_index index candidates),
    add_index-le index candidates,
  )

  pub add_legacy-le :
      (target : Text) (keys : List (Option (T → Text))) (adapters : List T) (candidates : List ℕ)
      → length candidates ≤ length (add_legacy target keys adapters candidates)
  unfolding add_legacy
  add_legacy-le target [] adapters candidates = omega arith
  add_legacy-le target (none ∷ keys) adapters candidates =
      add_legacy-le target keys adapters candidates
  add_legacy-le target (some key ∷ keys) adapters candidates = omega (
    arith,
    add_matching-le target key 0 adapters candidates,
    add_legacy-le target keys adapters (add_matching target key 0 adapters candidates),
  )

  -- What is in front stays in front.
  pub add_matching_head :
      (target : Text) (key : T → Text) (index : ℕ) (adapters : List T) (first : ℕ) (others : List ℕ)
      → Agrees (some first) (add_matching target key index adapters (first ∷ others))
  unfolding add_matching
  add_matching_head target key index [] first others = (others, refl)
  add_matching_head target key index (adapter ∷ adapters) first others =
      elim (Bool-cases (is_match target key adapter)) [
        | inl matches ↦
            let (more, same) = add_index_head index first others in
            rw (matches, same) (add_matching_head target key (suc index) adapters first more)
        | inr other ↦ rw other (add_matching_head target key (suc index) adapters first others)
      ]

  pub add_legacy_head :
      (target : Text) (keys : List (Option (T → Text))) (adapters : List T) (first : ℕ)
      (others : List ℕ)
      → Agrees (some first) (add_legacy target keys adapters (first ∷ others))
  unfolding add_legacy
  add_legacy_head target [] adapters first others = (others, refl)
  add_legacy_head target (none ∷ keys) adapters first others =
      add_legacy_head target keys adapters first others
  add_legacy_head target (some key ∷ keys) adapters first others =
      let (more, same) = add_matching_head target key 0 adapters first others in
      rw same (add_legacy_head target keys adapters first more)

  pub legacy_scan-IsScanned :
      (target : Text) (key : T → Text) (index : ℕ) (adapters : List T) (found : Option ℕ)
      → IsScanned
          (legacy_scan target key index adapters found)
          (add_matching target key index adapters (found_list found))
  unfolding legacy_scan add_matching add_index
  legacy_scan-IsScanned target key index [] found = refl
  legacy_scan-IsScanned target key index (adapter ∷ adapters) none =
      elim (Bool-cases (is_match target key adapter)) [
        | inl matches ↦
            rw matches (legacy_scan-IsScanned target key (suc index) adapters (some index))
        | inr other ↦ rw other (legacy_scan-IsScanned target key (suc index) adapters none)
      ]
  legacy_scan-IsScanned target key index (adapter ∷ adapters) (some first) =
      by_match (is_match target key adapter) (nat_eq first index) refl
        (legacy_scan-IsScanned target key (suc index) adapters (some first))
    where
      by_match :
          (matches same : Bool)
          → nat_eq first index ≡ same
          → IsScanned
              (legacy_scan target key (suc index) adapters (some first))
              (add_matching target key (suc index) adapters (first ∷ []))
          → IsScanned
              (if matches && not same
                then none
                else legacy_scan target key (suc index) adapters (some first))
              (add_matching target key
                (suc index)
                adapters
                (if matches then add_index index (first ∷ []) else first ∷ []))
      by_match false same e go = go
      by_match true true e go = rw (add_same index first e) go
      by_match true false e go = omega (
        arith,
        add_second index first e,
        add_matching-le target key (suc index) adapters (add_index index (first ∷ [])),
      )

  pub legacy_scans-IsScanned :
      (target : Text) (keys : List (Option (T → Text))) (adapters : List T) (found : Option ℕ)
      → IsScanned
          (legacy_scans target keys adapters found)
          (add_legacy target keys adapters (found_list found))
  unfolding legacy_scans add_legacy
  legacy_scans-IsScanned target [] adapters found = refl
  legacy_scans-IsScanned target (none ∷ keys) adapters found =
      legacy_scans-IsScanned target keys adapters found
  legacy_scans-IsScanned target (some key ∷ keys) adapters found =
      by_scan (legacy_scan target key 0 adapters found)
        (legacy_scan-IsScanned target key 0 adapters found)
        (legacy_scans-IsScanned target keys adapters)
    where
      by_scan :
          (scanned : Option (Option ℕ))
          → IsScanned scanned (add_matching target key 0 adapters (found_list found))
          → ((now_found : Option ℕ)
              → IsScanned
                  (legacy_scans target keys adapters now_found)
                  (add_legacy target keys adapters (found_list now_found)))
          → IsScanned
              (elim scanned [
                | none ↦ none
                | some now_found ↦ legacy_scans target keys adapters now_found
              ])
              (add_legacy target keys adapters
                (add_matching target key 0 adapters (found_list found)))
      by_scan none several go = omega (
        arith,
        add_legacy-le target keys adapters (add_matching target key 0 adapters (found_list found)),
      )
      by_scan (some now_found) same go = rw same (go now_found)

  pub fallback_scan-IsScanned :
      (target : Text) (key : T → Text) (index : ℕ) (adapters : List T) (found : Option ℕ)
      → IsBefore found index
      → IsScanned
          (fallback_scan target key index adapters found)
          (add_matching target key index adapters (found_list found))
  unfolding fallback_scan add_matching add_index
  fallback_scan-IsScanned target key index [] found before = refl
  fallback_scan-IsScanned target key index (adapter ∷ adapters) none before =
      elim (Bool-cases (is_match target key adapter)) [
        | inl matches ↦
            rw matches
              (fallback_scan-IsScanned target key (suc index) adapters (some index) (omega arith))
        | inr other ↦ rw other (fallback_scan-IsScanned target key (suc index) adapters none tt)
      ]
  fallback_scan-IsScanned target key index (adapter ∷ adapters) (some first) before =
      by_match (is_match target key adapter)
        (fallback_scan-IsScanned target key (suc index) adapters (some first) (omega arith))
    where
      by_match :
          (matches : Bool)
          → IsScanned
              (fallback_scan target key (suc index) adapters (some first))
              (add_matching target key (suc index) adapters (first ∷ []))
          → IsScanned
              (if matches then none else fallback_scan target key (suc index) adapters (some first))
              (add_matching target key
                (suc index)
                adapters
                (if matches then add_index index (first ∷ []) else first ∷ []))
      by_match false go = go
      by_match true go = omega (
        arith,
        add_second index first (ground arith),
        add_matching-le target key (suc index) adapters (add_index index (first ∷ [])),
      )

  pub exact_index-IsFirst :
      (target : Text) (key : T → Text) (index : ℕ) (adapters : List T)
      → IsFirst (exact_index target key index adapters) (add_matching target key index adapters [])
  unfolding exact_index add_matching add_index
  exact_index-IsFirst target key index [] = refl
  exact_index-IsFirst target key index (adapter ∷ adapters) =
      elim (Bool-cases (is_match target key adapter)) [
        | inl matches ↦ rw matches (add_matching_head target key (suc index) adapters index [])
        | inr other ↦ rw other (exact_index-IsFirst target key (suc index) adapters)
      ]
