-- ===== src/ModelChannel/Candidates.antt =====
-- Which adapters are candidates, and in which order.
use mathlib.Core.List.{append-nil, append_assoc}
use cursor_switch.Common.{
  ℕ, zero, suc, ◌-◌, ◌≡◌, refl, sym, ap, ◌∙◌, inl, inr, Bool, true, false, not, ◌&&◌, ◌||◌, Option,
  none, some, List, [], ◌∷◌, ◌++◌, arith, ◌==◌ as nat_eq, if◌then◌else◌, Bool-cases, ltb,
}
use cursor_switch.Common.Text.{Text}
use cursor_switch.Messages.{is_empty}
use cursor_switch.ModelChannel.Resolve.{
  mem, target_model_ref, is_match, add_index, add_matching, add_legacy, indexes_of_target,
  resolve_adapter_indexes,
}

-- No index stands twice.
abbrev pub is_distinct : List ℕ → Bool
is_distinct [] = true
is_distinct (i ∷ is) = not (mem i is) && is_distinct is

mem-append : (i : ℕ) (is js : List ℕ) → mem i (is ++ js) ≡ (mem i is || mem i js)
mem-append i [] js = refl
mem-append i (k ∷ is) js = ground (arith, mem-append i is js)

is_distinct-append :
    (is : List ℕ) (j : ℕ) → is_distinct (is ++ j ∷ []) ≡ (is_distinct is && not (mem j is))
is_distinct-append [] j = refl
is_distinct-append (i ∷ is) j = ground (arith, is_distinct-append is j, mem-append i is (j ∷ []))

mem_same : (i index : ℕ) → nat_eq i index ≡ true → i ≡ index
mem_same i index h = ground arith

mem-add_index :
    (i index : ℕ) (candidates : List ℕ)
    → mem i (add_index index candidates) ≡ (mem i candidates || nat_eq i index)
unfolding add_index
mem-add_index i index candidates = elim (Bool-cases (mem index candidates)) [
  | inl held ↦ ground (arith, mem_same i index)
  | inr fresh ↦ ground (arith, mem-append i candidates (index ∷ []))
]

is_distinct-add_index :
    (index : ℕ) (candidates : List ℕ)
    → is_distinct candidates ≡ true
    → is_distinct (add_index index candidates) ≡ true
unfolding add_index
is_distinct-add_index index candidates h = ground (arith, is_distinct-append candidates index)

-- What is added comes behind.
abbrev pub Extends : List ℕ → List ℕ → Type 0
Extends before after = (rest : List ℕ) × (after ≡ before ++ rest)

Extends-trans : (a b c : List ℕ) → Extends a b → Extends b c → Extends a c
Extends-trans a b c (r, e) (s, f) = (r ++ s, f ∙ ap (λ l. l ++ s) e ∙ append_assoc a r s)

add_index-Extends :
    (index : ℕ) (candidates : List ℕ) → Extends candidates (add_index index candidates)
unfolding add_index
add_index-Extends index candidates = by_held (mem index candidates)
  where
    by_held :
        (held : Bool) → Extends candidates (if held then candidates else candidates ++ index ∷ [])
    by_held true = ([], sym (append-nil candidates))
    by_held false = (index ∷ [], refl)

module _ {T : Type 0} where
  abbrev pub get_elem? : List T → ℕ → Option T
  get_elem? [] i = none
  get_elem? (a ∷ adapters) zero = some a
  get_elem? (a ∷ adapters) (suc i) = get_elem? adapters i

  -- The adapter at the index matches by this function.
  abbrev pub is_match_at : Text → (T → Text) → List T → ℕ → Bool
  is_match_at target key adapters i = elim (get_elem? adapters i) [
    | none ↦ false
    | some adapter ↦ is_match target key adapter
  ]

  abbrev pub is_legacy_match_at : Text → List (Option (T → Text)) → List T → ℕ → Bool
  is_legacy_match_at target [] adapters i = false
  is_legacy_match_at target (none ∷ keys) adapters i = is_legacy_match_at target keys adapters i
  is_legacy_match_at target (some key ∷ keys) adapters i =
      is_match_at target key adapters i || is_legacy_match_at target keys adapters i

  is_distinct-add_matching :
      (target : Text) (key : T → Text) (index : ℕ) (adapters : List T) (candidates : List ℕ)
      → is_distinct candidates ≡ true
      → is_distinct (add_matching target key index adapters candidates) ≡ true
  unfolding add_matching
  is_distinct-add_matching target key index [] candidates h = h
  is_distinct-add_matching target key index (adapter ∷ adapters) candidates h =
      elim (Bool-cases (is_match target key adapter)) [
        | inl matches ↦ rw matches (
            is_distinct-add_matching target key (suc index) adapters (add_index index candidates)
              (is_distinct-add_index index candidates h))
        | inr other ↦
            rw other (is_distinct-add_matching target key (suc index) adapters candidates h)
      ]

  is_match_at_step :
      (target : Text) (key : T → Text) (index : ℕ) (adapter : T) (adapters : List T) (i : ℕ)
      → (not (ltb i index) && is_match_at target key (adapter ∷ adapters) (i - index)) ≡ (
          (nat_eq i index && is_match target key adapter)
          || (not (ltb i (suc index)) && is_match_at target key adapters (i - suc index)))
  is_match_at_step target key index adapter adapters i = ground arith

  -- Indexes in a scan count from `index` on.
  mem-add_matching :
      (target : Text) (key : T → Text) (index : ℕ) (adapters : List T) (candidates : List ℕ) (i : ℕ)
      → mem i (add_matching target key index adapters candidates)
        ≡ (mem i candidates || (not (ltb i index) && is_match_at target key adapters (i - index)))
  unfolding add_matching
  mem-add_matching target key index [] candidates i = ground arith
  mem-add_matching target key index (adapter ∷ adapters) candidates i = ground (
    arith,
    mem-add_matching target key (suc index) adapters candidates i,
    mem-add_matching target key (suc index) adapters (add_index index candidates) i,
    mem-add_index i index candidates,
    is_match_at_step target key index adapter adapters i,
  )

  is_distinct-add_legacy :
      (target : Text) (keys : List (Option (T → Text))) (adapters : List T) (candidates : List ℕ)
      → is_distinct candidates ≡ true
      → is_distinct (add_legacy target keys adapters candidates) ≡ true
  unfolding add_legacy
  is_distinct-add_legacy target [] adapters candidates h = h
  is_distinct-add_legacy target (none ∷ keys) adapters candidates h =
      is_distinct-add_legacy target keys adapters candidates h
  is_distinct-add_legacy target (some key ∷ keys) adapters candidates h =
      is_distinct-add_legacy target keys adapters (add_matching target key 0 adapters candidates)
        (is_distinct-add_matching target key 0 adapters candidates h)

  mem-add_matching_all :
      (target : Text) (key : T → Text) (adapters : List T) (candidates : List ℕ) (i : ℕ)
      → mem i (add_matching target key 0 adapters candidates)
        ≡ (mem i candidates || is_match_at target key adapters i)
  mem-add_matching_all target key adapters candidates i =
      let same : i - 0 ≡ i = omega arith in
      mem-add_matching target key 0 adapters candidates i ∙ rw same (ground arith)

  mem-add_legacy :
      (target : Text) (keys : List (Option (T → Text))) (adapters : List T) (candidates : List ℕ)
      (i : ℕ)
      → mem i (add_legacy target keys adapters candidates)
        ≡ (mem i candidates || is_legacy_match_at target keys adapters i)
  unfolding add_legacy
  mem-add_legacy target [] adapters candidates i = ground arith
  mem-add_legacy target (none ∷ keys) adapters candidates i =
      mem-add_legacy target keys adapters candidates i
  mem-add_legacy target (some key ∷ keys) adapters candidates i = ground (
    arith,
    mem-add_legacy target keys adapters (add_matching target key 0 adapters candidates) i,
    mem-add_matching_all target key adapters candidates i,
  )

  add_matching-Extends :
      (target : Text) (key : T → Text) (index : ℕ) (adapters : List T) (candidates : List ℕ)
      → Extends candidates (add_matching target key index adapters candidates)
  unfolding add_matching
  add_matching-Extends target key index [] candidates = ([], sym (append-nil candidates))
  add_matching-Extends target key index (adapter ∷ adapters) candidates =
      elim (Bool-cases (is_match target key adapter)) [
        | inl matches ↦ rw matches (
            Extends-trans candidates (add_index index candidates)
              (add_matching target key (suc index) adapters (add_index index candidates))
              (add_index-Extends index candidates)
              (add_matching-Extends target key (suc index) adapters (add_index index candidates)))
        | inr other ↦ rw other (add_matching-Extends target key (suc index) adapters candidates)
      ]

  add_legacy-Extends :
      (target : Text) (keys : List (Option (T → Text))) (adapters : List T) (candidates : List ℕ)
      → Extends candidates (add_legacy target keys adapters candidates)
  unfolding add_legacy
  add_legacy-Extends target [] adapters candidates = ([], sym (append-nil candidates))
  add_legacy-Extends target (none ∷ keys) adapters candidates =
      add_legacy-Extends target keys adapters candidates
  add_legacy-Extends target (some key ∷ keys) adapters candidates =
      Extends-trans candidates (add_matching target key 0 adapters candidates)
        (add_legacy target keys adapters (add_matching target key 0 adapters candidates))
        (add_matching-Extends target key 0 adapters candidates)
        (add_legacy-Extends target keys adapters (add_matching target key 0 adapters candidates))

  -- If there is a text to look for, the candidates are the indexes of the adapters of which the id, a
  -- legacy id or the provider's model id is that text, each once; and those with that id come before
  -- the others.
  pub resolve_adapter_indexes_lem :
      (first : T) (adapters : List T) (requested : Text) (id provider_model_id : T → Text)
      (legacy_ids : List (Option (T → Text)))
      → let target = target_model_ref first requested id in
        is_empty target ≡ false
        → let all = first ∷ adapters in
          let candidates = resolve_adapter_indexes all requested id provider_model_id legacy_ids in
          (is_distinct candidates ≡ true)
          × ((i : ℕ)
              → mem i candidates ≡ (
                  (is_match_at target id all i || is_legacy_match_at target legacy_ids all i)
                  || is_match_at target provider_model_id all i))
          × ((exact rest : List ℕ) × (candidates ≡ exact ++ rest)
              × ((i : ℕ) → mem i exact ≡ is_match_at target id all i))
  unfolding resolve_adapter_indexes indexes_of_target
  resolve_adapter_indexes_lem first adapters requested id provider_model_id legacy_ids named =
      let target = target_model_ref first requested id in
      let all = first ∷ adapters in
      let exact = add_matching target id 0 all [] in
      let legacy = add_legacy target legacy_ids all exact in
      let last = add_matching target provider_model_id 0 all legacy in
      let (rest, behind) =
        Extends-trans exact legacy last (add_legacy-Extends target legacy_ids all exact)
          (add_matching-Extends target provider_model_id 0 all legacy) in
      rw named (
        is_distinct-add_matching target provider_model_id 0 all legacy (
            is_distinct-add_legacy target legacy_ids all exact
              (is_distinct-add_matching target id 0 all [] refl)),
        (λ i. ground (
          arith,
          mem-add_matching_all target provider_model_id all legacy i,
          mem-add_legacy target legacy_ids all exact i,
          mem-add_matching_all target id all [] i,
        )),
        (exact, rest, behind, mem-add_matching_all target id all []),
      )
