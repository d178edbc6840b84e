-- ===== src/ModelChannel/Resolve.antt =====
-- internal/modelchannel/resolve.go. The adapters are of any type, and the functions that read their ids
-- are arguments; an index of -1 is `none`.
use cursor_switch.Common.{
  ℕ, suc, Bool, false, ◌&&◌, ◌||◌, not, Option, none, some, List, [], ◌∷◌, ◌++◌, ◌==◌ as nat_eq,
  if◌then◌else◌,
}
use cursor_switch.Common.Text.{Text, codes, trim_space, lower_text, ◌==◌}
use cursor_switch.Messages.{is_empty}

unfoldable pub is_meta_model_alias : Text → Bool
is_meta_model_alias ref =
    let lower = lower_text (trim_space ref) in
    lower == codes "fast" || lower == codes "default" || lower == codes "auto"

abbrev pub mem : ℕ → List ℕ → Bool
mem i [] = false
mem i (j ∷ js) = nat_eq i j || mem i js

-- `add`; the indexes in `seen` are those of the candidates.
unfoldable pub add_index : ℕ → List ℕ → List ℕ
add_index index candidates = if mem index candidates then candidates else candidates ++ index ∷ []

module _ {T : Type 0} where
  -- The text that the ids of the adapters are compared with.
  unfoldable pub target_model_ref : T → Text → (T → Text) → Text
  unfolding is_meta_model_alias
  target_model_ref first requested id =
      let target = trim_space requested in
      if is_empty target || is_meta_model_alias target then trim_space (id first) else target

  abbrev pub is_match : Text → (T → Text) → T → Bool
  is_match target key adapter = trim_space (key adapter) == target

  -- The first index, from this one on, of an adapter that matches.
  unfoldable pub exact_index : Text → (T → Text) → ℕ → List T → Option ℕ
  exact_index target key index [] = none
  exact_index target key index (adapter ∷ adapters) =
      let later = exact_index target key (suc index) adapters in
      if is_match target key adapter then some index else later

  -- A loop over the adapters: `none` where it returns that there is no index.
  unfoldable pub legacy_scan : Text → (T → Text) → ℕ → List T → Option ℕ → Option (Option ℕ)
  legacy_scan target key index [] found = some found
  legacy_scan target key index (adapter ∷ adapters) none =
      legacy_scan target key (suc index) adapters
        (if is_match target key adapter then some index else none)
  legacy_scan target key index (adapter ∷ adapters) (some other) =
      let later = legacy_scan target key (suc index) adapters (some other) in
      if is_match target key adapter && not (nat_eq other index) then none else later

  -- An absent function is a nil one.
  unfoldable pub legacy_scans :
      Text → List (Option (T → Text)) → List T → Option ℕ → Option (Option ℕ)
  unfolding legacy_scan
  legacy_scans target [] adapters found = some found
  legacy_scans target (none ∷ keys) adapters found = legacy_scans target keys adapters found
  legacy_scans target (some key ∷ keys) adapters found =
      elim (legacy_scan target key 0 adapters found) [
        | none ↦ none
        | some now_found ↦ legacy_scans target keys adapters now_found
      ]

  unfoldable pub fallback_scan : Text → (T → Text) → ℕ → List T → Option ℕ → Option (Option ℕ)
  fallback_scan target key index [] found = some found
  fallback_scan target key index (adapter ∷ adapters) none =
      fallback_scan target key (suc index) adapters
        (if is_match target key adapter then some index else none)
  fallback_scan target key index (adapter ∷ adapters) (some other) =
      let later = fallback_scan target key (suc index) adapters (some other) in
      if is_match target key adapter then none else later

  unfoldable pub fallback_index : Text → (T → Text) → List T → Option ℕ
  unfolding fallback_scan
  fallback_index target provider_model_id adapters =
      elim (fallback_scan target provider_model_id 0 adapters none) [
        | none ↦ none
        | some found ↦ found
      ]

  unfoldable pub index_of_target :
      Text → (T → Text) → (T → Text) → List (Option (T → Text)) → List T → Option ℕ
  unfolding exact_index legacy_scans fallback_index
  index_of_target target id provider_model_id legacy_ids adapters =
      elim (exact_index target id 0 adapters) [
        | some index ↦ some index
        | none ↦ elim (legacy_scans target legacy_ids adapters none) [
          | none ↦ none
          | some (some index) ↦ some index
          | some none ↦ fallback_index target provider_model_id adapters
        ]
      ]

  unfoldable pub resolve_adapter_index :
      List T → Text → (T → Text) → (T → Text) → List (Option (T → Text)) → Option ℕ
  unfolding target_model_ref index_of_target
  resolve_adapter_index [] requested id provider_model_id legacy_ids = none
  resolve_adapter_index (first ∷ adapters) requested id provider_model_id legacy_ids =
      let target = target_model_ref first requested id in
      if is_empty target
      then none
      else index_of_target target id provider_model_id legacy_ids (first ∷ adapters)

  unfoldable pub add_matching : Text → (T → Text) → ℕ → List T → List ℕ → List ℕ
  unfolding add_index
  add_matching target key index [] candidates = candidates
  add_matching target key index (adapter ∷ adapters) candidates =
      add_matching target key (suc index) adapters
        (if is_match target key adapter then add_index index candidates else candidates)

  unfoldable pub add_legacy : Text → List (Option (T → Text)) → List T → List ℕ → List ℕ
  unfolding add_matching
  add_legacy target [] adapters candidates = candidates
  add_legacy target (none ∷ keys) adapters candidates = add_legacy target keys adapters candidates
  add_legacy target (some key ∷ keys) adapters candidates =
      add_legacy target keys adapters (add_matching target key 0 adapters candidates)

  unfoldable pub indexes_of_target :
      Text → (T → Text) → (T → Text) → List (Option (T → Text)) → List T → List ℕ
  unfolding add_legacy add_matching
  indexes_of_target target id provider_model_id legacy_ids adapters =
      add_matching target provider_model_id 0 adapters
        (add_legacy target legacy_ids adapters (add_matching target id 0 adapters []))

  unfoldable pub resolve_adapter_indexes :
      List T → Text → (T → Text) → (T → Text) → List (Option (T → Text)) → List ℕ
  unfolding target_model_ref indexes_of_target
  resolve_adapter_indexes [] requested id provider_model_id legacy_ids = []
  resolve_adapter_indexes (first ∷ adapters) requested id provider_model_id legacy_ids =
      let target = target_model_ref first requested id in
      if is_empty target
      then []
      else indexes_of_target target id provider_model_id legacy_ids (first ∷ adapters)
