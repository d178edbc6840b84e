-- ===== src/ModelChannel/Agreement.antt =====
-- The choice of one adapter, against the list of all that match.
use cursor_switch.Common.{
  ℕ, refl, inl, inr, Bool, true, false, Option, none, some, List, [], ◌∷◌, arith, if◌then◌else◌,
}
use cursor_switch.Common.Text.{Text}
use cursor_switch.Messages.{is_empty}
use cursor_switch.ModelChannel.Resolve.{
  target_model_ref, exact_index, legacy_scans, fallback_scan, fallback_index, index_of_target,
  resolve_adapter_index, add_matching, add_legacy, indexes_of_target, resolve_adapter_indexes,
}
use cursor_switch.ModelChannel.Scans.{
  Agrees, IsScanned, IsFirst, add_matching-le, add_matching_head, add_legacy_head,
  legacy_scans-IsScanned, fallback_scan-IsScanned, exact_index-IsFirst,
}

fallback-Agrees :
    (scanned : Option (Option ℕ)) (candidates : List ℕ)
    → IsScanned scanned candidates
    → Agrees (elim scanned [ none ↦ none | some found ↦ found ]) candidates
fallback-Agrees none candidates several = inr several
fallback-Agrees (some none) candidates empty = inl empty
fallback-Agrees (some (some index)) candidates one = ([], one)

module _ {T : Type 0} where
  index_of_target-Agrees :
      (target : Text) (id provider_model_id : T → Text) (legacy_ids : List (Option (T → Text)))
      (adapters : List T)
      → Agrees
          (index_of_target target id provider_model_id legacy_ids adapters)
          (indexes_of_target target id provider_model_id legacy_ids adapters)
  unfolding index_of_target indexes_of_target fallback_index
  index_of_target-Agrees target id provider_model_id legacy_ids adapters =
      by_exact (exact_index target id 0 adapters) (add_matching target id 0 adapters [])
        (exact_index-IsFirst target id 0 adapters)
    where
      last : List ℕ → List ℕ
      last candidates = add_matching target provider_model_id 0 adapters candidates

      by_legacy :
          (scanned : Option (Option ℕ)) (candidates : List ℕ)
          → IsScanned scanned candidates
          → Agrees
              (elim scanned [
                | none ↦ none
                | some (some index) ↦ some index
                | some none ↦ fallback_index target provider_model_id adapters
              ])
              (last candidates)
      by_legacy none candidates several =
          inr (omega (arith, add_matching-le target provider_model_id 0 adapters candidates))
      by_legacy (some (some index)) candidates one =
          rw one (add_matching_head target provider_model_id 0 adapters index [])
      by_legacy (some none) candidates empty = rw empty (
          fallback-Agrees (fallback_scan target provider_model_id 0 adapters none) (last [])
            (fallback_scan-IsScanned target provider_model_id 0 adapters none tt))

      by_exact :
          (exact : Option ℕ) (candidates : List ℕ)
          → IsFirst exact candidates
          → Agrees
              (elim exact [
                | some index ↦ some index
                | none ↦ elim (legacy_scans target legacy_ids adapters none) [
                  | none ↦ none
                  | some (some index) ↦ some index
                  | some none ↦ fallback_index target provider_model_id adapters
                ]
              ])
              (last (add_legacy target legacy_ids adapters candidates))
      by_exact none candidates empty = rw empty (
          by_legacy (legacy_scans target legacy_ids adapters none)
            (add_legacy target legacy_ids adapters [])
            (legacy_scans-IsScanned target legacy_ids adapters none))
      by_exact (some first) candidates (others, same) =
          let (more, same_more) = add_legacy_head target legacy_ids adapters first others in
          rw (same, same_more) (add_matching_head target provider_model_id 0 adapters first more)

  -- The two ways to resolve a model agree: if one adapter is chosen, it is the first of the candidates;
  -- and if none is, there are no candidates, or two at least, of which the single choice refuses to
  -- take one.
  pub resolve_adapter_index-Agrees :
      (adapters : List T) (requested : Text) (id provider_model_id : T → Text)
      (legacy_ids : List (Option (T → Text)))
      → Agrees
          (resolve_adapter_index adapters requested id provider_model_id legacy_ids)
          (resolve_adapter_indexes adapters requested id provider_model_id legacy_ids)
  unfolding resolve_adapter_index resolve_adapter_indexes
  resolve_adapter_index-Agrees [] requested id provider_model_id legacy_ids = inl refl
  resolve_adapter_index-Agrees (first ∷ adapters) requested id provider_model_id legacy_ids =
      by_empty (is_empty target)
    where
      target : Text
      target = target_model_ref first requested id

      by_empty :
          (empty : Bool)
          → Agrees
              (if empty
                then none
                else index_of_target target id provider_model_id legacy_ids (first ∷ adapters))
              (if empty
                then []
                else indexes_of_target target id provider_model_id legacy_ids (first ∷ adapters))
      by_empty true = inl refl
      by_empty false =
          index_of_target-Agrees target id provider_model_id legacy_ids (first ∷ adapters)
