-- ===== src/ModelChannel/Tests.antt =====
-- Choices among three adapters, and instances of the theorems.
use cursor_switch.Common.{ℕ, ◌≡◌, refl, true, ◌||◌, Option, none, some, List, [], ◌∷◌, ◌++◌}
use cursor_switch.Common.Text.{Text, codes, trim_space, lower_text, has_prefix, ◌==◌}
use cursor_switch.ModelChannel.Resolve.{
  is_meta_model_alias, mem, target_model_ref, exact_index, index_of_target, resolve_adapter_index,
  add_index, add_matching, add_legacy, indexes_of_target, resolve_adapter_indexes,
}
use cursor_switch.ModelChannel.Scans.{Agrees}
use cursor_switch.ModelChannel.Agreement.{resolve_adapter_index-Agrees}
use cursor_switch.ModelChannel.Identity.{
  ChannelFields, normalize_openai_endpoint, openai_endpoint_shape, join_lines, channel_id_of_parts,
  build_channel_id,
}
use cursor_switch.ModelChannel.Ids.{SameFields, build_channel_id-SameFields}
use cursor_switch.ModelChannel.Candidates.{
  is_distinct, is_match_at, is_legacy_match_at, resolve_adapter_indexes_lem,
}

record Adapter : Type 0 where
  id : Text
  model : Text
  old_id : Text

abbrev three : List Adapter
three =
    record { id = codes "a"; model = codes "gpt"; old_id = codes "o" }
    ∷ record { id = codes "b"; model = codes "gpt"; old_id = codes "gpt" }
    ∷ record { id = codes "gpt"; model = codes "x"; old_id = codes "p" }
    ∷ []

abbrev id_of : Adapter → Text
id_of adapter = adapter.id

abbrev model_of : Adapter → Text
model_of adapter = adapter.model

abbrev old_ids : List (Option (Adapter → Text))
old_ids = none ∷ some (λ adapter. adapter.old_id) ∷ []

-- The exact id comes first, then the legacy id, then the model.
chain : resolve_adapter_indexes three (codes " gpt") id_of model_of old_ids ≡ 2 ∷ 1 ∷ 0 ∷ []
unfolding resolve_adapter_indexes indexes_of_target add_legacy add_matching add_index
    target_model_ref is_meta_model_alias trim_space lower_text ◌==◌
chain = refl

-- An alias stands for the first adapter.
aliased : resolve_adapter_index three (codes "Auto") id_of model_of old_ids ≡ some 0
unfolding resolve_adapter_index index_of_target exact_index target_model_ref is_meta_model_alias
    trim_space lower_text ◌==◌
aliased = refl

resolve_adapter_index-Agrees_example :
    Agrees
      (resolve_adapter_index three (codes "gpt") id_of model_of old_ids)
      (resolve_adapter_indexes three (codes "gpt") id_of model_of old_ids)
resolve_adapter_index-Agrees_example =
    resolve_adapter_index-Agrees three (codes "gpt") id_of model_of old_ids

abbrev first_adapter : Adapter
first_adapter = record { id = codes "a"; model = codes "gpt"; old_id = codes "o" }

abbrev two_more : List Adapter
two_more =
    record { id = codes "b"; model = codes "gpt"; old_id = codes "gpt" }
    ∷ record { id = codes "gpt"; model = codes "x"; old_id = codes "p" }
    ∷ []

resolve_adapter_indexes_lem_example :
    let target = target_model_ref first_adapter (codes "gpt") id_of in
    let candidates = resolve_adapter_indexes three (codes "gpt") id_of model_of old_ids in
    (is_distinct candidates ≡ true)
    × ((i : ℕ)
        → mem i candidates ≡ (
            (is_match_at target id_of three i || is_legacy_match_at target old_ids three i)
            || is_match_at target model_of three i))
    × ((exact rest : List ℕ) × (candidates ≡ exact ++ rest)
        × ((i : ℕ) → mem i exact ≡ is_match_at target id_of three i))
unfolding target_model_ref is_meta_model_alias trim_space lower_text ◌==◌
resolve_adapter_indexes_lem_example =
    resolve_adapter_indexes_lem first_adapter two_more (codes "gpt") id_of model_of old_ids refl

-- An endpoint that is not known becomes empty, and an empty one the default.
endpoint_normal : normalize_openai_endpoint (codes "OpenAI") (codes " ") ≡ codes "/v1/responses"
unfolding normalize_openai_endpoint trim_space lower_text ◌==◌
endpoint_normal = refl

endpoint_unknown : normalize_openai_endpoint (codes "openai") (codes "/v2") ≡ []
unfolding normalize_openai_endpoint trim_space lower_text ◌==◌
endpoint_unknown = refl

shape_responses : openai_endpoint_shape (codes "/v4/Responses ") ≡ codes "responses"
unfolding openai_endpoint_shape trim_space lower_text has_prefix
shape_responses = refl

abbrev fields_of : Text → ChannelFields
fields_of name = record {
  base_url = codes "h";
  model_id = codes "m";
  api_key = codes "k";
  display_name = name;
  openai_endpoint = codes "/custom";
}

abbrev same_text : Text → Text
same_text s = s

build_channel_id-SameFields_example : SameFields (fields_of (codes "n")) (fields_of (codes " n"))
unfolding build_channel_id channel_id_of_parts join_lines trim_space
build_channel_id-SameFields_example =
    build_channel_id-SameFields same_text (fields_of (codes "n")) (fields_of (codes " n"))
      (refl, refl, refl, refl, refl) (refl, refl, refl, refl, refl) (λ _. refl) refl
