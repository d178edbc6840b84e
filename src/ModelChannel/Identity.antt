-- ===== src/ModelChannel/Identity.antt =====
-- internal/modelchannel/identity.go: the ids of channels and the endpoints of OpenAI channels.
--
-- `digest` stands for the SHA-256 sum of a text in hexadecimal.
use cursor_switch.Common.{ℕ, not, ◌||◌, List, [], ◌∷◌, ◌++◌, if◌then◌else◌, take, reverse}
use cursor_switch.Common.Text.{Text, codes, trim_space, lower_text, has_prefix, ◌==◌}
use cursor_switch.Messages.{is_empty}

abbrev pub channel_id_hex_length : ℕ
channel_id_hex_length = 16

abbrev pub openai_endpoint_responses : Text
openai_endpoint_responses = codes "/v1/responses"

abbrev pub openai_endpoint_chat_completions : Text
openai_endpoint_chat_completions = codes "/v1/chat/completions"

abbrev pub openai_endpoint_custom : Text
openai_endpoint_custom = codes "/custom"

unfoldable pub normalize_openai_endpoint : Text → Text → Text
normalize_openai_endpoint provider_type endpoint =
    let normalized = trim_space endpoint in
    if not (trim_space (lower_text provider_type) == codes "openai")
    then []
    else if is_empty normalized
    then openai_endpoint_responses
    else if normalized == openai_endpoint_responses
        || normalized == openai_endpoint_chat_completions
        || normalized == openai_endpoint_custom
    then normalized
    else []

unfoldable pub openai_endpoint_shape : Text → Text
openai_endpoint_shape endpoint =
    let lower = lower_text (trim_space endpoint) in
    if has_prefix (reverse (codes "/responses")) (reverse lower)
    then codes "responses"
    else codes "chat/completions"

-- `strings.Join(parts, "\n")`
unfoldable pub join_lines : List Text → Text
join_lines [] = []
join_lines (part ∷ []) = part
join_lines (part ∷ next ∷ parts) = part ++ (10 ∷ join_lines (next ∷ parts))

-- What tells one channel from another.
pub record ChannelFields : Type 0 where
  pub base_url : Text
  pub model_id : Text
  pub api_key : Text
  pub display_name : Text
  pub openai_endpoint : Text

abbrev pub legacy_parts : ChannelFields → List Text
legacy_parts fields =
    trim_space fields.base_url
    ∷ trim_space fields.model_id
    ∷ trim_space fields.api_key
    ∷ trim_space fields.display_name
    ∷ []

module _ (digest : Text → Text) where
  unfoldable pub channel_id_of_parts : List Text → Text
  unfolding join_lines
  channel_id_of_parts parts = take channel_id_hex_length (digest (join_lines parts))

  unfoldable pub build_legacy_channel_id : ChannelFields → Text
  unfolding channel_id_of_parts
  build_legacy_channel_id fields = channel_id_of_parts (legacy_parts fields)

  unfoldable pub build_channel_id : ChannelFields → Text
  unfolding channel_id_of_parts build_legacy_channel_id
  build_channel_id fields =
      let endpoint = trim_space fields.openai_endpoint in
      if is_empty endpoint
      then build_legacy_channel_id fields
      else channel_id_of_parts (legacy_parts fields ++ endpoint ∷ [])
