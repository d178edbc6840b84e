-- ===== src/Router/Request.antt =====
-- internal/backend/agent/model/router.go, types.go and internal/runtime/local_runtime.go: the request
-- that a candidate channel is sent.
--
-- Left out of `StreamRequest` are the two pointers of the artifact observer and the request body
-- override, which `applyChannelToRequest` hands on.
use cursor_switch.Common.{Bool, not, ◌&&◌, ◌||◌, Option, none, some, List, [], if◌then◌else◌}
use cursor_switch.Common.Int.{ℤ, pos, leb_ℤ, ltb_ℤ}
use cursor_switch.Common.Text.{Text, codes, trim_space, ◌==◌}
use cursor_switch.Common.StringMap.{StringMap, insert, delete}
use cursor_switch.Messages.{Message, is_empty, is_blank, sanitize_provider_messages}
use cursor_switch.Router.Effort.{
  normalize_runtime_thinking_effort, openai_reasoning_effort_from_runtime,
  anthropic_thinking_effort_of,
}

-- A value of `map[string]any`; `other` stands for the kinds that the router does not write.
pub data Knob : Type 0 where
  number : ℤ → Knob
  word : Text → Knob
  flag : Bool → Knob
  other : Text → Knob

pub record ResolvedChannel : Type 0 where
  pub id : Text
  pub name : Text
  pub provider : Text
  pub provider_label : Text
  pub base_url : Text
  pub api_key : Text
  pub model : Text
  pub context_window_tokens : ℤ
  pub max_tokens : ℤ
  pub reasoning_effort : Text
  pub openai_endpoint : Text
  pub openai_extra_params_enabled : Bool
  pub openai_extra_params_json : Text
  pub custom_headers_enabled : Bool
  pub custom_headers_json : Text
  pub anthropic_extra_params_enabled : Bool
  pub anthropic_extra_params_json : Text
  pub anthropic_max_tokens : ℤ
  pub anthropic_thinking_effort : Text
  pub thinking_budget_tokens : ℤ

pub record StreamRequest : Type 0 where
  pub request_id : Text
  pub run_id : Text
  pub model_call_id : Text
  pub conversation_id : Text
  pub mode : ℤ
  pub model_id : Text
  pub thinking_effort : Text
  pub provider : Text
  pub provider_label : Text
  pub base_url : Text
  pub api_key : Text
  pub provider_model_id : Text
  pub resolved_channel_id : Text
  pub resolved_channel_name : Text
  pub resolved_context_window_tokens : ℤ
  pub reasoning_effort : Text
  pub openai_endpoint : Text
  pub openai_extra_params_enabled : Bool
  pub openai_extra_params_json : Text
  pub custom_headers_enabled : Bool
  pub custom_headers_json : Text
  pub anthropic_extra_params_enabled : Bool
  pub anthropic_extra_params_json : Text
  pub anthropic_max_tokens : ℤ
  pub anthropic_thinking_effort : Text
  pub thinking_budget_tokens : ℤ
  pub messages : List Message
  pub stable_message_count : ℤ
  pub tools : List Text
  pub max_tokens : ℤ
  pub stream : Bool
  pub request_knobs : Option (StringMap Knob)
  pub compile_summary : Text
  pub provider_stream_idle_timeout : ℤ

abbrev pub is_positive : ℤ → Bool
is_positive n = ltb_ℤ (pos 0) n

-- The fields that come from the channel as they are.
unfoldable pub copy_channel : StreamRequest → ResolvedChannel → ℤ → StreamRequest
copy_channel req channel idle_timeout = record req {
  provider = trim_space channel.provider;
  provider_label = trim_space channel.provider_label;
  base_url = trim_space channel.base_url;
  api_key = trim_space channel.api_key;
  provider_model_id = trim_space channel.model;
  resolved_channel_id = trim_space channel.id;
  resolved_channel_name = trim_space channel.name;
  resolved_context_window_tokens = channel.context_window_tokens;
  reasoning_effort = openai_reasoning_effort_from_runtime channel.reasoning_effort;
  openai_endpoint = trim_space channel.openai_endpoint;
  openai_extra_params_enabled = channel.openai_extra_params_enabled;
  openai_extra_params_json = trim_space channel.openai_extra_params_json;
  custom_headers_enabled = channel.custom_headers_enabled;
  custom_headers_json = trim_space channel.custom_headers_json;
  anthropic_extra_params_enabled = channel.anthropic_extra_params_enabled;
  anthropic_extra_params_json = trim_space channel.anthropic_extra_params_json;
  anthropic_max_tokens = channel.anthropic_max_tokens;
  anthropic_thinking_effort = trim_space channel.anthropic_thinking_effort;
  thinking_budget_tokens = channel.thinking_budget_tokens;
  provider_stream_idle_timeout = idle_timeout;
}

-- The thinking effort of the turn overrides the channel's; `runtime_effort` is it, normalised.
unfoldable pub override_effort : Text → StreamRequest → StreamRequest
override_effort runtime_effort resolved =
    if is_empty runtime_effort
    then record resolved { thinking_effort = [] }
    else if runtime_effort == codes "disabled"
    then record resolved {
      thinking_effort = runtime_effort;
      reasoning_effort = [];
      anthropic_thinking_effort = [];
    }
    else record resolved {
      thinking_effort = runtime_effort;
      reasoning_effort = openai_reasoning_effort_from_runtime runtime_effort;
      anthropic_thinking_effort = runtime_effort;
    }

-- The three rules for the output budgets, in their order.
unfoldable pub resolve_max_tokens : StreamRequest → ResolvedChannel → ℤ
resolve_max_tokens req channel =
    if leb_ℤ req.max_tokens (pos 0) && is_positive channel.max_tokens
    then channel.max_tokens
    else req.max_tokens

unfoldable pub resolve_anthropic_max_tokens : StreamRequest → ResolvedChannel → ℤ
unfolding resolve_max_tokens
resolve_anthropic_max_tokens req channel =
    let capped =
      if is_positive req.max_tokens
        && (leb_ℤ channel.anthropic_max_tokens (pos 0)
            || ltb_ℤ req.max_tokens channel.anthropic_max_tokens)
      then req.max_tokens
      else channel.anthropic_max_tokens in
    if leb_ℤ capped (pos 0) && is_positive (resolve_max_tokens req channel)
    then resolve_max_tokens req channel
    else capped

-- `maxAnthropicTokens`
unfoldable pub max_anthropic_tokens : StreamRequest → ℤ
max_anthropic_tokens req =
    if is_positive req.anthropic_max_tokens
    then req.anthropic_max_tokens
    else if is_positive req.max_tokens
    then req.max_tokens
    else pos 65536

-- `if set then knobs[key] = value else delete(knobs, key)`
put_or_delete : Bool → Text → Knob → StringMap Knob → StringMap Knob
put_or_delete set key value knobs = if set then insert key value knobs else delete key knobs

unfoldable pub openai_knobs : StreamRequest → StringMap Knob → StringMap Knob
unfolding put_or_delete
openai_knobs resolved knobs =
    insert (codes "custom_headers_enabled") (flag resolved.custom_headers_enabled) (
      insert (codes "openai_extra_params_enabled") (flag resolved.openai_extra_params_enabled) (
        insert (codes "openai_endpoint") (word resolved.openai_endpoint) (
          put_or_delete (not (is_blank resolved.reasoning_effort)) (codes "reasoning_effort")
            (word (trim_space resolved.reasoning_effort)) knobs)))

unfoldable pub anthropic_knobs : StreamRequest → StringMap Knob → StringMap Knob
unfolding put_or_delete
anthropic_knobs resolved knobs =
    let tokens = number (max_anthropic_tokens resolved) in
    put_or_delete (not (is_blank resolved.anthropic_thinking_effort))
      (codes "anthropic_thinking_effort")
      (word (anthropic_thinking_effort_of resolved.anthropic_thinking_effort))
      (insert (codes "anthropic_max_tokens") tokens (
        insert (codes "max_tokens") tokens (
          insert (codes "anthropic_extra_params_enabled")
            (flag resolved.anthropic_extra_params_enabled)
            (insert (codes "custom_headers_enabled") (flag resolved.custom_headers_enabled)
              (delete (codes "reasoning_effort") knobs)))))

unfoldable pub resolve_knobs : Text → StreamRequest → StringMap Knob → StringMap Knob
unfolding openai_knobs anthropic_knobs
resolve_knobs runtime_effort resolved knobs =
    let common =
      put_or_delete (not (is_empty runtime_effort)) (codes "runtime_thinking_effort")
        (word runtime_effort) (insert (codes "max_tokens") (number resolved.max_tokens) knobs) in
    if resolved.provider == codes "openai"
    then openai_knobs resolved common
    else if resolved.provider == codes "anthropic"
    then anthropic_knobs resolved common
    else common

unfoldable pub apply_channel_to_request : StreamRequest → ResolvedChannel → ℤ → StreamRequest
unfolding copy_channel override_effort resolve_max_tokens resolve_anthropic_max_tokens resolve_knobs
apply_channel_to_request req channel idle_timeout =
    let runtime_effort = normalize_runtime_thinking_effort req.thinking_effort in
    let copied = override_effort runtime_effort (copy_channel req channel idle_timeout) in
    let resolved = record copied {
      max_tokens = resolve_max_tokens req channel;
      anthropic_max_tokens = resolve_anthropic_max_tokens req channel;
      provider_model_id =
          if is_empty copied.provider_model_id
          then trim_space req.model_id
          else copied.provider_model_id;
      messages = sanitize_provider_messages req.messages;
    } in
    record resolved {
      request_knobs = elim req.request_knobs [
        | none ↦ none
        | some knobs ↦ some (resolve_knobs runtime_effort resolved knobs)
      ];
    }
