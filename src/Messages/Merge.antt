-- ===== src/Messages/Merge.antt =====
-- internal/backend/agent/model/router.go: the tests on messages, and the merge of adjacent assistant
-- messages that call tools.
use cursor_switch.Common.{
  ℕ, ◌+◌, Bool, true, false, not, ◌&&◌, ◌||◌, List, [], ◌∷◌, ◌++◌, reverse, if◌then◌else◌, length,
}
use cursor_switch.Common.Text.{Text, codes, trim_space, ◌==◌}
use cursor_switch.Messages.Types.{ToolCallDescriptor, Message}

abbrev pub is_empty {ℓ} : {A : Type ℓ} → List A → Bool
is_empty [] = true
is_empty (x ∷ xs) = false

-- `strings.TrimSpace(s) == ""`
abbrev pub is_blank : Text → Bool
is_blank s = is_empty (trim_space s)

unfoldable pub has_role : Text → Message → Bool
has_role role message = trim_space message.role == role

abbrev pub is_assistant : Message → Bool
is_assistant message = has_role (codes "assistant") message

abbrev pub is_tool : Message → Bool
is_tool message = has_role (codes "tool") message

unfoldable pub is_assistant_placeholder_message : Message → Bool
is_assistant_placeholder_message message =
    if not (is_assistant message)
    then false
    else if not (is_empty message.tool_calls) || not (is_empty message.content_parts)
    then false
    else if not (is_blank message.tool_call_id) || not (is_blank message.name)
    then false
    else if not (is_blank message.reasoning_content)
    then false
    else if not (is_blank message.reasoning_signature)
    then false
    else is_blank message.content

unfoldable pub is_assistant_prefill_message : Message → Bool
is_assistant_prefill_message message =
    if not (is_assistant message)
    then false
    else if not (is_empty message.tool_calls)
    then false
    else if not (is_blank message.tool_call_id) || not (is_blank message.name)
    then false
    else not (is_blank message.content) || not (is_blank message.reasoning_content)

unfoldable pub can_merge : Message → Message → Bool
can_merge last current =
    if not (is_assistant last) || not (is_assistant current)
    then false
    else if is_empty last.tool_calls || is_empty current.tool_calls
    then false
    else if not (is_blank last.tool_call_id) || not (is_blank last.name)
    then false
    else if not (is_blank current.tool_call_id) || not (is_blank current.name)
    then false
    else if not (is_blank current.content) || not (is_empty current.content_parts)
    then false
    else true

-- `mergeProviderReasoning`
unfoldable pub merge_reasoning : Text → Text → Text
merge_reasoning left right =
    let l = trim_space left in
    let r = trim_space right in
    if is_empty l then r else if is_empty r || r == l then l else l ++ 10 ∷ 10 ∷ r

-- `mergeProviderReasoningSignature` and `mergeProviderReasoningSignatureSource`, whose bodies agree
unfoldable pub merge_signature : Text → Text → Text
merge_signature left right =
    let l = trim_space left in
    let r = trim_space right in if is_empty l then r else if is_empty r || r == l then l else []

-- `mergeProviderReasoningMetadata`; the signature of `last` is still the old one.
unfoldable pub merge_metadata : Message → Message → Message
unfolding merge_signature
merge_metadata last current =
    let left = trim_space last.reasoning_signature in
    let right = trim_space current.reasoning_signature in
    let merged = merge_signature left right in
    if is_empty merged
    then record last {
      reasoning_signature = merged;
      reasoning_signature_source = [];
      openai_responses_reasoning_id = [];
      openai_responses_reasoning_status = [];
      openai_responses_reasoning_summary = [];
    }
    else if is_empty left && not (is_empty right)
    then record last {
      reasoning_signature = merged;
      reasoning_signature_source = trim_space current.reasoning_signature_source;
      openai_responses_reasoning_id = current.openai_responses_reasoning_id;
      openai_responses_reasoning_status = current.openai_responses_reasoning_status;
      openai_responses_reasoning_summary = current.openai_responses_reasoning_summary;
    }
    else if left == right
    then record last {
      reasoning_signature = merged;
      reasoning_signature_source =
          merge_signature last.reasoning_signature_source current.reasoning_signature_source;
      openai_responses_reasoning_id =
          if is_blank last.openai_responses_reasoning_id
          then current.openai_responses_reasoning_id
          else last.openai_responses_reasoning_id;
      openai_responses_reasoning_status =
          if is_blank last.openai_responses_reasoning_status
          then current.openai_responses_reasoning_status
          else last.openai_responses_reasoning_status;
      openai_responses_reasoning_summary =
          if is_empty last.openai_responses_reasoning_summary
          then current.openai_responses_reasoning_summary
          else last.openai_responses_reasoning_summary;
    }
    else record last { reasoning_signature = merged }

-- Calls renumbered from a start.
unfoldable pub reindex : ℕ → List ToolCallDescriptor → List ToolCallDescriptor
reindex start [] = []
reindex start (call ∷ calls) = record call { index = start } ∷ reindex (start + 1) calls

-- What `mergeProviderAssistantToolCalls` makes of the last message.
unfoldable pub merge_calls : Message → Message → Message
unfolding merge_metadata
merge_calls last current =
    merge_metadata
      (record last {
        tool_calls = last.tool_calls ++ reindex (length last.tool_calls) current.tool_calls;
        reasoning_content = merge_reasoning last.reasoning_content current.reasoning_content;
      })
      current

-- `merged` has the last message first. `cloneProviderMessage` only unshares the slices.
unfoldable pub merge_onto : List Message → Message → List Message
unfolding merge_calls
merge_onto [] message = message ∷ []
merge_onto (last ∷ merged) message =
    if can_merge last message then merge_calls last message ∷ merged else message ∷ last ∷ merged

unfoldable pub merge_loop : List Message → List Message → List Message
merge_loop merged [] = reverse merged
merge_loop merged (message ∷ input) = merge_loop (merge_onto merged message) input

-- `mergeAdjacentAssistantToolCallMessages`
unfoldable pub merge_adjacent : List Message → List Message
merge_adjacent input = merge_loop [] input
