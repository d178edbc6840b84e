-- ===== src/Messages/Sanitize.antt =====
-- internal/backend/agent/model/router.go: tool calls without an answer are dropped, and the whole of
-- `sanitizeProviderMessages`.
use cursor_switch.Common.{
  ℕ, zero, suc, Bool, false, not, ◌&&◌, ◌||◌, List, [], ◌∷◌, ◌++◌, map, reverse, if◌then◌else◌,
  length,
}
use cursor_switch.Common.Text.{Text, trim_space, ◌==◌}
use cursor_switch.Messages.Types.{ToolCallDescriptor, Message}
use cursor_switch.Messages.Merge.{
  is_empty, is_blank, is_assistant, is_tool, is_assistant_placeholder_message,
  is_assistant_prefill_message, reindex, merge_adjacent,
}

-- Membership in a Go set of strings.
abbrev pub has : Text → List Text → Bool
has k [] = false
has k (j ∷ js) = j == k || has k js

-- The run of tool messages at the front: the inner `for` of `trimDanglingAssistantToolCalls`.
unfoldable pub tool_run : List Message → List Message
tool_run [] = []
tool_run (message ∷ input) = if is_tool message then message ∷ tool_run input else []

-- `responded`: the ids that the run answers, the blank ones left out.
unfoldable pub responded : List Message → List Text
responded [] = []
responded (message ∷ run) =
    if is_blank message.tool_call_id
    then responded run
    else trim_space message.tool_call_id ∷ responded run

unfoldable pub answered_calls : List Text → List ToolCallDescriptor → List ToolCallDescriptor
answered_calls ids [] = []
answered_calls ids (call ∷ calls) =
    if has (trim_space call.id) ids
    then call ∷ answered_calls ids calls
    else answered_calls ids calls

abbrev pub call_ids : List ToolCallDescriptor → List Text
call_ids calls = map (λ (call : ToolCallDescriptor). trim_space call.id) calls

unfoldable pub allowed_answers : List Text → List Message → List Message
allowed_answers ids [] = []
allowed_answers ids (message ∷ run) =
    if has (trim_space message.tool_call_id) ids
    then message ∷ allowed_answers ids run
    else allowed_answers ids run

-- What an assistant message that calls tools, and the run of tool messages after it, become.
unfoldable pub trimmed_group : Message → List Message → List Message
trimmed_group message run =
    let next = reindex 0 (answered_calls (responded run) message.tool_calls) in
    if not (is_empty next)
    then record message { tool_calls = next } ∷ allowed_answers (call_ids next) run
    else if not (is_blank message.content)
        || not (is_empty message.content_parts)
        || not (is_blank message.reasoning_content)
    then record message { tool_calls = [] } ∷ []
    else []

abbrev pub calls_tools : Message → Bool
calls_tools message = is_assistant message && not (is_empty message.tool_calls)

-- The loop over `index`; the first argument is how many messages the last group has taken.
unfoldable pub trim_loop : ℕ → List Message → List Message
trim_loop skip [] = []
trim_loop (suc skip) (message ∷ input) = trim_loop skip input
trim_loop zero (message ∷ input) =
    (if calls_tools message then trimmed_group message (tool_run input) else message ∷ [])
    ++ trim_loop (if calls_tools message then length (tool_run input) else 0) input

unfoldable pub trim_dangling_assistant_tool_calls : List Message → List Message
trim_dangling_assistant_tool_calls input = trim_loop 0 input

unfoldable pub drop_placeholders : List Message → List Message
drop_placeholders [] = []
drop_placeholders (message ∷ input) =
    if is_assistant_placeholder_message message
    then drop_placeholders input
    else message ∷ drop_placeholders input

-- The last `for`, on the messages in reverse order.
unfoldable pub drop_prefill : List Message → List Message
drop_prefill [] = []
drop_prefill (message ∷ rest) =
    if is_assistant_prefill_message message then drop_prefill rest else message ∷ rest

unfoldable pub sanitize_provider_messages : List Message → List Message
sanitize_provider_messages input = reverse (
    drop_prefill
      (reverse (trim_dangling_assistant_tool_calls (merge_adjacent (drop_placeholders input)))))
