-- ===== src/Messages/Tests.antt =====
-- A conversation that is sanitised, and the theorems at it.
use cursor_switch.Common.{◌≡◌, refl, List, [], ◌∷◌}
use cursor_switch.Common.Text.{Text, codes, trim_space, ◌==◌}
use cursor_switch.Messages.Types.{ToolCallDescriptor, Message}
use cursor_switch.Messages.Merge.{
  has_role, is_assistant_placeholder_message, is_assistant_prefill_message, can_merge,
  merge_reasoning, merge_metadata, merge_signature, reindex, merge_calls, merge_onto, merge_loop,
  merge_adjacent,
}
use cursor_switch.Messages.Sanitize.{
  tool_run, responded, answered_calls, allowed_answers, trimmed_group, trim_loop,
  trim_dangling_assistant_tool_calls, drop_placeholders, drop_prefill, sanitize_provider_messages,
}
use cursor_switch.Messages.Groups.{WellPaired}
use cursor_switch.Messages.Pairing.{sanitize-WellPaired}
use cursor_switch.Messages.Ending.{IsCut, sanitize-IsCut}
use cursor_switch.Messages.Merging.{all_call_ids, NoneMerge, merge_adjacent_lem}

abbrev call : Text → ToolCallDescriptor
call id = record {
  id = id;
  index = 0;
  kind = codes "function";
  function = record { name = codes "Read"; arguments = [] };
  openai_responses_id = [];
  openai_responses_call_id = [];
  openai_responses_status = [];
}

abbrev message : Text → Text → List ToolCallDescriptor → Text → Message
message role content calls answers = record {
  role = role;
  content = content;
  content_parts = [];
  reasoning_content = [];
  reasoning_signature = [];
  reasoning_signature_source = [];
  openai_responses_reasoning_id = [];
  openai_responses_reasoning_status = [];
  openai_responses_reasoning_summary = [];
  tool_calls = calls;
  tool_call_id = answers;
  name = [];
}

-- Two calls in neighbouring messages, of which the second has no answer; an answer that nobody asked
-- for; a placeholder; and a prefill at the end.
abbrev pub conversation : List Message
conversation =
    message (codes "user") (codes "hi") [] []
    ∷ message (codes "assistant") (codes "look") (call (codes "a") ∷ []) []
    ∷ message (codes " assistant ") [] (call (codes "b") ∷ []) []
    ∷ message (codes "tool") (codes "found") [] (codes "a")
    ∷ message (codes "tool") (codes "odd") [] (codes "c")
    ∷ message (codes "assistant") [] [] []
    ∷ message (codes "assistant") (codes "Sure") [] []
    ∷ []

sanitized :
    sanitize_provider_messages conversation
    ≡ message (codes "user") (codes "hi") [] []
      ∷ message (codes "assistant") (codes "look") (call (codes "a") ∷ []) []
      ∷ message (codes "tool") (codes "found") [] (codes "a")
      ∷ []
unfolding sanitize_provider_messages drop_placeholders merge_adjacent merge_loop merge_onto
    can_merge merge_calls merge_metadata merge_reasoning merge_signature reindex has_role trim_space
    ◌==◌ is_assistant_placeholder_message is_assistant_prefill_message tool_run responded
    answered_calls allowed_answers trimmed_group trim_loop trim_dangling_assistant_tool_calls
    drop_prefill
sanitized = refl

sanitize-WellPaired_example : WellPaired (sanitize_provider_messages conversation)
sanitize-WellPaired_example = sanitize-WellPaired conversation

sanitize-IsCut_example :
    IsCut
      (trim_dangling_assistant_tool_calls (merge_adjacent (drop_placeholders conversation)))
      (sanitize_provider_messages conversation)
sanitize-IsCut_example = sanitize-IsCut conversation

merge_adjacent_lem_example :
    (all_call_ids (merge_adjacent conversation) ≡ all_call_ids conversation)
    × NoneMerge (merge_adjacent conversation)
merge_adjacent_lem_example = merge_adjacent_lem conversation
