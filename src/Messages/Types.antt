-- ===== src/Messages/Types.antt =====
-- internal/backend/agent/model/types.go and content_parts.go: the messages of a model request.
use cursor_switch.Common.{ℕ, Option, List}
use cursor_switch.Common.Text.{Text}

pub record ImageContent : Type 0 where
  pub mime_type : Text
  pub path : Text
  pub bytes : Text

pub record ContentPart : Type 0 where
  pub kind : Text
  pub text : Text
  pub image : Option ImageContent

pub record ToolCallFunctionShape : Type 0 where
  pub name : Text
  pub arguments : Text

pub record ToolCallDescriptor : Type 0 where
  pub id : Text
  pub index : ℕ
  pub kind : Text
  pub function : ToolCallFunctionShape
  pub openai_responses_id : Text
  pub openai_responses_call_id : Text
  pub openai_responses_status : Text

-- An absent slice is the empty list: the code only takes lengths and elements of them.
pub record Message : Type 0 where
  pub role : Text
  pub content : Text
  pub content_parts : List ContentPart
  pub reasoning_content : Text
  pub reasoning_signature : Text
  pub reasoning_signature_source : Text
  pub openai_responses_reasoning_id : Text
  pub openai_responses_reasoning_status : Text
  pub openai_responses_reasoning_summary : Text
  pub tool_calls : List ToolCallDescriptor
  pub tool_call_id : Text
  pub name : Text
