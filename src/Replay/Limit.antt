-- ===== src/Replay/Limit.antt =====
-- internal/backend/forwarder/tool_result_replay_truncation.go: `limitProjectedToolResultReplay` and the
-- functions that leave parts of a result out.
--
-- json.Unmarshal into an `any`, json.Marshal and the diff text of `computeEditDiff` are arguments.
use cursor_switch.Common.{
  ℕ, Bool, false, not, ◌||◌, Option, none, some, [], ◌++◌, leb, if◌then◌else◌, length,
}
use cursor_switch.Common.Text.{Text, codes, trim_space, ◌==◌}
use cursor_switch.Common.Decimal.{decimal}
use cursor_switch.Messages.{is_empty}
use cursor_switch.Broker.Terminal.{first_non_empty}
use cursor_switch.Replay.Compact.{
  Json, null, string, object, Fields, no_fields, field, projected_web_search_replay_limit, is_edit,
  projected_tool_replay_limit, patch_edit_replay_limit, cut, image_field, shell_field,
  compact_fields, get_object, first_json_text,
}

unfoldable pub is_trivial : Text → Bool
is_trivial trimmed = is_empty trimmed || trimmed == codes "{}" || trimmed == codes "null"

-- Unmarshalling into a map fails on other values; null leaves it empty.
unfoldable pub as_map : Option Json → Option Fields
as_map (some (object fields)) = some fields
as_map (some null) = some no_fields
as_map (some other) = none
as_map none = none

abbrev singleton : Text → Json → Json
singleton key value = object (field key value no_fields)

-- The content that a compaction leaves, and whether it still is the stored one.
abbrev pub replaced : Option Text → Text × Bool → Text × Bool
replaced none before = before
replaced (some compacted) before = (compacted, false)

-- What becomes of the content under a limit.
unfoldable pub limited : Text → Text → Text × Bool → Option ℕ → Text
unfolding cut
limited tool_name result_text (content, from_stored_tool_call) none = trim_space content
limited tool_name result_text (content, from_stored_tool_call) (some limit) =
    let fallback = trim_space result_text in
    let notice =
      codes "[tool result replay truncated: stored ToolCall result exceeded "
      ++ (decimal limit ++ codes " bytes]") in
    if leb (length (trim_space content)) limit
    then trim_space content
    else if from_stored_tool_call
    then cut tool_name (if is_empty fallback then notice else fallback ++ (codes "\n\n" ++ notice))
        limit
    else cut tool_name (trim_space content) limit

module _ (unmarshal : Text → Option Json) (marshal : Json → Option Text)
    (edit_diff : Text → Text → Text) where
  encoded_image : Json × Bool → Option Text
  encoded_image (payload, changed) = if changed then marshal payload else none

  compacted_image : Text → Text → Option Json → Option Text
  unfolding compact_fields image_field encoded_image cut
  compacted_image trimmed fallback none =
      if is_empty fallback
      then some (cut (codes "GenerateImage") trimmed projected_web_search_replay_limit)
      else some fallback
  compacted_image trimmed fallback (some payload) =
      elim (encoded_image (compact_fields image_field payload)) [
        | some encoded ↦ some encoded
        | none ↦ if not (is_empty fallback) then some fallback else some trimmed
      ]

  unfoldable pub compact_projected_generate_image_result_replay : Text → Text → Text → Option Text
  unfolding compacted_image is_trivial
  compact_projected_generate_image_result_replay tool_name content result_text =
      let fallback = trim_space result_text in
      let trimmed = trim_space content in
      if not (trim_space tool_name == codes "GenerateImage")
      then none
      else if is_trivial trimmed
      then if is_empty fallback then none else some fallback
      else compacted_image trimmed fallback (unmarshal trimmed)

  compacted_shell : Option Json → Option Text
  unfolding compact_fields shell_field
  compacted_shell none = none
  compacted_shell (some payload) =
      let (value, changed) = compact_fields shell_field payload in
      if not changed then none else marshal value

  unfoldable pub compact_projected_shell_tool_result_replay : Text → Text → Option Text
  unfolding compacted_shell is_trivial
  compact_projected_shell_tool_result_replay tool_name content =
      let trimmed = trim_space content in
      if not (trim_space tool_name == codes "Shell")
      then none
      else if is_trivial trimmed
      then none
      else compacted_shell (unmarshal trimmed)

  compacted_edit : Text → Option Fields → Option Text
  unfolding first_json_text first_non_empty patch_edit_replay_limit cut
  compacted_edit tool_name none = none
  compacted_edit tool_name (some success) =
      let given = first_json_text success (codes "diff_string") (codes "diffString") in
      let before =
        if is_empty given
        then first_json_text success (codes "before_full_file_content")
            (codes "beforeFullFileContent")
        else [] in
      let after =
        if is_empty given
        then first_json_text success (codes "after_full_file_content")
            (codes "afterFullFileContent")
        else [] in
      let diff = if is_empty before then given else edit_diff before after in
      if not (is_empty diff)
      then marshal (
          singleton (codes "success") (
            singleton (codes "diff_string") (
              string (
                cut (first_non_empty (trim_space tool_name) (codes "PatchEdit")) diff
                  (patch_edit_replay_limit tool_name)))))
      else if not (is_empty after)
      then marshal (
          singleton (codes "success") (
            singleton (codes "after_full_file_content") (
              string (
                cut (first_non_empty (trim_space tool_name) (codes "Write")) after
                  (patch_edit_replay_limit tool_name)))))
      else none

  edited : Text → Option Fields → Option Text
  unfolding compacted_edit get_object
  edited tool_name none = none
  edited tool_name (some payload) = compacted_edit tool_name (get_object (codes "success") payload)

  unfoldable pub compact_projected_edit_tool_result_replay : Text → Text → Option Text
  unfolding edited is_trivial is_edit as_map
  compact_projected_edit_tool_result_replay tool_name content =
      let trimmed = trim_space content in
      if not (is_edit (trim_space tool_name))
      then none
      else if is_trivial trimmed
      then none
      else edited tool_name (as_map (unmarshal trimmed))

  failed_edit : Option Fields → Option Text
  unfolding first_json_text
  failed_edit none = none
  failed_edit (some error_payload) =
      if is_empty (first_json_text error_payload (codes "error") (codes "modelVisibleError"))
      then none
      else marshal (
          singleton (codes "error") (
            singleton (codes "error") (
              string (
                codes
                  "historical edit error omitted from replay; re-read the file before editing"))))

  failed : Option Fields → Option Text
  unfolding failed_edit get_object
  failed none = none
  failed (some payload) = failed_edit (get_object (codes "error") payload)

  unfoldable pub compact_historical_edit_error_replay : Text → Text → Option Text
  unfolding failed is_edit as_map
  compact_historical_edit_error_replay tool_name content =
      let trimmed = trim_space content in
      if not (is_edit (trim_space tool_name))
      then none
      else if is_empty trimmed
      then none
      else failed (as_map (unmarshal trimmed))

  -- The content and whether it is the stored one, after the compactions.
  unfoldable pub compacted : Text → Text → Bool → Bool → Text × Bool
  unfolding compact_historical_edit_error_replay compact_projected_edit_tool_result_replay
      compact_projected_shell_tool_result_replay
  compacted tool_name content from_stored_tool_call historical =
      let first =
        if historical
        then replaced (compact_historical_edit_error_replay tool_name content)
            (content, from_stored_tool_call)
        else (content, from_stored_tool_call) in
      let then_edit =
        replaced (compact_projected_edit_tool_result_replay tool_name first.0) first in
      replaced (compact_projected_shell_tool_result_replay tool_name then_edit.0) then_edit

  unfoldable pub limit_projected_tool_result_replay : Text → Text → Text → Bool → Bool → Text
  unfolding compact_projected_generate_image_result_replay compacted limited
      projected_tool_replay_limit
  limit_projected_tool_result_replay tool_name content result_text from_stored_tool_call
        historical =
      elim (compact_projected_generate_image_result_replay tool_name content result_text) [
        | some image ↦ image
        | none ↦
            limited tool_name result_text
              (compacted tool_name content from_stored_tool_call historical)
              (projected_tool_replay_limit tool_name)
      ]
