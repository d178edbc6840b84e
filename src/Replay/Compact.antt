-- ===== src/Replay/Compact.antt =====
-- internal/backend/forwarder/tool_result_replay_truncation.go: what is left out of a result before it is
-- cut.
--
-- encoding/json and `computeEditDiff` are arguments. A Go map is a list of fields here; the loops over it
-- change each field for itself, so their order does not matter.
use cursor_switch.Common.{
  ℕ, ◌*◌, Bool, true, false, not, ◌||◌, Option, none, some, [], ◌++◌, if◌then◌else◌, length,
}
use cursor_switch.Common.Text.{Text, codes, trim_space, ◌==◌}
use cursor_switch.Common.Decimal.{decimal}
use cursor_switch.Replay.Truncate.{
  truncate_projected_replay_text, truncate_projected_replay_text_middle,
}

-- What json.Unmarshal puts into an `any`; a number is its text.
mutual
  pub data Json : Type 0 where
    null : Json
    boolean : Bool → Json
    number : Text → Json
    string : Text → Json
    array : Items → Json
    object : Fields → Json

  pub data Items : Type 0 where
    no_items : Items
    item : Json → Items → Items

  pub data Fields : Type 0 where
    no_fields : Fields
    field : Text → Json → Fields → Fields

abbrev kib : ℕ
kib = 1024

abbrev pub projected_read_replay_limit : ℕ
projected_read_replay_limit = 64 * kib

abbrev pub projected_shell_replay_limit : ℕ
projected_shell_replay_limit = 128 * kib

abbrev pub projected_shell_stream_limit : ℕ
projected_shell_stream_limit = 16 * kib

abbrev pub projected_shell_interleaved_limit : ℕ
projected_shell_interleaved_limit = 32 * kib

abbrev pub projected_grep_replay_limit : ℕ
projected_grep_replay_limit = 32 * kib

abbrev pub projected_edit_replay_limit : ℕ
projected_edit_replay_limit = 32 * kib

abbrev pub projected_patch_edit_replay_limit : ℕ
projected_patch_edit_replay_limit = 4 * kib

abbrev pub projected_web_fetch_replay_limit : ℕ
projected_web_fetch_replay_limit = 32 * kib

abbrev pub projected_web_search_replay_limit : ℕ
projected_web_search_replay_limit = 16 * kib

abbrev pub projected_mcp_replay_limit : ℕ
projected_mcp_replay_limit = 32 * kib

unfoldable pub is_patch_edit : Text → Bool
is_patch_edit tool =
    tool == codes "PatchEdit" || tool == codes "PatchEditLines" || tool == codes "PatchEditSpan"

unfoldable pub is_edit : Text → Bool
unfolding is_patch_edit
is_edit tool = is_patch_edit tool || tool == codes "Edit" || tool == codes "Write"

unfoldable pub projected_tool_replay_limit : Text → Option ℕ
unfolding is_patch_edit
projected_tool_replay_limit tool_name =
    let tool = trim_space tool_name in
    if tool == codes "GenerateImage"
    then some projected_web_search_replay_limit
    else if tool == codes "Read"
    then some projected_read_replay_limit
    else if tool == codes "Shell"
    then some projected_shell_replay_limit
    else if tool == codes "Grep"
    then some projected_grep_replay_limit
    else if is_patch_edit tool
    then some projected_patch_edit_replay_limit
    else if tool == codes "Edit" || tool == codes "Write"
    then some projected_edit_replay_limit
    else if tool == codes "WebFetch"
    then some projected_web_fetch_replay_limit
    else if tool == codes "WebSearch"
    then some projected_web_search_replay_limit
    else if tool == codes "CallMcpTool"
        || tool == codes "FetchMcpResource"
        || tool == codes "ListMcpResources"
    then some projected_mcp_replay_limit
    else none

unfoldable pub patch_edit_replay_limit : Text → ℕ
unfolding is_patch_edit
patch_edit_replay_limit tool_name =
    if is_patch_edit (trim_space tool_name)
    then projected_patch_edit_replay_limit
    else projected_edit_replay_limit

-- The fuel of the truncations; one round is enough.
abbrev rounds : ℕ
rounds = 1

unfoldable pub or_same : Text → Option Text → Text
or_same text (some out) = out
or_same text none = text

unfoldable pub cut : Text → Text → ℕ → Text
unfolding or_same
cut tool text limit = or_same text (truncate_projected_replay_text rounds tool text limit)

unfoldable pub cut_middle : Text → Text → ℕ → Text
unfolding or_same
cut_middle tool text limit =
    or_same text (truncate_projected_replay_text_middle rounds tool text limit)

-- The field's value after the change, given what the change inside the value gives.
unfoldable pub image_field : Text → Json → Json × Bool → Json × Bool
image_field key (string text) inner =
    if key == codes "image_data" || key == codes "imageData"
    then (
      string (
          codes "[base64 image data omitted from replay; bytes="
          ++ (decimal (length (trim_space text)) ++ codes "]")),
      true,
    )
    else inner
image_field key other inner = inner

unfoldable pub shell_field : Text → Json → Json × Bool → Json × Bool
unfolding cut_middle
shell_field key (string text) inner =
    let stream = cut_middle (codes "Shell " ++ key) text projected_shell_stream_limit in
    let interleaved =
      cut_middle (codes "Shell interleaved output") text projected_shell_interleaved_limit in
    if key == codes "stdout" || key == codes "stderr"
    then (string stream, not (stream == text))
    else if key == codes "interleaved_output" || key == codes "interleavedOutput"
    then (string interleaved, not (interleaved == text))
    else inner
shell_field key other inner = inner

module _ (change : Text → Json → Json × Bool → Json × Bool) where
  -- `compactGenerateImagePayload` and `compactProjectedShellFields`, which differ in the change of a
  -- field: the value after the change, and whether it was changed.
  unfoldable mutual
    pub compact_fields : Json → Json × Bool
    compact_fields (array items) = let (changed, any) = compact_items items in (array changed, any)
    compact_fields (object fields) =
        let (changed, any) = compact_map fields in (object changed, any)
    compact_fields other = (other, false)

    pub compact_items : Items → Items × Bool
    compact_items no_items = (no_items, false)
    compact_items (item child items) =
        let (value, changed) = compact_fields child in
        let (rest, any) = compact_items items in (item value rest, changed || any)

    pub compact_map : Fields → Fields × Bool
    compact_map no_fields = (no_fields, false)
    compact_map (field key child fields) =
        let (value, changed) = change key child (compact_fields child) in
        let (rest, any) = compact_map fields in (field key value rest, changed || any)

-- `payload[key]`, and its assertion to a type.
unfoldable pub get_field : Text → Fields → Option Json
get_field key no_fields = none
get_field key (field name value fields) =
    let later = get_field key fields in if name == key then some value else later

unfoldable pub get_object : Text → Fields → Option Fields
unfolding get_field
get_object key fields = elim (get_field key fields) [
  | none ↦ none
  | some (object inner) ↦ some inner
  | some other ↦ none
]

unfoldable pub text_of : Option Json → Option Text
text_of (some (string text)) = some text
text_of (some other) = none
text_of none = none

-- `firstJSONText` of two keys.
unfoldable pub first_json_text : Fields → Text → Text → Text
unfolding get_field text_of
first_json_text payload key other = elim (text_of (get_field key payload)) [
  | some text ↦ text
  | none ↦ elim (text_of (get_field other payload)) [ some text ↦ text | none ↦ [] ]
]
