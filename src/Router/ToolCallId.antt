-- ===== src/Router/ToolCallId.antt =====
-- internal/backend/agent/model/tool_call_id.go: the ids of tool calls that a provider accepts.
--
-- `digest` stands for the SHA-256 sum of a text in hexadecimal.
use cursor_switch.Common.{
  ℕ, ◌+◌, ◌-◌, Bool, true, false, not, ◌&&◌, ◌||◌, Option, none, some, [], ◌∷◌, ◌++◌, ltb, leb,
  if◌then◌else◌, length, take, drop,
}
use cursor_switch.Common.Text.{Text, codes, trim_space, strip_prefix, after_first}
use cursor_switch.Messages.{is_empty}

abbrev pub max_provider_tool_call_id_len : ℕ
max_provider_tool_call_id_len = 64

abbrev pub tool_call_namespace_hash_len : ℕ
tool_call_namespace_hash_len = 12

abbrev pub tool_call_value_hash_len : ℕ
tool_call_value_hash_len = 12

-- `strings.Contains(s, "::")`
unfoldable pub has_separator : Text → Bool
has_separator s = elim (after_first (codes "::") s) [ some rest ↦ true | none ↦ false ]

-- What precedes the first "::" of a text that has one.
before_separator : Text → Text
before_separator [] = []
before_separator (a ∷ s) =
    let rest = a ∷ before_separator s in
    elim (strip_prefix (codes "::") (a ∷ s)) [ some after ↦ [] | none ↦ rest ]

both_named : Text → Text → Option (Text × Text)
both_named namespace raw =
    if is_empty namespace || is_empty raw then none else some (namespace, raw)

unfoldable pub split_legacy_tool_call_id : Text → Option (Text × Text)
unfolding before_separator both_named
split_legacy_tool_call_id value =
    let trimmed = trim_space value in
    elim (after_first (codes "::") trimmed) [
      | none ↦ none
      | some raw ↦ both_named (trim_space (before_separator trimmed)) (trim_space raw)
    ]

module _ (digest : Text → Text) where
  unfoldable pub short_tool_call_hash : Text → ℕ → Text
  short_tool_call_hash value size =
      let hash = digest (trim_space value) in
      if leb (length hash) size then hash else take size hash

  -- The id with the hash of the raw id, and as much of its end as there is room for.
  unfoldable pub hashed_tool_call_id : Text → Text → Text
  unfolding short_tool_call_hash
  hashed_tool_call_id start raw =
      let hash = short_tool_call_hash raw tool_call_value_hash_len in
      let used = length start + length hash + 2 in
      let remaining = max_provider_tool_call_id_len - used in
      let suffix = if ltb remaining (length raw) then drop (length raw - remaining) raw else raw in
      if leb max_provider_tool_call_id_len used
      then start ++ (codes "_" ++ hash)
      else start ++ (codes "_" ++ (hash ++ (codes "_" ++ suffix)))

  unfoldable pub build_provider_safe_tool_call_id : Text → Text → Text
  unfolding hashed_tool_call_id has_separator
  build_provider_safe_tool_call_id namespace raw =
      let trimmed = trim_space raw in
      let start = if is_empty namespace then codes "tc" else codes "tc_" ++ namespace in
      let candidate = start ++ (codes "_" ++ trimmed) in
      if is_empty trimmed
      then []
      else if is_empty namespace
          && leb (length trimmed) max_provider_tool_call_id_len
          && not (has_separator trimmed)
      then trimmed
      else if leb (length candidate) max_provider_tool_call_id_len
      then candidate
      else hashed_tool_call_id start trimmed

  unfoldable pub provider_tool_call_id : Text → Text
  unfolding build_provider_safe_tool_call_id split_legacy_tool_call_id short_tool_call_hash
  provider_tool_call_id tool_call_id =
      let trimmed = trim_space tool_call_id in
      if is_empty trimmed then [] else elim (split_legacy_tool_call_id trimmed) [
        | some (namespace, raw) ↦
            build_provider_safe_tool_call_id
              (short_tool_call_hash namespace tool_call_namespace_hash_len) raw
        | none ↦
            if leb (length trimmed) max_provider_tool_call_id_len
            then trimmed
            else build_provider_safe_tool_call_id [] trimmed
      ]

  unfoldable pub namespace_tool_call_id : Text → Text → Text
  unfolding provider_tool_call_id has_separator
  namespace_tool_call_id model_call_id raw_tool_call_id =
      let raw = trim_space raw_tool_call_id in
      let model = trim_space model_call_id in
      if is_empty raw
      then []
      else if has_separator raw
      then provider_tool_call_id raw
      else if is_empty model
      then provider_tool_call_id raw
      else build_provider_safe_tool_call_id
          (short_tool_call_hash model tool_call_namespace_hash_len) raw
