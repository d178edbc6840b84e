-- ===== src/Router/ToolCallIds.antt =====
-- The ids of tool calls are short enough.
use cursor_switch.Common.{
  ℕ, ◌+◌, ◌-◌, ◌≤◌, Bool, true, false, Option, none, some, [], ◌∷◌, ◌++◌, arith, leb, if◌then◌else◌,
  length, drop, length-append, length-take, length-drop,
}
use cursor_switch.Common.Text.{Text, codes, trim_space}
use cursor_switch.Messages.{is_empty}
use cursor_switch.Router.ToolCallId.{
  split_legacy_tool_call_id, short_tool_call_hash, hashed_tool_call_id,
  build_provider_safe_tool_call_id, provider_tool_call_id, namespace_tool_call_id,
}

module _ (digest : Text → Text) where
  short_hash-le : (value : Text) (size : ℕ) → length (short_tool_call_hash digest value size) ≤ size
  unfolding short_tool_call_hash
  short_hash-le value size = ground (arith, length-take size (digest (trim_space value)))

  hashed-le :
      (start raw : Text) → length start ≤ 15 → length (hashed_tool_call_id digest start raw) ≤ 64
  unfolding hashed_tool_call_id
  hashed-le start raw h =
      let hash = short_tool_call_hash digest raw 12 in
      let remaining : ℕ = 64 - (length start + length hash + 2) in
      let suffix = drop (length raw - remaining) raw in
      ground (
        arith,
        short_hash-le raw 12,
        length-drop (length raw - remaining) raw,
        length-append start (95 ∷ hash),
        length-append start (95 ∷ (hash ++ (95 ∷ suffix))),
        length-append start (95 ∷ (hash ++ (95 ∷ raw))),
        length-append hash (95 ∷ suffix),
        length-append hash (95 ∷ raw),
      )

  build-le :
      (namespace raw : Text)
      → length namespace ≤ 12
      → length (build_provider_safe_tool_call_id digest namespace raw) ≤ 64
  unfolding build_provider_safe_tool_call_id
  build-le namespace raw h = ground (
    arith,
    hashed-le (codes "tc") (trim_space raw),
    hashed-le (codes "tc_" ++ namespace) (trim_space raw),
  )

  provider-le : (id : Text) → length (provider_tool_call_id digest id) ≤ 64
  unfolding provider_tool_call_id
  provider-le id = by_tests (is_empty (trim_space id)) (split_legacy_tool_call_id (trim_space id))
    where
      by_tests :
          (empty : Bool) (parts : Option (Text × Text))
          → let result : Text = if empty then [] else elim parts [
            | some (namespace, raw) ↦
                build_provider_safe_tool_call_id digest
                  (short_tool_call_hash digest namespace 12)
                  raw
            | none ↦
                if leb (length (trim_space id)) 64
                then trim_space id
                else build_provider_safe_tool_call_id digest [] (trim_space id)
          ] in
            length result ≤ 64
      by_tests true parts = omega arith
      by_tests false (some (namespace, raw)) =
          build-le (short_tool_call_hash digest namespace 12) raw (short_hash-le namespace 12)
      by_tests false none = ground (arith, build-le [] (trim_space id))

  -- The ids that a provider is sent, and those that its own ids become in the conversation, are no longer
  -- than 64 bytes, whatever the ids are and whatever the digest gives.
  pub provider_tool_call_id-le :
      (id model_call_id raw_tool_call_id : Text)
      → (length (provider_tool_call_id digest id) ≤ 64)
        × (length (namespace_tool_call_id digest model_call_id raw_tool_call_id) ≤ 64)
  unfolding namespace_tool_call_id
  provider_tool_call_id-le id model_call_id raw_tool_call_id =
      let raw = trim_space raw_tool_call_id in
      let hash = short_tool_call_hash digest (trim_space model_call_id) 12 in
      (
        provider-le id,
        ground (
          arith,
          provider-le raw,
          build-le hash raw,
          short_hash-le (trim_space model_call_id) 12,
        ),
      )
