-- ===== src/Replay/Bound.antt =====
-- A replayed tool result is within its limit.
use cursor_switch.Common.{
  ℕ, ◌≤◌, ◌<◌, ◌≡◌, ap, inl, inr, Bool, Option, none, some, ◌++◌, arith, leb, length, Bool-cases,
}
use cursor_switch.Common.Text.{Text, codes, trim_space, length-trim_space}
use cursor_switch.Common.Decimal.{decimal}
use cursor_switch.Replay.Truncate.{truncate_projected_replay_text}
use cursor_switch.Replay.Rounds.{truncate-ends}
use cursor_switch.Replay.Compact.{Json, cut, or_same, projected_tool_replay_limit}
use cursor_switch.Replay.Limit.{
  compact_projected_generate_image_result_replay, compacted, limited,
  limit_projected_tool_result_replay,
}

cut-le : (tool text : Text) (limit : ℕ) → 0 < limit → length (cut tool text limit) ≤ limit
unfolding cut or_same truncate_projected_replay_text
cut-le tool text limit pos = elim (Bool-cases (leb (length text) limit)) [
  | inl short ↦ ground (arith, length-trim_space text)
  | inr over ↦
      let (out, ends, le) = (truncate-ends tool text limit pos (ground arith)).0 in rw (ends 0) le
]

limited-le :
    (tool_name result_text : Text) (content : Text × Bool) (limit : ℕ)
    → 0 < limit
    → length (limited tool_name result_text content (some limit)) ≤ limit
unfolding limited
limited-le tool_name result_text content limit pos =
    let fallback = trim_space result_text in
    let notice =
      codes "[tool result replay truncated: stored ToolCall result exceeded "
      ++ (decimal limit ++ codes " bytes]") in
    ground (
      arith,
      cut-le tool_name (trim_space content.0) limit pos,
      cut-le tool_name notice limit pos,
      cut-le tool_name (fallback ++ (codes "\n\n" ++ notice)) limit pos,
    )

limit-pos :
    (tool_name : Text) (limit : ℕ) → projected_tool_replay_limit tool_name ≡ some limit → 0 < limit
unfolding projected_tool_replay_limit
limit-pos tool_name limit h = ground arith

-- The replayed result of a tool that has a limit is within it, whatever the result holds, whether it is a
-- stored tool call or not, and whatever the JSON library and the diff give; unless the tool is
-- GenerateImage and its own compaction gives the result.
pub limit_projected_tool_result_replay-le :
    (unmarshal : Text → Option Json) (marshal : Json → Option Text) (edit_diff : Text → Text → Text)
    (tool_name content result_text : Text) (from_stored_tool_call historical : Bool) (limit : ℕ)
    → projected_tool_replay_limit tool_name ≡ some limit
    → compact_projected_generate_image_result_replay unmarshal marshal edit_diff tool_name content
        result_text
      ≡ none
    → length (
        limit_projected_tool_result_replay unmarshal marshal edit_diff tool_name content result_text
          from_stored_tool_call historical)
      ≤ limit
unfolding limit_projected_tool_result_replay
limit_projected_tool_result_replay-le unmarshal marshal edit_diff tool_name content result_text
      from_stored_tool_call historical limit has_limit no_image =
    let left =
      compacted unmarshal marshal edit_diff tool_name content from_stored_tool_call historical in
    let shown : limit_projected_tool_result_replay unmarshal marshal edit_diff tool_name content
          result_text from_stored_tool_call historical
        ≡ limited tool_name result_text left (some limit) =
      ground arith in
    omega (
      arith,
      ap length shown,
      limited-le tool_name result_text left limit (limit-pos tool_name limit has_limit),
    )
