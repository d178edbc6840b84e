-- ===== src/Replay/Tests.antt =====
-- Truncations of short texts, and instances of the theorems.
use cursor_switch.Common.{
  ℕ, zero, suc, ◌-◌, ◌≤◌, ◌≡◌, refl, true, false, Option, none, some, [], ◌∷◌, ◌++◌, arith, length,
  take, drop,
}
use cursor_switch.Common.Text.{Text, codes, trim_space, ◌==◌}
use cursor_switch.Common.Decimal.{decimal}
use cursor_switch.Replay.Truncate.{
  is_valid_utf8, shrink_to_valid, truncate_projected_utf8, valid_suffix,
  truncate_projected_utf8_suffix, truncate_projected_replay_text,
  truncate_projected_replay_text_middle, is_valid_from, utf8_step,
}
use cursor_switch.Replay.Compact.{
  Json, string, array, object, no_items, item, no_fields, field, image_field, compact_fields,
  compact_items, compact_map, is_patch_edit, projected_tool_replay_limit,
}
use cursor_switch.Replay.Limit.{
  compact_projected_generate_image_result_replay, limit_projected_tool_result_replay,
}
use cursor_switch.Replay.Prefix.{truncate_projected_utf8_longest}
use cursor_switch.Replay.Rounds.{truncate-ends}
use cursor_switch.Replay.Bound.{limit_projected_tool_result_replay-le}

-- Between two letters, a character of three bytes.
abbrev wide : Text
wide = b'a' ∷ 0xe4 ∷ 0xb8 ∷ 0xad ∷ b'b' ∷ []

cut_inside : truncate_projected_utf8 wide 3 ≡ codes "a"
unfolding truncate_projected_utf8 shrink_to_valid is_valid_utf8 is_valid_from utf8_step
cut_inside = refl

cut_behind : truncate_projected_utf8_suffix wide 3 ≡ codes "b"
unfolding truncate_projected_utf8_suffix valid_suffix is_valid_utf8 is_valid_from utf8_step
cut_behind = refl

surrogate_invalid : is_valid_utf8 (0xed ∷ 0xa0 ∷ 0x80 ∷ []) ≡ false
unfolding is_valid_utf8 is_valid_from utf8_step
surrogate_invalid = refl

image_left_out :
    compact_fields image_field (
      array (item (object (field (codes "image_data") (string (codes "QUJD")) no_fields)) no_items))
    ≡ (
      array (
          item
            (object (
              field
                (codes "image_data")
                (string (codes "[base64 image data omitted from replay; bytes=4]"))
                no_fields))
            no_items),
      true,
    )
unfolding compact_fields compact_items compact_map image_field decimal trim_space ◌==◌
image_left_out = refl

abbrev some_letters : ℕ → Text
some_letters zero = []
some_letters (suc n) = b'x' ∷ some_letters n

truncate_projected_utf8_longest_example :
    let front = truncate_projected_utf8 wide 3 in
    let end = truncate_projected_utf8_suffix wide 3 in
    ((front ≡ take (length front) wide)
      × (length front ≤ 3)
      × (is_valid_utf8 front ≡ true)
      × (is_valid_utf8 (take 1 wide) ≡ true → 1 ≤ length front))
    × (((rest : Text) × (rest ++ end ≡ wide))
        × (length end ≤ 3)
        × (is_valid_utf8 end ≡ true)
        × (is_valid_utf8 (drop (length wide - 1) wide) ≡ true → 1 ≤ length end))
truncate_projected_utf8_longest_example =
    truncate_projected_utf8_longest wide 3 1 (omega arith) (omega arith) (omega arith)

truncate-ends_example :
    ((out : Text) × ((fuel : ℕ)
        → truncate_projected_replay_text (suc fuel) (codes "Read") (some_letters 90) 80 ≡ some out)
      × (length out ≤ 80))
    × ((out : Text) × ((fuel : ℕ)
          → truncate_projected_replay_text_middle (suc fuel) (codes "Read") (some_letters 90) 80
            ≡ some out)
        × (length out ≤ 80))
truncate-ends_example =
    truncate-ends (codes "Read") (some_letters 90) 80 (omega arith) (omega arith)

abbrev no_json : Text → Option Json
no_json s = none

abbrev no_text : Json → Option Text
no_text value = none

abbrev no_diff : Text → Text → Text
no_diff before after = []

limit_projected_tool_result_replay-le_example :
    length (
      limit_projected_tool_result_replay no_json no_text no_diff
        (codes " Grep")
        (codes "found")
        []
        true
        true)
    ≤ 32768
unfolding projected_tool_replay_limit is_patch_edit compact_projected_generate_image_result_replay
    trim_space ◌==◌
limit_projected_tool_result_replay-le_example =
    limit_projected_tool_result_replay-le no_json no_text no_diff (codes " Grep") (codes "found") []
      true true 32768 refl refl
