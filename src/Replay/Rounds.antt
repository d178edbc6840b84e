-- ===== src/Replay/Rounds.antt =====
-- The loops of the truncation end.
use cursor_switch.Common.{
  ℕ, suc, ◌+◌, ◌-◌, ◌/◌, ◌≤◌, ◌<◌, ◌≡◌, refl, inl, inr, some, ◌++◌, arith, leb, if◌then◌else◌,
  length, length-append, Bool-cases, le→leb,
}
use cursor_switch.Common.Text.{Text}
use cursor_switch.Replay.Truncate.{
  truncate_projected_utf8, truncate_projected_utf8_suffix, trim_newlines, truncation_notice,
  truncate_loop, truncate_projected_replay_text, middle_notice, middle_loop,
  truncate_projected_replay_text_middle,
}
use cursor_switch.Replay.Lengths.{
  truncate_projected_utf8-le, truncate_projected_utf8_suffix-le, trim_newlines-le,
  length-truncation_notice, length-middle_notice,
}

truncate_loop_fits :
    (tool_name text : Text) (limit : ℕ)
    → let notice = truncation_notice tool_name limit limit (length text) in
      let kept = truncate_projected_utf8 text (limit - length notice) in
      length notice < limit
      → length (trim_newlines kept ++ truncation_notice tool_name limit (length kept) (length text))
        ≤ limit
truncate_loop_fits tool_name text limit room =
    let notice = truncation_notice tool_name limit limit (length text) in
    let kept = truncate_projected_utf8 text (limit - length notice) in
    let next_notice = truncation_notice tool_name limit (length kept) (length text) in
    let kept_le = truncate_projected_utf8-le text (limit - length notice) in
    omega (
      arith,
      kept_le,
      length-truncation_notice tool_name limit (length kept) limit (length text) (omega arith),
      trim_newlines-le kept,
      length-append (trim_newlines kept) next_notice,
    )

-- What the loop gives.
abbrev pub truncated : Text → Text → ℕ → Text
truncated tool_name text limit =
    let notice = truncation_notice tool_name limit limit (length text) in
    let kept = truncate_projected_utf8 text (limit - length notice) in
    if leb limit (length notice)
    then truncate_projected_utf8 text limit
    else trim_newlines kept ++ truncation_notice tool_name limit (length kept) (length text)

truncate_loop-truncated :
    (fuel : ℕ) (tool_name text : Text) (limit : ℕ)
    → truncate_loop
        (suc fuel)
        tool_name
        text
        limit
        (truncation_notice tool_name limit limit (length text))
      ≡ some (truncated tool_name text limit)
unfolding truncate_loop
truncate_loop-truncated fuel tool_name text limit =
    let notice = truncation_notice tool_name limit limit (length text) in
    let kept = truncate_projected_utf8 text (limit - length notice) in
    elim (Bool-cases (leb limit (length notice))) [
      | inl short ↦ rw short refl
      | inr room ↦
          rw
            (
              room,
              le→leb
                  (length (
                    trim_newlines kept
                    ++ truncation_notice tool_name limit (length kept) (length text)))
                  limit (truncate_loop_fits tool_name text limit (ground arith)),
            )
            refl
    ]

length-truncated :
    (tool_name text : Text) (limit : ℕ) → length (truncated tool_name text limit) ≤ limit
length-truncated tool_name text limit =
    let notice = truncation_notice tool_name limit limit (length text) in
    elim (Bool-cases (leb limit (length notice))) [
      | inl short ↦ rw short (truncate_projected_utf8-le text limit)
      | inr room ↦ rw room (truncate_loop_fits tool_name text limit (ground arith))
    ]

middle_loop_fits :
    (tool_name text : Text) (limit : ℕ)
    → let notice = middle_notice tool_name limit limit (length text) in
      let keep = limit - length notice in
      let head = truncate_projected_utf8 text (keep / 2) in
      let tail = truncate_projected_utf8_suffix text (keep - keep / 2) in
      length notice < limit
      → length (
          head ++ (middle_notice tool_name limit (length head + length tail) (length text) ++ tail))
        ≤ limit
middle_loop_fits tool_name text limit room =
    let notice = middle_notice tool_name limit limit (length text) in
    let keep : ℕ = limit - length notice in
    let head = truncate_projected_utf8 text (keep / 2) in
    let tail = truncate_projected_utf8_suffix text (keep - keep / 2) in
    let next_notice = middle_notice tool_name limit (length head + length tail) (length text) in
    let head_le = truncate_projected_utf8-le text (keep / 2) in
    let tail_le = truncate_projected_utf8_suffix-le text (keep - keep / 2) in
    omega (
      arith,
      length-middle_notice tool_name limit (length head + length tail) limit (length text)
          (omega arith),
      length-append head (next_notice ++ tail),
      length-append next_notice tail,
    )

-- The same for a text that loses its middle.
abbrev pub shortened : Text → Text → ℕ → Text
shortened tool_name text limit =
    let notice = middle_notice tool_name limit limit (length text) in
    let keep = limit - length notice in
    let head = truncate_projected_utf8 text (keep / 2) in
    let tail = truncate_projected_utf8_suffix text (keep - keep / 2) in
    if leb limit (length notice)
    then truncate_projected_utf8 text limit
    else head ++ (middle_notice tool_name limit (length head + length tail) (length text) ++ tail)

middle_loop-shortened :
    (fuel : ℕ) (tool_name text : Text) (limit : ℕ)
    → middle_loop
        (suc fuel)
        tool_name
        text
        limit
        (middle_notice tool_name limit limit (length text))
      ≡ some (shortened tool_name text limit)
unfolding middle_loop
middle_loop-shortened fuel tool_name text limit =
    let notice = middle_notice tool_name limit limit (length text) in
    let keep : ℕ = limit - length notice in
    let head = truncate_projected_utf8 text (keep / 2) in
    let tail = truncate_projected_utf8_suffix text (keep - keep / 2) in
    elim (Bool-cases (leb limit (length notice))) [
      | inl short ↦ rw short refl
      | inr room ↦
          rw
            (
              room,
              le→leb
                  (length (
                    head
                    ++ (middle_notice tool_name limit (length head + length tail) (length text)
                        ++ tail)))
                  limit (middle_loop_fits tool_name text limit (ground arith)),
            )
            refl
    ]

length-shortened :
    (tool_name text : Text) (limit : ℕ) → length (shortened tool_name text limit) ≤ limit
length-shortened tool_name text limit =
    let notice = middle_notice tool_name limit limit (length text) in
    elim (Bool-cases (leb limit (length notice))) [
      | inl short ↦ rw short (truncate_projected_utf8-le text limit)
      | inr room ↦ rw room (middle_loop_fits tool_name text limit (ground arith))
    ]

-- Both truncations of a text that is longer than a limit above 0 return in the first round of their
-- loop, for every tool and text: with fuel for one round or more each gives one and the same result,
-- which is no longer than the limit.
pub truncate-ends :
    (tool_name text : Text) (limit : ℕ)
    → 0 < limit
    → limit < length text
    → ((out : Text) × ((fuel : ℕ)
          → truncate_projected_replay_text (suc fuel) tool_name text limit ≡ some out)
        × (length out ≤ limit))
      × ((out : Text) × ((fuel : ℕ)
            → truncate_projected_replay_text_middle (suc fuel) tool_name text limit ≡ some out)
          × (length out ≤ limit))
unfolding truncate_projected_replay_text truncate_projected_replay_text_middle
truncate-ends tool_name text limit pos over = (
  (
    truncated tool_name text limit,
    (λ fuel. ground (arith, truncate_loop-truncated fuel tool_name text limit)),
    length-truncated tool_name text limit,
  ),
  (
    shortened tool_name text limit,
    (λ fuel. ground (arith, middle_loop-shortened fuel tool_name text limit)),
    length-shortened tool_name text limit,
  ),
)
