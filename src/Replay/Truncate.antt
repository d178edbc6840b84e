-- ===== src/Replay/Truncate.antt =====
-- internal/backend/forwarder/tool_result_replay_truncation.go: the truncation of a text.
--
-- Each of the two loops runs on fuel, and is `none` where the fuel does not suffice.
use cursor_switch.Common.{
  ℕ, zero, suc, ◌+◌, ◌-◌, ◌/◌, Bool, true, false, ◌&&◌, ◌||◌, Option, none, some, [], ◌∷◌, ◌++◌,
  ltb, leb, ◌==◌ as nat_eq, if◌then◌else◌, length, take, drop,
}
use cursor_switch.Common.Text.{Text, codes, trim_space, ◌==◌}
use cursor_switch.Common.Decimal.{decimal}

-- utf8.ValidString reads a character's first byte, which says how many bytes follow and between which
-- bounds the first of them lies. `pending n low high` waits for this byte and n more.
pub data Utf8State : Type 0 where
  start : Utf8State
  pending : ℕ → ℕ → ℕ → Utf8State
  broken : Utf8State

abbrev pub is_in : ℕ → ℕ → ℕ → Bool
is_in low high a = leb low a && leb a high

unfoldable pub utf8_step : Utf8State → ℕ → Utf8State
utf8_step start a =
    if ltb a 0x80
    then start
    else if is_in 0xc2 0xdf a
    then pending 0 0x80 0xbf
    else if nat_eq a 0xe0
    then pending 1 0xa0 0xbf
    else if nat_eq a 0xed
    then pending 1 0x80 0x9f
    else if is_in 0xe1 0xef a
    then pending 1 0x80 0xbf
    else if nat_eq a 0xf0
    then pending 2 0x90 0xbf
    else if is_in 0xf1 0xf3 a
    then pending 2 0x80 0xbf
    else if nat_eq a 0xf4
    then pending 2 0x80 0x8f
    else broken
utf8_step (pending zero low high) a = if is_in low high a then start else broken
utf8_step (pending (suc n) low high) a = if is_in low high a then pending n 0x80 0xbf else broken
utf8_step broken a = broken

unfoldable pub is_valid_from : Utf8State → Text → Bool
unfolding utf8_step
is_valid_from start [] = true
is_valid_from (pending n low high) [] = false
is_valid_from broken [] = false
is_valid_from state (a ∷ s) = is_valid_from (utf8_step state a) s

unfoldable pub is_valid_utf8 : Text → Bool
unfolding is_valid_from
is_valid_utf8 s = is_valid_from start s

-- Of the first n bytes, without bytes at their end until the rest is valid.
unfoldable pub shrink_to_valid : Text → ℕ → Text
unfolding is_valid_utf8
shrink_to_valid text zero = []
shrink_to_valid text (suc n) =
    let shorter = shrink_to_valid text n in
    if is_valid_utf8 (take (suc n) text) then take (suc n) text else shorter

unfoldable pub truncate_projected_utf8 : Text → ℕ → Text
unfolding shrink_to_valid
truncate_projected_utf8 text limit =
    if nat_eq limit 0
    then []
    else if leb (length text) limit
    then text
    else shrink_to_valid text limit

-- The text without bytes at its front until it is valid.
unfoldable pub valid_suffix : Text → Text
unfolding is_valid_utf8
valid_suffix [] = []
valid_suffix (a ∷ s) =
    let shorter = valid_suffix s in if is_valid_utf8 (a ∷ s) then a ∷ s else shorter

unfoldable pub truncate_projected_utf8_suffix : Text → ℕ → Text
unfolding valid_suffix
truncate_projected_utf8_suffix text limit =
    if nat_eq limit 0
    then []
    else if leb (length text) limit
    then text
    else valid_suffix (drop (length text - limit) text)

-- `strings.TrimRight(s, "\n")`
unfoldable pub trim_newlines : Text → Text
trim_newlines [] = []
trim_newlines (a ∷ s) =
    let rest = trim_newlines s in if nat_eq a 10 && nat_eq (length rest) 0 then [] else a ∷ rest

unfoldable pub truncation_notice : Text → ℕ → ℕ → ℕ → Text
truncation_notice tool_name limit shown original =
    codes "\n\n[truncated: "
    ++ (tool_name
        ++ (codes " result exceeded "
            ++ (decimal limit
                ++ (codes " bytes; showing "
                    ++ (decimal shown
                        ++ (codes " of " ++ (decimal original ++ codes " bytes]")))))))

-- The loop, with the notice that the last round made.
unfoldable pub truncate_loop : ℕ → Text → Text → ℕ → Text → Option Text
unfolding truncate_projected_utf8 trim_newlines truncation_notice
truncate_loop zero tool_name text limit notice = none
truncate_loop (suc fuel) tool_name text limit notice =
    let kept = truncate_projected_utf8 text (limit - length notice) in
    let next_notice = truncation_notice tool_name limit (length kept) (length text) in
    let output = trim_newlines kept ++ next_notice in
    let again = truncate_loop fuel tool_name text limit next_notice in
    if leb limit (length notice)
    then some (truncate_projected_utf8 text limit)
    else if leb (length output) limit || next_notice == notice
    then some output
    else again

unfoldable pub truncate_projected_replay_text : ℕ → Text → Text → ℕ → Option Text
unfolding truncate_loop
truncate_projected_replay_text fuel tool_name text limit =
    if nat_eq limit 0 || leb (length text) limit
    then some (trim_space text)
    else truncate_loop fuel tool_name text limit
        (truncation_notice tool_name limit limit (length text))

unfoldable pub middle_notice : Text → ℕ → ℕ → ℕ → Text
middle_notice tool_name limit shown original =
    codes "\n\n[truncated: "
    ++ (tool_name
        ++ (codes " result exceeded "
            ++ (decimal limit
                ++ (codes " bytes; omitted middle; showing "
                    ++ (decimal shown
                        ++ (codes " of " ++ (decimal original ++ codes " bytes]\n\n")))))))

unfoldable pub middle_loop : ℕ → Text → Text → ℕ → Text → Option Text
unfolding truncate_projected_utf8 truncate_projected_utf8_suffix middle_notice
middle_loop zero tool_name text limit notice = none
middle_loop (suc fuel) tool_name text limit notice =
    let keep = limit - length notice in
    let head = truncate_projected_utf8 text (keep / 2) in
    let tail = truncate_projected_utf8_suffix text (keep - keep / 2) in
    let next_notice = middle_notice tool_name limit (length head + length tail) (length text) in
    let output = head ++ (next_notice ++ tail) in
    let again = middle_loop fuel tool_name text limit next_notice in
    if leb limit (length notice)
    then some (truncate_projected_utf8 text limit)
    else if leb (length output) limit || next_notice == notice
    then some output
    else again

unfoldable pub truncate_projected_replay_text_middle : ℕ → Text → Text → ℕ → Option Text
unfolding middle_loop
truncate_projected_replay_text_middle fuel tool_name text limit =
    if nat_eq limit 0
    then some []
    else if leb (length text) limit
    then some text
    else middle_loop fuel tool_name text limit (middle_notice tool_name limit limit (length text))
