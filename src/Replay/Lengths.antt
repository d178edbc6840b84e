-- ===== src/Replay/Lengths.antt =====
-- How long the parts of a truncated text are.
use cursor_switch.Common.{
  ℕ, zero, suc, ◌-◌, ◌≤◌, [], ◌∷◌, ◌++◌, arith, length, drop, length-take, length-drop,
  length-append,
}
use cursor_switch.Common.Text.{Text, codes}
use cursor_switch.Common.Decimal.{decimal, length-decimal_mono}
use cursor_switch.Replay.Truncate.{
  shrink_to_valid, truncate_projected_utf8, valid_suffix, truncate_projected_utf8_suffix,
  trim_newlines, truncation_notice, middle_notice,
}

shrink_to_valid-le : (text : Text) (n : ℕ) → length (shrink_to_valid text n) ≤ n
unfolding shrink_to_valid
shrink_to_valid-le text zero = omega arith
shrink_to_valid-le text (suc n) =
    ground (arith, shrink_to_valid-le text n, length-take (suc n) text)

pub truncate_projected_utf8-le :
    (text : Text) (limit : ℕ) → length (truncate_projected_utf8 text limit) ≤ limit
unfolding truncate_projected_utf8
truncate_projected_utf8-le text limit = ground (arith, shrink_to_valid-le text limit)

valid_suffix-le : (text : Text) → length (valid_suffix text) ≤ length text
unfolding valid_suffix
valid_suffix-le [] = omega arith
valid_suffix-le (a ∷ text) = ground (arith, valid_suffix-le text)

pub truncate_projected_utf8_suffix-le :
    (text : Text) (limit : ℕ) → length (truncate_projected_utf8_suffix text limit) ≤ limit
unfolding truncate_projected_utf8_suffix
truncate_projected_utf8_suffix-le text limit = ground (
  arith,
  valid_suffix-le (drop (length text - limit) text),
  length-drop (length text - limit) text,
)

pub trim_newlines-le : (text : Text) → length (trim_newlines text) ≤ length text
unfolding trim_newlines
trim_newlines-le [] = omega arith
trim_newlines-le (a ∷ text) = ground (arith, trim_newlines-le text)

-- A text around a number is no longer for a smaller number.
length-around :
    (before after : Text) (n m : ℕ)
    → n ≤ m
    → length (before ++ (decimal n ++ after)) ≤ length (before ++ (decimal m ++ after))
length-around before after n m h = omega (
  arith,
  length-decimal_mono n m h,
  length-append before (decimal n ++ after),
  length-append before (decimal m ++ after),
  length-append (decimal n) after,
  length-append (decimal m) after,
)

length-append_mono :
    (before a b : Text) → length a ≤ length b → length (before ++ a) ≤ length (before ++ b)
length-append_mono before a b h = omega (arith, length-append before a, length-append before b)

-- So a notice is no longer if it shows a smaller number.
length-notice :
    (opening tool_name exceeded showing closing : Text) (limit n m : ℕ)
    → n ≤ m
    → let notice = λ (shown : ℕ).
      opening
      ++ (tool_name ++ (exceeded ++ (decimal limit ++ (showing ++ (decimal shown ++ closing))))) in
      length (notice n) ≤ length (notice m)
length-notice opening tool_name exceeded showing closing limit n m h =
    let tail = λ (shown : ℕ). showing ++ (decimal shown ++ closing) in
    let limited = λ (shown : ℕ). decimal limit ++ tail shown in
    let after_tool = λ (shown : ℕ). exceeded ++ limited shown in
    length-append_mono opening (tool_name ++ after_tool n) (tool_name ++ after_tool m) (
      length-append_mono tool_name (after_tool n) (after_tool m) (
        length-append_mono exceeded (limited n) (limited m) (
          length-append_mono (decimal limit) (tail n) (tail m)
            (length-around showing closing n m h))))

pub length-truncation_notice :
    (tool_name : Text) (limit n m original : ℕ)
    → n ≤ m
    → length (truncation_notice tool_name limit n original)
      ≤ length (truncation_notice tool_name limit m original)
unfolding truncation_notice
length-truncation_notice tool_name limit n m original h =
    length-notice (codes "\n\n[truncated: ") tool_name (codes " result exceeded ")
      (codes " bytes; showing ") (codes " of " ++ (decimal original ++ codes " bytes]")) limit n m h

pub length-middle_notice :
    (tool_name : Text) (limit n m original : ℕ)
    → n ≤ m
    → length (middle_notice tool_name limit n original)
      ≤ length (middle_notice tool_name limit m original)
unfolding middle_notice
length-middle_notice tool_name limit n m original h =
    length-notice (codes "\n\n[truncated: ") tool_name (codes " result exceeded ")
      (codes " bytes; omitted middle; showing ")
      (codes " of " ++ (decimal original ++ codes " bytes]\n\n")) limit n m h
