-- ===== src/Replay/Prefix.antt =====
-- Truncation keeps as much of a text as is valid UTF-8.
use cursor_switch.Common.{
  ℕ, zero, suc, ◌+◌, ◌-◌, ◌≤◌, ◌<◌, ◌≡◌, refl, sym, ap, ◌∙◌, ◌⊎◌, inl, inr, Bool, true, false, [],
  ◌∷◌, ◌++◌, arith, length, take, drop, length-take, length-drop, take-append-drop, Bool-cases,
}
use mathlib.Core.List.{append_assoc}
use cursor_switch.Common.Text.{Text}
use cursor_switch.Replay.Lengths.{truncate_projected_utf8_suffix-le}
use cursor_switch.Replay.Truncate.{
  is_valid_utf8, is_valid_from, shrink_to_valid, truncate_projected_utf8, valid_suffix,
  truncate_projected_utf8_suffix,
}

empty_valid : is_valid_utf8 [] ≡ true
unfolding is_valid_utf8 is_valid_from
empty_valid = refl

last_or_before : (k n : ℕ) → k ≤ suc n → (k ≡ suc n) ⊎ (k ≤ n)
last_or_before k n h = ground arith

not_last : (valid : ℕ → Bool) (k n : ℕ) → valid k ≡ true → valid (suc n) ≡ false → k ≤ suc n → k ≤ n
not_last valid k n v cut below = elim (last_or_before k n below) [
  | inl last ↦ let same : true ≡ false = sym v ∙ ap valid last ∙ cut in absurd (ground arith)
  | inr before ↦ before
]

-- The longest valid part of the first n bytes.
abbrev IsLongest : Text → ℕ → Text → ℕ → Type 0
IsLongest text n out k =
    (out ≡ take (length out) text)
    × (length out ≤ n)
    × (is_valid_utf8 out ≡ true)
    × (is_valid_utf8 (take k text) ≡ true → k ≤ n → k ≤ length out)

shrink_to_valid-IsLongest :
    (text : Text) (n k : ℕ) → n ≤ length text → IsLongest text n (shrink_to_valid text n) k
unfolding shrink_to_valid
shrink_to_valid-IsLongest text zero k h = (refl, omega arith, empty_valid, λ v le. omega arith)
shrink_to_valid-IsLongest text (suc n) k h =
    let size : length (take (suc n) text) ≡ suc n = omega (arith, length-take (suc n) text) in
    let (front, le, valid, longest) = shrink_to_valid-IsLongest text n k (omega arith) in
    elim (Bool-cases (is_valid_utf8 (take (suc n) text))) [
      | inl all ↦ rw all (
        ap (λ m. take m text) (sym size),
        omega (arith, size),
        all,
        λ v below. omega (arith, size),
      )
      | inr cut ↦ rw cut (
        front,
        omega arith,
        valid,
        λ v below. longest v (not_last (λ m. is_valid_utf8 (take m text)) k n v cut below),
      )
    ]

-- The longest valid end of a text.
abbrev IsLongestEnd : Text → Text → ℕ → Type 0
IsLongestEnd text out k =
    ((front : Text) × (front ++ out ≡ text))
    × (is_valid_utf8 out ≡ true)
    × (is_valid_utf8 (drop k text) ≡ true → length (drop k text) ≤ length out)

valid_suffix-IsLongestEnd : (text : Text) (k : ℕ) → IsLongestEnd text (valid_suffix text) k
unfolding valid_suffix
valid_suffix-IsLongestEnd [] zero = (([], refl), empty_valid, λ v. omega arith)
valid_suffix-IsLongestEnd [] (suc k) = (([], refl), empty_valid, λ v. omega arith)
valid_suffix-IsLongestEnd (a ∷ text) zero =
    let (back, valid, longest) = valid_suffix-IsLongestEnd text zero in
    elim (Bool-cases (is_valid_utf8 (a ∷ text))) [
      | inl all ↦ rw all (([], refl), all, λ v. omega arith)
      | inr cut ↦ rw cut ((a ∷ back.0, ap (◌∷◌ a) back.1), valid, λ v. absurd (ground arith))
    ]
valid_suffix-IsLongestEnd (a ∷ text) (suc k) =
    let (back, valid, longest) = valid_suffix-IsLongestEnd text k in
    elim (Bool-cases (is_valid_utf8 (a ∷ text))) [
      | inl all ↦ rw all (([], refl), all, λ v. omega (arith, length-drop k text))
      | inr cut ↦ rw cut ((a ∷ back.0, ap (◌∷◌ a) back.1), valid, longest)
    ]

drop-drop : (m n : ℕ) (text : Text) → drop n (drop m text) ≡ drop (m + n) text
drop-drop zero n text = let same : 0 + n ≡ n = omega arith in rw same refl
drop-drop (suc m) zero [] = let same : suc m + 0 ≡ suc m = omega arith in rw same refl
drop-drop (suc m) (suc n) [] =
    let same : suc m + suc n ≡ suc (m + suc n) = omega arith in rw same refl
drop-drop (suc m) n (a ∷ text) =
    let same : suc m + n ≡ suc (m + n) = omega arith in rw same (drop-drop m n text)

-- A text that is longer than the limit is cut to the longest valid UTF-8 at its front, and at its end,
-- that is within the limit: what is left is such a front or end of the text, and no front or end within
-- the limit that is valid is longer.
pub truncate_projected_utf8_longest :
    (text : Text) (limit k : ℕ)
    → 0 < limit
    → limit < length text
    → k ≤ limit
    → let front = truncate_projected_utf8 text limit in
      let end = truncate_projected_utf8_suffix text limit in
      ((front ≡ take (length front) text)
        × (length front ≤ limit)
        × (is_valid_utf8 front ≡ true)
        × (is_valid_utf8 (take k text) ≡ true → k ≤ length front))
      × (((rest : Text) × (rest ++ end ≡ text))
          × (length end ≤ limit)
          × (is_valid_utf8 end ≡ true)
          × (is_valid_utf8 (drop (length text - k) text) ≡ true → k ≤ length end))
unfolding truncate_projected_utf8 truncate_projected_utf8_suffix
truncate_projected_utf8_longest text limit k pos over within =
    let shrunk : truncate_projected_utf8 text limit ≡ shrink_to_valid text limit =
      shrinks text limit pos over in
    let last : truncate_projected_utf8_suffix text limit
        ≡ valid_suffix (drop (length text - limit) text) =
      ends text limit pos over in
    let (front, front_le, front_valid, longest) =
      shrink_to_valid-IsLongest text limit k (omega arith) in
    let (back, end_valid, longest_end) =
      valid_suffix-IsLongestEnd (drop (length text - limit) text) (limit - k) in
    let dropped : drop (length text - k) text ≡ drop (limit - k) (drop (length text - limit) text) =
      ap (λ n. drop n text) (omega arith)
      ∙ sym (drop-drop (length text - limit) (limit - k) text) in
    rw (shrunk, last)
      (
        (front, front_le, front_valid, λ v. longest v within),
        (
          (
            take (length text - limit) text ++ back.0,
            append_assoc (take (length text - limit) text) back.0
                  (valid_suffix (drop (length text - limit) text))
                ∙ ap (λ s. take (length text - limit) text ++ s) back.1
                ∙ take-append-drop (length text - limit) text,
          ),
          omega (arith, ap length last, truncate_projected_utf8_suffix-le text limit),
          end_valid,
          λ v.
              let at_end = longest_end (ap is_valid_utf8 (sym dropped) ∙ v) in
              omega (
                arith,
                at_end,
                length-drop (limit - k) (drop (length text - limit) text),
                length-drop (length text - limit) text,
              ),
        ),
      )
  where
    shrinks :
        (t : Text) (n : ℕ)
        → 0 < n
        → n < length t
        → truncate_projected_utf8 t n ≡ shrink_to_valid t n
    shrinks t n p o = ground arith

    ends :
        (t : Text) (n : ℕ)
        → 0 < n
        → n < length t
        → truncate_projected_utf8_suffix t n ≡ valid_suffix (drop (length t - n) t)
    ends t n p o = ground arith
