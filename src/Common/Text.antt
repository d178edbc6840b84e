-- ===== src/Common/Text.antt =====
-- A Go string as the list of its bytes, and the functions of package strings that the code calls.
use Prim.Native.Char.{code}
use Prim.Native.String.{String}
use Prim.Native.Nat.{ℕ, zero, suc, ◌+◌, ◌≤◌}
use mathlib.Core.Path.{◌≡◌, refl}
use mathlib.Core.Logic.{◌↔◌}
use mathlib.Core.Bool.{Bool, true, false, ◌&&◌, ◌||◌}
use mathlib.Core.List.{List, [], ◌∷◌, reverse}
use mathlib.Core.Option.{Option, none, some}
use native.Mathlib.Omega.{arith}
use cursor_switch.Common.Lists.{length, length-reverse}
use cursor_switch.Common.Tests.{leb, ◌==◌ as nat_eq, if◌then◌else◌}

abbrev pub Text : Type 0
Text = List ℕ

-- The bytes of an ASCII literal.
abbrev pub codes : String → Text
codes String.[] = []
codes (String.◌∷◌ c s) = code c ∷ codes s

infix 50 ◌==◌
unfoldable pub ◌==◌ : Text → Text → Bool
[] == [] = true
(a ∷ s) == (b ∷ t) = nat_eq a b && s == t
_ == _ = false

pub text_eq_iff : (s t : Text) → ((s == t) ≡ true) ↔ (s ≡ t)
unfolding ◌==◌
text_eq_iff [] [] = ((λ _. refl), (λ _. refl))
text_eq_iff [] (b ∷ t) = ground arith
text_eq_iff (a ∷ s) [] = ground arith
text_eq_iff (a ∷ s) (b ∷ t) = ground (arith, text_eq_iff s t)

-- unicode.IsSpace of a byte below 0x80.
abbrev pub is_ascii_space : ℕ → Bool
is_ascii_space a = nat_eq a 32 || (leb 9 a && leb a 13)

-- The third byte of U+2000 to U+200A, U+2028, U+2029 and U+202F.
is_space_e280 : ℕ → Bool
is_space_e280 c = (leb 0x80 c && leb c 0x8a) || nat_eq c 0xa8 || nat_eq c 0xa9 || nat_eq c 0xaf

space2 : ℕ → ℕ → Bool
space2 a b = nat_eq a 0xc2 && (nat_eq b 0x85 || nat_eq b 0xa0)

space3 : ℕ → ℕ → ℕ → Bool
unfolding is_space_e280
space3 a b c =
    (nat_eq a 0xe1 && nat_eq b 0x9a && nat_eq c 0x80)
    || (nat_eq a 0xe2 && nat_eq b 0x80 && is_space_e280 c)
    || (nat_eq a 0xe2 && nat_eq b 0x81 && nat_eq c 0x9f)
    || (nat_eq a 0xe3 && nat_eq b 0x80 && nat_eq c 0x80)

-- The bytes of the white space character at the front of a text; 0 if it does not begin with one.
space_width : Text → ℕ
unfolding space2 space3
space_width [] = 0
space_width (a ∷ []) = if is_ascii_space a then 1 else 0
space_width (a ∷ b ∷ []) = if is_ascii_space a then 1 else if space2 a b then 2 else 0
space_width (a ∷ b ∷ c ∷ s) =
    if is_ascii_space a then 1 else if space2 a b then 2 else if space3 a b c then 3 else 0

-- The same at the end of a text, which is read backwards.
last_space_width : Text → ℕ
unfolding space2 space3
last_space_width [] = 0
last_space_width (a ∷ []) = if is_ascii_space a then 1 else 0
last_space_width (b ∷ a ∷ []) = if is_ascii_space b then 1 else if space2 a b then 2 else 0
last_space_width (c ∷ b ∷ a ∷ s) =
    if is_ascii_space c then 1 else if space2 b c then 2 else if space3 a b c then 3 else 0

-- Drops k bytes, and then characters as long as `width` finds one.
trim_while : (Text → ℕ) → ℕ → Text → Text
trim_while width k [] = []
trim_while width (suc k) (a ∷ s) = trim_while width k s
trim_while width zero (a ∷ s) = elim (width (a ∷ s)) [ zero ↦ a ∷ s | suc k ↦ trim_while width k s ]

-- strings.TrimSpace
unfoldable pub trim_space : Text → Text
unfolding trim_while space_width last_space_width
trim_space s = reverse (trim_while last_space_width 0 (reverse (trim_while space_width 0 s)))

trim_while-le : (width : Text → ℕ) (k : ℕ) (s : Text) → length (trim_while width k s) ≤ length s
unfolding trim_while
trim_while-le width k [] = omega arith
trim_while-le width (suc k) (a ∷ s) = omega (arith, trim_while-le width k s)
trim_while-le width zero (a ∷ s) = by_width (width (a ∷ s)) (λ k. trim_while-le width k s)
  where
    by_width :
        (w : ℕ)
        → ((k : ℕ) → length (trim_while width k s) ≤ length s)
        → length (elim w [ zero ↦ a ∷ s | suc k ↦ trim_while width k s ]) ≤ suc (length s)
    by_width zero go = omega arith
    by_width (suc k) go = omega (arith, go k)

pub length-trim_space : (s : Text) → length (trim_space s) ≤ length s
unfolding trim_space
length-trim_space s =
    let front = trim_while space_width 0 s in
    let back = trim_while last_space_width 0 (reverse front) in
    omega (
      arith,
      trim_while-le space_width 0 s,
      length-reverse front,
      trim_while-le last_space_width 0 (reverse front),
      length-reverse back,
    )

trim_space_ascii : trim_space (codes " \t hi there \n") ≡ codes "hi there"
unfolding trim_space
trim_space_ascii = refl

trim_space_wide :
    trim_space (0xe2 ∷ 0x80 ∷ 0x89 ∷ b'x' ∷ 0xc2 ∷ 0xa0 ∷ 0xe3 ∷ 0x80 ∷ 0x80 ∷ []) ≡ b'x' ∷ []
unfolding trim_space
trim_space_wide = refl

-- strings.HasPrefix, with the rest of the text.
unfoldable pub strip_prefix : Text → Text → Option Text
strip_prefix [] s = some s
strip_prefix (p ∷ ps) [] = none
strip_prefix (p ∷ ps) (a ∷ s) = if nat_eq p a then strip_prefix ps s else none

unfoldable pub has_prefix : Text → Text → Bool
unfolding strip_prefix
has_prefix p s = elim (strip_prefix p s) [ some rest ↦ true | none ↦ false ]

-- What follows the first occurrence of p: `s[strings.Index(s, p)+len(p):]`.
unfoldable pub after_first : Text → Text → Option Text
unfolding strip_prefix
after_first p [] = strip_prefix p []
after_first p (a ∷ s) = elim (strip_prefix p (a ∷ s)) [
  | some rest ↦ some rest
  | none ↦ after_first p s
]

-- strings.ToLower of ASCII text, and the loop of `normalizeAdapterKey`.
abbrev pub to_lower : ℕ → ℕ
to_lower a = if leb 65 a && leb a 90 then a + 32 else a

-- The byte of the lower-case character at the front, and how many more bytes the character takes.
-- U+0130 and U+212A are the only characters beyond ASCII whose lower case is ASCII.
lower_head : ℕ → Text → ℕ × ℕ
lower_head a [] = (to_lower a, 0)
lower_head a (b ∷ []) = if nat_eq a 0xc4 && nat_eq b 0xb0 then (105, 1) else (to_lower a, 0)
lower_head a (b ∷ c ∷ s) =
    if nat_eq a 0xc4 && nat_eq b 0xb0
    then (105, 1)
    else if nat_eq a 0xe2 && nat_eq b 0x84 && nat_eq c 0xaa
    then (107, 2)
    else (to_lower a, 0)

lower_from : ℕ → Text → Text
unfolding lower_head
lower_from skip [] = []
lower_from (suc skip) (a ∷ s) = lower_from skip s
lower_from zero (a ∷ s) = (lower_head a s).0 ∷ lower_from (lower_head a s).1 s

-- strings.ToLower for a comparison with an ASCII text: other letters beyond ASCII, whose lower case
-- is not ASCII, stay as they are.
unfoldable pub lower_text : Text → Text
unfolding lower_from
lower_text s = lower_from 0 s
