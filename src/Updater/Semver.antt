-- ===== src/Updater/Semver.antt =====
-- internal/updater/semver.go: versions and their comparison.
use cursor_switch.Common.{
  ℕ, zero, suc, Bool, true, not, ◌&&◌, Option, none, some, List, [], ◌∷◌, ltb, leb, ◌==◌,
  if◌then◌else◌,
}
use cursor_switch.Common.Int.{ℤ, pos, negsuc}
use cursor_switch.Common.Text.{Text, codes, trim_space, strip_prefix, ◌==◌ as text_eq}
use cursor_switch.Common.Decimal.{is_digit, leading_number}
use cursor_switch.Messages.{is_empty}

-- The results -1, 0 and 1.
pub data Sign : Type 0 where
  less equal greater : Sign

pub record SemanticVersion : Type 0 where
  pub major : ℤ
  pub minor : ℤ
  pub patch : ℤ
  pub prerelease : Text

abbrev pub compare_nats : ℕ → ℕ → Sign
compare_nats a b = if ltb b a then greater else if ltb a b then less else equal

unfoldable pub compare_ints : ℤ → ℤ → Sign
compare_ints (pos a) (pos b) = compare_nats a b
compare_ints (pos a) (negsuc b) = greater
compare_ints (negsuc a) (pos b) = less
compare_ints (negsuc a) (negsuc b) = compare_nats b a

-- `if a != b { return … }` goes on when the two are equal.
abbrev pub or_next : Sign → Sign → Sign
or_next less next = less
or_next greater next = greater
or_next equal next = next

-- `<` and `==` of strings, byte by byte.
unfoldable pub compare_texts : Text → Text → Sign
compare_texts [] [] = equal
compare_texts [] (b ∷ t) = less
compare_texts (a ∷ s) [] = greater
compare_texts (a ∷ s) (b ∷ t) = or_next (compare_nats a b) (compare_texts s t)

all_digits : Text → Bool
all_digits [] = true
all_digits (a ∷ s) = is_digit a && all_digits s

-- Digits below a bound; `strconv.Atoi` refuses an empty text and what does not fit an int64.
bounded_number : ℕ → Text → Option ℕ
unfolding all_digits
bounded_number bound s =
    if not (is_empty s) && all_digits s && leb (leading_number 0 s) bound
    then some (leading_number 0 s)
    else none

negated : Option ℕ → Option ℤ
negated none = none
negated (some zero) = some (pos 0)
negated (some (suc n)) = some (negsuc n)

plain : Option ℕ → Option ℤ
plain none = none
plain (some n) = some (pos n)

-- strconv.Atoi; `none` is an error.
unfoldable pub atoi_checked : Text → Option ℤ
unfolding bounded_number negated plain
atoi_checked [] = none
atoi_checked (a ∷ s) =
    if a == b'-'
    then negated (bounded_number 9_223_372_036_854_775_808 s)
    else if a == b'+'
    then plain (bounded_number 9_223_372_036_854_775_807 s)
    else plain (bounded_number 9_223_372_036_854_775_807 (a ∷ s))

unfoldable pub atoi : Text → ℤ
atoi raw = elim (atoi_checked (trim_space raw)) [ none ↦ pos 0 | some value ↦ value ]

-- strings.Split with the separator ".".
prepended : ℕ → List Text → List Text
prepended a [] = (a ∷ []) ∷ []
prepended a (part ∷ parts) = (a ∷ part) ∷ parts

unfoldable pub split_dots : Text → List Text
unfolding prepended
split_dots [] = [] ∷ []
split_dots (a ∷ s) = let parts = split_dots s in if a == b'.' then [] ∷ parts else prepended a parts

-- What comes before the first "-", and what comes after it: "" if there is none.
unfoldable pub cut_dash : Text → Text × Text
cut_dash [] = ([], [])
cut_dash (a ∷ s) =
    let (before, after) = cut_dash s in if a == b'-' then ([], s) else (a ∷ before, after)

-- One round of the loop of `comparePrerelease`, on what `Atoi` makes of the two parts.
unfoldable pub compare_part : Option ℤ → Option ℤ → Text → Text → Sign
compare_part (some a) (some b) pa pb = compare_ints a b
compare_part (some a) none pa pb = less
compare_part none (some b) pa pb = greater
compare_part none none pa pb = compare_texts pa pb

-- The loop, and the comparison of the numbers of parts that are left.
unfoldable pub compare_parts : List Text → List Text → Sign
unfolding compare_part
compare_parts [] [] = equal
compare_parts [] (pb ∷ bs) = less
compare_parts (pa ∷ as_left) [] = greater
compare_parts (pa ∷ as_left) (pb ∷ bs) =
    or_next (compare_part (atoi_checked pa) (atoi_checked pb) pa pb) (compare_parts as_left bs)

unfoldable pub compare_prerelease : Text → Text → Sign
compare_prerelease a b = compare_parts (split_dots a) (split_dots b)

without_v : Text → Text
without_v raw = elim (strip_prefix (codes "v") raw) [ none ↦ raw | some rest ↦ rest ]

-- The numbers of the parts that are there, and 0 for the others.
unfoldable pub numbers_of : List Text → Text → SemanticVersion
numbers_of [] pre = record { major = pos 0; minor = pos 0; patch = pos 0; prerelease = pre }
numbers_of (a ∷ []) pre = record { major = atoi a; minor = pos 0; patch = pos 0; prerelease = pre }
numbers_of (a ∷ b ∷ []) pre = record {
  major = atoi a;
  minor = atoi b;
  patch = pos 0;
  prerelease = pre;
}
numbers_of (a ∷ b ∷ c ∷ rest) pre = record {
  major = atoi a;
  minor = atoi b;
  patch = atoi c;
  prerelease = pre;
}

unfoldable pub parse_version : Text → SemanticVersion
unfolding without_v numbers_of
parse_version raw =
    let clean = trim_space (without_v raw) in
    let (numbers, prerelease) = cut_dash clean in
    if is_empty clean
    then record { major = pos 0; minor = pos 0; patch = pos 0; prerelease = [] }
    else numbers_of (split_dots numbers) prerelease

-- The end of `compareVersions`, for versions with the same numbers.
unfoldable pub compare_releases : Text → Text → Sign
compare_releases l r =
    if text_eq l r
    then equal
    else if is_empty l
    then greater
    else if is_empty r
    then less
    else compare_prerelease l r

unfoldable pub compare_parsed : SemanticVersion → SemanticVersion → Sign
unfolding compare_releases
compare_parsed left right = or_next (compare_ints left.major right.major) (
    or_next (compare_ints left.minor right.minor) (
      or_next (compare_ints left.patch right.patch)
        (compare_releases left.prerelease right.prerelease)))

unfoldable pub compare_versions : Text → Text → Sign
compare_versions a b = compare_parsed (parse_version a) (parse_version b)
