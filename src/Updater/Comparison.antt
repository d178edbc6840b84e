-- ===== src/Updater/Comparison.antt =====
-- The comparison of versions is a comparison.
use cursor_switch.Common.{ℕ, ◌≡◌, refl, Option, none, some, List, [], ◌∷◌, arith}
use cursor_switch.Common.Int.{ℤ, pos, negsuc}
use cursor_switch.Common.Text.{Text, text_eq_iff}
use cursor_switch.Updater.Semver.{
  Sign, less, equal, greater, SemanticVersion, compare_nats, compare_ints, or_next, compare_texts,
  atoi_checked, split_dots, compare_part, compare_parts, compare_prerelease, compare_releases,
  compare_parsed, parse_version, compare_versions,
}

abbrev pub flip : Sign → Sign
flip less = greater
flip equal = equal
flip greater = less

compare_nats-flip : (a b : ℕ) → compare_nats b a ≡ flip (compare_nats a b)
compare_nats-flip a b = ground arith

compare_ints-flip : (a b : ℤ) → compare_ints b a ≡ flip (compare_ints a b)
unfolding compare_ints
compare_ints-flip (pos a) (pos b) = compare_nats-flip a b
compare_ints-flip (pos a) (negsuc b) = refl
compare_ints-flip (negsuc a) (pos b) = refl
compare_ints-flip (negsuc a) (negsuc b) = compare_nats-flip b a

or_next-flip : (r s r' s' : Sign) → r' ≡ flip r → s' ≡ flip s → or_next r' s' ≡ flip (or_next r s)
or_next-flip less s r' s' h k = rw h refl
or_next-flip equal s r' s' h k = rw (h, k) refl
or_next-flip greater s r' s' h k = rw h refl

compare_texts-flip : (s t : Text) → compare_texts t s ≡ flip (compare_texts s t)
unfolding compare_texts
compare_texts-flip [] [] = refl
compare_texts-flip [] (b ∷ t) = refl
compare_texts-flip (a ∷ s) [] = refl
compare_texts-flip (a ∷ s) (b ∷ t) =
    or_next-flip (compare_nats a b) (compare_texts s t) (compare_nats b a) (compare_texts t s)
      (compare_nats-flip a b) (compare_texts-flip s t)

compare_part-flip :
    (a b : Option ℤ) (s t : Text) → compare_part b a t s ≡ flip (compare_part a b s t)
unfolding compare_part
compare_part-flip (some a) (some b) s t = compare_ints-flip a b
compare_part-flip (some a) none s t = refl
compare_part-flip none (some b) s t = refl
compare_part-flip none none s t = compare_texts-flip s t

compare_parts-flip : (a b : List Text) → compare_parts b a ≡ flip (compare_parts a b)
unfolding compare_parts
compare_parts-flip [] [] = refl
compare_parts-flip [] (q ∷ b) = refl
compare_parts-flip (p ∷ a) [] = refl
compare_parts-flip (p ∷ a) (q ∷ b) =
    or_next-flip (compare_part (atoi_checked p) (atoi_checked q) p q) (compare_parts a b)
      (compare_part (atoi_checked q) (atoi_checked p) q p) (compare_parts b a)
      (compare_part-flip (atoi_checked p) (atoi_checked q) p q) (compare_parts-flip a b)

compare_releases-flip : (l r : Text) → compare_releases r l ≡ flip (compare_releases l r)
unfolding compare_releases compare_prerelease
compare_releases-flip l r = by_empty l r (compare_parts-flip (split_dots l) (split_dots r))
  where
    by_empty :
        (l r : Text)
        → compare_parts (split_dots r) (split_dots l)
          ≡ flip (compare_parts (split_dots l) (split_dots r))
        → compare_releases r l ≡ flip (compare_releases l r)
    by_empty l r h = ground (arith, text_eq_iff l r, text_eq_iff r l)

compare_parsed-flip : (a b : SemanticVersion) → compare_parsed b a ≡ flip (compare_parsed a b)
unfolding compare_parsed
compare_parsed-flip a b = or_next-flip _ _ _ _ (compare_ints-flip a.major b.major) (
    or_next-flip _ _ _ _ (compare_ints-flip a.minor b.minor) (
      or_next-flip _ _ _ _ (compare_ints-flip a.patch b.patch)
        (compare_releases-flip a.prerelease b.prerelease)))

-- Comparing two versions in the other order gives the opposite result: less for greater, greater for
-- less, and equal for equal.
pub compare_versions-flip : (a b : Text) → compare_versions b a ≡ flip (compare_versions a b)
unfolding compare_versions
compare_versions-flip a b = compare_parsed-flip (parse_version a) (parse_version b)
