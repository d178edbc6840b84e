-- ===== src/Updater/Tests.antt =====
-- Versions that are compared, and the theorem at them.
use cursor_switch.Common.{◌≡◌, refl}
use cursor_switch.Common.Text.{codes, trim_space, strip_prefix, ◌==◌}
use cursor_switch.Common.Decimal.{leading_number}
use cursor_switch.Updater.Semver.{
  less, equal, greater, compare_ints, compare_texts, atoi_checked, atoi, split_dots, cut_dash,
  numbers_of, compare_part, compare_parts, compare_prerelease, compare_releases, compare_parsed,
  parse_version, compare_versions,
}
use cursor_switch.Updater.Comparison.{flip, compare_versions-flip}

numeric_parts : compare_versions (codes "v1.2.3-beta.10") (codes "1.2.3-beta.2") ≡ greater
unfolding compare_versions parse_version compare_parsed compare_releases compare_prerelease
    compare_parts compare_part compare_ints compare_texts atoi_checked atoi split_dots cut_dash
    numbers_of trim_space strip_prefix leading_number ◌==◌
numeric_parts = refl

release_is_newer : compare_versions (codes "1.10.0-rc.1") (codes "v1.10") ≡ less
unfolding compare_versions parse_version compare_parsed compare_releases compare_prerelease
    compare_parts compare_part compare_ints compare_texts atoi_checked atoi split_dots cut_dash
    numbers_of trim_space strip_prefix leading_number ◌==◌
release_is_newer = refl

-- A "v" after a space is not taken off, and is no number.
space_before_v : compare_versions (codes " v2.1.0") (codes "0.1.0") ≡ equal
unfolding compare_versions parse_version compare_parsed compare_releases compare_prerelease
    compare_parts compare_part compare_ints compare_texts atoi_checked atoi split_dots cut_dash
    numbers_of trim_space strip_prefix leading_number ◌==◌
space_before_v = refl

compare_versions-flip_example :
    compare_versions (codes "1.2.3") (codes "v1.2.3-beta.10")
    ≡ flip (compare_versions (codes "v1.2.3-beta.10") (codes "1.2.3"))
compare_versions-flip_example = compare_versions-flip (codes "v1.2.3-beta.10") (codes "1.2.3")
