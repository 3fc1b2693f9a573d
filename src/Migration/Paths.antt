-- ===== src/Migration/Paths.antt =====
-- The checks on paths of crates/core-profiles/src/migration.rs.
pub mod Overlap
use win_profile.Base.{
  ℕ, ◌+◌, Bool, true, false, not, ◌&&◌, ◌||◌, List, [], ◌∷◌, ◌++◌, Option, none, some, Result, ok,
  err, Text, codes, text_eq, contains_text, starts_with, strip_prefix, ends_with, split,
  replace_char, trim_end_matches, to_ascii_uppercase, is_empty, any, drop, get_elem?, length, ltb,
  leb, ◌==◌, check_that, if◌then◌else◌,
}
use win_profile.Platform.Wide.{Wide}
use win_profile.Migration.Errors.{MigrationError, invalid_plan}

-- `second.strip_prefix(first).is_some_and(|suffix| suffix.starts_with('\\'))`
unfoldable pub extends_key : Text → Text → Bool
extends_key first second = elim (strip_prefix second first) [
  | none ↦ false
  | some suffix ↦ starts_with suffix (codes "\\")
]

-- `lower` is `str::to_lowercase`.
module _ (lower : Text → Text) where
  is_backslash : ℕ → Bool
  is_backslash c = c == b'\\'

  unfoldable pub normalized_path_key : Text → Text
  unfolding is_backslash replace_char trim_end_matches
  normalized_path_key p = lower (trim_end_matches is_backslash (replace_char b'/' b'\\' p))

  unfoldable pub paths_overlap : Text → Text → Bool
  unfolding normalized_path_key extends_key
  paths_overlap first second =
      let a = normalized_path_key first in
      let b = normalized_path_key second in text_eq a b || extends_key a b || extends_key b a

unfoldable pub is_ascii_letter : ℕ → Bool
is_ascii_letter u = (leb b'a' u && leb u b'z') || (leb b'A' u && leb u b'Z')

unfoldable pub is_at : Option ℕ → ℕ → Bool
is_at none v = false
is_at (some u) v = u == v

unfoldable pub is_letter : Option ℕ → Bool
unfolding is_ascii_letter
is_letter none = false
is_letter (some u) = is_ascii_letter u

-- `.`, `..` and the empty component.
unfoldable pub is_dotted : Text → Bool
is_dotted component =
    is_empty component || text_eq component (codes ".") || text_eq component (codes "..")

raw_message : Text → Text
raw_message label = label ++ codes " path must be a normalized absolute drive path"

dots_message : Text → Text
dots_message label = label ++ codes " path must not contain empty, '.' or '..' components"

-- On the UTF-16 units of the path.
unfoldable pub validate_raw_release_path : Wide → Text → Result MigrationError (Unit {0})
unfolding is_at is_letter is_dotted raw_message dots_message split
validate_raw_release_path encoded label =
    if ltb (length encoded) 3
      || not (is_letter (get_elem? encoded 0))
      || not (is_at (get_elem? encoded 1) b':')
      || not (is_at (get_elem? encoded 2) b'\\')
      || any (λ u. u == b'/') encoded
    then err (invalid_plan (raw_message label))
    else if is_empty (drop 3 encoded)
    then ok tt
    else if any is_dotted (split b'\\' (drop 3 encoded))
    then err (invalid_plan (dots_message label))
    else ok tt

is_forbidden : ℕ → Bool
is_forbidden c = leb c 0x1f || any (λ d. c == d) (codes "<>:\"/\\|?*")

-- The suffixes of `COM` and `LPT` that name a device.
device_digits : List Text
device_digits =
    codes "1"
    ∷ codes "2"
    ∷ codes "3"
    ∷ codes "4"
    ∷ codes "5"
    ∷ codes "6"
    ∷ codes "7"
    ∷ codes "8"
    ∷ codes "9"
    ∷ (0xb9 ∷ [])
    ∷ (0xb2 ∷ [])
    ∷ (0xb3 ∷ [])
    ∷ []

has_device_digit : Text → Text → Bool
unfolding device_digits
has_device_digit prefix upper = elim (strip_prefix upper prefix) [
  | none ↦ false
  | some suffix ↦ contains_text suffix device_digits
]

first_or_empty : List Text → Text
first_or_empty [] = []
first_or_empty (t ∷ ts) = t

unfoldable pub is_reserved : Text → Bool
unfolding has_device_digit first_or_empty split to_ascii_uppercase
is_reserved value =
    let upper = to_ascii_uppercase (first_or_empty (split b'.' value)) in
    contains_text upper (
      codes "CON" ∷ codes "PRN" ∷ codes "AUX" ∷ codes "NUL" ∷ codes "CONIN$" ∷ codes "CONOUT$" ∷ [])
    || has_device_digit (codes "COM") upper
    || has_device_digit (codes "LPT") upper

unfoldable pub validate_windows_component : Text → Text → Result MigrationError (Unit {0})
unfolding is_reserved is_forbidden ends_with
validate_windows_component value label =
    if is_empty value
      || ends_with value (codes ".")
      || ends_with value (codes " ")
      || any is_forbidden value
    then err
        (invalid_plan (label ++ (codes " contains an invalid Windows path component: " ++ value)))
    else if is_reserved value
    then err (invalid_plan (label ++ (codes " contains a reserved Windows device name: " ++ value)))
    else ok tt
