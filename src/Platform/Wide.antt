-- ===== src/Platform/Wide.antt =====
-- Wide strings: `to_wide_null` and `from_wide_null` of crates/platform-win32/src/registry.rs, with
-- the UTF-16 coding of Rust's `encode_wide` and `String::from_utf16`.
pub mod Decode
use win_profile.Base.{
  ℕ, ◌+◌, ◌-◌, ◌*◌, ◌/◌, ◌%◌, Bool, ◌&&◌, List, [], ◌∷◌, ◌++◌, Option, none, some, Result, ok, err,
  Text, leb, ltb, ◌==◌, if◌then◌else◌,
}

-- UTF-16 code units.
abbrev pub Wide : Type 0
Wide = List ℕ

encode_char : ℕ → Wide
encode_char c =
    if ltb c 0x10000
    then c ∷ []
    else (0xd800 + (c - 0x10000) / 1024) ∷ (0xdc00 + (c - 0x10000) % 1024) ∷ []

unfoldable pub encode_wide : Text → Wide
unfolding encode_char
encode_wide [] = []
encode_wide (c ∷ s) = encode_char c ++ encode_wide s

unfoldable pub to_wide_null : Text → Wide
unfolding encode_wide
to_wide_null s = encode_wide s ++ 0 ∷ []

is_high : ℕ → Bool
is_high u = leb 0xd800 u && ltb u 0xdc00

is_low : ℕ → Bool
is_low u = leb 0xdc00 u && ltb u 0xe000

-- The slice up to the first NUL, or the whole slice.
until_null : Wide → Wide
until_null [] = []
until_null (u ∷ us) = let rest = until_null us in if u == 0 then [] else u ∷ rest

prepend : ℕ → Option Text → Option Text
prepend c none = none
prepend c (some s) = some (c ∷ s)

pair : ℕ → ℕ → ℕ
pair high low = 0x10000 + (high - 0xd800) * 1024 + (low - 0xdc00)

from_utf16 : Wide → Option Text
unfolding prepend pair is_high is_low
from_utf16 [] = some []
from_utf16 (u ∷ []) = if is_high u then none else if is_low u then none else some (u ∷ [])
from_utf16 (u ∷ v ∷ us) =
    let single : Option Text = prepend u (from_utf16 (v ∷ us)) in
    let double : Option Text = prepend (pair u v) (from_utf16 us) in
    if is_high u then (if is_low v then double else none) else if is_low u then none else single

unfoldable pub from_wide_null : {E : Type 0} → E → Wide → Result E Text
unfolding until_null from_utf16
from_wide_null invalid slice = elim (from_utf16 (until_null slice)) [
  | none ↦ err invalid
  | some s ↦ ok s
]
