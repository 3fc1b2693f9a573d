-- ===== src/Platform/Wide/Decode.antt =====
-- What `from_wide_null` reads back of `to_wide_null`.
use win_profile.Base.{
  ℕ, ◌+◌, ◌-◌, ◌/◌, ◌%◌, ◌<◌, ◌≤◌, ◌≡◌, refl, ◌⊎◌, ◌++◌, [], ◌∷◌, some, ok, Text, All, arith,
  Bool-cases, ltb, inl, inr,
}
use win_profile.Platform.Wide.{
  Wide, encode_wide, to_wide_null, until_null, from_utf16, from_wide_null,
}

-- A Unicode scalar value other than NUL.
abbrev pub IsScalar : ℕ → Type 0
IsScalar c = (0 < c) × (c < 0x110000) × ((c < 0xd800) ⊎ (0xe000 ≤ c))

until_null-encode_wide :
    (s : Text) → All IsScalar s → until_null (encode_wide s ++ 0 ∷ []) ≡ encode_wide s
unfolding encode_wide until_null
until_null-encode_wide [] h = refl
until_null-encode_wide (c ∷ s) h = elim (Bool-cases (ltb c 0x10000)) [
  | inl small ↦ ground (arith, until_null-encode_wide s h.1)
  | inr large ↦ ground (arith, until_null-encode_wide s h.1)
]

from_utf16-single :
    (u : ℕ) (us : Wide) (s : Text)
    → ((u < 0xd800) ⊎ (0xe000 ≤ u))
    → from_utf16 us ≡ some s
    → from_utf16 (u ∷ us) ≡ some (u ∷ s)
unfolding from_utf16
from_utf16-single u [] s h e = ground arith
from_utf16-single u (v ∷ us) s h e = ground arith

from_utf16-double :
    (c : ℕ) (us : Wide) (s : Text)
    → 0x10000 ≤ c
    → c < 0x110000
    → from_utf16 us ≡ some s
    → from_utf16 ((0xd800 + (c - 0x10000) / 1024) ∷ (0xdc00 + (c - 0x10000) % 1024) ∷ us)
      ≡ some (c ∷ s)
unfolding from_utf16
from_utf16-double c us s lo hi e = ground arith

from_utf16-encode_wide : (s : Text) → All IsScalar s → from_utf16 (encode_wide s) ≡ some s
unfolding encode_wide
from_utf16-encode_wide [] h = unfold from_utf16 in refl
from_utf16-encode_wide (c ∷ s) h = ground (
  arith,
  from_utf16-encode_wide s h.1,
  from_utf16-single c (encode_wide s) s,
  from_utf16-double c (encode_wide s) s,
)

-- Every text of Unicode scalar values without NUL is read back unchanged from the wide string
-- that it is encoded into.
pub from_wide_null-to_wide_null :
    {E : Type 0} (invalid : E) (s : Text)
    → All IsScalar s
    → from_wide_null invalid (to_wide_null s) ≡ ok s
unfolding from_wide_null to_wide_null
from_wide_null-to_wide_null invalid s h =
    ground (arith, until_null-encode_wide s h, from_utf16-encode_wide s h)
